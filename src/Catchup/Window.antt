-- ===== src/Catchup/Window.antt =====
-- Indices round the ring of internal/catchup/buffer.go, and the entries that stand there.
use goet.Prelude.{ℕ, zero, suc, ◌+◌, ◌-◌, ◌%◌, ◌<◌, ◌≤◌, ◌≡◌, ◌≢◌, refl, ap, ap₂, ◌⊎◌, inl, inr}
use goet.Prelude.{List, [], ◌∷◌, ◌++◌, arith, length, get_or, set, get_or-set_ne}
use goet.Prelude.{Bool-cases, ltb, ltb→lt, ltb→le}
use native.Mathlib.Nat.{mod-eq_of_lt, mod-eq-sub-mod}
use goet.Catchup.{Entry, no_entry}

-- An index at most once round the ring.
mod_cases :
    (a cap : ℕ) → a < cap + cap → ((a % cap ≡ a) × (a < cap)) ⊎ ((a % cap + cap ≡ a) × (cap ≤ a))
mod_cases a cap h = elim (Bool-cases (ltb a cap)) [
  | inl low ↦ inl (mod-eq_of_lt (ltb→lt a cap low), ltb→lt a cap low)
  | inr high ↦ inr (
    omega (
      arith,
      ltb→le a cap high,
      mod-eq-sub-mod {n = a} {m = cap} (ltb→le a cap high),
      mod-eq_of_lt {n = a - cap} {m = cap} (omega (arith, ltb→le a cap high)),
    ),
    ltb→le a cap high,
  )
]

module _ (cap : ℕ) where
  -- Two places less than a round apart are different.
  pub place_ne : (t i j : ℕ) → t < cap → i < cap → j < cap → i ≢ j → (t + i) % cap ≢ (t + j) % cap
  place_ne t i j ht hi hj ne =
      omega (arith, mod_cases (t + i) cap (omega arith), mod_cases (t + j) cap (omega arith))

  pub tail_bound : (h n : ℕ) → h < cap → (h + cap - n) % cap < cap
  tail_bound h n hh = omega arith

  -- The tail after the oldest entry is gone.
  pub tail_evict :
      (h n : ℕ)
      → h < cap
      → 0 < n
      → n ≤ cap
      → (h + cap - (n - 1)) % cap ≡ ((h + cap - n) % cap + 1) % cap
  tail_evict h n hh hn hc =
      let t : ℕ = (h + cap - n) % cap in
      omega (
        arith,
        mod_cases (h + cap - n) cap (omega arith),
        mod_cases (h + cap - (n - 1)) (cap) (omega arith),
        mod_cases (t + 1) cap (omega (arith, tail_bound h n hh)),
      )

  -- The tail after a push.
  pub tail_push :
      (h n : ℕ) → h < cap → n < cap → ((h + 1) % cap + cap - (n + 1)) % cap ≡ (h + cap - n) % cap
  tail_push h n hh hn = omega (
    arith,
    mod_cases (h + 1) cap (omega arith),
    mod_cases ((h + 1) % cap + cap - (n + 1)) cap
        (omega (arith, mod_cases (h + 1) cap (omega arith))),
    mod_cases (h + cap - n) cap (omega arith),
  )

  -- The head is `n` places after the tail.
  pub head_place : (h n : ℕ) → h < cap → n ≤ cap → ((h + cap - n) % cap + n) % cap ≡ h
  head_place h n hh hn = omega (
    arith,
    mod_cases (h + cap - n) cap (omega arith),
    mod_cases ((h + cap - n) % cap + n) cap (omega (arith, tail_bound h n hh)),
  )

  -- The newest place is one before the head.
  pub newest_place :
      (h n : ℕ)
      → h < cap
      → 0 < n
      → n ≤ cap
      → ((h + cap - n) % cap + (n - 1)) % cap ≡ (h + cap - 1) % cap
  newest_place h n hh hp hn = omega (
    arith,
    mod_cases (h + cap - n) cap (omega arith),
    mod_cases ((h + cap - n) % cap + (n - 1)) cap (omega (arith, tail_bound h n hh)),
    mod_cases (h + cap - 1) cap (omega arith),
  )

  pub next_place : (t i : ℕ) → t < cap → i < cap → ((t + 1) % cap + i) % cap ≡ (t + (i + 1)) % cap
  next_place t i ht hi = omega (
    arith,
    mod_cases (t + 1) cap (omega arith),
    mod_cases ((t + 1) % cap + i) cap (omega arith),
    mod_cases (t + (i + 1)) cap (omega arith),
  )

  -- The entries at `i` to `i + n` places after `t`, as the replay loop meets them.
  abbrev pub window : List Entry → ℕ → ℕ → ℕ → List Entry
  window xs t i zero = []
  window xs t i (suc n) = get_or xs ((t + i) % cap) no_entry ∷ window xs t (i + 1) n

  pub length-window : (xs : List Entry) (t i n : ℕ) → length (window xs t i n) ≡ n
  length-window xs t i zero = refl
  length-window xs t i (suc n) = ap suc (length-window xs t (i + 1) n)

  pub window-shift :
      (xs : List Entry) (t i n : ℕ)
      → t < cap
      → i + n < cap
      → window xs ((t + 1) % cap) i n ≡ window xs t (i + 1) n
  window-shift xs t i zero ht hi = refl
  window-shift xs t i (suc n) ht hi =
      ap₂ ◌∷◌ (ap (λ k. get_or xs k no_entry) (next_place t i ht (omega arith)))
        (window-shift xs t (i + 1) n ht (omega arith))

  -- A write at a place before the window leaves it.
  pub window-set :
      (xs : List Entry) (e : Entry) (t j i n : ℕ)
      → t < cap
      → i + n ≤ cap
      → j < i ⊎ i + n ≤ j
      → j < cap
      → window (set xs ((t + j) % cap) e) t i n ≡ window xs t i n
  window-set xs e t j i zero ht hi apart hj = refl
  window-set xs e t j i (suc n) ht hi apart hj =
      ap₂ ◌∷◌
        (get_or-set_ne xs ((t + j) % cap) ((t + i) % cap) e no_entry
          (place_ne t j i ht hj (omega arith) (omega arith)))
        (window-set xs e t j (i + 1) n ht (omega arith) (omega arith) hj)

  pub window-snoc :
      (xs : List Entry) (t i n j : ℕ)
      → i + n ≡ j
      → window xs t i (suc n) ≡ window xs t i n ++ (get_or xs ((t + j) % cap) no_entry ∷ [])
  window-snoc xs t i zero j e =
      let same : i ≡ j = omega arith in ap (λ k. get_or xs ((t + k) % cap) no_entry ∷ []) same
  window-snoc xs t i (suc n) j e =
      ap (λ es. get_or xs ((t + i) % cap) no_entry ∷ es)
        (window-snoc xs t (i + 1) n j (omega arith))

  pub window_pos :
      (xs : List Entry) (t i n : ℕ)
      → 0 < n
      → window xs t i n ≡ get_or xs ((t + i) % cap) no_entry ∷ window xs t (i + 1) (n - 1)
  window_pos xs t i zero h = absurd (omega arith)
  window_pos xs t i (suc n) h =
      let same : n ≡ suc n - 1 = omega arith in
      ap (λ k. get_or xs ((t + i) % cap) no_entry ∷ window xs t (i + 1) k) same
