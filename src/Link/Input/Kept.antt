-- ===== src/Link/Input/Kept.antt =====
-- What is kept of what is typed at the client of internal/client/client.go, over its connections.
use goet.Prelude.{ℕ, ◌+◌, ◌≤◌, ◌≡◌, refl, sym, ap, ◌∙◌, arith}
use goet.Prelude.{List, [], ◌∷◌, ◌++◌, append_assoc, length, length-append}
use goet.Catchup.{Entry}
use goet.Session.History.{payloads, payloads-append}

-- The history has, for each of these texts, payloads that are a beginning of it: the latest text last.
abbrev pub AreKept : List (List ℕ) → List Entry → Type 0
AreKept [] history = history ≡ []
AreKept (t ∷ ts) history =
    (older : List Entry) × (more : List Entry) × (lost : List ℕ) × (history ≡ older ++ more)
    × AreKept ts older
    × (payloads more ++ lost ≡ t)

abbrev pub total : List (List ℕ) → ℕ
total [] = 0
total (t ∷ ts) = length t + total ts

append_cancel : (xs ys zs : List ℕ) → xs ++ ys ≡ xs ++ zs → ys ≡ zs
append_cancel [] ys zs h = h
append_cancel (x ∷ xs) ys zs h = append_cancel xs ys zs cc

pub more-AreKept :
    (ts : List (List ℕ)) (t : List ℕ) (older more : List Entry) (lost : List ℕ)
    → AreKept ts older
    → payloads (older ++ more) ++ lost ≡ payloads older ++ t
    → AreKept (t ∷ ts) (older ++ more)
more-AreKept ts t older more lost earlier same = (
  older,
  more,
  lost,
  refl,
  earlier,
  append_cancel (payloads older) (payloads more ++ lost) t (
      sym (append_assoc (payloads older) (payloads more) lost)
      ∙ ap (λ p. p ++ lost) (sym (payloads-append older more))
      ∙ same),
)

pub AreKept-length :
    (ts : List (List ℕ)) (history : List Entry)
    → AreKept ts history
    → length (payloads history) ≤ total ts
AreKept-length [] history h = omega (arith, ap (λ es. length (payloads es)) h)
AreKept-length (t ∷ ts) history (older, more, lost, same, earlier, kept) = omega (
  arith,
  ap (λ es. length (payloads es)) same,
  ap length (payloads-append older more),
  length-append (payloads older) (payloads more),
  AreKept-length ts older earlier,
  ap length kept,
  length-append (payloads more) lost,
)
