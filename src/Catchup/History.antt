-- ===== src/Catchup/History.antt =====
-- The ring of internal/catchup/buffer.go against the history of all that was stored in it: a
-- replay loses nothing while the oldest entry held follows the last one received.
use goet.Prelude.{ℕ, ◌+◌, ◌<◌, ◌≤◌, ◌≡◌, refl, sym, ap, ◌∙◌, inl, inr}
use goet.Prelude.{List, [], ◌∷◌, ◌++◌, append_assoc, arith, length, All, ltb, leb}
use goet.Prelude.{Bool-cases, le→ltb}
use goet.Catchup.{Entry, Buffer, store, replay_since, oldest_seq}
use goet.Catchup.Spec
use goet.Catchup.Spec.{fit, one_slot, newer, first_seq}
use goet.Catchup.Refine.{contents, IsValid}
use goet.Catchup.Store.{store-Holds, length-contents}
use goet.Catchup.Replay.{replay_since-newer, oldest_seq-first}

-- What is held is the end of the history.
abbrev pub IsEndOf : List Entry → List Entry → Type 0
IsEndOf history es = (dropped : List Entry) × (dropped ++ es ≡ history)

-- Sequence numbers grow.
abbrev pub IsIncreasing : List Entry → Type 0
IsIncreasing [] = Unit
IsIncreasing (e ∷ es) = All (λ f. e.seq < f.seq) es × IsIncreasing es

IsEndOf-trans : (xs ys zs : List Entry) → IsEndOf xs ys → IsEndOf ys zs → IsEndOf xs zs
IsEndOf-trans xs ys zs (d, p) (e, q) = (d ++ e, append_assoc d e zs ∙ ap (λ t. d ++ t) q ∙ p)

fit-IsEndOf : (max_size len : ℕ) (es : List Entry) → IsEndOf es (fit max_size len es)
unfolding fit
fit-IsEndOf max_size len [] = ([], refl)
fit-IsEndOf max_size len (e ∷ es) = elim (Bool-cases (ltb max_size (Spec.total (e ∷ es) + len))) [
  | inl over ↦ rw over (IsEndOf-trans (e ∷ es) es _ (e ∷ [], refl) (fit-IsEndOf max_size len es))
  | inr under ↦ rw under ([], refl)
]

rest-IsEndOf : (es : List Entry) → IsEndOf es (Spec.rest es)
rest-IsEndOf [] = ([], refl)
rest-IsEndOf (e ∷ es) = (e ∷ [], refl)

one_slot-IsEndOf : (capacity : ℕ) (es : List Entry) → IsEndOf es (one_slot capacity es)
one_slot-IsEndOf capacity es = elim (Bool-cases (leb capacity (length es))) [
  | inl full ↦ rw full (rest-IsEndOf es)
  | inr free ↦ rw free ([], refl)
]

IsEndOf-snoc :
    (history es : List Entry) (e : Entry)
    → IsEndOf history es
    → IsEndOf (history ++ (e ∷ [])) (es ++ (e ∷ []))
IsEndOf-snoc history es e (d, p) = (d, sym (append_assoc d es (e ∷ [])) ∙ ap (λ t. t ++ (e ∷ [])) p)

IsEndOf-store :
    (max_size capacity : ℕ) (e : Entry) (history es : List Entry)
    → IsEndOf history es
    → IsEndOf (history ++ (e ∷ [])) (Spec.store max_size capacity e es)
unfolding Spec.store
IsEndOf-store max_size capacity e history es h =
    let kept : List Entry = fit max_size (length e.payload) es in
    IsEndOf-snoc history (one_slot capacity kept) e (
      IsEndOf-trans history es (one_slot capacity kept) h (
        IsEndOf-trans es kept (one_slot capacity kept) (fit-IsEndOf max_size (length e.payload) es)
          (one_slot-IsEndOf capacity kept)))

-- A Store keeps the entries held the end of the history, which grows by the entry stored.
pub store-IsEndOf :
    (b : Buffer) (seq : ℕ) (payload : List ℕ) (history : List Entry)
    → IsValid b
    → IsEndOf history (contents b)
    → IsEndOf
        (history ++ (record { seq = seq; payload = payload } ∷ []))
        (contents (store seq payload b))
store-IsEndOf b seq payload history v h =
    let e : Entry = record { seq = seq; payload = payload } in
    rw ((store-Holds b seq payload v).holds)
      (IsEndOf-store b.max_size b.capacity e history (contents b) h)

newer-append :
    (after : ℕ) (xs ys : List Entry) → newer after (xs ++ ys) ≡ newer after xs ++ newer after ys
unfolding newer
newer-append after [] ys = refl
newer-append after (x ∷ xs) ys = ground (arith, newer-append after xs ys)

All_middle :
    (P : Entry → Type 0) (xs : List Entry) (e : Entry) (es : List Entry)
    → All P (xs ++ (e ∷ es))
    → P e
All_middle P [] e es h = h.0
All_middle P (x ∷ xs) e es h = All_middle P xs e es h.1

-- The entries before the first one held have smaller numbers.
newer-dropped :
    (after : ℕ) (dropped : List Entry) (e : Entry) (es : List Entry)
    → IsIncreasing (dropped ++ (e ∷ es))
    → e.seq ≤ after + 1
    → newer after dropped ≡ []
unfolding newer
newer-dropped after [] e es inc h = refl
newer-dropped after (d ∷ ds) e es inc h =
    let smaller : d.seq < e.seq = All_middle (λ f. d.seq < f.seq) ds e es inc.0 in
    rw (le→ltb after d.seq (omega arith), newer-dropped after ds e es inc.1 h)

pub newer-end :
    (after : ℕ) (history es : List Entry)
    → IsEndOf history es
    → IsIncreasing history
    → 0 < length es
    → first_seq es ≤ after + 1
    → newer after es ≡ newer after history
newer-end after history [] end inc held h = absurd (omega arith)
newer-end after history (e ∷ es) (d, p) inc held h = sym (
    ap (newer after) (sym p)
    ∙ newer-append after d (e ∷ es)
    ∙ ap (λ t. t ++ newer after (e ∷ es)) (newer-dropped after d e es (rw p inc) h))

-- If the entries held are the end of a history of growing sequence numbers, and the oldest one held
-- is at most one after `after`, then ReplaySince returns all of the history that comes after it.
pub replay_since_complete :
    (b : Buffer) (history : List Entry) (after : ℕ)
    → IsValid b
    → IsEndOf history (contents b)
    → IsIncreasing history
    → 0 < b.count
    → oldest_seq b ≤ after + 1
    → replay_since after b ≡ newer after history
replay_since_complete b history after v end inc held h =
    replay_since-newer after b
    ∙ newer-end after history (contents b) end inc (omega (arith, length-contents b))
        (rw (← oldest_seq-first b v) h)
