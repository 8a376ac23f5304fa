-- ===== src/Catchup/Spec.antt =====
-- What the ring of internal/catchup/buffer.go promises: a queue of entries, oldest first, that drops
-- its oldest entries to make room.
use goet.Prelude.{ℕ, ◌+◌, List, [], ◌∷◌, ◌++◌, ltb, leb, if◌then◌else◌, length}
use goet.Catchup.{Entry}

-- The payload bytes held.
abbrev pub total : List Entry → ℕ
total [] = 0
total (e ∷ es) = length e.payload + total es

abbrev pub rest : List Entry → List Entry
rest [] = []
rest (e ∷ es) = es

module _ (max_size : ℕ) where
  -- Drop the oldest until `len` more bytes fit, or none is left.
  unfoldable pub fit : ℕ → List Entry → List Entry
  fit len [] = []
  fit len (e ∷ es) = if ltb max_size (total (e ∷ es) + len) then fit len es else e ∷ es

abbrev pub one_slot : ℕ → List Entry → List Entry
one_slot capacity es = if leb capacity (length es) then rest es else es

unfoldable pub store : ℕ → ℕ → Entry → List Entry → List Entry
store max_size capacity e es = one_slot capacity (fit max_size (length e.payload) es) ++ (e ∷ [])

-- The entries after a sequence number.
unfoldable pub newer : ℕ → List Entry → List Entry
newer after [] = []
newer after (e ∷ es) = let others = newer after es in if ltb after e.seq then e ∷ others else others

abbrev pub first_seq : List Entry → ℕ
first_seq [] = 0
first_seq (e ∷ es) = e.seq

abbrev pub last_seq : List Entry → ℕ
last_seq [] = 0
last_seq (e ∷ []) = e.seq
last_seq (e ∷ f ∷ es) = last_seq (f ∷ es)
