-- ===== src/Catchup/Tests.antt =====
-- Runs of the ring, and its theorems at concrete inputs.
use goet.Prelude.{ℕ, ◌≤◌, ◌≡◌, ◌⊎◌, refl, List, [], ◌∷◌, arith}
use goet.Protocol.Message.{pos, negsuc}
use goet.Catchup.{
  Entry, no_entry, Buffer, new, new_sized, evict_oldest, make_room, store, replay_loop,
  replay_since, oldest_seq,
}
use goet.Catchup.Spec
use goet.Catchup.Spec.{newer, first_seq}
use goet.Catchup.Refine.{contents, IsValid}
use goet.Catchup.Store.{Holds, store-Holds, store_bound}
use goet.Catchup.Replay.{replay_since-newer}
use goet.Catchup.History.{replay_since_complete}

abbrev entry : ℕ → List ℕ → Entry
entry seq payload = record { seq = seq; payload = payload }

-- Three slots for five bytes: entries 2 and 3 stand round the end.
abbrev ring : Buffer
ring = record {
  entries = entry 3 (7 ∷ 8 ∷ []) ∷ no_entry ∷ entry 2 (9 ∷ []) ∷ [];
  size = 3;
  max_size = 5;
  head = 1;
  count = 2;
  capacity = 3;
}

ring-IsValid : IsValid ring
ring-IsValid = record { room = refl; head_in = omega arith; count_in = omega arith; sized = refl }

-- Three bytes more drop entry 2.
store-ring :
    contents (store 4 (1 ∷ 1 ∷ 1 ∷ []) ring) ≡ entry 3 (7 ∷ 8 ∷ []) ∷ entry 4 (1 ∷ 1 ∷ 1 ∷ []) ∷ []
unfolding store make_room evict_oldest
store-ring = refl

-- Six bytes do not fit, and are held alone.
store_too_large : (store 4 (1 ∷ 1 ∷ 1 ∷ 1 ∷ 1 ∷ 1 ∷ []) ring).size ≡ 6
unfolding store make_room evict_oldest
store_too_large = refl

replay-ring : replay_since 2 ring ≡ entry 3 (7 ∷ 8 ∷ []) ∷ []
unfolding replay_since replay_loop
replay-ring = refl

new_default : ((new (negsuc 4)).max_size ≡ 4096) × ((new (pos 1048576)).capacity ≡ 1024)
unfolding new new_sized
new_default = (refl, refl)

store-Holds_example :
    Holds ring
      (Spec.store 5 3 (entry 4 (1 ∷ [])) (entry 2 (9 ∷ []) ∷ entry 3 (7 ∷ 8 ∷ []) ∷ []))
      (store 4 (1 ∷ []) ring)
store-Holds_example = store-Holds ring 4 (1 ∷ []) ring-IsValid

store_bound_example : ((store 4 (1 ∷ []) ring).count ≡ 1) ⊎ ((store 4 (1 ∷ []) ring).size ≤ 5)
store_bound_example = store_bound ring 4 (1 ∷ []) ring-IsValid

replay_since-newer_example : replay_since 2 ring ≡ newer 2 (contents ring)
replay_since-newer_example = replay_since-newer 2 ring

abbrev all_stored : List Entry
all_stored = entry 1 (5 ∷ []) ∷ entry 2 (9 ∷ []) ∷ entry 3 (7 ∷ 8 ∷ []) ∷ []

replay_since_complete_example : replay_since 1 ring ≡ newer 1 all_stored
unfolding oldest_seq
replay_since_complete_example =
    replay_since_complete ring all_stored 1 ring-IsValid (entry 1 (5 ∷ []) ∷ [], refl) (omega arith)
      (omega arith) (omega arith)
