-- ===== src/Catchup.antt =====
-- internal/catchup/buffer.go: the ring of sent payloads that a reconnect replays.
-- Go's int is written as ℕ: the subtractions below never go under 0 in a valid buffer (Catchup/Refine).
pub mod Window
pub mod Spec
pub mod Refine
pub mod Store
pub mod Replay
mod Tests
pub mod History
use goet.Prelude.{
  ℕ, zero, suc, ◌+◌, ◌-◌, ◌*◌, ◌/◌, ◌%◌, ◌^◌, ◌<◌, ◌≤◌, min, max, List, [], ◌∷◌, ◌++◌,
}
use goet.Prelude.{
  Bool, true, false, ◌&&◌, ltb, leb, ◌==◌, if◌then◌else◌, length, get_or, set, replicate,
}
use goet.Protocol.Message.{ℤ, pos, negsuc}

abbrev pub default_buffer_size : ℕ
default_buffer_size = 4 * 1024

-- `entry`, and the public `Entry` of the same fields.
pub record Entry : Type 0 where
  pub seq : ℕ
  pub payload : List ℕ

-- entry{}
abbrev pub no_entry : Entry
no_entry = record { seq = 0; payload = [] }

pub record Buffer : Type 0 where
  pub entries : List Entry
  pub size : ℕ
  pub max_size : ℕ
  pub head : ℕ
  pub count : ℕ
  pub capacity : ℕ

abbrev pub slots : ℕ → ℕ
slots max_bytes = max 256 (min (max_bytes / 1024) (2 ^ 20))

unfoldable pub new_sized : ℕ → Buffer
new_sized max_bytes = record {
  entries = replicate (slots max_bytes) no_entry;
  size = 0;
  max_size = max_bytes;
  head = 0;
  count = 0;
  capacity = slots max_bytes;
}

-- The argument is an int: the default is for 0 and below.
unfoldable pub new : ℤ → Buffer
new (pos zero) = new_sized default_buffer_size
new (pos (suc n)) = new_sized (suc n)
new (negsuc n) = new_sized default_buffer_size

-- The index of the oldest entry.
abbrev pub tail : Buffer → ℕ
tail b = (b.head + b.capacity - b.count) % b.capacity

-- The index of the newest entry.
abbrev pub newest : Buffer → ℕ
newest b = (b.head + b.capacity - 1) % b.capacity

unfoldable pub evict_oldest : Buffer → Buffer
evict_oldest b =
    let t = tail b in
    record b {
      size = b.size - length (get_or b.entries t no_entry).payload;
      entries = set b.entries t no_entry;
      count = b.count - 1;
    }

-- The test of the loop that makes room for `len` bytes.
abbrev pub is_over : ℕ → Buffer → Bool
is_over len b = ltb 0 b.count && ltb b.max_size (b.size + len)

-- The loop, with fuel: `b.count` rounds are enough (Catchup/Refine).
unfoldable pub make_room : ℕ → ℕ → Buffer → Buffer
make_room zero len b = b
make_room (suc fuel) len b =
    let rest = make_room fuel len (evict_oldest b) in if is_over len b then rest else b

abbrev pub make_slot : Buffer → Buffer
make_slot b = if leb b.capacity b.count then evict_oldest b else b

abbrev pub append : ℕ → List ℕ → Buffer → Buffer
append seq payload b = record b {
  entries = set b.entries b.head (record { seq = seq; payload = payload });
  head = (b.head + 1) % b.capacity;
  count = b.count + 1;
  size = b.size + length payload;
}

unfoldable pub store : ℕ → List ℕ → Buffer → Buffer
store seq payload b = append seq payload (make_slot (make_room b.count (length payload) b))

-- The loop over `i`, with `n` rounds left.
unfoldable pub replay_loop : ℕ → ℕ → ℕ → Buffer → List Entry
replay_loop zero i after b = []
replay_loop (suc n) i after b =
    let e = get_or b.entries ((tail b + i) % b.capacity) no_entry in
    let rest = replay_loop n (i + 1) after b in if ltb after e.seq then e ∷ rest else rest

-- nil and the empty slice are one list.
unfoldable pub replay_since : ℕ → Buffer → List Entry
replay_since after b = if b.count == 0 then [] else replay_loop b.count 0 after b

unfoldable pub oldest_seq : Buffer → ℕ
oldest_seq b = if b.count == 0 then 0 else (get_or b.entries (tail b) no_entry).seq

unfoldable pub newest_seq : Buffer → ℕ
newest_seq b = if b.count == 0 then 0 else (get_or b.entries (newest b) no_entry).seq
