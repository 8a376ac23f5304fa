-- ===== src/Coalesce.antt =====
-- internal/coalesce/coalesce.go: small writes are batched. Times are in milliseconds.
pub mod Batch
mod Tests
use goet.Prelude.{
  ℕ, ◌+◌, ◌*◌, ◌≤◌, List, [], ◌∷◌, ◌++◌, Bool, true, false, not, ◌&&◌, Option, none, some,
}
use goet.Prelude.{ltb, leb, ◌==◌, if◌then◌else◌, length}

-- Delay, in milliseconds.
abbrev pub delay : ℕ
delay = 2

abbrev pub threshold : ℕ
threshold = 32 * 1024

-- A time.Timer of Go 1.23 or later: it runs towards a deadline, or does not. What has expired and
-- was not received counts as running, so Stop returns true for it and the channel is left empty.
pub data Timer : Type 0 where
  stopped : Timer
  running : ℕ → Timer

pub record Coalescer : Type 0 where
  pub buf : List ℕ
  pub timer : Timer
  pub armed : Bool

-- New at time `now`: NewTimer(0) is running, and Stop takes it back, so there is nothing to drain.
abbrev pub new : Coalescer
new = record { buf = []; timer = stopped; armed = false }

abbrev arm : ℕ → Coalescer → Coalescer
arm now c =
    if (length c.buf == 0) && not c.armed
    then record c { timer = running (now + delay); armed = true }
    else c

-- Add at time `now`; true asks the caller to flush.
unfoldable pub add : ℕ → List ℕ → Coalescer → Coalescer × Bool
add now [] c = (c, false)
add now (x ∷ xs) c =
    let c' = arm now c in
    let buf' = c'.buf ++ (x ∷ xs) in (record c' { buf = buf' }, leb threshold (length buf'))

-- Flush; `none` is nil. Stop leaves the timer stopped, and the channel empty.
unfoldable pub flush : Coalescer → Coalescer × Option (List ℕ)
flush c =
    if length c.buf == 0
    then (c, none)
    else (if c.armed
        then (record { buf = []; timer = stopped; armed = false }, some c.buf)
        else (record c { buf = [] }, some c.buf))

-- Timer and a receive from it at time `now`: whether the select loop can take this case, and the
-- coalescer after it did.
unfoldable pub fires : ℕ → Coalescer → Bool
fires now c = c.armed && elim c.timer [ stopped ↦ false | running deadline ↦ leb deadline now ]

abbrev pub receive : Coalescer → Coalescer
receive c = record c { timer = stopped }

unfoldable pub stop : Coalescer → Coalescer
stop c = record c { timer = stopped; armed = false }
