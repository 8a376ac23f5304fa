-- ===== src/Coalesce/Batch.antt =====
-- Batches of internal/coalesce/coalesce.go: nothing is lost, and a batch has a deadline.
use goet.Prelude.{ℕ, ◌+◌, ◌≡◌, refl, sym, ap, ◌∙◌, arith, append-nil, append_assoc}
use goet.Prelude.{
  List, [], ◌∷◌, ◌++◌, Bool, true, false, not, Option, none, some, length, leb, ◌==◌,
}
use goet.Prelude.{length-append, length-zero, if◌then◌else◌}
use goet.Coalesce.{Coalescer, Timer, stopped, running, delay, threshold, new, add, flush, receive}

abbrev pub is_running : Timer → Bool
is_running stopped = false
is_running (running d) = true

-- The flag says whether there is a batch.
abbrev pub IsMarked : Coalescer → Type 0
IsMarked c = c.armed ≡ not (length c.buf == 0)

-- A batch has a running timer.
pub record IsValid (c : Coalescer) : Type 0 where
  pub marked : IsMarked c
  pub timed : c.armed ≡ is_running c.timer

pub new-IsValid : IsValid new
new-IsValid = record { marked = refl; timed = refl }

-- Add keeps the invariant.
pub add-IsValid :
    (now : ℕ) (bytes : List ℕ) (c : Coalescer) → IsValid c → IsValid (add now bytes c).0
unfolding add
add-IsValid now [] c v = v
add-IsValid now (x ∷ xs) c v = ground (arith, length-append c.buf (x ∷ xs))

-- Flush restores it, also after the select loop has received from the timer.
pub flush-IsValid :
    (c : Coalescer)
    → IsMarked c
    → (c.armed ≡ false → is_running c.timer ≡ false)
    → IsValid (flush c).0
unfolding flush
flush-IsValid c m idle = ground (arith, length-zero c.buf)

-- While a batch waits, Add does not move its deadline; the first bytes set it to `delay` from now.
pub add_deadline :
    (now : ℕ) (x : ℕ) (xs : List ℕ) (c : Coalescer)
    → IsValid c
    → (add now (x ∷ xs) c).0.timer ≡ (if length c.buf == 0 then running (now + delay) else c.timer)
unfolding add
add_deadline now x xs c v = ground arith

-- Add asks for a flush exactly when it has been given bytes and the batch reaches the threshold.
pub add_asks :
    (now : ℕ) (bytes : List ℕ) (c : Coalescer)
    → ((add now bytes c).0.buf ≡ c.buf ++ bytes)
      × ((add now bytes c).1
          ≡ (if length bytes == 0 then false else leb threshold (length (c.buf ++ bytes))))
unfolding add
add_asks now [] c = (sym (append-nil c.buf), refl)
add_asks now (x ∷ xs) c = ground arith

abbrev pub bytes_of : Option (List ℕ) → List ℕ
bytes_of none = []
bytes_of (some bytes) = bytes

-- Flush gives all that waited, and leaves nothing.
pub flush_gives : (c : Coalescer) → (bytes_of (flush c).1 ≡ c.buf) × ((flush c).0.buf ≡ [])
unfolding flush
flush_gives c = ground (arith, length-zero c.buf)

-- The calls that the select loops make, in any order, with their times.
pub data Call : Type 0 where
  added : ℕ → List ℕ → Call
  flushed received : Call

unfoldable pub run : Coalescer → List Call → List ℕ × Coalescer
run c [] = ([], c)
run c (added now bytes ∷ calls) = run (add now bytes c).0 calls
run c (received ∷ calls) = run (receive c) calls
run c (flushed ∷ calls) = let (out, c') = run (flush c).0 calls in (bytes_of (flush c).1 ++ out, c')

abbrev pub input : List Call → List ℕ
input [] = []
input (added now bytes ∷ calls) = bytes ++ input calls
input (_ ∷ calls) = input calls

-- Whatever the calls, the bytes flushed and then the batch that waits are the batch at the start and
-- the bytes added, in their order.
pub run_lossless :
    (calls : List Call) (c : Coalescer)
    → (run c calls).0 ++ (run c calls).1.buf ≡ c.buf ++ input calls
unfolding run
run_lossless [] c = sym (append-nil c.buf)
run_lossless (added now bytes ∷ calls) c =
    run_lossless calls (add now bytes c).0
    ∙ ap (λ t. t ++ input calls) (add_asks now bytes c).0
    ∙ append_assoc c.buf bytes (input calls)
run_lossless (received ∷ calls) c = run_lossless calls (receive c)
run_lossless (flushed ∷ calls) c =
    append_assoc (bytes_of (flush c).1) (run (flush c).0 calls).0 (run (flush c).0 calls).1.buf
    ∙ ap (λ t. bytes_of (flush c).1 ++ t)
        (run_lossless calls (flush c).0 ∙ ap (λ t. t ++ input calls) (flush_gives c).1)
    ∙ ap (λ t. t ++ input calls) (flush_gives c).0
