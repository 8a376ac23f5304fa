-- ===== src/Coalesce/Tests.antt =====
-- Runs of the coalescer, and its theorems at concrete inputs.
use goet.Prelude.{◌≡◌, refl, List, [], ◌∷◌, ◌++◌, true, false}
use goet.Coalesce.{Coalescer, running, add, flush, fires}
use goet.Coalesce.Batch.{IsValid, Call, added, flushed, received, run, run_lossless}

-- A batch of two bytes that began at time 10.
abbrev batch : Coalescer
batch = record { buf = 1 ∷ 2 ∷ []; timer = running 12; armed = true }

abbrev calls : List Call
calls = added 11 (3 ∷ []) ∷ received ∷ flushed ∷ added 20 (4 ∷ []) ∷ []

run-calls :
    run batch calls ≡ (1 ∷ 2 ∷ 3 ∷ [], record { buf = 4 ∷ []; timer = running 22; armed = true })
unfolding run add flush
run-calls = refl

fires_at_deadline : (fires 11 batch ≡ false) × (fires 12 batch ≡ true)
unfolding fires
fires_at_deadline = (refl, refl)

batch-IsValid : IsValid batch
batch-IsValid = record { marked = refl; timed = refl }

run_lossless_example : (run batch calls).0 ++ (run batch calls).1.buf ≡ 1 ∷ 2 ∷ 3 ∷ 4 ∷ []
run_lossless_example = run_lossless calls batch
