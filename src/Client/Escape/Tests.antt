-- ===== src/Client/Escape/Tests.antt =====
-- Runs of the escape machine, and its theorems at concrete inputs.
use goet.Prelude.{ℕ, ◌≡◌, ◌↔◌, refl, List, [], ◌∷◌, some, true, arith, replicate}
use goet.Client.Escape.{
  State, after_newline, after_tilde, send, disconnect, Output, emit, round, process,
}
use goet.Client.Escape.Buffers.{filtered, written}
use goet.Client.Escape.Detect.{HasEscape, started, fed, process_disconnects_iff}

abbrev room : Output
room = record { dst = replicate 8 0; n = 0 }

-- "a\n~." disconnects after "a\n".
abbrev leaving : List ℕ
leaving = b'a' ∷ b'\n' ∷ b'~' ∷ b'.' ∷ []

-- "~~.\r" is sent as "~.\r".
abbrev escaped : List ℕ
escaped = b'~' ∷ b'~' ∷ b'.' ∷ b'\r' ∷ []

process-leaving :
    process after_newline leaving room
    ≡ some (after_tilde, record { dst = b'a' ∷ b'\n' ∷ replicate 6 0; n = 2 }, disconnect)
unfolding process round emit
process-leaving = refl

filtered-escaped : filtered after_newline escaped ≡ (b'~' ∷ b'.' ∷ b'\r' ∷ [], send)
unfolding filtered written
filtered-escaped = refl

-- The tilde came in the chunk before.
process_disconnects_iff_example :
    ((s' : State) × (o' : Output) × (process after_tilde (b'.' ∷ []) room
        ≡ some (s', o', disconnect)))
    ↔ HasEscape true (b'\n' ∷ b'~' ∷ b'.' ∷ [])
unfolding process round emit
process_disconnects_iff_example =
    process_disconnects_iff (b'\n' ∷ b'~' ∷ []) (b'.' ∷ []) after_tilde room
      (fed [] (b'\n' ∷ b'~' ∷ []) room started (omega arith) refl) (omega arith)
