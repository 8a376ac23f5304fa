-- ===== src/Client/Escape.antt =====
-- internal/client/escape.go: the ~. escape sequence. A byte is a number.
pub mod Buffers
pub mod Detect
mod Tests
use goet.Prelude.{
  ◌>>=◌, ℕ, ◌+◌, ◌<◌, List, [], ◌∷◌, ◌++◌, Bool, true, false, ◌||◌, Option, none, some,
}
use goet.Prelude.{ltb, ◌==◌, if◌then◌else◌, length, set}

pub data State : Type 0 where
  mid_line after_newline after_tilde : State

pub data Action : Type 0 where
  send disconnect : Action

-- NewEscapeProcessor and Reset
abbrev pub initial : State
initial = after_newline

-- The caller's slice `dst`, and the number `n` of bytes written to it.
pub record Output : Type 0 where
  pub dst : List ℕ
  pub n : ℕ

-- `dst[n] = b; n++`, where `none` is the panic of an index out of range.
unfoldable pub emit : ℕ → Output → Option Output
emit b o =
    if ltb o.n (length o.dst) then some (record { dst = set o.dst o.n b; n = o.n + 1 }) else none

abbrev pub is_newline : ℕ → Bool
is_newline b = (b == b'\r') || (b == b'\n')

-- The held ~, then the byte.
unfoldable pub emit_both : ℕ → State → Output → Option (State × Output)
emit_both b s o = do o1 ← emit b'~' o; o2 ← emit b o1; some (s, o2)

-- One round of the loop that does not return: the next state and the output.
unfoldable pub round : State → ℕ → Output → Option (State × Output)
round mid_line b o = do o' ← emit b o; some (if is_newline b then after_newline else mid_line, o')
round after_newline b o =
    if b == b'~'
    then some (after_tilde, o)
    else (do o' ← emit b o; some (if is_newline b then after_newline else mid_line, o'))
round after_tilde b o =
    if b == b'~'
    then (do o' ← emit b'~' o; some (mid_line, o'))
    else if is_newline b
    then emit_both b after_newline o
    else emit_both b mid_line o

-- `~` at the start of a line, then `.`
abbrev pub is_escape : State → ℕ → Bool
is_escape after_tilde b = b == b'.'
is_escape _ b = false

-- Process over the bytes left. On a disconnect the state stays.
unfoldable pub process : State → List ℕ → Output → Option (State × Output × Action)
process s [] o = some (s, o, send)
process s (b ∷ bs) o = elim (is_escape s b) [
  | true ↦ some (s, o, disconnect)
  | false ↦ (do (s', o') ← round s b o; process s' bs o')
]
