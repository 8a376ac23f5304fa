-- ===== src/Client/Stdin.antt =====
-- readStdin of internal/client/client.go, and what ioLoop lets through of its chunks.
use goet.Prelude.{
  ℕ, ◌+◌, ◌≤◌, ◌≡◌, ◌⊎◌, refl, sym, ap, ap₂, subst, ◌∙◌, arith, inl, inr, Bool-cases,
}
use goet.Prelude.{List, [], ◌∷◌, ◌++◌, Bool, All, length, take, Option, none, some}
use goet.Prelude.{if◌then◌else◌}
use goet.Session.Exit.{chunk, joined, joined-chunk}
use goet.Client.Escape.{
  State, mid_line, after_newline, after_tilde, Action, send, disconnect, initial, is_escape, Output,
  process,
}
use goet.Client.Escape.Buffers.{
  next, held, state_after, filtered, filtered-escape, filtered-plain, process-Processed,
}
use goet.Client.Escape.Detect.{filtered-append}
use goet.Client.Relay.{stdin_buf_size}

-- A Read of stdin: the bytes, and whether there is an error.
pub record StdinRead : Type 0 where
  pub bytes : List ℕ
  pub failed : Bool

-- What readStdin sends before it closes the channel.
unfoldable pub read_stdin : List StdinRead → List (List ℕ)
read_stdin [] = []
read_stdin (r ∷ rs) = let rest = read_stdin rs in chunk r.bytes (if r.failed then [] else rest)

-- The bytes that were read, up to the first error and with it.
abbrev pub bytes_read : List StdinRead → List ℕ
bytes_read [] = []
bytes_read (r ∷ rs) = r.bytes ++ (if r.failed then [] else bytes_read rs)

abbrev pub add_bytes : List ℕ → Option (List ℕ × Action) → Option (List ℕ × Action)
add_bytes out none = none
add_bytes out (some (bytes, act)) = some (out ++ bytes, act)

-- After Process: a panic, the end, or the chunks that follow.
abbrev pub after_process :
    (List ℕ → State → Option (List ℕ × Action))
    → Option (State × Output × Action)
    → Option (List ℕ × Action)
after_process rest none = none
after_process rest (some (s, o, disconnect)) = some ([], disconnect)
after_process rest (some (s, o, send)) = add_bytes (take o.n o.dst) (rest o.dst s)

-- What the stdin cases of ioLoop let through of some chunks, until they disconnect; each starts with an empty output in
-- the slice that the one before has left. `none` is a panic.
unfoldable pub let_through : List ℕ → State → List (List ℕ) → Option (List ℕ × Action)
let_through dst s [] = some ([], send)
let_through dst s (c ∷ cs) =
    after_process (λ d t. let_through d t cs) (process s c (record { dst = dst; n = 0 }))

Action-cases : (a : Action) → (a ≡ send) ⊎ (a ≡ disconnect)
Action-cases send = inl refl
Action-cases disconnect = inr refl

-- Nothing after a disconnect is read.
filtered-append_end :
    (s : State) (xs ys : List ℕ)
    → (filtered s xs).1 ≡ disconnect
    → (filtered s (xs ++ ys)).1 ≡ disconnect
filtered-append_end s [] ys h = let sends : (filtered s []).1 ≡ send = unfold filtered in refl in cc
filtered-append_end s (b ∷ bs) ys h = elim (Bool-cases (is_escape s b)) [
  | inl escape ↦ rw (filtered-escape s b (bs ++ ys) escape) refl
  | inr plain ↦
      rw (filtered-plain s b (bs ++ ys) plain)
        (filtered-append_end (next s b) bs ys (rw (filtered-plain s b bs plain) at h))
]

held_le : (s : State) → held s ≤ 1
held_le mid_line = omega arith
held_le after_newline = omega arith
held_le after_tilde = omega arith

-- The same end as for the whole, and the same bytes unless it is a disconnect.
abbrev IsWhole : State → List ℕ → Option (List ℕ × Action) → Type 0
IsWhole s whole result =
    (bytes : List ℕ) × (result ≡ some (bytes, (filtered s whole).1))
    × ((filtered s whole).1 ≡ send → bytes ≡ (filtered s whole).0)

go_on :
    (s : State) (c rest bytes out : List ℕ) (act : Action)
    → (filtered s c).1 ≡ send
    → out ≡ (filtered s c).0
    → act ≡ (filtered (state_after s c) rest).1
    → ((filtered (state_after s c) rest).1 ≡ send → bytes ≡ (filtered (state_after s c) rest).0)
    → IsWhole s (c ++ rest) (some (out ++ bytes, act))
go_on s c rest bytes out act sends same_out same_act same =
    let whole = filtered-append s c rest sends in
    (
      out ++ bytes,
      ap (λ a. some (out ++ bytes, a)) (same_act ∙ sym (ap (λ (r : List ℕ × Action). r.1) whole)),
      λ ends.
          ap₂ (λ x y. x ++ y) same_out (same (ap (λ (r : List ℕ × Action). r.1) (sym whole) ∙ ends))
          ∙ ap (λ (r : List ℕ × Action). r.0) (sym whole),
    )

pub let_through-IsWhole :
    (cs : List (List ℕ)) (dst : List ℕ) (s : State)
    → length dst ≡ stdin_buf_size + 2
    → All (λ c. length c ≤ stdin_buf_size) cs
    → IsWhole s (joined cs) (let_through dst s cs)
unfolding let_through
let_through-IsWhole [] dst s room small =
    ([], unfold filtered in refl, λ ends. unfold filtered in refl)
let_through-IsWhole (c ∷ cs) dst s room small =
    let o : Output = record { dst = dst; n = 0 } in
    let p = process-Processed c s o (omega (arith, room, held_le s, small.0)) in
    let rest = λ (d : List ℕ) (x : State). let_through d x cs in
    subst (λ r. IsWhole s (c ++ joined cs) r) (sym (ap (after_process rest) p.runs))
      (elim (Action-cases (filtered s c).1) [
        | inl sends ↦
            let (bytes, runs, same) =
              let_through-IsWhole cs p.output.dst p.state (p.same_room ∙ room) small.1 in
            let state = p.kept sends in
            subst
              (λ a. IsWhole s (c ++ joined cs) (after_process rest (some (p.state, p.output, a))))
              (sym sends)
              (subst (λ r. IsWhole s (c ++ joined cs) (add_bytes (take p.output.n p.output.dst) r))
                (sym runs)
                (go_on s c (joined cs) bytes (take p.output.n p.output.dst)
                  (filtered p.state (joined cs)).1 sends p.sends
                  (ap (λ x. (filtered x (joined cs)).1) state)
                  (subst
                    (λ x. (filtered x (joined cs)).1 ≡ send → bytes ≡ (filtered x (joined cs)).0)
                    state same)))
        | inr ends ↦
            let all_ends = filtered-append_end s c (joined cs) ends in
            subst
              (λ a. IsWhole s (c ++ joined cs) (after_process rest (some (p.state, p.output, a))))
              (sym ends) ([], ap (λ a. some ([], a)) (sym all_ends), λ sends. cc)
      ])

abbrev FitsBuffer : List ℕ → Type 0
FitsBuffer bytes = length bytes ≤ stdin_buf_size

chunk-All :
    (bytes : List ℕ) (chunks : List (List ℕ))
    → FitsBuffer bytes
    → All FitsBuffer chunks
    → All FitsBuffer (chunk bytes chunks)
chunk-All [] chunks fits h = h
chunk-All (b ∷ bytes) chunks fits h = (fits, h)

-- The chunks are the bytes that were read, and each fits the buffer.
read_stdin-joined :
    (rs : List StdinRead)
    → All (λ r. FitsBuffer r.bytes) rs
    → (joined (read_stdin rs) ≡ bytes_read rs) × All FitsBuffer (read_stdin rs)
unfolding read_stdin
read_stdin-joined [] small = (refl, tt)
read_stdin-joined (r ∷ rs) small = elim (Bool-cases r.failed) [
  | inl failed ↦ rw failed (joined-chunk r.bytes [], chunk-All r.bytes [] small.0 tt)
  | inr more ↦
      let (same, chunks) = read_stdin-joined rs small.1 in
      rw more (
        joined-chunk r.bytes (read_stdin rs) ∙ ap (λ t. r.bytes ++ t) same,
        chunk-All r.bytes (read_stdin rs) small.0 chunks,
      )
]

-- However stdin is cut into reads of at most 32 KB, with the slice of ioLoop, two places longer: Process does not panic on any of the chunks
-- that readStdin sends, and ends as it would for all the bytes read, in one piece; unless it disconnects, what is let
-- through of the chunks is what is let through of these bytes.
pub stdin_in_chunks :
    (rs : List StdinRead) (dst : List ℕ)
    → length dst ≡ stdin_buf_size + 2
    → All (λ r. length r.bytes ≤ stdin_buf_size) rs
    → (bytes : List ℕ) × (let_through dst initial (read_stdin rs)
        ≡ some (bytes, (filtered initial (bytes_read rs)).1))
      × ((filtered initial (bytes_read rs)).1 ≡ send → bytes ≡ (filtered initial (bytes_read rs)).0)
stdin_in_chunks rs dst room small =
    let (same, fits) = read_stdin-joined rs small in
    subst (λ whole. IsWhole initial whole (let_through dst initial (read_stdin rs))) same
      (let_through-IsWhole (read_stdin rs) dst initial room fits)
