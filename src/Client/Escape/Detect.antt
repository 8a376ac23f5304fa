-- ===== src/Client/Escape/Detect.antt =====
-- When Process of internal/client/escape.go detects the escape sequence, and what it sends else.
use goet.Prelude.{ℕ, ◌+◌, ◌≤◌, ◌≡◌, ◌↔◌, ◌⊎◌, refl, sym, ap, ◌∙◌, arith, inl, inr}
use goet.Prelude.{
  List, [], ◌∷◌, ◌++◌, append_assoc, Bool, true, false, length, some, ◌==◌, if◌then◌else◌,
}
use goet.Prelude.{Bool-cases, ==→eq}
use goet.Client.Escape.{
  State, mid_line, after_newline, after_tilde, Action, send, disconnect, initial, is_newline,
  is_escape, Output, process,
}
use goet.Client.Escape.Buffers.{
  written, next, state_after, filtered, filtered-escape, filtered-plain, process-filtered,
  process-Processed, held,
}

-- The input so far is empty or ends with a newline.
unfoldable pub at_line_start : Bool → List ℕ → Bool
at_line_start start [] = start
at_line_start start (b ∷ bs) = at_line_start (is_newline b) bs

-- `~.` stands in the input at the start of a line; `start` says whether the input starts one.
abbrev pub HasEscape : Bool → List ℕ → Type 0
HasEscape start input =
    (before after : List ℕ) × (input ≡ before ++ (b'~' ∷ b'.' ∷ after))
    × (at_line_start start before ≡ true)

-- Input in two parts is filtered as in one: the state carries over, and what follows a disconnect is
-- not read.
pub filtered-append :
    (s : State) (xs ys : List ℕ)
    → (filtered s xs).1 ≡ send
    → filtered s (xs ++ ys) ≡ (
      (filtered s xs).0 ++ (filtered (state_after s xs) ys).0,
      (filtered (state_after s xs) ys).1,
    )
unfolding state_after
filtered-append s [] ys h = unfold filtered in refl
filtered-append s (b ∷ bs) ys h = elim (Bool-cases (is_escape s b)) [
  | inl escape ↦ cc (rw (filtered-escape s b bs escape) at h)
  | inr plain ↦
      let tail_sends : (filtered (next s b) bs).1 ≡ send = rw (filtered-plain s b bs plain) at h in
      rw (
        filtered-plain s b (bs ++ ys) plain,
        filtered-append (next s b) bs ys tail_sends,
        filtered-plain s b bs plain,
        append_assoc (written s b),
      )
]

abbrev StartsDot : List ℕ → Type 0
StartsDot input = (after : List ℕ) × (input ≡ b'.' ∷ after)

-- What the input must hold for a disconnect, from each state.
abbrev Detects : State → List ℕ → Type 0
Detects mid_line input = HasEscape false input
Detects after_newline input = HasEscape true input
Detects after_tilde input = StartsDot input ⊎ HasEscape false input

HasEscape-cons :
    (start : Bool) (b : ℕ) (bs : List ℕ) → HasEscape (is_newline b) bs → HasEscape start (b ∷ bs)
unfolding at_line_start
HasEscape-cons start b bs (before, after, e, p) = (b ∷ before, after, ap (λ t. b ∷ t) e, p)

HasEscape-here : (b : ℕ) (bs : List ℕ) → b ≡ b'~' → StartsDot bs → HasEscape true (b ∷ bs)
unfolding at_line_start
HasEscape-here b bs h (after, e) = ([], after, rw (h, e), refl)

HasEscape-uncons :
    (start : Bool) (b : ℕ) (bs : List ℕ)
    → HasEscape start (b ∷ bs)
    → ((start ≡ true) × (b ≡ b'~') × StartsDot bs) ⊎ HasEscape (is_newline b) bs
unfolding at_line_start
HasEscape-uncons start b bs ([], after, e, p) = inl (p, cc, (after, cc))
HasEscape-uncons start b bs (c ∷ before, after, e, p) =
    let same : b ≡ c = cc in inr (before, after, cc, rw same p)

not-HasEscape-nil : (start : Bool) → ¬ HasEscape start []
not-HasEscape-nil start ([], after, e, p) = cc
not-HasEscape-nil start (c ∷ before, after, e, p) = cc

-- The state after a byte that is no tilde.
abbrev by_line : Bool → State
by_line newline = if newline then after_newline else mid_line

of_line : (newline : Bool) (bs : List ℕ) → Detects (by_line newline) bs → HasEscape newline bs
of_line true bs h = h
of_line false bs h = h

to_line : (newline : Bool) (bs : List ℕ) → HasEscape newline bs → Detects (by_line newline) bs
to_line true bs h = h
to_line false bs h = h

-- A tilde is no newline.
tilde_line : (b : ℕ) → (b == b'~') ≡ true → is_newline b ≡ false
tilde_line b h = ground arith

after_held :
    (b : ℕ) (bs : List ℕ) → (b == b'~') ≡ true → Detects after_tilde bs → HasEscape true (b ∷ bs)
after_held b bs tilde (inl dot) = HasEscape-here b bs (==→eq b b'~' tilde) dot
after_held b bs tilde (inr later) = HasEscape-cons true b bs (rw (tilde_line b tilde) later)

not_dot : (b : ℕ) → b ≡ b'.' → is_escape after_tilde b ≡ false → ⊥
not_dot b e h = ground arith

-- A step back: what the rest holds is what the input holds.
Detects-cons : (s : State) (b : ℕ) (bs : List ℕ) → Detects (next s b) bs → Detects s (b ∷ bs)
Detects-cons mid_line b bs h = HasEscape-cons false b bs (of_line (is_newline b) bs h)
Detects-cons after_newline b bs h = elim (Bool-cases (b == b'~')) [
  | inl tilde ↦ after_held b bs tilde (rw tilde at h)
  | inr plain ↦ HasEscape-cons true b bs (of_line (is_newline b) bs (rw plain at h))
]
Detects-cons after_tilde b bs h = elim (Bool-cases (b == b'~')) [
  | inl tilde ↦ inr (HasEscape-cons false b bs (rw (tilde_line b tilde) (rw tilde at h)))
  | inr plain ↦ inr (HasEscape-cons false b bs (of_line (is_newline b) bs (rw plain at h)))
]

Detects-uncons :
    (s : State) (b : ℕ) (bs : List ℕ)
    → is_escape s b ≡ false
    → Detects s (b ∷ bs)
    → Detects (next s b) bs
Detects-uncons mid_line b bs p h = elim (HasEscape-uncons false b bs h) [
  | inl (start, _, _) ↦ cc
  | inr later ↦ to_line (is_newline b) bs later
]
Detects-uncons after_newline b bs p h = elim (HasEscape-uncons true b bs h) [
  | inl (_, tilde, dot) ↦ rw tilde (inl dot)
  | inr later ↦ elim (Bool-cases (b == b'~')) [
    | inl tilde ↦ rw tilde (inr (rw (tilde_line b tilde) at later))
    | inr plain ↦ rw plain (to_line (is_newline b) bs later)
  ]
]
Detects-uncons after_tilde b bs p (inl (after, e)) =
    let dot : b ≡ b'.' = cc in absurd (not_dot b dot p)
Detects-uncons after_tilde b bs p (inr h) = elim (HasEscape-uncons false b bs h) [
  | inl (start, _, _) ↦ cc
  | inr later ↦ elim (Bool-cases (b == b'~')) [
    | inl tilde ↦ rw tilde (rw (tilde_line b tilde) at later)
    | inr plain ↦ rw plain (to_line (is_newline b) bs later)
  ]
]

escape-Detects : (s : State) (b : ℕ) (bs : List ℕ) → is_escape s b ≡ true → Detects s (b ∷ bs)
escape-Detects mid_line b bs h = cc
escape-Detects after_newline b bs h = cc
escape-Detects after_tilde b bs h = inl (bs, rw (==→eq b b'.' h))

not-Detects-nil : (s : State) → ¬ Detects s []
not-Detects-nil mid_line h = not-HasEscape-nil false h
not-Detects-nil after_newline h = not-HasEscape-nil true h
not-Detects-nil after_tilde (inl (after, e)) = cc
not-Detects-nil after_tilde (inr h) = not-HasEscape-nil false h

disconnect-Detects :
    (input : List ℕ) (s : State) → (filtered s input).1 ≡ disconnect → Detects s input
disconnect-Detects [] s h = unfold filtered in cc
disconnect-Detects (b ∷ bs) s h = elim (Bool-cases (is_escape s b)) [
  | inl escape ↦ escape-Detects s b bs escape
  | inr plain ↦
      Detects-cons s b bs (disconnect-Detects bs (next s b) (rw (filtered-plain s b bs plain) at h))
]

Detects-disconnect :
    (input : List ℕ) (s : State) → Detects s input → (filtered s input).1 ≡ disconnect
Detects-disconnect [] s h = absurd (not-Detects-nil s h)
Detects-disconnect (b ∷ bs) s h = elim (Bool-cases (is_escape s b)) [
  | inl escape ↦ rw (filtered-escape s b bs escape)
  | inr plain ↦
      rw (filtered-plain s b bs plain)
        (Detects-disconnect bs (next s b) (Detects-uncons s b bs plain h))
]

-- `s` is the state of the processor after the input, which came in chunks, each with a `dst` that has room for it, and
-- did not end the connection.
pub data Fed : List ℕ → State → Type 0 where
  started : Fed [] initial
  fed :
      {s s' : State} {o' : Output} (before chunk : List ℕ) (o : Output)
      → Fed before s
      → o.n + held s + length chunk ≤ length o.dst
      → process s chunk o ≡ some (s', o', send)
      → Fed (before ++ chunk) s'

state_after_append :
    (s : State) (xs ys : List ℕ) → state_after s (xs ++ ys) ≡ state_after (state_after s xs) ys
unfolding state_after
state_after_append s [] ys = refl
state_after_append s (x ∷ xs) ys = state_after_append (next s x) xs ys

Fed-state :
    (before : List ℕ) (s : State)
    → Fed before s
    → ((filtered initial before).1 ≡ send) × (s ≡ state_after initial before)
Fed-state before s started = (unfold filtered in refl, unfold state_after in refl)
Fed-state whole s' (fed {s} before chunk o earlier room runs) =
    let (sends, same) = Fed-state before s earlier in
    let p = process-Processed chunk s o room in
    let chunk_sends : (filtered s chunk).1 ≡ send = cc (p.runs, runs) in
    let reached : s' ≡ p.state = cc (p.runs, runs) in
    (
      rw (filtered-append initial before chunk sends, ← same) chunk_sends,
      reached
          ∙ p.kept chunk_sends
          ∙ ap (λ x. state_after x chunk) same
          ∙ sym (state_after_append initial before chunk),
    )

-- The processor is in the state that Process left after the input so far, in any chunks, or in the initial one, and
-- `dst` has a place for each byte of the next chunk, and one more for a `~` that is held. Then Process ends
-- with a disconnect on this chunk exactly if `~.` stands in the input so far followed by the chunk, at its start or
-- straight after a newline.
pub process_disconnects_iff :
    (before chunk : List ℕ) (s : State) (o : Output)
    → Fed before s
    → o.n + held s + length chunk ≤ length o.dst
    → ((s' : State) × (o' : Output) × (process s chunk o ≡ some (s', o', disconnect)))
      ↔ HasEscape true (before ++ chunk)
process_disconnects_iff before chunk s o earlier room =
    let (sends, same) = Fed-state before s earlier in
    let (s', o', runs, _) = process-filtered chunk s o room in
    let whole : (filtered initial (before ++ chunk)).1 ≡ (filtered s chunk).1 =
      ap (λ (p : List ℕ × Action). p.1) (filtered-append initial before chunk sends)
      ∙ ap (λ x. (filtered x chunk).1) (sym same) in
    (
      λ (s2, o2, e).
          let ends : (filtered s chunk).1 ≡ disconnect = cc (runs, e) in
          disconnect-Detects (before ++ chunk) initial (whole ∙ ends),
      λ escape.
          let ends : (filtered s chunk).1 ≡ disconnect =
            sym whole ∙ Detects-disconnect (before ++ chunk) initial escape in
          (s', o', runs ∙ ap (λ a. some (s', o', a)) ends),
    )
