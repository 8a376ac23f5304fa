-- ===== src/Client/Escape/Buffers.antt =====
-- The slice that Process of internal/client/escape.go writes to is never too short, if it has one
-- place more than the input.
use goet.Prelude.{
  ◌>>=◌, ℕ, zero, suc, ◌+◌, ◌≤◌, ◌<◌, ◌≡◌, refl, sym, ap, ◌∙◌, append-nil, append_assoc,
  length-append, arith, inl, inr, Bool-cases,
}
use goet.Prelude.{List, [], ◌∷◌, ◌++◌, true, false, some, length, set, ◌==◌}
use goet.Prelude.{lt→ltb, length-set, if◌then◌else◌, take}
use native.Mathlib.Numerals.{add-one}
use goet.Client.Escape.{
  State, mid_line, after_newline, after_tilde, Action, send, disconnect, Output, emit, emit_both,
  round, is_newline, is_escape, process,
}

-- What one round writes.
unfoldable pub written : State → ℕ → List ℕ
written mid_line b = b ∷ []
written after_newline b = if b == b'~' then [] else b ∷ []
written after_tilde b = if b == b'~' then b'~' ∷ [] else b'~' ∷ b ∷ []

abbrev pub next : State → ℕ → State
next mid_line b = if is_newline b then after_newline else mid_line
next after_newline b =
    if b == b'~' then after_tilde else if is_newline b then after_newline else mid_line
next after_tilde b =
    if b == b'~' then mid_line else if is_newline b then after_newline else mid_line

-- The bytes that are written for the input from a state, and how it ends.
unfoldable pub filtered : State → List ℕ → List ℕ × Action
filtered s [] = ([], send)
filtered s (b ∷ bs) = elim (is_escape s b) [
  | true ↦ ([], disconnect)
  | false ↦ (written s b ++ (filtered (next s b) bs).0, (filtered (next s b) bs).1)
]

abbrev pub held : State → ℕ
held after_tilde = 1
held _ = 0

-- The bytes that have been written.
abbrev pub sent : Output → List ℕ
sent o = take o.n o.dst

take-set :
    (n : ℕ) (dst : List ℕ) (b : ℕ)
    → n < length dst
    → take (suc n) (set dst n b) ≡ take n dst ++ (b ∷ [])
take-set n [] b h = absurd (omega arith)
take-set zero (x ∷ xs) b h = refl
take-set (suc n) (x ∷ xs) b h = ap (λ t. x ∷ t) (take-set n xs b (omega arith))

-- `o'` is `o` with some more bytes written.
record Wrote (o : Output) (bytes : List ℕ) (o' : Output) : Type 0 where
  sent_is : sent o' ≡ sent o ++ bytes
  n_is : o'.n ≡ o.n + length bytes
  same_dst : length o'.dst ≡ length o.dst

Wrote-none : (o : Output) → Wrote o [] o
Wrote-none o = record { sent_is = sym (append-nil (sent o)); n_is = omega arith; same_dst = refl }

Wrote-trans : (o p q : Output) (xs ys : List ℕ) → Wrote o xs p → Wrote p ys q → Wrote o (xs ++ ys) q
Wrote-trans o p q xs ys h k = record {
  sent_is = k.sent_is ∙ ap (λ t. t ++ ys) h.sent_is ∙ append_assoc (sent o) xs ys;
  n_is = omega (arith, length-append xs ys, h.n_is, k.n_is);
  same_dst = k.same_dst ∙ h.same_dst;
}

emit-ok :
    (b : ℕ) (o : Output)
    → o.n < length o.dst
    → (o' : Output) × (emit b o ≡ some o') × Wrote o (b ∷ []) o'
unfolding emit
emit-ok b o h = (
  record { dst = set o.dst o.n b; n = o.n + 1 },
  rw (lt→ltb o.n (length o.dst) h),
  record {
    sent_is = ap (λ k. take k (set o.dst o.n b)) (add-one o.n) ∙ take-set o.n o.dst b h;
    n_is = refl;
    same_dst = length-set o.dst o.n b;
  },
)

emit_both-ok :
    (b : ℕ) (s : State) (o : Output)
    → o.n + 1 < length o.dst
    → (o' : Output) × (emit_both b s o ≡ some (s, o')) × Wrote o (b'~' ∷ b ∷ []) o'
unfolding emit_both
emit_both-ok b s o h =
    let (o1, e1, w1) = emit-ok b'~' o (omega arith) in
    let (o2, e2, w2) = emit-ok b o1 (omega (arith, w1.n_is, w1.same_dst)) in
    (o2, rw (e1, e2), Wrote-trans o o1 o2 (b'~' ∷ []) (b ∷ []) w1 w2)

emit_one-ok :
    (b : ℕ) (s : State) (o : Output)
    → o.n < length o.dst
    → (o' : Output) × (◌>>=◌ {B = State × Output} (emit b o) (λ o1. some (s, o1)) ≡ some (s, o'))
      × Wrote o (b ∷ []) o'
emit_one-ok b s o h = let (o1, e1, w1) = emit-ok b o h in (o1, rw e1, w1)

round-ok :
    (s : State) (b : ℕ) (o : Output)
    → o.n + held s < length o.dst
    → (o' : Output) × (round s b o ≡ some (next s b, o')) × Wrote o (written s b) o'
unfolding round written
round-ok mid_line b o h = emit_one-ok b _ o (omega arith)
round-ok after_newline b o h = elim (Bool-cases (b == b'~')) [
  | inl tilde ↦ rw tilde (o, refl, Wrote-none o)
  | inr plain ↦ rw plain (emit_one-ok b _ o (omega arith))
]
round-ok after_tilde b o h = elim (Bool-cases (b == b'~')) [
  | inl tilde ↦ rw tilde (emit_one-ok b'~' _ o (omega arith))
  | inr plain ↦ elim (Bool-cases (is_newline b)) [
    | inl line ↦ rw (plain, line) (emit_both-ok b _ o (omega arith))
    | inr other ↦ rw (plain, other) (emit_both-ok b _ o (omega arith))
  ]
]

-- The state after all bytes, if none of them completes an escape.
unfoldable pub state_after : State → List ℕ → State
state_after s [] = s
state_after s (b ∷ bs) = state_after (next s b) bs

-- What Process gives, and what it adds to the output.
pub record Processed (s : State) (input : List ℕ) (o : Output) : Type 0 where
  pub state : State
  pub output : Output
  pub kept : (filtered s input).1 ≡ send → state ≡ state_after s input
  pub same_room : length output.dst ≡ length o.dst
  pub runs : process s input o ≡ some (state, output, (filtered s input).1)
  pub sends : sent output ≡ sent o ++ (filtered s input).0

length-written : (s : State) (b : ℕ) → length (written s b) + held (next s b) ≤ 1 + held s
unfolding written
length-written mid_line b = ground arith
length-written after_newline b = ground arith
length-written after_tilde b = ground arith

module _ (s : State) (b : ℕ) (bs : List ℕ) where
  pub filtered-escape : is_escape s b ≡ true → filtered s (b ∷ bs) ≡ ([], disconnect)
  unfolding filtered
  filtered-escape e = rw (e, filtered)

  pub filtered-plain :
      is_escape s b ≡ false
      → filtered s (b ∷ bs)
        ≡ (written s b ++ (filtered (next s b) bs).0, (filtered (next s b) bs).1)
  unfolding filtered
  filtered-plain e = rw (e, filtered)

  process-escape :
      (o : Output) → is_escape s b ≡ true → process s (b ∷ bs) o ≡ some (s, o, disconnect)
  unfolding process
  process-escape o e = rw (e, process)

  process-plain :
      (o o1 : Output)
      → is_escape s b ≡ false
      → round s b o ≡ some (next s b, o1)
      → process s (b ∷ bs) o ≡ process (next s b) bs o1
  unfolding process
  process-plain o o1 e r = rw (e, process, r)

  process_step :
      (o o1 : Output)
      → round s b o ≡ some (next s b, o1)
      → Wrote o (written s b) o1
      → Processed (next s b) bs o1
      → Processed s (b ∷ bs) o
  process_step o o1 e w p = elim (Bool-cases (is_escape s b)) [
    | inl escape ↦ record {
      state = s;
      output = o;
      kept = rw (filtered-escape escape) (λ never. cc);
      same_room = refl;
      runs = rw (filtered-escape escape) (process-escape o escape);
      sends = rw (filtered-escape escape) (sym (append-nil (sent o)));
    }
    | inr plain ↦ record {
      state = p.state;
      output = p.output;
      kept = rw (filtered-plain plain) (λ sends. p.kept sends ∙ unfold state_after in refl);
      same_room = p.same_room ∙ w.same_dst;
      runs = rw (filtered-plain plain) (process-plain o o1 plain e ∙ p.runs);
      sends = rw (filtered-plain plain) (
          p.sends
          ∙ ap (λ t. t ++ (filtered (next s b) bs).0) w.sent_is
          ∙ append_assoc (sent o) (written s b) (filtered (next s b) bs).0);
    }
  ]

pub process-Processed :
    (input : List ℕ) (s : State) (o : Output)
    → o.n + held s + length input ≤ length o.dst
    → Processed s input o
process-Processed [] s o h = record {
  state = s;
  output = o;
  kept = λ sends. unfold state_after in refl;
  same_room = refl;
  runs = unfold process filtered in refl;
  sends = unfold filtered in sym (append-nil (sent o));
}
process-Processed (b ∷ bs) s o h =
    let (o1, e1, w1) = round-ok s b o (omega arith) in
    process_step s b bs o o1 e1 w1
      (process-Processed bs (next s b) o1 (omega (arith, length-written s b, w1.n_is, w1.same_dst)))

-- If `dst` has a place for each byte of the input, and one more for a `~` held from before, then
-- Process does not panic: it returns, and has added to the output what `filtered` gives.
pub process-filtered :
    (input : List ℕ) (s : State) (o : Output)
    → o.n + held s + length input ≤ length o.dst
    → (s' : State) × (o' : Output) × (process s input o ≡ some (s', o', (filtered s input).1))
      × (sent o' ≡ sent o ++ (filtered s input).0)
process-filtered input s o h =
    let p = process-Processed input s o h in (p.state, p.output, p.runs, p.sends)
