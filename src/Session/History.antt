-- ===== src/Session/History.antt =====
-- What the PTY prints becomes a history of numbered payloads, of which the ring of
-- internal/session/session.go holds the end: whatever succeeds or fails around the session.
use goet.Prelude.{ℕ, ◌+◌, ◌%◌, ◌^◌, ◌<◌, ◌≤◌, ◌≡◌, refl, sym, ap, ◌∙◌, arith, inl, inr}
use goet.Prelude.{List, [], ◌∷◌, ◌++◌, append-nil, append_assoc, length, length-append, Bool}
use goet.Prelude.{Option, none, some, Bool-cases, ◌⊎◌, length-zero, ◌==◌, ==→eq}
use goet.Catchup
use goet.Catchup.{Buffer, Entry}
use goet.Catchup.Refine.{contents, IsValid}
use goet.Catchup.Store.{store-Holds}
use goet.Catchup.History.{IsEndOf, store-IsEndOf}
use goet.Coalesce
use goet.Coalesce.{Coalescer}
use goet.Session.{Effect, Session, keep, flush_coalesced}
use goet.Session.Calls.{Keeps, send_stored-Keeps}

-- The payloads, one after the other.
abbrev pub payloads : List Entry → List ℕ
payloads [] = []
payloads (e ∷ es) = e.payload ++ payloads es

-- The sequence numbers count up from `n`.
abbrev pub IsNumbered : ℕ → List Entry → Type 0
IsNumbered n [] = Unit
IsNumbered n (e ∷ es) = (e.seq ≡ n) × IsNumbered (n + 1) es

-- `history` is all that was sent or stored, `input` all that the PTY printed.
pub record Tracks (input : List ℕ) (history : List Entry) (buf : Buffer) (send_seq : ℕ)
    (batch : List ℕ) : Type 0 where
  pub valid : IsValid buf
  pub held : IsEndOf history (contents buf)
  pub numbered : IsNumbered 1 history
  pub counted : send_seq ≡ length history
  pub bytes : payloads history ++ batch ≡ input
  pub filled : length history ≤ length (payloads history)

abbrev pub TracksSession : List ℕ → List Entry → Session → Type 0
TracksSession input history s = Tracks input history s.buf s.send_seq s.coal.buf

pub payloads-append : (xs ys : List Entry) → payloads (xs ++ ys) ≡ payloads xs ++ payloads ys
payloads-append [] ys = refl
payloads-append (x ∷ xs) ys =
    ap (λ t. x.payload ++ t) (payloads-append xs ys)
    ∙ sym (append_assoc x.payload (payloads xs) (payloads ys))

IsNumbered-snoc :
    (n : ℕ) (es : List Entry) (e : Entry)
    → IsNumbered n es
    → e.seq ≡ n + length es
    → IsNumbered n (es ++ (e ∷ []))
IsNumbered-snoc n [] e h p = (omega arith, tt)
IsNumbered-snoc n (x ∷ xs) e h p = (h.0, IsNumbered-snoc (n + 1) xs e h.1 (omega arith))

pub Keeps-Tracks :
    (input : List ℕ) (history : List Entry) (s s' : Session)
    → Keeps s s'
    → TracksSession input history s
    → TracksSession input history s'
Keeps-Tracks input history s s' k t = record {
  valid = rw k.buf t.valid;
  held = rw k.buf t.held;
  numbered = t.numbered;
  counted = rw k.send_seq t.counted;
  bytes = rw k.coal t.bytes;
  filled = t.filled;
}

-- A batch has grown by some bytes.
pub grow-Tracks :
    (input : List ℕ) (history : List Entry) (buf : Buffer) (send_seq : ℕ)
    (batch batch' bytes : List ℕ)
    → batch' ≡ batch ++ bytes
    → Tracks input history buf send_seq batch
    → Tracks (input ++ bytes) history buf send_seq batch'
grow-Tracks input history buf send_seq batch batch' bytes grown t = record {
  valid = t.valid;
  held = t.held;
  numbered = t.numbered;
  counted = t.counted;
  bytes =
      ap (λ r. payloads history ++ r) grown
      ∙ sym (append_assoc (payloads history) batch bytes)
      ∙ ap (λ r. r ++ bytes) t.bytes;
  filled = t.filled;
}

-- A batch that is stored becomes the last payload of the history.
pub store-Tracks :
    (input : List ℕ) (history : List Entry) (buf : Buffer) (send_seq : ℕ) (batch : List ℕ)
    → Tracks input history buf send_seq batch
    → 0 < length batch
    → length input < 2 ^ 64
    → let seq = (send_seq + 1) % 2 ^ 64 in
      Tracks input
        (history ++ (record { seq = seq; payload = batch } ∷ []))
        (Catchup.store seq batch buf)
        seq
        []
store-Tracks input history buf send_seq batch t some_bytes small =
    let seq : ℕ = (send_seq + 1) % 2 ^ 64 in
    let e : Entry = record { seq = seq; payload = batch } in
    let size : length input ≡ length (payloads history) + length batch =
      ap length (sym t.bytes) ∙ length-append (payloads history) batch in
    let next : seq ≡ length history + 1 = omega (arith, t.counted, t.filled) in
    record {
      valid = (store-Holds buf seq batch t.valid).valid;
      held = store-IsEndOf buf seq batch history t.valid t.held;
      numbered = IsNumbered-snoc 1 history e t.numbered (omega (arith, next));
      counted = omega (arith, next, length-append history (e ∷ []));
      bytes =
          append-nil (payloads (history ++ (e ∷ [])))
          ∙ payloads-append history (e ∷ [])
          ∙ ap (λ r. payloads history ++ r) (append-nil batch)
          ∙ t.bytes;
      filled =
          rw
            (
              length-append history (e ∷ []),
              payloads-append history (e ∷ []),
              length-append (payloads history),
            )
            (omega (arith, t.filled, length-append batch []));
    }

pub flush_cases :
    (c : Coalescer)
    → (((Coalesce.flush c).1 ≡ none) × ((Coalesce.flush c).0 ≡ c) × (c.buf ≡ []))
      ⊎ (((Coalesce.flush c).1 ≡ some c.buf) × (0 < length c.buf) × ((Coalesce.flush c).0.buf ≡ []))
unfolding Coalesce.flush
flush_cases c = elim (Bool-cases (length c.buf == 0)) [
  | inl idle ↦ inl (ground arith, ground arith, length-zero c.buf (==→eq (length c.buf) 0 idle))
  | inr waiting ↦ inr (ground arith, ground arith, ground arith)
]

-- What a flush adds to the history.
abbrev pub batch_entries : ℕ → Option (List ℕ) → List Entry
batch_entries send_seq none = []
batch_entries send_seq (some bytes) = record { seq = (send_seq + 1) % 2 ^ 64; payload = bytes } ∷ []

abbrev pub flushed : Session → List Entry
flushed s = batch_entries s.send_seq (Coalesce.flush s.coal).1

module _ (fate : List Effect → Bool) where
  pub flush_coalesced-Tracks_exact :
      (input : List ℕ) (history : List Entry) (s : Session)
      → TracksSession input history s
      → length input < 2 ^ 64
      → TracksSession input (history ++ flushed s) (flush_coalesced fate s)
  unfolding flush_coalesced
  flush_coalesced-Tracks_exact input history s t small = elim (flush_cases s.coal) [
    | inl (idle, _, _) ↦ rw idle (rw (append-nil history) t)
    | inr (batch, some_bytes, empty) ↦
        let coal = (Coalesce.flush s.coal).0 in
        let s' = keep fate s.coal.buf (record s { coal = coal }) in
        Keeps-Tracks input _ s' (flush_coalesced fate s)
          (rw batch (send_stored-Keeps fate s.coal.buf s'))
          (rw (batch, empty)
            (store-Tracks input history s.buf s.send_seq s.coal.buf t some_bytes small))
  ]

  pub flush_coalesced-Tracks :
      (input : List ℕ) (history : List Entry) (s : Session)
      → TracksSession input history s
      → length input < 2 ^ 64
      → (more : List Entry) × TracksSession input (history ++ more) (flush_coalesced fate s)
  flush_coalesced-Tracks input history s t small =
      (flushed s, flush_coalesced-Tracks_exact input history s t small)
