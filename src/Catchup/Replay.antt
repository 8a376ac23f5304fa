-- ===== src/Catchup/Replay.antt =====
-- What a reconnect reads from the ring of internal/catchup/buffer.go.
use goet.Prelude.{ℕ, zero, suc, ◌+◌, ◌-◌, ◌%◌, ◌<◌, ◌≡◌, refl, sym, ap, ◌∙◌, inl, inr}
use goet.Prelude.{List, [], ◌∷◌, ◌++◌, arith, get_or, ◌==◌, Bool-cases}
use goet.Prelude.{==→eq}
use goet.Catchup.{Entry, no_entry, Buffer, tail, replay_loop, replay_since, oldest_seq, newest_seq}
use goet.Catchup.Window.{window, window-snoc, newest_place}
use goet.Catchup.Spec.{newer, first_seq, last_seq}
use goet.Catchup.Refine.{contents, IsValid, contents_pos}

replay_loop-newer :
    (n i after : ℕ) (b : Buffer)
    → replay_loop n i after b ≡ newer after (window b.capacity b.entries (tail b) i n)
unfolding replay_loop newer
replay_loop-newer zero i after b = refl
replay_loop-newer (suc n) i after b = rw (replay_loop-newer n (i + 1) after b)

-- ReplaySince returns the entries held with a later sequence number, oldest first.
pub replay_since-newer : (after : ℕ) (b : Buffer) → replay_since after b ≡ newer after (contents b)
unfolding replay_since
replay_since-newer after b = elim (Bool-cases (b.count == 0)) [
  | inl empty ↦ rw (empty, ==→eq b.count 0 empty) (unfold newer in refl)
  | inr held ↦ rw held (replay_loop-newer b.count 0 after b)
]

-- OldestSeq is the number of the first entry held, and 0 if there is none.
pub oldest_seq-first : (b : Buffer) → IsValid b → oldest_seq b ≡ first_seq (contents b)
unfolding oldest_seq
oldest_seq-first b v = elim (Bool-cases (b.count == 0)) [
  | inl empty ↦ rw (empty, ==→eq b.count 0 empty)
  | inr held ↦ rw held (ap first_seq (sym (contents_pos b v (ground arith))))
]

last_seq-snoc : (es : List Entry) (e : Entry) → last_seq (es ++ (e ∷ [])) ≡ e.seq
last_seq-snoc [] e = refl
last_seq-snoc (x ∷ []) e = refl
last_seq-snoc (x ∷ y ∷ es) e = last_seq-snoc (y ∷ es) e

-- NewestSeq is the number of the last entry held, and 0 if there is none.
pub newest_seq-last : (b : Buffer) → IsValid b → newest_seq b ≡ last_seq (contents b)
unfolding newest_seq
newest_seq-last b v = elim (Bool-cases (b.count == 0)) [
  | inl empty ↦ rw (empty, ==→eq b.count 0 empty)
  | inr held ↦
      let n : ℕ = b.count - 1 in
      let some_held : 0 < b.count = ground arith in
      let one_more : b.count ≡ suc n = omega arith in
      rw held (
        sym (
          ap (λ k. last_seq (window b.capacity b.entries (tail b) 0 k)) one_more
          ∙ ap last_seq (window-snoc b.capacity b.entries (tail b) 0 n n (omega arith))
          ∙ last_seq-snoc (window b.capacity b.entries (tail b) 0 n)
              (get_or b.entries ((tail b + n) % b.capacity) no_entry)
          ∙ ap (λ k. (get_or b.entries k no_entry).seq)
              (newest_place b.capacity b.head b.count v.head_in some_held v.count_in)))
]
