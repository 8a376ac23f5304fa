-- ===== src/Session/Stream/Held.antt =====
-- What the rings of internal/session/session.go and internal/client/client.go give for a replay.
use goet.Prelude.{
  ℕ, ◌+◌, ◌<◌, ◌≤◌, ◌≡◌, ◌⊎◌, sym, ap, ◌∙◌, arith, inl, inr, List, [], length, length-append,
  length-zero, drop, drop-nil,
}
use goet.Catchup
use goet.Catchup.{Buffer, Entry, oldest_seq}
use goet.Catchup.Spec.{newer}
use goet.Catchup.Refine.{contents}
use goet.Catchup.Replay.{replay_since-newer}
use goet.Catchup.History.{replay_since_complete}
use goet.Session.History.{Tracks}
use goet.Session.Conns.{IsNumbered-IsIncreasing, newer-drop}

-- Nothing was ever stored, or the ring reaches back to what the other side lacks.
abbrev pub ReachesBack : ℕ → ℕ → Buffer → Type 0
ReachesBack last send_seq buf = (send_seq ≡ 0) ⊎ ((0 < buf.count) × (oldest_seq buf ≤ last + 1))

pub replay_since-drop :
    (last : ℕ) (input : List ℕ) (history : List Entry) (buf : Buffer) (send_seq : ℕ)
    (batch : List ℕ)
    → Tracks input history buf send_seq batch
    → ReachesBack last send_seq buf
    → Catchup.replay_since last buf ≡ drop last history
replay_since-drop last input history buf send_seq batch t (inl nothing) =
    let no_history : history ≡ [] = length-zero history (omega (arith, t.counted, nothing)) in
    let none_held : contents buf ≡ [] =
      length-zero (contents buf)
        (omega (arith, ap length (t.held.1 ∙ no_history), length-append t.held.0 (contents buf))) in
    replay_since-newer last buf
    ∙ ap (newer last) none_held
    ∙ unfold newer in (sym (drop-nil last) ∙ ap (drop last) (sym no_history))
replay_since-drop last input history buf send_seq batch t (inr (some_held, reaches)) =
    replay_since_complete buf history last t.valid t.held
      (IsNumbered-IsIncreasing 1 history t.numbered) some_held reaches
    ∙ newer-drop 1 last history t.numbered
    ∙ ap (λ k. drop k history) (omega arith)
