-- ===== src/Session/Conns.antt =====
-- Reconnects in internal/session/session.go: what a client that comes back gets of the history.
use goet.Prelude.{ℕ, suc, ◌+◌, ◌-◌, ◌^◌, ◌<◌, ◌≤◌, ◌≡◌, sym, ap, ◌∙◌, arith, inl, inr, tests}
use goet.Prelude.{List, [], ◌∷◌, ◌++◌, map, append-nil, length, drop, drop-nil, Bool}
use goet.Prelude.{some, Bool-cases, ltb, All}
use goet.Catchup.{Entry, oldest_seq}
use goet.Catchup.Spec.{newer}
use goet.Catchup.Replay.{replay_since-newer}
use goet.Catchup.History.{IsIncreasing, replay_since_complete}
use goet.Coalesce
use goet.Coalesce.{Coalescer}
use goet.Session.{Effect, Session, NewConn, close_conn, keep, flush_coalesced, handle_new_conn}
use goet.Session.Calls.{send_stored-Keeps, close_conn-Keeps, handle_new_conn-Keeps}
use goet.Session.History.{
  payloads, IsNumbered, TracksSession, flush_cases, Keeps-Tracks, flush_coalesced-Tracks,
}
use goet.Session.Replay.{data_of, data_to, handle_new_conn-Replays}

larger : (n m : ℕ) (es : List Entry) → m < n → IsNumbered n es → All (λ f. m < f.seq) es
larger n m [] h numbered = tt
larger n m (e ∷ es) h numbered =
    (omega (arith, numbered.0), larger (n + 1) m es (omega arith) numbered.1)

pub IsNumbered-IsIncreasing : (n : ℕ) (es : List Entry) → IsNumbered n es → IsIncreasing es
IsNumbered-IsIncreasing n [] numbered = tt
IsNumbered-IsIncreasing n (e ∷ es) numbered = (
  larger (n + 1) e.seq es (omega (arith, numbered.0)) numbered.1,
  IsNumbered-IsIncreasing (n + 1) es numbered.1,
)

-- Of a numbered list, the entries after the first few.
pub newer-drop :
    (n after : ℕ) (es : List Entry) → IsNumbered n es → newer after es ≡ drop (after + 1 - n) es
unfolding newer
newer-drop n after [] numbered = sym (drop-nil (after + 1 - n))
newer-drop n after (e ∷ es) numbered = elim (Bool-cases (ltb after e.seq)) [
  | inl later ↦
      let none_here : after + 1 - n ≡ 0 = omega (tests, numbered.0) in
      let none_there : after + 1 - (n + 1) ≡ 0 = omega (tests, numbered.0) in
      rw (later, none_here)
        (ap (λ t. e ∷ t) (newer-drop (n + 1) after es numbered.1 ∙ ap (λ k. drop k es) none_there))
  | inr seen ↦
      let one_here : after + 1 - n ≡ suc (after + 1 - (n + 1)) = omega (tests, numbered.0) in
      rw (seen, one_here) (newer-drop (n + 1) after es numbered.1)
]

abbrev buf_of : Coalescer → List ℕ
buf_of c = c.buf

module _ (fate : List Effect → Bool) where
  -- No batch waits after a flush.
  flush_coalesced-empty : (s : Session) → (flush_coalesced fate s).coal.buf ≡ []
  unfolding flush_coalesced
  flush_coalesced-empty s = elim (flush_cases s.coal) [
    | inl (idle, _, empty) ↦ rw idle empty
    | inr (batch, some_bytes, empty) ↦ rw batch (
        ap buf_of
          (send_stored-Keeps fate s.coal.buf
            (keep fate s.coal.buf (record s { coal = (Coalesce.flush s.coal).0 }))).coal
        ∙ empty)
  ]

  -- What the session gave the client: it knows all that the PTY printed, in `history`, and has sent the
  -- client the payloads after those that it had.
  pub record Resumes (nc : NewConn) (input : List ℕ) (history : List Entry) (s s' : Session)
      : Type 0 where
    pub tracks : TracksSession input history s'
    pub whole : payloads history ≡ input
    pub sent :
        data_to nc.id s'.trace
        ≡ data_to nc.id s.trace ++ map data_of (drop nc.last_client_seq history)

  -- If the PTY has printed fewer than 2^64 bytes, the new connection is still the current one when
  -- handleNewConn returns, and the ring is not empty and reaches back
  -- to the payload after the last that the client received, then all that the PTY has printed so far is
  -- in the history, and the client has been sent exactly the payloads of it that it lacks, in order.
  pub handle_new_conn-Resumes :
      (nc : NewConn) (input : List ℕ) (history : List Entry) (s : Session)
      → TracksSession input history s
      → length input < 2 ^ 64
      → (handle_new_conn fate nc s).0.conn ≡ some nc.id
      → 0 < (flush_coalesced fate (close_conn s)).buf.count
      → oldest_seq (flush_coalesced fate (close_conn s)).buf ≤ nc.last_client_seq + 1
      → (more : List Entry) × Resumes nc input (history ++ more) s (handle_new_conn fate nc s).0
  handle_new_conn-Resumes nc input history s t small on held covers =
      let f = flush_coalesced fate (close_conn s) in
      let (more, t') =
        flush_coalesced-Tracks fate input history (close_conn s)
          (Keeps-Tracks input history s (close_conn s) (close_conn-Keeps s) t) small in
      let all = history ++ more in
      (
        more,
        record {
          tracks = Keeps-Tracks input all f _ (handle_new_conn-Keeps fate nc s) t';
          whole =
              sym (append-nil (payloads all))
              ∙ ap (λ b. payloads all ++ b) (sym (flush_coalesced-empty (close_conn s)))
              ∙ t'.bytes;
          sent =
              handle_new_conn-Replays fate nc s on
              ∙ ap (λ es. data_to nc.id s.trace ++ map data_of es)
                  (sym (replay_since-newer nc.last_client_seq f.buf)
                    ∙ replay_since_complete f.buf all nc.last_client_seq t'.valid t'.held
                        (IsNumbered-IsIncreasing 1 all t'.numbered) held covers
                    ∙ newer-drop 1 nc.last_client_seq all t'.numbered
                    ∙ ap (λ k. drop k all) (omega arith));
        },
      )
