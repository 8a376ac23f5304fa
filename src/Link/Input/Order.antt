-- ===== src/Link/Input/Order.antt =====
-- What the session of internal/session/session.go writes to its PTY of what is typed at the client of
-- internal/client/client.go.
use goet.Prelude.{ℕ, ◌^◌, ◌<◌, ◌≤◌, ◌≡◌, sym, ap, subst, ◌∙◌, arith}
use goet.Prelude.{
  List, [], ◌∷◌, ◌++◌, append-nil, length, length-append, take, take_all, Bool, true,
}
use goet.Protocol.Message.{ℤ}
use goet.Catchup.{Entry}
use goet.Session
use goet.Session.Runs.{session_of}
use goet.Session.History.{payloads}
use goet.Client.{Effect}
use goet.Client.History.{typed}
use goet.Client.Relay.{Relay}
use goet.Client.Run.{Phase, connected, retrying, returned}
use goet.Link.Idle.{written}
use goet.Link.Input.{Line, Reaches, here, serve, hear, meet, miss, relay, leave, pause}
use goet.Link.Input.Kept.{AreKept, more-AreKept, total}
use goet.Link.Input.Fed.{AtPhase, Fed, begin-Fed, serve-Fed, hear-Fed}
use goet.Link.Input.Fed.Rounds.{meet-Fed, miss-Fed, relay-Fed, leave-Fed, pause-Fed}

phase-AreKept :
    (ts : List (List ℕ)) (t : List ℕ) (older history more : List Entry) (k : Line) (p : Phase)
    → AreKept ts older
    → history ≡ older ++ more
    → AtPhase older t history k.base k.sent p
    → AreKept (t ∷ ts) history
phase-AreKept ts t older history more k p earlier grown at =
    subst (λ es. AreKept (t ∷ ts) es) (sym grown)
      (let (lost, same) = left_over p at in
        more-AreKept ts t older more lost earlier
          (ap (λ es. payloads es ++ lost) (sym grown) ∙ same))
  where
    left_over :
        (p : Phase)
        → AtPhase older t history k.base k.sent p
        → (lost : List ℕ) × (payloads history ++ lost ≡ payloads older ++ t)
    left_over (connected r) (sends, _) = (r.coal.buf, sends.tracks.bytes)
    left_over (retrying c) rests = (rests.lost, rests.bytes)
    left_over (returned stop c) rests = (rests.lost, rests.bytes)

module _ (session_fate : List Session.Effect → Bool) (fate : List Effect → Bool)
    (writes : (bytes : List ℕ) (es : List Session.Effect)
      → session_fate (Session.write_pty bytes ∷ es) ≡ true)
    (z z' : ℤ) (is_tty : Bool) (began : ℕ) where
  Reaches-Fed :
      (ts : List (List ℕ)) (t : List ℕ) (k : Line)
      → Reaches session_fate fate z z' is_tty began ts t k
      → total (t ∷ ts) < 2 ^ 64
      → Fed session_fate ts t k
  Reaches-Fed _ _ _ here small = begin-Fed session_fate z z' is_tty began
  Reaches-Fed _ _ _ (serve ts t k l now ev before on ready quiet) small =
      serve-Fed session_fate ts t k l now ev (Reaches-Fed ts t k before small) on quiet
  Reaches-Fed _ _ _ (hear ts t k l now m ms before on current next) small =
      hear-Fed session_fate ts t k l now m ms writes (Reaches-Fed ts t k before small) on current
        next
  Reaches-Fed _ _ _ (meet ts t k l c nc now later done g before on at_k dialled said header back)
        small =
      meet-Fed session_fate fate ts t k l c nc now later done g
        (Reaches-Fed ts t k before (omega (arith, small))) on at_k header back
  Reaches-Fed _ _ _ (miss ts t k c now done g before at_k missed) small =
      miss-Fed session_fate fate ts t k c now done g (Reaches-Fed ts t k before small) at_k missed
  Reaches-Fed _ _ _ (relay ts t k r r' now ev before at_k ready stepped) small =
      relay-Fed session_fate fate ts t k r r' now ev
        (Reaches-Fed ts t k before (omega (arith, small, length-append t (typed now ev r)))) at_k
        small stepped
  Reaches-Fed _ _ _ (leave ts t k r now ev reason c before at_k ready stepped) small =
      leave-Fed session_fate fate ts t k r now ev reason c
        (Reaches-Fed ts t k before (omega (arith, small, length-append t (typed now ev r)))) at_k
        small stepped
  Reaches-Fed _ _ _ (pause ts t k c done before at_k) small =
      pause-Fed session_fate fate ts t k c done (Reaches-Fed ts t k before small) at_k

  -- In each state that the client and the session can come to before 2^64 bytes are let through by the escape machine,
  -- however often connections are lost, given up and replaced, if each write to the PTY succeeds, and the ring of the
  -- client reaches back to what the session has received whenever the two meet: there is a history that has, for
  -- each connection in turn, payloads that are a beginning of what was let through on it, and the session has written
  -- to the PTY the payloads of this history from its start to the number that it has received, each once and in order.
  pub Reaches-types :
      (ts : List (List ℕ)) (t : List ℕ) (k : Line)
      → Reaches session_fate fate z z' is_tty began ts t k
      → total (t ∷ ts) < 2 ^ 64
      → (history : List Entry) × AreKept (t ∷ ts) history
        × ((session_of k.loop).recv_seq ≤ length history)
        × (written session_fate (session_of k.loop).trace
            ≡ payloads (take (session_of k.loop).recv_seq history))
  Reaches-types ts t k reached small =
      let h = Reaches-Fed ts t k reached small in
      (
        h.history,
        phase-AreKept ts t h.older h.history h.grown.0 k k.phase h.earlier h.grown.1 h.client,
        h.feeds.pty.known,
        h.feeds.pty.wrote,
      )

  -- In each state that the two can come to as above, with the same conditions on the bytes, the PTY and the ring: if the
  -- client relays with an empty batch, and the session has received the last number that the client gave out, then
  -- what the session has written to the PTY ends in all that was let through on the last connection, after payloads that are beginnings of what was let through on the ones before.
  pub typed_all :
      (ts : List (List ℕ)) (t : List ℕ) (k : Line) (r : Relay)
      → Reaches session_fate fate z z' is_tty began ts t k
      → total (t ∷ ts) < 2 ^ 64
      → k.phase ≡ connected r
      → r.coal.buf ≡ []
      → (session_of k.loop).recv_seq ≡ r.client.send_seq
      → (older : List Entry) × AreKept ts older
        × (written session_fate (session_of k.loop).trace ≡ payloads older ++ t)
  typed_all ts t k r reached small at_k flat last =
      let h = Reaches-Fed ts t k reached small in
      let (sends, _) = subst (λ p. AtPhase h.older t h.history k.base k.sent p) at_k h.client in
      let n = (session_of k.loop).recv_seq in
      (
        h.older,
        h.earlier,
        h.feeds.pty.wrote
            ∙ ap payloads (take_all n h.history (omega (arith, last, sends.tracks.counted)))
            ∙ sym (append-nil (payloads h.history))
            ∙ ap (λ b. payloads h.history ++ b) (sym flat)
            ∙ sends.tracks.bytes,
      )
