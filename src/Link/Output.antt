-- ===== src/Link/Output.antt =====
-- What the client of internal/client/client.go shows of what the PTY of internal/session/session.go prints.
use goet.Prelude.{ℕ, ◌^◌, ◌<◌, ◌≤◌, ◌≡◌, sym, ap, ◌∙◌, arith}
use goet.Prelude.{
  List, [], ◌++◌, append-nil, append_assoc, length, length-append, take, drop, take-append_drop,
  take_all, Bool,
}
use goet.Protocol.Message.{ℤ}
use goet.Catchup.{Entry}
use goet.Session
use goet.Session.{Session, Received, message, read_error}
use goet.Session.Runs.{session_of, printed}
use goet.Session.History.{payloads, payloads-append, TracksSession}
use goet.Client.{Effect}
use goet.Client.Shown.{shown}
use goet.Client.Run.{wait}
use goet.Client.Handshake.{client_of}
use goet.Link.{Link, Reaches, here, serve, redial, relay, leave, pause}
use goet.Link.Round.{wait-Mute, wait-IsInStep}
use goet.Link.Joined.{
  Joined, begin-Joined, serve-Joined, Mute-Joined, redial-Joined, relay-Joined, leave-Joined,
}

module _ (session_fate : List Session.Effect → Bool) (fate : List Effect → Bool) where
  Reaches-Joined :
      (z z' : ℤ) (is_tty : Bool) (began : ℕ) (input : List ℕ) (k : Link)
      → Reaches session_fate fate z z' is_tty began input k
      → length input < 2 ^ 64
      → Joined fate input k
  Reaches-Joined z z' is_tty began _ _ here small = begin-Joined fate [] z z' is_tty began
  Reaches-Joined z z' is_tty began _ _ (serve input k l now ev before at_k ready offers) small =
      serve-Joined fate input k session_fate l now ev
        (Reaches-Joined z z' is_tty began input k before
          (omega (arith, small, length-append input (printed ev))))
        at_k small offers
  Reaches-Joined z z' is_tty began _ _ (redial input k c conn now done g before at_k unused other)
        small =
      redial-Joined fate input k c conn now done g
        (Reaches-Joined z z' is_tty began input k before small) at_k unused other
  Reaches-Joined z z' is_tty began _ _ (relay input k r r' now ev before at_k ready reads stepped)
        small =
      relay-Joined fate input k r r' now ev (Reaches-Joined z z' is_tty began input k before small)
        at_k reads stepped
  Reaches-Joined z z' is_tty began _ _
        (leave input k r now ev reason c before at_k ready reads stepped) small =
      leave-Joined fate input k r now ev reason c
        (Reaches-Joined z z' is_tty began input k before small) at_k reads stepped
  Reaches-Joined z z' is_tty began _ _ (pause input k c done before at_k) small =
      Mute-Joined fate input k c (wait done c)
        (Reaches-Joined z z' is_tty began input k before small) at_k (wait-Mute fate done c)
        (wait-IsInStep k.base k.taken done c)

  -- In each state that the two can come to before the PTY has printed 2^64 bytes, whatever fails and however
  -- often the client dials again, if the ring of the session reaches back to what the client lacks whenever the
  -- session accepts it: what the client has shown is the payloads of the session's history from its start to the
  -- number that the client has received, each of them once and in order; the history and the batch that waits
  -- are what the PTY has printed.
  pub Reaches-shows :
      (z z' : ℤ) (is_tty : Bool) (began : ℕ) (input : List ℕ) (k : Link)
      → Reaches session_fate fate z z' is_tty began input k
      → length input < 2 ^ 64
      → (history : List Entry) × TracksSession input history (session_of k.loop)
        × ((client_of k.phase).recv_seq ≤ length history)
        × (shown fate (client_of k.phase).trace
            ≡ payloads (take (client_of k.phase).recv_seq history))
  Reaches-shows z z' is_tty began input k reached small =
      let j = Reaches-Joined z z' is_tty began input k reached small in
      (j.history, j.delivers.tracks, j.client.known, j.client.shows)

  -- In each such state, what the client has shown is a beginning of what the PTY has printed.
  pub shown_prefix :
      (z z' : ℤ) (is_tty : Bool) (began : ℕ) (input : List ℕ) (k : Link)
      → Reaches session_fate fate z z' is_tty began input k
      → length input < 2 ^ 64
      → (later : List ℕ) × (shown fate (client_of k.phase).trace ++ later ≡ input)
  shown_prefix z z' is_tty began input k reached small =
      let (history, tracks, _, shows) = Reaches-shows z z' is_tty began input k reached small in
      let n = (client_of k.phase).recv_seq in
      let batch = (session_of k.loop).coal.buf in
      let rest = payloads (drop n history) in
      (
        rest ++ batch,
        ap (λ t. t ++ (rest ++ batch)) shows
            ∙ sym (append_assoc (payloads (take n history)) rest batch)
            ∙ ap (λ t. t ++ batch)
                (sym (payloads-append (take n history) (drop n history))
                  ∙ ap payloads (take-append_drop n history))
            ∙ tracks.bytes,
      )

  -- In each state that the two can come to before the PTY has printed 2^64 bytes, with the condition above on the ring: if
  -- the client has received the last number that the session gave out, and no batch waits, then the client has
  -- shown all that the PTY has printed, and nothing else.
  pub shown_all :
      (z z' : ℤ) (is_tty : Bool) (began : ℕ) (input : List ℕ) (k : Link)
      → Reaches session_fate fate z z' is_tty began input k
      → length input < 2 ^ 64
      → (client_of k.phase).recv_seq ≡ (session_of k.loop).send_seq
      → (session_of k.loop).coal.buf ≡ []
      → shown fate (client_of k.phase).trace ≡ input
  shown_all z z' is_tty began input k reached small last flat =
      let (history, tracks, _, shows) = Reaches-shows z z' is_tty began input k reached small in
      let n = (client_of k.phase).recv_seq in
      shows
      ∙ ap payloads (take_all n history (omega (arith, last, tracks.counted)))
      ∙ sym (append-nil (payloads history))
      ∙ ap (λ t. payloads history ++ t) (sym flat)
      ∙ tracks.bytes
