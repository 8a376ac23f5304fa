-- ===== src/Link/Input.antt =====
-- The client of internal/client/client.go and the session of internal/session/session.go, joined by
-- connections: what is typed at the client and what the session writes to its PTY. The two meet on a
-- connection when the session accepts it and the client reads the SequenceHeader there. The session
-- reads what the client writes to that connection, in order, as much of it as arrives, also when the client has
-- given it up and dials again, until it accepts another. The ring of the client has to reach back to the number
-- that the session announces: what the ring has lost cannot be sent again.
pub mod Kept
pub mod Fed
pub mod Order
mod Tests
use goet.Prelude.{ℕ, suc, ◌≡◌, ◌⊎◌, List, [], ◌∷◌, ◌++◌, Bool, true, false, none, some, drop}
use goet.Protocol.Message.{Message, sequence_header, ℤ}
use goet.Session
use goet.Session.{Received, message, NewConn}
use goet.Session.Loop
use goet.Session.Stream.Held.{ReachesBack}
use goet.Client
use goet.Client.{Client}
use goet.Client.History.{typed}
use goet.Client.Relay
use goet.Client.Relay.{Relay, relaying, left, ExitReason}
use goet.Client.Run.{Greeting, Phase, retrying, connected, connect, finish, wait}
use goet.Client.Handshake.{client_of}
use goet.Client.Sent.{data_sent}
use goet.Link.Typed.{IsDataless}

-- `conn` is the connection on which the two met last, `base` the number that the session announced there, `sent`
-- the Data that the client has written to it, and `taken` how many of them the session has read.
pub record Line : Type 0 where
  pub loop : Loop.Outcome
  pub phase : Phase
  pub conn : ℕ
  pub base : ℕ
  pub sent : List Message
  pub taken : ℕ

abbrev pub begin : ℤ → ℤ → Bool → ℕ → Line
begin session_size client_size is_tty now = record {
  loop = Loop.running (Loop.start now (Session.new session_size));
  phase = retrying (Client.new client_size is_tty);
  conn = 0;
  base = 0;
  sent = [];
  taken = 0;
}

-- The Data that the client wrote to the connection and that the session has not read.
abbrev pub unread : Line → List Message
unread k = drop k.taken k.sent

abbrev pub HasNoHeader : Received → Type 0
HasNoHeader (message (sequence_header last)) = ⊥
HasNoHeader _ = Unit

-- The dial fails, or the client reads no SequenceHeader.
abbrev pub IsMissed : (List Client.Effect → Bool) → Greeting → Client → Type 0
IsMissed fate g c = (fate (Client.dial c.recv_seq ∷ c.trace) ≡ false) ⊎ HasNoHeader g.header

abbrev pub from : ℕ → Message → Loop.Event
from c m = Loop.stream (record { source = c; received = message m })

module _ (session_fate : List Session.Effect → Bool) (client_fate : List Client.Effect → Bool) where
  -- What can come about, and what the escape machine has let through by then: on the connections before,
  -- the latest first, and on the last one. A case of the session's select, with a Data from its connection or without,
  -- a round of the client in which the two meet, one in which they do not, a case of ioLoop, its end, and the wait
  -- between two rounds.
  pub data Reaches (z z' : ℤ) (is_tty : Bool) (began : ℕ)
      : List (List ℕ) → List ℕ → Line → Type 0 where
    here : Reaches z z' is_tty began [] [] (begin z z' is_tty began)
    serve :
        (ts : List (List ℕ)) (t : List ℕ) (k : Line) (l : Loop.Loop) (now : ℕ) (ev : Loop.Event)
        → Reaches z z' is_tty began ts t k
        → k.loop ≡ Loop.running l
        → Loop.is_ready now ev l ≡ true
        → IsDataless ev l.session
        → Reaches z z' is_tty began ts t (record k { loop = Loop.step session_fate now ev l })
    hear :
        (ts : List (List ℕ)) (t : List ℕ) (k : Line) (l : Loop.Loop) (now : ℕ) (m : Message)
        (ms : List Message)
        → Reaches z z' is_tty began ts t k
        → k.loop ≡ Loop.running l
        → l.session.conn ≡ some k.conn
        → unread k ≡ m ∷ ms
        → Reaches z z' is_tty began ts t
            (record k { loop = Loop.step session_fate now (from k.conn m) l; taken = suc k.taken })
    meet :
        (ts : List (List ℕ)) (t : List ℕ) (k : Line) (l : Loop.Loop) (c : Client) (nc : NewConn)
        (now later : ℕ) (done : Bool) (g : Greeting)
        → Reaches z z' is_tty began ts t k
        → k.loop ≡ Loop.running l
        → k.phase ≡ retrying c
        → client_fate (Client.dial c.recv_seq ∷ c.trace) ≡ true
        → nc.last_client_seq ≡ c.recv_seq
        → g.header ≡ message (sequence_header l.session.recv_seq)
        → ReachesBack l.session.recv_seq c.send_seq c.buf
        → Reaches z z' is_tty began (t ∷ ts) [] (record {
          loop = Loop.step session_fate now (Loop.accepted nc) l;
          phase = connect client_fate later done g c;
          conn = nc.id;
          base = l.session.recv_seq;
          sent = data_sent (client_of (connect client_fate later done g c)).trace;
          taken = 0;
        })
    miss :
        (ts : List (List ℕ)) (t : List ℕ) (k : Line) (c : Client) (now : ℕ) (done : Bool)
        (g : Greeting)
        → Reaches z z' is_tty began ts t k
        → k.phase ≡ retrying c
        → IsMissed client_fate g c
        → Reaches z z' is_tty began ts t (record k { phase = connect client_fate now done g c })
    relay :
        (ts : List (List ℕ)) (t : List ℕ) (k : Line) (r r' : Relay) (now : ℕ) (ev : Relay.Event)
        → Reaches z z' is_tty began ts t k
        → k.phase ≡ connected r
        → Relay.is_ready now ev r ≡ true
        → Relay.step client_fate now ev r ≡ relaying r'
        → Reaches z z' is_tty began ts
            (t ++ typed now ev r)
            (record k { phase = connected r'; sent = data_sent r'.client.trace })
    leave :
        (ts : List (List ℕ)) (t : List ℕ) (k : Line) (r : Relay) (now : ℕ) (ev : Relay.Event)
        (reason : ExitReason) (c : Client)
        → Reaches z z' is_tty began ts t k
        → k.phase ≡ connected r
        → Relay.is_ready now ev r ≡ true
        → Relay.step client_fate now ev r ≡ left reason c
        → Reaches z z' is_tty began ts
            (t ++ typed now ev r)
            (record k { phase = finish reason c; sent = data_sent c.trace })
    pause :
        (ts : List (List ℕ)) (t : List ℕ) (k : Line) (c : Client) (done : Bool)
        → Reaches z z' is_tty began ts t k
        → k.phase ≡ retrying c
        → Reaches z z' is_tty began ts t (record k { phase = wait done c })
