-- ===== src/Link.antt =====
-- The client of internal/client/client.go and the session of internal/session/session.go, joined by
-- connections: what the PTY prints and what the client shows. A connection is a number; its data stream
-- gives the client the messages that the session wrote to it, in order, as many as arrive. The two are not
-- in step: a client that gives up a connection and dials again can be ahead of the session, which may still
-- write to the old one, or accept it late. When the session accepts the connection that the client dialled last, its
-- ring has to reach back to what the client lacks: what the ring has lost cannot be sent again.
pub mod Round
pub mod Joined
pub mod Output
pub mod Idle
pub mod Typed
pub mod Input
mod Tests
use goet.Prelude.{
  ℕ, ◌+◌, ◌≡◌, ◌≢◌, List, [], ◌∷◌, ◌++◌, Bool, true, false, Option, none, some, drop,
}
use goet.Protocol.Message.{Message, ℤ}
use goet.Session
use goet.Session.{Session}
use goet.Session.Loop
use goet.Session.Runs.{session_of, printed}
use goet.Session.Replay.{data_to}
use goet.Session.Stream.Steps.{Offers}
use goet.Client
use goet.Client.{Client}
use goet.Client.Relay
use goet.Client.Relay.{Relay, relaying, left, ExitReason}
use goet.Client.Receipt.{Reads, count}
use goet.Client.Run.{Greeting, Phase, retrying, connected, connect, finish, wait}

-- `conn` is the connection that the client dialled last, `base` the number that it announced then, and
-- `taken` how many data messages it has read from it.
pub record Link : Type 0 where
  pub loop : Loop.Outcome
  pub phase : Phase
  pub conn : ℕ
  pub base : ℕ
  pub taken : ℕ

abbrev pub begin : ℤ → ℤ → Bool → ℕ → Link
begin session_size client_size is_tty now = record {
  loop = Loop.running (Loop.start now (Session.new session_size));
  phase = retrying (Client.new client_size is_tty);
  conn = 0;
  base = 0;
  taken = 0;
}

-- The data messages that the session wrote to the client's connection and that the client has not read.
abbrev pub unread : Link → List Message
unread k = drop k.taken (data_to k.conn (session_of k.loop).trace)

module _ (session_fate : List Session.Effect → Bool) (client_fate : List Client.Effect → Bool) where
  -- What can come about, and what the PTY has printed by then: a case of the session's select, the next round of
  -- the client (which dials a connection that the session has not written to), a case of ioLoop, its end,
  -- and the wait between two rounds.
  pub data Reaches (z z' : ℤ) (is_tty : Bool) (began : ℕ) : List ℕ → Link → Type 0 where
    here : Reaches z z' is_tty began [] (begin z z' is_tty began)
    serve :
        (input : List ℕ) (k : Link) (l : Loop.Loop) (now : ℕ) (ev : Loop.Event)
        → Reaches z z' is_tty began input k
        → k.loop ≡ Loop.running l
        → Loop.is_ready now ev l ≡ true
        → Offers session_fate k.conn k.base ev l.session
        → Reaches z z' is_tty began
            (input ++ printed ev)
            (record k { loop = Loop.step session_fate now ev l })
    redial :
        (input : List ℕ) (k : Link) (c : Client) (conn now : ℕ) (done : Bool) (g : Greeting)
        → Reaches z z' is_tty began input k
        → k.phase ≡ retrying c
        → data_to conn (session_of k.loop).trace ≡ []
        → (session_of k.loop).conn ≢ some conn
        → Reaches z z' is_tty began input (record {
          loop = k.loop;
          phase = connect client_fate now done g c;
          conn = conn;
          base = c.recv_seq;
          taken = 0;
        })
    relay :
        (input : List ℕ) (k : Link) (r r' : Relay) (now : ℕ) (ev : Relay.Event)
        → Reaches z z' is_tty began input k
        → k.phase ≡ connected r
        → Relay.is_ready now ev r ≡ true
        → Reads ev (unread k)
        → Relay.step client_fate now ev r ≡ relaying r'
        → Reaches z z' is_tty began input
            (record k { phase = connected r'; taken = count ev + k.taken })
    leave :
        (input : List ℕ) (k : Link) (r : Relay) (now : ℕ) (ev : Relay.Event) (reason : ExitReason)
        (c : Client)
        → Reaches z z' is_tty began input k
        → k.phase ≡ connected r
        → Relay.is_ready now ev r ≡ true
        → Reads ev (unread k)
        → Relay.step client_fate now ev r ≡ left reason c
        → Reaches z z' is_tty began input (record k { phase = finish reason c })
    pause :
        (input : List ℕ) (k : Link) (c : Client) (done : Bool)
        → Reaches z z' is_tty began input k
        → k.phase ≡ retrying c
        → Reaches z z' is_tty began input (record k { phase = wait done c })
