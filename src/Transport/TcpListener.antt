-- ===== src/Transport/TcpListener.antt =====
-- Accept of internal/transport/tcp_listener.go: the goroutine that waits in the Accept of the network listener, the
-- select of the caller, and the goroutine that cleans up after a caller whose context is done.
pub mod Settled
use goet.Prelude.{ℕ, ◌≡◌, List, [], ◌∷◌, Bool, true, false, ◌&&◌, Option, none, some}
use goet.Protocol.Message.{Message}
use goet.Transport.{Stream, Accepted, accepted, refused, Refusal, tcp_authenticate}

-- A TLS connection: its number, the keying material that it exports, and its stream.
pub record Peer : Type 0 where
  pub id : ℕ
  pub material : Option (List ℕ)
  pub stream : Stream

-- What the network listener gives: a connection, or an error.
abbrev pub Arrival : Type 0
Arrival = Option Peer

-- What Accept returns: a connection with its LastClientSeq, or an error.
pub data Result : Type 0 where
  given : ℕ → ℕ → Result
  accept_failed : Result
  unauthentic : Refusal → Result
  context_done : Result

-- Who receives from the channel.
pub data Receiver : Type 0 where
  caller cleaner nobody : Receiver

-- `is_blocked` says that the goroutine still waits in the network listener, `ch` is the channel with room for one,
-- `closed` the connections that were closed.
pub record Call : Type 0 where
  pub is_blocked : Bool
  pub ch : Option Arrival
  pub receiver : Receiver
  pub result : Option Result
  pub closed : List ℕ

abbrev pub begin : Call
begin = record { is_blocked = true; ch = none; receiver = caller; result = none; closed = [] }

pub data Event : Type 0 where
  arrives : Arrival → Event
  take cancel clean : Event

-- An event of the goroutines here, not of the network.
abbrev pub IsOwn : Event → Type 0
IsOwn (arrives a) = ⊥
IsOwn _ = Unit

abbrev pub is_caller : Receiver → Bool
is_caller caller = true
is_caller _ = false

abbrev pub is_cleaner : Receiver → Bool
is_cleaner cleaner = true
is_cleaner _ = false

abbrev pub is_full : Option Arrival → Bool
is_full none = false
is_full (some a) = true

-- The send never waits, since there is room for one; a receive waits for a value.
unfoldable pub is_ready : Event → Call → Bool
is_ready (arrives a) k = k.is_blocked
is_ready take k = is_caller k.receiver && is_full k.ch
is_ready cancel k = is_caller k.receiver
is_ready clean k = is_cleaner k.receiver && is_full k.ch

-- The cleaner closes a connection that came too late.
abbrev pub close_late : Option Arrival → Call → Call
close_late (some (some p)) k = record k { ch = none; receiver = nobody; closed = p.id ∷ k.closed }
close_late _ k = record k { ch = none; receiver = nobody }

module _ (mac : List ℕ → List ℕ → List ℕ) (sends : List Message → Bool) (passkey : List ℕ) where
  abbrev pub authenticated : Peer → Accepted → Call → Call
  authenticated p (accepted last) k = record k {
    ch = none;
    receiver = nobody;
    result = some (given p.id last);
  }
  authenticated p (refused why) k = record k {
    ch = none;
    receiver = nobody;
    result = some (unauthentic why);
    closed = p.id ∷ k.closed;
  }

  abbrev pub take_arrival : Option Arrival → Call → Call
  take_arrival none k = k
  take_arrival (some none) k = record k {
    ch = none;
    receiver = nobody;
    result = some accept_failed;
  }
  take_arrival (some (some p)) k =
      authenticated p (tcp_authenticate mac sends passkey p.material p.stream).0 k

  unfoldable pub step : Event → Call → Call
  step (arrives a) k = record k { is_blocked = false; ch = some a }
  step take k = take_arrival k.ch k
  step cancel k = record k { receiver = cleaner; result = some context_done }
  step clean k = close_late k.ch k

  -- What can come about, and what the network listener has given by then.
  pub data Reaches : Option Arrival → Call → Type 0 where
    here : Reaches none begin
    arrive :
        (k : Call) (a : Arrival)
        → Reaches none k
        → is_ready (arrives a) k ≡ true
        → Reaches (some a) (step (arrives a) k)
    go_on :
        (o : Option Arrival) (k : Call) (ev : Event)
        → Reaches o k
        → is_ready ev k ≡ true
        → IsOwn ev
        → Reaches o (step ev k)
