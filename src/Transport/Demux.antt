-- ===== src/Transport/Demux.antt =====
-- internal/transport/tcp.go after StartDemux: the goroutine demuxLoop reads the one stream and sends each
-- message to one of two channels, from which ReadControl and ReadData take.
pub mod Order
pub mod Life
use goet.Prelude.{ℕ, ◌≤◌, ◌≡◌, refl, sym, ap, ◌∙◌, inl, inr, arith}
use goet.Prelude.{
  List, [], ◌∷◌, ◌++◌, append-nil, append_assoc, length, length-append, Bool, true, false, not,
  ◌&&◌, Bool-cases,
}
use goet.Prelude.{ltb, tests, if◌then◌else◌}
use goet.Protocol.Message.{Message, data_msg}
use goet.Session.{Received, message, read_error}

abbrev pub channel_size : ℕ
channel_size = 16

-- The fields of tcpConn that the goroutine and the readers share. `is_running` says that demuxLoop has
-- not returned, which is when it closes both channels; `done` that the channel of that name is closed.
pub record TcpConn : Type 0 where
  pub control_ch : List Received
  pub data_ch : List Received
  pub is_running : Bool
  pub done : Bool

abbrev pub start_demux : TcpConn
start_demux = record { control_ch = []; data_ch = []; is_running = true; done = false }

abbrev pub is_data : Received → Bool
is_data (message (data_msg seq payload)) = true
is_data _ = false

-- What happens: ReadMessage gives a result and the loop sends it, the loop returns because of `done`
-- while it waits for room, a reader takes from a channel, or Close is called.
pub data Event : Type 0 where
  arrives : Received → Event
  gives_up : Event
  read_control read_data : Event
  close : Event

abbrev pub has_room : List Received → Bool
has_room ch = ltb (length ch) channel_size

-- A send with a default: a full channel drops the error.
abbrev pub try_send : Received → List Received → List Received
try_send r ch = if has_room ch then ch ++ (r ∷ []) else ch

abbrev pub rest : List Received → List Received
rest [] = []
rest (r ∷ rs) = rs

abbrev pub is_empty : List Received → Bool
is_empty [] = true
is_empty (r ∷ rs) = false

abbrev pub sends_to : Received → TcpConn → List Received
sends_to r c = if is_data r then c.data_ch else c.control_ch

-- A send waits for room, and a receive for a value or the close of the channel.
unfoldable pub is_ready : Event → TcpConn → Bool
is_ready (arrives read_error) c = c.is_running
is_ready (arrives (message m)) c = c.is_running && has_room (sends_to (message m) c)
is_ready gives_up c = c.is_running && c.done
is_ready read_control c = not (is_empty c.control_ch && c.is_running)
is_ready read_data c = not (is_empty c.data_ch && c.is_running)
is_ready close c = true

-- A round of demuxLoop.
unfoldable pub route : Received → TcpConn → TcpConn
route read_error c = record c {
  control_ch = try_send read_error c.control_ch;
  data_ch = try_send read_error c.data_ch;
  is_running = false;
}
route (message m) c =
    if is_data (message m)
    then record c { data_ch = c.data_ch ++ (message m ∷ []) }
    else record c { control_ch = c.control_ch ++ (message m ∷ []) }

unfoldable pub step : Event → TcpConn → TcpConn
step (arrives r) c = route r c
step gives_up c = record c { is_running = false }
step read_control c = record c { control_ch = rest c.control_ch }
step read_data c = record c { data_ch = rest c.data_ch }
step close c = record c { done = true }

-- What a reader gets from its channel; a closed channel that is empty is an error.
abbrev pub taken : List Received → Received
taken [] = read_error
taken (r ∷ rs) = r

-- What each of the two readers has got so far, and what has arrived.
pub record Trace : Type 0 where
  pub conn : TcpConn
  pub got_control : List Received
  pub got_data : List Received
  pub arrived : List Received

abbrev pub begin : Trace
begin = record { conn = start_demux; got_control = []; got_data = []; arrived = [] }

unfoldable pub trace_step : Event → Trace → Trace
trace_step (arrives r) t = record t {
  conn = step (arrives r) t.conn;
  arrived = t.arrived ++ (r ∷ []);
}
trace_step read_control t = record t {
  conn = step read_control t.conn;
  got_control = t.got_control ++ (taken t.conn.control_ch ∷ []);
}
trace_step read_data t = record t {
  conn = step read_data t.conn;
  got_data = t.got_data ++ (taken t.conn.data_ch ∷ []);
}
trace_step ev t = record t { conn = step ev t.conn }

-- What can come about after StartDemux.
pub data Reaches : Trace → Type 0 where
  here : Reaches begin
  next :
      (t : Trace) (ev : Event) → Reaches t → is_ready ev t.conn ≡ true → Reaches (trace_step ev t)
