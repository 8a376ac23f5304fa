-- ===== src/Session.antt =====
-- internal/session/session.go: the server's half. What the session does outside itself is a list of
-- effects, the newest first; `fate` says whether the newest call of such a list succeeds, so a
-- statement for every `fate` is one for every environment. Times are in milliseconds.
pub mod Pty
pub mod Loop
pub mod Calls
pub mod History
pub mod Runs
pub mod Conns
pub mod Replay
pub mod Guards
pub mod Open
pub mod Silent
pub mod Stream
pub mod Exit
pub mod Shell
mod Tests
use goet.Prelude.{ℕ, ◌+◌, ◌-◌, ◌*◌, ◌%◌, ◌^◌, List, [], ◌∷◌, ◌++◌, Bool, true, false, not, ◌&&◌}
use goet.Prelude.{Option, none, some, ltb, ◌==◌, if◌then◌else◌}
use goet.Protocol.Message.{
  Message, auth_request, auth_response, sequence_header, heartbeat, resize, shutdown, terminal_info,
  data_msg, unsupported, ℤ, pos,
}
use goet.Catchup
use goet.Catchup.{Buffer, Entry}
use goet.Coalesce
use goet.Coalesce.{Coalescer}
use Pty.{sanitize_term}

-- A transport.Conn is named by a number.
pub data Effect : Type 0 where
  write_control : ℕ → Message → Effect
  write_data : ℕ → Message → Effect
  close_conn_effect : ℕ → Effect
  start_demux : ℕ → Effect
  start_readers : ℕ → Effect
  spawn_pty : List ℕ → Effect
  write_pty : List ℕ → Effect
  resize_pty : ℕ → ℕ → Effect
  bounce_pty : Effect

-- The fields of Session that change while it runs. `spawned` says that `ptmx` is not nil.
pub record Session : Type 0 where
  pub buf : Buffer
  pub coal : Coalescer
  pub conn : Option ℕ
  pub send_seq : ℕ
  pub recv_seq : ℕ
  pub spawned : Bool
  pub trace : List Effect

abbrev pub new : ℤ → Session
new replay_size = record {
  buf = Catchup.new replay_size;
  coal = Coalesce.new;
  conn = none;
  send_seq = 0;
  recv_seq = 0;
  spawned = false;
  trace = [];
}

-- What a read from a connection gives.
pub data Received : Type 0 where
  message : Message → Received
  read_error : Received

-- streamEvent; which of the two streams it came from is only logged.
pub record StreamEvent : Type 0 where
  pub source : ℕ
  pub received : Received

-- An accepted connection: its number, LastClientSeq, and what its first ReadControl gives.
pub record NewConn : Type 0 where
  pub id : ℕ
  pub last_client_seq : ℕ
  pub hello : Received

abbrev pub note : Effect → Session → Session
note e s = record s { trace = e ∷ s.trace }

-- ev.conn == s.conn
abbrev pub is_current : Session → ℕ → Bool
is_current s source = elim s.conn [ none ↦ false | some c ↦ source == c ]

unfoldable pub close_conn : Session → Session
close_conn s = elim s.conn [
  | none ↦ s
  | some c ↦ record s { conn = none; trace = close_conn_effect c ∷ s.trace }
]

module _ (fate : List Effect → Bool) where
  -- A call, and whether it succeeds.
  abbrev pub perform : Effect → Session → Session × Bool
  perform e s = (note e s, fate (e ∷ s.trace))

  abbrev pub or_close : Session × Bool → Session
  or_close (s, done) = if done then s else close_conn s

  -- The entry is in the ring; now it is written, if there is a connection.
  unfoldable pub send_stored : List ℕ → Session → Session
  send_stored bytes s = elim s.conn [
    | none ↦ s
    | some c ↦ or_close (perform (write_data c (data_msg s.send_seq bytes)) s)
  ]

  -- sendSeq++ and Store
  abbrev pub keep : List ℕ → Session → Session
  keep bytes s =
      let seq = (s.send_seq + 1) % 2 ^ 64 in
      record s { send_seq = seq; buf = Catchup.store seq bytes s.buf }

  -- What Flush gave; nil ends the call.
  abbrev pub send_batch : Coalescer → Option (List ℕ) → Session → Session
  send_batch coal none s = s
  send_batch coal (some bytes) s = send_stored bytes (keep bytes (record s { coal = coal }))

  unfoldable pub flush_coalesced : Session → Session
  flush_coalesced s = let (coal, batch) = Coalesce.flush s.coal in send_batch coal batch s

  -- The branch of a Data message.
  unfoldable pub receive_data : ℕ → List ℕ → Session → Session
  receive_data seq payload s =
      if s.spawned
      then (let (s', done) = perform (write_pty payload) s in
          if done then record s' { recv_seq = seq } else s')
      else record s { recv_seq = seq }

  -- The switch on the message; true is the error that ends the session.
  unfoldable pub dispatch : Message → Session → Session × Bool
  dispatch (resize rows cols) s =
      (if s.spawned then (perform (resize_pty rows cols) s).0 else s, false)
  dispatch (data_msg seq payload) s = (receive_data seq payload s, false)
  dispatch shutdown s = (s, true)
  dispatch _ s = (s, false)

  abbrev pub handle_received : Received → Session → Session × Bool
  handle_received read_error s = (close_conn s, false)
  handle_received (message m) s = dispatch m s

  unfoldable pub handle_stream_event : StreamEvent → Session → Session × Bool
  handle_stream_event ev s =
      if is_current s ev.source then handle_received ev.received s else (s, false)

  -- The replay loop; false if a write failed.
  unfoldable pub replay : ℕ → List Entry → Session → Session × Bool
  replay c [] s = (s, true)
  replay c (e ∷ es) s =
      let (s', done) = perform (write_data c (data_msg e.seq e.payload)) s in
      let rest = replay c es s' in if done then rest else (s', false)

  -- After the replay.
  unfoldable pub start_streams : ℕ → Session × Bool → Session × Bool
  start_streams c (s, true) =
      (note (start_readers c) (note (start_demux c) (perform bounce_pty s).0), false)
  start_streams c (s, false) = (close_conn s, false)

  -- After the PTY has been spawned, or failed to; true is the fatal error.
  unfoldable pub replay_missed : NewConn → Session × Bool → Session × Bool
  replay_missed nc (s, true) =
      start_streams nc.id (replay nc.id (Catchup.replay_since nc.last_client_seq s.buf) s)
  replay_missed nc (s, false) = (close_conn s, true)

  unfoldable pub spawn : List ℕ → Session → Session × Bool
  spawn term s =
      if s.spawned
      then (s, true)
      else (let (s', done) = perform (spawn_pty (sanitize_term term)) s in
          (record s' { spawned = done }, done))

  abbrev pub take_hello : NewConn → Received → Session → Session × Bool
  take_hello nc (message (terminal_info term)) s = replay_missed nc (spawn term s)
  take_hello nc _ s = (close_conn s, false)

  -- After our SequenceHeader was written, or not.
  abbrev pub after_header : NewConn → Session × Bool → Session × Bool
  after_header nc (s, true) = take_hello nc nc.hello s
  after_header nc (s, false) = (close_conn s, false)

  unfoldable pub handle_new_conn : NewConn → Session → Session × Bool
  handle_new_conn nc s =
      let s' = record (flush_coalesced (close_conn s)) { conn = some nc.id } in
      after_header nc (perform (write_control nc.id (sequence_header s'.recv_seq)) s')

  abbrev pub say_shutdown : Option ℕ → Session → Session
  say_shutdown none s = s
  say_shutdown (some c) s = (perform (write_control c shutdown) s).0

  unfoldable pub graceful_shutdown : Session → Session
  graceful_shutdown s = let s' = flush_coalesced s in say_shutdown s'.conn s'
