-- ===== src/Session/Calls.antt =====
-- What the calls of internal/session/session.go to the outside leave alone.
use goet.Prelude.{ℕ, ◌≡◌, refl, ◌∙◌, arith, inl, inr}
use goet.Prelude.{List, [], ◌∷◌, Bool, true, false}
use goet.Prelude.{Option, none, some, Bool-cases}
use goet.Protocol.Message.{Message, resize, data_msg, terminal_info, sequence_header}
use goet.Catchup
use goet.Catchup.{Buffer, Entry}
use goet.Session.{
  Effect, Session, Received, message, read_error, StreamEvent, NewConn, close_conn, send_stored,
  flush_coalesced, receive_data, dispatch, is_current, handle_received, write_data, note,
  write_control, handle_stream_event, replay, start_streams, replay_missed, spawn, take_hello,
  after_header, handle_new_conn,
}
use goet.Session.Loop.{check_beat, beat_on}

-- What no call to the outside changes.
pub record Keeps (s s' : Session) : Type 0 where
  pub buf : s'.buf ≡ s.buf
  pub coal : s'.coal ≡ s.coal
  pub send_seq : s'.send_seq ≡ s.send_seq

pub Keeps-refl : (s : Session) → Keeps s s
Keeps-refl s = record { buf = refl; coal = refl; send_seq = refl }

pub Keeps-trans : {s t u : Session} → Keeps s t → Keeps t u → Keeps s u
Keeps-trans h k = record {
  buf = k.buf ∙ h.buf;
  coal = k.coal ∙ h.coal;
  send_seq = k.send_seq ∙ h.send_seq;
}

pub note-Keeps : (e : Effect) (s : Session) → Keeps s (note e s)
note-Keeps e s = record { buf = refl; coal = refl; send_seq = refl }

pub close_conn-Keeps : (s : Session) → Keeps s (close_conn s)
unfolding close_conn
close_conn-Keeps s = ground arith

module _ (fate : List Effect → Bool) where
  pub send_stored-Keeps : (bytes : List ℕ) (s : Session) → Keeps s (send_stored fate bytes s)
  unfolding send_stored close_conn
  send_stored-Keeps bytes s = ground arith

  pub dispatch-Keeps : (m : Message) (s : Session) → Keeps s (dispatch fate m s).0
  unfolding dispatch receive_data
  dispatch-Keeps (resize rows cols) s = ground arith
  dispatch-Keeps (data_msg seq payload) s = ground arith
  dispatch-Keeps _ s = Keeps-refl s

  pub handle_received-Keeps : (r : Received) (s : Session) → Keeps s (handle_received fate r s).0
  handle_received-Keeps (message m) s = dispatch-Keeps m s
  handle_received-Keeps read_error s = close_conn-Keeps s

  pub handle_stream_event-Keeps :
      (ev : StreamEvent) (s : Session) → Keeps s (handle_stream_event fate ev s).0
  unfolding handle_stream_event
  handle_stream_event-Keeps ev s = elim (Bool-cases (is_current s ev.source)) [
    | inl current ↦ rw current (handle_received-Keeps ev.received s)
    | inr stale ↦ rw stale (Keeps-refl s)
  ]

  pub replay-Keeps : (c : ℕ) (es : List Entry) (s : Session) → Keeps s (replay fate c es s).0
  unfolding replay
  replay-Keeps c [] s = Keeps-refl s
  replay-Keeps c (e ∷ es) s =
      let call : Effect = write_data c (data_msg e.seq e.payload) in
      let rest = replay-Keeps c es (note call s) in
      elim (Bool-cases (fate (call ∷ s.trace))) [
        | inl done ↦ rw done (Keeps-trans (note-Keeps call s) rest)
        | inr failed ↦ rw failed (note-Keeps call s)
      ]

  pub start_streams-Keeps :
      (c : ℕ) (s : Session) (done : Bool) → Keeps s (start_streams fate c (s, done)).0
  unfolding start_streams
  start_streams-Keeps c s true = record { buf = refl; coal = refl; send_seq = refl }
  start_streams-Keeps c s false = close_conn-Keeps s

  pub replay_missed-Keeps :
      (nc : NewConn) (s : Session) (done : Bool) → Keeps s (replay_missed fate nc (s, done)).0
  unfolding replay_missed
  replay_missed-Keeps nc s true =
      let (s', done) = replay fate nc.id (Catchup.replay_since nc.last_client_seq s.buf) s in
      Keeps-trans (replay-Keeps nc.id (Catchup.replay_since nc.last_client_seq s.buf) s)
        (start_streams-Keeps nc.id s' done)
  replay_missed-Keeps nc s false = close_conn-Keeps s

  pub spawn-Keeps : (term : List ℕ) (s : Session) → Keeps s (spawn fate term s).0
  unfolding spawn
  spawn-Keeps term s = ground arith

  pub take_hello-Keeps :
      (nc : NewConn) (r : Received) (s : Session) → Keeps s (take_hello fate nc r s).0
  take_hello-Keeps nc (message (terminal_info term)) s =
      let (s', done) = spawn fate term s in
      Keeps-trans (spawn-Keeps term s) (replay_missed-Keeps nc s' done)
  take_hello-Keeps nc (message _) s = close_conn-Keeps s
  take_hello-Keeps nc read_error s = close_conn-Keeps s

  pub after_header-Keeps :
      (nc : NewConn) (s : Session) (done : Bool) → Keeps s (after_header fate nc (s, done)).0
  after_header-Keeps nc s true = take_hello-Keeps nc nc.hello s
  after_header-Keeps nc s false = close_conn-Keeps s

  -- But for the flush, a new connection leaves the history alone.
  pub handle_new_conn-Keeps :
      (nc : NewConn) (s : Session)
      → Keeps (flush_coalesced fate (close_conn s)) (handle_new_conn fate nc s).0
  unfolding handle_new_conn
  handle_new_conn-Keeps nc s =
      let f = flush_coalesced fate (close_conn s) in
      let s' : Session = record f { conn = some nc.id } in
      let call : Effect = write_control nc.id (sequence_header s'.recv_seq) in
      let begun : Keeps f (note call s') = record { buf = refl; coal = refl; send_seq = refl } in
      Keeps-trans begun (after_header-Keeps nc (note call s') (fate (call ∷ s'.trace)))

  pub beat_on-Keeps :
      (now last : ℕ) (c : Option ℕ) (s : Session) → Keeps s (beat_on fate now last c s)
  unfolding beat_on check_beat close_conn
  beat_on-Keeps now last none s = Keeps-refl s
  beat_on-Keeps now last (some c) s = ground arith
