-- ===== src/Session/Shell.antt =====
-- The session of internal/session/session.go has a connection only when it has a PTY.
use goet.Prelude.{ℕ, ◌≡◌, ◌⊎◌, refl, ◌∙◌, arith, inl, inr}
use goet.Prelude.{List, [], ◌∷◌, Bool, true, false, Bool-cases, Option, none, some}
use goet.Prelude.{if◌then◌else◌}
use goet.Protocol.Message.{data_msg, terminal_info, sequence_header}
use goet.Catchup
use goet.Catchup.{Entry}
use goet.Coalesce
use goet.Session.{
  Effect, write_control, write_data, Session, Received, message, read_error, StreamEvent, NewConn,
  note, close_conn, or_close, send_stored, flush_coalesced, receive_data, dispatch,
  handle_stream_event, replay, start_streams, replay_missed, spawn, take_hello, after_header,
  handle_new_conn, graceful_shutdown, say_shutdown,
}
use goet.Session.Loop.{
  Loop, Event, pty_data, pty_closed, deadline, stream, accepted, accept_failed, heartbeat_tick,
  shell_exited, cancelled, on_pty_data, on_deadline, beat_on, check_beat, step, is_heard,
}
use goet.Session.Replay.{close_conn-offline}
use goet.Session.Runs.{
  session_of, session_of-after_event, session_of-after_accept, session_of-accept_failed,
}

abbrev pub HasShell : Session → Type 0
HasShell s = (s.conn ≡ none) ⊎ (s.spawned ≡ true)

close_conn-HasShell : (s : Session) → HasShell (close_conn s)
close_conn-HasShell s = inl (close_conn-offline s)

if-HasShell : (b : Bool) (s t : Session) → HasShell s → HasShell t → HasShell (if b then s else t)
if-HasShell true s t h k = h
if-HasShell false s t h k = k

module _ (fate : List Effect → Bool) where
  or_close-HasShell : (s : Session) (done : Bool) → HasShell s → HasShell (or_close fate (s, done))
  or_close-HasShell s done h = if-HasShell done s (close_conn s) h (close_conn-HasShell s)

  send_stored-HasShell :
      (bytes : List ℕ) (s : Session) → HasShell s → HasShell (send_stored fate bytes s)
  unfolding send_stored close_conn
  send_stored-HasShell bytes s h = ground arith

  flush_coalesced-HasShell : (s : Session) → HasShell s → HasShell (flush_coalesced fate s)
  unfolding flush_coalesced send_stored close_conn
  flush_coalesced-HasShell s h = ground arith

  on_pty_data-HasShell :
      (now : ℕ) (bytes : List ℕ) (s : Session)
      → HasShell s
      → HasShell (on_pty_data fate now bytes s)
  unfolding on_pty_data
  on_pty_data-HasShell now bytes s h =
      let s' : Session = record s { coal = (Coalesce.add now bytes s.coal).0 } in
      if-HasShell (Coalesce.add now bytes s.coal).1 (flush_coalesced fate s') s'
        (flush_coalesced-HasShell s' h) h

  graceful_shutdown-HasShell : (s : Session) → HasShell s → HasShell (graceful_shutdown fate s)
  unfolding graceful_shutdown
  graceful_shutdown-HasShell s h =
      said (flush_coalesced fate s) (flush_coalesced fate s).conn (flush_coalesced-HasShell s h)
    where
      said : (t : Session) (o : Option ℕ) → HasShell t → HasShell (say_shutdown fate o t)
      said t none k = k
      said t (some c) k = k

  beat_on-HasShell :
      (now last : ℕ) (o : Option ℕ) (s : Session)
      → HasShell s
      → HasShell (beat_on fate now last o s)
  unfolding beat_on check_beat close_conn
  beat_on-HasShell now last o s h = ground arith

  handle_stream_event-HasShell :
      (ev : StreamEvent) (s : Session) → HasShell s → HasShell (handle_stream_event fate ev s).0
  unfolding handle_stream_event dispatch receive_data close_conn
  handle_stream_event-HasShell ev s h = ground arith

  replay-spawned :
      (c : ℕ) (es : List Entry) (s : Session) → (replay fate c es s).0.spawned ≡ s.spawned
  unfolding replay
  replay-spawned c [] s = refl
  replay-spawned c (e ∷ es) s =
      let call : Effect = write_data c (data_msg e.seq e.payload) in
      elim (Bool-cases (fate (call ∷ s.trace))) [
        | inl done ↦ rw done (replay-spawned c es (note call s))
        | inr failed ↦ rw failed refl
      ]

  start_streams-HasShell :
      (c : ℕ) (s : Session) (done : Bool)
      → s.spawned ≡ true
      → HasShell (start_streams fate c (s, done)).0
  unfolding start_streams
  start_streams-HasShell c s true h = inr h
  start_streams-HasShell c s false h = close_conn-HasShell s

  replay_missed-HasShell :
      (nc : NewConn) (s : Session) (done : Bool)
      → (done ≡ true → s.spawned ≡ true)
      → HasShell (replay_missed fate nc (s, done)).0
  unfolding replay_missed
  replay_missed-HasShell nc s true h =
      let entries = Catchup.replay_since nc.last_client_seq s.buf in
      let (s', done) = replay fate nc.id entries s in
      start_streams-HasShell nc.id s' done (replay-spawned nc.id entries s ∙ h refl)
  replay_missed-HasShell nc s false h = close_conn-HasShell s

  spawn_done :
      (term : List ℕ) (s : Session)
      → (spawn fate term s).1 ≡ true
      → (spawn fate term s).0.spawned ≡ true
  unfolding spawn
  spawn_done term s = ground arith

  take_hello-HasShell :
      (nc : NewConn) (r : Received) (s : Session) → HasShell (take_hello fate nc r s).0
  take_hello-HasShell nc (message (terminal_info term)) s =
      replay_missed-HasShell nc (spawn fate term s).0 (spawn fate term s).1 (spawn_done term s)
  take_hello-HasShell nc (message _) s = close_conn-HasShell s
  take_hello-HasShell nc read_error s = close_conn-HasShell s

  handle_new_conn-HasShell : (nc : NewConn) (s : Session) → HasShell (handle_new_conn fate nc s).0
  unfolding handle_new_conn
  handle_new_conn-HasShell nc s =
      let s' : Session = record (flush_coalesced fate (close_conn s)) { conn = some nc.id } in
      let call : Effect = write_control nc.id (sequence_header s'.recv_seq) in
      after (note call s') (fate (call ∷ s'.trace))
    where
      after : (t : Session) (done : Bool) → HasShell (after_header fate nc (t, done)).0
      after t true = take_hello-HasShell nc nc.hello t
      after t false = close_conn-HasShell t

  -- A session that has a connection has spawned its shell: each case of the select keeps this.
  pub step-HasShell :
      (now : ℕ) (ev : Event) (l : Loop)
      → HasShell l.session
      → HasShell (session_of (step fate now ev l))
  unfolding step on_deadline
  step-HasShell now (pty_data bytes) l h = on_pty_data-HasShell now bytes l.session h
  step-HasShell now pty_closed l h = flush_coalesced-HasShell l.session h
  step-HasShell now deadline l h =
      flush_coalesced-HasShell (record l.session { coal = Coalesce.receive l.session.coal }) h
  step-HasShell now (stream ev) l h =
      let (s', stop) = handle_stream_event fate ev l.session in
      rw
        (session_of-after_event
          (record l { last_recv = if is_heard ev l.session then now else l.last_recv }) s' stop)
        (handle_stream_event-HasShell ev l.session h)
  step-HasShell now (accepted nc) l h =
      let (s', stop) = handle_new_conn fate nc l.session in
      rw (session_of-after_accept now l s' stop) (handle_new_conn-HasShell nc l.session)
  step-HasShell now (accept_failed done) l h = rw (session_of-accept_failed l done) h
  step-HasShell now heartbeat_tick l h = beat_on-HasShell now l.last_recv l.session.conn l.session h
  step-HasShell now (shell_exited failed) l h = graceful_shutdown-HasShell l.session h
  step-HasShell now cancelled l h = graceful_shutdown-HasShell l.session h
