-- ===== src/Session/Open.antt =====
-- The handlers of internal/session/session.go use no connection that has been closed.
pub mod Steps
use goet.Prelude.{
  ℕ, ◌≡◌, refl, sym, ap, subst, ◌∙◌, arith, inl, inr, ◌⊎◌, List, [], ◌∷◌, Bool, true, false, ◌||◌,
  Bool-cases,
}
use goet.Prelude.{Option, none, some, if◌then◌else◌, ◌==◌, ltb, ◌-◌}
use goet.Protocol.Message.{Message, resize, shutdown, data_msg, terminal_info, sequence_header}
use goet.Session.Pty.{sanitize_term}
use goet.Session.Replay.{close_conn-offline, flush-offline}
use goet.Session.Loop
use goet.Session.Loop.{
  Loop, Event, pty_data, pty_closed, deadline, stream, accepted, accept_failed, heartbeat_tick,
  shell_exited, cancelled, on_pty_data, on_deadline, beat_on, check_beat, step, is_heard, exited,
  running, context_done,
}
use goet.Session.Runs.{
  session_of, session_of-after_event, session_of-after_accept, session_of-accept_failed,
}
use goet.Protocol.Message.{heartbeat, shutdown, pos}
use goet.Catchup
use goet.Catchup.{Entry}
use goet.Coalesce
use goet.Session.{
  Effect, write_control, write_data, close_conn_effect, start_demux, start_readers, spawn_pty,
  write_pty, resize_pty, bounce_pty, Session, Received, message, read_error, StreamEvent, NewConn,
  note, close_conn, perform, or_close, send_stored, keep, send_batch, flush_coalesced, receive_data,
  dispatch, handle_received, is_current, handle_stream_event, replay, start_streams, replay_missed,
  spawn, take_hello, after_header, handle_new_conn, graceful_shutdown, say_shutdown,
}

abbrev pub is_closed : ℕ → List Effect → Bool
is_closed c [] = false
is_closed c (close_conn_effect d ∷ es) = (c == d) || is_closed c es
is_closed c (_ ∷ es) = is_closed c es

-- An effect on a connection finds it open.
abbrev pub IsAllowed : Effect → List Effect → Type 0
IsAllowed (write_control c m) es = is_closed c es ≡ false
IsAllowed (write_data c m) es = is_closed c es ≡ false
IsAllowed (start_demux c) es = is_closed c es ≡ false
IsAllowed (start_readers c) es = is_closed c es ≡ false
IsAllowed (close_conn_effect c) es = is_closed c es ≡ false
IsAllowed _ es = Unit

abbrev pub IsClean : List Effect → Type 0
IsClean [] = Unit
IsClean (e ∷ es) = IsAllowed e es × IsClean es

abbrev IsOpen : Option ℕ → List Effect → Type 0
IsOpen none es = Unit
IsOpen (some c) es = is_closed c es ≡ false

pub record IsLive (s : Session) : Type 0 where
  pub clean : IsClean s.trace
  pub current : IsOpen s.conn s.trace

if_either : (P : Session → Type 0) (b : Bool) (x y : Session) → P x → P y → P (if b then x else y)
if_either P true x y h k = h
if_either P false x y h k = k

if_first :
    (P : Session → Type 0) (b : Bool) (x y : Session × Bool)
    → P x.0
    → P y.0
    → P (if b then x else y).0
if_first P true x y h k = h
if_first P false x y h k = k

open_of : (s : Session) (c : ℕ) → IsLive s → s.conn ≡ some c → is_closed c s.trace ≡ false
open_of s c h on = subst (λ o. IsOpen o s.trace) on h.current

IsOpen-note :
    (e : Effect) (es : List Effect) (o : Option ℕ)
    → ((c : ℕ) → is_closed c (e ∷ es) ≡ is_closed c es)
    → IsOpen o es
    → IsOpen o (e ∷ es)
IsOpen-note e es none quiet h = tt
IsOpen-note e es (some c) quiet h = quiet c ∙ h

-- A call that closes nothing.
note-IsLive :
    (e : Effect) (s : Session)
    → IsLive s
    → IsAllowed e s.trace
    → ((c : ℕ) → is_closed c (e ∷ s.trace) ≡ is_closed c s.trace)
    → IsLive (note e s)
note-IsLive e s h allowed quiet = record {
  clean = (allowed, h.clean);
  current = IsOpen-note e s.trace s.conn quiet h.current;
}

close_at-IsLive :
    (o : Option ℕ) (s : Session)
    → IsLive s
    → IsOpen o s.trace
    → IsLive (elim o [
      | none ↦ s
      | some c ↦ record s { conn = none; trace = close_conn_effect c ∷ s.trace }
    ])
close_at-IsLive none s h usable = h
close_at-IsLive (some c) s h usable = record { clean = (usable, h.clean); current = tt }

close_conn-IsLive : (s : Session) → IsLive s → IsLive (close_conn s)
unfolding close_conn
close_conn-IsLive s h = close_at-IsLive s.conn s h h.current

module _ (fate : List Effect → Bool) where
  or_close-IsLive : (s : Session) (done : Bool) → IsLive s → IsLive (or_close fate (s, done))
  or_close-IsLive s true h = h
  or_close-IsLive s false h = close_conn-IsLive s h

  store_at-IsLive :
      (o : Option ℕ) (bytes : List ℕ) (s : Session)
      → IsLive s
      → IsOpen o s.trace
      → IsLive (elim o [
        | none ↦ s
        | some c ↦ or_close fate (perform fate (write_data c (data_msg s.send_seq bytes)) s)
      ])
  store_at-IsLive none bytes s h usable = h
  store_at-IsLive (some c) bytes s h usable =
      let call : Effect = write_data c (data_msg s.send_seq bytes) in
      or_close-IsLive (note call s) (fate (call ∷ s.trace))
        (note-IsLive call s h usable (λ d. refl))

  send_batch-IsLive :
      (coal : Coalesce.Coalescer) (batch : Option (List ℕ)) (s : Session)
      → IsLive s
      → IsLive (send_batch fate coal batch s)
  unfolding send_stored
  send_batch-IsLive coal none s h = h
  send_batch-IsLive coal (some bytes) s h =
      store_at-IsLive s.conn bytes (keep fate bytes (record s { coal = coal }))
        (record { clean = h.clean; current = h.current }) h.current

  flush_coalesced-IsLive : (s : Session) → IsLive s → IsLive (flush_coalesced fate s)
  unfolding flush_coalesced
  flush_coalesced-IsLive s h =
      let (coal, batch) = Coalesce.flush s.coal in send_batch-IsLive coal batch s h

  replay-IsLive :
      (c : ℕ) (es : List Entry) (s : Session)
      → IsLive s
      → s.conn ≡ some c
      → IsLive (replay fate c es s).0 × ((replay fate c es s).0.conn ≡ some c)
  unfolding replay
  replay-IsLive c [] s h on = (h, on)
  replay-IsLive c (e ∷ es) s h on =
      let call : Effect = write_data c (data_msg e.seq e.payload) in
      let here : IsLive (note call s) = note-IsLive call s h (open_of s c h on) (λ d. refl) in
      elim (Bool-cases (fate (call ∷ s.trace))) [
        | inl done ↦ rw done (replay-IsLive c es (note call s) here on)
        | inr failed ↦ rw failed (here, on)
      ]

  start_streams-IsLive :
      (c : ℕ) (s : Session) (done : Bool)
      → IsLive s
      → s.conn ≡ some c
      → IsLive (start_streams fate c (s, done)).0
  unfolding start_streams
  start_streams-IsLive c s true h on =
      let usable = open_of s c h on in
      let s' = note bounce_pty s in
      let bounced = note-IsLive bounce_pty s h tt (λ d. refl) in
      let demuxed = note-IsLive (start_demux c) s' bounced usable (λ d. refl) in
      note-IsLive (start_readers c) (note (start_demux c) s') demuxed usable (λ d. refl)
  start_streams-IsLive c s false h on = close_conn-IsLive s h

  replay_missed-IsLive :
      (nc : NewConn) (s : Session) (done : Bool)
      → IsLive s
      → s.conn ≡ some nc.id
      → IsLive (replay_missed fate nc (s, done)).0
  unfolding replay_missed
  replay_missed-IsLive nc s true h on =
      let entries = Catchup.replay_since nc.last_client_seq s.buf in
      let (s', done) = replay fate nc.id entries s in
      let (h', on') = replay-IsLive nc.id entries s h on in
      start_streams-IsLive nc.id s' done h' on'
  replay_missed-IsLive nc s false h on = close_conn-IsLive s h

  spawn-IsLive :
      (term : List ℕ) (s : Session)
      → IsLive s
      → IsLive (spawn fate term s).0 × ((spawn fate term s).0.conn ≡ s.conn)
  unfolding spawn
  spawn-IsLive term s h =
      let call : Effect = spawn_pty (sanitize_term term) in
      let h' = note-IsLive call s h tt (λ d. refl) in
      if_first (λ t. IsLive t × (t.conn ≡ s.conn)) s.spawned (s, true) _ (h, refl)
        (record { clean = h'.clean; current = h'.current }, refl)

  take_hello-IsLive :
      (nc : NewConn) (r : Received) (s : Session)
      → IsLive s
      → s.conn ≡ some nc.id
      → IsLive (take_hello fate nc r s).0
  take_hello-IsLive nc (message (terminal_info term)) s h on =
      let (s', done) = spawn fate term s in
      let (h', same) = spawn-IsLive term s h in replay_missed-IsLive nc s' done h' (same ∙ on)
  take_hello-IsLive nc (message _) s h on = close_conn-IsLive s h
  take_hello-IsLive nc read_error s h on = close_conn-IsLive s h

  after_header-IsLive :
      (nc : NewConn) (s : Session) (done : Bool)
      → IsLive s
      → s.conn ≡ some nc.id
      → IsLive (after_header fate nc (s, done)).0
  after_header-IsLive nc s true h on = take_hello-IsLive nc nc.hello s h on
  after_header-IsLive nc s false h on = close_conn-IsLive s h

  handle_new_conn-IsLive :
      (nc : NewConn) (s : Session)
      → IsLive s
      → is_closed nc.id (close_conn s).trace ≡ false
      → IsLive (handle_new_conn fate nc s).0
  unfolding handle_new_conn
  handle_new_conn-IsLive nc s h new =
      let f = flush_coalesced fate (close_conn s) in
      let flushed = flush_coalesced-IsLive (close_conn s) (close_conn-IsLive s h) in
      let fresh =
        ap (is_closed nc.id) (flush-offline fate (close_conn s) (close_conn-offline s)) ∙ new in
      let s' : Session = record f { conn = some nc.id } in
      let begun : IsLive s' = record { clean = flushed.clean; current = fresh } in
      let call : Effect = write_control nc.id (sequence_header s'.recv_seq) in
      after_header-IsLive nc (note call s') (fate (call ∷ s'.trace))
        (note-IsLive call s' begun fresh (λ d. refl)) refl

  dispatch-IsLive : (m : Message) (s : Session) → IsLive s → IsLive (dispatch fate m s).0
  unfolding dispatch receive_data
  dispatch-IsLive (resize rows cols) s h =
      if_either IsLive s.spawned _ s (note-IsLive (resize_pty rows cols) s h tt (λ d. refl)) h
  dispatch-IsLive (data_msg seq payload) s h =
      let call : Effect = write_pty payload in
      let h' = note-IsLive call s h tt (λ d. refl) in
      if_either IsLive s.spawned _ _
        (if_either IsLive (fate (call ∷ s.trace)) _ (note call s)
          (record { clean = h'.clean; current = h'.current }) h')
        (record { clean = h.clean; current = h.current })
  dispatch-IsLive _ s h = h

  handle_received-IsLive :
      (r : Received) (s : Session) → IsLive s → IsLive (handle_received fate r s).0
  handle_received-IsLive (message m) s h = dispatch-IsLive m s h
  handle_received-IsLive read_error s h = close_conn-IsLive s h

  handle_stream_event-IsLive :
      (ev : StreamEvent) (s : Session) → IsLive s → IsLive (handle_stream_event fate ev s).0
  unfolding handle_stream_event
  handle_stream_event-IsLive ev s h =
      if_first IsLive (is_current s ev.source) _ (s, false) (handle_received-IsLive ev.received s h)
        h
