-- ===== src/Session/Open/Steps.antt =====
-- The cases of the select loop of internal/session/session.go use no connection that has been closed.
use goet.Prelude.{ℕ, ◌≡◌, refl, List, ◌∷◌, Bool, true, false}
use goet.Prelude.{Option, none, some, if◌then◌else◌, ltb, ◌-◌}
use goet.Protocol.Message.{shutdown}
use goet.Session.Loop
use goet.Session.Loop.{
  Loop, Event, pty_data, pty_closed, deadline, stream, accepted, accept_failed, heartbeat_tick,
  shell_exited, cancelled, on_pty_data, on_deadline, beat_on, check_beat, step, is_heard, exited,
  running, context_done,
}
use goet.Session.Runs.{
  session_of, session_of-after_event, session_of-after_accept, session_of-accept_failed,
}
use goet.Protocol.Message.{heartbeat, shutdown, pos}
use goet.Coalesce
use goet.Session.{
  Effect, write_control, Session, note, close_conn, flush_coalesced, handle_stream_event,
  handle_new_conn, graceful_shutdown, say_shutdown,
}
use goet.Session.Open.{
  is_closed, IsOpen, IsLive, if_either, note-IsLive, close_conn-IsLive, flush_coalesced-IsLive,
  handle_new_conn-IsLive, handle_stream_event-IsLive,
}

module _ (fate : List Effect → Bool) where
  -- The batch is no part of it.
  with_coal :
      (coal : Coalesce.Coalescer) (s : Session) → IsLive s → IsLive (record s { coal = coal })
  with_coal coal s h = record { clean = h.clean; current = h.current }

  on_pty_data-IsLive :
      (now : ℕ) (bytes : List ℕ) (s : Session) → IsLive s → IsLive (on_pty_data fate now bytes s)
  unfolding on_pty_data
  on_pty_data-IsLive now bytes s h =
      let (coal, full) = Coalesce.add now bytes s.coal in
      let added = with_coal coal s h in
      if_either IsLive full _ _ (flush_coalesced-IsLive fate (record s { coal = coal }) added) added

  say_shutdown-IsLive :
      (o : Option ℕ) (s : Session) → IsLive s → IsOpen o s.trace → IsLive (say_shutdown fate o s)
  say_shutdown-IsLive none s h usable = h
  say_shutdown-IsLive (some c) s h usable =
      note-IsLive (write_control c shutdown) s h usable (λ d. refl)

  graceful_shutdown-IsLive : (s : Session) → IsLive s → IsLive (graceful_shutdown fate s)
  unfolding graceful_shutdown
  graceful_shutdown-IsLive s h =
      let f = flush_coalesced-IsLive fate s h in
      say_shutdown-IsLive (flush_coalesced fate s).conn (flush_coalesced fate s) f f.current

  check_beat-IsLive :
      (now last : ℕ) (s : Session) (done : Bool) → IsLive s → IsLive (check_beat now last (s, done))
  unfolding check_beat
  check_beat-IsLive now last s false h = close_conn-IsLive s h
  check_beat-IsLive now last s true h =
      if_either IsLive (ltb Loop.recv_timeout (now - last)) _ s (close_conn-IsLive s h) h

  beat_on-IsLive :
      (now last : ℕ) (o : Option ℕ) (s : Session)
      → IsLive s
      → IsOpen o s.trace
      → IsLive (beat_on fate now last o s)
  unfolding beat_on
  beat_on-IsLive now last none s h usable = h
  beat_on-IsLive now last (some c) s h usable =
      let call : Effect = write_control c (heartbeat (pos now)) in
      check_beat-IsLive now last (note call s) (fate (call ∷ s.trace))
        (note-IsLive call s h usable (λ d. refl))

  -- A connection that is accepted is none of those that were closed, nor the current one.
  abbrev pub IsFresh : Event → Session → Type 0
  IsFresh (accepted nc) s = is_closed nc.id (close_conn s).trace ≡ false
  IsFresh _ s = Unit

  -- Each case of the select writes to, starts and closes only a connection that has not been closed, if an
  -- accepted connection is none of those.
  pub step-IsLive :
      (now : ℕ) (ev : Event) (l : Loop)
      → IsLive l.session
      → IsFresh ev l.session
      → IsLive (session_of (step fate now ev l))
  unfolding step on_deadline
  step-IsLive now (pty_data bytes) l h fresh = on_pty_data-IsLive now bytes l.session h
  step-IsLive now pty_closed l h fresh = flush_coalesced-IsLive fate l.session h
  step-IsLive now deadline l h fresh =
      flush_coalesced-IsLive fate _ (with_coal (Coalesce.receive l.session.coal) l.session h)
  step-IsLive now (stream ev) l h fresh =
      let (s', stop) = handle_stream_event fate ev l.session in
      rw
        (session_of-after_event
          (record l { last_recv = if is_heard ev l.session then now else l.last_recv }) s' stop)
        (handle_stream_event-IsLive fate ev l.session h)
  step-IsLive now (accepted nc) l h fresh =
      let (s', stop) = handle_new_conn fate nc l.session in
      rw (session_of-after_accept now l s' stop) (handle_new_conn-IsLive fate nc l.session h fresh)
  step-IsLive now (accept_failed done) l h fresh = rw (session_of-accept_failed l done) h
  step-IsLive now heartbeat_tick l h fresh =
      beat_on-IsLive now l.last_recv l.session.conn l.session h h.current
  step-IsLive now (shell_exited failed) l h fresh = graceful_shutdown-IsLive l.session h
  step-IsLive now cancelled l h fresh = graceful_shutdown-IsLive l.session h
