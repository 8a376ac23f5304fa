-- ===== src/Session/Loop.antt =====
-- Run of internal/session/session.go: its select loop as a step for each case, and what is done
-- after it.
use goet.Prelude.{ℕ, ◌-◌, ◌*◌, List, Bool, true, false, not, ◌&&◌}
use goet.Prelude.{Option, none, some, ltb, if◌then◌else◌}
use goet.Protocol.Message.{heartbeat, pos}
use goet.Coalesce
use goet.Session.{
  Effect, write_control, Session, Received, message, read_error, StreamEvent, NewConn, close_conn,
  perform, flush_coalesced, is_current, handle_stream_event, handle_new_conn, graceful_shutdown,
}

abbrev pub recv_timeout : ℕ
recv_timeout = 30 * 1000

-- The variables of Run. `data_on` says that `ptyDataCh` is not nil, `shell_on` that `shellDone` is not.
pub record Loop : Type 0 where
  pub session : Session
  pub data_on : Bool
  pub shell_on : Bool
  pub last_recv : ℕ

abbrev pub start : ℕ → Session → Loop
start now s = record { session = s; data_on = false; shell_on = false; last_recv = now }

-- The cases of the select.
pub data Event : Type 0 where
  pty_data : List ℕ → Event
  pty_closed : Event
  deadline : Event
  stream : StreamEvent → Event
  accepted : NewConn → Event
  accept_failed : Bool → Event
  heartbeat_tick : Event
  shell_exited : Bool → Event
  cancelled : Event

-- Why Run returns.
pub data Reason : Type 0 where
  clean_shutdown client_shutdown spawn_failed shell_failed context_done : Reason

pub data Outcome : Type 0 where
  running : Loop → Outcome
  exited : Reason → Session → Outcome

abbrev pub with_session : Session → Loop → Loop
with_session s l = record l { session = s }

-- The cases that wait for a channel which is nil, or a timer that has not fired, are not ready.
unfoldable pub is_ready : ℕ → Event → Loop → Bool
is_ready now (pty_data bytes) l = l.data_on
is_ready now pty_closed l = l.data_on
is_ready now deadline l = Coalesce.fires now l.session.coal
is_ready now (shell_exited failed) l = l.shell_on
is_ready now _ l = true

abbrev is_message : Received → Bool
is_message (message m) = true
is_message read_error = false

abbrev pub is_heard : StreamEvent → Session → Bool
is_heard ev s = is_current s ev.source && is_message ev.received

-- After a heartbeat was written, or not.
unfoldable pub check_beat : ℕ → ℕ → Session × Bool → Session
check_beat now last_recv (s, false) = close_conn s
check_beat now last_recv (s, true) = if ltb recv_timeout (now - last_recv) then close_conn s else s

-- The shell's channels, if there are any, replace a nil `ptyDataCh`: also one that was set to nil
-- because the channel is closed, which is then found closed again.
abbrev pub attach : ℕ → Session → Loop → Loop
attach now s l =
    if s.spawned && not l.data_on
    then record { session = s; data_on = true; shell_on = true; last_recv = now }
    else record l { session = s; last_recv = now }

abbrev pub after_event : Loop → Session × Bool → Outcome
after_event l (s, false) = running (with_session s l)
after_event l (s, true) = exited client_shutdown s

abbrev pub after_accept : ℕ → Loop → Session × Bool → Outcome
after_accept now l (s, false) = running (attach now s l)
after_accept now l (s, true) = exited spawn_failed s

module _ (fate : List Effect → Bool) where
  unfoldable pub on_pty_data : ℕ → List ℕ → Session → Session
  on_pty_data now bytes s =
      let (coal, full) = Coalesce.add now bytes s.coal in
      let s' = record s { coal = coal } in if full then flush_coalesced fate s' else s'

  unfoldable pub on_deadline : Session → Session
  on_deadline s = flush_coalesced fate (record s { coal = Coalesce.receive s.coal })

  unfoldable pub beat_on : ℕ → ℕ → Option ℕ → Session → Session
  beat_on now last_recv none s = s
  beat_on now last_recv (some c) s =
      check_beat now last_recv (perform fate (write_control c (heartbeat (pos now))) s)

  abbrev pub beat : ℕ → ℕ → Session → Session
  beat now last_recv s = beat_on now last_recv s.conn s

  unfoldable pub step : ℕ → Event → Loop → Outcome
  step now (pty_data bytes) l = running (with_session (on_pty_data now bytes l.session) l)
  step now pty_closed l =
      running (record l { session = flush_coalesced fate l.session; data_on = false })
  step now deadline l = running (with_session (on_deadline l.session) l)
  step now (stream ev) l =
      after_event (record l { last_recv = if is_heard ev l.session then now else l.last_recv })
        (handle_stream_event fate ev l.session)
  step now (accepted nc) l = after_accept now l (handle_new_conn fate nc l.session)
  step now (accept_failed done) l = if done then exited context_done l.session else running l
  step now heartbeat_tick l = running (with_session (beat now l.last_recv l.session) l)
  step now (shell_exited failed) l =
      exited (if failed then shell_failed else clean_shutdown) (graceful_shutdown fate l.session)
  step now cancelled l = exited context_done (graceful_shutdown fate l.session)
