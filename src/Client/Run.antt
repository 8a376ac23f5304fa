-- ===== src/Client/Run.antt =====
-- Run of internal/client/client.go: connect, relay, and connect again.
use goet.Prelude.{ℕ, List, Bool, true, false, Option, if◌then◌else◌}
use goet.Protocol.Message.{shutdown}
use goet.Session.{Received}
use goet.Client.{
  Effect, dial, write_control, close_conn, start_demux, make_raw, restore, Client, note, perform,
  handle_sequence_exchange, send_terminal_info, send_resize,
}
use goet.Client.Escape.{initial}
use goet.Client.Relay.{
  ExitReason, exit_network, exit_escape, exit_shutdown, exit_stdin_eof, exit_cancelled, Relay,
  start,
}

-- What the environment gives to one round before ioLoop: the first message on the control stream, $TERM,
-- and the size of the terminal.
pub record Greeting : Type 0 where
  pub header : Received
  pub term : List ℕ
  pub size : Option (ℕ × ℕ)

-- Why Run returns.
pub data Stop : Type 0 where
  clean context_done raw_failed : Stop

-- After `retrying` the loop waits for the reconnect delay, or returns if the context is done.
pub data Phase : Type 0 where
  retrying : Client → Phase
  connected : Relay → Phase
  returned : Stop → Client → Phase

abbrev pub hang_up : Client → Phase
hang_up c = retrying (note close_conn c)

-- From the raw mode to ioLoop.
abbrev pub enter : ℕ → Greeting → Client → Phase
enter now g c =
    connected (start now (note start_demux (record (send_resize g.size c) { escape = initial })))

module _ (fate : List Effect → Bool) where
  abbrev pub after_raw : ℕ → Greeting → Client × Bool → Phase
  after_raw now g (c, true) = enter now g c
  after_raw now g (c, false) = returned raw_failed (note close_conn c)

  abbrev pub after_terminal_info : ℕ → Greeting → Client × Bool → Phase
  after_terminal_info now g (c, true) =
      if c.is_tty then after_raw now g (perform fate make_raw c) else enter now g c
  after_terminal_info now g (c, false) = hang_up c

  abbrev pub after_exchange : ℕ → Greeting → Client × Bool → Phase
  after_exchange now g (c, true) = after_terminal_info now g (send_terminal_info fate g.term c)
  after_exchange now g (c, false) = hang_up c

  -- After the dial; `done` says that the context is done.
  abbrev pub after_dial : ℕ → Bool → Greeting → Client × Bool → Phase
  after_dial now done g (c, true) =
      after_exchange now g (handle_sequence_exchange fate g.header (record c { is_known = true }))
  after_dial now done g (c, false) = if done then returned context_done c else retrying c

  unfoldable pub connect : ℕ → Bool → Greeting → Client → Phase
  connect now done g c = after_dial now done g (perform fate (dial c.recv_seq) c)

-- restoreTerminal, after the raw mode was entered
abbrev pub restore_terminal : Client → Client
restore_terminal c = if c.is_tty then note restore c else c

-- The Shutdown is sent without a look at the result.
abbrev pub say_goodbye : Client → Client
say_goodbye c = note close_conn (note (write_control shutdown) c)

unfoldable pub finish : ExitReason → Client → Phase
finish exit_network c = hang_up (restore_terminal c)
finish exit_shutdown c = returned clean (note close_conn (restore_terminal c))
finish exit_cancelled c = returned context_done (say_goodbye (restore_terminal c))
finish exit_escape c = returned clean (say_goodbye (restore_terminal c))
finish exit_stdin_eof c = returned clean (say_goodbye (restore_terminal c))

-- The wait for the reconnect delay: it passes, or the context is done.
unfoldable pub wait : Bool → Client → Phase
wait done c = if done then returned context_done c else retrying c
