-- ===== src/Client/Sent.antt =====
-- What the client of internal/client/client.go sends on one connection of what is typed.
pub mod Steps
pub mod Connect
use goet.Prelude.{ℕ, ◌+◌, ◌%◌, ◌^◌, ◌<◌, ◌≤◌, ◌≡◌, ◌⊎◌, refl, sym, ap, subst, ◌∙◌, arith, inl, inr}
use goet.Prelude.{
  List, [], ◌∷◌, ◌++◌, map, append-nil, append_assoc, length, length-append, take, drop, Bool, true,
  false,
}
use goet.Prelude.{Option, none, some, if◌then◌else◌, Bool-cases, ltb, tests}
use goet.Protocol.Message.{Message, shutdown, data_msg, heartbeat, pos}
use goet.Catchup
use goet.Catchup.{Buffer, Entry}
use goet.Coalesce
use goet.Coalesce.{Coalescer}
use goet.Coalesce.Batch.{add_asks}
use goet.Session.{Received, message, read_error}
use goet.Session.History.{Tracks, grow-Tracks, store-Tracks, flush_cases}
use goet.Session.Replay.{data_of}
use goet.Session.Stream.{map-append, drop-append_low}
use goet.Client.{
  Effect, dial, write_data, Client, note, send_batch, flush_stdin_coalesced, send_resize,
  write_stdout, write_control,
}
use goet.Client.Escape.{State, Action, send, disconnect, Output, process}
use goet.Client.Relay.{
  Relay, ExitReason, exit_network, exit_escape, exit_shutdown, exit_stdin_eof, exit_cancelled,
  drain_remaining_data, drain_for_shutdown, Event, stdin_data, stdin_closed, deadline,
  control_result, data_result, window_change, heartbeat_tick, cancelled, Outcome, relaying, left,
  crashed, after_flush, add_stdin, after_escape, on_stdin, on_control, on_data, step, is_stale,
}
use goet.Client.History.{passed, typed, resized, drain-Tracks}

-- The data messages that were sent since the last dial, oldest first; the last of them may have failed.
abbrev pub data_sent : List Effect → List Message
data_sent [] = []
data_sent (dial seq ∷ es) = []
data_sent (write_data m ∷ es) = data_sent es ++ (m ∷ [])
data_sent (_ ∷ es) = data_sent es

-- The connection has been sent all of the history after the first `base` payloads; a batch waits.
pub record Sends (base : ℕ) (input : List ℕ) (history : List Entry) (c : Client) (batch : List ℕ)
    : Type 0 where
  pub tracks : Tracks input history c.buf c.send_seq batch
  pub low : base ≤ length history
  pub all_sent : data_sent c.trace ≡ map data_of (drop base history)

abbrev pub SendsRelay : ℕ → List ℕ → List Entry → Relay → Type 0
SendsRelay base input history r = Sends base input history r.client r.coal.buf

pub send_resize_quiet :
    (size : Option (ℕ × ℕ)) (c : Client) → data_sent (send_resize size c).trace ≡ data_sent c.trace
unfolding send_resize
send_resize_quiet none c = elim (Bool-cases c.is_tty) [
  | inl tty ↦ rw tty refl
  | inr pipe ↦ rw pipe refl
]
send_resize_quiet (some (rows, cols)) c = elim (Bool-cases c.is_tty) [
  | inl tty ↦ rw tty refl
  | inr pipe ↦ rw pipe refl
]
