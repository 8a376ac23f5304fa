-- ===== src/Client/Relay.antt =====
-- ioLoop of internal/client/client.go: a step for each case of its select.
use goet.Prelude.{ℕ, ◌+◌, ◌-◌, ◌*◌, List, [], ◌∷◌, Bool, true, false, Option, none, some}
use goet.Prelude.{ltb, if◌then◌else◌, take, replicate}
use goet.Protocol.Message.{heartbeat, shutdown, data_msg, pos}
use goet.Coalesce
use goet.Coalesce.{Coalescer}
use goet.Session.{Received, message, read_error}
use goet.Client.{
  Effect, write_control, write_stdout, Client, perform, flush_stdin_coalesced, send_resize,
}
use goet.Client.Escape.{State, Action, send, disconnect, Output, process}

abbrev pub stdin_buf_size : ℕ
stdin_buf_size = 32 * 1024

abbrev pub recv_timeout : ℕ
recv_timeout = 15 * 1000

pub data ExitReason : Type 0 where
  exit_network exit_escape exit_shutdown exit_stdin_eof exit_cancelled : ExitReason

-- The variables of ioLoop, with the client.
pub record Relay : Type 0 where
  pub client : Client
  pub coal : Coalescer
  pub escape_buf : List ℕ
  pub last_recv : ℕ

unfoldable pub start : ℕ → Client → Relay
start now c = record {
  client = c;
  coal = Coalesce.new;
  escape_buf = replicate (stdin_buf_size + 2) 0;
  last_recv = now;
}

-- The cases of the select. `control_result` has what the data channel gives in the 100 ms after a
-- Shutdown, and `data_result` what the control channel gives in the 100 ms after an error.
pub data Event : Type 0 where
  stdin_data : List ℕ → Event
  stdin_closed : Event
  deadline : Event
  control_result : Received → List Received → Event
  data_result : Received → Option Received → Event
  window_change : Option (ℕ × ℕ) → Event
  heartbeat_tick : Event
  cancelled : Event

-- `crashed` is the panic of an index out of range.
pub data Outcome : Type 0 where
  relaying : Relay → Outcome
  left : ExitReason → Client → Outcome
  crashed : Outcome

-- Only the deadline waits for a timer that may not have fired.
unfoldable pub is_ready : ℕ → Event → Relay → Bool
is_ready now deadline r = Coalesce.fires now r.coal
is_ready now _ r = true

abbrev pub is_stale : ℕ → Relay → Bool
is_stale now r = ltb recv_timeout (now - r.last_recv)

abbrev pub is_shutdown : Option Received → Bool
is_shutdown (some (message shutdown)) = true
is_shutdown _ = false

-- drainForShutdown
abbrev pub drain_for_shutdown : Option Received → ExitReason
drain_for_shutdown r = if is_shutdown r then exit_shutdown else exit_network

module _ (fate : List Effect → Bool) where
  -- drainRemainingData, over what the channel gives before the timeout.
  unfoldable pub drain_remaining_data : List Received → Client → Client
  drain_remaining_data [] c = c
  drain_remaining_data (read_error ∷ rs) c = c
  drain_remaining_data (message (data_msg seq payload) ∷ rs) c =
      let (c', done) = perform fate (write_stdout payload) c in
      let rest = drain_remaining_data rs (record c' { recv_seq = seq }) in if done then rest else c'
  drain_remaining_data (message _ ∷ rs) c = drain_remaining_data rs c

  -- After a flush: an error ends the loop.
  abbrev pub after_flush : Relay → Coalescer × Client × Bool → Outcome
  after_flush r (coal, c, done) =
      if done then relaying (record r { client = c; coal = coal }) else left exit_network c

  -- The bytes that the escape machine let through.
  unfoldable pub add_stdin : ℕ → List ℕ → Relay → Outcome
  add_stdin now bytes r =
      let (coal, full) = Coalesce.add now bytes r.coal in
      if full
      then after_flush r (flush_stdin_coalesced fate coal r.client)
      else relaying (record r { coal = coal })

  abbrev pub after_escape : ℕ → Relay → Option (State × Output × Action) → Outcome
  after_escape now r none = crashed
  after_escape now r (some (s, o, disconnect)) = left exit_escape (record r.client { escape = s })
  after_escape now r (some (s, o, send)) =
      let r' : Relay = record r { client = record r.client { escape = s }; escape_buf = o.dst } in
      if ltb 0 o.n then add_stdin now (take o.n o.dst) r' else relaying r'

  unfoldable pub on_stdin : ℕ → List ℕ → Relay → Outcome
  on_stdin now bytes r =
      if is_stale now r
      then left exit_network r.client
      else after_escape now r (process r.client.escape bytes (record { dst = r.escape_buf; n = 0 }))

  unfoldable pub on_control : ℕ → Received → List Received → Relay → Outcome
  on_control now read_error remaining r = left exit_network r.client
  on_control now (message shutdown) remaining r =
      left exit_shutdown (drain_remaining_data remaining r.client)
  on_control now (message m) remaining r = relaying (record r { last_recv = now })

  -- After a Data was written to stdout, or not.
  abbrev pub after_stdout : ℕ → ℕ → Relay → Client × Bool → Outcome
  after_stdout now seq r (c, true) =
      relaying (record r { client = record c { recv_seq = seq }; last_recv = now })
  after_stdout now seq r (c, false) = left exit_stdin_eof c

  unfoldable pub on_data : ℕ → Received → Option Received → Relay → Outcome
  on_data now read_error waiting r = left (drain_for_shutdown waiting) r.client
  on_data now (message (data_msg seq payload)) waiting r =
      after_stdout now seq r (perform fate (write_stdout payload) r.client)
  on_data now (message m) waiting r = relaying (record r { last_recv = now })

  abbrev pub after_beat : Relay → Client × Bool → Outcome
  after_beat r (c, done) = if done then relaying (record r { client = c }) else left exit_network c

  unfoldable pub step : ℕ → Event → Relay → Outcome
  step now (stdin_data bytes) r = on_stdin now bytes r
  step now stdin_closed r = left exit_stdin_eof (flush_stdin_coalesced fate r.coal r.client).1
  step now deadline r =
      if is_stale now r
      then left exit_network r.client
      else after_flush r (flush_stdin_coalesced fate (Coalesce.receive r.coal) r.client)
  step now (control_result result remaining) r = on_control now result remaining r
  step now (data_result result waiting) r = on_data now result waiting r
  step now (window_change size) r = relaying (record r { client = send_resize size r.client })
  step now heartbeat_tick r =
      if is_stale now r
      then left exit_network r.client
      else after_beat r (perform fate (write_control (heartbeat (pos now))) r.client)
  step now cancelled r = left exit_cancelled r.client
