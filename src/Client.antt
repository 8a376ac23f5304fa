-- ===== src/Client.antt =====
-- internal/client/client.go: the terminal's side. What the client does outside itself is a list of
-- effects, the newest first; `fate` says whether the newest call of such a list succeeds. Times are in
-- milliseconds. What is printed on stderr and logged is left out.
pub mod Escape
pub mod Relay
pub mod Run
pub mod Shown
pub mod Receipt
pub mod Sent
pub mod Stdin
pub mod History
pub mod Handshake
mod Tests
use goet.Prelude.{
  ℕ, ◌+◌, ◌*◌, ◌%◌, ◌^◌, List, [], ◌∷◌, Bool, true, false, Option, none, some, if◌then◌else◌,
}
use goet.Protocol.Message.{Message, sequence_header, resize, shutdown, terminal_info, data_msg, ℤ}
use goet.Catchup
use goet.Catchup.{Buffer, Entry}
use goet.Coalesce
use goet.Coalesce.{Coalescer}
use goet.Session.{Received, message, read_error}
use Escape.{State, initial}

-- `write_control` and `write_data` are on the connection that was dialled last.
pub data Effect : Type 0 where
  dial : ℕ → Effect
  write_control : Message → Effect
  write_data : Message → Effect
  close_conn : Effect
  start_demux : Effect
  make_raw restore : Effect
  write_stdout : List ℕ → Effect

-- The fields of Client that matter to it: `is_tty` says that `stdinFd` is not -1, and `is_known` that
-- `profileStart` is not zero.
pub record Client : Type 0 where
  pub buf : Buffer
  pub escape : State
  pub send_seq : ℕ
  pub recv_seq : ℕ
  pub is_tty : Bool
  pub is_known : Bool
  pub trace : List Effect

abbrev pub new : ℤ → Bool → Client
new replay_size is_tty = record {
  buf = Catchup.new replay_size;
  escape = initial;
  send_seq = 0;
  recv_seq = 0;
  is_tty = is_tty;
  is_known = false;
  trace = [];
}

abbrev pub note : Effect → Client → Client
note e c = record c { trace = e ∷ c.trace }

abbrev pub term_size : Option (ℕ × ℕ) → Client → Client
term_size none c = c
term_size (some (rows, cols)) c = note (write_control (resize (rows % 2 ^ 16) (cols % 2 ^ 16))) c

-- What GetSize gives is an argument; an error of the write is ignored.
unfoldable pub send_resize : Option (ℕ × ℕ) → Client → Client
send_resize size c = if c.is_tty then term_size size c else c

module _ (fate : List Effect → Bool) where
  -- A call, and whether it succeeds.
  abbrev pub perform : Effect → Client → Client × Bool
  perform e c = (note e c, fate (e ∷ c.trace))

  -- What Flush gave; nil is no error.
  unfoldable pub send_batch : Option (List ℕ) → Client → Client × Bool
  send_batch none c = (c, true)
  send_batch (some bytes) c =
      let seq = (c.send_seq + 1) % 2 ^ 64 in
      perform (write_data (data_msg seq bytes))
        (record c { send_seq = seq; buf = Catchup.store seq bytes c.buf })

  -- The coalescer after it, the client, and whether there was no error.
  unfoldable pub flush_stdin_coalesced : Coalescer → Client → Coalescer × Client × Bool
  flush_stdin_coalesced coal c =
      let (coal', batch) = Coalesce.flush coal in
      let (c', done) = send_batch batch c in (coal', c', done)

  -- The resend loop; false if a write failed.
  unfoldable pub resend : List Entry → Client → Client × Bool
  resend [] c = (c, true)
  resend (e ∷ es) c =
      let (c', done) = perform (write_data (data_msg e.seq e.payload)) c in
      let rest = resend es c' in if done then rest else (c', false)

  -- What ReadControl gives first is an argument.
  unfoldable pub handle_sequence_exchange : Received → Client → Client × Bool
  handle_sequence_exchange (message (sequence_header last)) c =
      resend (Catchup.replay_since last c.buf) c
  handle_sequence_exchange _ c = (c, false)

  abbrev pub send_terminal_info : List ℕ → Client → Client × Bool
  send_terminal_info term c = perform (write_control (terminal_info term)) c
