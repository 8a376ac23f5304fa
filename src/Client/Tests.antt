-- ===== src/Client/Tests.antt =====
-- The client at concrete inputs.
use goet.Prelude.{
  ℕ, ◌+◌, ◌≡◌, refl, List, [], ◌∷◌, Bool, true, false, none, some, arith, replicate,
  length-replicate,
}
use goet.Protocol.Message.{data_msg, sequence_header, pos}
use goet.Catchup
use goet.Catchup.{Entry}
use goet.Catchup.Store.{new-IsValid}
use goet.Coalesce
use goet.Session
use goet.Session.{Session, Received, message, read_error, NewConn, handle_new_conn}
use goet.Client.{Effect, Client, new, handle_sequence_exchange, resend, send_resize}
use goet.Client.Escape
use goet.Client.Escape.Buffers.{filtered}
use goet.Client.Stdin.{StdinRead, bytes_read, let_through, read_stdin, stdin_in_chunks}
use goet.Client.Relay.{stdin_buf_size, Relay, stdin_data, step, left, exit_network, on_stdin, start}
use goet.Client.Run.{Greeting, connect}
use goet.Client.Handshake.{client_of, one_stream_reconnect}
use goet.Client.History.{TracksRelay, TracksOutcome, step-TracksOutcome}

abbrev all_done : List Effect → Bool
all_done es = true

abbrev session_done : List Session.Effect → Bool
session_done es = true

abbrev greeting : Greeting
greeting = record { header = message (sequence_header 0); term = b'v' ∷ []; size = some (24, 80) }

-- A byte was typed and stored, and the connection was lost before it arrived.
abbrev typed_client : Client
typed_client = record (new (pos 0) false) {
  buf = Catchup.store 1 (104 ∷ []) (Catchup.new (pos 0));
  send_seq = 1;
  is_known = true;
}

abbrev offered : NewConn
offered = record { id = 2; last_client_seq = 0; hello = message (data_msg 1 (104 ∷ [])) }

one_stream_reconnect_example :
    ((handle_new_conn session_done offered (Session.new (pos 0))).0.conn ≡ none)
    × ((handle_new_conn session_done offered (Session.new (pos 0))).0.recv_seq ≡ 0)
    × ((client_of (connect all_done 0 false greeting typed_client)).buf ≡ typed_client.buf)
unfolding connect handle_sequence_exchange resend send_resize start Catchup.new Catchup.new_sized
    Catchup.store Catchup.make_room Catchup.replay_since Catchup.replay_loop
one_stream_reconnect_example =
    one_stream_reconnect all_done session_done 0 false greeting typed_client offered
      (Session.new (pos 0)) (record { seq = 1; payload = 104 ∷ [] }) [] refl refl refl refl

abbrev relay : Relay
relay = record {
  client = new (pos 0) false;
  coal = record { buf = 104 ∷ []; timer = Coalesce.running 2; armed = true };
  escape_buf = 0 ∷ 0 ∷ 0 ∷ 0 ∷ [];
  last_recv = 0;
}

relay-Tracks : TracksRelay (104 ∷ []) [] relay
relay-Tracks = record {
  valid = (new-IsValid (pos 0)).0;
  held = ([], (new-IsValid (pos 0)).1);
  numbered = tt;
  counted = refl;
  bytes = refl;
  filled = omega arith;
}

step-TracksOutcome_example :
    TracksOutcome (104 ∷ 105 ∷ []) [] (step all_done 1 (stdin_data (105 ∷ [])) relay)
unfolding Escape.process Escape.round Escape.emit
step-TracksOutcome_example =
    step-TracksOutcome all_done (104 ∷ []) [] 1 (stdin_data (105 ∷ [])) relay relay-Tracks
      (omega arith)

-- A batch that waits when the connection is lost is dropped: it is neither sent nor in the ring, and the
-- next connection starts with an empty batch.
batch_dropped :
    step all_done 15001 (stdin_data (105 ∷ [])) relay ≡ left exit_network (new (pos 0) false)
unfolding step on_stdin
batch_dropped = refl

-- An escape sequence that is cut in two: the client disconnects at the second read.
abbrev cut_escape : List StdinRead
cut_escape =
    record { bytes = b'a' ∷ b'\n' ∷ b'~' ∷ []; failed = false }
    ∷ record { bytes = b'.' ∷ []; failed = true }
    ∷ []

abbrev empty_dst : List ℕ
empty_dst = replicate (stdin_buf_size + 2) 0

stdin_in_chunks_example :
    (bytes : List ℕ) × (let_through empty_dst Escape.initial (read_stdin cut_escape)
      ≡ some (bytes, (filtered Escape.initial (bytes_read cut_escape)).1))
    × ((filtered Escape.initial (bytes_read cut_escape)).1 ≡ Escape.send
        → bytes ≡ (filtered Escape.initial (bytes_read cut_escape)).0)
stdin_in_chunks_example =
    stdin_in_chunks cut_escape empty_dst (length-replicate {A = ℕ} (stdin_buf_size + 2) 0)
      (omega arith, (omega arith, tt))
