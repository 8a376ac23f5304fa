-- ===== src/Transport.antt =====
-- internal/transport and internal/auth: the authentication of both sides of a new connection. A stream
-- is the messages that it gives, after which a read fails, and those written to it, the newest
-- first; `sends` says whether the newest of them could be written. The keying material that TLS exports
-- is an argument, `none` if the export fails, and HMAC-SHA256 is the parameter `mac`.
pub mod Accept
pub mod Honest
pub mod Demux
pub mod Dual
pub mod TcpListener
pub mod Sockets
mod Tests
use goet.Prelude.{
  ℕ, List, [], ◌∷◌, ◌++◌, Bool, true, false, ◌&&◌, Option, none, some, ◌==◌, if◌then◌else◌, take,
  replicate,
}
use goet.Protocol.Message.{
  Message, auth_request, auth_response, sequence_header, auth_ok, auth_failed,
}
use goet.Session.{Received, message, read_error}

pub record Stream : Type 0 where
  pub incoming : List Received
  pub outgoing : List Message

abbrev pub read_from : List Received → Stream → Received × Stream
read_from [] s = (read_error, s)
read_from (r ∷ rs) s = (r, record s { incoming = rs })

abbrev pub read : Stream → Received × Stream
read s = read_from s.incoming s

pub data Refusal : Type 0 where
  no_stream read_failed unexpected export_failed wrong_passkey rejected write_failed : Refusal

-- The listener's result: LastClientSeq of the new connection, or an error.
pub data Accepted : Type 0 where
  accepted : ℕ → Accepted
  refused : Refusal → Accepted

-- The dialler's result.
pub data Dialled : Type 0 where
  dialled : Dialled
  failed : Refusal → Dialled

abbrev pub same_bytes : List ℕ → List ℕ → Bool
same_bytes [] [] = true
same_bytes (x ∷ xs) (y ∷ ys) = (x == y) && same_bytes xs ys
same_bytes _ _ = false

module _ (mac : List ℕ → List ℕ → List ℕ) where
  -- The sum is copied to an array of 32 bytes.
  unfoldable pub compute_auth_token : List ℕ → List ℕ → List ℕ
  compute_auth_token passkey material = take 32 (mac passkey material ++ replicate 32 0)

  unfoldable pub verify_auth_token : List ℕ → List ℕ → List ℕ → Bool
  verify_auth_token passkey material token = same_bytes token (compute_auth_token passkey material)

module _ (mac : List ℕ → List ℕ → List ℕ) (sends : List Message → Bool) where
  -- WriteMessage, and whether there was no error.
  abbrev pub write : Message → Stream → Stream × Bool
  write m s = (record s { outgoing = m ∷ s.outgoing }, sends (m ∷ s.outgoing))

  -- The client's sequence header.
  abbrev pub take_header : Received × Stream → Accepted × Stream
  take_header (message (sequence_header last), s) = (accepted last, s)
  take_header (message _, s) = (refused unexpected, s)
  take_header (read_error, s) = (refused read_failed, s)

  -- After the token was checked; `rest` is what follows a success.
  abbrev pub answer : (Stream → Accepted × Stream) → Bool → Stream → Accepted × Stream
  answer rest false s = (refused wrong_passkey, (write (auth_response auth_failed) s).0)
  answer rest true s =
      let (s', done) = write (auth_response auth_ok) s in
      if done then rest s' else (refused write_failed, s')

  abbrev pub check_token :
      (Stream → Accepted × Stream)
      → List ℕ
      → Option (List ℕ)
      → Received × Stream
      → Accepted × Stream
  check_token rest passkey material (read_error, s) = (refused read_failed, s)
  check_token rest passkey none (message (auth_request token), s) = (refused export_failed, s)
  check_token rest passkey (some material) (message (auth_request token), s) =
      answer rest (verify_auth_token mac passkey material token) s
  check_token rest passkey material (message _, s) = (refused unexpected, s)

  -- authenticate of tcpListener
  unfoldable pub tcp_authenticate : List ℕ → Option (List ℕ) → Stream → Accepted × Stream
  tcp_authenticate passkey material s =
      check_token (λ t. take_header (read t)) passkey material (read s)

  -- The data stream of QUIC, `none` if it cannot be accepted.
  abbrev pub accept_data : Option Stream → Stream → Accepted × Stream
  accept_data none s = (refused no_stream, s)
  accept_data (some d) s = ((take_header (read d)).0, s)

  -- authenticate of quicListener, with the control stream after it
  unfoldable pub quic_authenticate :
      List ℕ → Option (List ℕ) → Option Stream → Option Stream → Accepted × Option Stream
  quic_authenticate passkey material none data_stream = (refused no_stream, none)
  quic_authenticate passkey material (some s) data_stream =
      let (result, s') = check_token (accept_data data_stream) passkey material (read s) in
      (result, some s')

  -- The client's sequence header is written.
  abbrev pub announce : ℕ → Stream → Dialled × Stream
  announce last s =
      let (s', done) = write (sequence_header last) s in
      (if done then dialled else failed write_failed, s')

  abbrev pub take_response : (Stream → Dialled × Stream) → Received × Stream → Dialled × Stream
  take_response rest (message (auth_response status), s) =
      if status == auth_ok then rest s else (failed rejected, s)
  take_response rest (message _, s) = (failed unexpected, s)
  take_response rest (read_error, s) = (failed read_failed, s)

  abbrev pub request : (Stream → Dialled × Stream) → List ℕ → Stream → Dialled × Stream
  request rest token s =
      let (s', done) = write (auth_request token) s in
      let answered = take_response rest (read s') in
      if done then answered else (failed write_failed, s')

  -- performTCPAuth
  unfoldable pub perform_tcp_auth : List ℕ → Option (List ℕ) → ℕ → Stream → Dialled × Stream
  perform_tcp_auth passkey none last s = (failed export_failed, s)
  perform_tcp_auth passkey (some material) last s =
      request (announce last) (compute_auth_token mac passkey material) s

  -- The data stream of QUIC, `none` if it cannot be opened.
  abbrev pub open_data : Option Stream → ℕ → Stream → Dialled × Stream
  open_data none last s = (failed no_stream, s)
  open_data (some d) last s = ((announce last d).0, s)

  -- performQUICAuth, with the control stream after it
  unfoldable pub perform_quic_auth :
      List ℕ → Option (List ℕ) → ℕ → Option Stream → Option Stream → Dialled × Option Stream
  perform_quic_auth passkey material last none data_stream = (failed no_stream, none)
  perform_quic_auth passkey none last (some s) data_stream = (failed export_failed, some s)
  perform_quic_auth passkey (some material) last (some s) data_stream =
      let (result, s') =
        request (open_data data_stream last) (compute_auth_token mac passkey material) s in
      (result, some s')
