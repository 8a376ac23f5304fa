-- ===== src/Transport/Sockets.antt =====
-- internal/transport: ListenDual and Listen, the listeners that they make (session_listener.go, tcp_listener.go,
-- dual_listener.go), Dial (client_dialer.go, tcp_dialer.go), and the Close of a quicConn (streams.go). The
-- calls of the network packages are a list of effects, the newest first; what they give is a record of answers.
pub mod Clean
use goet.Prelude.{ℕ, List, [], ◌∷◌, ◌++◌, Bool, true, false, Option, none, some, ◌==◌}
use goet.Prelude.{if◌then◌else◌}
use goet.Protocol.Message.{Message}
use goet.Transport.{
  Stream, Accepted, accepted, refused, Dialled, dialled, failed, Refusal, quic_authenticate,
  perform_tcp_auth, perform_quic_auth,
}

pub data Effect : Type 0 where
  listen_udp : ℕ → Effect
  close_udp : Effect
  make_transport : Effect
  listen_quic : Effect
  close_quic_listener : Effect
  close_transport : Effect
  listen_tls : ℕ → Effect
  dial_quic dial_tls accept_quic : Effect
  close_with_error : ℕ → Effect
  close_tls_listener close_tls : Effect
  cancel_control close_control cancel_data close_data : Effect

-- What a session asks of the network: the port that a socket is bound to, `none` for an error.
pub record Host : Type 0 where
  pub has_cert : Bool
  pub udp_port : ℕ → Option ℕ
  pub can_listen : Bool
  pub tls_port : ℕ → Option ℕ

pub data ListenError : Type 0 where
  no_cert udp_failed quic_failed tls_failed : ListenError

-- The port of the listener, or an error.
pub data Listening : Type 0 where
  on_port : ℕ → Listening
  no_listener : ListenError → Listening

-- Close of quicListener, and of dualListener before it drains the channel
abbrev pub close_quic : List Effect
close_quic = close_transport ∷ close_quic_listener ∷ []

abbrev pub close_dual : List Effect
close_dual = close_quic ++ (close_tls_listener ∷ [])

module _ (h : Host) where
  -- After the socket was bound, or not.
  abbrev pub listen_on : Option ℕ → Listening × List Effect
  listen_on none = (no_listener udp_failed, [])
  listen_on (some port) =
      if h.can_listen
      then (on_port port, listen_quic ∷ make_transport ∷ listen_udp port ∷ [])
      else (no_listener quic_failed, close_udp ∷ make_transport ∷ listen_udp port ∷ [])

  -- listenQUIC
  unfoldable pub listen_quic_on : ℕ → Listening × List Effect
  listen_quic_on port = listen_on (h.udp_port port)

  -- Listen
  unfoldable pub listen : ℕ → Listening × List Effect
  listen port = if h.has_cert then listen_quic_on port else (no_listener no_cert, [])

  -- After listenTCP on the port of the QUIC listener.
  abbrev pub with_tls : ℕ → Option ℕ → List Effect → Listening × List Effect
  with_tls port none es = (no_listener tls_failed, close_quic ++ es)
  with_tls port (some tls_port) es = (on_port port, listen_tls tls_port ∷ es)

  abbrev pub after_quic : Listening × List Effect → Listening × List Effect
  after_quic (no_listener e, es) = (no_listener e, es)
  after_quic (on_port port, es) = with_tls port (h.tls_port port) es

  -- ListenDual
  unfoldable pub listen_dual : ℕ → Listening × List Effect
  listen_dual port =
      if h.has_cert then after_quic (listen_quic_on port) else (no_listener no_cert, [])

-- A QUIC connection: the exported keying material, and its streams, `none` if they cannot be opened or accepted.
pub record QuicPeer : Type 0 where
  pub material : Option (List ℕ)
  pub control : Option Stream
  pub data_stream : Option Stream

pub record TlsPeer : Type 0 where
  pub material : Option (List ℕ)
  pub stream : Stream

-- What a client asks of the network.
pub record Net : Type 0 where
  pub resolves : Bool
  pub has_udp : Bool
  pub quic : Option QuicPeer
  pub tls : Option TlsPeer

pub data DialError : Type 0 where
  unknown_mode unresolved no_socket dial_failed : DialError
  auth_failed : Refusal → DialError

pub data DialResult : Type 0 where
  connection : DialResult
  no_connection : DialError → DialResult

abbrev pub quic_mode : ℕ
quic_mode = 0

abbrev pub tcp_mode : ℕ
tcp_mode = 1

module _ (mac : List ℕ → List ℕ → List ℕ) (sends : List Message → Bool) (net : Net)
    (passkey : List ℕ) (last : ℕ) where
  abbrev pub quic_authenticated : Dialled → DialResult × List Effect
  quic_authenticated dialled = (connection, dial_quic ∷ make_transport ∷ listen_udp 0 ∷ [])
  quic_authenticated (failed why) = (
    no_connection (auth_failed why),
    close_transport ∷ close_with_error 1 ∷ dial_quic ∷ make_transport ∷ listen_udp 0 ∷ [],
  )

  abbrev pub quic_dialled : Option QuicPeer → DialResult × List Effect
  quic_dialled none =
      (no_connection dial_failed, close_transport ∷ make_transport ∷ listen_udp 0 ∷ [])
  quic_dialled (some p) =
      quic_authenticated
        (perform_quic_auth mac sends passkey p.material last p.control p.data_stream).0

  -- dialQUIC
  unfoldable pub dial_quic_peer : DialResult × List Effect
  dial_quic_peer =
      if net.resolves
      then (if net.has_udp then quic_dialled net.quic else (no_connection no_socket, []))
      else (no_connection unresolved, [])

  abbrev pub tcp_authenticated : Dialled → DialResult × List Effect
  tcp_authenticated dialled = (connection, dial_tls ∷ [])
  tcp_authenticated (failed why) = (no_connection (auth_failed why), close_tls ∷ dial_tls ∷ [])

  abbrev pub tcp_dialled : Option TlsPeer → DialResult × List Effect
  tcp_dialled none = (no_connection dial_failed, [])
  tcp_dialled (some p) =
      tcp_authenticated (perform_tcp_auth mac sends passkey p.material last p.stream).0

  -- dialTCP
  unfoldable pub dial_tcp_peer : DialResult × List Effect
  dial_tcp_peer = tcp_dialled net.tls

  -- Dial, and Client.dial with the number last received
  unfoldable pub dial : ℕ → DialResult × List Effect
  dial mode =
      if mode == quic_mode
      then dial_quic_peer
      else if mode == tcp_mode
      then dial_tcp_peer
      else (no_connection unknown_mode, [])

-- What Accept of quicListener gives: LastClientSeq, or an error.
pub data Accepting : Type 0 where
  given : ℕ → Accepting
  no_arrival : Accepting
  unauthentic : Refusal → Accepting

abbrev pub quic_accepted : Accepted → Accepting × List Effect
quic_accepted (accepted last) = (given last, accept_quic ∷ [])
quic_accepted (refused why) = (unauthentic why, close_with_error 1 ∷ accept_quic ∷ [])

module _ (mac : List ℕ → List ℕ → List ℕ) (sends : List Message → Bool) (passkey : List ℕ) where
  -- Accept of quicListener, for what the QUIC listener gives; `none` is an error.
  unfoldable pub quic_accept : Option QuicPeer → Accepting × List Effect
  quic_accept none = (no_arrival, [])
  quic_accept (some p) =
      quic_accepted (quic_authenticate mac sends passkey p.material p.control p.data_stream).0

-- Close of quicConn: the fields that are not nil.
unfoldable pub close_quic_conn : Bool → Bool → Bool → Bool → List Effect
close_quic_conn has_control has_data has_conn has_transport =
    (if has_transport then close_transport ∷ [] else [])
    ++ ((if has_conn then close_with_error 0 ∷ [] else [])
        ++ ((if has_data then close_data ∷ cancel_data ∷ [] else [])
            ++ (if has_control then close_control ∷ cancel_control ∷ [] else [])))
