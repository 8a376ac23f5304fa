-- ===== src/Transport/Sockets/Clean.antt =====
-- What the listeners and the diallers of internal/transport leave open.
use goet.Prelude.{ℕ, ◌≡◌, ◌⊎◌, refl, inl, inr}
use goet.Prelude.{
  List, [], ◌∷◌, ◌++◌, Bool, true, false, Option, none, some, ◌==◌, ==→eq, Bool-cases,
}
use goet.Protocol.Message.{Message}
use goet.Transport.{
  Stream, Accepted, accepted, refused, Dialled, dialled, failed, quic_authenticate, read,
  perform_tcp_auth, perform_quic_auth,
}
use goet.Transport.Accept.{IsAuthentic, quic_authenticate_sound}
use goet.Transport.Sockets.{
  Effect, listen_udp, close_udp, make_transport, listen_quic, close_quic_listener, close_transport,
  listen_tls, dial_quic, dial_tls, accept_quic, Accepting, given, quic_accepted, quic_accept,
  close_with_error, close_tls_listener, close_tls, Host, Listening, ListenError, no_cert,
  udp_failed, quic_failed, tls_failed, on_port, no_listener, listen_on, listen_quic_on, close_dual,
  with_tls, after_quic, listen_dual, QuicPeer, TlsPeer, Net, DialError, dial_failed, auth_failed,
  DialResult, connection, no_connection, quic_mode, tcp_mode, quic_authenticated, quic_dialled,
  dial_quic_peer, tcp_authenticated, tcp_dialled, dial_tcp_peer, dial, close_quic_conn,
}

-- What was opened or made and is not closed: the UDP socket, the QUIC transport on it, the two listeners, and
-- a connection.
pub record Open : Type 0 where
  pub udp : Bool
  pub transport : Bool
  pub quic : Bool
  pub tls : Bool
  pub conn : Bool

abbrev pub nothing : Open
nothing = record { udp = false; transport = false; quic = false; tls = false; conn = false }

-- What is left when a QUIC transport is closed: it does not close a socket that its caller supplied.
abbrev pub the_socket : Open
the_socket = record nothing { udp = true }

abbrev pub open_after : List Effect → Open
open_after [] = nothing
open_after (listen_udp p ∷ es) = record (open_after es) { udp = true }
open_after (close_udp ∷ es) = record (open_after es) { udp = false }
open_after (make_transport ∷ es) = record (open_after es) { transport = true }
open_after (close_transport ∷ es) = record (open_after es) { transport = false }
open_after (listen_quic ∷ es) = record (open_after es) { quic = true }
open_after (close_quic_listener ∷ es) = record (open_after es) { quic = false }
open_after (listen_tls p ∷ es) = record (open_after es) { tls = true }
open_after (close_tls_listener ∷ es) = record (open_after es) { tls = false }
open_after (accept_quic ∷ es) = record (open_after es) { conn = true }
open_after (dial_quic ∷ es) = record (open_after es) { conn = true }
open_after (dial_tls ∷ es) = record (open_after es) { conn = true }
open_after (close_with_error n ∷ es) = record (open_after es) { conn = false }
open_after (close_tls ∷ es) = record (open_after es) { conn = false }
open_after (_ ∷ es) = open_after es

-- What an error of ListenDual leaves.
abbrev pub left_unheard : ListenError → Open
left_unheard no_cert = nothing
left_unheard udp_failed = nothing
left_unheard quic_failed = record nothing { transport = true }
left_unheard tls_failed = the_socket

-- Both listeners are open, on the port that UDP was bound to, and Close leaves only the socket.
abbrev pub Listens : Host → ℕ → Listening × List Effect → Type 0
Listens h port (no_listener e, es) = open_after es ≡ left_unheard e
Listens h port (on_port p, es) =
    (h.udp_port port ≡ some p)
    × (q : ℕ) × (h.tls_port p ≡ some q)
    × (open_after es
        ≡ record { udp = true; transport = true; quic = true; tls = true; conn = false })
    × (open_after (close_dual ++ es) ≡ the_socket)

module _ (h : Host) where
  with_tls-Listens :
      (port p : ℕ) (o : Option ℕ)
      → h.udp_port port ≡ some p
      → h.tls_port p ≡ o
      → Listens h port (with_tls h p o (listen_quic ∷ make_transport ∷ listen_udp p ∷ []))
  with_tls-Listens port p none bound tls = refl
  with_tls-Listens port p (some q) bound tls = (bound, q, tls, refl, refl)

  can_listen-Listens :
      (b : Bool) (port p : ℕ)
      → h.can_listen ≡ b
      → h.udp_port port ≡ some p
      → Listens h port (after_quic h (listen_on h (some p)))
  can_listen-Listens true port p can bound =
      rw can (with_tls-Listens port p (h.tls_port p) bound refl)
  can_listen-Listens false port p cannot bound = rw cannot refl

  bound-Listens :
      (port : ℕ) (o : Option ℕ)
      → h.udp_port port ≡ o
      → Listens h port (after_quic h (listen_on h o))
  bound-Listens port none unbound = refl
  bound-Listens port (some p) bound = can_listen-Listens h.can_listen port p refl bound

  -- ListenDual: an error leaves no listener open. It leaves the UDP socket open exactly if TCP could not be bound: then
  -- the transport is closed, but not the socket. If QUIC cannot listen, the socket is closed and its transport is
  -- not; before that nothing is left. If ListenDual gives a listener, its port is the one that UDP was bound
  -- to, TCP was bound by that number, both listeners are open, and the Closes in Close of dualListener close
  -- them and the transport, but not the UDP socket.
  pub listen_dual-Listens : (port : ℕ) → Listens h port (listen_dual h port)
  unfolding listen_dual listen_quic_on
  listen_dual-Listens port = elim (Bool-cases h.has_cert) [
    | inl cert ↦ rw cert (bound-Listens port (h.udp_port port) refl)
    | inr without ↦ rw without refl
  ]

module _ (mac : List ℕ → List ℕ → List ℕ) (sends : List Message → Bool) (passkey : List ℕ) where
  -- The connection is open and authentic, or nothing is open.
  abbrev pub Accepts : QuicPeer → Accepting × List Effect → Type 0
  Accepts p (given last, es) =
      (open_after es ≡ record nothing { conn = true })
      × (c : Stream) × (d : Stream) × (p.control ≡ some c)
      × (p.data_stream ≡ some d)
      × IsAuthentic mac passkey p.material (read c).0 (read d).0 last
  Accepts p (_, es) = open_after es ≡ nothing

  quic_accepted-Accepts :
      (p : QuicPeer) (c : Stream) (r : Accepted)
      → p.control ≡ some c
      → (quic_authenticate mac sends passkey p.material (some c) p.data_stream).0 ≡ r
      → Accepts p (quic_accepted r)
  quic_accepted-Accepts p c (accepted last) on gives =
      let (d, has_data, authentic) =
        quic_authenticate_sound mac sends passkey p.material c p.data_stream last gives in
      (refl, c, d, on, has_data, authentic)
  quic_accepted-Accepts p c (refused why) on gives = refl

  by_control :
      (p : QuicPeer) (o : Option Stream)
      → p.control ≡ o
      → Accepts p (quic_accepted (quic_authenticate mac sends passkey p.material o p.data_stream).0)
  unfolding quic_authenticate
  by_control p none on = refl
  by_control p (some c) on = quic_accepted-Accepts p c _ on refl

  -- Accept of the QUIC listener returns a connection only after it read the token of the passkey from the control stream,
  -- and the sequence header with the number that it returns from the data stream; every other is closed.
  pub quic_accept-Accepts : (p : QuicPeer) → Accepts p (quic_accept mac sends passkey (some p))
  unfolding quic_accept
  quic_accept-Accepts p = by_control p p.control refl

-- What an error of Dial leaves, by the mode.
abbrev pub left_undialled : Bool → DialError → Open
left_undialled true dial_failed = the_socket
left_undialled true (auth_failed why) = the_socket
left_undialled _ _ = nothing

-- What is left after an error; of a connection, `P` says what is open.
abbrev pub Dials : Bool → (List Effect → Type 0) → DialResult × List Effect → Type 0
Dials is_quic P (no_connection e, es) = open_after es ≡ left_undialled is_quic e
Dials is_quic P (connection, es) = P es

weaken-Dials :
    (is_quic : Bool) (P Q : List Effect → Type 0) (r : DialResult × List Effect)
    → ((es : List Effect) → P es → Q es)
    → Dials is_quic P r
    → Dials is_quic Q r
weaken-Dials is_quic P Q (no_connection e, es) f h = h
weaken-Dials is_quic P Q (connection, es) f h = f es h

module _ (mac : List ℕ → List ℕ → List ℕ) (sends : List Message → Bool) (net : Net)
    (passkey : List ℕ) (last : ℕ) where
  -- The connection of QUIC, or of TCP, is open and authenticated. What its Close leaves: of QUIC the UDP socket.
  abbrev pub IsQuic : List Effect → Type 0
  IsQuic es =
      (p : QuicPeer) × (net.quic ≡ some p)
      × ((perform_quic_auth mac sends passkey p.material last p.control p.data_stream).0 ≡ dialled)
      × (open_after es ≡ record the_socket { transport = true; conn = true })
      × (open_after (close_quic_conn true true true true ++ es) ≡ the_socket)

  abbrev pub IsTcp : List Effect → Type 0
  IsTcp es =
      (p : TlsPeer) × (net.tls ≡ some p)
      × ((perform_tcp_auth mac sends passkey p.material last p.stream).0 ≡ dialled)
      × (open_after es ≡ record nothing { conn = true })
      × (open_after (close_tls ∷ es) ≡ nothing)

  quic_authenticated-Dials :
      (p : QuicPeer) (d : Dialled)
      → net.quic ≡ some p
      → (perform_quic_auth mac sends passkey p.material last p.control p.data_stream).0 ≡ d
      → Dials true IsQuic (quic_authenticated mac sends net passkey last d)
  unfolding close_quic_conn
  quic_authenticated-Dials p dialled on done = (p, on, done, refl, refl)
  quic_authenticated-Dials p (failed why) on done = refl

  quic_dialled-Dials :
      (o : Option QuicPeer)
      → net.quic ≡ o
      → Dials true IsQuic (quic_dialled mac sends net passkey last o)
  quic_dialled-Dials none on = refl
  quic_dialled-Dials (some p) on = quic_authenticated-Dials p _ on refl

  dial_quic_peer-Dials : Dials true IsQuic (dial_quic_peer mac sends net passkey last)
  unfolding dial_quic_peer
  dial_quic_peer-Dials = elim (Bool-cases net.resolves) [
    | inl found ↦ elim (Bool-cases net.has_udp) [
      | inl socket ↦ rw (found, socket) (quic_dialled-Dials net.quic refl)
      | inr without ↦ rw (found, without) refl
    ]
    | inr unknown ↦ rw unknown refl
  ]

  tcp_authenticated-Dials :
      (p : TlsPeer) (d : Dialled)
      → net.tls ≡ some p
      → (perform_tcp_auth mac sends passkey p.material last p.stream).0 ≡ d
      → Dials false IsTcp (tcp_authenticated mac sends net passkey last d)
  tcp_authenticated-Dials p dialled on done = (p, on, done, refl, refl)
  tcp_authenticated-Dials p (failed why) on done = refl

  tcp_dialled-Dials :
      (o : Option TlsPeer)
      → net.tls ≡ o
      → Dials false IsTcp (tcp_dialled mac sends net passkey last o)
  tcp_dialled-Dials none on = refl
  tcp_dialled-Dials (some p) on = tcp_authenticated-Dials p _ on refl

  abbrev pub IsOpened : ℕ → List Effect → Type 0
  IsOpened mode es = ((mode ≡ quic_mode) × IsQuic es) ⊎ ((mode ≡ tcp_mode) × IsTcp es)

  -- Dial: an error leaves no connection and no transport. It leaves the UDP socket open exactly in the mode of QUIC, if
  -- the dial of the transport or the authentication fails. If Dial gives a connection, the mode is the one of QUIC or of
  -- TCP, the authentication over that network succeeded, and only the connection is open, for QUIC with its
  -- transport and the UDP socket; its Close closes all of it but the UDP socket.
  pub dial-Dials :
      (mode : ℕ) → Dials (mode == quic_mode) (IsOpened mode) (dial mac sends net passkey last mode)
  unfolding dial dial_tcp_peer
  dial-Dials mode = elim (Bool-cases (mode == quic_mode)) [
    | inl quic ↦ rw quic (
        weaken-Dials true IsQuic (IsOpened mode) _ (λ es h. inl (==→eq mode quic_mode quic, h))
          dial_quic_peer-Dials)
    | inr not_quic ↦ elim (Bool-cases (mode == tcp_mode)) [
      | inl tcp ↦
          rw (not_quic, tcp)
            (weaken-Dials false IsTcp (IsOpened mode) _ (λ es h. inr (==→eq mode tcp_mode tcp, h))
              (tcp_dialled-Dials net.tls refl))
      | inr neither ↦ rw (not_quic, neither) refl
    ]
  ]
