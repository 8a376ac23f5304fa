-- ===== src/Transport/Tests.antt =====
-- The handshakes and the demultiplexer at concrete inputs.
use goet.Prelude.{
  ℕ, ◌≤◌, length, true, ◌≡◌, ◌≢◌, ◌↔◌, ◌⊎◌, refl, inr, arith, List, [], ◌∷◌, ◌++◌, none, some,
}
use goet.Protocol.Message.{auth_request, auth_response, sequence_header, data_msg, auth_ok}
use goet.Session.{Received, message}
use goet.Transport.{
  Stream, accepted, dialled, compute_auth_token, verify_auth_token, tcp_authenticate,
  perform_tcp_auth,
}
use goet.Transport.Honest.{all_sent, arriving, tcp_handshake, tcp_agreement}
use goet.Transport.Demux.{is_ready, step, route, trace_step}
use goet.Transport.Demux.Life
use goet.Transport.Demux.Life.{
  Conn, call_read_control, call_read_data, call_start_demux, demux_reads, can_happen, happen,
  new_tcp_conn, IsWhole, Reaches-IsWhole,
}
use goet.Transport.TcpListener
use goet.Transport.TcpListener.{Peer, Call}
use goet.Transport.TcpListener.Settled.{IsEnded, IsSettled, Reaches-settles}
use goet.Transport.Sockets
use goet.Transport.Sockets.{QuicPeer, Host, Net, listen_dual, dial}
use goet.Transport.Sockets.Clean.{
  Listens, listen_dual-Listens, open_after, the_socket, IsOpened, Dials, dial-Dials,
}
use goet.Transport.Dual
use goet.Transport.Dual.{DualListener}
use goet.Transport.Dual.Proved.{IsReturned, IsProved, given-IsProved}
use goet.Transport.Dual.Account
use goet.Transport.Dual.Account.{count, places, Reaches-places}

-- Not a MAC: it puts the passkey before the message.
abbrev prefix_mac : List ℕ → List ℕ → List ℕ
prefix_mac passkey material = passkey ++ material

abbrev token : List ℕ
token = compute_auth_token prefix_mac (1 ∷ []) (2 ∷ [])

abbrev from_client : Stream
from_client = arriving (auth_request token ∷ sequence_header 5 ∷ [])

-- A client with the passkey, and one whose number comes after the caller has gone.
abbrev peer : Peer
peer = record { id = 3; material = some (2 ∷ []); stream = from_client }

abbrev taken_in : Call
taken_in =
    TcpListener.step prefix_mac all_sent (1 ∷ []) (TcpListener.arrives (some peer))
      TcpListener.begin

Reaches-settles_example :
    (IsEnded taken_in × IsSettled prefix_mac all_sent (1 ∷ []) (some (some peer)) taken_in)
    ⊎ ((ev : TcpListener.Event) × TcpListener.IsOwn ev
        × (ev ≢ TcpListener.cancel)
        × (TcpListener.is_ready ev taken_in ≡ true)
        × IsEnded (TcpListener.step prefix_mac all_sent (1 ∷ []) ev taken_in)
        × IsSettled prefix_mac all_sent
            (1 ∷ [])
            (some (some peer))
            (TcpListener.step prefix_mac all_sent (1 ∷ []) ev taken_in))
unfolding TcpListener.is_ready
Reaches-settles_example =
    Reaches-settles prefix_mac all_sent (1 ∷ []) (some peer) taken_in
      (TcpListener.arrive TcpListener.begin (some peer) TcpListener.here refl)

abbrev quic_peer : QuicPeer
quic_peer = record {
  material = some (2 ∷ []);
  control = some (arriving (auth_request token ∷ []));
  data_stream = some (arriving (sequence_header 5 ∷ []));
}

-- A host on which the UDP port that was given is taken for TCP.
abbrev host : Host
host = record {
  has_cert = true;
  udp_port = λ port. some 4000;
  can_listen = true;
  tls_port = λ port. none;
}

listen_dual-Listens_example : Listens host 0 (listen_dual host 0)
listen_dual-Listens_example = listen_dual-Listens host 0

abbrev net : Net
net = record {
  resolves = true;
  has_udp = true;
  quic = some (record {
    material = some (2 ∷ []);
    control = some (arriving (auth_response auth_ok ∷ []));
    data_stream = some (arriving []);
  });
  tls = some (record { material = some (2 ∷ []); stream = arriving (auth_response auth_ok ∷ []) });
}

dial-Dials_example :
    Dials true
      (IsOpened prefix_mac all_sent net (1 ∷ []) 5 0)
      (dial prefix_mac all_sent net (1 ∷ []) 5 0)
dial-Dials_example = dial-Dials prefix_mac all_sent net (1 ∷ []) 5 0

-- A QUIC dial that gets no connection leaves its socket.
dial_unanswered :
    open_after (dial prefix_mac all_sent (record net { quic = none }) (1 ∷ []) 5 0).1 ≡ the_socket
unfolding dial Sockets.dial_quic_peer
dial_unanswered = refl

tcp_handshake_example :
    let client =
      perform_tcp_auth prefix_mac all_sent
        (1 ∷ [])
        (some (2 ∷ []))
        5
        (arriving (auth_response auth_ok ∷ [])) in
    let server = tcp_authenticate prefix_mac all_sent (1 ∷ []) (some (2 ∷ [])) from_client in
    (client.0 ≡ dialled)
    × (client.1.outgoing ≡ sequence_header 5 ∷ auth_request token ∷ [])
    × (server.0 ≡ accepted 5)
    × (server.1.outgoing ≡ auth_response auth_ok ∷ [])
tcp_handshake_example = tcp_handshake prefix_mac (1 ∷ []) (2 ∷ []) 5

-- Two passkeys, on one connection.
tcp_agreement_example :
    let theirs = compute_auth_token prefix_mac (3 ∷ []) (2 ∷ []) in
    let server =
      tcp_authenticate prefix_mac all_sent
        (1 ∷ [])
        (some (2 ∷ []))
        (arriving (auth_request theirs ∷ sequence_header 5 ∷ [])) in
    let client =
      perform_tcp_auth prefix_mac all_sent
        (3 ∷ [])
        (some (2 ∷ []))
        5
        (arriving server.1.outgoing) in
    ((server.0 ≡ accepted 5) ↔ (theirs ≡ token))
    × ((client.0 ≡ dialled) ↔ (theirs ≡ token))
    × ((client.1.outgoing ≡ auth_request theirs ∷ []) ↔ (theirs ≢ token))
tcp_agreement_example = tcp_agreement prefix_mac (1 ∷ []) (3 ∷ []) (2 ∷ []) (2 ∷ []) 5

-- A header is read in the handshake, then the goroutine routes a Data, which is read.
abbrev stream_gives : List Received
stream_gives = message (sequence_header 5) ∷ message (data_msg 1 (104 ∷ [])) ∷ []

abbrev shaken : Conn
shaken = happen call_start_demux (happen call_read_control (new_tcp_conn stream_gives))

abbrev routed : Conn
routed = happen call_read_data (happen demux_reads shaken)

Reaches-IsWhole_example : IsWhole stream_gives routed
unfolding can_happen happen is_ready trace_step step route
Reaches-IsWhole_example = Reaches-IsWhole stream_gives routed (
    Life.next (happen demux_reads shaken) call_read_data
      (Life.next shaken demux_reads
        (Life.next (happen call_read_control (new_tcp_conn stream_gives)) call_start_demux
          (Life.next (new_tcp_conn stream_gives) call_read_control Life.here refl) refl)
        refl)
      refl)

abbrev one_taken : DualListener
one_taken = Dual.step (Dual.accepted Dual.quic 7) Dual.listen_dual

abbrev one_queued : DualListener
one_queued = Dual.step (Dual.put Dual.quic) one_taken

one_queued-Reaches : Account.Reaches (7 ∷ []) one_queued
unfolding Dual.is_ready Dual.step
one_queued-Reaches =
    Account.next (7 ∷ []) one_taken (Dual.put Dual.quic)
      (Account.next [] Dual.listen_dual (Dual.accepted Dual.quic 7) Account.here refl) refl

Reaches-places_example : (places 7 one_queued ≡ count 7 (7 ∷ [])) × (length one_queued.queue ≤ 4)
Reaches-places_example = Reaches-places (7 ∷ []) one_queued one_queued-Reaches 7

-- The connection of the client with the passkey is accepted over TCP, and given out.
abbrev given_out : DualListener
given_out =
    Dual.step Dual.accept
      (Dual.step (Dual.put Dual.tcp) (Dual.step (Dual.accepted Dual.tcp 3) Dual.listen_dual))

given_out-Reaches : Account.Reaches (3 ∷ []) given_out
unfolding Dual.is_ready Dual.step
given_out-Reaches =
    let held = Dual.step (Dual.accepted Dual.tcp 3) Dual.listen_dual in
    Account.next (3 ∷ []) (Dual.step (Dual.put Dual.tcp) held) Dual.accept
      (Account.next (3 ∷ []) held (Dual.put Dual.tcp)
        (Account.next [] Dual.listen_dual (Dual.accepted Dual.tcp 3) Account.here refl) refl)
      refl

peer-IsReturned : IsReturned prefix_mac all_sent (1 ∷ []) (λ c. quic_peer) (λ c. peer) 3
unfolding TcpListener.is_ready TcpListener.step tcp_authenticate verify_auth_token
    compute_auth_token
peer-IsReturned = inr (
  5,
  TcpListener.step prefix_mac all_sent (1 ∷ []) TcpListener.take taken_in,
  TcpListener.go_on (some (some peer)) taken_in TcpListener.take
      (TcpListener.arrive TcpListener.begin (some peer) TcpListener.here refl) refl tt,
  refl,
)

given-IsProved_example : IsProved prefix_mac all_sent (1 ∷ []) (λ c. quic_peer) (λ c. peer) 3
unfolding Dual.step
given-IsProved_example =
    given-IsProved prefix_mac all_sent (1 ∷ []) (λ c. quic_peer) (λ c. peer) (3 ∷ []) given_out
      given_out-Reaches (peer-IsReturned, tt) 3 (omega arith)

-- Close finds the channel empty while a loop holds a connection; the loop puts it there after Close has
-- returned, and nothing closes it.
abbrev after_close : DualListener
after_close =
    Dual.step (Dual.put Dual.quic) (Dual.step Dual.close_returns (Dual.step Dual.cancel one_taken))

left_open :
    Account.Reaches (7 ∷ []) after_close
    × (after_close.returned ≡ true)
    × (after_close.queue ≡ 7 ∷ [])
unfolding Dual.is_ready Dual.step
left_open =
    let cancelled = Dual.step Dual.cancel one_taken in
    (
      Account.next (7 ∷ []) (Dual.step Dual.close_returns cancelled) (Dual.put Dual.quic)
          (Account.next (7 ∷ []) cancelled Dual.close_returns
            (Account.next (7 ∷ []) one_taken Dual.cancel
              (Account.next [] Dual.listen_dual (Dual.accepted Dual.quic 7) Account.here refl) refl)
            refl)
          refl,
      refl,
      refl,
    )
