-- ===== src/Transport/Dual/Proved.antt =====
-- Which connections the dual listener of internal/transport/dual_listener.go gives to the session.
use goet.Prelude.{ℕ, ◌<◌, ◌≡◌, ◌⊎◌, sym, subst, arith, inl, inr}
use goet.Prelude.{List, [], ◌∷◌, Bool, All, some, ◌==◌, ==→eq, Bool-cases}
use goet.Protocol.Message.{Message}
use goet.Transport.{Stream, read}
use goet.Transport.Accept.{IsAuthentic}
use goet.Transport.TcpListener
use goet.Transport.TcpListener.{Peer, Call}
use goet.Transport.TcpListener.Settled.{given-IsAuthentic}
use goet.Transport.Sockets
use goet.Transport.Sockets.{Effect, QuicPeer, Accepting, quic_accept}
use goet.Transport.Sockets.Clean.{Accepts, quic_accept-Accepts}
use goet.Transport.Dual.{DualListener}
use goet.Transport.Dual.Account.{count, Reaches, Reaches-places}

All-count : (P : ℕ → Type 0) (cs : List ℕ) (c : ℕ) → All P cs → 0 < count c cs → P c
All-count P [] c h some_held = absurd (omega arith)
All-count P (x ∷ xs) c h some_held = elim (Bool-cases (c == x)) [
  | inl same ↦ subst P (sym (==→eq c x same)) h.0
  | inr other ↦ All-count P xs c h.1 (omega (arith, rw other at some_held))
]

module _ (mac : List ℕ → List ℕ → List ℕ) (sends : List Message → Bool) (passkey : List ℕ)
    (quic_peer : ℕ → QuicPeer) (tls_peer : ℕ → Peer) where
  -- Accept of one of the two listeners has returned the connection.
  abbrev pub IsReturned : ℕ → Type 0
  IsReturned c =
      ((last : ℕ) × ((quic_accept mac sends passkey (some (quic_peer c))).0 ≡ Sockets.given last))
      ⊎ ((last : ℕ) × (k : Call) × TcpListener.Reaches mac sends passkey (some (some (tls_peer c)))
            k
          × (k.result ≡ some (TcpListener.given c last)))

  -- Its peer has shown the token of the passkey, and announced a number.
  abbrev pub IsProved : ℕ → Type 0
  IsProved c =
      ((last : ℕ) × (s : Stream) × (d : Stream) × ((quic_peer c).control ≡ some s)
        × ((quic_peer c).data_stream ≡ some d)
        × IsAuthentic mac passkey (quic_peer c).material (read s).0 (read d).0 last)
      ⊎ ((last : ℕ) × IsAuthentic mac passkey (tls_peer c).material (read (tls_peer c).stream).0
            (read (read (tls_peer c).stream).1).0 last)

  quic_returned-IsProved :
      (c last : ℕ) (r : Accepting × List Effect)
      → Accepts mac sends passkey (quic_peer c) r
      → r.0 ≡ Sockets.given last
      → IsProved c
  quic_returned-IsProved c last (Sockets.given n, es) (_, s, d, on, has_data, authentic) h =
      inl (n, s, d, on, has_data, authentic)
  quic_returned-IsProved c last (Sockets.no_arrival, es) a h = cc
  quic_returned-IsProved c last (Sockets.unauthentic why, es) a h = cc

  returned-IsProved : (c : ℕ) → IsReturned c → IsProved c
  returned-IsProved c (inl (last, h)) =
      quic_returned-IsProved c last (quic_accept mac sends passkey (some (quic_peer c)))
        (quic_accept-Accepts mac sends passkey (quic_peer c)) h
  returned-IsProved c (inr (last, k, reached, h)) =
      inr (last, given-IsAuthentic mac sends passkey (tls_peer c) k c last reached h)

  -- Whatever the order in which the loops, Accept and Close go on, if each connection that came to the loops was returned
  -- by the Accept of the QUIC listener or of the TCP listener: of each connection that Accept of the dual listener
  -- has given out, the token of the passkey was read, for its own keying material, and then a sequence header.
  pub given-IsProved :
      (cs : List ℕ) (d : DualListener)
      → Reaches cs d
      → All IsReturned cs
      → (c : ℕ) → 0 < count c d.given
      → IsProved c
  given-IsProved cs d reached returned c is_given =
      let (same, _) = Reaches-places cs d reached c in
      returned-IsProved c (All-count IsReturned cs c returned (omega (arith, same, is_given)))
