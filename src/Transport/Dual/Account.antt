-- ===== src/Transport/Dual/Account.antt =====
-- What becomes of the connections that internal/transport/dual_listener.go accepts.
use goet.Prelude.{
  ℕ, ◌+◌, ◌≤◌, ◌≡◌, refl, arith, List, [], ◌∷◌, ◌++◌, length, length-append, true, Option, none,
  some,
}
use goet.Prelude.{◌==◌, if◌then◌else◌}
use goet.Transport.Dual.{
  DualListener, listen_dual, quic, tcp, Event, accepted, accept_failed, put, give_up, accept,
  cancel, drain, close_returns, queue_size, is_ready, step,
}

-- How often a connection is in a list.
abbrev pub count : ℕ → List ℕ → ℕ
count c [] = 0
count c (d ∷ ds) = (if c == d then 1 else 0) + count c ds

count-append : (c : ℕ) (xs ys : List ℕ) → count c (xs ++ ys) ≡ count c xs + count c ys
count-append c [] ys = omega arith
count-append c (x ∷ xs) ys = omega (arith, count-append c xs ys)

abbrev pub count_held : ℕ → Option ℕ → ℕ
count_held c none = 0
count_held c (some d) = if c == d then 1 else 0

-- How often it waits in a loop or in the channel, was given out, or was closed.
abbrev pub places : ℕ → DualListener → ℕ
places c d =
    count_held c d.quic.held
    + (count_held c d.tcp.held + (count c d.queue + (count c d.given + count c d.closed)))

abbrev pub admits : Event → List ℕ
admits (accepted n c) = c ∷ []
admits _ = []

-- What can come about, and the connections that the two listeners have accepted by then, last first.
pub data Reaches : List ℕ → DualListener → Type 0 where
  here : Reaches [] listen_dual
  next :
      (cs : List ℕ) (d : DualListener) (ev : Event)
      → Reaches cs d
      → is_ready ev d ≡ true
      → Reaches (admits ev ++ cs) (step ev d)

step-places :
    (c : ℕ) (ev : Event) (d : DualListener)
    → is_ready ev d ≡ true
    → places c (step ev d) ≡ count c (admits ev) + places c d
unfolding step is_ready
step-places c (accepted quic x) d ready = ground arith
step-places c (accepted tcp x) d ready = ground arith
step-places c (accept_failed quic) d ready = ground arith
step-places c (accept_failed tcp) d ready = ground arith
step-places c (put quic) d ready = grind (arith, count-append)
step-places c (put tcp) d ready = grind (arith, count-append)
step-places c (give_up quic) d ready = ground arith
step-places c (give_up tcp) d ready = ground arith
step-places c accept d ready = ground arith
step-places c cancel d ready = omega arith
step-places c drain d ready = ground arith
step-places c close_returns d ready = omega arith

step-room :
    (ev : Event) (d : DualListener)
    → is_ready ev d ≡ true
    → length d.queue ≤ queue_size
    → length (step ev d).queue ≤ queue_size
unfolding step is_ready
step-room (accepted quic x) d ready h = h
step-room (accepted tcp x) d ready h = h
step-room (accept_failed quic) d ready h = ground arith
step-room (accept_failed tcp) d ready h = ground arith
step-room (put quic) d ready h = grind (arith, length-append)
step-room (put tcp) d ready h = grind (arith, length-append)
step-room (give_up quic) d ready h = ground arith
step-room (give_up tcp) d ready h = ground arith
step-room accept d ready h = ground arith
step-room cancel d ready h = h
step-room drain d ready h = ground arith
step-room close_returns d ready h = h

-- Whatever the order in which the loops, Accept and Close go on: each connection that a listener accepted is, as often as
-- it was accepted, held by its loop, in the channel, given out by Accept, or closed, and the channel holds four at
-- most. None is lost, given out twice, or given out and closed.
pub Reaches-places :
    (cs : List ℕ) (d : DualListener)
    → Reaches cs d
    → (c : ℕ) → (places c d ≡ count c cs) × (length d.queue ≤ queue_size)
Reaches-places _ _ here c = (refl, omega arith)
Reaches-places _ _ (next cs d ev before ready) c =
    let (same, room) = Reaches-places cs d before c in
    (
      omega (arith, step-places c ev d ready, same, count-append c (admits ev) cs),
      step-room ev d ready room,
    )
