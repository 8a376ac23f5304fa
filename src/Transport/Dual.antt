-- ===== src/Transport/Dual.antt =====
-- internal/transport/dual_listener.go: the two accept loops, the channel between them and Accept, and Close. A
-- connection is a number, and an event says what the Accept of a listener gives: see TcpListener and Sockets.
pub mod Account
pub mod Proved
use goet.Prelude.{
  ℕ, ◌+◌, ◌≡◌, List, [], ◌∷◌, ◌++◌, Bool, true, false, ◌&&◌, not, Option, none, some,
}
use goet.Prelude.{ltb, if◌then◌else◌, length}

-- An accept loop: whether it runs, and the connection that it waits to put in the channel.
pub record AcceptLoop : Type 0 where
  pub on : Bool
  pub held : Option ℕ

-- `queue` is connCh, `given` what Accept has returned, and `closed` the connections that were closed, last first.
-- `returned` says that Close has found the channel empty.
pub record DualListener : Type 0 where
  pub quic : AcceptLoop
  pub tcp : AcceptLoop
  pub queue : List ℕ
  pub cancelled : Bool
  pub returned : Bool
  pub given : List ℕ
  pub closed : List ℕ

abbrev pub begun : AcceptLoop
begun = record { on = true; held = none }

-- ListenDual
abbrev pub listen_dual : DualListener
listen_dual = record {
  quic = begun;
  tcp = begun;
  queue = [];
  cancelled = false;
  returned = false;
  given = [];
  closed = [];
}

pub data Network : Type 0 where
  quic tcp : Network

pub data Event : Type 0 where
  accepted : Network → ℕ → Event
  accept_failed put give_up : Network → Event
  accept cancel drain close_returns : Event

abbrev pub loop_of : Network → DualListener → AcceptLoop
loop_of quic d = d.quic
loop_of tcp d = d.tcp

abbrev pub with_loop : Network → AcceptLoop → DualListener → DualListener
with_loop quic l d = record d { quic = l }
with_loop tcp l d = record d { tcp = l }

abbrev pub queue_size : ℕ
queue_size = 4

abbrev pub is_held : Option ℕ → Bool
is_held none = false
is_held (some c) = true

abbrev pub has_some : List ℕ → Bool
has_some [] = false
has_some (c ∷ cs) = true

-- A send waits for room in the channel, and a receive for a connection; Close drains until the channel is empty.
unfoldable pub is_ready : Event → DualListener → Bool
is_ready (accepted n c) d = (loop_of n d).on && not (is_held (loop_of n d).held)
is_ready (accept_failed n) d = (loop_of n d).on && not (is_held (loop_of n d).held)
is_ready (put n) d = is_held (loop_of n d).held && ltb (length d.queue) queue_size
is_ready (give_up n) d = is_held (loop_of n d).held && d.cancelled
is_ready accept d = has_some d.queue
is_ready cancel d = not d.cancelled
is_ready drain d = has_some d.queue && (d.cancelled && not d.returned)
is_ready close_returns d = not (has_some d.queue) && (d.cancelled && not d.returned)

abbrev pub put_in : Network → Option ℕ → DualListener → DualListener
put_in n none d = d
put_in n (some c) d =
    with_loop n (record { on = true; held = none }) (record d { queue = d.queue ++ (c ∷ []) })

abbrev pub close_held : Network → Option ℕ → DualListener → DualListener
close_held n none d = d
close_held n (some c) d =
    with_loop n (record { on = false; held = none }) (record d { closed = c ∷ d.closed })

abbrev pub take_next : List ℕ → DualListener → DualListener
take_next [] d = d
take_next (c ∷ cs) d = record d { queue = cs; given = c ∷ d.given }

abbrev pub drain_next : List ℕ → DualListener → DualListener
drain_next [] d = d
drain_next (c ∷ cs) d = record d { queue = cs; closed = c ∷ d.closed }

unfoldable pub step : Event → DualListener → DualListener
step (accepted n c) d = with_loop n (record { on = true; held = some c }) d
step (accept_failed n) d =
    if d.cancelled then with_loop n (record { on = false; held = none }) d else d
step (put n) d = put_in n (loop_of n d).held d
step (give_up n) d = close_held n (loop_of n d).held d
step accept d = take_next d.queue d
step cancel d = record d { cancelled = true }
step drain d = drain_next d.queue d
step close_returns d = record d { returned = true }
