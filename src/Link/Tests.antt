-- ===== src/Link/Tests.antt =====
-- The client and the session at a concrete run: two bytes are printed, sent, and shown.
use goet.Prelude.{
  ◌++◌, ℕ, ◌≤◌, ◌≡◌, refl, List, [], ◌∷◌, length, take, Bool, true, false, none, some, inl, inr,
  arith,
}
use goet.Protocol.Message.{data_msg, sequence_header, terminal_info, pos}
use goet.Catchup
use goet.Catchup.{Entry}
use goet.Coalesce
use goet.Session
use goet.Session.{Session, NewConn, message, read_error}
use goet.Session.Loop
use goet.Session.Runs.{session_of}
use goet.Session.History.{payloads, TracksSession}
use goet.Client
use goet.Client.{Effect, Client}
use goet.Client.Relay
use goet.Client.Relay.{Relay, relaying, exit_network}
use goet.Client.Shown.{shown}
use goet.Client.Run.{Greeting, Phase, connected, connect, finish}
use goet.Client.Handshake.{client_of}
use goet.Link.{Link, begin, Reaches, here, serve, redial, relay, leave}
use goet.Link.Output.{Reaches-shows, shown_all}

abbrev all_done : List Effect → Bool
all_done es = true

abbrev session_done : List Session.Effect → Bool
session_done es = true

abbrev hi : List ℕ
hi = 104 ∷ 105 ∷ []

abbrev greeting : Greeting
greeting = record { header = message (sequence_header 0); term = b'v' ∷ []; size = some (24, 80) }

abbrev offered : NewConn
offered = record { id = 1; last_client_seq = 0; hello = message (terminal_info (b'v' ∷ [])) }

abbrev loop_of : Loop.Outcome → Loop.Loop
loop_of (Loop.running l) = l
loop_of (Loop.exited reason s) = Loop.start 0 s

abbrev relay_of : Phase → Relay
relay_of (connected r) = r
relay_of p = Relay.start 0 (client_of p)

abbrev after : Relay.Outcome → Relay
after (relaying r) = r
after _ = Relay.start 0 (Client.new (pos 0) false)

abbrev started : Link
started = begin (pos 0) (pos 0) false 0

abbrev dialled : Link
dialled = record started {
  phase = connect all_done 0 false greeting (client_of started.phase);
  conn = 1;
}

abbrev served : Link → Loop.Event → Link
served k ev = record k { loop = Loop.step session_done 5 ev (loop_of k.loop) }

abbrev accepted : Link
accepted = served dialled (Loop.accepted offered)

abbrev printing : Link
printing = served accepted (Loop.pty_data hi)

abbrev flushing : Link
flushing = record printing {
  loop = Loop.step session_done 100 Loop.deadline (loop_of printing.loop);
}

abbrev data_arrived : Relay.Event
data_arrived = Relay.data_result (message (data_msg 1 hi)) none

abbrev showing : Link
showing = record flushing {
  phase = connected (after (Relay.step all_done 100 data_arrived (relay_of flushing.phase)));
  taken = 1;
}

showing-Reaches : Reaches session_done all_done (pos 0) (pos 0) false 0 hi showing
unfolding connect Client.handle_sequence_exchange Client.resend Client.send_resize Relay.start
    Relay.step Relay.on_data Relay.is_ready Loop.step Loop.is_ready Loop.on_pty_data
    Loop.on_deadline Session.handle_new_conn Session.close_conn Session.flush_coalesced
    Session.send_stored Session.spawn Session.replay_missed Session.replay Session.start_streams
    Catchup.new Catchup.new_sized Catchup.store Catchup.make_room Catchup.replay_since
    Catchup.replay_loop Coalesce.flush Coalesce.add Coalesce.fires
showing-Reaches =
    let k1 =
      redial [] started (client_of started.phase) 1 0 false greeting here refl refl
        (λ on. ground arith) in
    let k2 =
      serve [] dialled (loop_of dialled.loop) 5 (Loop.accepted offered) k1 refl refl
        (inr (refl, refl, refl, inl refl)) in
    let k3 = serve [] accepted (loop_of accepted.loop) 5 (Loop.pty_data hi) k2 refl refl tt in
    let k4 = serve hi printing (loop_of printing.loop) 100 Loop.deadline k3 refl refl tt in
    relay hi flushing (relay_of flushing.phase)
      (after (Relay.step all_done 100 data_arrived (relay_of flushing.phase))) 100 data_arrived k4
      refl refl (refl, tt) refl

Reaches-shows_example :
    (history : List Entry) × TracksSession hi history (session_of showing.loop)
    × ((client_of showing.phase).recv_seq ≤ length history)
    × (shown all_done (client_of showing.phase).trace
        ≡ payloads (take (client_of showing.phase).recv_seq history))
Reaches-shows_example =
    Reaches-shows session_done all_done (pos 0) (pos 0) false 0 hi showing showing-Reaches
      (omega arith)

-- The connection is lost, the session still writes to it, and the client dials again.
abbrev more : List ℕ
more = 33 ∷ []

abbrev lost : Link
lost = record showing { phase = finish exit_network (client_of showing.phase) }

abbrev printing_more : Link
printing_more = served lost (Loop.pty_data more)

abbrev unheard : Link
unheard = record printing_more {
  loop = Loop.step session_done 200 Loop.deadline (loop_of printing_more.loop);
}

abbrev redialled : Link
redialled = record {
  loop = unheard.loop;
  phase = connect all_done 200 false greeting (client_of unheard.phase);
  conn = 2;
  base = 1;
  taken = 0;
}

abbrev offered_again : NewConn
offered_again = record { id = 2; last_client_seq = 1; hello = message (terminal_info (b'v' ∷ [])) }

abbrev accepted_again : Link
accepted_again = served redialled (Loop.accepted offered_again)

abbrev more_arrived : Relay.Event
more_arrived = Relay.data_result (message (data_msg 2 more)) none

abbrev showing_more : Link
showing_more = record accepted_again {
  phase = connected (after (Relay.step all_done 300 more_arrived (relay_of accepted_again.phase)));
  taken = 1;
}

showing_more-Reaches :
    Reaches session_done all_done (pos 0) (pos 0) false 0 (hi ++ more) showing_more
unfolding connect finish Client.handle_sequence_exchange Client.resend Client.send_resize
    Relay.start Relay.step Relay.on_data Relay.is_ready Loop.step Loop.is_ready Loop.on_pty_data
    Loop.on_deadline Session.handle_new_conn Session.close_conn Session.flush_coalesced
    Session.send_stored Session.spawn Session.replay_missed Session.replay Session.start_streams
    Catchup.new Catchup.new_sized Catchup.store Catchup.make_room Catchup.replay_since
    Catchup.replay_loop Catchup.oldest_seq Coalesce.flush Coalesce.add Coalesce.fires
showing_more-Reaches =
    let k1 =
      leave hi showing (relay_of showing.phase) 150 (Relay.data_result read_error none) exit_network
        (client_of showing.phase) showing-Reaches refl refl tt refl in
    let k2 = serve hi lost (loop_of lost.loop) 5 (Loop.pty_data more) k1 refl refl tt in
    let k3 =
      serve (hi ++ more) printing_more (loop_of printing_more.loop) 200 Loop.deadline k2 refl refl
        tt in
    let k4 =
      redial (hi ++ more) unheard (client_of unheard.phase) 2 200 false greeting k3 refl refl
        (λ on. ground arith) in
    let k5 =
      serve (hi ++ more) redialled (loop_of redialled.loop) 5 (Loop.accepted offered_again) k4 refl
        refl (inr (refl, refl, refl, inr (omega arith, omega arith))) in
    relay (hi ++ more) accepted_again (relay_of accepted_again.phase)
      (after (Relay.step all_done 300 more_arrived (relay_of accepted_again.phase))) 300
      more_arrived k5 refl refl (refl, tt) refl

shown_all_example : shown all_done (client_of showing_more.phase).trace ≡ hi ++ more
unfolding connect finish Client.handle_sequence_exchange Client.resend Client.send_resize
    Relay.start Relay.step Relay.on_data Relay.is_ready Loop.step Loop.is_ready Loop.on_pty_data
    Loop.on_deadline Session.handle_new_conn Session.close_conn Session.flush_coalesced
    Session.send_stored Session.spawn Session.replay_missed Session.replay Session.start_streams
    Catchup.new Catchup.new_sized Catchup.store Catchup.make_room Catchup.replay_since
    Catchup.replay_loop Catchup.oldest_seq Coalesce.flush Coalesce.add Coalesce.fires
shown_all_example =
    shown_all session_done all_done (pos 0) (pos 0) false 0 (hi ++ more) showing_more
      showing_more-Reaches (omega arith) refl refl
