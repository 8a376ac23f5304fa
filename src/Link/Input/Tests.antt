-- ===== src/Link/Input/Tests.antt =====
-- The client and the session at a concrete run: a byte is typed, sent, and written to the PTY; the next one is
-- lost with the connection, and the two meet on another.
use goet.Prelude.{
  ◌++◌, ℕ, ◌≤◌, ◌≡◌, refl, List, [], ◌∷◌, length, take, Bool, true, false, none, inl, inr, arith,
}
use goet.Protocol.Message.{data_msg, sequence_header, terminal_info, pos}
use goet.Catchup
use goet.Catchup.{Entry}
use goet.Coalesce
use goet.Session
use goet.Session.{NewConn, message, read_error}
use goet.Session.Loop
use goet.Session.Runs.{session_of}
use goet.Session.History.{payloads}
use goet.Client
use goet.Client.{Effect}
use goet.Client.Escape
use goet.Client.Relay
use goet.Client.Relay.{Relay, relaying, exit_network}
use goet.Client.Run.{Greeting, Phase, connected, connect, finish}
use goet.Client.Handshake.{client_of}
use goet.Client.Sent.{data_sent}
use goet.Link.Idle.{written}
use goet.Link.Input.{Line, begin, from, Reaches, here, hear, meet, relay, leave}
use goet.Link.Input.Kept.{AreKept}
use goet.Link.Input.Order.{Reaches-types, typed_all}

abbrev all_done : List Effect → Bool
all_done es = true

abbrev session_done : List Session.Effect → Bool
session_done es = true

abbrev greeting : ℕ → Greeting
greeting n = record { header = message (sequence_header n); term = b'v' ∷ []; size = none }

abbrev offered : ℕ → NewConn
offered c = record { id = c; last_client_seq = 0; hello = message (terminal_info (b'v' ∷ [])) }

abbrev loop_of : Loop.Outcome → Loop.Loop
loop_of (Loop.running l) = l
loop_of (Loop.exited reason s) = Loop.start 0 s

abbrev relay_of : Phase → Relay
relay_of (connected r) = r
relay_of p = Relay.start 0 (client_of p)

abbrev after : Relay.Outcome → Relay
after (relaying r) = r
after _ = Relay.start 0 (Client.new (pos 0) false)

abbrev started : Line
started = begin (pos 0) (pos 0) false 0

abbrev met_on : ℕ → ℕ → Line → Line
met_on c n k = record {
  loop = Loop.step session_done 0 (Loop.accepted (offered c)) (loop_of k.loop);
  phase = connect all_done 0 false (greeting n) (client_of k.phase);
  conn = c;
  base = n;
  sent = data_sent (client_of (connect all_done 0 false (greeting n) (client_of k.phase))).trace;
  taken = 0;
}

abbrev went_on : ℕ → Relay.Event → Line → Line
went_on now ev k =
    let r = after (Relay.step all_done now ev (relay_of k.phase)) in
    record k { phase = connected r; sent = data_sent r.client.trace }

abbrev heard : ℕ → List ℕ → Line → Line
heard n bytes k = record k {
  loop = Loop.step session_done 0 (from k.conn (data_msg n bytes)) (loop_of k.loop);
  taken = 1;
}

abbrev met : Line
met = met_on 1 0 started

abbrev typing : Line
typing = went_on 1 (Relay.stdin_data (104 ∷ [])) met

abbrev flushed : Line
flushed = went_on 100 Relay.deadline typing

abbrev writing : Line
writing = heard 1 (104 ∷ []) flushed

writing-Reaches : Reaches session_done all_done (pos 0) (pos 0) false 0 ([] ∷ []) (104 ∷ []) writing
unfolding connect Client.handle_sequence_exchange Client.resend Client.send_resize Relay.start
    Relay.step Relay.on_stdin Relay.add_stdin Relay.is_ready Client.flush_stdin_coalesced
    Client.send_batch Escape.process Escape.round Escape.emit Loop.step Session.handle_stream_event
    Session.dispatch Session.receive_data Session.handle_new_conn Session.close_conn
    Session.flush_coalesced Session.spawn Session.replay_missed Session.replay Session.start_streams
    Catchup.new Catchup.new_sized Catchup.store Catchup.make_room Catchup.replay_since
    Catchup.replay_loop Coalesce.flush Coalesce.add Coalesce.fires
writing-Reaches =
    let k1 =
      meet [] [] started (loop_of started.loop) (client_of started.phase) (offered 1) 0 0 false
        (greeting 0) here refl refl refl refl refl (inl refl) in
    let k2 =
      relay ([] ∷ []) [] met (relay_of met.phase) (relay_of typing.phase) 1
        (Relay.stdin_data (104 ∷ [])) k1 refl refl refl in
    let k3 =
      relay ([] ∷ []) (104 ∷ []) typing (relay_of typing.phase) (relay_of flushed.phase) 100
        Relay.deadline k2 refl refl refl in
    hear ([] ∷ []) (104 ∷ []) flushed (loop_of flushed.loop) 0 (data_msg 1 (104 ∷ [])) [] k3 refl
      refl refl

typed_all_example :
    (older : List Entry) × AreKept ([] ∷ []) older
    × (written session_done (session_of writing.loop).trace ≡ payloads older ++ (104 ∷ []))
unfolding connect Client.handle_sequence_exchange Client.resend Client.send_resize Relay.start
    Relay.step Relay.on_stdin Relay.add_stdin Client.flush_stdin_coalesced Client.send_batch
    Escape.process Escape.round Escape.emit Loop.step Session.handle_stream_event Session.dispatch
    Session.receive_data Session.handle_new_conn Session.close_conn Session.flush_coalesced
    Session.spawn Session.replay_missed Session.replay Session.start_streams Catchup.new
    Catchup.new_sized Catchup.store Catchup.make_room Catchup.replay_since Catchup.replay_loop
    Coalesce.flush Coalesce.add
typed_all_example =
    typed_all session_done all_done (λ bytes es. refl) (pos 0) (pos 0) false 0 ([] ∷ []) (104 ∷ [])
      writing (relay_of writing.phase) writing-Reaches (omega arith) refl refl refl

-- A byte waits when the connection is lost, and the two meet again.
abbrev waiting : Line
waiting = went_on 101 (Relay.stdin_data (120 ∷ [])) writing

abbrev lost : Line
lost = record waiting { phase = finish exit_network (relay_of waiting.phase).client }

abbrev met_again : Line
met_again = met_on 2 1 lost

met_again-Reaches :
    Reaches session_done all_done (pos 0) (pos 0) false 0 ((104 ∷ 120 ∷ []) ∷ [] ∷ []) [] met_again
unfolding connect finish Client.handle_sequence_exchange Client.resend Client.send_resize
    Relay.start Relay.step Relay.on_stdin Relay.on_data Relay.add_stdin Relay.is_ready
    Client.flush_stdin_coalesced Client.send_batch Escape.process Escape.round Escape.emit Loop.step
    Session.handle_stream_event Session.dispatch Session.receive_data Session.handle_new_conn
    Session.close_conn Session.flush_coalesced Session.spawn Session.replay_missed Session.replay
    Session.start_streams Catchup.new Catchup.new_sized Catchup.store Catchup.make_room
    Catchup.replay_since Catchup.replay_loop Catchup.oldest_seq Coalesce.flush Coalesce.add
    Coalesce.fires
met_again-Reaches =
    let k1 =
      relay ([] ∷ []) (104 ∷ []) writing (relay_of writing.phase) (relay_of waiting.phase) 101
        (Relay.stdin_data (120 ∷ [])) writing-Reaches refl refl refl in
    let k2 =
      leave ([] ∷ []) (104 ∷ 120 ∷ []) waiting (relay_of waiting.phase) 101
        (Relay.data_result read_error none) exit_network (relay_of waiting.phase).client k1 refl
        refl refl in
    meet ([] ∷ []) (104 ∷ 120 ∷ []) lost (loop_of lost.loop) (client_of lost.phase) (offered 2) 0 0
      false (greeting 1) k2 refl refl refl refl refl (inr (omega arith, omega arith))

Reaches-types_example :
    (history : List Entry) × AreKept ([] ∷ (104 ∷ 120 ∷ []) ∷ [] ∷ []) history
    × ((session_of met_again.loop).recv_seq ≤ length history)
    × (written session_done (session_of met_again.loop).trace
        ≡ payloads (take (session_of met_again.loop).recv_seq history))
Reaches-types_example =
    Reaches-types session_done all_done (λ bytes es. refl) (pos 0) (pos 0) false 0
      ((104 ∷ 120 ∷ []) ∷ [] ∷ []) [] met_again met_again-Reaches (omega arith)
