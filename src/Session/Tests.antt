-- ===== src/Session/Tests.antt =====
-- The session at concrete inputs.
use goet.Prelude.{
  ℕ, none, zero, suc, ◌+◌, ◌<◌, ◌≤◌, ◌≡◌, refl, List, [], ◌∷◌, ◌++◌, Bool, true, false, some,
  length, All, arith,
}
use goet.Protocol.Message.{terminal_info, data_msg, sequence_header, pos}
use goet.Catchup
use goet.Catchup.{Entry}
use goet.Catchup.Store.{new-IsValid}
use goet.Coalesce
use goet.Session
use goet.Session.{
  Effect, Session, message, StreamEvent, NewConn, new, close_conn, flush_coalesced, handle_new_conn,
  handle_stream_event,
}
use goet.Session.Loop.{Loop, pty_data, accepted, running, step, start, is_ready}
use goet.Session.History.{TracksSession}
use goet.Session.Runs.{Reaches, here, next, session_of, Reaches-Tracks}
use goet.Session.Replay.{data_to}
use goet.Session.Conns.{Resumes, handle_new_conn-Resumes}
use goet.Session.Pty.{
  sanitize_term, IsTermByte, sanitize_term-safe, terms, shell_env, term_prefix, terms-shell_env,
}
use goet.Session.Loop
use goet.Session.Exit.{
  Returned, close_listener, close_pty, cleanup_shell, clean_up, run_cases, run, printed_by,
  run_clean,
}
use goet.Session.History.{IsNumbered, payloads}
use goet.Catchup.History.{IsEndOf}
use goet.Catchup.Refine.{contents}
use goet.Session.Open.{IsLive}
use goet.Session.Open.Steps.{step-IsLive}
use goet.Session.Guards.{TakesData, data_event, handle_stream_event_recv_seq, failed_write_skipped}

abbrev all_done : List Effect → Bool
all_done es = true

abbrev hello : NewConn
hello = record { id = 1; last_client_seq = 0; hello = message (terminal_info (b'v' ∷ b't' ∷ [])) }

-- Two bytes wait, and nothing has been sent.
abbrev waiting : Session
waiting = record (new (pos 0)) {
  coal = record { buf = 104 ∷ 105 ∷ []; timer = Coalesce.running 2; armed = true };
}

-- The new connection is sent the two bytes once, although they had not been in the ring.
sent_hello :
    data_to 1 (handle_new_conn all_done hello waiting).0.trace ≡ data_msg 1 (104 ∷ 105 ∷ []) ∷ []
unfolding handle_new_conn close_conn flush_coalesced Session.send_stored Session.spawn
    Session.replay_missed Session.replay Session.start_streams Catchup.new Catchup.new_sized
    Catchup.store Catchup.make_room Catchup.replay_since Catchup.replay_loop Coalesce.flush
sent_hello = refl

waiting-Tracks : TracksSession (104 ∷ 105 ∷ []) [] waiting
waiting-Tracks = record {
  valid = (new-IsValid (pos 0)).0;
  held = ([], (new-IsValid (pos 0)).1);
  numbered = tt;
  counted = refl;
  bytes = refl;
  filled = omega arith;
}

still_current : (handle_new_conn all_done hello waiting).0.conn ≡ some 1
unfolding handle_new_conn close_conn flush_coalesced Session.send_stored Session.spawn
    Session.replay_missed Session.replay Session.start_streams Catchup.new Catchup.new_sized
    Catchup.store Catchup.make_room Catchup.replay_since Catchup.replay_loop Coalesce.flush
still_current = refl

held_oldest :
    (0 < (flush_coalesced all_done (close_conn waiting)).buf.count)
    × (Catchup.oldest_seq (flush_coalesced all_done (close_conn waiting)).buf ≤ 0 + 1)
unfolding close_conn flush_coalesced Session.send_stored Catchup.new Catchup.new_sized Catchup.store
    Catchup.make_room Catchup.oldest_seq Coalesce.flush
held_oldest = (omega arith, omega arith)

handle_new_conn-Resumes_example :
    (more : List Entry) × Resumes all_done hello
      (104 ∷ 105 ∷ [])
      more
      waiting
      (handle_new_conn all_done hello waiting).0
handle_new_conn-Resumes_example =
    handle_new_conn-Resumes all_done hello (104 ∷ 105 ∷ []) [] waiting waiting-Tracks (omega arith)
      still_current held_oldest.0 held_oldest.1

-- A shell runs, and prints two bytes.
abbrev first_loop : Loop
first_loop = record {
  session = record (new (pos 0)) {
    conn = some 1;
    spawned = true;
    trace =
        Session.start_readers 1
        ∷ Session.start_demux 1
        ∷ Session.bounce_pty
        ∷ Session.spawn_pty (b'v' ∷ b't' ∷ [])
        ∷ Session.write_control 1 (sequence_header 0)
        ∷ [];
  };
  data_on = true;
  shell_on = true;
  last_recv = 10;
}

Reaches-first : Reaches all_done (pos 0) 0 [] (running first_loop)
unfolding step handle_new_conn close_conn flush_coalesced is_ready Session.spawn
    Session.replay_missed Session.replay Session.start_streams Catchup.new Catchup.new_sized
    Catchup.replay_since Coalesce.flush Session.Pty.sanitize_term goet.Session.Pty.has_bad_byte
Reaches-first = next [] (start 0 (new (pos 0))) 10 (accepted hello) here refl

Reaches-Tracks_example :
    (history : List Entry) × TracksSession
      (104 ∷ 105 ∷ [])
      history
      (session_of (step all_done 11 (pty_data (104 ∷ 105 ∷ [])) first_loop))
Reaches-Tracks_example =
    Reaches-Tracks all_done (pos 0) 0 (104 ∷ 105 ∷ []) _
      (next [] first_loop 11 (pty_data (104 ∷ 105 ∷ [])) Reaches-first (unfold is_ready in refl))
      (omega arith)

handle_stream_event_recv_seq_example :
    TakesData all_done
      (record { source = 1; received = message (data_msg 4 (108 ∷ [])) })
      first_loop.session
      (handle_stream_event all_done
        (record { source = 1; received = message (data_msg 4 (108 ∷ [])) })
        first_loop.session).0
handle_stream_event_recv_seq_example =
    handle_stream_event_recv_seq all_done
      (record { source = 1; received = message (data_msg 4 (108 ∷ [])) }) first_loop.session

-- The write of the byte 1 to the PTY fails.
abbrev one_fails : List Effect → Bool
one_fails (Session.write_pty (suc zero ∷ []) ∷ es) = false
one_fails _ = true

-- The client's ring, which still holds both.
abbrev both_typed : Catchup.Buffer
both_typed = Catchup.store 2 (2 ∷ []) (Catchup.store 1 (1 ∷ []) (Catchup.new (pos 10)))

failed_write_skipped_example :
    let s1 = (handle_stream_event one_fails (data_event 1 1 (1 ∷ [])) first_loop.session).0 in
    let s2 = (handle_stream_event one_fails (data_event 1 2 (2 ∷ [])) s1).0 in
    All (λ (e : Entry). 1 < e.seq) (Catchup.replay_since s2.recv_seq both_typed)
failed_write_skipped_example =
    failed_write_skipped one_fails first_loop.session 1 1 2 (1 ∷ []) (2 ∷ []) both_typed refl refl
      refl refl (omega arith)

sanitize_term-safe_example :
    (0 < length (sanitize_term (b'v' ∷ b'=' ∷ [])))
    × (length (sanitize_term (b'v' ∷ b'=' ∷ [])) ≤ 128)
    × All IsTermByte (sanitize_term (b'v' ∷ b'=' ∷ []))
sanitize_term-safe_example = sanitize_term-safe (b'v' ∷ b'=' ∷ [])

terms-shell_env_example :
    terms (shell_env ((b'A' ∷ b'=' ∷ []) ∷ []) (b'1' ∷ []) (b'v' ∷ b't' ∷ []))
    ≡ (term_prefix ++ sanitize_term (b'v' ∷ b't' ∷ [])) ∷ []
terms-shell_env_example = terms-shell_env ((b'A' ∷ b'=' ∷ []) ∷ []) (b'1' ∷ []) (b'v' ∷ b't' ∷ [])

-- A second connection replaces the first.
abbrev again : NewConn
again = record { id = 2; last_client_seq = 0; hello = message (terminal_info (b'v' ∷ [])) }

first_loop-IsLive : IsLive first_loop.session
first_loop-IsLive = record { clean = (refl, (refl, (tt, (tt, (refl, tt))))); current = refl }

step-IsLive_example : IsLive (session_of (step all_done 20 (accepted again) first_loop))
step-IsLive_example =
    step-IsLive all_done 20 (accepted again) first_loop first_loop-IsLive
      (unfold close_conn in refl)

abbrev cases : List (ℕ × Loop.Event)
cases = (5, accepted hello) ∷ (6, pty_data (104 ∷ 105 ∷ [])) ∷ (7, Loop.shell_exited false) ∷ []

abbrev after_exit : Returned
after_exit = record {
  reason = Loop.clean_shutdown;
  session =
      (clean_up true (session_of (run_cases all_done cases (running (start 0 (new (pos 0))))))).0;
  calls = close_listener ∷ close_pty ∷ [];
}

run_clean_example :
    (history : List Entry) × IsNumbered 1 history
    × (payloads history ≡ printed_by all_done cases (running (start 0 (new (pos 0)))))
    × IsEndOf history (contents after_exit.session.buf)
    × (after_exit.session.conn ≡ none)
    × (after_exit.session.coal.timer ≡ Coalesce.stopped)
unfolding run run_cases clean_up cleanup_shell step Loop.on_pty_data handle_new_conn close_conn
    flush_coalesced Session.send_stored Session.spawn Session.replay_missed Session.replay
    Session.start_streams Session.graceful_shutdown Catchup.new Catchup.new_sized Catchup.store
    Catchup.make_room Catchup.replay_since Catchup.replay_loop Coalesce.flush Coalesce.add
    Coalesce.stop
run_clean_example = run_clean all_done (pos 0) true 0 cases after_exit refl refl (omega arith)
