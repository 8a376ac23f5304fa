-- ===== src/Link/Idle.antt =====
-- The handlers of internal/session/session.go that write nothing to the PTY.
use goet.Prelude.{ℕ, ◌-◌, ◌≡◌, refl, ◌∙◌}
use goet.Prelude.{List, [], ◌∷◌, ◌++◌, Bool, true, false}
use goet.Prelude.{Option, none, some, if◌then◌else◌, ltb}
use goet.Protocol.Message.{Message, data_msg, terminal_info, sequence_header, heartbeat, pos}
use goet.Catchup
use goet.Catchup.{Entry}
use goet.Coalesce
use goet.Session.{
  Effect, write_control, write_data, write_pty, Session, Received, message, read_error, NewConn,
  note, close_conn, perform, or_close, send_stored, keep, send_batch, flush_coalesced, replay,
  start_streams, replay_missed, spawn, take_hello, after_header, handle_new_conn, graceful_shutdown,
  say_shutdown,
}
use goet.Session.Loop
use goet.Session.Loop.{
  Loop, Event, pty_data, pty_closed, deadline, stream, accepted, accept_failed, heartbeat_tick,
  shell_exited, cancelled, on_pty_data, on_deadline, check_beat, beat_on, step, is_heard, exited,
  running, context_done,
}

-- The bytes of the writes to the PTY that succeeded.
abbrev pub written : (List Effect → Bool) → List Effect → List ℕ
written fate [] = []
written fate (write_pty bytes ∷ es) =
    let before = written fate es in if fate (write_pty bytes ∷ es) then before ++ bytes else before
written fate (_ ∷ es) = written fate es

module _ (fate : List Effect → Bool) where
  -- Nothing was written to the PTY, and nothing received.
  pub record Idle (s s' : Session) : Type 0 where
    pub typed : written fate s'.trace ≡ written fate s.trace
    pub heard : s'.recv_seq ≡ s.recv_seq

  pub Idle-refl : (s : Session) → Idle s s
  Idle-refl s = record { typed = refl; heard = refl }

  pub Idle-trans : {s t u : Session} → Idle s t → Idle t u → Idle s u
  Idle-trans h k = record { typed = k.typed ∙ h.typed; heard = k.heard ∙ h.heard }

  pub if-Idle : (b : Bool) (s x y : Session) → Idle s x → Idle s y → Idle s (if b then x else y)
  if-Idle true s x y h k = h
  if-Idle false s x y h k = k

  pub if_first-Idle :
      (b : Bool) (s : Session) (x y : Session × Bool)
      → Idle s x.0
      → Idle s y.0
      → Idle s (if b then x else y).0
  if_first-Idle true s x y h k = h
  if_first-Idle false s x y h k = k

  pub close_at-Idle : (s : Session) (o : Option ℕ) → s.conn ≡ o → Idle s (close_conn s)
  unfolding close_conn
  close_at-Idle s none off = rw off (record { typed = refl; heard = refl })
  close_at-Idle s (some c) on = rw on (record { typed = refl; heard = refl })

  pub close_conn-Idle : (s : Session) → Idle s (close_conn s)
  close_conn-Idle s = close_at-Idle s s.conn refl

  pub write_at-Idle :
      (o : Option ℕ) (m : Message) (s : Session)
      → Idle s (elim o [ none ↦ s | some c ↦ or_close fate (perform fate (write_data c m) s) ])
  write_at-Idle none m s = Idle-refl s
  write_at-Idle (some c) m s =
      let sent : Idle s (note (write_data c m) s) = record { typed = refl; heard = refl } in
      if-Idle (fate (write_data c m ∷ s.trace)) s _ _ sent
        (Idle-trans sent (close_conn-Idle (note (write_data c m) s)))

  pub send_batch-Idle :
      (coal : Coalesce.Coalescer) (batch : Option (List ℕ)) (s : Session)
      → Idle s (send_batch fate coal batch s)
  unfolding send_stored
  send_batch-Idle coal none s = Idle-refl s
  send_batch-Idle coal (some bytes) s =
      let kept = keep fate bytes (record s { coal = coal }) in
      Idle-trans (record { typed = refl; heard = refl })
        (write_at-Idle kept.conn (data_msg kept.send_seq bytes) kept)

  pub flush_coalesced-Idle : (s : Session) → Idle s (flush_coalesced fate s)
  unfolding flush_coalesced
  flush_coalesced-Idle s = send_batch-Idle (Coalesce.flush s.coal).0 (Coalesce.flush s.coal).1 s

  pub on_pty_data-Idle :
      (now : ℕ) (bytes : List ℕ) (s : Session) → Idle s (on_pty_data fate now bytes s)
  unfolding on_pty_data
  on_pty_data-Idle now bytes s =
      let s' : Session = record s { coal = (Coalesce.add now bytes s.coal).0 } in
      let added : Idle s s' = record { typed = refl; heard = refl } in
      if-Idle (Coalesce.add now bytes s.coal).1 s _ _ (Idle-trans added (flush_coalesced-Idle s'))
        added

  pub say_shutdown-Idle : (c : Option ℕ) (s : Session) → Idle s (say_shutdown fate c s)
  say_shutdown-Idle none s = Idle-refl s
  say_shutdown-Idle (some c) s = record { typed = refl; heard = refl }

  pub graceful_shutdown-Idle : (s : Session) → Idle s (graceful_shutdown fate s)
  unfolding graceful_shutdown
  graceful_shutdown-Idle s =
      let f = flush_coalesced fate s in
      Idle-trans (flush_coalesced-Idle s) (say_shutdown-Idle f.conn f)

  pub check_beat-Idle :
      (now last : ℕ) (s : Session) (done : Bool) → Idle s (check_beat now last (s, done))
  unfolding check_beat
  check_beat-Idle now last s false = close_conn-Idle s
  check_beat-Idle now last s true =
      if-Idle (ltb Loop.recv_timeout (now - last)) s _ _ (close_conn-Idle s) (Idle-refl s)

  pub beat_on-Idle :
      (now last : ℕ) (c : Option ℕ) (s : Session) → Idle s (beat_on fate now last c s)
  unfolding beat_on
  beat_on-Idle now last none s = Idle-refl s
  beat_on-Idle now last (some c) s =
      let call : Effect = write_control c (heartbeat (pos now)) in
      Idle-trans (record { typed = refl; heard = refl })
        (check_beat-Idle now last (note call s) (fate (call ∷ s.trace)))

  pub start_streams-Idle :
      (c : ℕ) (s : Session) (done : Bool) → Idle s (start_streams fate c (s, done)).0
  unfolding start_streams
  start_streams-Idle c s true = record { typed = refl; heard = refl }
  start_streams-Idle c s false = close_conn-Idle s

  pub replay-Idle : (c : ℕ) (es : List Entry) (s : Session) → Idle s (replay fate c es s).0
  unfolding replay
  replay-Idle c [] s = Idle-refl s
  replay-Idle c (e ∷ es) s =
      let call : Effect = write_data c (data_msg e.seq e.payload) in
      let sent : Idle s (note call s) = record { typed = refl; heard = refl } in
      if_first-Idle (fate (call ∷ s.trace)) s _ _ (Idle-trans sent (replay-Idle c es (note call s)))
        sent

  pub replay_missed-Idle :
      (nc : NewConn) (s : Session) (done : Bool) → Idle s (replay_missed fate nc (s, done)).0
  unfolding replay_missed
  replay_missed-Idle nc s true =
      let entries = Catchup.replay_since nc.last_client_seq s.buf in
      let (s', done) = replay fate nc.id entries s in
      Idle-trans (replay-Idle nc.id entries s) (start_streams-Idle nc.id s' done)
  replay_missed-Idle nc s false = close_conn-Idle s

  pub spawn-Idle : (term : List ℕ) (s : Session) → Idle s (spawn fate term s).0
  unfolding spawn
  spawn-Idle term s =
      if_first-Idle s.spawned s (s, true) _ (Idle-refl s) (record { typed = refl; heard = refl })

  pub take_hello-Idle :
      (nc : NewConn) (r : Received) (s : Session) → Idle s (take_hello fate nc r s).0
  take_hello-Idle nc (message (terminal_info term)) s =
      let (s', done) = spawn fate term s in
      Idle-trans (spawn-Idle term s) (replay_missed-Idle nc s' done)
  take_hello-Idle nc (message _) s = close_conn-Idle s
  take_hello-Idle nc read_error s = close_conn-Idle s

  pub after_header-Idle :
      (nc : NewConn) (s : Session) (done : Bool) → Idle s (after_header fate nc (s, done)).0
  after_header-Idle nc s true = take_hello-Idle nc nc.hello s
  after_header-Idle nc s false = close_conn-Idle s

  pub handle_new_conn-Idle : (nc : NewConn) (s : Session) → Idle s (handle_new_conn fate nc s).0
  unfolding handle_new_conn
  handle_new_conn-Idle nc s =
      let f = flush_coalesced fate (close_conn s) in
      let s' : Session = record f { conn = some nc.id } in
      let call : Effect = write_control nc.id (sequence_header s'.recv_seq) in
      let begun : Idle f (note call s') = record { typed = refl; heard = refl } in
      Idle-trans (close_conn-Idle s) (
        Idle-trans (flush_coalesced-Idle (close_conn s))
          (Idle-trans begun (after_header-Idle nc (note call s') (fate (call ∷ s'.trace)))))
