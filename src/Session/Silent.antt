-- ===== src/Session/Silent.antt =====
-- The handlers of internal/session/session.go that send nothing on the data stream of a connection.
use goet.Prelude.{ℕ, ◌≡◌, refl, ◌∙◌, List, [], ◌∷◌, Bool, true, false}
use goet.Prelude.{Option, none, some, if◌then◌else◌, ◌==◌, ltb, ◌-◌}
use goet.Protocol.Message.{Message, resize, shutdown, data_msg, terminal_info, heartbeat, pos}
use goet.Catchup
use goet.Catchup.{Entry}
use goet.Session.{
  Effect, write_control, write_data, write_pty, resize_pty, Session, Received, message, read_error,
  StreamEvent, NewConn, note, close_conn, receive_data, dispatch, handle_received, is_current,
  handle_stream_event, replay, start_streams, replay_missed, spawn, take_hello, after_header,
  say_shutdown,
}
use goet.Session.Loop
use goet.Session.Loop.{check_beat, beat_on}
use goet.Session.Replay.{data_of, data_to, close_conn-data_to, close_conn-offline}

-- Nothing was sent on the data stream of `id`, and it did not become the current connection.
pub record Silent (id : ℕ) (s s' : Session) : Type 0 where
  pub quiet : data_to id s'.trace ≡ data_to id s.trace
  pub stays : s'.conn ≡ some id → s.conn ≡ some id

module _ (id : ℕ) where
  pub Silent-refl : (s : Session) → Silent id s s
  Silent-refl s = record { quiet = refl; stays = λ on. on }

  pub Silent-trans : {s t u : Session} → Silent id s t → Silent id t u → Silent id s u
  Silent-trans h k = record { quiet = k.quiet ∙ h.quiet; stays = λ on. h.stays (k.stays on) }

  pub close_conn-Silent : (s : Session) → Silent id s (close_conn s)
  close_conn-Silent s =
      let off = close_conn-offline s in record { quiet = close_conn-data_to id s; stays = λ on. cc }

  -- A call that is no write of data.
  note-Silent :
      (e : Effect) (s : Session)
      → data_to id (e ∷ s.trace) ≡ data_to id s.trace
      → Silent id s (note e s)
  note-Silent e s quiet = record { quiet = quiet; stays = λ on. on }

  if-Silent :
      (b : Bool) (s : Session) (x y : Session)
      → Silent id s x
      → Silent id s y
      → Silent id s (if b then x else y)
  if-Silent true s x y h k = h
  if-Silent false s x y h k = k

  if_first-Silent :
      (b : Bool) (s : Session) (x y : Session × Bool)
      → Silent id s x.0
      → Silent id s y.0
      → Silent id s (if b then x else y).0
  if_first-Silent true s x y h k = h
  if_first-Silent false s x y h k = k

module _ (fate : List Effect → Bool) (id : ℕ) where
  receive_data-Silent :
      (seq : ℕ) (payload : List ℕ) (s : Session) → Silent id s (receive_data fate seq payload s)
  unfolding receive_data
  receive_data-Silent seq payload s =
      let written = note-Silent id (write_pty payload) s refl in
      if-Silent id s.spawned s _ _
        (if-Silent id (fate (write_pty payload ∷ s.trace)) s _ _
          (record { quiet = written.quiet; stays = λ on. on }) written)
        (record { quiet = refl; stays = λ on. on })

  dispatch-Silent : (m : Message) (s : Session) → Silent id s (dispatch fate m s).0
  unfolding dispatch
  dispatch-Silent (resize rows cols) s =
      if-Silent id s.spawned s _ _ (note-Silent id (resize_pty rows cols) s refl) (Silent-refl id s)
  dispatch-Silent (data_msg seq payload) s = receive_data-Silent seq payload s
  dispatch-Silent _ s = Silent-refl id s

  handle_received-Silent : (r : Received) (s : Session) → Silent id s (handle_received fate r s).0
  handle_received-Silent (message m) s = dispatch-Silent m s
  handle_received-Silent read_error s = close_conn-Silent id s

  pub handle_stream_event-Silent :
      (ev : StreamEvent) (s : Session) → Silent id s (handle_stream_event fate ev s).0
  unfolding handle_stream_event
  handle_stream_event-Silent ev s =
      if_first-Silent id (is_current s ev.source) s _ _ (handle_received-Silent ev.received s)
        (Silent-refl id s)

  pub spawn-Silent : (term : List ℕ) (s : Session) → Silent id s (spawn fate term s).0
  unfolding spawn
  spawn-Silent term s =
      if_first-Silent id s.spawned s (s, true) _ (Silent-refl id s)
        (record { quiet = refl; stays = λ on. on })

  pub start_streams-Silent :
      (c : ℕ) (s : Session) (done : Bool) → Silent id s (start_streams fate c (s, done)).0
  unfolding start_streams
  start_streams-Silent c s true = record { quiet = refl; stays = λ on. on }
  start_streams-Silent c s false = close_conn-Silent id s

  pub say_shutdown-Silent : (c : Option ℕ) (s : Session) → Silent id s (say_shutdown fate c s)
  say_shutdown-Silent none s = Silent-refl id s
  say_shutdown-Silent (some c) s = note-Silent id (write_control c shutdown) s refl

  check_beat-Silent :
      (now last : ℕ) (s : Session) (done : Bool) → Silent id s (check_beat now last (s, done))
  unfolding check_beat
  check_beat-Silent now last s false = close_conn-Silent id s
  check_beat-Silent now last s true =
      if-Silent id (ltb Loop.recv_timeout (now - last)) s _ _ (close_conn-Silent id s)
        (Silent-refl id s)

  pub beat_on-Silent :
      (now last : ℕ) (c : Option ℕ) (s : Session) → Silent id s (beat_on fate now last c s)
  unfolding beat_on
  beat_on-Silent now last none s = Silent-refl id s
  beat_on-Silent now last (some c) s =
      let call : Effect = write_control c (heartbeat (pos now)) in
      Silent-trans id (note-Silent id call s refl)
        (check_beat-Silent now last (note call s) (fate (call ∷ s.trace)))

  -- A replay on another connection.
  replay-Silent :
      (c : ℕ) (es : List Entry) (s : Session)
      → (id == c) ≡ false
      → Silent id s (replay fate c es s).0
  unfolding replay
  replay-Silent c [] s other = Silent-refl id s
  replay-Silent c (e ∷ es) s other =
      let call : Effect = write_data c (data_of e) in
      let here = note-Silent id call s (rw other refl) in
      let rest = replay-Silent c es (note call s) other in
      if_first-Silent id (fate (call ∷ s.trace)) s _ _ (Silent-trans id here rest) here

  replay_missed-Silent :
      (nc : NewConn) (s : Session) (done : Bool)
      → (id == nc.id) ≡ false
      → Silent id s (replay_missed fate nc (s, done)).0
  unfolding replay_missed
  replay_missed-Silent nc s true other =
      let entries = Catchup.replay_since nc.last_client_seq s.buf in
      let (s', done) = replay fate nc.id entries s in
      Silent-trans id (replay-Silent nc.id entries s other) (start_streams-Silent nc.id s' done)
  replay_missed-Silent nc s false other = close_conn-Silent id s

  take_hello-Silent :
      (nc : NewConn) (r : Received) (s : Session)
      → (id == nc.id) ≡ false
      → Silent id s (take_hello fate nc r s).0
  take_hello-Silent nc (message (terminal_info term)) s other =
      let (s', done) = spawn fate term s in
      Silent-trans id (spawn-Silent term s) (replay_missed-Silent nc s' done other)
  take_hello-Silent nc (message _) s other = close_conn-Silent id s
  take_hello-Silent nc read_error s other = close_conn-Silent id s

  pub after_header-Silent :
      (nc : NewConn) (s : Session) (done : Bool)
      → (id == nc.id) ≡ false
      → Silent id s (after_header fate nc (s, done)).0
  after_header-Silent nc s true other = take_hello-Silent nc nc.hello s other
  after_header-Silent nc s false other = close_conn-Silent id s
