-- ===== src/Session/Guards.antt =====
-- What an event from a connection can do to the session of internal/session/session.go.
use goet.Prelude.{ℕ, ◌≡◌, ◌↔◌, refl, sym, ap, ◌∙◌, arith, inl, inr}
use goet.Prelude.{List, ◌∷◌, Bool, true, false, Bool-cases, some, if◌then◌else◌, ◌⊎◌, ==_refl}
use goet.Protocol.Message.{Message, resize, shutdown, data_msg}
use goet.Prelude.{[], ◌<◌, All, ltb, ltb→lt}
use goet.Catchup.{Entry, Buffer, replay_since}
use goet.Catchup.Spec.{newer}
use goet.Catchup.Refine.{contents}
use goet.Catchup.Replay.{replay_since-newer}
use goet.Session.{
  Effect, write_pty, Session, Received, message, read_error, StreamEvent, close_conn, is_current,
  note, receive_data, dispatch, handle_received, handle_stream_event,
}

newer-later :
    (seq after : ℕ) (es : List Entry)
    → seq < after
    → All (λ (e : Entry). seq < e.seq) (newer after es)
unfolding newer
newer-later seq after [] h = tt
newer-later seq after (e ∷ es) h = elim (Bool-cases (ltb after e.seq)) [
  | inl later ↦ rw later (omega (arith, ltb→lt after e.seq later), newer-later seq after es h)
  | inr seen ↦ rw seen (newer-later seq after es h)
]

if_true {ℓ} : {A : Type ℓ} {b : Bool} (x y : A) → b ≡ true → (if b then x else y) ≡ x
if_true x y h = rw h refl

if_false {ℓ} : {A : Type ℓ} {b : Bool} (x y : A) → b ≡ false → (if b then x else y) ≡ y
if_false x y h = rw h refl

abbrev pub data_event : ℕ → ℕ → List ℕ → StreamEvent
data_event source seq payload = record {
  source = source;
  received = message (data_msg seq payload);
}

abbrev refused : Session → Session × Bool
refused s = (s, false)

is_current-conn : (s : Session) (source : ℕ) → is_current s source ≡ true → s.conn ≡ some source
is_current-conn s source h = ground arith

pub conn-is_current : (s : Session) (source : ℕ) → s.conn ≡ some source → is_current s source ≡ true
conn-is_current s source h = rw h (==_refl source)

module _ (fate : List Effect → Bool) where
  dispatch-stops : (m : Message) (s : Session) → (dispatch fate m s).1 ≡ true → m ≡ shutdown
  unfolding dispatch
  dispatch-stops shutdown s h = refl
  dispatch-stops (resize rows cols) s h = cc
  dispatch-stops (data_msg seq payload) s h = cc
  dispatch-stops _ s h = cc

  handle_received-stops :
      (r : Received) (s : Session) → (handle_received fate r s).1 ≡ true → r ≡ message shutdown
  handle_received-stops (message m) s h = ap message (dispatch-stops m s h)
  handle_received-stops read_error s h = cc

  -- A stream event ends the session exactly if it is a Shutdown from the current connection.
  pub handle_stream_event_stops_iff :
      (ev : StreamEvent) (s : Session)
      → ((handle_stream_event fate ev s).1 ≡ true)
        ↔ ((s.conn ≡ some ev.source) × (ev.received ≡ message shutdown))
  unfolding handle_stream_event
  handle_stream_event_stops_iff ev s = elim (Bool-cases (is_current s ev.source)) [
    | inl current ↦ rw current (
      λ h. (is_current-conn s ev.source current, handle_received-stops ev.received s h),
      λ (_, told). rw told (unfold dispatch in refl),
    )
    | inr stale ↦ rw stale (λ h. cc, λ (mine, _). sym stale ∙ conn-is_current s ev.source mine)
  ]

  -- The number last received stays, or it is that of a Data from the current connection whose payload
  -- was written to the PTY, if there is one.
  pub data TakesData (ev : StreamEvent) (s s' : Session) : Type 0 where
    stays : s'.recv_seq ≡ s.recv_seq → TakesData ev s s'
    takes :
        (seq : ℕ) (payload : List ℕ)
        → s.conn ≡ some ev.source
        → ev.received ≡ message (data_msg seq payload)
        → (s.spawned ≡ true → fate (write_pty payload ∷ s.trace) ≡ true)
        → s'.recv_seq ≡ seq
        → TakesData ev s s'

  receive_data_cases :
      (seq : ℕ) (payload : List ℕ) (s : Session)
      → ((receive_data fate seq payload s).recv_seq ≡ s.recv_seq)
        ⊎ ((s.spawned ≡ true → fate (write_pty payload ∷ s.trace) ≡ true)
            × ((receive_data fate seq payload s).recv_seq ≡ seq))
  unfolding receive_data
  receive_data_cases seq payload s = elim (Bool-cases s.spawned) [
    | inl on ↦ elim (Bool-cases (fate (write_pty payload ∷ s.trace))) [
      | inl done ↦ inr (λ h. done, ground arith)
      | inr failed ↦ inl (ground arith)
    ]
    | inr off ↦ inr (λ h. cc, ground arith)
  ]

  close_conn-recv_seq : (s : Session) → (close_conn s).recv_seq ≡ s.recv_seq
  unfolding close_conn
  close_conn-recv_seq s = ground arith

  handle_received_recv_seq :
      (source : ℕ) (r : Received) (s : Session)
      → s.conn ≡ some source
      → TakesData (record { source = source; received = r }) s (handle_received fate r s).0
  unfolding dispatch
  handle_received_recv_seq source read_error s on = stays (close_conn-recv_seq s)
  handle_received_recv_seq source (message (data_msg seq payload)) s on =
      elim (receive_data_cases seq payload s) [
        | inl same ↦ stays same
        | inr (written, now) ↦ takes seq payload on refl written now
      ]
  handle_received_recv_seq source (message (resize rows cols)) s on = stays (ground arith)
  handle_received_recv_seq source (message _) s on = stays refl

  -- A stream event leaves the number last received as it is, or sets it to that of a Data from the
  -- current connection, whose payload was written to the PTY if there is one.
  pub handle_stream_event_recv_seq :
      (ev : StreamEvent) (s : Session) → TakesData ev s (handle_stream_event fate ev s).0
  unfolding handle_stream_event
  handle_stream_event_recv_seq ev s = elim (Bool-cases (is_current s ev.source)) [
    | inl current ↦
        rw current
          (handle_received_recv_seq ev.source ev.received s (is_current-conn s ev.source current))
    | inr stale ↦ rw stale (stays refl)
  ]

  receive_data_fails :
      (s : Session) (seq : ℕ) (payload : List ℕ)
      → s.spawned ≡ true
      → fate (write_pty payload ∷ s.trace) ≡ false
      → receive_data fate seq payload s ≡ note (write_pty payload) s
  unfolding receive_data
  receive_data_fails s seq payload spawned fails = if_true _ _ spawned ∙ if_false _ _ fails

  pub receive_data_works :
      (s : Session) (seq : ℕ) (payload : List ℕ)
      → s.spawned ≡ true
      → fate (write_pty payload ∷ s.trace) ≡ true
      → (receive_data fate seq payload s).recv_seq ≡ seq
  unfolding receive_data
  receive_data_works s seq payload spawned works =
      ap (λ (t : Session). t.recv_seq) (if_true _ _ spawned ∙ if_true _ _ works)

  past_failed :
      (s : Session) (source seq seq' : ℕ) (payload payload' : List ℕ)
      → s.conn ≡ some source
      → s.spawned ≡ true
      → fate (write_pty payload ∷ s.trace) ≡ false
      → fate (write_pty payload' ∷ write_pty payload ∷ s.trace) ≡ true
      → (handle_stream_event fate
          (record { source = source; received = message (data_msg seq' payload') })
          (handle_stream_event fate
            (record { source = source; received = message (data_msg seq payload) })
            s).0).0.recv_seq
        ≡ seq'
  unfolding handle_stream_event dispatch receive_data
  past_failed s source seq seq' payload payload' on spawned fails works =
      ap
        (λ (p : Session × Bool).
          (handle_stream_event fate (data_event source seq' payload') p.0).0.recv_seq)
        (if_true _ _ (conn-is_current s source on)
          ∙ ap refused (receive_data_fails s seq payload spawned fails))
      ∙ ap (λ (p : Session × Bool). p.0.recv_seq)
          (if_true _ _ (conn-is_current (note (write_pty payload) s) source on))
      ∙ receive_data_works (note (write_pty payload) s) seq' payload' spawned works

  -- With a shell, a Data from the current connection cannot be written to the PTY, and then one from it with a later
  -- number can. Whatever a catch-up ring holds, ReplaySince for the number last received then gives only entries
  -- numbered after the failed one, and so never the failed one.
  pub failed_write_skipped :
      (s : Session) (source seq seq' : ℕ) (payload payload' : List ℕ) (ring : Buffer)
      → s.conn ≡ some source
      → s.spawned ≡ true
      → fate (write_pty payload ∷ s.trace) ≡ false
      → fate (write_pty payload' ∷ write_pty payload ∷ s.trace) ≡ true
      → seq < seq'
      → let s1 = (handle_stream_event fate (data_event source seq payload) s).0 in
        let s2 = (handle_stream_event fate (data_event source seq' payload') s1).0 in
        All (λ (e : Entry). seq < e.seq) (replay_since s2.recv_seq ring)
  failed_write_skipped s source seq seq' payload payload' ring on spawned fails works later =
      rw
        (
          past_failed s source seq seq' payload payload' on spawned fails works,
          replay_since-newer seq' ring,
        )
        (newer-later seq seq' (contents ring) later)
