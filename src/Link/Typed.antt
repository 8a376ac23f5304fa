-- ===== src/Link/Typed.antt =====
-- What the session of internal/session/session.go writes to its PTY of a history that a client sends.
use goet.Prelude.{ℕ, suc, ◌≤◌, ◌≡◌, ◌⊎◌, refl, sym, ap, subst, ◌∙◌, arith, inl, inr}
use goet.Prelude.{
  List, [], ◌∷◌, ◌++◌, append-nil, length, take, drop, Bool, true, false, Bool-cases, some,
}
use goet.Prelude.{if◌then◌else◌}
use goet.Protocol.Message.{resize, data_msg}
use goet.Catchup.{Entry}
use goet.Coalesce
use goet.Session.{
  Effect, write_pty, Session, Received, message, read_error, StreamEvent, note, receive_data,
  dispatch, handle_received, is_current, handle_stream_event, handle_new_conn,
}
use goet.Session.History.{payloads, payloads-append, IsNumbered}
use goet.Session.Loop.{
  Loop, Event, pty_data, pty_closed, deadline, stream, accepted, accept_failed, heartbeat_tick,
  shell_exited, cancelled, on_deadline, step, is_heard,
}
use goet.Session.Runs.{
  session_of, session_of-after_event, session_of-after_accept, session_of-accept_failed,
}
use goet.Session.Replay.{data_of}
use goet.Session.Guards.{conn-is_current, receive_data_works}
use goet.Client.Receipt.{take_next, seq_next}
use goet.Link.Idle.{
  written, Idle, Idle-refl, Idle-trans, if-Idle, if_first-Idle, close_conn-Idle,
  flush_coalesced-Idle, on_pty_data-Idle, graceful_shutdown-Idle, beat_on-Idle,
  handle_new_conn-Idle,
}

-- The session has written to the PTY the payloads up to the number that it has received.
pub record AtPty (fate : List Effect → Bool) (history : List Entry) (s : Session) : Type 0 where
  pub known : s.recv_seq ≤ length history
  pub wrote : written fate s.trace ≡ payloads (take s.recv_seq history)

-- A Data is the next entry of the history, and can be written to the PTY.
abbrev pub IsFed : (List Effect → Bool) → List Entry → Session → Received → Type 0
IsFed fate history s (message (data_msg seq payload)) =
    (s.spawned ≡ true)
    × (fate (write_pty payload ∷ s.trace) ≡ true)
    × (e : Entry) × (es : List Entry) × (drop s.recv_seq history ≡ e ∷ es)
    × (seq ≡ e.seq)
    × (payload ≡ e.payload)
IsFed fate history s _ = Unit

abbrev pub HasNoData : Received → Type 0
HasNoData (message (data_msg seq payload)) = ⊥
HasNoData _ = Unit

-- What comes from a connection that is not the current one is of no account.
abbrev pub Feeds : (List Effect → Bool) → List Entry → Event → Session → Type 0
Feeds fate history (stream ev) s =
    (is_current s ev.source ≡ false) ⊎ IsFed fate history s ev.received
Feeds fate history _ s = Unit

-- No Data from the current connection.
abbrev pub IsDataless : Event → Session → Type 0
IsDataless (stream ev) s = (is_current s ev.source ≡ false) ⊎ HasNoData ev.received
IsDataless _ s = Unit

if_true : (b : Bool) (x y : Session) → b ≡ true → (if b then x else y) ≡ x
if_true true x y h = refl
if_true false x y h = cc

module _ (fate : List Effect → Bool) where
  received-Idle :
      (r : Received) (s : Session) → HasNoData r → Idle fate s (handle_received fate r s).0
  unfolding dispatch
  received-Idle read_error s none = close_conn-Idle fate s
  received-Idle (message (data_msg seq payload)) s none = absurd none
  received-Idle (message (resize rows cols)) s none =
      if-Idle fate s.spawned s _ _ (record { typed = refl; heard = refl }) (Idle-refl fate s)
  received-Idle (message m) s none = Idle-refl fate s

  stream_event-Idle :
      (ev : StreamEvent) (s : Session)
      → IsDataless (stream ev) s
      → Idle fate s (handle_stream_event fate ev s).0
  unfolding handle_stream_event
  stream_event-Idle ev s (inl stale) = rw stale (Idle-refl fate s)
  stream_event-Idle ev s (inr quiet) =
      if_first-Idle fate (is_current s ev.source) s _ (s, false) (received-Idle ev.received s quiet)
        (Idle-refl fate s)

  -- A case of the select without a Data from the current connection.
  pub step-Idle :
      (now : ℕ) (ev : Event) (l : Loop)
      → IsDataless ev l.session
      → Idle fate l.session (session_of (step fate now ev l))
  unfolding step on_deadline
  step-Idle now (pty_data bytes) l quiet = on_pty_data-Idle fate now bytes l.session
  step-Idle now pty_closed l quiet = flush_coalesced-Idle fate l.session
  step-Idle now deadline l quiet =
      let s' : Session = record l.session { coal = Coalesce.receive l.session.coal } in
      Idle-trans fate (record { typed = refl; heard = refl }) (flush_coalesced-Idle fate s')
  step-Idle now (stream ev) l quiet =
      let (s', stop) = handle_stream_event fate ev l.session in
      rw
        (session_of-after_event
          (record l { last_recv = if is_heard ev l.session then now else l.last_recv }) s' stop)
        (stream_event-Idle ev l.session quiet)
  step-Idle now (accepted nc) l quiet =
      let (s', stop) = handle_new_conn fate nc l.session in
      rw (session_of-after_accept now l s' stop) (handle_new_conn-Idle fate nc l.session)
  step-Idle now (accept_failed done) l quiet =
      rw (session_of-accept_failed l done) (Idle-refl fate l.session)
  step-Idle now heartbeat_tick l quiet = beat_on-Idle fate now l.last_recv l.session.conn l.session
  step-Idle now (shell_exited failed) l quiet = graceful_shutdown-Idle fate l.session
  step-Idle now cancelled l quiet = graceful_shutdown-Idle fate l.session

  hear-heard :
      (now c : ℕ) (e : Entry) (l : Loop)
      → l.session.conn ≡ some c
      → l.session.spawned ≡ true
      → fate (write_pty e.payload ∷ l.session.trace) ≡ true
      → (session_of (
          step fate now
            (stream (record { source = c; received = message (data_of e) }))
            l)).recv_seq
        ≡ e.seq
  unfolding step handle_stream_event dispatch
  hear-heard now c e l on spawned done =
      let current : is_current l.session c ≡ true = conn-is_current l.session c on in
      rw current (receive_data_works fate l.session e.seq e.payload spawned done)

module _ (fate : List Effect → Bool) (history : List Entry) (numbered : IsNumbered 1 history) where
  pub Idle-AtPty : (s s' : Session) → Idle fate s s' → AtPty fate history s → AtPty fate history s'
  Idle-AtPty s s' m h = record {
    known = omega (arith, h.known, m.heard);
    wrote = m.typed ∙ h.wrote ∙ ap (λ n. payloads (take n history)) (sym m.heard);
  }

  write_next :
      (e : Entry) (es : List Entry) (s : Session)
      → AtPty fate history s
      → drop s.recv_seq history ≡ e ∷ es
      → fate (write_pty e.payload ∷ s.trace) ≡ true
      → AtPty fate history (record (note (write_pty e.payload) s) { recv_seq = e.seq })
  write_next e es s h next done =
      let (number, below) = seq_next e es 1 s.recv_seq history numbered next in
      let one_more : e.seq ≡ suc s.recv_seq = number ∙ omega arith in
      record {
        known = omega (arith, one_more, below);
        wrote = rw done (
            ap (λ t. t ++ e.payload) h.wrote
            ∙ ap (λ t. payloads (take s.recv_seq history) ++ t) (sym (append-nil e.payload))
            ∙ sym (payloads-append (take s.recv_seq history) (e ∷ []))
            ∙ ap payloads (sym (take_next e es s.recv_seq history next))
            ∙ ap (λ n. payloads (take n history)) (sym one_more));
      }

  receive_data-AtPty :
      (e : Entry) (es : List Entry) (s : Session)
      → AtPty fate history s
      → s.spawned ≡ true
      → fate (write_pty e.payload ∷ s.trace) ≡ true
      → drop s.recv_seq history ≡ e ∷ es
      → AtPty fate history (receive_data fate e.seq e.payload s)
  unfolding receive_data
  receive_data-AtPty e es s h spawned done next =
      let same : receive_data fate e.seq e.payload s
          ≡ record (note (write_pty e.payload) s) { recv_seq = e.seq } =
        if_true s.spawned _ _ spawned ∙ if_true (fate (write_pty e.payload ∷ s.trace)) _ _ done in
      subst (λ t. AtPty fate history t) (sym same) (write_next e es s h next done)

  handle_received-AtPty :
      (r : Received) (s : Session)
      → AtPty fate history s
      → IsFed fate history s r
      → AtPty fate history (handle_received fate r s).0
  unfolding dispatch
  handle_received-AtPty (message (data_msg seq payload)) s h
        (spawned, done, e, es, next, same_seq, same_payload) =
      subst (λ n. AtPty fate history (receive_data fate n payload s)) (sym same_seq)
        (subst (λ p. AtPty fate history (receive_data fate e.seq p s)) (sym same_payload)
          (receive_data-AtPty e es s h spawned
            (subst (λ p. fate (write_pty p ∷ s.trace) ≡ true) same_payload done) next))
  handle_received-AtPty read_error s h fed = Idle-AtPty s _ (received-Idle fate read_error s tt) h
  handle_received-AtPty (message m) s h fed = Idle-AtPty s _ (received-Idle fate (message m) s tt) h

  handle_stream_event-AtPty :
      (ev : StreamEvent) (s : Session)
      → AtPty fate history s
      → Feeds fate history (stream ev) s
      → AtPty fate history (handle_stream_event fate ev s).0
  unfolding handle_stream_event
  handle_stream_event-AtPty ev s h (inl stale) = rw stale h
  handle_stream_event-AtPty ev s h (inr fed) = elim (Bool-cases (is_current s ev.source)) [
    | inl on ↦ rw on (handle_received-AtPty ev.received s h fed)
    | inr stale ↦ rw stale h
  ]

  -- If the Data that the session reads from its current connection are the history that a client numbered from 1, from the
  -- number on that the session has received, and can be written to the PTY, then each case of the select keeps: what was
  -- written to the PTY is the payloads of the history up to the number received, each once and in order, also over
  -- connections that are lost, replaced and accepted.
  pub step-AtPty :
      (now : ℕ) (ev : Event) (l : Loop)
      → AtPty fate history l.session
      → Feeds fate history ev l.session
      → AtPty fate history (session_of (step fate now ev l))
  unfolding step
  step-AtPty now (stream ev) l h feeds =
      let (s', stop) = handle_stream_event fate ev l.session in
      rw
        (session_of-after_event
          (record l { last_recv = if is_heard ev l.session then now else l.last_recv }) s' stop)
        (handle_stream_event-AtPty ev l.session h feeds)
  step-AtPty now ev l h feeds = Idle-AtPty l.session _ (step-Idle fate now ev l tt) h

  -- The next Data of the history comes from the current connection.
  pub hear-AtPty :
      (now c : ℕ) (e : Entry) (es : List Entry) (l : Loop)
      → AtPty fate history l.session
      → l.session.conn ≡ some c
      → l.session.spawned ≡ true
      → fate (write_pty e.payload ∷ l.session.trace) ≡ true
      → drop l.session.recv_seq history ≡ e ∷ es
      → let ev = stream (record { source = c; received = message (data_of e) }) in
        AtPty fate history (session_of (step fate now ev l))
        × ((session_of (step fate now ev l)).recv_seq ≡ suc l.session.recv_seq)
  hear-AtPty now c e es l h on spawned done next =
      let ev = stream (record { source = c; received = message (data_of e) }) in
      (
        step-AtPty now ev l h (inr (spawned, done, e, es, next, refl, refl)),
        hear-heard fate now c e l on spawned done
            ∙ (seq_next e es 1 l.session.recv_seq history numbered next).0
            ∙ omega arith,
      )
