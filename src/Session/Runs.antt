-- ===== src/Session/Runs.antt =====
-- The history of a run of the select loop of internal/session/session.go.
use goet.Prelude.{ℕ, ◌^◌, ◌<◌, ◌≡◌, refl, sym, arith, inl, inr}
use goet.Prelude.{List, [], ◌++◌, append-nil, length, length-append, Bool, true, false, not, ◌&&◌}
use goet.Prelude.{Option, none, some, if◌then◌else◌, Bool-cases}
use goet.Protocol.Message.{shutdown, ℤ}
use goet.Catchup.{Entry}
use goet.Catchup.Store.{new-IsValid}
use goet.Coalesce
use goet.Coalesce.{Coalescer}
use goet.Coalesce.Batch.{add_asks}
use goet.Session.{
  Effect, Session, new, flush_coalesced, write_control, handle_stream_event, handle_new_conn,
  graceful_shutdown, say_shutdown,
}
use goet.Session.Loop.{
  Loop, Event, pty_data, pty_closed, deadline, stream, accepted, accept_failed, heartbeat_tick,
  shell_exited, cancelled, Outcome, running, exited, on_pty_data, on_deadline, step, start,
  after_event, after_accept, is_ready, context_done, is_heard,
}
use goet.Session.Calls.{
  Keeps, Keeps-refl, close_conn-Keeps, handle_stream_event-Keeps, handle_new_conn-Keeps,
  beat_on-Keeps, note-Keeps,
}
use goet.Session.History.{grow-Tracks, TracksSession, Keeps-Tracks, flush_coalesced-Tracks}

-- What the PTY printed, in one case of the select.
abbrev pub printed : Event → List ℕ
printed (pty_data bytes) = bytes
printed _ = []

abbrev pub session_of : Outcome → Session
session_of (running l) = l.session
session_of (exited reason s) = s

-- The history has grown by some entries.
abbrev Grows : List ℕ → List Entry → Session → Type 0
Grows input history s = (more : List Entry) × TracksSession input (history ++ more) s

module _ (input : List ℕ) (history : List Entry) where
  Keeps-Grows :
      (s s' : Session) → Keeps s s' → TracksSession input history s → Grows (input ++ []) history s'
  Keeps-Grows s s' k t =
      ([], rw (append-nil input, append-nil history) (Keeps-Tracks input history s s' k t))

  Grows-Keeps :
      (s s' : Session) → Keeps s s' → Grows input history s → Grows (input ++ []) history s'
  Grows-Keeps s s' k (more, t) =
      (more, rw (append-nil input) (Keeps-Tracks input (history ++ more) s s' k t))

  -- The batch has grown by what was added.
  pub add-Tracks :
      (now : ℕ) (bytes : List ℕ) (s : Session)
      → TracksSession input history s
      → TracksSession
          (input ++ bytes)
          history
          (record s { coal = (Coalesce.add now bytes s.coal).0 })
  add-Tracks now bytes s t =
      grow-Tracks input history s.buf s.send_seq s.coal.buf _ bytes (add_asks now bytes s.coal).0 t

pub session_of-after_event :
    (l : Loop) (s : Session) (stop : Bool) → session_of (after_event l (s, stop)) ≡ s
session_of-after_event l s true = refl
session_of-after_event l s false = refl

pub session_of-after_accept :
    (now : ℕ) (l : Loop) (s : Session) (stop : Bool) → session_of (after_accept now l (s, stop)) ≡ s
session_of-after_accept now l s true = refl
session_of-after_accept now l s false = elim (Bool-cases (s.spawned && not l.data_on)) [
  | inl new_shell ↦ rw new_shell refl
  | inr same ↦ rw same refl
]

pub session_of-accept_failed :
    (l : Loop) (stop : Bool)
    → session_of (if stop then exited context_done l.session else running l) ≡ l.session
session_of-accept_failed l true = refl
session_of-accept_failed l false = refl

module _ (fate : List Effect → Bool) where
  on_pty_data-Grows :
      (input : List ℕ) (history : List Entry) (now : ℕ) (bytes : List ℕ) (s : Session)
      → TracksSession input history s
      → length (input ++ bytes) < 2 ^ 64
      → Grows (input ++ bytes) history (on_pty_data fate now bytes s)
  unfolding on_pty_data
  on_pty_data-Grows input history now bytes s t small =
      let added = add-Tracks input history now bytes s t in
      elim (Bool-cases (Coalesce.add now bytes s.coal).1) [
        | inl full ↦ rw full (flush_coalesced-Tracks fate (input ++ bytes) history _ added small)
        | inr more ↦ rw more ([], rw (append-nil history) added)
      ]

  -- A flush, and calls before it that leave the history alone.
  flush-Grows :
      (input : List ℕ) (history : List Entry) (s s' : Session)
      → Keeps s s'
      → TracksSession input history s
      → length input < 2 ^ 64
      → Grows input history (flush_coalesced fate s')
  flush-Grows input history s s' k t small =
      flush_coalesced-Tracks fate input history s' (Keeps-Tracks input history s s' k t) small

  receive-Tracks :
      (input : List ℕ) (history : List Entry) (s : Session)
      → TracksSession input history s
      → TracksSession input history (record s { coal = Coalesce.receive s.coal })
  receive-Tracks input history s t = record {
    valid = t.valid;
    held = t.held;
    numbered = t.numbered;
    counted = t.counted;
    bytes = t.bytes;
    filled = t.filled;
  }

  pub say_shutdown-Keeps : (c : Option ℕ) (s : Session) → Keeps s (say_shutdown fate c s)
  say_shutdown-Keeps none s = Keeps-refl s
  say_shutdown-Keeps (some c) s = note-Keeps (write_control c shutdown) s

  graceful_shutdown-Keeps :
      (s : Session) → Keeps (flush_coalesced fate s) (graceful_shutdown fate s)
  unfolding graceful_shutdown
  graceful_shutdown-Keeps s =
      say_shutdown-Keeps (flush_coalesced fate s).conn (flush_coalesced fate s)

  -- Whatever happens and succeeds before the PTY has printed 2^64 bytes, its output is the payloads of the history and
  -- the batch that waits: the history grows at its end, is numbered from 1 without a gap, and the
  -- ring holds the end of it.
  pub step-Tracks :
      (input : List ℕ) (history : List Entry) (now : ℕ) (ev : Event) (l : Loop)
      → TracksSession input history l.session
      → length (input ++ printed ev) < 2 ^ 64
      → (more : List Entry) × TracksSession
          (input ++ printed ev)
          (history ++ more)
          (session_of (step fate now ev l))
  unfolding step on_deadline
  step-Tracks input history now (pty_data bytes) l t small =
      on_pty_data-Grows input history now bytes l.session t small
  step-Tracks input history now pty_closed l t small =
      rw (append-nil input)
        (flush_coalesced-Tracks fate input history l.session t (rw (sym (append-nil input)) small))
  step-Tracks input history now deadline l t small = rw (append-nil input) (
      flush_coalesced-Tracks fate input history _ (receive-Tracks input history l.session t)
        (rw (sym (append-nil input)) small))
  step-Tracks input history now (stream ev) l t small =
      let (s', stop) = handle_stream_event fate ev l.session in
      rw
        (session_of-after_event
          (record l { last_recv = if is_heard ev l.session then now else l.last_recv }) s' stop)
        (Keeps-Grows input history l.session s' (handle_stream_event-Keeps fate ev l.session) t)
  step-Tracks input history now (accepted nc) l t small =
      let (s', stop) = handle_new_conn fate nc l.session in
      rw (session_of-after_accept now l s' stop) (
        Grows-Keeps input history _ s' (handle_new_conn-Keeps fate nc l.session) (
          flush-Grows input history l.session _ (close_conn-Keeps l.session) t
            (rw (sym (append-nil input)) small)))
  step-Tracks input history now (accept_failed done) l t small =
      rw (session_of-accept_failed l done)
        (Keeps-Grows input history l.session _ (Keeps-refl l.session) t)
  step-Tracks input history now heartbeat_tick l t small =
      Keeps-Grows input history l.session _
        (beat_on-Keeps fate now l.last_recv l.session.conn l.session) t
  step-Tracks input history now (shell_exited failed) l t small =
      Grows-Keeps input history _ _ (graceful_shutdown-Keeps l.session)
        (flush_coalesced-Tracks fate input history l.session t (rw (sym (append-nil input)) small))
  step-Tracks input history now cancelled l t small =
      Grows-Keeps input history _ _ (graceful_shutdown-Keeps l.session)
        (flush_coalesced-Tracks fate input history l.session t (rw (sym (append-nil input)) small))

  -- What Run can come to from its start with a replay size, and what the PTY has printed by then.
  pub data Reaches (z : ℤ) (began : ℕ) : List ℕ → Outcome → Type 0 where
    here : Reaches z began [] (running (start began (new z)))
    next :
        (input : List ℕ) (l : Loop) (now : ℕ) (ev : Event)
        → Reaches z began input (running l)
        → is_ready now ev l ≡ true
        → Reaches z began (input ++ printed ev) (step fate now ev l)

pub new-Tracks : (z : ℤ) → TracksSession [] [] (new z)
new-Tracks z =
    let (valid, empty, _, _) = new-IsValid z in
    record {
      valid = valid;
      held = ([], empty);
      numbered = tt;
      counted = refl;
      bytes = refl;
      filled = omega arith;
    }

module _ (fate : List Effect → Bool) where
  -- In each state that Run reaches before the PTY has printed 2^64 bytes, also when it returns, there is
  -- a history of numbered payloads, counted from 1 without a gap, of which the ring holds the end; the
  -- payloads and the batch that waits are what the PTY has printed, in order.
  pub Reaches-Tracks :
      (z : ℤ) (began : ℕ) (input : List ℕ) (o : Outcome)
      → Reaches fate z began input o
      → length input < 2 ^ 64
      → (history : List Entry) × TracksSession input history (session_of o)
  Reaches-Tracks z began _ _ here small = ([], new-Tracks z)
  Reaches-Tracks z began _ _ (next input l now ev before ready) small =
      let (history, t) =
        Reaches-Tracks z began input (running l) before
          (omega (arith, length-append input (printed ev), small)) in
      let (more, t') = step-Tracks fate input history now ev l t small in (history ++ more, t')
