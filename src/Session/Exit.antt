-- ===== src/Session/Exit.antt =====
-- The end of Run of internal/session/session.go, with its deferred calls, and the loop of readPTY, which is also
-- that of readStdin of internal/client/client.go.
use goet.Prelude.{
  ℕ, ◌^◌, ◌<◌, ◌≡◌, ◌≢◌, refl, sym, ap, subst, ◌∙◌, arith, inl, inr, List, [], ◌∷◌, ◌++◌,
  append-nil, append_assoc, length, length-append, Bool, true, false, Bool-cases, All,
}
use goet.Prelude.{Option, none, some, if◌then◌else◌}
use goet.Protocol.Message.{ℤ}
use goet.Catchup.{Entry}
use goet.Coalesce
use goet.Session.{
  Effect, Session, close_conn, new, keep, handle_stream_event, handle_new_conn, flush_coalesced,
  graceful_shutdown,
}
use goet.Catchup.History.{IsEndOf}
use goet.Catchup.Refine.{contents}
use goet.Session.Calls.{send_stored-Keeps, close_conn-Keeps}
use goet.Session.History.{IsNumbered, payloads, TracksSession, flush_cases}
use goet.Session.Runs.{session_of, printed, step-Tracks, new-Tracks, say_shutdown-Keeps}
use goet.Session.Replay.{close_conn-offline}
use goet.Session.Loop.{
  Loop, Event, pty_data, pty_closed, deadline, stream, accepted, accept_failed, heartbeat_tick,
  shell_exited, cancelled, Reason, Outcome, running, exited, step, start, clean_shutdown,
  client_shutdown, spawn_failed, shell_failed, after_event, after_accept, context_done, is_heard,
}

-- The calls of the deferred functions, other than on the connection.
pub data Leaving : Type 0 where
  close_listener close_pty kill_shell : Leaving

-- `in_time` says that the shell exits within the grace period.
unfoldable pub cleanup_shell : Bool → Session → List Leaving
cleanup_shell in_time s =
    if s.spawned then close_pty ∷ (if in_time then [] else kill_shell ∷ []) else []

-- The deferred calls, the last one first.
unfoldable pub clean_up : Bool → Session → Session × List Leaving
clean_up in_time s =
    let stopped : Session = record s { coal = Coalesce.stop s.coal } in
    let closed = close_conn stopped in (closed, close_listener ∷ cleanup_shell in_time closed)

pub record Returned : Type 0 where
  pub reason : Reason
  pub session : Session
  pub calls : List Leaving

abbrev pub return_from : Bool → Outcome → Option Returned
return_from in_time (running l) = none
return_from in_time (exited reason s) =
    let (s', calls) = clean_up in_time s in
    some (record { reason = reason; session = s'; calls = calls })

module _ (fate : List Effect → Bool) where
  -- The select loop on some cases, with their times: what it comes to.
  unfoldable pub run_cases : List (ℕ × Event) → Outcome → Outcome
  run_cases [] o = o
  run_cases ((now, ev) ∷ evs) (running l) = run_cases evs (step fate now ev l)
  run_cases ((now, ev) ∷ evs) (exited reason s) = exited reason s

  -- Run, once it listens; `none` if it has not returned.
  unfoldable pub run : ℤ → Bool → ℕ → List (ℕ × Event) → Option Returned
  run replay_size in_time began evs =
      return_from in_time (run_cases evs (running (start began (new replay_size))))

-- A Read of the PTY: the bytes, and whether there is an error.
pub record PtyRead : Type 0 where
  pub bytes : List ℕ
  pub failed : Bool

abbrev pub chunk : List ℕ → List (List ℕ) → List (List ℕ)
chunk [] chunks = chunks
chunk (b ∷ bs) chunks = (b ∷ bs) ∷ chunks

-- What readPTY sends before it closes the channel.
unfoldable pub read_pty : List PtyRead → List (List ℕ)
read_pty [] = []
read_pty (r ∷ rs) = let rest = read_pty rs in chunk r.bytes (if r.failed then [] else rest)

module _ (fate : List Effect → Bool) where
  -- What the PTY printed in the cases that were taken.
  abbrev pub printed_by : List (ℕ × Event) → Outcome → List ℕ
  printed_by [] o = []
  printed_by ((now, ev) ∷ evs) (running l) = printed ev ++ printed_by evs (step fate now ev l)
  printed_by ((now, ev) ∷ evs) (exited reason s) = []

  run_cases-Tracks :
      (evs : List (ℕ × Event)) (o : Outcome) (input : List ℕ) (history : List Entry)
      → TracksSession input history (session_of o)
      → length (input ++ printed_by evs o) < 2 ^ 64
      → (more : List Entry) × TracksSession
          (input ++ printed_by evs o)
          (history ++ more)
          (session_of (run_cases fate evs o))
  unfolding run_cases
  run_cases-Tracks [] o input history t small = ([], rw (append-nil input, append-nil history) t)
  run_cases-Tracks ((now, ev) ∷ evs) (exited reason s) input history t small =
      ([], rw (append-nil input, append-nil history) t)
  run_cases-Tracks ((now, ev) ∷ evs) (running l) input history t small =
      let later = printed_by evs (step fate now ev l) in
      let whole : (input ++ printed ev) ++ later ≡ input ++ (printed ev ++ later) =
        append_assoc input (printed ev) later in
      let (more, t') =
        step-Tracks fate input history now ev l t
          (omega (arith, small, length-append (input ++ printed ev) later, ap length whole)) in
      let (more', t'') =
        run_cases-Tracks evs (step fate now ev l) (input ++ printed ev) (history ++ more) t'
          (omega (arith, small, ap length whole)) in
      (
        more ++ more',
        subst
            (λ i.
              TracksSession i (history ++ (more ++ more'))
                (session_of (run_cases fate evs (step fate now ev l))))
            whole
            (subst
              (λ h.
                TracksSession ((input ++ printed ev) ++ later) h
                  (session_of (run_cases fate evs (step fate now ev l))))
              (append_assoc history more more') t''),
      )

  -- When the shell has exited, no batch waits.
  abbrev EndsFlat : Outcome → Type 0
  EndsFlat (exited clean_shutdown s) = s.coal.buf ≡ []
  EndsFlat _ = Unit

  flush_coalesced_flat : (s : Session) → (flush_coalesced fate s).coal.buf ≡ []
  unfolding flush_coalesced
  flush_coalesced_flat s = elim (flush_cases s.coal) [
    | inl (idle, same, none_waits) ↦ rw idle none_waits
    | inr (batch, some_bytes, empty) ↦
        let s' = keep fate s.coal.buf (record s { coal = (Coalesce.flush s.coal).0 }) in
        rw batch (ap (λ c. c.buf) (send_stored-Keeps fate s.coal.buf s').coal ∙ empty)
  ]

  graceful_shutdown_flat : (s : Session) → (graceful_shutdown fate s).coal.buf ≡ []
  unfolding graceful_shutdown
  graceful_shutdown_flat s =
      ap (λ c. c.buf)
        (say_shutdown-Keeps fate (flush_coalesced fate s).conn (flush_coalesced fate s)).coal
      ∙ flush_coalesced_flat s

  after_event-EndsFlat : (l : Loop) (p : Session × Bool) → EndsFlat (after_event l p)
  after_event-EndsFlat l (s, false) = tt
  after_event-EndsFlat l (s, true) = tt

  after_accept-EndsFlat :
      (now : ℕ) (l : Loop) (p : Session × Bool) → EndsFlat (after_accept now l p)
  after_accept-EndsFlat now l (s, false) = tt
  after_accept-EndsFlat now l (s, true) = tt

  accept_failed-EndsFlat :
      (done : Bool) (l : Loop)
      → EndsFlat (if done then exited context_done l.session else running l)
  accept_failed-EndsFlat true l = tt
  accept_failed-EndsFlat false l = tt

  step-EndsFlat : (now : ℕ) (ev : Event) (l : Loop) → EndsFlat (step fate now ev l)
  unfolding step
  step-EndsFlat now (pty_data bytes) l = tt
  step-EndsFlat now pty_closed l = tt
  step-EndsFlat now deadline l = tt
  step-EndsFlat now (stream ev) l =
      after_event-EndsFlat
        (record l { last_recv = if is_heard ev l.session then now else l.last_recv })
        (handle_stream_event fate ev l.session)
  step-EndsFlat now (accepted nc) l =
      after_accept-EndsFlat now l (handle_new_conn fate nc l.session)
  step-EndsFlat now (accept_failed done) l = accept_failed-EndsFlat done l
  step-EndsFlat now heartbeat_tick l = tt
  step-EndsFlat now (shell_exited false) l = graceful_shutdown_flat l.session
  step-EndsFlat now (shell_exited true) l = tt
  step-EndsFlat now cancelled l = tt

  run_cases-EndsFlat :
      (evs : List (ℕ × Event)) (o : Outcome) → EndsFlat o → EndsFlat (run_cases fate evs o)
  unfolding run_cases
  run_cases-EndsFlat [] o h = h
  run_cases-EndsFlat ((now, ev) ∷ evs) (running l) h =
      run_cases-EndsFlat evs (step fate now ev l) (step-EndsFlat now ev l)
  run_cases-EndsFlat ((now, ev) ∷ evs) (exited reason s) h = h

  -- What Run returned with nil from.
  clean_return :
      (in_time : Bool) (o : Outcome) (r : Returned)
      → EndsFlat o
      → return_from in_time o ≡ some r
      → r.reason ≡ clean_shutdown
      → ((session_of o).coal.buf ≡ []) × (r.session ≡ (clean_up in_time (session_of o)).0)
  clean_return in_time (running l) r h returned clean = cc
  clean_return in_time (exited clean_shutdown s) r h returned clean = (h, cc)
  clean_return in_time (exited shell_failed s) r h returned clean = cc
  clean_return in_time (exited client_shutdown s) r h returned clean = cc
  clean_return in_time (exited spawn_failed s) r h returned clean = cc
  clean_return in_time (exited context_done s) r h returned clean = cc

  clean_up_ends :
      (in_time : Bool) (s : Session)
      → ((clean_up in_time s).0.conn ≡ none)
        × ((clean_up in_time s).0.coal.timer ≡ Coalesce.stopped)
        × ((clean_up in_time s).0.buf ≡ s.buf)
  unfolding clean_up Coalesce.stop
  clean_up_ends in_time s =
      let stopped : Session = record s { coal = Coalesce.stop s.coal } in
      let keeps = close_conn-Keeps stopped in
      (close_conn-offline stopped, ap (λ c. c.timer) keeps.coal, keeps.buf)

  -- If Run returns nil, which is when the shell has exited without an error, and it has taken fewer than
  -- 2^64 bytes from the PTY, then these bytes are, in order, the payloads of a history that is numbered from 1 without
  -- a gap, of which the ring holds the end; no batch waits, no connection is current, and the timer of the
  -- coalescer is stopped.
  pub run_clean :
      (z : ℤ) (in_time : Bool) (began : ℕ) (evs : List (ℕ × Event)) (r : Returned)
      → run fate z in_time began evs ≡ some r
      → r.reason ≡ clean_shutdown
      → length (printed_by evs (running (start began (new z)))) < 2 ^ 64
      → (history : List Entry) × IsNumbered 1 history
        × (payloads history ≡ printed_by evs (running (start began (new z))))
        × IsEndOf history (contents r.session.buf)
        × (r.session.conn ≡ none)
        × (r.session.coal.timer ≡ Coalesce.stopped)
  unfolding run
  run_clean z in_time began evs r returned clean small =
      let o : Outcome = running (start began (new z)) in
      let last = run_cases fate evs o in
      let (flat, same) = clean_return in_time last r (run_cases-EndsFlat evs o tt) returned clean in
      let (history, t) = run_cases-Tracks evs o [] [] (new-Tracks z) small in
      let (off, stopped, ring) = clean_up_ends in_time (session_of last) in
      (
        history,
        t.numbered,
        sym (append-nil (payloads history)) ∙ ap (λ b. payloads history ++ b) (sym flat) ∙ t.bytes,
        subst (λ b. IsEndOf history (contents b)) (sym (ap (λ s. s.buf) same ∙ ring)) t.held,
        ap (λ s. s.conn) same ∙ off,
        ap (λ s. s.coal.timer) same ∙ stopped,
      )

-- The bytes of the reads up to the one that fails, which counts.
abbrev pub bytes_read : List PtyRead → List ℕ
bytes_read [] = []
bytes_read (r ∷ rs) = r.bytes ++ (if r.failed then [] else bytes_read rs)

abbrev pub joined : List (List ℕ) → List ℕ
joined [] = []
joined (x ∷ xs) = x ++ joined xs

abbrev pub IsChunk : List ℕ → Type 0
IsChunk bytes = bytes ≢ []

pub joined-chunk :
    (bytes : List ℕ) (chunks : List (List ℕ)) → joined (chunk bytes chunks) ≡ bytes ++ joined chunks
joined-chunk [] chunks = refl
joined-chunk (b ∷ bytes) chunks = refl

chunk-All :
    (bytes : List ℕ) (chunks : List (List ℕ))
    → All IsChunk chunks
    → All IsChunk (chunk bytes chunks)
chunk-All [] chunks h = h
chunk-All (b ∷ bytes) chunks h = (λ same. cc, h)

-- The chunks that readPTY sends are the bytes that it reads, in order, those of the read that fails included, and no
-- chunk is empty.
pub read_pty-joined :
    (rs : List PtyRead) → (joined (read_pty rs) ≡ bytes_read rs) × All IsChunk (read_pty rs)
unfolding read_pty
read_pty-joined [] = (refl, tt)
read_pty-joined (r ∷ rs) = elim (Bool-cases r.failed) [
  | inl failed ↦ rw failed (joined-chunk r.bytes [], chunk-All r.bytes [] tt)
  | inr more ↦
      let (same, chunks) = read_pty-joined rs in
      rw more (
        joined-chunk r.bytes (read_pty rs) ∙ ap (λ t. r.bytes ++ t) same,
        chunk-All r.bytes (read_pty rs) chunks,
      )
]
