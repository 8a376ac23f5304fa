-- ===== src/Session/Stream/Steps.antt =====
-- What the select loop of internal/session/session.go sends on one connection.
use goet.Prelude.{ℕ, ◌^◌, ◌<◌, ◌≡◌, ◌⊎◌, refl, sym, subst, arith, inl, inr}
use goet.Prelude.{List, [], ◌∷◌, ◌++◌, append-nil, length, Bool, false, Bool-cases}
use goet.Prelude.{some, if◌then◌else◌, ◌==◌, ==_refl}
use goet.Protocol.Message.{sequence_header}
use goet.Catchup.{Entry}
use goet.Coalesce
use goet.Session.{
  Effect, Session, NewConn, note, close_conn, flush_coalesced, write_control, handle_stream_event,
  handle_new_conn, graceful_shutdown, say_shutdown,
}
use goet.Session.Calls.{
  Keeps, Keeps-refl, close_conn-Keeps, handle_stream_event-Keeps, handle_new_conn-Keeps,
  beat_on-Keeps,
}
use goet.Session.History.{flushed}
use goet.Session.Replay.{data_to}
use goet.Session.Silent.{Silent, Silent-refl, Silent-trans, close_conn-Silent}
use goet.Session.Loop.{
  Loop, Event, pty_data, pty_closed, deadline, stream, accepted, accept_failed, heartbeat_tick,
  shell_exited, cancelled, on_pty_data, on_deadline, step, is_heard,
}
use goet.Session.Runs.{
  session_of, printed, add-Tracks, session_of-after_event, session_of-after_accept,
  session_of-accept_failed, say_shutdown-Keeps,
}
use goet.Session.Silent.{
  handle_stream_event-Silent, say_shutdown-Silent, beat_on-Silent, after_header-Silent,
}
use goet.Session.Stream.{Delivers, Silent-Delivers, flush_coalesced-Delivers}
use goet.Session.Stream.Accept.{Covers, accepted-Delivers}

module _ (fate : List Effect → Bool) (id base : ℕ) where
  -- The history has grown by some entries.
  abbrev pub Delivering : List ℕ → List Entry → Session → Type 0
  Delivering input history s = (more : List Entry) × Delivers id base input (history ++ more) s

  -- An accepted connection is another one, or it is the one that announced `base`, nothing was written to
  -- it, and the ring reaches back to what its client lacks.
  abbrev pub Offers : Event → Session → Type 0
  Offers (accepted nc) s =
      ((id == nc.id) ≡ false)
      ⊎ ((id ≡ nc.id)
          × (base ≡ nc.last_client_seq)
          × (data_to id s.trace ≡ [])
          × Covers fate nc (flush_coalesced fate (close_conn s)))
  Offers _ s = Unit

  silently :
      (input : List ℕ) (history : List Entry) (s s' : Session)
      → Silent id s s'
      → Keeps s s'
      → Delivers id base input history s
      → Delivering (input ++ []) history s'
  silently input history s s' h k d = (
    [],
    rw (append-nil input, append-nil history) (Silent-Delivers id base input history s s' h k d),
  )

  flushing :
      (input : List ℕ) (history : List Entry) (s : Session)
      → Delivers id base input history s
      → length (input ++ []) < 2 ^ 64
      → Delivering (input ++ []) history (flush_coalesced fate s)
  flushing input history s d small = (
    flushed s,
    rw (append-nil input) (
        flush_coalesced-Delivers fate id base input history s d
          (rw (sym (append-nil input)) small)),
  )

  on_pty_data-Delivering :
      (input : List ℕ) (history : List Entry) (now : ℕ) (bytes : List ℕ) (s : Session)
      → Delivers id base input history s
      → length (input ++ bytes) < 2 ^ 64
      → Delivering (input ++ bytes) history (on_pty_data fate now bytes s)
  unfolding on_pty_data
  on_pty_data-Delivering input history now bytes s d small =
      let s' : Session = record s { coal = (Coalesce.add now bytes s.coal).0 } in
      let added : Delivers id base (input ++ bytes) history s' = record {
        tracks = add-Tracks input history now bytes s d.tracks;
        low = d.low;
        rest = d.rest;
        sent = d.sent;
        complete = d.complete;
      } in
      elim (Bool-cases (Coalesce.add now bytes s.coal).1) [
        | inl full ↦ rw full (
          flushed s',
          flush_coalesced-Delivers fate id base (input ++ bytes) history s' added small,
        )
        | inr more ↦ rw more ([], rw (append-nil history) added)
      ]

  -- The batch is set aside, and nothing else changes.
  with_coal :
      (input : List ℕ) (history : List Entry) (s : Session) (coal : Coalesce.Coalescer)
      → coal.buf ≡ s.coal.buf
      → Delivers id base input history s
      → Delivers id base input history (record s { coal = coal })
  with_coal input history s coal same d = record {
    tracks = rw same d.tracks;
    low = d.low;
    rest = d.rest;
    sent = d.sent;
    complete = d.complete;
  }

  graceful_shutdown-Delivering :
      (input : List ℕ) (history : List Entry) (s : Session)
      → Delivers id base input history s
      → length (input ++ []) < 2 ^ 64
      → Delivering (input ++ []) history (graceful_shutdown fate s)
  unfolding graceful_shutdown
  graceful_shutdown-Delivering input history s d small =
      let f = flush_coalesced fate s in
      let (more, d') = flushing input history s d small in
      (
        more,
        Silent-Delivers id base (input ++ []) (history ++ more) f (say_shutdown fate f.conn f)
            (say_shutdown-Silent fate id f.conn f) (say_shutdown-Keeps fate f.conn f) d',
      )

  other_conn-Delivering :
      (input : List ℕ) (history : List Entry) (nc : NewConn) (s : Session)
      → Delivers id base input history s
      → length (input ++ []) < 2 ^ 64
      → (id == nc.id) ≡ false
      → Delivering (input ++ []) history (handle_new_conn fate nc s).0
  unfolding handle_new_conn
  other_conn-Delivering input history nc s d small other =
      let closed =
        Silent-Delivers id base input history s (close_conn s) (close_conn-Silent id s)
          (close_conn-Keeps s) d in
      let (more, d') = flushing input history (close_conn s) closed small in
      let f = flush_coalesced fate (close_conn s) in
      let s' : Session = record f { conn = some nc.id } in
      let call : Effect = write_control nc.id (sequence_header s'.recv_seq) in
      let begun : Silent id f (note call s') = record {
        quiet = refl;
        stays = λ on. ground (arith, ==_refl id);
      } in
      (
        more,
        Silent-Delivers id base (input ++ []) (history ++ more) f _
            (Silent-trans id begun
              (after_header-Silent fate id nc (note call s') (fate (call ∷ s'.trace)) other))
            (handle_new_conn-Keeps fate nc s) d',
      )

  handle_new_conn-Delivering :
      (input : List ℕ) (history : List Entry) (nc : NewConn) (s : Session)
      → Delivers id base input history s
      → length (input ++ []) < 2 ^ 64
      → Offers (accepted nc) s
      → Delivering (input ++ []) history (handle_new_conn fate nc s).0
  handle_new_conn-Delivering input history nc s d small (inl other) =
      other_conn-Delivering input history nc s d small other
  handle_new_conn-Delivering input history nc s d small (inr (same, told, unused, covers)) =
      let mine =
        subst (λ b. Delivers nc.id b input history s) told
          (subst (λ i. Delivers i base input history s) same d) in
      let all = history ++ flushed (close_conn s) in
      let given =
        accepted-Delivers fate nc input history s mine (rw (sym (append-nil input)) small)
          (subst (λ i. data_to i s.trace ≡ []) same unused) covers in
      (
        flushed (close_conn s),
        rw (append-nil input) (
            subst (λ i. Delivers i base input all (handle_new_conn fate nc s).0) (sym same)
              (subst (λ b. Delivers nc.id b input all (handle_new_conn fate nc s).0) (sym told)
                given)),
      )

  -- Each case of the select keeps it: the connection is sent the history after `base`, each payload once and in
  -- order, all of it while it is the current one.
  pub step-Delivering :
      (input : List ℕ) (history : List Entry) (now : ℕ) (ev : Event) (l : Loop)
      → Delivers id base input history l.session
      → length (input ++ printed ev) < 2 ^ 64
      → Offers ev l.session
      → Delivering (input ++ printed ev) history (session_of (step fate now ev l))
  unfolding step on_deadline
  step-Delivering input history now (pty_data bytes) l d small offer =
      on_pty_data-Delivering input history now bytes l.session d small
  step-Delivering input history now pty_closed l d small offer =
      flushing input history l.session d small
  step-Delivering input history now deadline l d small offer =
      flushing input history _
        (with_coal input history l.session (Coalesce.receive l.session.coal) refl d) small
  step-Delivering input history now (stream ev) l d small offer =
      let (s', stop) = handle_stream_event fate ev l.session in
      rw
        (session_of-after_event
          (record l { last_recv = if is_heard ev l.session then now else l.last_recv }) s' stop)
        (silently input history l.session s' (handle_stream_event-Silent fate id ev l.session)
          (handle_stream_event-Keeps fate ev l.session) d)
  step-Delivering input history now (accepted nc) l d small offer =
      let (s', stop) = handle_new_conn fate nc l.session in
      rw (session_of-after_accept now l s' stop)
        (handle_new_conn-Delivering input history nc l.session d small offer)
  step-Delivering input history now (accept_failed done) l d small offer =
      rw (session_of-accept_failed l done) (
        silently input history l.session l.session (Silent-refl id l.session) (Keeps-refl l.session)
          d)
  step-Delivering input history now heartbeat_tick l d small offer =
      silently input history l.session _
        (beat_on-Silent fate id now l.last_recv l.session.conn l.session)
        (beat_on-Keeps fate now l.last_recv l.session.conn l.session) d
  step-Delivering input history now (shell_exited failed) l d small offer =
      graceful_shutdown-Delivering input history l.session d small
  step-Delivering input history now cancelled l d small offer =
      graceful_shutdown-Delivering input history l.session d small
