-- ===== src/Session/Stream.antt =====
-- What one connection is sent by the session of internal/session/session.go: the history after the number
-- that its client announced, as far as it goes.
pub mod Held
pub mod Accept
pub mod Steps
use goet.Prelude.{
  ℕ, zero, suc, ◌+◌, ◌-◌, ◌^◌, ◌<◌, ◌≤◌, ◌≡◌, ◌≢◌, ◌⊎◌, refl, sym, ap, ap₂, subst, ◌∙◌, arith, inl,
  inr,
}
use goet.Prelude.{
  List, [], ◌∷◌, ◌++◌, map, append-nil, append_assoc, length, length-append, length-zero, drop,
  drop-nil, Bool, true, false, Bool-cases, not,
}
use goet.Prelude.{Option, none, some, if◌then◌else◌, ◌==◌, ==→eq, ==_refl}
use goet.Protocol.Message.{Message, data_msg, terminal_info, sequence_header, heartbeat, pos}
use goet.Catchup
use goet.Catchup.{Buffer, Entry, oldest_seq}
use goet.Catchup.Spec.{newer}
use goet.Catchup.Refine.{contents}
use goet.Catchup.Replay.{replay_since-newer}
use goet.Catchup.History.{IsEndOf, replay_since_complete}
use goet.Coalesce
use goet.Session.{
  Effect, Session, Received, message, read_error, StreamEvent, NewConn, note, close_conn, perform,
  or_close, send_stored, send_batch, keep, flush_coalesced, write_data, write_control,
  handle_stream_event, replay, start_streams, replay_missed, spawn, take_hello, after_header,
  handle_new_conn, graceful_shutdown, say_shutdown,
}
use goet.Session.Calls.{
  Keeps, send_stored-Keeps, close_conn-Keeps, handle_stream_event-Keeps, handle_new_conn-Keeps,
  beat_on-Keeps, spawn-Keeps,
}
use goet.Session.History.{
  payloads, IsNumbered, Tracks, TracksSession, Keeps-Tracks, flushed, batch_entries,
  flush_coalesced-Tracks_exact, flush_cases,
}
use goet.Session.Replay.{data_of, data_to, close_conn-data_to, close_conn-offline, flush-offline}
use goet.Session.Conns.{IsNumbered-IsIncreasing, newer-drop}
use goet.Session.Silent.{
  Silent, Silent-refl, Silent-trans, close_conn-Silent, spawn-Silent, start_streams-Silent,
}

-- `input` has been printed and is tracked by `history`; the connection `id`, whose client announced `base`,
-- has been sent the history after it but for `rest`, which is nothing while it is the current one.
pub record Delivers (id base : ℕ) (input : List ℕ) (history : List Entry) (s : Session)
    : Type 0 where
  pub tracks : TracksSession input history s
  pub low : base ≤ length history
  pub rest : List Message
  pub sent : data_to id s.trace ++ rest ≡ map data_of (drop base history)
  pub complete : s.conn ≡ some id → rest ≡ []

pub map-append : (xs ys : List Entry) → map data_of (xs ++ ys) ≡ map data_of xs ++ map data_of ys
map-append [] ys = refl
map-append (x ∷ xs) ys = ap (λ t. data_of x ∷ t) (map-append xs ys)

pub drop-append_low :
    (n : ℕ) (xs ys : List Entry) → n ≤ length xs → drop n (xs ++ ys) ≡ drop n xs ++ ys
drop-append_low zero xs ys h = refl
drop-append_low (suc n) [] ys h = absurd (omega arith)
drop-append_low (suc n) (x ∷ xs) ys h = drop-append_low n xs ys (omega arith)

module _ (id base : ℕ) (input : List ℕ) (history : List Entry) where
  -- Calls that send nothing on the connection.
  pub Silent-Delivers :
      (s s' : Session)
      → Silent id s s'
      → Keeps s s'
      → Delivers id base input history s
      → Delivers id base input history s'
  Silent-Delivers s s' h k d = record {
    tracks = Keeps-Tracks input history s s' k d.tracks;
    low = d.low;
    rest = d.rest;
    sent = ap (λ t. t ++ d.rest) h.quiet ∙ d.sent;
    complete = λ on. d.complete (h.stays on);
  }

-- A batch is written: to `id`, if it is the current connection.
abbrev Writes : ℕ → List Message → Session → Session → Type 0
Writes id ms s s' =
    (Silent id s s' × (s.conn ≢ some id))
    ⊎ ((s.conn ≡ some id) × (data_to id s'.trace ≡ data_to id s.trace ++ ms))

module _ (fate : List Effect → Bool) (id : ℕ) where
  or_close-data_to :
      (s : Session) (done : Bool) → data_to id (or_close fate (s, done)).trace ≡ data_to id s.trace
  or_close-data_to s true = refl
  or_close-data_to s false = close_conn-data_to id s

  or_close-Silent : (s : Session) (done : Bool) → Silent id s (or_close fate (s, done))
  or_close-Silent s true = Silent-refl id s
  or_close-Silent s false = close_conn-Silent id s

  write_at :
      (o : Option ℕ) (m : Message) (s : Session)
      → s.conn ≡ o
      → Writes id
          (m ∷ [])
          s
          (elim o [ none ↦ s | some c ↦ or_close fate (perform fate (write_data c m) s) ])
  write_at none m s off = inl (Silent-refl id s, λ on. ground arith)
  write_at (some c) m s on = elim (Bool-cases (id == c)) [
    | inl same ↦
        let call : Effect = write_data c m in
        inr (
          on ∙ ap (λ d. some d) (sym (==→eq id c same)),
          or_close-data_to (note call s) (fate (call ∷ s.trace)) ∙ rw same refl,
        )
    | inr other ↦
        let call : Effect = write_data c m in
        inl (
          Silent-trans id (record { quiet = rw other refl; stays = λ h. h })
              (or_close-Silent (note call s) (fate (call ∷ s.trace))),
          λ here. ground (arith, ==_refl id),
        )
  ]

  -- A flush adds a batch to the history, and to what the connection is sent.
  flush_coalesced-Writes :
      (s : Session)
      → (Silent id s (flush_coalesced fate s) × ((s.conn ≢ some id) ⊎ (flushed s ≡ [])))
        ⊎ ((s.conn ≡ some id)
            × (data_to id (flush_coalesced fate s).trace
                ≡ data_to id s.trace ++ map data_of (flushed s)))
  unfolding flush_coalesced send_stored
  flush_coalesced-Writes s = elim (flush_cases s.coal) [
    | inl (idle, _, _) ↦ rw idle (inl (Silent-refl id s, inr refl))
    | inr (batch, some_bytes, empty) ↦
        let kept = keep fate s.coal.buf (record s { coal = (Coalesce.flush s.coal).0 }) in
        rw batch (elim (write_at kept.conn (data_msg kept.send_seq s.coal.buf) kept refl) [
          | inl (silent, away) ↦
              inl (record { quiet = silent.quiet; stays = silent.stays }, inl away)
          | inr (on, wrote) ↦ inr (on, wrote)
        ])
  ]

  pub flush_coalesced-Delivers :
      (base : ℕ) (input : List ℕ) (history : List Entry) (s : Session)
      → Delivers id base input history s
      → length input < 2 ^ 64
      → Delivers id base input (history ++ flushed s) (flush_coalesced fate s)
  flush_coalesced-Delivers base input history s d small =
      let tracks = flush_coalesced-Tracks_exact fate input history s d.tracks small in
      let low : base ≤ length (history ++ flushed s) =
        omega (arith, d.low, length-append history (flushed s)) in
      let grown =
        sym (map-append (drop base history) (flushed s))
        ∙ ap (map data_of) (sym (drop-append_low base history (flushed s) d.low)) in
      elim (flush_coalesced-Writes s) [
        | inl (silent, why) ↦ record {
          tracks = tracks;
          low = low;
          rest = d.rest ++ map data_of (flushed s);
          sent =
              ap (λ t. t ++ (d.rest ++ map data_of (flushed s))) silent.quiet
              ∙ sym (append_assoc (data_to id s.trace) d.rest (map data_of (flushed s)))
              ∙ ap (λ t. t ++ map data_of (flushed s)) d.sent
              ∙ grown;
          complete = λ on. elim why [
            | inl away ↦ absurd (away (silent.stays on))
            | inr nothing ↦ ap₂ (λ t es. t ++ map data_of es) (d.complete (silent.stays on)) nothing
          ];
        }
        | inr (on, wrote) ↦ record {
          tracks = tracks;
          low = low;
          rest = [];
          sent =
              append-nil _
              ∙ wrote
              ∙ ap (λ t. t ++ map data_of (flushed s))
                  (sym (append-nil (data_to id s.trace))
                    ∙ ap (λ t. data_to id s.trace ++ t) (sym (d.complete on))
                    ∙ d.sent)
              ∙ grown;
          complete = λ still. refl;
        }
      ]
