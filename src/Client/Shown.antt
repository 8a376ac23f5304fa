-- ===== src/Client/Shown.antt =====
-- What the client of internal/client/client.go has written to stdout, and which of its calls write nothing.
use goet.Prelude.{ℕ, ◌≡◌, refl, ◌∙◌, List, [], ◌∷◌, ◌++◌, Bool, true, false}
use goet.Prelude.{Option, none, some, if◌then◌else◌, ltb, take}
use goet.Protocol.Message.{shutdown, heartbeat, pos}
use goet.Coalesce
use goet.Coalesce.{Coalescer}
use goet.Session.{message, read_error}
use goet.Client.{
  Effect, write_control, write_stdout, Client, note, send_batch, flush_stdin_coalesced, term_size,
  send_resize,
}
use goet.Client.Escape.{State, Action, send, disconnect, Output, process}
use goet.Client.Relay.{
  Relay, Event, stdin_data, stdin_closed, deadline, control_result, data_result, window_change,
  heartbeat_tick, cancelled, Outcome, relaying, left, crashed, after_flush, add_stdin, after_escape,
  on_stdin, on_control, on_data, step, is_stale,
}

-- The bytes of the writes to stdout that succeeded.
abbrev pub shown : (List Effect → Bool) → List Effect → List ℕ
shown fate [] = []
shown fate (write_stdout bytes ∷ es) =
    let before = shown fate es in if fate (write_stdout bytes ∷ es) then before ++ bytes else before
shown fate (_ ∷ es) = shown fate es

module _ (fate : List Effect → Bool) where
  -- Nothing was shown, and nothing received.
  pub record Mute (c c' : Client) : Type 0 where
    pub shows : shown fate c'.trace ≡ shown fate c.trace
    pub heard : c'.recv_seq ≡ c.recv_seq

  pub Mute-refl : (c : Client) → Mute c c
  Mute-refl c = record { shows = refl; heard = refl }

  pub Mute-trans : {c d e : Client} → Mute c d → Mute d e → Mute c e
  Mute-trans h k = record { shows = k.shows ∙ h.shows; heard = k.heard ∙ h.heard }

  if-Mute : (b : Bool) (c x y : Client) → Mute c x → Mute c y → Mute c (if b then x else y)
  if-Mute true c x y h k = h
  if-Mute false c x y h k = k

  send_batch-Mute : (batch : Option (List ℕ)) (c : Client) → Mute c (send_batch fate batch c).0
  unfolding send_batch
  send_batch-Mute none c = Mute-refl c
  send_batch-Mute (some bytes) c = record { shows = refl; heard = refl }

  pub flush_stdin_coalesced-Mute :
      (coal : Coalescer) (c : Client) → Mute c (flush_stdin_coalesced fate coal c).1
  unfolding flush_stdin_coalesced
  flush_stdin_coalesced-Mute coal c = send_batch-Mute (Coalesce.flush coal).1 c

  term_size-Mute : (size : Option (ℕ × ℕ)) (c : Client) → Mute c (term_size size c)
  term_size-Mute none c = Mute-refl c
  term_size-Mute (some (rows, cols)) c = record { shows = refl; heard = refl }

  pub send_resize-Mute : (size : Option (ℕ × ℕ)) (c : Client) → Mute c (send_resize size c)
  unfolding send_resize
  send_resize-Mute size c = if-Mute c.is_tty c _ _ (term_size-Mute size c) (Mute-refl c)

  -- The client of an outcome shows what `c` showed.
  abbrev pub MuteOutcome : Client → Outcome → Type 0
  MuteOutcome c (relaying r) = Mute c r.client
  MuteOutcome c (left reason d) = Mute c d
  MuteOutcome c crashed = Unit

  Mute-MuteOutcome : (c d : Client) (o : Outcome) → Mute c d → MuteOutcome d o → MuteOutcome c o
  Mute-MuteOutcome c d (relaying r) h k = Mute-trans h k
  Mute-MuteOutcome c d (left reason e) h k = Mute-trans h k
  Mute-MuteOutcome c d crashed h k = tt

  if-MuteOutcome :
      (b : Bool) (c : Client) (x y : Outcome)
      → MuteOutcome c x
      → MuteOutcome c y
      → MuteOutcome c (if b then x else y)
  if-MuteOutcome true c x y h k = h
  if-MuteOutcome false c x y h k = k

  after_flush-Mute :
      (r : Relay) (coal : Coalescer)
      → MuteOutcome r.client (after_flush fate r (flush_stdin_coalesced fate coal r.client))
  after_flush-Mute r coal =
      let h = flush_stdin_coalesced-Mute coal r.client in
      if-MuteOutcome (flush_stdin_coalesced fate coal r.client).2 r.client _ _ h h

  add_stdin-Mute :
      (now : ℕ) (bytes : List ℕ) (r : Relay) → MuteOutcome r.client (add_stdin fate now bytes r)
  unfolding add_stdin
  add_stdin-Mute now bytes r =
      let (coal, full) = Coalesce.add now bytes r.coal in
      if-MuteOutcome full r.client _ _ (after_flush-Mute r coal) (Mute-refl r.client)

  after_escape-Mute :
      (now : ℕ) (r : Relay) (p : Option (State × Output × Action))
      → MuteOutcome r.client (after_escape fate now r p)
  after_escape-Mute now r none = tt
  after_escape-Mute now r (some (s, o, disconnect)) = record { shows = refl; heard = refl }
  after_escape-Mute now r (some (s, o, send)) =
      let r' : Relay = record r { client = record r.client { escape = s }; escape_buf = o.dst } in
      let same : Mute r.client r'.client = record { shows = refl; heard = refl } in
      if-MuteOutcome (ltb 0 o.n) r.client _ _
        (Mute-MuteOutcome r.client r'.client _ same (add_stdin-Mute now (take o.n o.dst) r')) same

  -- The cases of the select that read no data.
  abbrev pub IsDataless : Event → Type 0
  IsDataless (data_result (message m) waiting) = ⊥
  IsDataless (control_result (message shutdown) remaining) = ⊥
  IsDataless _ = Unit

  pub step-Mute :
      (now : ℕ) (ev : Event) (r : Relay) → IsDataless ev → MuteOutcome r.client (step fate now ev r)
  unfolding step on_stdin on_control on_data
  step-Mute now (stdin_data bytes) r h =
      if-MuteOutcome (is_stale now r) r.client _ _ (Mute-refl r.client) (
        after_escape-Mute now r
          (process r.client.escape bytes (record { dst = r.escape_buf; n = 0 })))
  step-Mute now stdin_closed r h = flush_stdin_coalesced-Mute r.coal r.client
  step-Mute now deadline r h =
      if-MuteOutcome (is_stale now r) r.client _ _ (Mute-refl r.client)
        (after_flush-Mute r (Coalesce.receive r.coal))
  step-Mute now (control_result read_error remaining) r h = Mute-refl r.client
  step-Mute now (control_result (message shutdown) remaining) r h = absurd h
  step-Mute now (control_result (message m) remaining) r h = Mute-refl r.client
  step-Mute now (data_result read_error waiting) r h = Mute-refl r.client
  step-Mute now (data_result (message m) waiting) r h = absurd h
  step-Mute now (window_change size) r h = send_resize-Mute size r.client
  step-Mute now heartbeat_tick r h =
      let beaten : Mute r.client (note (write_control (heartbeat (pos now))) r.client) = record {
        shows = refl;
        heard = refl;
      } in
      if-MuteOutcome (is_stale now r) r.client _ _ (Mute-refl r.client) (
        if-MuteOutcome (fate (write_control (heartbeat (pos now)) ∷ r.client.trace)) r.client _ _
          beaten beaten)
  step-Mute now cancelled r h = Mute-refl r.client
