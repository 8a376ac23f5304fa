-- ===== src/Client/History.antt =====
-- What is typed becomes a history of numbered payloads, of which the ring of the client in
-- internal/client/client.go holds the end, in each case of ioLoop.
use goet.Prelude.{ℕ, ◌+◌, ◌%◌, ◌^◌, ◌<◌, ◌≡◌, sym, inl, inr}
use goet.Prelude.{List, [], ◌∷◌, ◌++◌, append-nil, length, take, Bool}
use goet.Prelude.{Option, none, some, if◌then◌else◌, Bool-cases, ltb, tests}
use goet.Protocol.Message.{shutdown, data_msg, heartbeat, pos}
use goet.Catchup.{Buffer, Entry}
use goet.Coalesce
use goet.Coalesce.{Coalescer}
use goet.Coalesce.Batch.{add_asks}
use goet.Session.{Received, message, read_error}
use goet.Session.History.{Tracks, grow-Tracks, store-Tracks, flush_cases}
use goet.Client.{
  Effect, Client, note, send_batch, flush_stdin_coalesced, send_resize, write_stdout, write_control,
}
use goet.Client.Escape.{State, Action, send, disconnect, Output, process}
use goet.Client.Relay.{
  Relay, Event, stdin_data, stdin_closed, deadline, control_result, data_result, window_change,
  heartbeat_tick, cancelled, Outcome, relaying, left, crashed, drain_remaining_data, after_flush,
  add_stdin, after_escape, on_stdin, on_control, on_data, step, is_stale,
}

-- The ring and the batch of a relay.
abbrev pub TracksRelay : List ℕ → List Entry → Relay → Type 0
TracksRelay input history r = Tracks input history r.client.buf r.client.send_seq r.coal.buf

-- What the escape machine lets through in a case of the select.
abbrev pub passed : Option (State × Output × Action) → List ℕ
passed none = []
passed (some (s, o, send)) = take o.n o.dst
passed (some (s, o, disconnect)) = []

abbrev pub typed : ℕ → Event → Relay → List ℕ
typed now (stdin_data bytes) r =
    if is_stale now r
    then []
    else passed (process r.client.escape bytes (record { dst = r.escape_buf; n = 0 }))
typed now _ r = []

-- The history has grown by some entries. When ioLoop returns, a batch may be left over, in no payload.
abbrev pub TracksOutcome : List ℕ → List Entry → Outcome → Type 0
TracksOutcome input history (relaying r) =
    (more : List Entry) × TracksRelay input (history ++ more) r
TracksOutcome input history (left reason c) =
    (more : List Entry) × (batch : List ℕ) × Tracks input (history ++ more) c.buf c.send_seq batch
TracksOutcome input history crashed = Unit

module _ (input : List ℕ) (history : List Entry) where
  stay :
      (buf : Buffer) (send_seq : ℕ) (batch : List ℕ)
      → Tracks input history buf send_seq batch
      → (more : List Entry) × Tracks (input ++ []) (history ++ more) buf send_seq batch
  stay buf send_seq batch t = ([], rw (append-nil input, append-nil history) t)

  leave :
      (buf : Buffer) (send_seq : ℕ) (batch : List ℕ)
      → Tracks input history buf send_seq batch
      → (more : List Entry) × (batch' : List ℕ) × Tracks
          (input ++ [])
          (history ++ more)
          buf
          send_seq
          batch'
  leave buf send_seq batch t = ([], batch, rw (append-nil input, append-nil history) t)

  leave_after :
      (buf : Buffer) (send_seq : ℕ) (batch : List ℕ) (more : List Entry)
      → Tracks input (history ++ more) buf send_seq batch
      → (more' : List Entry) × (batch' : List ℕ) × Tracks
          (input ++ [])
          (history ++ more')
          buf
          send_seq
          batch'
  leave_after buf send_seq batch more t = (more, batch, rw (append-nil input) t)

  pub resized :
      (size : Option (ℕ × ℕ)) (r : Relay)
      → TracksRelay input history r
      → TracksRelay input history (record r { client = send_resize size r.client })
  unfolding send_resize
  resized none r t = elim (Bool-cases r.client.is_tty) [ inl tty ↦ rw tty t | inr pipe ↦ rw pipe t ]
  resized (some (rows, cols)) r t = elim (Bool-cases r.client.is_tty) [
    | inl tty ↦ rw tty t
    | inr pipe ↦ rw pipe t
  ]

module _ (fate : List Effect → Bool) where
  flush_stdin_coalesced-Tracks :
      (input : List ℕ) (history : List Entry) (coal : Coalescer) (c : Client)
      → Tracks input history c.buf c.send_seq coal.buf
      → length input < 2 ^ 64
      → let (coal', c', done) = flush_stdin_coalesced fate coal c in
        (more : List Entry) × Tracks input (history ++ more) c'.buf c'.send_seq coal'.buf
  unfolding flush_stdin_coalesced send_batch
  flush_stdin_coalesced-Tracks input history coal c t small = elim (flush_cases coal) [
    | inl (idle, same, _) ↦ ([], rw (append-nil history, idle, same) t)
    | inr (batch, some_bytes, empty) ↦ (
      record { seq = (c.send_seq + 1) % 2 ^ 64; payload = coal.buf } ∷ [],
      rw (batch, empty) (store-Tracks input history c.buf c.send_seq coal.buf t some_bytes small),
    )
  ]

  after_flush-Tracks :
      (input : List ℕ) (history : List Entry) (r : Relay) (coal : Coalescer)
      → Tracks input history r.client.buf r.client.send_seq coal.buf
      → length input < 2 ^ 64
      → TracksOutcome input history (after_flush fate r (flush_stdin_coalesced fate coal r.client))
  after_flush-Tracks input history r coal t small =
      let (more, t') = flush_stdin_coalesced-Tracks input history coal r.client t small in
      elim (Bool-cases (flush_stdin_coalesced fate coal r.client).2) [
        | inl done ↦ rw done (more, t')
        | inr failed ↦ rw failed (more, _, t')
      ]

  add_stdin-Tracks :
      (input : List ℕ) (history : List Entry) (now : ℕ) (bytes : List ℕ) (r : Relay)
      → TracksRelay input history r
      → length (input ++ bytes) < 2 ^ 64
      → TracksOutcome (input ++ bytes) history (add_stdin fate now bytes r)
  unfolding add_stdin
  add_stdin-Tracks input history now bytes r t small =
      let grown =
        grow-Tracks input history r.client.buf r.client.send_seq r.coal.buf _ bytes
          (add_asks now bytes r.coal).0 t in
      elim (Bool-cases (Coalesce.add now bytes r.coal).1) [
        | inl full ↦ rw full (
            after_flush-Tracks (input ++ bytes) history r (Coalesce.add now bytes r.coal).0 grown
              small)
        | inr some_room ↦ rw some_room ([], rw (append-nil history) grown)
      ]

  pub drain-Tracks :
      (input : List ℕ) (history : List Entry) (rs : List Received) (c : Client) (batch : List ℕ)
      → Tracks input history c.buf c.send_seq batch
      → Tracks input history
          (drain_remaining_data fate rs c).buf
          (drain_remaining_data fate rs c).send_seq
          batch
  unfolding drain_remaining_data
  drain-Tracks input history [] c batch t = t
  drain-Tracks input history (read_error ∷ rs) c batch t = t
  drain-Tracks input history (message (data_msg seq payload) ∷ rs) c batch t =
      let call : Effect = write_stdout payload in
      elim (Bool-cases (fate (call ∷ c.trace))) [
        | inl done ↦
            rw done
              (drain-Tracks input history rs (record (note call c) { recv_seq = seq }) batch t)
        | inr failed ↦ rw failed t
      ]
  drain-Tracks input history (message _ ∷ rs) c batch t = drain-Tracks input history rs c batch t

  after_escape-Tracks :
      (input : List ℕ) (history : List Entry) (now : ℕ) (r : Relay)
      (p : Option (State × Output × Action))
      → TracksRelay input history r
      → length (input ++ passed p) < 2 ^ 64
      → TracksOutcome (input ++ passed p) history (after_escape fate now r p)
  after_escape-Tracks input history now r none t small = tt
  after_escape-Tracks input history now r (some (s, o, disconnect)) t small =
      leave input history r.client.buf r.client.send_seq r.coal.buf t
  after_escape-Tracks input history now r (some (s, o, send)) t small =
      let r' : Relay = record r { client = record r.client { escape = s }; escape_buf = o.dst } in
      elim (Bool-cases (ltb 0 o.n)) [
        | inl some_sent ↦
            rw some_sent (add_stdin-Tracks input history now (take o.n o.dst) r' t small)
        | inr nothing ↦
            let none_sent : o.n ≡ 0 = omega (tests, nothing) in
            rw (nothing, none_sent) (stay input history r.client.buf r.client.send_seq r.coal.buf t)
      ]

  on_stdin-Tracks :
      (input : List ℕ) (history : List Entry) (now : ℕ) (bytes : List ℕ) (r : Relay)
      → TracksRelay input history r
      → length (input ++ typed now (stdin_data bytes) r) < 2 ^ 64
      → TracksOutcome (input ++ typed now (stdin_data bytes) r) history (on_stdin fate now bytes r)
  unfolding on_stdin
  on_stdin-Tracks input history now bytes r = elim (Bool-cases (is_stale now r)) [
    | inl stale ↦
        rw stale (λ t small. leave input history r.client.buf r.client.send_seq r.coal.buf t)
    | inr fresh ↦ rw fresh (λ t small. after_escape-Tracks input history now r _ t small)
  ]

  on_control-Tracks :
      (input : List ℕ) (history : List Entry) (now : ℕ) (result : Received)
      (remaining : List Received) (r : Relay)
      → TracksRelay input history r
      → TracksOutcome (input ++ []) history (on_control fate now result remaining r)
  unfolding on_control
  on_control-Tracks input history now read_error remaining r t =
      leave input history r.client.buf r.client.send_seq r.coal.buf t
  on_control-Tracks input history now (message shutdown) remaining r t =
      leave input history (drain_remaining_data fate remaining r.client).buf
        (drain_remaining_data fate remaining r.client).send_seq r.coal.buf
        (drain-Tracks input history remaining r.client r.coal.buf t)
  on_control-Tracks input history now (message _) remaining r t =
      stay input history r.client.buf r.client.send_seq r.coal.buf t

  on_data-Tracks :
      (input : List ℕ) (history : List Entry) (now : ℕ) (result : Received)
      (waiting : Option Received) (r : Relay)
      → TracksRelay input history r
      → TracksOutcome (input ++ []) history (on_data fate now result waiting r)
  unfolding on_data
  on_data-Tracks input history now read_error waiting r t =
      leave input history r.client.buf r.client.send_seq r.coal.buf t
  on_data-Tracks input history now (message (data_msg seq payload)) waiting r t =
      elim (Bool-cases (fate (write_stdout payload ∷ r.client.trace))) [
        | inl done ↦ rw done (stay input history r.client.buf r.client.send_seq r.coal.buf t)
        | inr failed ↦ rw failed (leave input history r.client.buf r.client.send_seq r.coal.buf t)
      ]
  on_data-Tracks input history now (message _) waiting r t =
      stay input history r.client.buf r.client.send_seq r.coal.buf t

  -- Whatever happens and succeeds in a case of the select, before 2^64 bytes are let through, what was let through is the payloads of
  -- the history and the batch that waits: the history grows at its end, is numbered from 1 without a gap,
  -- and the ring holds the end of it. If ioLoop returns, a batch may be left over.
  pub step-TracksOutcome :
      (input : List ℕ) (history : List Entry) (now : ℕ) (ev : Event) (r : Relay)
      → TracksRelay input history r
      → length (input ++ typed now ev r) < 2 ^ 64
      → TracksOutcome (input ++ typed now ev r) history (step fate now ev r)
  unfolding step
  step-TracksOutcome input history now (stdin_data bytes) r t small =
      on_stdin-Tracks input history now bytes r t small
  step-TracksOutcome input history now stdin_closed r t small =
      let (more, t') =
        flush_stdin_coalesced-Tracks input history r.coal r.client t
          (rw (sym (append-nil input)) small) in
      leave_after input history (flush_stdin_coalesced fate r.coal r.client).1.buf
        (flush_stdin_coalesced fate r.coal r.client).1.send_seq
        (flush_stdin_coalesced fate r.coal r.client).0.buf more t'
  step-TracksOutcome input history now deadline r t small = elim (Bool-cases (is_stale now r)) [
    | inl stale ↦ rw stale (leave input history r.client.buf r.client.send_seq r.coal.buf t)
    | inr fresh ↦
        rw (fresh, append-nil input)
          (after_flush-Tracks input history r (Coalesce.receive r.coal) t
            (rw (sym (append-nil input)) small))
  ]
  step-TracksOutcome input history now (control_result result remaining) r t small =
      on_control-Tracks input history now result remaining r t
  step-TracksOutcome input history now (data_result result waiting) r t small =
      on_data-Tracks input history now result waiting r t
  step-TracksOutcome input history now (window_change size) r t small =
      stay input history (send_resize size r.client).buf (send_resize size r.client).send_seq
        r.coal.buf (resized input history size r t)
  step-TracksOutcome input history now heartbeat_tick r t small =
      elim (Bool-cases (is_stale now r)) [
        | inl stale ↦ rw stale (leave input history r.client.buf r.client.send_seq r.coal.buf t)
        | inr fresh ↦
            rw fresh
              (elim (Bool-cases (fate (write_control (heartbeat (pos now)) ∷ r.client.trace))) [
                | inl done ↦
                    rw done (stay input history r.client.buf r.client.send_seq r.coal.buf t)
                | inr failed ↦
                    rw failed (leave input history r.client.buf r.client.send_seq r.coal.buf t)
              ])
      ]
  step-TracksOutcome input history now cancelled r t small =
      leave input history r.client.buf r.client.send_seq r.coal.buf t
