-- ===== src/Client/Sent/Steps.antt =====
-- What each case of ioLoop in internal/client/client.go sends on the connection.
use goet.Prelude.{ℕ, ◌+◌, ◌%◌, ◌^◌, ◌<◌, ◌≤◌, ◌≡◌, refl, sym, ap, subst, ◌∙◌, arith, inl, inr}
use goet.Prelude.{List, [], ◌∷◌, ◌++◌, map, append-nil, length, length-append, take, drop, Bool}
use goet.Prelude.{Option, none, some, Bool-cases, ltb, tests}
use goet.Protocol.Message.{Message, shutdown, data_msg, heartbeat, pos}
use goet.Catchup.{Entry}
use goet.Coalesce
use goet.Coalesce.{Coalescer}
use goet.Coalesce.Batch.{add_asks}
use goet.Session.{Received, message, read_error}
use goet.Session.History.{Tracks, grow-Tracks, store-Tracks, flush_cases}
use goet.Session.Replay.{data_of}
use goet.Session.Stream.{map-append, drop-append_low}
use goet.Client.{
  Effect, Client, note, send_batch, flush_stdin_coalesced, send_resize, write_stdout, write_control,
}
use goet.Client.Escape.{State, Action, send, disconnect, Output}
use goet.Client.Relay.{
  Relay, ExitReason, exit_network, exit_escape, exit_shutdown, exit_stdin_eof, exit_cancelled,
  drain_remaining_data, drain_for_shutdown, Event, stdin_data, stdin_closed, deadline,
  control_result, data_result, window_change, heartbeat_tick, cancelled, Outcome, relaying, left,
  crashed, after_flush, add_stdin, after_escape, on_stdin, on_control, on_data, step, is_stale,
}
use goet.Client.History.{passed, typed, resized, drain-Tracks}
use goet.Client.Sent.{data_sent, Sends, SendsRelay, send_resize_quiet}

module _ (fate : List Effect → Bool) (base : ℕ) where
  -- For a history that has grown by some entries. When ioLoop returns, a batch may be left over.
  abbrev pub SendsOutcome : List ℕ → List Entry → Outcome → Type 0
  SendsOutcome input history (relaying r) =
      (more : List Entry) × SendsRelay base input (history ++ more) r
  SendsOutcome input history (left reason c) =
      (more : List Entry) × (batch : List ℕ) × Sends base input (history ++ more) c batch
  SendsOutcome input history crashed = Unit

  -- A case that sends no data, and leaves the ring and the batch.
  stay :
      (input : List ℕ) (history : List Entry) (r : Relay)
      → SendsRelay base input history r
      → SendsOutcome (input ++ []) history (relaying r)
  stay input history r h = ([], rw (append-nil input, append-nil history) h)

  -- A case that ends ioLoop, and likewise.
  leave :
      (input : List ℕ) (history : List Entry) (reason : ExitReason) (c : Client) (batch : List ℕ)
      → Sends base input history c batch
      → SendsOutcome (input ++ []) history (left reason c)
  leave input history reason c batch h = ([], batch, rw (append-nil input, append-nil history) h)

  drain_quiet :
      (rs : List Received) (c : Client)
      → data_sent (drain_remaining_data fate rs c).trace ≡ data_sent c.trace
  unfolding drain_remaining_data
  drain_quiet [] c = refl
  drain_quiet (read_error ∷ rs) c = refl
  drain_quiet (message (data_msg seq payload) ∷ rs) c =
      let call : Effect = write_stdout payload in
      elim (Bool-cases (fate (call ∷ c.trace))) [
        | inl done ↦ rw done (drain_quiet rs (record (note call c) { recv_seq = seq }))
        | inr failed ↦ rw failed refl
      ]
  drain_quiet (message _ ∷ rs) c = drain_quiet rs c

  flush-Sends :
      (input : List ℕ) (history : List Entry) (coal : Coalescer) (c : Client)
      → Tracks input history c.buf c.send_seq coal.buf
      → length input < 2 ^ 64
      → let (coal', c', done) = flush_stdin_coalesced fate coal c in
        (more : List Entry) × Tracks input (history ++ more) c'.buf c'.send_seq coal'.buf
        × (data_sent c'.trace ≡ data_sent c.trace ++ map data_of more)
  unfolding flush_stdin_coalesced send_batch
  flush-Sends input history coal c t small = elim (flush_cases coal) [
    | inl (idle, same, _) ↦
        ([], rw (append-nil history, idle, same) t, rw idle (sym (append-nil (data_sent c.trace))))
    | inr (batch, some_bytes, empty) ↦ (
      record { seq = (c.send_seq + 1) % 2 ^ 64; payload = coal.buf } ∷ [],
      rw (batch, empty) (store-Tracks input history c.buf c.send_seq coal.buf t some_bytes small),
      rw batch refl,
    )
  ]

  grown_sent :
      (history more : List Entry) (before after : List Message)
      → base ≤ length history
      → before ≡ map data_of (drop base history)
      → after ≡ before ++ map data_of more
      → after ≡ map data_of (drop base (history ++ more))
  grown_sent history more before after low sent grown =
      grown
      ∙ ap (λ ms. ms ++ map data_of more) sent
      ∙ sym (map-append (drop base history) more)
      ∙ ap (λ es. map data_of es) (sym (drop-append_low base history more low))

  flushed-Sends :
      (input : List ℕ) (history : List Entry) (coal : Coalescer) (c : Client)
      → Sends base input history c coal.buf
      → length input < 2 ^ 64
      → let (coal', c', done) = flush_stdin_coalesced fate coal c in
        (more : List Entry) × Sends base input (history ++ more) c' coal'.buf
  flushed-Sends input history coal c h small =
      let (more, t', grown) = flush-Sends input history coal c h.tracks small in
      (
        more,
        record {
          tracks = t';
          low = omega (arith, h.low, length-append history more);
          all_sent = grown_sent history more (data_sent c.trace) _ h.low h.all_sent grown;
        },
      )

  after_flush-Sends :
      (input : List ℕ) (history : List Entry) (r : Relay) (coal : Coalescer)
      → Sends base input history r.client coal.buf
      → length input < 2 ^ 64
      → SendsOutcome input history (after_flush fate r (flush_stdin_coalesced fate coal r.client))
  after_flush-Sends input history r coal h small =
      let (more, h') = flushed-Sends input history coal r.client h small in
      elim (Bool-cases (flush_stdin_coalesced fate coal r.client).2) [
        | inl done ↦ rw done (more, h')
        | inr failed ↦ rw failed (more, _, h')
      ]

  add_stdin-Sends :
      (input : List ℕ) (history : List Entry) (now : ℕ) (bytes : List ℕ) (r : Relay)
      → SendsRelay base input history r
      → length (input ++ bytes) < 2 ^ 64
      → SendsOutcome (input ++ bytes) history (add_stdin fate now bytes r)
  unfolding add_stdin
  add_stdin-Sends input history now bytes r h small =
      let coal = (Coalesce.add now bytes r.coal).0 in
      let grown : Sends base (input ++ bytes) history r.client coal.buf = record {
        tracks =
            grow-Tracks input history r.client.buf r.client.send_seq r.coal.buf coal.buf bytes
              (add_asks now bytes r.coal).0 h.tracks;
        low = h.low;
        all_sent = h.all_sent;
      } in
      elim (Bool-cases (Coalesce.add now bytes r.coal).1) [
        | inl full ↦ rw full (after_flush-Sends (input ++ bytes) history r coal grown small)
        | inr some_room ↦ rw some_room ([], rw (append-nil history) grown)
      ]

  after_escape-Sends :
      (input : List ℕ) (history : List Entry) (now : ℕ) (r : Relay)
      (p : Option (State × Output × Action))
      → SendsRelay base input history r
      → length (input ++ passed p) < 2 ^ 64
      → SendsOutcome (input ++ passed p) history (after_escape fate now r p)
  after_escape-Sends input history now r none h small = tt
  after_escape-Sends input history now r (some (s, o, disconnect)) h small =
      leave input history exit_escape (record r.client { escape = s }) r.coal.buf
        (record { tracks = h.tracks; low = h.low; all_sent = h.all_sent })
  after_escape-Sends input history now r (some (s, o, send)) h small =
      let r' : Relay = record r { client = record r.client { escape = s }; escape_buf = o.dst } in
      let h' : SendsRelay base input history r' = record {
        tracks = h.tracks;
        low = h.low;
        all_sent = h.all_sent;
      } in
      elim (Bool-cases (ltb 0 o.n)) [
        | inl some_sent ↦
            rw some_sent (add_stdin-Sends input history now (take o.n o.dst) r' h' small)
        | inr nothing ↦
            let none_sent : o.n ≡ 0 = omega (tests, nothing) in
            rw (nothing, none_sent) (stay input history r' h')
      ]

  on_stdin-Sends :
      (input : List ℕ) (history : List Entry) (now : ℕ) (bytes : List ℕ) (r : Relay)
      → SendsRelay base input history r
      → length (input ++ typed now (stdin_data bytes) r) < 2 ^ 64
      → SendsOutcome (input ++ typed now (stdin_data bytes) r) history (on_stdin fate now bytes r)
  unfolding on_stdin
  on_stdin-Sends input history now bytes r = elim (Bool-cases (is_stale now r)) [
    | inl stale ↦ rw stale (λ h small. leave input history exit_network r.client r.coal.buf h)
    | inr fresh ↦ rw fresh (λ h small. after_escape-Sends input history now r _ h small)
  ]

  -- A case of the select before 2^64 bytes are let through, unless the escape machine crashes, sends on the connection what
  -- is added to the history, which is numbered and holds what was let through but for the batch that waits or is left over:
  -- also if the case ends ioLoop. So the connection has been sent, in order and each once, all the payloads after
  -- the first `base`; the write of the last of them may have failed.
  pub step-SendsOutcome :
      (input : List ℕ) (history : List Entry) (now : ℕ) (ev : Event) (r : Relay)
      → SendsRelay base input history r
      → length (input ++ typed now ev r) < 2 ^ 64
      → SendsOutcome (input ++ typed now ev r) history (step fate now ev r)
  unfolding step on_control on_data
  step-SendsOutcome input history now (stdin_data bytes) r h small =
      on_stdin-Sends input history now bytes r h small
  step-SendsOutcome input history now stdin_closed r h small =
      let (more, h') =
        flushed-Sends input history r.coal r.client h (rw (sym (append-nil input)) small) in
      let (coal, c, done) = flush_stdin_coalesced fate r.coal r.client in
      (
        more,
        coal.buf,
        subst (λ i. Sends base i (history ++ more) c coal.buf) (sym (append-nil input)) h',
      )
  step-SendsOutcome input history now deadline r h small = elim (Bool-cases (is_stale now r)) [
    | inl stale ↦ rw stale (leave input history exit_network r.client r.coal.buf h)
    | inr fresh ↦
        rw (fresh, append-nil input)
          (after_flush-Sends input history r (Coalesce.receive r.coal)
            (record { tracks = h.tracks; low = h.low; all_sent = h.all_sent })
            (rw (sym (append-nil input)) small))
  ]
  step-SendsOutcome input history now (control_result read_error remaining) r h small =
      leave input history exit_network r.client r.coal.buf h
  step-SendsOutcome input history now (control_result (message shutdown) remaining) r h small =
      let d = drain_remaining_data fate remaining r.client in
      leave input history exit_shutdown d r.coal.buf (record {
        tracks = drain-Tracks fate input history remaining r.client r.coal.buf h.tracks;
        low = h.low;
        all_sent = drain_quiet remaining r.client ∙ h.all_sent;
      })
  step-SendsOutcome input history now (control_result (message m) remaining) r h small =
      stay input history (record r { last_recv = now })
        (record { tracks = h.tracks; low = h.low; all_sent = h.all_sent })
  step-SendsOutcome input history now (data_result read_error waiting) r h small =
      leave input history (drain_for_shutdown waiting) r.client r.coal.buf h
  step-SendsOutcome input history now (data_result (message (data_msg seq payload)) waiting) r h
        small =
      elim (Bool-cases (fate (write_stdout payload ∷ r.client.trace))) [
        | inl done ↦ rw done (
            stay input history
              (record r {
                client = record (note (write_stdout payload) r.client) { recv_seq = seq };
                last_recv = now;
              })
              (record { tracks = h.tracks; low = h.low; all_sent = h.all_sent }))
        | inr failed ↦ rw failed (
            leave input history exit_stdin_eof (note (write_stdout payload) r.client) r.coal.buf
              (record { tracks = h.tracks; low = h.low; all_sent = h.all_sent }))
      ]
  step-SendsOutcome input history now (data_result (message m) waiting) r h small =
      stay input history (record r { last_recv = now })
        (record { tracks = h.tracks; low = h.low; all_sent = h.all_sent })
  step-SendsOutcome input history now (window_change size) r h small =
      stay input history (record r { client = send_resize size r.client })
        (record {
          tracks = resized input history size r h.tracks;
          low = h.low;
          all_sent = send_resize_quiet size r.client ∙ h.all_sent;
        })
  step-SendsOutcome input history now heartbeat_tick r h small =
      elim (Bool-cases (is_stale now r)) [
        | inl stale ↦ rw stale (leave input history exit_network r.client r.coal.buf h)
        | inr fresh ↦
            let call : Effect = write_control (heartbeat (pos now)) in
            elim (Bool-cases (fate (call ∷ r.client.trace))) [
              | inl done ↦
                  rw (fresh, done)
                    (stay input history (record r { client = note call r.client })
                      (record { tracks = h.tracks; low = h.low; all_sent = h.all_sent }))
              | inr failed ↦
                  rw (fresh, failed)
                    (leave input history exit_network (note call r.client) r.coal.buf
                      (record { tracks = h.tracks; low = h.low; all_sent = h.all_sent }))
            ]
      ]
  step-SendsOutcome input history now cancelled r h small =
      leave input history exit_cancelled r.client r.coal.buf h
