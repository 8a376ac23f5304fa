-- ===== src/Client/Receipt.antt =====
-- The client of internal/client/client.go reads the payloads of a history, and shows them.
use goet.Prelude.{ℕ, zero, suc, ◌+◌, ◌<◌, ◌≤◌, ◌≡◌, refl, sym, ap, subst, ◌∙◌, arith, inl, inr}
use goet.Prelude.{
  List, [], ◌∷◌, ◌++◌, map, append-nil, length, take, drop, Bool, true, false, Bool-cases,
}
use goet.Prelude.{Option}
use goet.Protocol.Message.{Message, shutdown}
use goet.Catchup.{Entry}
use goet.Session.{Received, message, read_error}
use goet.Session.History.{payloads, payloads-append, IsNumbered}
use goet.Session.Replay.{data_of}
use goet.Client.{Effect, Client, note, write_stdout}
use goet.Client.Relay.{
  Relay, Event, control_result, data_result, Outcome, relaying, left, crashed, drain_remaining_data,
  on_control, on_data, step,
}
use goet.Client.Shown.{shown, Mute, MuteOutcome, step-Mute, IsDataless}

-- Results of reads from a stream with these messages. After an error nothing more is looked at.
abbrev pub IsNext : List Received → List Message → Type 0
IsNext [] ms = Unit
IsNext (read_error ∷ rs) ms = Unit
IsNext (message m ∷ rs) [] = ⊥
IsNext (message m ∷ rs) (m' ∷ ms) = (m ≡ m') × IsNext rs ms

abbrev seq_of : Entry → ℕ
seq_of e = e.seq

-- The data messages that a case reads, and for how many of them ioLoop goes on.
abbrev pub Reads : Event → List Message → Type 0
Reads (data_result r waiting) ms = IsNext (r ∷ []) ms
Reads (control_result (message shutdown) remaining) ms = IsNext remaining ms
Reads _ ms = Unit

abbrev pub count : Event → ℕ
count (data_result (message m) waiting) = 1
count _ = 0

IsNext-inv :
    (m : Message) (rs : List Received) (es : List Entry)
    → IsNext (message m ∷ rs) (map data_of es)
    → (e : Entry) × (es' : List Entry) × (es ≡ e ∷ es')
      × (m ≡ data_of e)
      × IsNext rs (map data_of es')
IsNext-inv m rs [] h = absurd h
IsNext-inv m rs (e ∷ es) h = (e, es, refl, h.0, h.1)

module _ (e : Entry) (es : List Entry) where
  pub take_next :
      (n : ℕ) (history : List Entry)
      → drop n history ≡ e ∷ es
      → take (suc n) history ≡ take n history ++ (e ∷ [])
  take_next zero [] h = cc
  take_next zero (x ∷ xs) h = cc
  take_next (suc n) [] h = cc
  take_next (suc n) (x ∷ xs) h = ap (λ t. x ∷ t) (take_next n xs h)

  drop_next : (n : ℕ) (history : List Entry) → drop n history ≡ e ∷ es → drop (suc n) history ≡ es
  drop_next zero [] h = cc
  drop_next zero (x ∷ xs) h = cc
  drop_next (suc n) [] h = cc
  drop_next (suc n) (x ∷ xs) h = drop_next n xs h

  pub seq_next :
      (k n : ℕ) (history : List Entry)
      → IsNumbered k history
      → drop n history ≡ e ∷ es
      → (e.seq ≡ k + n) × (n < length history)
  seq_next k zero [] numbered h = cc
  seq_next k zero (x ∷ xs) numbered h =
      let same : x ≡ e = cc in (sym (ap seq_of same) ∙ numbered.0 ∙ omega arith, omega arith)
  seq_next k (suc n) [] numbered h = cc
  seq_next k (suc n) (x ∷ xs) numbered h =
      let (number, below) = seq_next (k + 1) n xs numbered.1 h in
      (number ∙ omega arith, omega arith)

module _ (fate : List Effect → Bool) (history : List Entry) where
  -- The client has shown the payloads up to the number that it has received.
  pub record AtHistory (c : Client) : Type 0 where
    pub known : c.recv_seq ≤ length history
    pub shows : shown fate c.trace ≡ payloads (take c.recv_seq history)

  pub Mute-AtHistory : (c d : Client) → Mute fate c d → AtHistory c → AtHistory d
  Mute-AtHistory c d m h = record {
    known = omega (arith, h.known, m.heard);
    shows = m.shows ∙ h.shows ∙ ap (λ n. payloads (take n history)) (sym m.heard);
  }

  -- What a case of the select leaves: the client has shown the payloads up to the number that it has
  -- received, which is `count` more than before if ioLoop goes on.
  abbrev pub AtOutcome : ℕ → Client → Outcome → Type 0
  AtOutcome count c (relaying r) = AtHistory r.client × (r.client.recv_seq ≡ count + c.recv_seq)
  AtOutcome count c (left reason d) = AtHistory d
  AtOutcome count c crashed = Unit

  Mute-AtOutcome : (c : Client) (o : Outcome) → MuteOutcome fate c o → AtHistory c → AtOutcome 0 c o
  Mute-AtOutcome c (relaying r) m h = (Mute-AtHistory c r.client m h, m.heard ∙ omega arith)
  Mute-AtOutcome c (left reason d) m h = Mute-AtHistory c d m h
  Mute-AtOutcome c crashed m h = tt

module _ (fate : List Effect → Bool) (history : List Entry) (numbered : IsNumbered 1 history) where
  -- The next payload was written.
  show_next :
      (e : Entry) (es : List Entry) (c : Client)
      → AtHistory fate history c
      → drop c.recv_seq history ≡ e ∷ es
      → fate (write_stdout e.payload ∷ c.trace) ≡ true
      → AtHistory fate history (record (note (write_stdout e.payload) c) { recv_seq = e.seq })
        × (e.seq ≡ suc c.recv_seq)
  show_next e es c h next done =
      let (number, below) = seq_next e es 1 c.recv_seq history numbered next in
      let one_more : e.seq ≡ suc c.recv_seq = number ∙ omega arith in
      (
        record {
          known = omega (arith, one_more, below);
          shows = rw done (
              ap (λ t. t ++ e.payload) h.shows
              ∙ ap (λ t. payloads (take c.recv_seq history) ++ t) (sym (append-nil e.payload))
              ∙ sym (payloads-append (take c.recv_seq history) (e ∷ []))
              ∙ ap payloads (sym (take_next e es c.recv_seq history next))
              ∙ ap (λ n. payloads (take n history)) (sym one_more));
        },
        one_more,
      )

  -- The write failed: the client is as it was.
  show_failed :
      (bytes : List ℕ) (c : Client)
      → AtHistory fate history c
      → fate (write_stdout bytes ∷ c.trace) ≡ false
      → AtHistory fate history (note (write_stdout bytes) c)
  show_failed bytes c h failed = record { known = h.known; shows = rw failed h.shows }

  drain_next :
      (e : Entry) (es : List Entry) (rs : List Received) (c : Client)
      → ((d : Client)
          → AtHistory fate history d
          → IsNext rs (map data_of (drop d.recv_seq history))
          → AtHistory fate history (drain_remaining_data fate rs d))
      → AtHistory fate history c
      → drop c.recv_seq history ≡ e ∷ es
      → IsNext rs (map data_of es)
      → AtHistory fate history (drain_remaining_data fate (message (data_of e) ∷ rs) c)
  unfolding drain_remaining_data
  drain_next e es rs c ih h next more =
      elim (Bool-cases (fate (write_stdout e.payload ∷ c.trace))) [
        | inl done ↦
            let (h', one_more) = show_next e es c h next done in
            let rest : drop e.seq history ≡ es =
              ap (λ n. drop n history) one_more ∙ drop_next e es c.recv_seq history next in
            rw done (
              ih (record (note (write_stdout e.payload) c) { recv_seq = e.seq }) h'
                (subst (λ t. IsNext rs (map data_of t)) (sym rest) more))
        | inr failed ↦ rw failed (show_failed e.payload c h failed)
      ]

  drain-AtHistory :
      (rs : List Received) (c : Client)
      → AtHistory fate history c
      → IsNext rs (map data_of (drop c.recv_seq history))
      → AtHistory fate history (drain_remaining_data fate rs c)
  unfolding drain_remaining_data
  drain-AtHistory [] c h next = h
  drain-AtHistory (read_error ∷ rs) c h next = h
  drain-AtHistory (message m ∷ rs) c h next =
      let (e, es, here, is_data, more) = IsNext-inv m rs (drop c.recv_seq history) next in
      subst (λ t. AtHistory fate history (drain_remaining_data fate (message t ∷ rs) c))
        (sym is_data) (drain_next e es rs c (drain-AtHistory rs) h here more)

  on_data-AtOutcome :
      (now : ℕ) (m : Message) (waiting : Option Received) (r : Relay)
      → AtHistory fate history r.client
      → IsNext (message m ∷ []) (map data_of (drop r.client.recv_seq history))
      → AtOutcome fate history 1 r.client (on_data fate now (message m) waiting r)
  unfolding on_data
  on_data-AtOutcome now m waiting r h next =
      let (e, es, here, is_data, _) = IsNext-inv m [] (drop r.client.recv_seq history) next in
      subst (λ t. AtOutcome fate history 1 r.client (on_data fate now (message t) waiting r))
        (sym is_data)
        (elim (Bool-cases (fate (write_stdout e.payload ∷ r.client.trace))) [
          | inl done ↦
              let (h', one_more) = show_next e es r.client h here done in
              rw done (h', one_more ∙ omega arith)
          | inr failed ↦ rw failed (show_failed e.payload r.client h failed)
        ])

  dataless-AtOutcome :
      (now : ℕ) (ev : Event) (r : Relay)
      → IsDataless fate ev
      → AtHistory fate history r.client
      → AtOutcome fate history 0 r.client (step fate now ev r)
  dataless-AtOutcome now ev r quiet h =
      Mute-AtOutcome fate history r.client (step fate now ev r) (step-Mute fate now ev r quiet) h

  pub step-AtOutcome :
      (now : ℕ) (ev : Event) (r : Relay)
      → AtHistory fate history r.client
      → Reads ev (map data_of (drop r.client.recv_seq history))
      → AtOutcome fate history (count ev) r.client (step fate now ev r)
  unfolding step on_control
  step-AtOutcome now (data_result (message m) waiting) r h reads =
      on_data-AtOutcome now m waiting r h reads
  step-AtOutcome now (control_result (message shutdown) remaining) r h reads =
      drain-AtHistory remaining r.client h reads
  step-AtOutcome now (data_result read_error waiting) r h reads =
      dataless-AtOutcome now (data_result read_error waiting) r tt h
  step-AtOutcome now (control_result result remaining) r h reads =
      dataless-AtOutcome now (control_result result remaining) r tt h
  step-AtOutcome now ev r h reads = dataless-AtOutcome now ev r tt h
