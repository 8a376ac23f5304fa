-- ===== src/Client/Sent/Connect.antt =====
-- What a round of Run in internal/client/client.go sends on its connection before ioLoop.
use goet.Prelude.{ℕ, ◌≤◌, ◌≡◌, refl, sym, ap, subst, ◌∙◌, inl, inr}
use goet.Prelude.{
  List, [], ◌∷◌, ◌++◌, map, append-nil, append_assoc, length, drop, Bool, true, false, Bool-cases,
}
use goet.Prelude.{Option, none, some, if◌then◌else◌}
use goet.Protocol.Message.{Message, sequence_header, terminal_info}
use goet.Catchup
use goet.Catchup.{Entry}
use goet.Session.{message}
use goet.Session.History.{Tracks}
use goet.Session.Replay.{data_of}
use goet.Session.Stream.Held.{ReachesBack, replay_since-drop}
use goet.Client.{
  Effect, dial, write_control, write_data, close_conn, make_raw, Client, note, resend,
  handle_sequence_exchange, send_resize,
}
use goet.Client.Relay.{Relay, start}
use goet.Client.Run.{
  Greeting, Phase, retrying, connected, returned, context_done, connect, after_dial, after_exchange,
  after_terminal_info, after_raw, enter,
}
use goet.Client.Sent.{data_sent, SendsRelay, send_resize_quiet}

-- Messages were sent as data, and the ring is as it was.
pub record Sent (ms : List Message) (c d : Client) : Type 0 where
  pub wrote : data_sent d.trace ≡ data_sent c.trace ++ ms
  pub ring : d.buf ≡ c.buf
  pub number : d.send_seq ≡ c.send_seq

Sent-quiet :
    {c d e : Client} {ms : List Message}
    → Sent ms c d
    → data_sent e.trace ≡ data_sent d.trace
    → e.buf ≡ d.buf
    → e.send_seq ≡ d.send_seq
    → Sent ms c e
Sent-quiet h quiet ring number = record {
  wrote = quiet ∙ h.wrote;
  ring = ring ∙ h.ring;
  number = number ∙ h.number;
}

send_resize-same :
    (size : Option (ℕ × ℕ)) (c : Client)
    → ((send_resize size c).buf ≡ c.buf) × ((send_resize size c).send_seq ≡ c.send_seq)
unfolding send_resize
send_resize-same none c = elim (Bool-cases c.is_tty) [
  | inl tty ↦ rw tty (refl, refl)
  | inr pipe ↦ rw pipe (refl, refl)
]
send_resize-same (some (rows, cols)) c = elim (Bool-cases c.is_tty) [
  | inl tty ↦ rw tty (refl, refl)
  | inr pipe ↦ rw pipe (refl, refl)
]

-- Some of the messages, from the first on, were sent as data, and the ring is as it was.
pub record Begun (ms : List Message) (c d : Client) : Type 0 where
  pub wrote : (zs : List Message) × (data_sent d.trace ++ zs ≡ data_sent c.trace ++ ms)
  pub ring : d.buf ≡ c.buf
  pub number : d.send_seq ≡ c.send_seq

Sent-Begun : {c d : Client} {ms : List Message} → Sent ms c d → Begun ms c d
Sent-Begun {d} h = record {
  wrote = ([], append-nil (data_sent d.trace) ∙ h.wrote);
  ring = h.ring;
  number = h.number;
}

-- What is known of all that was to be sent when the round gets to ioLoop, and else.
abbrev pub Entered : List Message → Client → Phase → Type 0
Entered ms c (connected r) = Sent ms c r.client × (r.coal.buf ≡ [])
Entered ms c (retrying d) = Begun ms c d
Entered ms c (returned stop d) = Begun ms c d

if-Entered :
    (b : Bool) (ms : List Message) (c : Client) (p q : Phase)
    → Entered ms c p
    → Entered ms c q
    → Entered ms c (if b then p else q)
if-Entered true ms c p q h k = h
if-Entered false ms c p q h k = k

enter-Entered :
    (now : ℕ) (g : Greeting) (ms : List Message) (c d : Client)
    → Sent ms c d
    → Entered ms c (enter now g d)
unfolding start
enter-Entered now g ms c d h =
    let (ring, number) = send_resize-same g.size d in
    let resized : Sent ms c (send_resize g.size d) =
      Sent-quiet {d = d} h (send_resize_quiet g.size d) ring number in
    (record { wrote = resized.wrote; ring = resized.ring; number = resized.number }, refl)

module _ (fate : List Effect → Bool) where
  -- All of the entries were sent, if no write failed.
  abbrev Resent : List Entry → Client → Client × Bool → Type 0
  Resent es c (d, true) = Sent (map data_of es) c d
  Resent es c (d, false) = Begun (map data_of es) c d

  resend-Resent : (es : List Entry) (c : Client) → Resent es c (resend fate es c)
  unfolding resend
  resend-Resent [] c = record {
    wrote = sym (append-nil (data_sent c.trace));
    ring = refl;
    number = refl;
  }
  resend-Resent (e ∷ es) c =
      let call : Effect = write_data (data_of e) in
      elim (Bool-cases (fate (call ∷ c.trace))) [
        | inl done ↦
            let same : resend fate (e ∷ es) c ≡ resend fate es (note call c) = rw done refl in
            subst (λ p. Resent (e ∷ es) c p) (sym same)
              (resent_after e es c (resend fate es (note call c)) (resend-Resent es (note call c)))
        | inr failed ↦
            let same : resend fate (e ∷ es) c ≡ (note call c, false) = rw failed refl in
            subst (λ p. Resent (e ∷ es) c p) (sym same)
              (record {
                wrote = (
                  map data_of es,
                  append_assoc (data_sent c.trace) (data_of e ∷ []) (map data_of es),
                );
                ring = refl;
                number = refl;
              })
      ]
    where
      resent_after :
          (e : Entry) (es : List Entry) (c : Client) (p : Client × Bool)
          → Resent es (note (write_data (data_of e)) c) p
          → Resent (e ∷ es) c p
      resent_after e es c (d, false) h = record {
        wrote = (
          h.wrote.0,
          h.wrote.1 ∙ append_assoc (data_sent c.trace) (data_of e ∷ []) (map data_of es),
        );
        ring = h.ring;
        number = h.number;
      }
      resent_after e es c (d, true) h = record {
        wrote = h.wrote ∙ append_assoc (data_sent c.trace) (data_of e ∷ []) (map data_of es);
        ring = h.ring;
        number = h.number;
      }

  hung_up : (ms : List Message) (c d : Client) → Begun ms c d → Begun ms c (note close_conn d)
  hung_up ms c d h = record { wrote = h.wrote; ring = h.ring; number = h.number }

  after_raw-Entered :
      (now : ℕ) (g : Greeting) (ms : List Message) (c : Client) (p : Client × Bool)
      → Sent ms c p.0
      → Entered ms c (after_raw fate now g p)
  after_raw-Entered now g ms c (d, true) h = enter-Entered now g ms c d h
  after_raw-Entered now g ms c (d, false) h = hung_up ms c d (Sent-Begun h)

  after_terminal_info-Entered :
      (now : ℕ) (g : Greeting) (ms : List Message) (c : Client) (p : Client × Bool)
      → Sent ms c p.0
      → Entered ms c (after_terminal_info fate now g p)
  after_terminal_info-Entered now g ms c (d, false) h = hung_up ms c d (Sent-Begun h)
  after_terminal_info-Entered now g ms c (d, true) h =
      if-Entered d.is_tty ms c _ _
        (after_raw-Entered now g ms c (note make_raw d, fate (make_raw ∷ d.trace))
          (record { wrote = h.wrote; ring = h.ring; number = h.number }))
        (enter-Entered now g ms c d h)

  after_exchange-Entered :
      (now : ℕ) (g : Greeting) (es : List Entry) (c : Client) (p : Client × Bool)
      → Resent es c p
      → Entered (map data_of es) c (after_exchange fate now g p)
  after_exchange-Entered now g es c (d, false) h = hung_up (map data_of es) c d h
  after_exchange-Entered now g es c (d, true) h =
      let call : Effect = write_control (terminal_info g.term) in
      after_terminal_info-Entered now g (map data_of es) c (note call d, fate (call ∷ d.trace))
        (record { wrote = h.wrote; ring = h.ring; number = h.number })

  undialled : (ms : List Message) (d : Client) → Begun ms (record d { is_known = true }) d
  undialled ms d = record { wrote = (ms, refl); ring = refl; number = refl }

  dialled-Entered :
      (now : ℕ) (done : Bool) (g : Greeting) (last : ℕ) (c d : Client) (ok : Bool)
      → g.header ≡ message (sequence_header last)
      → Entered
          (map data_of (Catchup.replay_since last d.buf))
          (record d { is_known = true })
          (after_dial fate now done g (d, ok))
  unfolding handle_sequence_exchange
  dialled-Entered now done g last c d false header =
      let begun : Client = record d { is_known = true } in
      let ms = map data_of (Catchup.replay_since last d.buf) in
      if-Entered done ms begun (returned context_done d) (retrying d) (undialled ms d)
        (undialled ms d)
  dialled-Entered now done g last c d true header =
      let begun : Client = record d { is_known = true } in
      let es = Catchup.replay_since last d.buf in
      subst
        (λ r.
          Entered (map data_of es) begun
            (after_exchange fate now g (handle_sequence_exchange fate r begun)))
        (sym header)
        (after_exchange-Entered now g es begun (resend fate es begun) (resend-Resent es begun))

  pub Entered-Sends :
      (last : ℕ) (input : List ℕ) (history : List Entry) (c : Client) (p : Phase) (r : Relay)
      → Tracks input history c.buf c.send_seq []
      → last ≤ length history
      → data_sent c.trace ≡ []
      → Entered (map data_of (drop last history)) c p
      → p ≡ connected r
      → SendsRelay last input history r
  Entered-Sends last input history c p r t low unused entered at =
      let (sent, empty) = subst (λ q. Entered (map data_of (drop last history)) c q) at entered in
      record {
        tracks = rw (sent.ring, sent.number, empty) t;
        low = low;
        all_sent = sent.wrote ∙ ap (λ ms. ms ++ map data_of (drop last history)) unused;
      }

  -- A round in which the session has announced the number `last`: what follows it in the history is sent.
  pub connect-Entered :
      (now : ℕ) (done : Bool) (g : Greeting) (last : ℕ) (input : List ℕ) (history : List Entry)
      (c : Client)
      → Tracks input history c.buf c.send_seq []
      → g.header ≡ message (sequence_header last)
      → ReachesBack last c.send_seq c.buf
      → Entered
          (map data_of (drop last history))
          (record (note (dial c.recv_seq) c) { is_known = true })
          (connect fate now done g c)
  unfolding connect
  connect-Entered now done g last input history c t header back =
      let call : Effect = dial c.recv_seq in
      let d : Client = note call c in
      subst
        (λ es. Entered (map data_of es) (record d { is_known = true }) (connect fate now done g c))
        (replay_since-drop last input history c.buf c.send_seq [] t back)
        (dialled-Entered now done g last c d (fate (call ∷ c.trace)) header)

  -- A round of Run that gets to ioLoop, where the session has announced the number `last`, of a payload in the history of what
  -- the client has sent, and the ring reaches back to the payloads after it: the new connection has been sent, in
  -- order and each once, these payloads.
  pub connect-Sends :
      (now : ℕ) (done : Bool) (g : Greeting) (last : ℕ) (input : List ℕ) (history : List Entry)
      (c : Client) (r : Relay)
      → Tracks input history c.buf c.send_seq []
      → g.header ≡ message (sequence_header last)
      → last ≤ length history
      → ReachesBack last c.send_seq c.buf
      → connect fate now done g c ≡ connected r
      → SendsRelay last input history r
  connect-Sends now done g last input history c r t header low back at =
      Entered-Sends last input history (record (note (dial c.recv_seq) c) { is_known = true })
        (connect fate now done g c) r t low refl
        (connect-Entered now done g last input history c t header back) at
