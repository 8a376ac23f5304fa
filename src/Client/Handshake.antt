-- ===== src/Client/Handshake.antt =====
-- What one round of Run in internal/client/client.go sends before ioLoop, and how a session that reads it
-- from one stream, as with internal/transport/tcp.go, answers in handleNewConn.
use goet.Prelude.{ℕ, ◌≡◌, refl, sym, ap, ◌∙◌, arith, inl, inr}
use goet.Prelude.{
  List, [], ◌∷◌, ◌++◌, append-nil, append_assoc, Bool, true, false, Bool-cases, Option, none, some,
  if◌then◌else◌,
}
use goet.Protocol.Message.{Message, data_msg, sequence_header, terminal_info}
use goet.Catchup
use goet.Coalesce
use goet.Catchup.{Buffer, Entry}
use goet.Session
use goet.Session.{Session, Received, message, read_error, NewConn, handle_new_conn}
use goet.Session.Replay.{data_of, close_conn-offline}
use goet.Client.{
  Effect, dial, write_control, write_data, close_conn, make_raw, Client, note, resend,
  handle_sequence_exchange, send_resize, term_size,
}
use goet.Client.Relay.{start}
use goet.Client.Shown.{Mute, Mute-trans}
use goet.Client.Run.{
  Greeting, Phase, retrying, connected, returned, connect, after_exchange, after_terminal_info,
  after_raw, enter,
}

-- The messages sent on the last connection, oldest first.
abbrev pub sent : List Effect → List Message
sent [] = []
sent (dial seq ∷ es) = []
sent (write_control m ∷ es) = sent es ++ (m ∷ [])
sent (write_data m ∷ es) = sent es ++ (m ∷ [])
sent (_ ∷ es) = sent es

abbrev pub client_of : Phase → Client
client_of (retrying c) = c
client_of (connected r) = r.client
client_of (returned stop c) = c

-- What a reader of a stream with these messages gets first.
abbrev pub first_of : List Message → Received
first_of [] = read_error
first_of (m ∷ ms) = message m

-- Nothing is unsaid, the ring stays, and nothing is received or shown.
pub record Says (c c' : Client) : Type 0 where
  pub ms : List Message
  pub said : sent c'.trace ≡ sent c.trace ++ ms
  pub ring : c'.buf ≡ c.buf
  pub mute : (fate : List Effect → Bool) → Mute fate c c'

pub Says-refl : (c : Client) → Says c c
Says-refl c = record {
  ms = [];
  said = sym (append-nil (sent c.trace));
  ring = refl;
  mute = λ f. record { shows = refl; heard = refl };
}

pub Says-trans : {c d e : Client} → Says c d → Says d e → Says c e
Says-trans {c = c} h k = record {
  ms = h.ms ++ k.ms;
  said = k.said ∙ ap (λ t. t ++ k.ms) h.said ∙ append_assoc (sent c.trace) h.ms k.ms;
  ring = k.ring ∙ h.ring;
  mute = λ f. Mute-trans f (h.mute f) (k.mute f);
}

say_data : (m : Message) (c : Client) → Says c (note (write_data m) c)
say_data m c = record {
  ms = m ∷ [];
  said = refl;
  ring = refl;
  mute = λ f. record { shows = refl; heard = refl };
}

say_control : (m : Message) (c : Client) → Says c (note (write_control m) c)
say_control m c = record {
  ms = m ∷ [];
  said = refl;
  ring = refl;
  mute = λ f. record { shows = refl; heard = refl };
}

if-Says : (b : Bool) {c d e : Client} → Says c d → Says c e → Says c (if b then d else e)
if-Says true h k = h
if-Says false h k = k

if_phase-Says :
    (b : Bool) {c : Client} (p q : Phase)
    → Says c (client_of p)
    → Says c (client_of q)
    → Says c (client_of (if b then p else q))
if_phase-Says true p q h k = h
if_phase-Says false p q h k = k

term_size-Says : (size : Option (ℕ × ℕ)) (c : Client) → Says c (term_size size c)
term_size-Says none c = Says-refl c
term_size-Says (some (rows, cols)) c = say_control _ c

send_resize-Says : (size : Option (ℕ × ℕ)) (c : Client) → Says c (send_resize size c)
unfolding send_resize
send_resize-Says size c = if-Says c.is_tty (term_size-Says size c) (Says-refl c)

hung_up : (c : Client) → Says c (note close_conn c)
hung_up c = record {
  ms = [];
  said = sym (append-nil (sent c.trace));
  ring = refl;
  mute = λ f. record { shows = refl; heard = refl };
}

raw-Says : (c : Client) → Says c (note make_raw c)
raw-Says c = record {
  ms = [];
  said = sym (append-nil (sent c.trace));
  ring = refl;
  mute = λ f. record { shows = refl; heard = refl };
}

enter-Says : (now : ℕ) (g : Greeting) (c : Client) → Says c (client_of (enter now g c))
unfolding start
enter-Says now g c =
    let h = send_resize-Says g.size c in
    record {
      ms = h.ms;
      said = h.said;
      ring = h.ring;
      mute = λ f. record { shows = (h.mute f).shows; heard = (h.mute f).heard };
    }

module _ (fate : List Effect → Bool) where
  pub resend-Says : (es : List Entry) (c : Client) → Says c (resend fate es c).0
  unfolding resend
  resend-Says [] c = Says-refl c
  resend-Says (e ∷ es) c =
      let here = say_data (data_of e) c in
      elim (Bool-cases (fate (write_data (data_of e) ∷ c.trace))) [
        | inl done ↦ rw done (Says-trans here (resend-Says es (note (write_data (data_of e)) c)))
        | inr failed ↦ rw failed here
      ]

  resend_some-Says :
      (e : Entry) (es : List Entry) (c : Client)
      → Says (note (write_data (data_of e)) c) (resend fate (e ∷ es) c).0
  unfolding resend
  resend_some-Says e es c = elim (Bool-cases (fate (write_data (data_of e) ∷ c.trace))) [
    | inl done ↦ rw done (resend-Says es (note (write_data (data_of e)) c))
    | inr failed ↦ rw failed (Says-refl (note (write_data (data_of e)) c))
  ]

  after_raw-Says :
      (now : ℕ) (g : Greeting) (c : Client) (done : Bool)
      → Says c (client_of (after_raw fate now g (c, done)))
  after_raw-Says now g c true = enter-Says now g c
  after_raw-Says now g c false = hung_up c

  after_terminal_info-Says :
      (now : ℕ) (g : Greeting) (c : Client) (done : Bool)
      → Says c (client_of (after_terminal_info fate now g (c, done)))
  after_terminal_info-Says now g c false = hung_up c
  after_terminal_info-Says now g c true =
      if_phase-Says c.is_tty _ _
        (Says-trans (raw-Says c)
          (after_raw-Says now g (note make_raw c) (fate (make_raw ∷ c.trace))))
        (enter-Says now g c)

  pub after_exchange-Says :
      (now : ℕ) (g : Greeting) (c : Client) (done : Bool)
      → Says c (client_of (after_exchange fate now g (c, done)))
  after_exchange-Says now g c true =
      let call : Effect = write_control (terminal_info g.term) in
      Says-trans (say_control (terminal_info g.term) c)
        (after_terminal_info-Says now g (note call c) (fate (call ∷ c.trace)))
  after_exchange-Says now g c false = hung_up c

close_conn-recv_seq : (s : Session) → (Session.close_conn s).recv_seq ≡ s.recv_seq
unfolding Session.close_conn
close_conn-recv_seq s = ground arith

module _ (fate : List Session.Effect → Bool) where
  flush-recv_seq : (s : Session) → (Session.flush_coalesced fate s).recv_seq ≡ s.recv_seq
  unfolding Session.flush_coalesced Session.send_stored Session.close_conn Coalesce.flush
  flush-recv_seq s = ground arith

  data_hello :
      (nc : NewConn) (s : Session) (seq : ℕ) (payload : List ℕ) (done : Bool)
      → nc.hello ≡ message (data_msg seq payload)
      → ((Session.after_header fate nc (s, done)).0.conn ≡ none)
        × ((Session.after_header fate nc (s, done)).0.recv_seq ≡ s.recv_seq)
  data_hello nc s seq payload true hello = rw hello (close_conn-offline s, close_conn-recv_seq s)
  data_hello nc s seq payload false hello = (close_conn-offline s, close_conn-recv_seq s)

  -- The hello that the session reads is data, not a TerminalInfo: it hangs up.
  data_hello-closes :
      (nc : NewConn) (s : Session) (seq : ℕ) (payload : List ℕ)
      → nc.hello ≡ message (data_msg seq payload)
      → ((handle_new_conn fate nc s).0.conn ≡ none)
        × ((handle_new_conn fate nc s).0.recv_seq ≡ s.recv_seq)
  unfolding handle_new_conn
  data_hello-closes nc s seq payload hello =
      let f = Session.flush_coalesced fate (Session.close_conn s) in
      let s' : Session = record f { conn = some nc.id } in
      let call : Session.Effect = Session.write_control nc.id (sequence_header s'.recv_seq) in
      let (off, same) =
        data_hello nc (Session.note call s') seq payload (fate (call ∷ s'.trace)) hello in
      (off, same ∙ flush-recv_seq (Session.close_conn s) ∙ close_conn-recv_seq s)

module _ (fate : List Effect → Bool) (session_fate : List Session.Effect → Bool) where
  -- A reconnect over one stream, when the dial succeeds, the session's header is read, and the ring holds a
  -- payload that the session has not received: if the session's hello is the first message that the
  -- client sent, then, whatever else succeeds or fails, the session closes the connection, and the
  -- number that it has received and the client's ring stay.
  pub one_stream_reconnect :
      (now : ℕ) (done : Bool) (g : Greeting) (c : Client) (nc : NewConn) (s : Session)
      → (e : Entry) (es : List Entry) → fate (dial c.recv_seq ∷ c.trace) ≡ true
      → g.header ≡ message (sequence_header s.recv_seq)
      → Catchup.replay_since s.recv_seq c.buf ≡ e ∷ es
      → nc.hello ≡ first_of (sent (client_of (connect fate now done g c)).trace)
      → ((handle_new_conn session_fate nc s).0.conn ≡ none)
        × ((handle_new_conn session_fate nc s).0.recv_seq ≡ s.recv_seq)
        × ((client_of (connect fate now done g c)).buf ≡ c.buf)
  unfolding connect handle_sequence_exchange
  one_stream_reconnect now done g c nc s e es dialled header missing hello =
      let begun : Client = record (note (dial c.recv_seq) c) { is_known = true } in
      let (c', all) = resend fate (e ∷ es) begun in
      let says =
        Says-trans (resend_some-Says fate e es begun) (after_exchange-Says fate now g c' all) in
      let same : connect fate now done g c ≡ after_exchange fate now g (c', all) =
        rw (dialled, header, missing) refl in
      let hello_is : nc.hello ≡ message (data_of e) =
        hello ∙ ap (λ p. first_of (sent (client_of p).trace)) same ∙ ap first_of says.said in
      let (off, stays) = data_hello-closes session_fate nc s e.seq e.payload hello_is in
      (off, stays, ap (λ p. (client_of p).buf) same ∙ says.ring)
