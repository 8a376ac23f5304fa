-- ===== src/Link/Input/Fed/Rounds.antt =====
-- The client of internal/client/client.go goes on: what is typed at it and what the session writes to its
-- PTY still belong to one history.
use goet.Prelude.{ℕ, ◌^◌, ◌<◌, ◌≤◌, ◌≡◌, refl, sym, ap, subst, ◌∙◌, arith}
use goet.Prelude.{
  List, [], ◌∷◌, ◌++◌, map, append-nil, append_assoc, length, length-append, drop, Bool, true,
}
use goet.Protocol.Message.{Message, sequence_header}
use goet.Catchup.{Entry}
use goet.Session
use goet.Session.{Received, message, read_error, NewConn}
use goet.Session.History.{payloads, Tracks}
use goet.Session.Replay.{data_of}
use goet.Session.Loop
use goet.Session.Runs.{session_of}
use goet.Session.Stream.Held.{ReachesBack}
use goet.Client.{Effect, Client, dial, note}
use goet.Client.History.{typed}
use goet.Client.Relay
use goet.Client.Relay.{
  Relay, relaying, left, ExitReason, exit_network, exit_shutdown, exit_cancelled, exit_escape,
  exit_stdin_eof,
}
use goet.Client.Run.{Greeting, Phase, retrying, connected, returned, connect, finish, wait}
use goet.Client.Handshake.{client_of}
use goet.Client.Sent.{data_sent, Sends}
use goet.Client.Sent.Steps.{SendsOutcome, step-SendsOutcome}
use goet.Client.Sent.Connect.{Entered, Entered-Sends, connect-Entered}
use goet.Link.Input.{Line, IsMissed}
use goet.Link.Input.Kept.{AreKept, AreKept-length, more-AreKept, total}
use goet.Link.Input.Fed.Between.{finish-Rests, wait-Rests, missed-Rests}
use goet.Link.Input.Fed.{Rests, AtPhase, Feeds, Fed, rest-Tracks, serve-Feeds, grow-Feeds}

module _ (session_fate : List Session.Effect → Bool) (fate : List Effect → Bool) where
  -- The history has grown by some entries, which were sent.
  sent-Fed :
      (ts : List (List ℕ)) (t t' : List ℕ) (k : Line) (p : Phase) (c : Client) (batch : List ℕ)
      (input : List ℕ) (more : List Entry)
      → (h : Fed session_fate ts t k) → Sends k.base input (h.history ++ more) c batch
      → AtPhase h.older t' (h.history ++ more) k.base (data_sent c.trace) p
      → Fed session_fate ts t' (record k { phase = p; sent = data_sent c.trace })
  sent-Fed ts t t' k p c batch input more h sends at = record {
    older = h.older;
    history = h.history ++ more;
    earlier = h.earlier;
    grown =
        (h.grown.0 ++ more, ap (λ es. es ++ more) h.grown.1 ∙ append_assoc h.older h.grown.0 more);
    feeds =
        grow-Feeds session_fate h.history more k.base k.sent (data_sent c.trace) k.taken
          (session_of k.loop) h.feeds sends.tracks.numbered sends.all_sent;
    client = at;
  }

  -- The phase changes, and nothing is sent.
  quiet-Fed :
      (ts : List (List ℕ)) (t : List ℕ) (k : Line) (p : Phase)
      → (h : Fed session_fate ts t k) → AtPhase h.older t h.history k.base k.sent p
      → Fed session_fate ts t (record k { phase = p })
  quiet-Fed ts t k p h at = record {
    older = h.older;
    history = h.history;
    earlier = h.earlier;
    grown = h.grown;
    feeds = h.feeds;
    client = at;
  }

  relayed-Sends :
      (ts : List (List ℕ)) (t : List ℕ) (k : Line) (r : Relay) (now : ℕ) (ev : Relay.Event)
      (o : Relay.Outcome)
      → (h : Fed session_fate ts t k) → k.phase ≡ connected r
      → total ((t ++ typed now ev r) ∷ ts) < 2 ^ 64
      → Relay.step fate now ev r ≡ o
      → SendsOutcome fate k.base (payloads h.older ++ (t ++ typed now ev r)) h.history o
  relayed-Sends ts t k r now ev o h at_k small stepped =
      let (sends, _) = subst (λ p. AtPhase h.older t h.history k.base k.sent p) at_k h.client in
      let bytes = payloads h.older in
      let same = append_assoc bytes t (typed now ev r) in
      let fits : length ((bytes ++ t) ++ typed now ev r) < 2 ^ 64 = omega (
        arith,
        small,
        ap length same,
        length-append bytes (t ++ typed now ev r),
        AreKept-length ts h.older h.earlier,
      ) in
      subst (λ x. SendsOutcome fate k.base (payloads h.older ++ (t ++ typed now ev r)) h.history x)
        stepped
        (subst (λ i. SendsOutcome fate k.base i h.history (Relay.step fate now ev r)) same
          (step-SendsOutcome fate k.base (bytes ++ t) h.history now ev r sends fits))

  pub relay-Fed :
      (ts : List (List ℕ)) (t : List ℕ) (k : Line) (r r' : Relay) (now : ℕ) (ev : Relay.Event)
      → Fed session_fate ts t k
      → k.phase ≡ connected r
      → total ((t ++ typed now ev r) ∷ ts) < 2 ^ 64
      → Relay.step fate now ev r ≡ relaying r'
      → Fed session_fate ts
          (t ++ typed now ev r)
          (record k { phase = connected r'; sent = data_sent r'.client.trace })
  relay-Fed ts t k r r' now ev h at_k small stepped =
      let (more, sends) = relayed-Sends ts t k r now ev (relaying r') h at_k small stepped in
      sent-Fed ts t (t ++ typed now ev r) k (connected r') r'.client r'.coal.buf
        (payloads h.older ++ (t ++ typed now ev r)) more h sends (sends, refl)

  pub leave-Fed :
      (ts : List (List ℕ)) (t : List ℕ) (k : Line) (r : Relay) (now : ℕ) (ev : Relay.Event)
      (reason : ExitReason) (c : Client)
      → Fed session_fate ts t k
      → k.phase ≡ connected r
      → total ((t ++ typed now ev r) ∷ ts) < 2 ^ 64
      → Relay.step fate now ev r ≡ left reason c
      → Fed session_fate ts
          (t ++ typed now ev r)
          (record k { phase = finish reason c; sent = data_sent c.trace })
  leave-Fed ts t k r now ev reason c h at_k small stepped =
      let (more, batch, sends) =
        relayed-Sends ts t k r now ev (left reason c) h at_k small stepped in
      let input = payloads h.older ++ (t ++ typed now ev r) in
      let history = h.history ++ more in
      sent-Fed ts t (t ++ typed now ev r) k (finish reason c) c batch input more h sends (
        finish-Rests h.older (t ++ typed now ev r) history k.base (data_sent c.trace) reason c
          (record {
            lost = batch;
            bytes = sends.tracks.bytes;
            tracks = rest-Tracks input history c c batch sends.tracks refl refl;
          }))

  retrying-Rests :
      (ts : List (List ℕ)) (t : List ℕ) (k : Line) (c : Client)
      → (h : Fed session_fate ts t k) → k.phase ≡ retrying c
      → Rests h.older t h.history c
  retrying-Rests ts t k c h at_k =
      subst (λ p. AtPhase h.older t h.history k.base k.sent p) at_k h.client

  pub pause-Fed :
      (ts : List (List ℕ)) (t : List ℕ) (k : Line) (c : Client) (done : Bool)
      → Fed session_fate ts t k
      → k.phase ≡ retrying c
      → Fed session_fate ts t (record k { phase = wait done c })
  pause-Fed ts t k c done h at_k =
      quiet-Fed ts t k (wait done c) h
        (wait-Rests h.older t h.history k.base k.sent done c (retrying-Rests ts t k c h at_k))

  pub miss-Fed :
      (ts : List (List ℕ)) (t : List ℕ) (k : Line) (c : Client) (now : ℕ) (done : Bool)
      (g : Greeting)
      → Fed session_fate ts t k
      → k.phase ≡ retrying c
      → IsMissed fate g c
      → Fed session_fate ts t (record k { phase = connect fate now done g c })
  miss-Fed ts t k c now done g h at_k missed = quiet-Fed ts t k (connect fate now done g c) h (
      missed-Rests h.older t h.history fate k.base k.sent now done g c
        (retrying-Rests ts t k c h at_k) missed)

  -- What a round in which the two meet leaves to be sent.
  met_lem :
      (history : List Entry) (last : ℕ) (c : Client) (p : Phase)
      → Tracks (payloads history) history c.buf c.send_seq []
      → last ≤ length history
      → data_sent c.trace ≡ []
      → Entered (map data_of (drop last history)) c p
      → AtPhase history [] history last (data_sent (client_of p).trace) p
        × (zs : List Message) × (data_sent (client_of p).trace ++ zs
            ≡ map data_of (drop last history))
  met_lem history last c (connected r) t low unused entered =
      let t' =
        subst (λ i. Tracks i history c.buf c.send_seq []) (sym (append-nil (payloads history))) t in
      let sends =
        Entered-Sends fate last (payloads history ++ []) history c (connected r) r t' low unused
          entered refl in
      ((sends, refl), [], append-nil (data_sent r.client.trace) ∙ sends.all_sent)
  met_lem history last c (retrying d) t low unused begun = (
    record {
      lost = [];
      bytes = refl;
      tracks = rest-Tracks (payloads history) history c d [] t begun.ring begun.number;
    },
    begun.wrote.0,
    begun.wrote.1 ∙ ap (λ ms. ms ++ map data_of (drop last history)) unused,
  )
  met_lem history last c (returned stop d) t low unused begun = (
    record {
      lost = [];
      bytes = refl;
      tracks = rest-Tracks (payloads history) history c d [] t begun.ring begun.number;
    },
    begun.wrote.0,
    begun.wrote.1 ∙ ap (λ ms. ms ++ map data_of (drop last history)) unused,
  )

  pub meet-Fed :
      (ts : List (List ℕ)) (t : List ℕ) (k : Line) (l : Loop.Loop) (c : Client) (nc : NewConn)
      (now later : ℕ) (done : Bool) (g : Greeting)
      → Fed session_fate ts t k
      → k.loop ≡ Loop.running l
      → k.phase ≡ retrying c
      → g.header ≡ message (sequence_header l.session.recv_seq)
      → ReachesBack l.session.recv_seq c.send_seq c.buf
      → Fed session_fate (t ∷ ts) [] (record {
        loop = Loop.step session_fate now (Loop.accepted nc) l;
        phase = connect fate later done g c;
        conn = nc.id;
        base = l.session.recv_seq;
        sent = data_sent (client_of (connect fate later done g c)).trace;
        taken = 0;
      })
  meet-Fed ts t k l c nc now later done g h on at_k header back =
      let rests = retrying-Rests ts t k c h at_k in
      let feeds =
        subst (λ o. Feeds session_fate h.history k.base k.sent k.taken (session_of o)) on h.feeds in
      let d : Client = record (note (dial c.recv_seq) c) { is_known = true } in
      let p = connect fate later done g c in
      let (at, zs, some_sent) =
        met_lem h.history l.session.recv_seq d p rests.tracks feeds.pty.known refl (
          connect-Entered fate later done g l.session.recv_seq (payloads h.history) h.history c
            rests.tracks header back) in
      record {
        older = h.history;
        history = h.history;
        earlier =
            subst (λ es. AreKept (t ∷ ts) es) (sym h.grown.1)
              (more-AreKept ts t h.older h.grown.0 rests.lost h.earlier
                (ap (λ es. payloads es ++ rests.lost) (sym h.grown.1) ∙ rests.bytes));
        grown = ([], sym (append-nil h.history));
        feeds =
            serve-Feeds session_fate h.history l.session.recv_seq (data_sent (client_of p).trace) 0
              now (Loop.accepted nc) l
              (record {
                numbered = feeds.numbered;
                low = feeds.pty.known;
                some_sent = (zs, some_sent);
                shell = feeds.shell;
                in_step = omega arith;
                pty = feeds.pty;
              })
              tt;
        client = at;
      }
