-- ===== src/Link/Joined.antt =====
-- The client of internal/client/client.go and the session of internal/session/session.go stay joined: what one
-- shows and the other sends belong to one history.
use goet.Prelude.{ℕ, zero, suc, ◌+◌, ◌^◌, ◌<◌, ◌≤◌, ◌≡◌, ◌≢◌, refl, sym, ap, subst, ◌∙◌, arith}
use goet.Prelude.{List, [], ◌∷◌, ◌++◌, map, length, length-append, take, drop, drop-nil, Bool}
use goet.Prelude.{some}
use goet.Protocol.Message.{Message, shutdown, ℤ}
use goet.Catchup.{Entry}
use goet.Session
use goet.Session.{Session, Received, message, read_error}
use goet.Session.Loop
use goet.Session.Runs.{session_of, printed, new-Tracks}
use goet.Session.Replay.{data_of, data_to}
use goet.Session.History.{payloads}
use goet.Session.Stream.{Delivers}
use goet.Session.Stream.Steps.{Offers, step-Delivering}
use goet.Client.{Effect, Client}
use goet.Client.Relay
use goet.Client.Relay.{
  Relay, relaying, left, control_result, data_result, ExitReason, exit_network, exit_shutdown,
  exit_cancelled, exit_escape, exit_stdin_eof,
}
use goet.Client.Shown.{Mute}
use goet.Client.Receipt.{AtHistory, AtOutcome, Mute-AtHistory, IsNext, Reads, count, step-AtOutcome}
use goet.Client.Run.{Greeting, Phase, retrying, connected, connect, finish}
use goet.Client.Handshake.{client_of}
use goet.Link.{Link, begin, unread}
use goet.Link.Round.{connect-Mute, finish-Mute, IsInStep, dialled-IsInStep, finish-IsInStep}

pub take-append_low : (n : ℕ) (xs ys : List Entry) → n ≤ length xs → take n (xs ++ ys) ≡ take n xs
take-append_low zero xs ys h = refl
take-append_low (suc n) [] ys h = absurd (omega arith)
take-append_low (suc n) (x ∷ xs) ys h = ap (λ t. x ∷ t) (take-append_low n xs ys (omega arith))

pub drop-append_some :
    (n : ℕ) (xs ys : List Message) → (zs : List Message) × (drop n (xs ++ ys) ≡ drop n xs ++ zs)
drop-append_some zero xs ys = (ys, refl)
drop-append_some (suc n) [] ys = (drop (suc n) ys, refl)
drop-append_some (suc n) (x ∷ xs) ys = drop-append_some n xs ys

pub drop-map : (n : ℕ) (es : List Entry) → drop n (map data_of es) ≡ map data_of (drop n es)
drop-map zero es = refl
drop-map (suc n) [] = refl
drop-map (suc n) (e ∷ es) = drop-map n es

pub drop-drop : (n b k : ℕ) (es : List Entry) → k ≡ b + n → drop n (drop b es) ≡ drop k es
drop-drop n zero k es h = ap (λ m. drop m es) (omega (arith, h))
drop-drop n (suc b) zero es h = absurd (omega arith)
drop-drop n (suc b) (suc k) [] h = drop-nil n
drop-drop n (suc b) (suc k) (e ∷ es) h = drop-drop n b k es (omega arith)

IsNext-append : (rs : List Received) (xs ys : List Message) → IsNext rs xs → IsNext rs (xs ++ ys)
IsNext-append [] xs ys h = tt
IsNext-append (read_error ∷ rs) xs ys h = tt
IsNext-append (message m ∷ rs) [] ys h = absurd h
IsNext-append (message m ∷ rs) (x ∷ xs) ys h = (h.0, IsNext-append rs xs ys h.1)

Reads-append : (ev : Relay.Event) (xs ys : List Message) → Reads ev xs → Reads ev (xs ++ ys)
Reads-append (data_result r waiting) xs ys h = IsNext-append (r ∷ []) xs ys h
Reads-append (control_result (message shutdown) remaining) xs ys h = IsNext-append remaining xs ys h
Reads-append _ xs ys h = h

module _ (fate : List Effect → Bool) where
  -- A history of the session that the connection is sent, and that the client shows.
  pub record Joined (input : List ℕ) (k : Link) : Type 0 where
    pub history : List Entry
    pub delivers : Delivers k.conn k.base input history (session_of k.loop)
    pub client : AtHistory fate history (client_of k.phase)
    pub step : IsInStep k.base k.taken k.phase

module _ (fate : List Effect → Bool) (input : List ℕ) where
  pub begin-Joined :
      (z z' : ℤ) (is_tty : Bool) (began : ℕ) → Joined fate [] (begin z z' is_tty began)
  begin-Joined z z' is_tty began = record {
    history = [];
    delivers = record {
      tracks = new-Tracks z;
      low = omega arith;
      rest = [];
      sent = refl;
      complete = λ on. refl;
    };
    client = record { known = omega arith; shows = refl };
    step = tt;
  }

  pub serve-Joined :
      (k : Link) (done : List Session.Effect → Bool) (l : Loop.Loop) (now : ℕ) (ev : Loop.Event)
      → Joined fate input k
      → k.loop ≡ Loop.running l
      → length (input ++ printed ev) < 2 ^ 64
      → Offers done k.conn k.base ev l.session
      → Joined fate (input ++ printed ev) (record k { loop = Loop.step done now ev l })
  serve-Joined k done l now ev j at_k small offers =
      let d = subst (λ o. Delivers k.conn k.base input j.history (session_of o)) at_k j.delivers in
      let (more, d') = step-Delivering done k.conn k.base input j.history now ev l d small offers in
      record {
        history = j.history ++ more;
        delivers = d';
        client = record {
          known = omega (arith, j.client.known, length-append j.history more);
          shows =
              j.client.shows
              ∙ ap payloads (
                  sym (take-append_low (client_of k.phase).recv_seq j.history more j.client.known));
        };
        step = j.step;
      }

  -- A round of the client that shows nothing.
  pub Mute-Joined :
      (k : Link) (c : Client) (p : Phase)
      → Joined fate input k
      → k.phase ≡ retrying c
      → Mute fate c (client_of p)
      → IsInStep k.base k.taken p
      → Joined fate input (record k { phase = p })
  Mute-Joined k c p j at_k mute step = record {
    history = j.history;
    delivers = j.delivers;
    client =
        Mute-AtHistory fate j.history c (client_of p) mute
          (subst (λ q. AtHistory fate j.history (client_of q)) at_k j.client);
    step = step;
  }

  pub redial-Joined :
      (k : Link) (c : Client) (conn now : ℕ) (done : Bool) (g : Greeting)
      → Joined fate input k
      → k.phase ≡ retrying c
      → data_to conn (session_of k.loop).trace ≡ []
      → (session_of k.loop).conn ≢ some conn
      → Joined fate input (record {
        loop = k.loop;
        phase = connect fate now done g c;
        conn = conn;
        base = c.recv_seq;
        taken = 0;
      })
  redial-Joined k c conn now done g j at_k unused other =
      let at = subst (λ q. AtHistory fate j.history (client_of q)) at_k j.client in
      let mute = connect-Mute fate now done g c in
      let rest = map data_of (drop c.recv_seq j.history) in
      record {
        history = j.history;
        delivers = record {
          tracks = j.delivers.tracks;
          low = at.known;
          rest = rest;
          sent = ap (λ t. t ++ rest) unused;
          complete = λ on. absurd (other on);
        };
        client = Mute-AtHistory fate j.history c _ mute at;
        step = dialled-IsInStep (connect fate now done g c) c.recv_seq mute.heard;
      }

  -- What the client has not read of the connection is next in the history.
  unread-Reads :
      (k : Link) (r : Relay) (ev : Relay.Event)
      → (j : Joined fate input k) → k.phase ≡ connected r
      → Reads ev (unread k)
      → AtHistory fate j.history r.client
        × (r.client.recv_seq ≡ k.base + k.taken)
        × Reads ev (map data_of (drop r.client.recv_seq j.history))
  unread-Reads k r ev j at_k reads =
      let in_step = subst (λ p. IsInStep k.base k.taken p) at_k j.step in
      let (zs, more) =
        drop-append_some k.taken (data_to k.conn (session_of k.loop).trace) j.delivers.rest in
      let ahead : unread k ++ zs ≡ map data_of (drop r.client.recv_seq j.history) =
        sym more
        ∙ ap (λ t. drop k.taken t) j.delivers.sent
        ∙ drop-map k.taken (drop k.base j.history)
        ∙ ap (λ t. map data_of t) (drop-drop k.taken k.base r.client.recv_seq j.history in_step) in
      (
        subst (λ q. AtHistory fate j.history (client_of q)) at_k j.client,
        in_step,
        subst (λ t. Reads ev t) ahead (Reads-append ev (unread k) zs reads),
      )

  relayed-AtOutcome :
      (k : Link) (r : Relay) (now : ℕ) (ev : Relay.Event) (o : Relay.Outcome)
      → (j : Joined fate input k) → k.phase ≡ connected r
      → Reads ev (unread k)
      → Relay.step fate now ev r ≡ o
      → AtOutcome fate j.history (count ev) r.client o × (r.client.recv_seq ≡ k.base + k.taken)
  relayed-AtOutcome k r now ev o j at_k reads stepped =
      let (at, in_step, next) = unread-Reads k r ev j at_k reads in
      (
        subst (λ t. AtOutcome fate j.history (count ev) r.client t) stepped
            (step-AtOutcome fate j.history j.delivers.tracks.numbered now ev r at next),
        in_step,
      )

  pub relay-Joined :
      (k : Link) (r r' : Relay) (now : ℕ) (ev : Relay.Event)
      → Joined fate input k
      → k.phase ≡ connected r
      → Reads ev (unread k)
      → Relay.step fate now ev r ≡ relaying r'
      → Joined fate input (record k { phase = connected r'; taken = count ev + k.taken })
  relay-Joined k r r' now ev j at_k reads stepped =
      let ((at, read), in_step) = relayed-AtOutcome k r now ev (relaying r') j at_k reads stepped in
      record {
        history = j.history;
        delivers = j.delivers;
        client = at;
        step = omega (arith, read, in_step);
      }

  pub leave-Joined :
      (k : Link) (r : Relay) (now : ℕ) (ev : Relay.Event) (reason : ExitReason) (c : Client)
      → Joined fate input k
      → k.phase ≡ connected r
      → Reads ev (unread k)
      → Relay.step fate now ev r ≡ left reason c
      → Joined fate input (record k { phase = finish reason c })
  leave-Joined k r now ev reason c j at_k reads stepped =
      let (at, _) = relayed-AtOutcome k r now ev (left reason c) j at_k reads stepped in
      record {
        history = j.history;
        delivers = j.delivers;
        client = Mute-AtHistory fate j.history c _ (finish-Mute fate reason c) at;
        step = finish-IsInStep k.base k.taken reason c;
      }
