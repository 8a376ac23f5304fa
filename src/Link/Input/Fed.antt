-- ===== src/Link/Input/Fed.antt =====
-- What is typed at the client of internal/client/client.go and what the session of internal/session/session.go
-- writes to its PTY belong to one history: in each step of the two.
pub mod Between
pub mod Rounds
use goet.Prelude.{ℕ, suc, ◌+◌, ◌^◌, ◌<◌, ◌≤◌, ◌≡◌, ◌⊎◌, refl, sym, ap, subst, ◌∙◌, arith, inl, inr}
use goet.Prelude.{
  List, [], ◌∷◌, ◌++◌, map, append-nil, append_assoc, length, length-append, take, drop, Bool, true,
  none, some,
}
use goet.Protocol.Message.{Message, ℤ}
use goet.Catchup.{Entry}
use goet.Session
use goet.Session.{Session}
use goet.Session.History.{payloads, IsNumbered, Tracks}
use goet.Session.Replay.{data_of}
use goet.Session.Loop
use goet.Session.Runs.{session_of, new-Tracks}
use goet.Session.Shell.{HasShell, step-HasShell}
use goet.Client
use goet.Client.{Client}
use goet.Client.Run.{Phase, retrying, connected, returned}
use goet.Client.Sent.{data_sent, SendsRelay}
use goet.Link.Idle.{written}
use goet.Link.Joined.{take-append_low, drop-append_some, drop-map, drop-drop}
use goet.Link.Typed.{AtPty, Idle-AtPty, IsDataless, step-Idle, hear-AtPty}
use goet.Link.Input.{Line, begin, unread, from}
use goet.Link.Input.Kept.{AreKept}

-- Between two connections: the rest of what was let through on the last one is in no payload.
pub record Rests (older : List Entry) (t : List ℕ) (history : List Entry) (c : Client)
    : Type 0 where
  pub lost : List ℕ
  pub bytes : payloads history ++ lost ≡ payloads older ++ t
  pub tracks : Tracks (payloads history) history c.buf c.send_seq []

abbrev pub AtPhase : List Entry → List ℕ → List Entry → ℕ → List Message → Phase → Type 0
AtPhase older t history base sent (connected r) =
    SendsRelay base (payloads older ++ t) history r × (sent ≡ data_sent r.client.trace)
AtPhase older t history base sent (retrying c) = Rests older t history c
AtPhase older t history base sent (returned stop c) = Rests older t history c

-- A history of the client that a session is sent, and writes to its PTY.
pub record Feeds (fate : List Session.Effect → Bool) (history : List Entry) (base : ℕ)
    (sent : List Message) (taken : ℕ) (s : Session) : Type 0 where
  pub numbered : IsNumbered 1 history
  pub low : base ≤ length history
  pub some_sent : (zs : List Message) × (sent ++ zs ≡ map data_of (drop base history))
  pub shell : HasShell s
  pub in_step : s.recv_seq ≡ base + taken
  pub pty : AtPty fate history s

pub record Fed (fate : List Session.Effect → Bool) (ts : List (List ℕ)) (t : List ℕ) (k : Line)
    : Type 0 where
  pub older : List Entry
  pub history : List Entry
  pub earlier : AreKept ts older
  pub grown : (more : List Entry) × (history ≡ older ++ more)
  pub feeds : Feeds fate history k.base k.sent k.taken (session_of k.loop)
  pub client : AtPhase older t history k.base k.sent k.phase

-- The same ring, and no batch.
pub rest-Tracks :
    (input : List ℕ) (history : List Entry) (c d : Client) (batch : List ℕ)
    → Tracks input history c.buf c.send_seq batch
    → d.buf ≡ c.buf
    → d.send_seq ≡ c.send_seq
    → Tracks (payloads history) history d.buf d.send_seq []
rest-Tracks input history c d batch t ring number = record {
  valid = rw ring t.valid;
  held = rw ring t.held;
  numbered = t.numbered;
  counted = number ∙ t.counted;
  bytes = append-nil (payloads history);
  filled = t.filled;
}

module _ (fate : List Session.Effect → Bool) where
  pub begin-Fed : (z z' : ℤ) (is_tty : Bool) (began : ℕ) → Fed fate [] [] (begin z z' is_tty began)
  begin-Fed z z' is_tty began = record {
    older = [];
    history = [];
    earlier = refl;
    grown = ([], refl);
    feeds = record {
      numbered = tt;
      low = omega arith;
      some_sent = ([], refl);
      shell = inl refl;
      in_step = omega arith;
      pty = record { known = omega arith; wrote = refl };
    };
    client = record { lost = []; bytes = refl; tracks = new-Tracks z' };
  }

  -- A case of the select without a Data.
  pub serve-Feeds :
      (history : List Entry) (base : ℕ) (sent : List Message) (taken now : ℕ) (ev : Loop.Event)
      (l : Loop.Loop)
      → Feeds fate history base sent taken l.session
      → IsDataless ev l.session
      → Feeds fate history base sent taken (session_of (Loop.step fate now ev l))
  serve-Feeds history base sent taken now ev l f quiet =
      let idle = step-Idle fate now ev l quiet in
      record {
        numbered = f.numbered;
        low = f.low;
        some_sent = f.some_sent;
        shell = step-HasShell fate now ev l f.shell;
        in_step = idle.heard ∙ f.in_step;
        pty = Idle-AtPty fate history f.numbered l.session _ idle f.pty;
      }

  -- The history and what was sent of it have grown.
  pub grow-Feeds :
      (history more : List Entry) (base : ℕ) (sent sent' : List Message) (taken : ℕ) (s : Session)
      → Feeds fate history base sent taken s
      → IsNumbered 1 (history ++ more)
      → sent' ≡ map data_of (drop base (history ++ more))
      → Feeds fate (history ++ more) base sent' taken s
  grow-Feeds history more base sent sent' taken s f numbered all_sent = record {
    numbered = numbered;
    low = omega (arith, f.low, length-append history more);
    some_sent = ([], append-nil sent' ∙ all_sent);
    shell = f.shell;
    in_step = f.in_step;
    pty = record {
      known = omega (arith, f.pty.known, length-append history more);
      wrote = f.pty.wrote ∙ ap payloads (sym (take-append_low s.recv_seq history more f.pty.known));
    };
  }

  shell-on : (s : Session) (c : ℕ) → HasShell s → s.conn ≡ some c → s.spawned ≡ true
  shell-on s c (inl off) on = cc
  shell-on s c (inr spawned) on = spawned

  -- The session reads the next Data.
  pub hear-Feeds :
      (history : List Entry) (base : ℕ) (sent : List Message) (taken now conn : ℕ) (m : Message)
      (ms : List Message) (l : Loop.Loop)
      → ((bytes : List ℕ) (es : List Session.Effect) → fate (Session.write_pty bytes ∷ es) ≡ true)
      → Feeds fate history base sent taken l.session
      → l.session.conn ≡ some conn
      → drop taken sent ≡ m ∷ ms
      → Feeds fate history base sent (suc taken) (session_of (Loop.step fate now (from conn m) l))
  hear-Feeds history base sent taken now conn m ms l done f on next =
      let (zs, more) = drop-append_some taken sent f.some_sent.0 in
      let ahead : m ∷ (ms ++ zs) ≡ map data_of (drop l.session.recv_seq history) =
        ap (λ x. x ++ zs) (sym next)
        ∙ sym more
        ∙ ap (λ x. drop taken x) f.some_sent.1
        ∙ drop-map taken (drop base history)
        ∙ ap (λ x. map data_of x) (drop-drop taken base l.session.recv_seq history f.in_step) in
      let (e, es, here, is_data) =
        next_entry m (ms ++ zs) (drop l.session.recv_seq history) ahead in
      let (pty, heard) =
        hear-AtPty fate history f.numbered now conn e es l f.pty on
          (shell-on l.session conn f.shell on) (done e.payload l.session.trace) here in
      subst
        (λ x.
          Feeds fate history base sent (suc taken)
            (session_of (Loop.step fate now (from conn x) l)))
        (sym is_data)
        (record {
          numbered = f.numbered;
          low = f.low;
          some_sent = f.some_sent;
          shell = step-HasShell fate now (from conn (data_of e)) l f.shell;
          in_step = heard ∙ omega (arith, f.in_step);
          pty = pty;
        })
    where
      next_entry :
          (m : Message) (ms : List Message) (es : List Entry)
          → m ∷ ms ≡ map data_of es
          → (e : Entry) × (es' : List Entry) × (es ≡ e ∷ es') × (m ≡ data_of e)
      next_entry m ms [] h = cc
      next_entry m ms (e ∷ es) h = (e, es, refl, cc)

  pub serve-Fed :
      (ts : List (List ℕ)) (t : List ℕ) (k : Line) (l : Loop.Loop) (now : ℕ) (ev : Loop.Event)
      → Fed fate ts t k
      → k.loop ≡ Loop.running l
      → IsDataless ev l.session
      → Fed fate ts t (record k { loop = Loop.step fate now ev l })
  serve-Fed ts t k l now ev h at_k quiet = record {
    older = h.older;
    history = h.history;
    earlier = h.earlier;
    grown = h.grown;
    feeds =
        serve-Feeds h.history k.base k.sent k.taken now ev l
          (subst (λ o. Feeds fate h.history k.base k.sent k.taken (session_of o)) at_k h.feeds)
          quiet;
    client = h.client;
  }

  pub hear-Fed :
      (ts : List (List ℕ)) (t : List ℕ) (k : Line) (l : Loop.Loop) (now : ℕ) (m : Message)
      (ms : List Message)
      → ((bytes : List ℕ) (es : List Session.Effect) → fate (Session.write_pty bytes ∷ es) ≡ true)
      → Fed fate ts t k
      → k.loop ≡ Loop.running l
      → l.session.conn ≡ some k.conn
      → unread k ≡ m ∷ ms
      → Fed fate ts t
          (record k { loop = Loop.step fate now (from k.conn m) l; taken = suc k.taken })
  hear-Fed ts t k l now m ms done h at_k on next = record {
    older = h.older;
    history = h.history;
    earlier = h.earlier;
    grown = h.grown;
    feeds =
        hear-Feeds h.history k.base k.sent k.taken now k.conn m ms l done
          (subst (λ o. Feeds fate h.history k.base k.sent k.taken (session_of o)) at_k h.feeds) on
          next;
    client = h.client;
  }
