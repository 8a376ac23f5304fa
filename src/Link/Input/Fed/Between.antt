-- ===== src/Link/Input/Fed/Between.antt =====
-- What is known of the client of internal/client/client.go between two connections stays.
use goet.Prelude.{ℕ, ◌≡◌, refl, inl, inr, Bool-cases}
use goet.Prelude.{List, [], ◌∷◌, Bool, true, false}
use goet.Prelude.{if◌then◌else◌}
use goet.Protocol.Message.{Message, sequence_header}
use goet.Catchup.{Entry}
use goet.Session.{Received, message, read_error}
use goet.Session.History.{payloads}
use goet.Client.{Effect, Client, dial, restore, note, handle_sequence_exchange}
use goet.Client.Relay.{
  ExitReason, exit_network, exit_shutdown, exit_cancelled, exit_escape, exit_stdin_eof,
}
use goet.Client.Run.{
  Greeting, retrying, returned, context_done, connect, finish, wait, restore_terminal,
  after_exchange,
}
use goet.Link.Input.{IsMissed, HasNoHeader}
use goet.Link.Input.Fed.{Rests, AtPhase, rest-Tracks}

module _ (older : List Entry) (t : List ℕ) (history : List Entry) where
  Rests-same :
      (c d : Client)
      → Rests older t history c
      → d.buf ≡ c.buf
      → d.send_seq ≡ c.send_seq
      → Rests older t history d
  Rests-same c d h ring number = record {
    lost = h.lost;
    bytes = h.bytes;
    tracks = rest-Tracks (payloads history) history c d [] h.tracks ring number;
  }

  restored-Rests :
      (c : Client) → Rests older t history c → Rests older t history (restore_terminal c)
  restored-Rests c h = if_restored c.is_tty
    where
      if_restored : (b : Bool) → Rests older t history (if b then note restore c else c)
      if_restored true = Rests-same c (note restore c) h refl refl
      if_restored false = h

  pub finish-Rests :
      (base : ℕ) (sent : List Message) (reason : ExitReason) (c : Client)
      → Rests older t history c
      → AtPhase older t history base sent (finish reason c)
  unfolding finish
  finish-Rests base sent exit_network c h =
      Rests-same (restore_terminal c) _ (restored-Rests c h) refl refl
  finish-Rests base sent exit_shutdown c h =
      Rests-same (restore_terminal c) _ (restored-Rests c h) refl refl
  finish-Rests base sent exit_cancelled c h =
      Rests-same (restore_terminal c) _ (restored-Rests c h) refl refl
  finish-Rests base sent exit_escape c h =
      Rests-same (restore_terminal c) _ (restored-Rests c h) refl refl
  finish-Rests base sent exit_stdin_eof c h =
      Rests-same (restore_terminal c) _ (restored-Rests c h) refl refl

  pub wait-Rests :
      (base : ℕ) (sent : List Message) (done : Bool) (c : Client)
      → Rests older t history c
      → AtPhase older t history base sent (wait done c)
  unfolding wait
  wait-Rests base sent true c h = h
  wait-Rests base sent false c h = h

  hung_up-Rests :
      (fate : List Effect → Bool) (base : ℕ) (sent : List Message) (now : ℕ) (g : Greeting)
      (r : Received) (c : Client)
      → Rests older t history c
      → HasNoHeader r
      → AtPhase older t history base sent
          (after_exchange fate now g (handle_sequence_exchange fate r c))
  unfolding handle_sequence_exchange
  hung_up-Rests fate base sent now g read_error c h none = Rests-same c _ h refl refl
  hung_up-Rests fate base sent now g (message (sequence_header last)) c h none = absurd none
  hung_up-Rests fate base sent now g (message m) c h none = Rests-same c _ h refl refl

  -- A round that reads no SequenceHeader does not get to ioLoop.
  pub missed-Rests :
      (fate : List Effect → Bool) (base : ℕ) (sent : List Message) (now : ℕ) (done : Bool)
      (g : Greeting) (c : Client)
      → Rests older t history c
      → IsMissed fate g c
      → AtPhase older t history base sent (connect fate now done g c)
  unfolding connect
  missed-Rests fate base sent now done g c h missed =
      let d : Client = note (dial c.recv_seq) c in
      elim (Bool-cases (fate (dial c.recv_seq ∷ c.trace))) [
        | inl dialled ↦ rw dialled (
            hung_up-Rests fate base sent now g g.header (record d { is_known = true })
              (Rests-same c _ h refl refl) (unmet dialled missed))
        | inr failed ↦ rw failed (undialled done (Rests-same c d h refl refl))
      ]
    where
      unmet : fate (dial c.recv_seq ∷ c.trace) ≡ true → IsMissed fate g c → HasNoHeader g.header
      unmet dialled (inl failed) = cc
      unmet dialled (inr none) = none

      undialled :
          (b : Bool)
          → Rests older t history (note (dial c.recv_seq) c)
          → AtPhase older t history base sent (
              if b
              then returned context_done (note (dial c.recv_seq) c)
              else retrying (note (dial c.recv_seq) c))
      undialled true k = k
      undialled false k = k
