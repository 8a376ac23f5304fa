-- ===== src/Link/Round.antt =====
-- The parts of Run in internal/client/client.go that show nothing.
use goet.Prelude.{ℕ, ◌+◌, ◌≡◌, refl, arith, inl, inr}
use goet.Prelude.{List, ◌∷◌, Bool, true, false, Bool-cases}
use goet.Prelude.{if◌then◌else◌}
use goet.Protocol.Message.{sequence_header}
use goet.Catchup
use goet.Catchup.{Entry}
use goet.Session.{Received, message}
use goet.Client
use goet.Client.{Effect, Client, dial, note, close_conn, handle_sequence_exchange}
use goet.Client.Relay.{
  ExitReason, exit_network, exit_shutdown, exit_cancelled, exit_escape, exit_stdin_eof,
}
use goet.Client.Shown.{Mute, Mute-refl, Mute-trans}
use goet.Client.Run.{
  Greeting, Phase, retrying, connected, returned, context_done, connect, after_exchange,
  restore_terminal, finish, wait,
}
use goet.Client.Handshake.{client_of, resend-Says, after_exchange-Says}

module _ (fate : List Effect → Bool) where
  after_dial-Mute :
      (now : ℕ) (g : Greeting) (c : Client) (p : Client × Bool)
      → Mute fate c p.0
      → Mute fate c (client_of (after_exchange fate now g p))
  after_dial-Mute now g c (d, done) h =
      Mute-trans fate h ((after_exchange-Says fate now g d done).mute fate)

  exchange-Mute : (r : Received) (c : Client) → Mute fate c (handle_sequence_exchange fate r c).0
  unfolding handle_sequence_exchange
  exchange-Mute (message (sequence_header last)) c =
      (resend-Says fate (Catchup.replay_since last c.buf) c).mute fate
  exchange-Mute _ c = Mute-refl fate c

  if_returned-Mute :
      (done : Bool) {c d : Client}
      → Mute fate c d
      → Mute fate c (client_of (if done then returned context_done d else retrying d))
  if_returned-Mute true h = h
  if_returned-Mute false h = h

  pub connect-Mute :
      (now : ℕ) (done : Bool) (g : Greeting) (c : Client)
      → Mute fate c (client_of (connect fate now done g c))
  unfolding connect
  connect-Mute now done g c = elim (Bool-cases (fate (dial c.recv_seq ∷ c.trace))) [
    | inl dialled ↦
        let d : Client = record (note (dial c.recv_seq) c) { is_known = true } in
        let p = handle_sequence_exchange fate g.header d in
        rw dialled (
          Mute-trans fate (record { shows = refl; heard = refl })
            (after_dial-Mute now g d p (exchange-Mute g.header d)))
    | inr failed ↦ rw failed (if_returned-Mute done (record { shows = refl; heard = refl }))
  ]

  if_restore-Mute :
      (tty : Bool) (c : Client) → Mute fate c (if tty then note Client.restore c else c)
  if_restore-Mute true c = record { shows = refl; heard = refl }
  if_restore-Mute false c = Mute-refl fate c

  restore-Mute : (c : Client) → Mute fate c (restore_terminal c)
  restore-Mute c = if_restore-Mute c.is_tty c

  pub finish-Mute : (reason : ExitReason) (c : Client) → Mute fate c (client_of (finish reason c))
  unfolding finish
  finish-Mute exit_network c =
      Mute-trans fate (restore-Mute c) (record { shows = refl; heard = refl })
  finish-Mute exit_shutdown c =
      Mute-trans fate (restore-Mute c) (record { shows = refl; heard = refl })
  finish-Mute exit_cancelled c =
      Mute-trans fate (restore-Mute c) (record { shows = refl; heard = refl })
  finish-Mute exit_escape c =
      Mute-trans fate (restore-Mute c) (record { shows = refl; heard = refl })
  finish-Mute exit_stdin_eof c =
      Mute-trans fate (restore-Mute c) (record { shows = refl; heard = refl })

  pub wait-Mute : (done : Bool) (c : Client) → Mute fate c (client_of (wait done c))
  unfolding wait
  wait-Mute done c = if_returned-Mute done (Mute-refl fate c)

-- What the client has received is what it had when it dialled, and what it has read since.
abbrev pub IsInStep : ℕ → ℕ → Phase → Type 0
IsInStep base taken (connected r) = r.client.recv_seq ≡ base + taken
IsInStep base taken _ = Unit

pub dialled-IsInStep : (p : Phase) (base : ℕ) → (client_of p).recv_seq ≡ base → IsInStep base 0 p
dialled-IsInStep (connected r) base h = omega (arith, h)
dialled-IsInStep (retrying c) base h = tt
dialled-IsInStep (returned stop c) base h = tt

pub finish-IsInStep :
    (base taken : ℕ) (reason : ExitReason) (c : Client) → IsInStep base taken (finish reason c)
unfolding finish
finish-IsInStep base taken exit_network c = tt
finish-IsInStep base taken exit_shutdown c = tt
finish-IsInStep base taken exit_cancelled c = tt
finish-IsInStep base taken exit_escape c = tt
finish-IsInStep base taken exit_stdin_eof c = tt

pub wait-IsInStep : (base taken : ℕ) (done : Bool) (c : Client) → IsInStep base taken (wait done c)
unfolding wait
wait-IsInStep base taken true c = tt
wait-IsInStep base taken false c = tt
