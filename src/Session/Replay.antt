-- ===== src/Session/Replay.antt =====
-- What handleNewConn of internal/session/session.go sends on the new connection.
use goet.Prelude.{ℕ, ◌≡◌, sym, ap, ap₂, ◌∙◌, arith, inl, inr}
use goet.Prelude.{List, [], ◌∷◌, ◌++◌, map, append-nil, append_assoc, Bool, true, false}
use goet.Prelude.{none, some, if◌then◌else◌, Bool-cases, ◌==◌, ==_refl}
use goet.Protocol.Message.{Message, data_msg, terminal_info, sequence_header}
use goet.Catchup
use goet.Catchup.{Buffer, Entry}
use goet.Catchup.Spec.{newer}
use goet.Catchup.Refine.{contents}
use goet.Catchup.Replay.{replay_since-newer}
use goet.Coalesce
use goet.Session.{
  Effect, Session, Received, message, read_error, NewConn, close_conn, send_stored, flush_coalesced,
  write_data, write_control, note, replay, start_streams, replay_missed, spawn, take_hello,
  after_header, handle_new_conn,
}
use goet.Session.Calls.{spawn-Keeps}

abbrev pub data_of : Entry → Message
data_of e = data_msg e.seq e.payload

-- The messages written to the data stream of a connection, oldest first.
abbrev pub data_to : ℕ → List Effect → List Message
data_to c [] = []
data_to c (write_data d m ∷ es) =
    let before = data_to c es in if c == d then before ++ (m ∷ []) else before
data_to c (_ ∷ es) = data_to c es

pub close_conn-data_to : (c : ℕ) (s : Session) → data_to c (close_conn s).trace ≡ data_to c s.trace
unfolding close_conn
close_conn-data_to c s = ground arith

pub close_conn-offline : (s : Session) → (close_conn s).conn ≡ none
unfolding close_conn
close_conn-offline s = ground arith

module _ (fate : List Effect → Bool) where
  -- Without a connection a flush stores the batch, and sends nothing.
  pub flush-offline : (s : Session) → s.conn ≡ none → (flush_coalesced fate s).trace ≡ s.trace
  unfolding flush_coalesced send_stored Coalesce.flush
  flush-offline s off = ground arith

  -- A replay that is done has sent the entries.
  replay-data_to :
      (c : ℕ) (es : List Entry) (s : Session)
      → (replay fate c es s).1 ≡ true
      → data_to c (replay fate c es s).0.trace ≡ data_to c s.trace ++ map data_of es
  unfolding replay
  replay-data_to c [] s = λ done. sym (append-nil (data_to c s.trace))
  replay-data_to c (e ∷ es) s =
      let call : Effect = write_data c (data_of e) in
      elim (Bool-cases (fate (call ∷ s.trace))) [
        | inl sent ↦ rw sent (λ done.
            replay-data_to c es (note call s) done
            ∙ rw (==_refl c) (append_assoc (data_to c s.trace) (data_of e ∷ []) (map data_of es)))
        | inr lost ↦ rw lost (λ never. cc)
      ]

module _ (fate : List Effect → Bool) (nc : NewConn) where
  -- What `s` is to be for the claim: still connected, it has sent what the ring held for the client.
  abbrev Replays : Session → Session → Type 0
  Replays s s' =
      s'.conn ≡ some nc.id
      → data_to nc.id s'.trace
        ≡ data_to nc.id s.trace ++ map data_of (Catchup.replay_since nc.last_client_seq s.buf)

  close_conn-Replays : (s t : Session) → Replays s (close_conn t)
  close_conn-Replays s t on = let off = close_conn-offline t in cc

  replay_missed-Replays :
      (s : Session) (done : Bool) → Replays s (replay_missed fate nc (s, done)).0
  unfolding replay_missed start_streams
  replay_missed-Replays s true =
      let entries = Catchup.replay_since nc.last_client_seq s.buf in
      elim (Bool-cases (replay fate nc.id entries s).1) [
        | inl sent ↦ rw sent (λ on. replay-data_to fate nc.id entries s sent)
        | inr lost ↦ rw lost (close_conn-Replays s (replay fate nc.id entries s).0)
      ]
  replay_missed-Replays s false = close_conn-Replays s s

  spawn-data_to :
      (term : List ℕ) (s : Session)
      → data_to nc.id (spawn fate term s).0.trace ≡ data_to nc.id s.trace
  unfolding spawn
  spawn-data_to term s = ground arith

  take_hello-Replays : (r : Received) (s : Session) → Replays s (take_hello fate nc r s).0
  take_hello-Replays (message (terminal_info term)) s =
      let (s', done) = spawn fate term s in
      λ on.
        replay_missed-Replays s' done on
        ∙ ap₂ (λ t b. t ++ map data_of (Catchup.replay_since nc.last_client_seq b))
            (spawn-data_to term s) (spawn-Keeps fate term s).buf
  take_hello-Replays (message _) s = close_conn-Replays s s
  take_hello-Replays read_error s = close_conn-Replays s s

  after_header-Replays : (s : Session) (done : Bool) → Replays s (after_header fate nc (s, done)).0
  after_header-Replays s true = take_hello-Replays nc.hello s
  after_header-Replays s false = close_conn-Replays s s

  -- If the new connection is still the current one when handleNewConn returns, then what it has sent on
  -- its data stream is what the ring held, after the flush, with a number above LastClientSeq, in order.
  pub handle_new_conn-Replays :
      (s : Session)
      → (handle_new_conn fate nc s).0.conn ≡ some nc.id
      → data_to nc.id (handle_new_conn fate nc s).0.trace
        ≡ data_to nc.id s.trace
          ++ map data_of
              (newer nc.last_client_seq (contents (flush_coalesced fate (close_conn s)).buf))
  unfolding handle_new_conn
  handle_new_conn-Replays s on =
      let f = flush_coalesced fate (close_conn s) in
      let s' : Session = record f { conn = some nc.id } in
      let call : Effect = write_control nc.id (sequence_header s'.recv_seq) in
      after_header-Replays (note call s') (fate (call ∷ s'.trace)) on
      ∙ ap₂ (λ t es. t ++ map data_of es)
          (ap (data_to nc.id) (flush-offline fate (close_conn s) (close_conn-offline s))
            ∙ close_conn-data_to nc.id s)
          (replay_since-newer nc.last_client_seq f.buf)
