-- ===== src/Session/Stream/Accept.antt =====
-- What handleNewConn of internal/session/session.go sends to a client: the history after its number.
use goet.Prelude.{ℕ, ◌^◌, ◌<◌, ◌≡◌, refl, sym, ap, subst, ◌∙◌, arith, inl, inr}
use goet.Prelude.{
  List, [], ◌∷◌, ◌++◌, map, append-nil, append_assoc, length, length-append, drop, Bool, true,
  false, Bool-cases,
}
use goet.Prelude.{none, some, ==_refl}
use goet.Protocol.Message.{terminal_info, sequence_header}
use goet.Catchup
use goet.Catchup.{Buffer, Entry, oldest_seq}
use goet.Session.{
  Effect, Session, Received, message, read_error, NewConn, note, close_conn, flush_coalesced,
  write_data, write_control, replay, start_streams, replay_missed, spawn, take_hello, after_header,
  handle_new_conn,
}
use goet.Session.Calls.{close_conn-Keeps, handle_new_conn-Keeps, spawn-Keeps}
use goet.Session.History.{TracksSession, Keeps-Tracks, flushed, flush_coalesced-Tracks_exact}
use goet.Session.Replay.{data_of, data_to, close_conn-data_to, close_conn-offline, flush-offline}
use goet.Session.Stream.Held.{ReachesBack, replay_since-drop}
use goet.Session.Silent.{Silent, close_conn-Silent, spawn-Silent, start_streams-Silent}
use goet.Session.Stream.{Delivers, map-append}

-- What a replay of `es` on the current connection has sent.
record Replayed (id : ℕ) (es : List Entry) (s s' : Session) : Type 0 where
  done : List Entry
  left : List Entry
  cut : done ++ left ≡ es
  wrote : data_to id s'.trace ≡ data_to id s.trace ++ map data_of done
  whole : s'.conn ≡ some id → left ≡ []

module _ (id : ℕ) (es : List Entry) where
  -- Nothing was sent, and there is no connection.
  Replayed-none : (s s' : Session) → Silent id s s' → s'.conn ≡ none → Replayed id es s s'
  Replayed-none s s' h off = record {
    done = [];
    left = es;
    cut = refl;
    wrote = h.quiet ∙ sym (append-nil (data_to id s.trace));
    whole = λ on. cc;
  }

  -- Calls before it that are silent.
  Replayed-after : (s t s' : Session) → Silent id s t → Replayed id es t s' → Replayed id es s s'
  Replayed-after s t s' h r = record {
    done = r.done;
    left = r.left;
    cut = r.cut;
    wrote = r.wrote ∙ ap (λ ms. ms ++ map data_of r.done) h.quiet;
    whole = r.whole;
  }

module _ (fate : List Effect → Bool) (id : ℕ) where
  -- How far the loop came.
  replay-Replayed :
      (es : List Entry) (s : Session)
      → (done : List Entry) × (left : List Entry) × (done ++ left ≡ es)
        × (data_to id (replay fate id es s).0.trace ≡ data_to id s.trace ++ map data_of done)
        × ((replay fate id es s).1 ≡ true → left ≡ [])
  unfolding replay
  replay-Replayed [] s = ([], [], refl, sym (append-nil (data_to id s.trace)), λ all. refl)
  replay-Replayed (e ∷ es) s =
      let call : Effect = write_data id (data_of e) in
      let (done, left, cut, wrote, whole) = replay-Replayed es (note call s) in
      elim (Bool-cases (fate (call ∷ s.trace))) [
        | inl ok ↦ rw ok (
          e ∷ done,
          left,
          ap (λ t. e ∷ t) cut,
          wrote
              ∙ rw (==_refl id)
                  (append_assoc (data_to id s.trace) (data_of e ∷ []) (map data_of done)),
          whole,
        )
        | inr failed ↦ rw failed (e ∷ [], es, refl, rw (==_refl id) refl, λ never. cc)
      ]

  start_streams_done :
      (s : Session) (ok : Bool) → (start_streams fate id (s, ok)).0.conn ≡ some id → ok ≡ true
  unfolding start_streams
  start_streams_done s true on = refl
  start_streams_done s false on = let off = close_conn-offline s in cc

  start_streams-Replayed :
      (es : List Entry) (s : Session)
      → let (s', ok) = replay fate id es s in Replayed id es s (start_streams fate id (s', ok)).0
  start_streams-Replayed es s =
      let (done, left, cut, wrote, whole) = replay-Replayed es s in
      let (s', ok) = replay fate id es s in
      let after = start_streams-Silent fate id id s' ok in
      record {
        done = done;
        left = left;
        cut = cut;
        wrote = after.quiet ∙ wrote;
        whole = λ on. whole (start_streams_done s' ok on);
      }

module _ (fate : List Effect → Bool) (nc : NewConn) where
  -- What the ring holds for the client.
  abbrev held : Session → List Entry
  held s = Catchup.replay_since nc.last_client_seq s.buf

  closed-Replayed : (s : Session) → Replayed nc.id (held s) s (close_conn s)
  closed-Replayed s =
      Replayed-none nc.id (held s) s (close_conn s) (close_conn-Silent nc.id s)
        (close_conn-offline s)

  replay_missed-Replayed :
      (s : Session) (ok : Bool) → Replayed nc.id (held s) s (replay_missed fate nc (s, ok)).0
  unfolding replay_missed
  replay_missed-Replayed s true = start_streams-Replayed fate nc.id (held s) s
  replay_missed-Replayed s false = closed-Replayed s

  take_hello-Replayed :
      (r : Received) (s : Session) → Replayed nc.id (held s) s (take_hello fate nc r s).0
  take_hello-Replayed (message (terminal_info term)) s =
      let (s', ok) = spawn fate term s in
      Replayed-after nc.id (held s) s s' _ (spawn-Silent fate nc.id term s) (
        subst
          (λ b.
            Replayed nc.id (Catchup.replay_since nc.last_client_seq b) s'
              (replay_missed fate nc (s', ok)).0)
          (spawn-Keeps fate term s).buf (replay_missed-Replayed s' ok))
  take_hello-Replayed (message _) s = closed-Replayed s
  take_hello-Replayed read_error s = closed-Replayed s

  after_header-Replayed :
      (s : Session) (ok : Bool) → Replayed nc.id (held s) s (after_header fate nc (s, ok)).0
  after_header-Replayed s true = take_hello-Replayed nc.hello s
  after_header-Replayed s false = closed-Replayed s

  -- The ring reaches back to what the client lacks, or nothing was ever stored.
  abbrev pub Covers : Session → Type 0
  Covers f = ReachesBack nc.last_client_seq f.send_seq f.buf

  held-drop :
      (input : List ℕ) (history : List Entry) (f : Session)
      → TracksSession input history f
      → Covers f
      → held f ≡ drop nc.last_client_seq history
  held-drop input history f t covers =
      replay_since-drop nc.last_client_seq input history f.buf f.send_seq f.coal.buf t covers

  -- A new connection that nothing was written to is sent the history after what its client announced.
  pub accepted-Delivers :
      (input : List ℕ) (history : List Entry) (s : Session)
      → Delivers nc.id nc.last_client_seq input history s
      → length input < 2 ^ 64
      → data_to nc.id s.trace ≡ []
      → Covers (flush_coalesced fate (close_conn s))
      → Delivers nc.id nc.last_client_seq input
          (history ++ flushed (close_conn s))
          (handle_new_conn fate nc s).0
  unfolding handle_new_conn
  accepted-Delivers input history s d small unused covers =
      let f = flush_coalesced fate (close_conn s) in
      let all = history ++ flushed (close_conn s) in
      let tracks =
        flush_coalesced-Tracks_exact fate input history (close_conn s)
          (Keeps-Tracks input history s (close_conn s) (close_conn-Keeps s) d.tracks) small in
      let s' : Session = record f { conn = some nc.id } in
      let call : Effect = write_control nc.id (sequence_header s'.recv_seq) in
      let r = after_header-Replayed (note call s') (fate (call ∷ s'.trace)) in
      let before : data_to nc.id f.trace ≡ [] =
        ap (data_to nc.id) (flush-offline fate (close_conn s) (close_conn-offline s))
        ∙ close_conn-data_to nc.id s
        ∙ unused in
      record {
        tracks = Keeps-Tracks input all f _ (handle_new_conn-Keeps fate nc s) tracks;
        low = omega (arith, d.low, length-append history (flushed (close_conn s)));
        rest = map data_of r.left;
        sent =
            ap (λ t. t ++ map data_of r.left) (r.wrote ∙ ap (λ t. t ++ map data_of r.done) before)
            ∙ sym (map-append r.done r.left)
            ∙ ap (map data_of) (r.cut ∙ held-drop input all f tracks covers);
        complete = λ on. ap (map data_of) (r.whole on);
      }
