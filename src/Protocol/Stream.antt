-- ===== src/Protocol/Stream.antt =====
-- The loops that read a stream of messages: readStreamLoop of internal/client/client.go and
-- readStream of internal/session/session.go, which send each result to a channel.
use goet.Prelude.{ℕ, zero, suc, ◌+◌, ◌≤◌, ◌<◌, ◌≡◌, refl, ap, ◌∙◌, arith}
use goet.Prelude.{List, [], ◌∷◌, ◌++◌, map, length, All}
use goet.Prelude.{length-drop, drop, take}
use goet.Protocol.Bytes.{get_uint}
use goet.Protocol.Message.{
  Message, Error, eof, io, Result, ok, err, panic, InRange, max_payload_size,
}
use goet.Protocol.Decode.{Reader, short_read, read_full, read_payload, read_body, read_message}
use goet.Protocol.Frame.{payload_of, wire, IsReadable}
use goet.Protocol.RoundTrip.{read_message-wire}

-- What the loop sends to its channel. `crash` is a panic, after which there is nothing, and `more`
-- is no value of the program: the fuel ran out.
pub data StreamResult : Type 0 where
  msg : Message → StreamResult
  failure : Error → StreamResult
  crash more : StreamResult

unfoldable pub read_stream_loop : ℕ → Reader → List StreamResult
read_stream_loop zero r = more ∷ []
read_stream_loop (suc fuel) r = elim ((read_message r).0) [
  | ok m ↦ msg m ∷ read_stream_loop fuel (read_message r).1
  | err e ↦ failure e ∷ []
  | panic ↦ crash ∷ []
]

abbrev pub IsSendable : Message → Type 0
IsSendable m = InRange m × IsReadable m × (length (payload_of m) ≤ max_payload_size)

unfoldable pub wires : List Message → List ℕ
wires [] = []
wires (m ∷ ms) = wire m ++ wires ms

read_stream_loop_step :
    (fuel : ℕ) (r r' : Reader) (m : Message)
    → read_message r ≡ (ok m, r')
    → read_stream_loop (suc fuel) r ≡ msg m ∷ read_stream_loop fuel r'
unfolding read_stream_loop
read_stream_loop_step fuel r r' m e =
    rw (e, read_stream_loop)
      (ap (λ (p : Result Message × Reader). msg m ∷ read_stream_loop fuel p.1) e)

-- For messages whose fields are in the range of their types, whose terms, if they are TerminalInfos, have at most 65533
-- bytes, and whose payloads are within the limit of a frame: a stream that carries their frames and then ends,
-- gives the loop exactly these messages in their order, and then the end of file, at one unit of fuel for each
-- and one more.
pub read_stream_loop-wires :
    (ms : List Message) (fuel : ℕ)
    → All IsSendable ms
    → length ms < fuel
    → read_stream_loop fuel (record { bytes = wires ms; ending = eof })
      ≡ map msg ms ++ (failure (io eof) ∷ [])
unfolding wires
read_stream_loop-wires ms zero h lt = absurd (omega arith)
read_stream_loop-wires [] (suc fuel) h lt =
    unfold read_stream_loop read_message read_body read_full short_read in refl
read_stream_loop-wires (m ∷ ms) (suc fuel) h lt =
    read_stream_loop_step fuel _ _ m (read_message-wire m (wires ms) eof h.0.0 h.0.1 h.0.2)
    ∙ ap (λ t. msg m ∷ t) (read_stream_loop-wires ms fuel h.1 (omega arith))

abbrev pub Ends : List StreamResult → Type 0
Ends [] = ⊥
Ends (failure e ∷ []) = Unit
Ends (crash ∷ []) = Unit
Ends (msg m ∷ rs) = Ends rs
Ends _ = ⊥

-- A message takes at least the five bytes of its header from the reader.
pub read_message-shrinks :
    (r : Reader) {m : Message}
    → (read_message r).0 ≡ ok m
    → length (read_message r).1.bytes + 5 ≤ length r.bytes
unfolding read_message read_body read_payload read_full
read_message-shrinks r e =
    let hdr : List ℕ = take 5 r.bytes in
    let len : ℕ = get_uint 0 (take 4 hdr) in
    ground (arith, length-drop 5 r.bytes, length-drop len (drop 5 r.bytes))

result-Ends :
    (fuel : ℕ) (r : Reader) (v : Result Message)
    → ((m : Message) → v ≡ ok m → Ends (read_stream_loop fuel (read_message r).1))
    → Ends (elim v [
      | ok m ↦ msg m ∷ read_stream_loop fuel (read_message r).1
      | err e ↦ failure e ∷ []
      | panic ↦ crash ∷ []
    ])
result-Ends fuel r (ok m) h = h m refl
result-Ends fuel r (err e) h = tt
result-Ends fuel r panic h = tt

-- Whatever bytes arrive, the loop ends by an error or a panic, and sends only messages before, if
-- its fuel is more than the number of bytes.
pub read_stream_loop-Ends :
    (fuel : ℕ) (r : Reader) → length r.bytes < fuel → Ends (read_stream_loop fuel r)
unfolding read_stream_loop
read_stream_loop-Ends zero r lt = absurd (omega arith)
read_stream_loop-Ends (suc fuel) r lt =
    result-Ends fuel r (read_message r).0
      λ m e. read_stream_loop-Ends fuel (read_message r).1 (omega (arith, read_message-shrinks r e))
