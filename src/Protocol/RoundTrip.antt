-- ===== src/Protocol/RoundTrip.antt =====
-- What WriteMessage writes, ReadMessage reads back (internal/protocol/messages.go).
use goet.Prelude.{ℕ, ◌+◌, ◌≤◌, ◌≡◌, refl, ap, ◌∙◌, Option, none, some}
use goet.Prelude.{List, [], ◌∷◌, ◌++◌, append-nil, append_assoc, arith, ltb, length, length-append}
use goet.Prelude.{Bool-cases, inl, inr, ltb→le}
use goet.Protocol.Bytes.{put_uint, length-put_uint}
use goet.Protocol.Message.{
  Message, auth_request, auth_response, sequence_header, heartbeat, resize, shutdown, terminal_info,
  data_msg, unsupported, max_payload_size, IoError, ok, InRange, msg_data,
}
use goet.Protocol.Encode.{
  header, finish, write_rest, write_framed, write_data_message, write_message,
}
use goet.Protocol.Decode.{read_message}
use goet.Protocol.Frame.{
  type_of, payload_of, wire, IsReadable, read_message-frame, decode_payload-payload_of,
}

-- Reading the bytes of a message gives the message, and leaves what follows.
pub read_message-wire :
    (m : Message) (rest : List ℕ) (e : IoError)
    → InRange m
    → IsReadable m
    → length (payload_of m) ≤ max_payload_size
    → read_message (record { bytes = wire m ++ rest; ending = e })
      ≡ (ok m, record { bytes = rest; ending = e })
unfolding wire
read_message-wire m rest e range readable h = rw (
  append_assoc (header (length (payload_of m)) (type_of m)) (payload_of m) rest,
  read_message-frame (type_of m) (payload_of m) rest e h,
  decode_payload-payload_of m range readable,
)

data_length : (seq : ℕ) (payload : List ℕ) → length (put_uint 8 seq ++ payload) ≡ 8 + length payload
data_length seq payload =
    omega (arith, length-append (put_uint 8 seq) payload, length-put_uint 8 seq)

-- A writer of which is known what it has been given: a Write with no error takes all its bytes.
module _ {W : Type 0} (write : W → List ℕ → W × Option IoError) (out : W → List ℕ)
    (appends : (w w' : W) (p : List ℕ) → write w p ≡ (w', none) → out w' ≡ out w ++ p) where
  finish-none : (r : W × Option IoError) {w' : W} → finish r ≡ (w', none) → r ≡ (w', none)
  finish-none (w, none) h = cc
  finish-none (w, some e) h = cc

  out-write_rest :
      (w : W) (hdr payload : List ℕ) (r : W × Option IoError) {w' : W}
      → write w hdr ≡ r
      → write_rest write r payload ≡ (w', none)
      → out w' ≡ out w ++ (hdr ++ payload)
  unfolding write_rest
  out-write_rest w hdr payload (w1, some e) q h = cc
  out-write_rest w hdr [] (w1, none) {w' = w'} q h =
      let same : w1 ≡ w' = cc in rw (append-nil hdr, ← same) (appends w w1 hdr q)
  out-write_rest w hdr (b ∷ bs) (w1, none) q h =
      appends w1 _ (b ∷ bs) (finish-none (write w1 (b ∷ bs)) h)
      ∙ ap (λ t. t ++ (b ∷ bs)) (appends w w1 hdr q)
      ∙ append_assoc (out w) hdr (b ∷ bs)

  out-write_framed :
      (w : W) (type : ℕ) (payload : List ℕ) {w' : W}
      → write_framed write w type payload ≡ (w', none)
      → (out w' ≡ out w ++ (header (length payload) type ++ payload))
        × (length payload ≤ max_payload_size)
  unfolding write_framed
  out-write_framed w type payload h = elim (Bool-cases (ltb max_payload_size (length payload))) [
    | inl big ↦ cc (rw big at h)
    | inr small ↦ (
      out-write_rest w (header (length payload) type) payload _ refl (rw small at h),
      ltb→le _ _ small,
    )
  ]

  out-write_data_message :
      (w : W) (seq : ℕ) (payload : List ℕ) {w' : W}
      → write_data_message write w seq payload ≡ (w', none)
      → (out w' ≡ out w ++ wire (data_msg seq payload))
        × (length (payload_of (data_msg seq payload)) ≤ max_payload_size)
  unfolding write_data_message wire payload_of type_of
  out-write_data_message w seq payload h =
      elim (Bool-cases (ltb max_payload_size (8 + length payload))) [
        | inl big ↦ cc (rw big at h)
        | inr small ↦ (
          rw
              (
                data_length seq payload,
                ← append_assoc (header (8 + length payload) msg_data) (put_uint 8 seq) payload,
              )
              (out-write_rest w (header (8 + length payload) msg_data ++ put_uint 8 seq) payload _
                refl (rw small at h)),
          rw (data_length seq payload) (ltb→le _ _ small),
        )
      ]

  -- A WriteMessage without error has written the bytes of the message.
  pub out-write_message :
      (w : W) (m : Message) {w' : W}
      → write_message write w m ≡ (w', none)
      → (out w' ≡ out w ++ wire m) × (length (payload_of m) ≤ max_payload_size)
  unfolding write_message wire payload_of type_of
  out-write_message w (terminal_info term) h = elim (Bool-cases (ltb 65535 (length term))) [
    | inl big ↦ cc (rw big at h)
    | inr small ↦ out-write_framed w _ _ (rw small at h)
  ]
  out-write_message w (data_msg seq payload) h = out-write_data_message w seq payload h
  out-write_message w unsupported h = cc
  out-write_message w (auth_request token) h = out-write_framed w _ _ h
  out-write_message w (auth_response status) h = out-write_framed w _ _ h
  out-write_message w (sequence_header last) h = out-write_framed w _ _ h
  out-write_message w (heartbeat ms) h = out-write_framed w _ _ h
  out-write_message w (resize rows cols) h = out-write_framed w _ _ h
  out-write_message w shutdown h = out-write_framed w _ _ h

  -- For a message whose fields are in the range of their types, and whose term, if it is a TerminalInfo, has at most
  -- 65533 bytes: if WriteMessage returns no error, then the bytes that it has added to the output, followed by
  -- any others, read back as that message, and exactly the others are left to read.
  pub read_message-write_message :
      (w w' : W) (m : Message) (rest : List ℕ) (e : IoError)
      → InRange m
      → IsReadable m
      → write_message write w m ≡ (w', none)
      → (sent : List ℕ) × (out w' ≡ out w ++ sent)
        × (read_message (record { bytes = sent ++ rest; ending = e })
            ≡ (ok m, record { bytes = rest; ending = e }))
  read_message-write_message w w' m rest e range readable h =
      let written = out-write_message w m h in
      (wire m, written.0, read_message-wire m rest e range readable written.1)
