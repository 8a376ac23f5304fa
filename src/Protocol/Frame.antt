-- ===== src/Protocol/Frame.antt =====
-- The bytes of a message on the wire, and what ReadMessage makes of them (internal/protocol/messages.go).
use goet.Prelude.{ℕ, ◌%◌, ◌^◌, ◌≤◌, ◌<◌, ◌≡◌, refl, ◌∙◌}
use goet.Prelude.{List, [], ◌∷◌, ◌++◌, arith, ltb}
use goet.Prelude.{length, take, drop, get_or, length-append, if◌then◌else◌}
use goet.Prelude.{le→ltb, lt→ltb, take_all, take-append_of_length, drop-append_of_length}
use goet.Prelude.{get_or-append}
use goet.Protocol.Bytes.{put_uint, get_uint, length-put_uint, get_uint-put_uint}
use goet.Protocol.Message.{
  Message, auth_request, auth_response, sequence_header, heartbeat, resize, shutdown, terminal_info,
  data_msg, unsupported, to_uint64, max_payload_size, msg_auth_request, msg_auth_response,
  msg_sequence_hdr, msg_heartbeat, msg_resize, msg_shutdown, msg_terminal_info, msg_data, IoError,
  ok, InRange, to_int64-to_uint64, to_uint64-lt,
}
use goet.Protocol.Encode.{header}
use goet.Protocol.Decode.{
  read_full, decode_payload, decode_terminal_info, read_payload, read_body, read_message,
}

-- The type byte and the payload of a message on the wire.
unfoldable pub type_of : Message → ℕ
type_of (auth_request token) = msg_auth_request
type_of (auth_response status) = msg_auth_response
type_of (sequence_header last) = msg_sequence_hdr
type_of (heartbeat ms) = msg_heartbeat
type_of (resize rows cols) = msg_resize
type_of shutdown = msg_shutdown
type_of (terminal_info term) = msg_terminal_info
type_of (data_msg seq payload) = msg_data
type_of unsupported = 0

unfoldable pub payload_of : Message → List ℕ
payload_of (auth_request token) = token
payload_of (auth_response status) = status ∷ []
payload_of (sequence_header last) = put_uint 8 last
payload_of (heartbeat ms) = put_uint 8 (to_uint64 ms)
payload_of (resize rows cols) = put_uint 2 rows ++ put_uint 2 cols
payload_of shutdown = []
payload_of (terminal_info term) = put_uint 2 (length term % 2 ^ 16) ++ term
payload_of (data_msg seq payload) = put_uint 8 seq ++ payload
payload_of unsupported = []

unfoldable pub wire : Message → List ℕ
wire m = header (length (payload_of m)) (type_of m) ++ payload_of m

-- A term that DecodePayload can slice.
abbrev pub IsReadable : Message → Type 0
IsReadable (terminal_info term) = length term ≤ 65533
IsReadable unsupported = ⊥
IsReadable _ = Unit {0}

pub read_full-append :
    (n : ℕ) (xs ys : List ℕ) (e : IoError)
    → length xs ≡ n
    → read_full n (record { bytes = xs ++ ys; ending = e })
      ≡ (ok xs, record { bytes = ys; ending = e })
unfolding read_full
read_full-append n xs ys e h = rw (
  le→ltb (length (xs ++ ys)) n (omega (arith, length-append xs ys)),
  take-append_of_length n xs ys h,
  drop-append_of_length n xs ys h,
)

module _ (len type : ℕ) (small : len < 2 ^ 32) where
  pub length-header : length (header len type) ≡ 5
  unfolding header
  length-header = omega (
    arith,
    length-append (put_uint 4 (len % 2 ^ 32)) (type ∷ []),
    length-put_uint 4 (len % 2 ^ 32),
  )

  pub header-len : get_uint 0 (take 4 (header len type)) ≡ len
  unfolding header
  header-len =
      let n : length (put_uint 4 (len % 2 ^ 32)) ≡ 4 = length-put_uint 4 (len % 2 ^ 32) in
      rw (take-append_of_length 4 (put_uint 4 (len % 2 ^ 32)) (type ∷ []) n)
        (get_uint-put_uint 4 (len % 2 ^ 32) (omega arith) ∙ omega arith)

  pub header-type : get_or (header len type) 4 0 ≡ type
  unfolding header
  header-type =
      let n : length (put_uint 4 (len % 2 ^ 32)) ≡ 4 = length-put_uint 4 (len % 2 ^ 32) in
      rw n at (get_or-append (put_uint 4 (len % 2 ^ 32)) (type ∷ []) 0)

read_payload-frame :
    (type : ℕ) (payload rest : List ℕ) (e : IoError)
    → read_payload type (
        if ltb 0 (length payload)
        then read_full (length payload) (record { bytes = payload ++ rest; ending = e })
        else (ok [], record { bytes = payload ++ rest; ending = e }))
      ≡ (decode_payload type payload, record { bytes = rest; ending = e })
unfolding read_payload
read_payload-frame type [] rest e = refl
read_payload-frame type (b ∷ bs) rest e = rw (
  lt→ltb 0 (length (b ∷ bs)) (omega arith),
  read_full-append (length (b ∷ bs)) (b ∷ bs) rest e refl,
)

-- A whole frame is decoded, and what follows it is left in the reader.
pub read_message-frame :
    (type : ℕ) (payload rest : List ℕ) (e : IoError)
    → length payload ≤ max_payload_size
    → read_message
        (record { bytes = header (length payload) type ++ (payload ++ rest); ending = e })
      ≡ (decode_payload type payload, record { bytes = rest; ending = e })
unfolding read_message read_body
read_message-frame type payload rest e h =
    let small : length payload < 2 ^ 32 = omega arith in
    rw
      (
        read_full-append 5 (header (length payload) type) (payload ++ rest) e
            (length-header (length payload) type small),
        header-len (length payload) type small,
        header-type (length payload) type small,
        le→ltb max_payload_size (length payload) h,
      )
      (read_payload-frame type payload rest e)

uint64_payload : (v : ℕ) → v < 2 ^ 64 → get_uint 0 (take 8 (put_uint 8 v)) ≡ v
uint64_payload v h =
    let n : length (put_uint 8 v) ≡ 8 = length-put_uint 8 v in
    rw (take_all 8 (put_uint 8 v) (omega arith)) (get_uint-put_uint 8 v h)

pub take-put_uint : (n v : ℕ) (rest : List ℕ) → take n (put_uint n v ++ rest) ≡ put_uint n v
take-put_uint n v rest = take-append_of_length n (put_uint n v) rest (length-put_uint n v)

pub drop-put_uint : (n v : ℕ) (rest : List ℕ) → drop n (put_uint n v ++ rest) ≡ rest
drop-put_uint n v rest = drop-append_of_length n (put_uint n v) rest (length-put_uint n v)

decode_terminal_info-readable :
    (term : List ℕ)
    → length term ≤ 65533
    → decode_terminal_info (put_uint 2 (length term % 2 ^ 16) ++ term) ≡ ok (terminal_info term)
unfolding decode_terminal_info
decode_terminal_info-readable term r = ground (
  arith,
  length-append (put_uint 2 (length term % 2 ^ 16)) term,
  length-put_uint 2 (length term % 2 ^ 16),
  take-put_uint 2 (length term % 2 ^ 16) term,
  drop-put_uint 2 (length term % 2 ^ 16) term,
  get_uint-put_uint 2 (length term % 2 ^ 16),
  take_all (length term) term,
)

-- DecodePayload inverts the encoding of every message that it can slice.
pub decode_payload-payload_of :
    (m : Message) → InRange m → IsReadable m → decode_payload (type_of m) (payload_of m) ≡ ok m
unfolding decode_payload type_of payload_of
decode_payload-payload_of (auth_request token) (n, _) r =
    rw (le→ltb (length token) 32 (omega arith), take_all 32 token (omega arith))
decode_payload-payload_of (auth_response status) h r = refl
decode_payload-payload_of (sequence_header last) h r = rw (length-put_uint, uint64_payload last h)
decode_payload-payload_of (heartbeat ms) h r =
    rw (length-put_uint, uint64_payload (to_uint64 ms) (to_uint64-lt ms), to_int64-to_uint64 ms h)
decode_payload-payload_of (resize rows cols) h r = rw (
  length-append (put_uint 2 rows) (put_uint 2 cols),
  length-put_uint 2 rows,
  length-put_uint 2 cols,
  take-put_uint 2 rows (put_uint 2 cols),
  drop-put_uint 2 rows (put_uint 2 cols),
  take_all 2 (put_uint 2 cols) (omega (arith, length-put_uint 2 cols)),
  get_uint-put_uint 2 rows h.0,
  get_uint-put_uint 2 cols h.1,
)
decode_payload-payload_of shutdown h r = refl
decode_payload-payload_of (terminal_info term) h r = decode_terminal_info-readable term r
decode_payload-payload_of (data_msg seq payload) h r = rw (
  take-put_uint 8 seq payload,
  drop-put_uint 8 seq payload,
  get_uint-put_uint 8 seq h.0,
  le→ltb (length (put_uint 8 seq ++ payload)) 8
      (omega (arith, length-append (put_uint 8 seq) payload, length-put_uint 8 seq)),
)
decode_payload-payload_of unsupported h r = absurd r
