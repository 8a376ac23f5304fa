-- ===== src/Protocol/Encode.antt =====
-- WriteMessage and writeDataMessage of internal/protocol/messages.go.
use goet.Prelude.{ℕ, ◌+◌, ◌%◌, ◌^◌, Option, none, some, List, [], ◌∷◌, ◌++◌, ltb}
use goet.Prelude.{if◌then◌else◌, length}
use goet.Protocol.Bytes.{put_uint}
use goet.Protocol.Message.{
  Message, auth_request, auth_response, sequence_header, heartbeat, resize, shutdown, terminal_info,
  data_msg, unsupported, to_uint64, max_payload_size, msg_auth_request, msg_auth_response,
  msg_sequence_hdr, msg_heartbeat, msg_resize, msg_shutdown, msg_terminal_info, msg_data, IoError,
  Error, payload_too_large, unsupported_type, term_too_long, io,
}

-- The header: PutUint32(uint32(len(payload))), then the type.
unfoldable pub header : ℕ → ℕ → List ℕ
header len type = put_uint 4 (len % 2 ^ 32) ++ (type ∷ [])

abbrev pub data_header_size : ℕ
data_header_size = 8

abbrev pub finish : {W : Type 0} → W × Option IoError → W × Option Error
finish (w, none) = (w, none)
finish (w, some e) = (w, some (io e))

-- An io.Writer: Write returns the new state, and an error if it did not take all bytes.
module _ {W : Type 0} (write : W → List ℕ → W × Option IoError) where
  -- The second write, which is skipped for an empty payload.
  unfoldable pub write_rest : W × Option IoError → List ℕ → W × Option Error
  write_rest (w, some e) payload = (w, some (io e))
  write_rest (w, none) [] = (w, none)
  write_rest (w, none) (b ∷ bs) = finish (write w (b ∷ bs))

  unfoldable pub write_framed : W → ℕ → List ℕ → W × Option Error
  write_framed w type payload =
      if ltb max_payload_size (length payload)
      then (w, some payload_too_large)
      else write_rest (write w (header (length payload) type)) payload

  unfoldable pub write_data_message : W → ℕ → List ℕ → W × Option Error
  write_data_message w seq payload =
      let len = data_header_size + length payload in
      if ltb max_payload_size len
      then (w, some payload_too_large)
      else write_rest (write w (header len msg_data ++ put_uint 8 seq)) payload

  unfoldable pub write_message : W → Message → W × Option Error
  write_message w (auth_request token) = write_framed w msg_auth_request token
  write_message w (auth_response status) = write_framed w msg_auth_response (status ∷ [])
  write_message w (sequence_header last) = write_framed w msg_sequence_hdr (put_uint 8 last)
  write_message w (heartbeat ms) = write_framed w msg_heartbeat (put_uint 8 (to_uint64 ms))
  write_message w (resize rows cols) =
      write_framed w msg_resize (put_uint 2 rows ++ put_uint 2 cols)
  write_message w shutdown = write_framed w msg_shutdown []
  write_message w (terminal_info term) =
      if ltb 65535 (length term)
      then (w, some (term_too_long (length term)))
      else write_framed w msg_terminal_info (put_uint 2 (length term % 2 ^ 16) ++ term)
  write_message w (data_msg seq payload) = write_data_message w seq payload
  write_message w unsupported = (w, some unsupported_type)
