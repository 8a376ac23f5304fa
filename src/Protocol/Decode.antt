-- ===== src/Protocol/Decode.antt =====
-- ReadMessage and DecodePayload of internal/protocol/messages.go.
use goet.Prelude.{ℕ, zero, suc, ◌+◌, ◌-◌, ◌%◌, ◌^◌, List, [], ltb, ◌==◌}
use goet.Prelude.{if◌then◌else◌, length, take, drop, get_or}
use goet.Protocol.Bytes.{get_uint}
use goet.Protocol.Message.{
  Message, auth_request, auth_response, sequence_header, heartbeat, resize, shutdown, terminal_info,
  data_msg, to_int64, max_payload_size, msg_auth_request, msg_auth_response, msg_sequence_hdr,
  msg_heartbeat, msg_resize, msg_shutdown, msg_terminal_info, msg_data, IoError, eof,
  unexpected_eof, failed, short_payload, unknown_message, payload_too_large, io, Result, ok, err,
  panic, header_size,
}

-- An io.Reader: the bytes that it will give, and the error after the last.
pub record Reader : Type 0 where
  pub bytes : List ℕ
  pub ending : IoError

-- The error of io.ReadFull after `got` bytes, too few: an end of file part way is unexpected.
unfoldable pub short_read : ℕ → IoError → IoError
short_read zero e = e
short_read (suc got) eof = unexpected_eof
short_read (suc got) unexpected_eof = unexpected_eof
short_read (suc got) (failed n) = failed n

-- io.ReadFull into a buffer of `n` bytes.
unfoldable pub read_full : ℕ → Reader → Result (List ℕ) × Reader
read_full n r =
    if ltb (length r.bytes) n
    then (err (io (short_read (length r.bytes) r.ending)), record r { bytes = [] })
    else (ok (take n r.bytes), record r { bytes = drop n r.bytes })

-- payload[lo:hi], which panics if `hi` is below `lo` or beyond the end.
abbrev pub slice : ℕ → ℕ → List ℕ → Result (List ℕ)
slice lo hi payload =
    if ltb hi lo
    then panic
    else if ltb (length payload) hi
    then panic
    else ok (take (hi - lo) (drop lo payload))

abbrev pub to_terminal_info : Result (List ℕ) → Result Message
to_terminal_info (ok term) = ok (terminal_info term)
to_terminal_info (err e) = err e
to_terminal_info panic = panic

-- `2 + termLen` is an addition of uint16, and wraps; `2 + int(termLen)` does not.
unfoldable pub decode_terminal_info : List ℕ → Result Message
decode_terminal_info payload =
    let term_len = get_uint 0 (take 2 payload) in
    if ltb (length payload) 2
    then err short_payload
    else if ltb (length payload) (2 + term_len)
    then err short_payload
    else to_terminal_info (slice 2 ((2 + term_len) % 2 ^ 16) payload)

unfoldable pub decode_payload : ℕ → List ℕ → Result Message
decode_payload type payload =
    if type == msg_auth_request
    then (if ltb (length payload) 32
        then err short_payload
        else ok (auth_request (take 32 payload)))
    else if type == msg_auth_response
    then (if ltb (length payload) 1
        then err short_payload
        else ok (auth_response (get_or payload 0 0)))
    else if type == msg_sequence_hdr
    then (if ltb (length payload) 8
        then err short_payload
        else ok (sequence_header (get_uint 0 (take 8 payload))))
    else if type == msg_heartbeat
    then (if ltb (length payload) 8
        then err short_payload
        else ok (heartbeat (to_int64 (get_uint 0 (take 8 payload)))))
    else if type == msg_resize
    then (if ltb (length payload) 4
        then err short_payload
        else ok (resize (get_uint 0 (take 2 payload)) (get_uint 0 (take 2 (drop 2 payload)))))
    else if type == msg_shutdown
    then ok shutdown
    else if type == msg_terminal_info
    then decode_terminal_info payload
    else if type == msg_data
    then (if ltb (length payload) 8
        then err short_payload
        else ok (data_msg (get_uint 0 (take 8 payload)) (drop 8 payload)))
    else err (unknown_message type)

-- The payload has been read, or not.
unfoldable pub read_payload : ℕ → Result (List ℕ) × Reader → Result Message × Reader
read_payload type (ok payload, r) = (decode_payload type payload, r)
read_payload type (err e, r) = (err e, r)
read_payload type (panic, r) = (panic, r)

unfoldable pub read_body : Result (List ℕ) × Reader → Result Message × Reader
read_body (ok hdr, r) =
    let len = get_uint 0 (take 4 hdr) in
    let type = get_or hdr 4 0 in
    if ltb max_payload_size len
    then (err payload_too_large, r)
    else read_payload type (if ltb 0 len then read_full len r else (ok [], r))
read_body (err e, r) = (err e, r)
read_body (panic, r) = (panic, r)

unfoldable pub read_message : Reader → Result Message × Reader
read_message r = read_body (read_full header_size r)
