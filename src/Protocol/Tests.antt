-- ===== src/Protocol/Tests.antt =====
-- Runs of the codec, and its theorems at concrete inputs.
use goet.Prelude.{ℕ, ◌+◌, ◌≤◌, ◌≡◌, ◌↔◌, refl, Option, none, some, arith}
use goet.Prelude.{List, [], ◌∷◌, ◌++◌, map, length, take, replicate, length-replicate}
use goet.Protocol.Bytes.{put_uint, get_uint}
use goet.Protocol.Message.{
  Message, resize, shutdown, terminal_info, data_msg, IoError, eof, failed, io, ok, err, panic,
  msg_terminal_info, unsupported, unsupported_type,
}
use goet.Protocol.Encode.{header, write_rest, write_framed, write_message}
use goet.Protocol.Decode.{read_full, decode_payload, read_payload, read_body, read_message}
use goet.Protocol.Frame.{payload_of, wire}
use goet.Protocol.RoundTrip.{read_message-write_message}
use goet.Protocol.Faults.{decode_payload-panic, read_message_long_term, read_message_cut, cut_error}
use goet.Protocol.Stream.{
  msg, failure, Ends, read_stream_loop, wires, read_stream_loop-wires, read_stream_loop-Ends,
}

-- A writer that takes everything.
abbrev keep : List ℕ → List ℕ → List ℕ × Option IoError
keep w p = (w ++ p, none)

keep_appends : (w w' p : List ℕ) → keep w p ≡ (w', none) → w' ≡ w ++ p
keep_appends w w' p h = cc

abbrev resize_frame : List ℕ
resize_frame = 0 ∷ 0 ∷ 0 ∷ 4 ∷ 0x11 ∷ 0 ∷ 24 ∷ 1 ∷ 0 ∷ []

write-resize : write_message keep [] (resize 24 256) ≡ (resize_frame, none)
unfolding write_message write_framed write_rest header put_uint
write-resize = refl

write-unsupported : write_message keep [] unsupported ≡ ([], some unsupported_type)
unfolding write_message
write-unsupported = refl

read-unknown :
    (read_message (record { bytes = 0 ∷ 0 ∷ 0 ∷ 0 ∷ 0x12 ∷ 9 ∷ []; ending = eof })).0 ≡ ok shutdown
unfolding read_message read_body read_payload read_full decode_payload get_uint
read-unknown = refl

read_message-write_message_example :
    (sent : List ℕ) × (resize_frame ≡ [] ++ sent)
    × (read_message (record { bytes = sent ++ (7 ∷ []); ending = eof })
        ≡ (ok (resize 24 256), record { bytes = 7 ∷ []; ending = eof }))
read_message-write_message_example =
    read_message-write_message keep (λ w. w) keep_appends [] resize_frame (resize 24 256) (7 ∷ [])
      eof (omega arith) tt write-resize

abbrev short_term : List ℕ
short_term = 0 ∷ 1 ∷ b'x' ∷ []

decode_payload-panic_example : (decode_payload msg_terminal_info short_term ≡ panic) ↔ (
    (◌≡◌ {A = ℕ} msg_terminal_info msg_terminal_info)
    × (65534 ≤ get_uint 0 (take 2 short_term))
    × (2 + get_uint 0 (take 2 short_term) ≤ length short_term))
decode_payload-panic_example = decode_payload-panic msg_terminal_info short_term (omega arith)

read_message_long_term_example :
    read_message
      (record { bytes = wire (terminal_info (replicate 65534 b'x')) ++ []; ending = eof })
    ≡ (panic, record { bytes = []; ending = eof })
read_message_long_term_example =
    read_message_long_term (replicate 65534 b'x') [] eof
      (omega (arith, length-replicate {A = ℕ} 65534 b'x'))
      (omega (arith, length-replicate {A = ℕ} 65534 b'x'))

read_message_cut_example :
    read_message (record { bytes = take 7 (wire (resize 24 256)); ending = eof })
    ≡ (err (io (cut_error 7)), record { bytes = []; ending = eof })
unfolding payload_of wire header put_uint
read_message_cut_example = read_message_cut (resize 24 256) 7 (omega arith) (omega arith)

abbrev two_messages : List Message
two_messages = shutdown ∷ data_msg 5 (1 ∷ 2 ∷ []) ∷ []

read_stream_loop-wires_example :
    read_stream_loop 3 (record { bytes = wires two_messages; ending = eof })
    ≡ map msg two_messages ++ (failure (io eof) ∷ [])
unfolding payload_of put_uint
read_stream_loop-wires_example = read_stream_loop-wires two_messages 3 (omega arith) (omega arith)

read_stream_loop-Ends_example :
    Ends (read_stream_loop 4 (record { bytes = 1 ∷ 2 ∷ 3 ∷ []; ending = failed 1 }))
read_stream_loop-Ends_example =
    read_stream_loop-Ends 4 (record { bytes = 1 ∷ 2 ∷ 3 ∷ []; ending = failed 1 }) (omega arith)
