-- ===== src/Protocol/Faults.antt =====
-- The branches of ReadMessage and DecodePayload that return no message
-- (internal/protocol/messages.go).
use goet.Prelude.{ℕ, zero, suc, ◌+◌, ◌-◌, ◌%◌, ◌^◌, ◌≤◌, ◌<◌, ◌≡◌, refl, ap, ◌∙◌, ◌↔◌}
use goet.Prelude.{List, [], ◌++◌, append_assoc, arith, ltb, length, length-append}
use goet.Prelude.{
  if◌then◌else◌, Bool-cases, inl, inr, ltb→le, ltb→lt, le→ltb, lt→ltb, take, length-take,
}
use goet.Prelude.{take-append_ge, ◌==◌, ◌||◌, All, All-take}
use goet.Protocol.Bytes.{
  IsByte, get_uint-lt, put_uint, get_uint, length-put_uint, get_uint-put_uint,
}
use goet.Protocol.Message.{
  Message, terminal_info, max_payload_size, msg_terminal_info, IoError, eof, unexpected_eof, io,
  err, panic,
}
use goet.Protocol.Encode.{header}
use goet.Protocol.Decode.{
  read_full, short_read, decode_terminal_info, decode_payload, read_payload, read_body,
  read_message,
}
use goet.Protocol.Frame.{
  type_of, payload_of, wire, read_message-frame, take-put_uint, length-header, header-len,
  read_full-append,
}

pow_two : (n : ℕ) → n ≤ 2 → 256 ^ n ≤ 65536
pow_two zero h = omega arith
pow_two (suc zero) h = omega arith
pow_two (suc (suc zero)) h = omega arith
pow_two (suc (suc (suc n))) h = absurd (omega arith)

module _ (payload : List ℕ) where
  abbrev announced : ℕ
  announced = get_uint 0 (take 2 payload)

  announced-lt : All IsByte payload → announced < 65536
  announced-lt h =
      let small = get_uint-lt (take 2 payload) (All-take IsByte 2 payload h) in
      let two : length (take 2 payload) ≤ 2 = omega (arith, length-take 2 payload) in
      omega (arith, small, pow_two (length (take 2 payload)) two)

  decode_terminal_info_panics :
      65534 ≤ announced
      → announced < 65536
      → 2 + announced ≤ length payload
      → decode_terminal_info payload ≡ panic
  unfolding decode_terminal_info
  decode_terminal_info_panics a b c = ground arith

  decode_payload_panics :
      65534 ≤ announced
      → announced < 65536
      → 2 + announced ≤ length payload
      → decode_payload msg_terminal_info payload ≡ panic
  unfolding decode_payload
  decode_payload_panics = decode_terminal_info_panics

  decode_terminal_info-panic :
      announced < 65536
      → decode_terminal_info payload ≡ panic
      → (65534 ≤ announced) × (2 + announced ≤ length payload)
  unfolding decode_terminal_info
  decode_terminal_info-panic small h = ground arith

-- For a payload of bytes, DecodePayload panics exactly on a TerminalInfo whose payload holds a term
-- of the length that it announces, if that length is 65534 or 65535: `2 + termLen` wraps.
pub decode_payload-panic :
    (type : ℕ) (payload : List ℕ)
    → All IsByte payload
    → (decode_payload type payload ≡ panic) ↔ (
        (type ≡ msg_terminal_info)
        × (65534 ≤ get_uint 0 (take 2 payload))
        × (2 + get_uint 0 (take 2 payload) ≤ length payload))
unfolding decode_payload
decode_payload-panic type payload h = (
  λ p. ground (arith, announced-lt payload h, decode_terminal_info-panic payload),
  λ (t, a, c). rw t (decode_terminal_info_panics payload a (announced-lt payload h) c),
)

-- A TerminalInfo that WriteMessage accepts, with a term of 65534 or 65535 bytes, makes the
-- ReadMessage that receives it panic.
pub read_message_long_term :
    (term rest : List ℕ) (e : IoError)
    → 65533 < length term
    → length term ≤ 65535
    → read_message (record { bytes = wire (terminal_info term) ++ rest; ending = e })
      ≡ (panic, record { bytes = rest; ending = e })
unfolding wire type_of payload_of
read_message_long_term term rest e h k =
    let payload : List ℕ = put_uint 2 (length term % 2 ^ 16) ++ term in
    let len : length payload ≡ 2 + length term = omega (
      arith,
      length-append (put_uint 2 (length term % 2 ^ 16)) term,
      length-put_uint 2 (length term % 2 ^ 16),
    ) in
    let said : get_uint 0 (take 2 payload) ≡ length term =
      ap (get_uint 0) (take-put_uint 2 (length term % 2 ^ 16) term)
      ∙ get_uint-put_uint 2 (length term % 2 ^ 16) (omega arith)
      ∙ omega arith in
    rw (append_assoc (header (length payload) msg_terminal_info) payload rest) (
      read_message-frame msg_terminal_info payload rest e (omega arith)
      ∙ ap (λ r. (r, record { bytes = rest; ending = e }))
          (decode_payload_panics payload (omega arith) (omega arith) (omega arith)))

abbrev pub cut_error : ℕ → IoError
cut_error k = if k == 0 || k == 5 then eof else unexpected_eof

read_full_short :
    (n : ℕ) (xs : List ℕ) (e : IoError)
    → length xs < n
    → read_full n (record { bytes = xs; ending = e })
      ≡ (err (io (short_read (length xs) e)), record { bytes = []; ending = e })
unfolding read_full
read_full_short n xs e h = rw (lt→ltb (length xs) n h)

short_cut : (k : ℕ) → k < 5 → short_read k eof ≡ cut_error k
unfolding short_read
short_cut zero h = refl
short_cut (suc k) h = ground arith

short_cut_late : (j : ℕ) → short_read j eof ≡ cut_error (5 + j)
unfolding short_read
short_cut_late zero = refl
short_cut_late (suc j) = ground arith

read_message_cut_early :
    (xs : List ℕ)
    → length xs < 5
    → read_message (record { bytes = xs; ending = eof })
      ≡ (err (io (cut_error (length xs))), record { bytes = []; ending = eof })
unfolding read_message read_body
read_message_cut_early xs h = rw (read_full_short 5 xs eof h, short_cut (length xs) h)

read_message_cut_late :
    (len type : ℕ) (xs : List ℕ)
    → len ≤ max_payload_size
    → length xs < len
    → read_message (record { bytes = header len type ++ xs; ending = eof })
      ≡ (err (io (cut_error (5 + length xs))), record { bytes = []; ending = eof })
unfolding read_message read_body read_payload
read_message_cut_late len type xs h lt =
    let small : len < 2 ^ 32 = omega arith in
    rw (
      read_full-append 5 (header len type) xs eof (length-header len type small),
      header-len len type small,
      le→ltb max_payload_size len h,
      lt→ltb 0 len (omega arith),
      read_full_short len xs eof lt,
      short_cut_late (length xs),
    )

-- A stream that ends inside a frame gives no message: an end of file if it ends before or straight
-- after the header, and an unexpected one elsewhere.
pub read_message_cut :
    (m : Message) (k : ℕ)
    → length (payload_of m) ≤ max_payload_size
    → k < length (wire m)
    → read_message (record { bytes = take k (wire m); ending = eof })
      ≡ (err (io (cut_error k)), record { bytes = []; ending = eof })
unfolding wire
read_message_cut m k h lt =
    let n : ℕ = length (payload_of m) in
    let five : length (header n (type_of m)) ≡ 5 = length-header n (type_of m) (omega arith) in
    let whole : length (wire m) ≡ 5 + n =
      omega (arith, length-append (header n (type_of m)) (payload_of m)) in
    elim (Bool-cases (ltb k 5)) [
      | inl early ↦
          let len : length (take k (wire m)) ≡ k =
            omega (arith, ltb→lt k 5 early, length-take k (wire m)) in
          read_message_cut_early (take k (wire m)) (omega (arith, ltb→lt k 5 early))
          ∙ ap (λ j. (err (io (cut_error j)), record { bytes = []; ending = eof })) len
      | inr late ↦
          let left : length (take (k - 5) (payload_of m)) ≡ k - 5 =
            omega (arith, ltb→le k 5 late, length-take (k - 5) (payload_of m)) in
          let all : 5 + length (take (k - 5) (payload_of m)) ≡ k = omega (arith, ltb→le k 5 late) in
          rw
            (
              take-append_ge k (header n (type_of m)) (payload_of m)
                  (omega (arith, ltb→le k 5 late)),
              five,
            )
            (read_message_cut_late n (type_of m) (take (k - 5) (payload_of m)) h
                (omega (arith, ltb→le k 5 late))
              ∙ ap (λ j. (err (io (cut_error j)), record { bytes = []; ending = eof })) all)
    ]
