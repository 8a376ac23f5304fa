-- ===== src/Protocol/Message.antt =====
-- The message types and constants of internal/protocol/constants.go and messages.go.
use goet.Prelude.{ℕ, ◌-◌, ◌*◌, ◌%◌, ◌^◌, ◌<◌, ◌≡◌, List, ltb}
use goet.Prelude.{if◌then◌else◌, length, All, arith}
use goet.Protocol.Bytes.{IsByte}

abbrev pub header_size : ℕ
header_size = 5

abbrev pub max_payload_size : ℕ
max_payload_size = 4 * 1024 * 1024

-- MessageType
abbrev pub msg_auth_request : ℕ
msg_auth_request = 0x01

abbrev pub msg_auth_response : ℕ
msg_auth_response = 0x02

abbrev pub msg_sequence_hdr : ℕ
msg_sequence_hdr = 0x03

abbrev pub msg_heartbeat : ℕ
msg_heartbeat = 0x10

abbrev pub msg_resize : ℕ
msg_resize = 0x11

abbrev pub msg_shutdown : ℕ
msg_shutdown = 0x12

abbrev pub msg_terminal_info : ℕ
msg_terminal_info = 0x13

abbrev pub msg_data : ℕ
msg_data = 0x20

-- AuthStatus
abbrev pub auth_ok : ℕ
auth_ok = 0

abbrev pub auth_failed : ℕ
auth_failed = 1

-- Go's int64 before its range: `negsuc n` is -(n + 1).
pub data ℤ : Type 0 where
  pos : ℕ → ℤ
  negsuc : ℕ → ℤ

-- uint64(x) and int64(x)
unfoldable pub to_uint64 : ℤ → ℕ
to_uint64 (pos n) = n % 2 ^ 64
to_uint64 (negsuc n) = 2 ^ 64 - 1 - n % 2 ^ 64

unfoldable pub to_int64 : ℕ → ℤ
to_int64 v = if ltb v (2 ^ 63) then pos v else negsuc (2 ^ 64 - 1 - v)

abbrev pub IsInt64 : ℤ → Type 0
IsInt64 (pos n) = n < 2 ^ 63
IsInt64 (negsuc n) = n < 2 ^ 63

-- A value of the Go type `any` that holds a message: a constructor for each struct, with its
-- fields. `unsupported` stands for a value of any other type.
pub data Message : Type 0 where
  auth_request : List ℕ → Message
  auth_response : ℕ → Message
  sequence_header : ℕ → Message
  heartbeat : ℤ → Message
  resize : ℕ → ℕ → Message
  shutdown : Message
  terminal_info : List ℕ → Message
  data_msg : ℕ → List ℕ → Message
  unsupported : Message

-- The values that the fields' Go types have.
abbrev pub InRange : Message → Type 0
InRange (auth_request token) = (length token ≡ 32) × All IsByte token
InRange (auth_response status) = IsByte status
InRange (sequence_header last) = last < 2 ^ 64
InRange (heartbeat ms) = IsInt64 ms
InRange (resize rows cols) = (rows < 2 ^ 16) × (cols < 2 ^ 16)
InRange shutdown = Unit
InRange (terminal_info term) = All IsByte term
InRange (data_msg seq payload) = (seq < 2 ^ 64) × All IsByte payload
InRange unsupported = Unit

-- An error of a reader or a writer.
pub data IoError : Type 0 where
  eof unexpected_eof : IoError
  failed : ℕ → IoError

pub data Error : Type 0 where
  payload_too_large short_payload unsupported_type : Error
  unknown_message : ℕ → Error
  term_too_long : ℕ → Error
  io : IoError → Error

-- `panic` is a Go run-time panic.
pub data Result {ℓ} (A : Type ℓ) : Type ℓ where
  ok : A → Result A
  err : Error → Result A
  panic : Result A

pub to_int64-to_uint64 : (z : ℤ) → IsInt64 z → to_int64 (to_uint64 z) ≡ z
unfolding to_int64 to_uint64
to_int64-to_uint64 (pos n) h = ground arith
to_int64-to_uint64 (negsuc n) h = ground arith

pub to_uint64-lt : (z : ℤ) → to_uint64 z < 2 ^ 64
unfolding to_uint64
to_uint64-lt (pos n) = omega arith
to_uint64-lt (negsuc n) = omega arith
