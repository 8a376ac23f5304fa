-- ===== src/Bootstrap.antt =====
-- internal/client/ssh.go: the destination, the arguments of ssh, and the port that the session prints.
pub mod Install
pub mod Spawn
pub mod Destination
pub mod PrintedPort
pub mod Clean
pub mod Agreed
pub mod Current
mod Tests
use goet.Prelude.{ℕ, ◌*◌, List, [], ◌∷◌, ◌++◌, Bool, true, false, ◌&&◌, not, Option, none, some}
use goet.Prelude.{ltb, leb, ◌==◌, if◌then◌else◌, length, take}
use goet.Protocol.Message.{ℤ, pos, negsuc}
use goet.Catchup.{default_buffer_size}
use goet.Text.{Bytes, codes, is_empty, trim_space}
use goet.Text.Hex
use goet.Text.Decimal.{itoa, atoi}

abbrev pub cut_before : ℕ → Bytes → Option (Bytes × Bytes) → Option (Bytes × Bytes)
cut_before c s (some (user, host)) = some (c ∷ user, host)
cut_before c s none = if c == b'@' then some ([], s) else none

-- Before and after the last `@`.
unfoldable pub cut_last : Bytes → Option (Bytes × Bytes)
cut_last [] = none
cut_last (c ∷ s) = cut_before c s (cut_last s)

abbrev pub user_and_host : Bytes → Option (Bytes × Bytes) → Bytes × Bytes
user_and_host dest (some (user, host)) = (user, host)
user_and_host dest none = ([], dest)

-- The user, empty if there is none, and the host.
unfoldable pub parse_destination : Bytes → Bytes × Bytes
parse_destination dest = user_and_host dest (cut_last dest)

abbrev pub ssh_args : Bytes → Bytes → List Bytes
ssh_args user host =
    (if is_empty user then [] else codes "-l" ∷ user ∷ [])
    ++ (codes "-o" ∷ codes "BatchMode=yes" ∷ host ∷ [])

abbrev pub session_id_of : Bytes → Bytes
session_id_of passkey = Hex.encode (take 4 passkey)

-- What the session is told of a replay size.
abbrev pub replay_args : ℤ → List Bytes
replay_args (pos n) =
    if ltb 0 n && not (n == default_buffer_size) then codes "-replay-size" ∷ itoa n ∷ [] else []
replay_args (negsuc n) = []

-- The command that ssh runs, and its arguments.
abbrev pub session_command : Bytes → Bytes → ℤ → List Bytes
session_command goet_path session_id replay_size =
    (goet_path ∷ codes "session" ∷ codes "-f" ∷ session_id ∷ codes "-p" ∷ codes "0" ∷ [])
    ++ replay_args replay_size

-- "%s\n" of the passkey
abbrev pub passkey_line : Bytes → Bytes
passkey_line passkey = Hex.encode passkey ++ (b'\n' ∷ [])

-- What stands on the stdout of ssh, and whether it ends with an error that is no end of file.
pub record Printed : Type 0 where
  pub bytes : Bytes
  pub failed : Bool

pub data Scanned : Type 0 where
  line : Bytes → Scanned
  no_line scan_failed : Scanned

abbrev pub max_token_size : ℕ
max_token_size = 64 * 1024

abbrev pub line_from : ℕ → Option Bytes → Option Bytes
line_from c (some l) = if c == b'\n' then some [] else some (c ∷ l)
line_from c none = if c == b'\n' then some [] else none

-- The bytes before the first newline, if there is one.
unfoldable pub cut_line : Bytes → Option Bytes
cut_line [] = none
cut_line (c ∷ s) = line_from c (cut_line s)

-- One return at the end is dropped.
unfoldable pub drop_return : Bytes → Bytes
drop_return [] = []
drop_return (c ∷ []) = if c == b'\r' then [] else c ∷ []
drop_return (c ∷ d ∷ s) = c ∷ drop_return (d ∷ s)

-- Without a newline, what stands there is a line, also before an error.
abbrev pub first_line : Printed → Option Bytes → Scanned
first_line p (some l) = if ltb (length l) max_token_size then line (drop_return l) else scan_failed
first_line p none =
    if leb max_token_size (length p.bytes)
    then scan_failed
    else if not (is_empty p.bytes)
    then line (drop_return p.bytes)
    else if p.failed
    then scan_failed
    else no_line

-- The first Scan of a bufio.Scanner.
unfoldable pub scan_line : Printed → Scanned
scan_line p = first_line p (cut_line p.bytes)

pub data PortError : Type 0 where
  invalid_port : Bytes → PortError
  read_failed not_installed timeout : PortError

pub data PortResult : Type 0 where
  port : ℤ → PortResult
  no_port : PortError → PortResult

abbrev pub port_of : Scanned → PortResult
port_of (line l) =
    let (n, good) = atoi (trim_space l) in
    if good then port n else no_port (invalid_port (trim_space l))
port_of no_line = no_port not_installed
port_of scan_failed = no_port read_failed

-- `none` is the time limit: no line came, and no end.
unfoldable pub read_port : Option Printed → PortResult
read_port none = no_port timeout
read_port (some p) = port_of (scan_line p)
