-- ===== src/Command.antt =====
-- cmd/goet/main.go: the flags, the dispatch, and what the client and the session are started with.
pub mod Flags
pub mod Handover
pub mod Bootstrapped
mod Tests
use goet.Prelude.{ℕ, List, [], ◌∷◌, Bool, true, false, ◌||◌, not, Option, none, some}
use goet.Prelude.{◌==◌, if◌then◌else◌, length, drop}
use goet.Protocol.Message.{ℤ, pos, negsuc}
use goet.Text.{Bytes, codes, is_same, is_empty, has_prefix, trim_space, base}
use goet.Text.Hex
use goet.Text.Decimal.{atoi}
use goet.Bootstrap.{cut_line}
use goet.Bootstrap.Spawn.{World, SshResult, Result, spawned, failed, spawn}
use goet.Command.Flags.{Assigned, Parsed, parse_flags, value_of, text_or}

-- `rest` is what is left of the arguments.
pub record GlobalFlags : Type 0 where
  pub version : Bool
  pub local : Bool
  pub install : Bool
  pub tcp : Bool
  pub profile : Bool
  pub replay_size : ℤ
  pub rest : List Bytes

abbrev pub no_flags : GlobalFlags
no_flags = record {
  version = false;
  local = false;
  install = false;
  tcp = false;
  profile = false;
  replay_size = pos 0;
  rest = [];
}

-- The cases of the switch; the one for --replay-size has a second condition.
pub data GlobalFlag : Type 0 where
  version local install tcp profile replay_next other : GlobalFlag
  replay_is : Bytes → GlobalFlag

unfoldable pub global_flag : Bytes → GlobalFlag
global_flag arg =
    if is_same arg (codes "--version")
    then version
    else if is_same arg (codes "--local")
    then local
    else if is_same arg (codes "--install")
    then install
    else if is_same arg (codes "--tcp")
    then tcp
    else if is_same arg (codes "--profile")
    then profile
    else if is_same arg (codes "--replay-size")
    then replay_next
    else if has_prefix arg (codes "--replay-size=")
    then replay_is (drop 14 arg)
    else other

abbrev pub with_rest : Bytes → GlobalFlags → GlobalFlags
with_rest arg g = record g { rest = arg ∷ g.rest }

-- An argument that is not followed by another. `rest` is kept last first.
abbrev pub set_flag : GlobalFlag → Bytes → GlobalFlags → GlobalFlags
set_flag version arg g = record g { version = true }
set_flag local arg g = record g { local = true }
set_flag install arg g = record g { install = true }
set_flag tcp arg g = record g { tcp = true }
set_flag profile arg g = record g { profile = true }
set_flag (replay_is text) arg g = record g { replay_size = (atoi text).0 }
set_flag replay_next arg g = with_rest arg g
set_flag other arg g = with_rest arg g

abbrev pub is_replay_next : GlobalFlag → Bool
is_replay_next replay_next = true
is_replay_next _ = false

-- The loop over the arguments after the program's name.
unfoldable pub read_flags : List Bytes → GlobalFlags → GlobalFlags
read_flags [] g = g
read_flags (arg ∷ []) g = set_flag (global_flag arg) arg g
read_flags (arg ∷ next ∷ args) g =
    let skip = read_flags args (record g { replay_size = (atoi next).0 }) in
    let go_on = read_flags (next ∷ args) (set_flag (global_flag arg) arg g) in
    if is_replay_next (global_flag arg) then skip else go_on

unfoldable pub reverse : List Bytes → List Bytes → List Bytes
reverse [] done = done
reverse (a ∷ args) done = reverse args (a ∷ done)

unfoldable pub parse_global_flags : List Bytes → GlobalFlags
parse_global_flags args = let g = read_flags args no_flags in record g { rest = reverse g.rest [] }

-- The first argument that does not start with -, or the empty text.
unfoldable pub find_destination : List Bytes → Bytes
find_destination [] = []
find_destination (arg ∷ args) =
    let rest = find_destination args in if not (has_prefix arg (codes "-")) then arg else rest

pub data Dispatch : Type 0 where
  show_version usage : Dispatch
  session : List Bytes → Dispatch
  client : GlobalFlags → Dispatch
  ssh_client : Bytes → GlobalFlags → Dispatch

abbrev pub starts_with : Bytes → List Bytes → Bool
starts_with word [] = false
starts_with word (arg ∷ args) = is_same arg word

-- main, after parseGlobalFlags.
unfoldable pub dispatch_flags : Bytes → GlobalFlags → Dispatch
dispatch_flags base g =
    let dest = find_destination g.rest in
    if g.version || starts_with (codes "version") g.rest
    then show_version
    else if is_same base (codes "goet-session") || starts_with (codes "session") g.rest
    then session g.rest
    else if g.local
    then client g
    else if not (is_empty dest)
    then ssh_client dest g
    else usage

-- main, with the base of the program's path and the arguments after it.
unfoldable pub dispatch : Bytes → List Bytes → Dispatch
dispatch base args = dispatch_flags base (parse_global_flags args)

-- main, with os.Args
unfoldable pub main_of : Bytes → List Bytes → Dispatch
main_of path args = dispatch (base path) args

-- client.Config
pub record ClientConfig : Type 0 where
  pub host : Bytes
  pub port : ℤ
  pub passkey : Bytes
  pub profile : Bool
  pub use_tcp : Bool
  pub replay_size : ℤ

abbrev pub is_zero : ℤ → Bool
is_zero (pos n) = n == 0
is_zero (negsuc n) = false

abbrev pub of_result : GlobalFlags → SshResult → ClientConfig
of_result g r = record {
  host = r.host;
  port = r.port;
  passkey = r.passkey;
  profile = g.profile;
  use_tcp = g.tcp;
  replay_size = g.replay_size;
}

-- What runSSHClient makes of the outcome of SpawnSSH.
abbrev pub config_from : GlobalFlags → Result → Option ClientConfig
config_from g (failed e) = none
config_from g (spawned r) = some (of_result g r)

-- runSSHClient, up to the call of runClientWithConfig; `none` is an exit of the program.
unfoldable pub ssh_config : World → Bytes → GlobalFlags → Option ClientConfig
ssh_config w destination g = config_from g (spawn w destination g.install g.replay_size).0

-- A passkey is 32 bytes in hex.
abbrev pub passkey_of : Option Bytes → Option Bytes
passkey_of none = none
passkey_of (some k) = if length k == 32 then some k else none

abbrev pub first_or : Bytes → List Bytes → Bytes
first_or default [] = default
first_or default (arg ∷ args) = arg

-- session.Config. `log` says whether the log file is open.
pub record SessionConfig : Type 0 where
  pub session_id : Bytes
  pub port : ℤ
  pub passkey : Bytes
  pub log : Bool
  pub replay_size : ℤ

abbrev pub is_some : Option ℤ → Bool
is_some none = false
is_some (some n) = true

-- The passkey in the line of the stdin.
abbrev pub passkey_in : Option Bytes → Option Bytes
passkey_in none = none
passkey_in (some l) = passkey_of (Hex.decode (trim_space l))

abbrev pub without_session : List Bytes → List Bytes
without_session [] = []
without_session (arg ∷ args) = if is_same arg (codes "session") then args else arg ∷ args

abbrev pub int_or_zero : Option ℤ → ℤ
int_or_zero (some n) = n
int_or_zero none = pos 0

-- `parse_int` is strconv.ParseInt with base 0; `none` is an exit of the program.
module _ (parse_int : Bytes → Option ℤ) where
  abbrev pub int_text : Option Bytes → ℤ
  int_text none = pos 0
  int_text (some text) = int_or_zero (parse_int text)

  abbrev pub int_of : Assigned → Bytes → ℤ
  int_of given name = int_text (value_of given name)

  abbrev pub is_int : Bytes → Bool
  is_int text = is_some (parse_int text)

  abbrev pub client_flag : Bytes → Bytes → Bool
  client_flag name text = if is_same name (codes "p") then is_int text else is_same name (codes "k")

  abbrev pub config_with : GlobalFlags → Assigned → List Bytes → Option Bytes → Option ClientConfig
  config_with g given args none = none
  config_with g given args (some passkey) = some (record {
    host = first_or (codes "127.0.0.1") args;
    port = int_of given (codes "p");
    passkey = passkey;
    profile = g.profile;
    use_tcp = g.tcp;
    replay_size = g.replay_size;
  })

  abbrev pub check_client : GlobalFlags → Option Parsed → Option ClientConfig
  check_client g none = none
  check_client g (some parsed) =
      let text = text_or [] (value_of parsed.given (codes "k")) in
      if is_zero (int_of parsed.given (codes "p")) || is_empty text
      then none
      else config_with g parsed.given parsed.rest (passkey_of (Hex.decode text))

  -- runClient, up to the call of runClientWithConfig
  unfoldable pub client_config : GlobalFlags → Option ClientConfig
  client_config g = check_client g (parse_flags client_flag g.rest)

  abbrev pub session_flag : Bytes → Bytes → Bool
  session_flag name text =
      if is_same name (codes "p") || is_same name (codes "replay-size")
      then is_int text
      else is_same name (codes "f")

  abbrev pub session_with : Assigned → Bool → Option Bytes → Option SessionConfig
  session_with given log none = none
  session_with given log (some passkey) = some (record {
    session_id = text_or [] (value_of given (codes "f"));
    port = int_of given (codes "p");
    passkey = passkey;
    log = log;
    replay_size = int_of given (codes "replay-size");
  })

  abbrev pub check_session : Bytes → Bool → Option Parsed → Option SessionConfig
  check_session stdin log none = none
  check_session stdin log (some parsed) =
      if is_empty (text_or [] (value_of parsed.given (codes "f")))
      then none
      else session_with parsed.given log (passkey_in (cut_line stdin))

  -- runSession, up to the call of session.New
  unfoldable pub session_config : List Bytes → Bytes → Bool → Option SessionConfig
  session_config args stdin log =
      check_session stdin log (parse_flags session_flag (without_session args))
