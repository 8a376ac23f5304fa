-- ===== src/Bootstrap/Spawn.antt =====
-- internal/client/ssh.go and install.go: what SpawnSSH does on the remote host. What the host, the network and
-- the local files answer is a parameter.
use goet.Prelude.{ℕ, List, [], ◌∷◌, ◌++◌, Bool, true, false, ◌&&◌, ◌||◌, not, Option, none, some}
use goet.Prelude.{◌==◌, if◌then◌else◌}
use goet.Protocol.Message.{ℤ}
use goet.Text.{Bytes, codes, is_same, trim_space}
use goet.Bootstrap.{
  parse_destination, ssh_args, session_id_of, session_command, passkey_line, Printed, PortError,
  not_installed, PortResult, port, no_port, read_port,
}
use goet.Bootstrap.Install.{parse_uname_output, parse_version_output}

-- The calls that have an effect.
pub data Effect : Type 0 where
  start_ssh : List Bytes → Effect
  write_stdin : Bytes → Effect
  close_stdin kill_and_reap : Effect
  run_ssh : List Bytes → Effect
  transfer : List Bytes → Bytes → Effect
  download : Bytes → Effect
  create : Bytes → Effect
  remove : Bytes → Effect

pub record SshResult : Type 0 where
  pub host : Bytes
  pub port : ℤ
  pub passkey : Bytes
  pub session_id : Bytes

pub data InstallError : Type 0 where
  arch_failed no_executable download_failed open_failed transfer_failed : InstallError

pub data Error : Type 0 where
  passkey_failed pipe_failed start_failed write_failed : Error
  port_error : PortError → Error
  goet_missing : Bytes → Error
  install_failed : InstallError → Error
  after_install : Error → Error

pub data Result : Type 0 where
  spawned : SshResult → Result
  failed : Error → Result

-- How an ssh process for a session fares: whether its pipes are made, whether it starts, whether the line is
-- written to it, and what it prints in time.
pub record Start : Type 0 where
  pub piped : Bool
  pub started : Bool
  pub wrote : Bool
  pub stdout : Option Printed

-- How a download fares: whether there is a response, its status, the temporary file, if one is made, and
-- whether the body is copied to it.
pub record Download : Type 0 where
  pub responded : Bool
  pub status : ℕ
  pub temp : Option Bytes
  pub copied : Bool

-- What the code asks of its surroundings: auth.GeneratePasskey, a session over ssh, a command over ssh (with its
-- output if it succeeds), os.Executable, an HTTP download, os.Open and
-- a transfer over ssh; then version.Commit, runtime.GOOS and runtime.GOARCH.
pub record World : Type 0 where
  pub new_passkey : Option Bytes
  pub session : List Bytes → Start
  pub run : List Bytes → Option Bytes
  pub executable : Option Bytes
  pub get : Bytes → Download
  pub can_open : Bytes → Bool
  pub put : List Bytes → Bytes → Bool
  pub commit : Bytes
  pub go_os : Bytes
  pub go_arch : Bytes

abbrev pub remote_goet_path : Bytes
remote_goet_path = codes "~/.local/bin/goet"

abbrev pub release_url : Bytes → Bytes → Bytes
release_url os arch =
    codes "https://github.com/chronologos/goet/releases/latest/download/goet-"
    ++ (os ++ (codes "-" ++ arch))

-- The install command of transferBinary
abbrev pub install_command : Bytes
install_command =
    codes "mkdir -p ~/.local/bin && cat > ~/.local/bin/goet && chmod +x ~/.local/bin/goet"

abbrev pub to_result : Bytes → Bytes → PortResult → Result
to_result host passkey (port n) =
    spawned
      (record { host = host; port = n; passkey = passkey; session_id = session_id_of passkey })
to_result host passkey (no_port e) = failed (port_error e)

-- From the pipes to the end of spawnSSH.
unfoldable pub start_session : Bytes → Bytes → List Bytes → Start → Result × List Effect
start_session host passkey args st =
    let written = start_ssh args ∷ write_stdin (passkey_line passkey) ∷ [] in
    if not st.piped
    then (failed pipe_failed, [])
    else if not st.started
    then (failed start_failed, start_ssh args ∷ [])
    else if not st.wrote
    then (failed write_failed, written ++ (kill_and_reap ∷ []))
    else (
      to_result host passkey (read_port st.stdout),
      written ++ (close_stdin ∷ kill_and_reap ∷ []),
    )

abbrev pub with_effects : List Effect → Result × List Effect → Result × List Effect
with_effects before (r, es) = (r, before ++ es)

abbrev pub is_not_installed : Error → Bool
is_not_installed (port_error not_installed) = true
is_not_installed (after_install e) = is_not_installed e
is_not_installed _ = false

abbrev pub suggest_install : Bytes → Result × List Effect → Result × List Effect
suggest_install host (failed e, es) =
    if is_not_installed e then (failed (goet_missing host), es) else (failed e, es)
suggest_install host (spawned r, es) = (spawned r, es)

abbrev pub after_install_of : Result × List Effect → Result × List Effect
after_install_of (failed e, es) = (failed (after_install e), es)
after_install_of (spawned r, es) = (spawned r, es)

abbrev pub trimmed : Option Bytes → Option Bytes
trimmed (some out) = some (trim_space out)
trimmed none = none

module _ (w : World) where
  abbrev pub session_args : Bytes → Bytes → Bytes → ℤ → Bytes → List Bytes
  session_args user host goet_path replay_size passkey =
      ssh_args user host ++ session_command goet_path (session_id_of passkey) replay_size

  abbrev pub spawn_with : Bytes → Bytes → Bytes → ℤ → Option Bytes → Result × List Effect
  spawn_with user host goet_path replay_size none = (failed passkey_failed, [])
  spawn_with user host goet_path replay_size (some k) =
      let args = session_args user host goet_path replay_size k in
      start_session host k args (w.session args)

  unfoldable pub spawn_ssh : Bytes → Bytes → Bytes → ℤ → Result × List Effect
  spawn_ssh user host goet_path replay_size =
      spawn_with user host goet_path replay_size w.new_passkey

  -- sshRun: the output, without white space at its ends.
  abbrev pub ssh_run : List Bytes → Option Bytes
  ssh_run args = trimmed (w.run args)

  abbrev pub command_args : Bytes → Bytes → Bytes → List Bytes
  command_args user host command = ssh_args user host ++ (command ∷ [])

  abbrev pub version_or_none : Option Bytes → Option Bytes
  version_or_none (some out) = parse_version_output out
  version_or_none none = none

  -- The second try is at the path of the install.
  abbrev pub second_try : List Bytes → List Bytes → Option Bytes → Option Bytes × List Effect
  second_try first second (some out) = (parse_version_output out, run_ssh first ∷ [])
  second_try first second none =
      (version_or_none (ssh_run second), run_ssh first ∷ run_ssh second ∷ [])

  abbrev pub version_args : Bytes → Bytes → List Bytes
  version_args user host = command_args user host (codes "goet --version")

  unfoldable pub get_remote_version : Bytes → Bytes → Option Bytes × List Effect
  get_remote_version user host =
      let first = version_args user host in
      second_try first (command_args user host (remote_goet_path ++ codes " --version"))
        (ssh_run first)

  unfoldable pub transfer_binary : Bytes → Bytes → Bytes → Option InstallError × List Effect
  transfer_binary user host path =
      let args = command_args user host install_command in
      if not (w.can_open path)
      then (some open_failed, [])
      else (if w.put args path then none else some transfer_failed, transfer args path ∷ [])

  abbrev pub keep_copy : Bytes → Bool → Bytes → Option Bytes × List Effect
  keep_copy url true path = (some path, download url ∷ create path ∷ [])
  keep_copy url false path = (none, download url ∷ create path ∷ remove path ∷ [])

  abbrev pub keep_body : Bytes → Bool → Option Bytes → Option Bytes × List Effect
  keep_body url copied none = (none, download url ∷ [])
  keep_body url copied (some path) = keep_copy url copied path

  -- The path of the temporary file.
  unfoldable pub download_release : Bytes → Option Bytes × List Effect
  download_release url =
      let d = w.get url in
      if not d.responded || not (d.status == 200)
      then (none, download url ∷ [])
      else keep_body url d.copied d.temp

  unfoldable pub transfer_release :
      Bytes → Bytes → Option Bytes × List Effect → Option InstallError × List Effect
  transfer_release user host (none, es) = (some download_failed, es)
  transfer_release user host (some path, es) =
      let (e, es') = transfer_binary user host path in (e, es ++ (es' ++ (remove path ∷ [])))

  abbrev pub transfer_own : Bytes → Bytes → Option Bytes → Option InstallError × List Effect
  transfer_own user host none = (some no_executable, [])
  transfer_own user host (some path) = transfer_binary user host path

  abbrev pub install_for :
      Bytes → Bytes → Option (Bytes × Bytes) → Option InstallError × List Effect
  install_for user host none = (some arch_failed, [])
  install_for user host (some (os, arch)) =
      if is_same os w.go_os && is_same arch w.go_arch
      then transfer_own user host w.executable
      else transfer_release user host (download_release (release_url os arch))

  -- detectRemoteArch
  abbrev pub arch_of : Option Bytes → Option (Bytes × Bytes)
  arch_of none = none
  arch_of (some out) = parse_uname_output out

  unfoldable pub install_remote : Bytes → Bytes → Option InstallError × List Effect
  install_remote user host =
      let args = command_args user host (codes "uname -sm") in
      let (e, es) = install_for user host (arch_of (ssh_run args)) in (e, run_ssh args ∷ es)

  abbrev pub is_current : Option Bytes → Bool
  is_current none = false
  is_current (some remote) = is_same remote w.commit

  abbrev pub spawn_installed :
      Bytes → Bytes → ℤ → Option InstallError × List Effect → Result × List Effect
  spawn_installed user host replay_size (some e, es) = (failed (install_failed e), es)
  spawn_installed user host replay_size (none, es) =
      with_effects es (after_install_of (spawn_ssh user host remote_goet_path replay_size))

  -- From the version on.
  unfoldable pub install_and_spawn : Bytes → Bytes → ℤ → Result × List Effect
  install_and_spawn user host replay_size =
      spawn_installed user host replay_size (install_remote user host)

  unfoldable pub spawn_with_install : Bytes → Bytes → ℤ → Result × List Effect
  spawn_with_install user host replay_size =
      let (remote, es) = get_remote_version user host in
      with_effects es (
        if is_current remote
        then spawn_ssh user host (codes "goet") replay_size
        else install_and_spawn user host replay_size)

  -- SpawnSSH
  unfoldable pub spawn : Bytes → Bool → ℤ → Result × List Effect
  spawn destination install replay_size =
      let (user, host) = parse_destination destination in
      if install
      then spawn_with_install user host replay_size
      else suggest_install host (spawn_ssh user host (codes "goet") replay_size)
