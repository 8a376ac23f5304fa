-- ===== src/Bootstrap/Tests.antt =====
-- The bootstrap at concrete inputs.
use goet.Prelude.{◌≡◌, ◌++◌, refl, List, [], ◌∷◌, true, false, none, some, arith}
use goet.Prelude.{if◌then◌else◌, replicate}
use goet.Protocol.Message.{pos}
use goet.Text.{Bytes, codes, is_same, fields, split_words, trim_right, trim_left}
use goet.Text.Decimal
use goet.Bootstrap.{
  parse_destination, cut_last, read_port, port, no_port, invalid_port, ssh_args, scan_line,
  cut_line, drop_return,
}
use goet.Bootstrap.Install.{parse_uname_output, parse_version_output, version_line}
use goet.Bootstrap.PrintedPort.{print_port, read_port-print_port}
use goet.Bootstrap.Spawn.{World, Start, run_ssh, version_args, with_effects, spawn_ssh, spawn}
use goet.Bootstrap.Current.{spawn_current}
use goet.Bootstrap.Clean.{IsClean, spawn-IsClean}

two_ats : parse_destination (codes "a@b@host") ≡ (codes "a@b", codes "host")
unfolding parse_destination cut_last
two_ats = refl

-- The destination does not begin with a minus, but the argument that ssh takes for its host does.
option_host :
    let (user, host) = parse_destination (codes "me@-oProxyCommand=sh") in
    ssh_args user host
    ≡ codes "-l" ∷ codes "me" ∷ codes "-o" ∷ codes "BatchMode=yes" ∷ codes "-oProxyCommand=sh" ∷ []
unfolding parse_destination cut_last
option_host = refl

uname : parse_uname_output (codes "Linux aarch64") ≡ some (codes "linux", codes "arm64")
unfolding parse_uname_output fields split_words
uname = refl

old_version : parse_version_output (codes "goet abc1234") ≡ some (codes "abc1234")
unfolding parse_version_output fields split_words
old_version = refl

no_number :
    read_port (some (record { bytes = codes "sh: goet: not found"; failed = false }))
    ≡ no_port (invalid_port (codes "sh: goet: not found"))
unfolding read_port scan_line cut_line drop_return trim_left trim_right Decimal.atoi
    Decimal.parse_signed Decimal.scan
no_number = refl

read_port-print_port_example :
    read_port (some (record { bytes = print_port 51820 ++ codes "later"; failed = false }))
    ≡ port (pos 51820)
read_port-print_port_example = read_port-print_port 51820 (codes "later") false (omega arith)

abbrev passkey : Bytes
passkey = replicate 32 7

abbrev up : Start
up = record {
  piped = true;
  started = true;
  wrote = true;
  stdout = some (record { bytes = print_port 51820; failed = false });
}

abbrev last : List Bytes → Bytes
last [] = []
last (a ∷ []) = a
last (a ∷ b ∷ args) = last (b ∷ args)

abbrev world : World
world = record {
  new_passkey = some passkey;
  session = λ args. up;
  run = λ args. some (version_line (codes "0.4.0") (codes "abc1234"));
  executable = some (codes "/usr/bin/goet");
  get = λ url. record {
    responded = true;
    status = 200;
    temp = some (codes "/tmp/goet-download-1");
    copied = false;
  };
  can_open = λ path. true;
  put = λ args path. true;
  commit = codes "abc1234";
  go_os = codes "linux";
  go_arch = codes "amd64";
}

-- A remote host without goet, of another architecture.
abbrev fresh : World
fresh = record world {
  run = λ args.
      if is_same (last args) (codes "uname -sm") then some (codes "Linux aarch64") else none;
}

spawn_current_example :
    spawn world (codes "me@host") true (pos 0)
    ≡ with_effects
        (run_ssh (version_args world (codes "me") (codes "host")) ∷ [])
        (spawn_ssh world (codes "me") (codes "host") (codes "goet") (pos 0))
unfolding parse_destination cut_last
spawn_current_example =
    spawn_current world (codes "0.4.0") (codes "me@host") (pos 0)
      (refl, (refl, (refl, (refl, (refl, (refl, tt))))))
      (refl, (refl, (refl, (refl, (refl, (refl, (refl, tt)))))))
      (refl, (refl, (refl, (refl, (refl, (refl, (refl, tt))))))) refl

spawn-IsClean_example : IsClean fresh (spawn fresh (codes "me@host") true (pos 0)).1
spawn-IsClean_example = spawn-IsClean fresh (codes "me@host") true (pos 0)
