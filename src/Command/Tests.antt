-- ===== src/Command/Tests.antt =====
-- The command line at concrete inputs.
use goet.Prelude.{
  ◌++◌, false, ℕ, ◌≡◌, ◌<◌, ◌^◌, refl, ap, [], ◌∷◌, true, Option, none, some, replicate, arith,
}
use goet.Prelude.{if◌then◌else◌}
use goet.Protocol.Message.{ℤ, pos}
use goet.Catchup
use goet.Text.{base, after_slash, trim_right, Bytes, codes}
use goet.Text.Decimal
use goet.Text.Decimal.{itoa, atoi, atoi-itoa}
use goet.Bootstrap.Spawn.{World, spawn, spawn_ssh, start_session}
use goet.Command.Bootstrapped.{IsServed, ssh_config-IsServed}
use goet.Command.{GlobalFlags, ClientConfig, ssh_config}
use goet.Text.{trim_left}
use goet.Bootstrap.{
  parse_destination, cut_last, read_port, scan_line, cut_line, drop_return, session_id_of,
  passkey_line,
}
use goet.Command.{
  main_of, session, ssh_client, usage, dispatch, dispatch_flags, parse_global_flags, read_flags,
  global_flag, reverse, find_destination, no_flags, session_config,
}
use goet.Command.Flags.{parse_flags, shape, cut_equals}
use goet.Command.Handover.{told, session_words, handover}

-- ParseInt, for the texts that are decimal.
abbrev parse_decimal : Bytes → Option ℤ
parse_decimal text = let (n, good) = atoi text in if good then some n else none

parse_decimal_lem : (n : ℕ) → n < 2 ^ 63 → parse_decimal (itoa n) ≡ some (pos n)
parse_decimal_lem n small = ap (λ (n, good). if good then some n else none) (atoi-itoa n small)

abbrev passkey : Bytes
passkey = replicate 32 7

handover_example :
    (dispatch (codes "goet") (session_words passkey (pos 65536))
      ≡ session (session_words passkey (pos 65536)))
    × (session_config parse_decimal (session_words passkey (pos 65536)) (passkey_line passkey) true
        ≡ some (record {
          session_id = session_id_of passkey;
          port = pos 0;
          passkey = passkey;
          log = true;
          replay_size = told (pos 65536);
        }))
    × (Catchup.new (told (pos 65536)) ≡ Catchup.new (pos 65536))
handover_example =
    handover parse_decimal parse_decimal_lem (codes "goet") passkey (pos 65536) true (ground arith)
      refl (omega arith)

-- The last size counts, and a flag after the host is found too.
two_sizes :
    dispatch (codes "goet") (
      codes "--replay-size"
      ∷ codes "1"
      ∷ codes "host"
      ∷ codes "--replay-size=2"
      ∷ codes "--tcp"
      ∷ [])
    ≡ ssh_client
        (codes "host")
        (record no_flags { replay_size = pos 2; tcp = true; rest = codes "host" ∷ [] })
unfolding dispatch dispatch_flags parse_global_flags read_flags global_flag reverse find_destination
    Decimal.atoi Decimal.parse_signed Decimal.scan
two_sizes = refl

-- A replay size for a session that is written with two minuses does not reach it.
lost_size :
    dispatch
      (codes "goet")
      (codes "session" ∷ codes "-f" ∷ codes "x" ∷ codes "--replay-size=65536" ∷ [])
    ≡ session (codes "session" ∷ codes "-f" ∷ codes "x" ∷ [])
unfolding dispatch dispatch_flags parse_global_flags read_flags global_flag reverse find_destination
    Decimal.atoi Decimal.parse_signed Decimal.scan
lost_size = refl

-- An empty argument before the host hides it.
empty_host : dispatch (codes "goet") ([] ∷ codes "host" ∷ []) ≡ usage
unfolding dispatch dispatch_flags parse_global_flags read_flags global_flag reverse find_destination
empty_host = refl

equals_form :
    parse_flags (λ name text. true) (codes "-p=70" ∷ codes "--" ∷ codes "-k" ∷ [])
    ≡ some (record { given = (codes "p", codes "70") ∷ []; rest = codes "-k" ∷ [] })
unfolding parse_flags shape cut_equals
equals_form = refl

as_session :
    main_of (codes "/usr/local/bin/goet-session/") (codes "-f" ∷ codes "x" ∷ [])
    ≡ session (codes "-f" ∷ codes "x" ∷ [])
unfolding main_of dispatch dispatch_flags parse_global_flags read_flags global_flag reverse base
    after_slash trim_right
as_session = refl

no_base : (base [] ≡ codes ".") × (base (codes "//") ≡ codes "/") × (base (codes "a/b") ≡ codes "b")
unfolding base after_slash trim_right
no_base = (refl, refl, refl)

-- ssh answers with a port.
abbrev world : World
world = record {
  new_passkey = some passkey;
  session = λ args. record {
    piped = true;
    started = true;
    wrote = true;
    stdout = some (record { bytes = codes "51820" ++ (b'\n' ∷ []); failed = false });
  };
  run = λ args. none;
  executable = none;
  get = λ url. record { responded = false; status = 0; temp = none; copied = false };
  can_open = λ path. true;
  put = λ args path. true;
  commit = codes "abc1234";
  go_os = codes "linux";
  go_arch = codes "amd64";
}

abbrev flags : GlobalFlags
flags = record no_flags { tcp = true; replay_size = pos 65536 }

abbrev made : ClientConfig
made = record {
  host = codes "host";
  port = pos 51820;
  passkey = passkey;
  profile = false;
  use_tcp = true;
  replay_size = pos 65536;
}

made_config : ssh_config world (codes "me@host") flags ≡ some made
unfolding ssh_config spawn spawn_ssh start_session parse_destination cut_last read_port scan_line
    cut_line drop_return trim_left trim_right Decimal.atoi Decimal.parse_signed Decimal.scan
made_config = refl

ssh_config-IsServed_example :
    IsServed parse_decimal true
      (codes "me")
      (codes "host")
      made
      (spawn world (codes "me@host") false (pos 65536)).1
unfolding parse_destination cut_last
ssh_config-IsServed_example =
    ssh_config-IsServed parse_decimal true parse_decimal_lem world (codes "me@host") flags made
      (ground arith, refl) (omega arith) made_config
