-- ===== src/Command/Bootstrapped.antt =====
-- The client that runSSHClient of cmd/goet/main.go makes, and the session that it has asked for.
use goet.Prelude.{
  ℕ, ◌^◌, ◌<◌, ◌≡◌, refl, subst, List, [], ◌∷◌, ◌++◌, Bool, Option, none, some, length,
}
use goet.Protocol.Message.{ℤ, pos}
use goet.Catchup
use goet.Text.{Bytes}
use goet.Text.Hex.{AreBytes}
use goet.Text.Decimal.{itoa}
use goet.Bootstrap.{parse_destination, ssh_args, session_id_of, passkey_line}
use goet.Bootstrap.Spawn.{
  World, Effect, start_ssh, write_stdin, Result, SshResult, spawned, failed, spawn,
}
use goet.Bootstrap.Agreed.{Contains, Agrees, IsAgreed, spawn-Agrees}
use goet.Command.{
  GlobalFlags, ClientConfig, of_result, config_from, ssh_config, SessionConfig, session_config,
}
use goet.Command.Handover.{IsInt, session_words, told, handover}

-- auth.GeneratePasskey gives 32 bytes, or fails.
abbrev pub IsPasskey : Option Bytes → Type 0
IsPasskey none = Unit
IsPasskey (some k) = AreBytes k × (length k ≡ 32)

module _ (parse_int : Bytes → Option ℤ) (log : Bool) where
  -- A session was started over ssh with some words, a text was written to it, and with these and its log file
  -- open or not, goet makes a session that has the client's passkey and a ring of the size of the client's.
  pub record IsServed (user host : Bytes) (c : ClientConfig) (es : List Effect) : Type 0 where
    pub goet_path : Bytes
    pub words : List Bytes
    pub stdin : Bytes
    pub session : SessionConfig
    pub started : Contains (start_ssh (ssh_args user host ++ (goet_path ∷ words))) es
    pub wrote : Contains (write_stdin stdin) es
    pub config : session_config parse_int words stdin log ≡ some session
    pub same_passkey : session.passkey ≡ c.passkey
    pub same_ring : Catchup.new session.replay_size ≡ Catchup.new c.replay_size
    pub same_host : c.host ≡ host

  module _ (reads : (n : ℕ) → n < 2 ^ 63 → parse_int (itoa n) ≡ some (pos n)) where
    made_from :
        (w : World) (user host : Bytes) (g : GlobalFlags) (r : SshResult) (es : List Effect)
        → IsPasskey w.new_passkey
        → IsInt g.replay_size
        → IsAgreed w user host g.replay_size r es
        → IsServed user host (of_result g r) es
    made_from w user host g r es key small h =
        let k = r.passkey in
        let whole : IsPasskey (some k) = subst IsPasskey h.key key in
        record {
          goet_path = h.goet_path;
          words = session_words k g.replay_size;
          stdin = passkey_line k;
          session = record {
            session_id = session_id_of k;
            port = pos 0;
            passkey = k;
            log = log;
            replay_size = told g.replay_size;
          };
          started = h.told;
          wrote = h.wrote;
          config = (handover parse_int reads [] k g.replay_size log whole.0 whole.1 small).1;
          same_passkey = refl;
          same_ring = (handover parse_int reads [] k g.replay_size log whole.0 whole.1 small).2;
          same_host = h.same_host;
        }

    served :
        (w : World) (user host : Bytes) (g : GlobalFlags) (p : Result × List Effect)
        (c : ClientConfig)
        → IsPasskey w.new_passkey
        → IsInt g.replay_size
        → Agrees w user host g.replay_size p
        → config_from g p.0 ≡ some c
        → IsServed user host c p.1
    served w user host g (failed e, es) c key small h made = cc
    served w user host g (spawned r, es) c key small h made =
        let same : of_result g r ≡ c = cc in
        subst (λ d. IsServed user host d es) same (made_from w user host g r es key small h)

    -- If runSSHClient gets to its client, then it has started a session over ssh and written a line to it with which
    -- main, if it gets the words unchanged, makes a session with the same passkey and with a ring of the size of the
    -- client's; the client dials the host of the destination. It is used that GeneratePasskey gives 32
    -- bytes, and that ParseInt reads what Itoa writes.
    pub ssh_config-IsServed :
        (w : World) (destination : Bytes) (g : GlobalFlags) (c : ClientConfig)
        → IsPasskey w.new_passkey
        → IsInt g.replay_size
        → ssh_config w destination g ≡ some c
        → IsServed
            (parse_destination destination).0
            (parse_destination destination).1
            c
            (spawn w destination g.install g.replay_size).1
    unfolding ssh_config
    ssh_config-IsServed w destination g c key small made =
        served w _ _ g (spawn w destination g.install g.replay_size) c key small
          (spawn-Agrees w destination g.install g.replay_size) made
