-- ===== src/Bootstrap/Agreed.antt =====
-- What a SpawnSSH of internal/client/ssh.go that succeeds has told the remote host.
use goet.Prelude.{
  ◌≡◌, ◌⊎◌, inl, inr, refl, List, [], ◌∷◌, ◌++◌, Bool, true, false, Option, none, some, Bool-cases,
}
use goet.Prelude.{if◌then◌else◌}
use goet.Protocol.Message.{ℤ}
use goet.Text.{Bytes, codes}
use goet.Bootstrap.{
  parse_destination, ssh_args, session_id_of, session_command, passkey_line, read_port, PortResult,
  port, no_port,
}
use goet.Bootstrap.Spawn.{
  Effect, start_ssh, write_stdin, close_stdin, kill_and_reap, SshResult, Result, spawned, failed,
  Start, World, InstallError, start_session, to_result, with_effects, is_not_installed,
  suggest_install, after_install_of, session_args, spawn_with, spawn_ssh, get_remote_version,
  install_remote, is_current, spawn_installed, install_and_spawn, spawn_with_install, spawn,
  remote_goet_path,
}

abbrev pub Contains : Effect → List Effect → Type 0
Contains e [] = ⊥
Contains e (x ∷ es) = (e ≡ x) ⊎ Contains e es

Contains-append : (e : Effect) (xs ys : List Effect) → Contains e ys → Contains e (xs ++ ys)
Contains-append e [] ys h = h
Contains-append e (x ∷ xs) ys h = inr (Contains-append e xs ys h)

module _ (w : World) (user host : Bytes) (z : ℤ) where
  -- The result is for this host and a new passkey; a process was started with a session of that passkey, and the
  -- passkey was written to it.
  pub record IsAgreed (r : SshResult) (es : List Effect) : Type 0 where
    pub key : w.new_passkey ≡ some r.passkey
    pub same_host : r.host ≡ host
    pub goet_path : Bytes
    pub told :
        Contains
          (start_ssh (ssh_args user host ++ session_command goet_path (session_id_of r.passkey) z))
          es
    pub wrote : Contains (write_stdin (passkey_line r.passkey)) es

  abbrev pub Agrees : Result × List Effect → Type 0
  Agrees (spawned r, es) = IsAgreed r es
  Agrees (failed e, es) = Unit

  to_result-Agrees :
      (k path : Bytes) (p : PortResult)
      → w.new_passkey ≡ some k
      → Agrees (
        to_result host k p,
        start_ssh (session_args w user host path z k)
            ∷ write_stdin (passkey_line k)
            ∷ close_stdin
            ∷ kill_and_reap
            ∷ [],
      )
  to_result-Agrees k path (port n) new = record {
    key = new;
    same_host = refl;
    goet_path = path;
    told = inl refl;
    wrote = inr (inl refl);
  }
  to_result-Agrees k path (no_port e) new = tt

  start_session-Agrees :
      (k path : Bytes) (st : Start)
      → w.new_passkey ≡ some k
      → Agrees (start_session host k (session_args w user host path z k) st)
  unfolding start_session
  start_session-Agrees k path st new = elim (Bool-cases st.piped) [
    | inr no_pipe ↦ rw no_pipe tt
    | inl piped ↦ elim (Bool-cases st.started) [
      | inr off ↦ rw (piped, off) tt
      | inl on ↦ elim (Bool-cases st.wrote) [
        | inr no_line ↦ rw (piped, on, no_line) tt
        | inl wrote ↦ rw (piped, on, wrote) (to_result-Agrees k path (read_port st.stdout) new)
      ]
    ]
  ]

  spawn_with-Agrees :
      (path : Bytes) (o : Option Bytes)
      → w.new_passkey ≡ o
      → Agrees (spawn_with w user host path z o)
  spawn_with-Agrees path none new = tt
  spawn_with-Agrees path (some k) new =
      start_session-Agrees k path (w.session (session_args w user host path z k)) new

  spawn_ssh-Agrees : (path : Bytes) → Agrees (spawn_ssh w user host path z)
  unfolding spawn_ssh
  spawn_ssh-Agrees path = spawn_with-Agrees path w.new_passkey refl

  with_effects-Agrees :
      (before : List Effect) (p : Result × List Effect) → Agrees p → Agrees (with_effects before p)
  with_effects-Agrees before (failed e, es) h = tt
  with_effects-Agrees before (spawned r, es) h = record {
    key = h.key;
    same_host = h.same_host;
    goet_path = h.goet_path;
    told = Contains-append _ before es h.told;
    wrote = Contains-append _ before es h.wrote;
  }

  after_install-Agrees : (p : Result × List Effect) → Agrees p → Agrees (after_install_of p)
  after_install-Agrees (failed e, es) h = tt
  after_install-Agrees (spawned r, es) h = h

  if-Agrees :
      (b : Bool) (p q : Result × List Effect) → Agrees p → Agrees q → Agrees (if b then p else q)
  if-Agrees true p q h k = h
  if-Agrees false p q h k = k

  suggest-Agrees : (p : Result × List Effect) → Agrees p → Agrees (suggest_install host p)
  suggest-Agrees (failed e, es) h = if-Agrees (is_not_installed e) _ (failed e, es) tt tt
  suggest-Agrees (spawned r, es) h = h

  spawn_installed-Agrees :
      (e : Option InstallError) (es : List Effect) → Agrees (spawn_installed w user host z (e, es))
  spawn_installed-Agrees (some e) es = tt
  spawn_installed-Agrees none es =
      let p = spawn_ssh w user host remote_goet_path z in
      with_effects-Agrees es (after_install_of p)
        (after_install-Agrees p (spawn_ssh-Agrees remote_goet_path))

  install_and_spawn-Agrees : Agrees (install_and_spawn w user host z)
  unfolding install_and_spawn
  install_and_spawn-Agrees = let (e, es) = install_remote w user host in spawn_installed-Agrees e es

  spawn_with_install-Agrees : Agrees (spawn_with_install w user host z)
  unfolding spawn_with_install
  spawn_with_install-Agrees =
      let (remote, es) = get_remote_version w user host in
      with_effects-Agrees es _ (
        if-Agrees (is_current w remote) _ _ (spawn_ssh-Agrees (codes "goet"))
          install_and_spawn-Agrees)

pub spawn-Agrees :
    (w : World) (destination : Bytes) (install : Bool) (z : ℤ)
    → Agrees w
        (parse_destination destination).0
        (parse_destination destination).1
        z
        (spawn w destination install z)
unfolding spawn
spawn-Agrees w destination install z =
    let (user, host) = parse_destination destination in
    if-Agrees w user host z install _ _ (spawn_with_install-Agrees w user host z) (
      suggest-Agrees w user host z (spawn_ssh w user host (codes "goet") z)
        (spawn_ssh-Agrees w user host z (codes "goet")))
