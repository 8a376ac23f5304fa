-- ===== src/Bootstrap/Current.antt =====
-- The versions that spawnWithInstall of internal/client/ssh.go compares.
use goet.Prelude.{◌≡◌, refl, ap, ◌∙◌, [], ◌∷◌, ◌++◌, true, some}
use goet.Protocol.Message.{ℤ}
use goet.Text.{Bytes, codes, IsWord, IsUncut, is_space, is_same_refl}
use goet.Bootstrap.{parse_destination}
use goet.Bootstrap.Install.{is_paren, version_line, parse_version_output-version_line}
use goet.Bootstrap.Spawn.{
  World, run_ssh, version_args, second_try, trimmed, get_remote_version, with_effects, spawn_ssh,
  spawn_with_install, spawn, is_current, command_args, remote_goet_path,
}

module _ (w : World) (version : Bytes) where
  read_version :
      (user host : Bytes)
      → IsWord version
      → IsUncut is_space w.commit
      → IsUncut is_paren w.commit
      → w.run (version_args w user host) ≡ some (version_line version w.commit)
      → get_remote_version w user host ≡ (some w.commit, run_ssh (version_args w user host) ∷ [])
  unfolding get_remote_version
  read_version user host v c p answer =
      let first = version_args w user host in
      let second = command_args w user host (remote_goet_path ++ codes " --version") in
      ap (λ o. second_try w first second (trimmed o)) answer
      ∙ ap (λ o. (o, run_ssh first ∷ [])) (parse_version_output-version_line version w.commit v c p)

  -- If the remote goet prints the version line of a build of the same commit, whatever its version, goet --install
  -- asks for the version and starts the session, and does nothing else.
  pub spawn_current :
      (destination : Bytes) (z : ℤ)
      → IsWord version
      → IsUncut is_space w.commit
      → IsUncut is_paren w.commit
      → w.run (version_args w (parse_destination destination).0 (parse_destination destination).1)
        ≡ some (version_line version w.commit)
      → spawn w destination true z
        ≡ with_effects
            (run_ssh
                (version_args w (parse_destination destination).0 (parse_destination destination).1)
              ∷ [])
            (spawn_ssh w
              (parse_destination destination).0
              (parse_destination destination).1
              (codes "goet")
              z)
  unfolding spawn spawn_with_install
  spawn_current destination z v c p answer =
      let (user, host) = parse_destination destination in
      let up_to_date : is_current w (some w.commit) ≡ true = is_same_refl w.commit in
      rw (read_version user host v c p answer, up_to_date) refl
