-- ===== src/Bootstrap/Clean.antt =====
-- What SpawnSSH of internal/client/ssh.go leaves behind: processes and temporary files.
use goet.Prelude.{
  ℕ, ◌+◌, ◌≡◌, refl, sym, ap, ap₂, ◌∙◌, arith, inl, inr, List, [], ◌∷◌, ◌++◌, Bool, true, false,
  ◌&&◌, ◌||◌, not, Option, none, some, Bool-cases,
}
use goet.Prelude.{◌==◌, if◌then◌else◌}
use goet.Protocol.Message.{ℤ}
use goet.Text.{Bytes, codes, is_same}
use goet.Bootstrap.{parse_destination}
use goet.Bootstrap.Spawn.{
  Effect, start_ssh, write_stdin, close_stdin, kill_and_reap, run_ssh, transfer, download, create,
  remove, Result, spawned, failed, World, start_session, is_not_installed, suggest_install,
  after_install_of, session_args, spawn_with, spawn_ssh, ssh_run, command_args, version_args,
  second_try, get_remote_version, transfer_binary, keep_body, download_release, release_url,
  transfer_release, transfer_own, install_for, arch_of, install_remote, is_current, spawn_installed,
  install_and_spawn, spawn_with_install, spawn, remote_goet_path, InstallError,
}

-- How many ssh processes came to run, and how many were killed and reaped.
abbrev pub started : World → List Effect → ℕ
started w [] = 0
started w (start_ssh args ∷ es) =
    if (w.session args).started then 1 + started w es else started w es
started w (_ ∷ es) = started w es

abbrev pub killed : List Effect → ℕ
killed [] = 0
killed (kill_and_reap ∷ es) = 1 + killed es
killed (_ ∷ es) = killed es

-- The temporary files made, and the files removed, in order.
abbrev pub created : List Effect → List Bytes
created [] = []
created (create path ∷ es) = path ∷ created es
created (_ ∷ es) = created es

abbrev pub removed : List Effect → List Bytes
removed [] = []
removed (remove path ∷ es) = path ∷ removed es
removed (_ ∷ es) = removed es

abbrev pub IsClean : World → List Effect → Type 0
IsClean w es = (started w es ≡ killed es) × (created es ≡ removed es)

started-append :
    (w : World) (xs ys : List Effect) → started w (xs ++ ys) ≡ started w xs + started w ys
started-append w [] ys = omega arith
started-append w (start_ssh args ∷ xs) ys = ground (arith, started-append w xs ys)
started-append w (write_stdin l ∷ xs) ys = started-append w xs ys
started-append w (close_stdin ∷ xs) ys = started-append w xs ys
started-append w (kill_and_reap ∷ xs) ys = started-append w xs ys
started-append w (run_ssh args ∷ xs) ys = started-append w xs ys
started-append w (transfer args path ∷ xs) ys = started-append w xs ys
started-append w (download url ∷ xs) ys = started-append w xs ys
started-append w (create path ∷ xs) ys = started-append w xs ys
started-append w (remove path ∷ xs) ys = started-append w xs ys

killed-append : (xs ys : List Effect) → killed (xs ++ ys) ≡ killed xs + killed ys
killed-append [] ys = omega arith
killed-append (kill_and_reap ∷ xs) ys = omega (arith, killed-append xs ys)
killed-append (_ ∷ xs) ys = killed-append xs ys

created-append : (xs ys : List Effect) → created (xs ++ ys) ≡ created xs ++ created ys
created-append [] ys = refl
created-append (create path ∷ xs) ys = ap (λ ps. path ∷ ps) (created-append xs ys)
created-append (_ ∷ xs) ys = created-append xs ys

removed-append : (xs ys : List Effect) → removed (xs ++ ys) ≡ removed xs ++ removed ys
removed-append [] ys = refl
removed-append (remove path ∷ xs) ys = ap (λ ps. path ∷ ps) (removed-append xs ys)
removed-append (_ ∷ xs) ys = removed-append xs ys

module _ (w : World) where
  append-IsClean : (xs ys : List Effect) → IsClean w xs → IsClean w ys → IsClean w (xs ++ ys)
  append-IsClean xs ys h k = (
    started-append w xs ys ∙ ap₂ (λ a b. a + b) h.0 k.0 ∙ sym (killed-append xs ys),
    created-append xs ys ∙ ap₂ (λ a b. a ++ b) h.1 k.1 ∙ sym (removed-append xs ys),
  )

  if-IsClean :
      {A : Type 0} (b : Bool) (x y : A × List Effect)
      → IsClean w x.1
      → IsClean w y.1
      → IsClean w (if b then x else y).1
  if-IsClean true x y h k = h
  if-IsClean false x y h k = k

  start_session-IsClean :
      (host k : Bytes) (args : List Bytes)
      → IsClean w (start_session host k args (w.session args)).1
  unfolding start_session
  start_session-IsClean host k args = elim (Bool-cases (w.session args).piped) [
    | inr no_pipe ↦ rw no_pipe (refl, refl)
    | inl piped ↦ elim (Bool-cases (w.session args).started) [
      | inr off ↦ rw (piped, off) (rw off refl, refl)
      | inl on ↦ elim (Bool-cases (w.session args).wrote) [
        | inr no_line ↦ rw (piped, on, no_line) (rw on refl, refl)
        | inl wrote ↦ rw (piped, on, wrote) (rw on refl, refl)
      ]
    ]
  ]

  spawn_with-IsClean :
      (user host path : Bytes) (z : ℤ) (o : Option Bytes)
      → IsClean w (spawn_with w user host path z o).1
  spawn_with-IsClean user host path z none = (refl, refl)
  spawn_with-IsClean user host path z (some k) =
      start_session-IsClean host k (session_args w user host path z k)

  spawn_ssh-IsClean : (user host path : Bytes) (z : ℤ) → IsClean w (spawn_ssh w user host path z).1
  unfolding spawn_ssh
  spawn_ssh-IsClean user host path z = spawn_with-IsClean user host path z w.new_passkey

  suggest_install-IsClean :
      (host : Bytes) (p : Result × List Effect)
      → IsClean w p.1
      → IsClean w (suggest_install host p).1
  suggest_install-IsClean host (failed e, es) h = if-IsClean (is_not_installed e) _ _ h h
  suggest_install-IsClean host (spawned r, es) h = h

  after_install-IsClean :
      (p : Result × List Effect) → IsClean w p.1 → IsClean w (after_install_of p).1
  after_install-IsClean (failed e, es) h = h
  after_install-IsClean (spawned r, es) h = h

  second_try-IsClean :
      (first second : List Bytes) (o : Option Bytes) → IsClean w (second_try w first second o).1
  second_try-IsClean first second none = (refl, refl)
  second_try-IsClean first second (some out) = (refl, refl)

  get_remote_version-IsClean : (user host : Bytes) → IsClean w (get_remote_version w user host).1
  unfolding get_remote_version
  get_remote_version-IsClean user host =
      second_try-IsClean _ _ (ssh_run w (version_args w user host))

  transfer_binary-IsClean :
      (user host path : Bytes) → IsClean w (transfer_binary w user host path).1
  unfolding transfer_binary
  transfer_binary-IsClean user host path =
      if-IsClean (not (w.can_open path)) (some InstallError.open_failed, []) _ (refl, refl)
        (refl, refl)

  -- A transfer makes and removes no file.
  transfer_binary-apart :
      (user host path : Bytes)
      → (created (transfer_binary w user host path).1 ≡ [])
        × (removed (transfer_binary w user host path).1 ≡ [])
  unfolding transfer_binary
  transfer_binary-apart user host path = elim (Bool-cases (w.can_open path)) [
    | inl can ↦ rw can (refl, refl)
    | inr cannot ↦ rw cannot (refl, refl)
  ]

  -- What a download leaves: no file, or the one at the path that it gives.
  abbrev Leaves : Option Bytes → List Effect → Type 0
  Leaves none es = IsClean w es
  Leaves (some path) es = (started w es ≡ killed es) × (created es ≡ path ∷ []) × (removed es ≡ [])

  keep_body-Leaves :
      (url : Bytes) (copied : Bool) (temp : Option Bytes)
      → Leaves (keep_body w url copied temp).0 (keep_body w url copied temp).1
  keep_body-Leaves url copied none = (refl, refl)
  keep_body-Leaves url true (some path) = (refl, refl, refl)
  keep_body-Leaves url false (some path) = (refl, refl)

  download_release-Leaves :
      (url : Bytes) → Leaves (download_release w url).0 (download_release w url).1
  unfolding download_release
  download_release-Leaves url =
      let d = w.get url in
      elim (Bool-cases (not d.responded || not (d.status == 200))) [
        | inl bad ↦ rw bad (refl, refl)
        | inr good ↦ rw good (keep_body-Leaves url d.copied d.temp)
      ]

  transfer_release-IsClean :
      (user host : Bytes) (o : Option Bytes) (es : List Effect)
      → Leaves o es
      → IsClean w (transfer_release w user host (o, es)).1
  unfolding transfer_release
  transfer_release-IsClean user host none es h = h
  transfer_release-IsClean user host (some path) es h =
      let es' = (transfer_binary w user host path).1 in
      let (none_made, none_removed) = transfer_binary-apart user host path in
      let end = remove path ∷ [] in
      (
        started-append w es (es' ++ end)
            ∙ ap₂ (λ a b. a + b) h.0
                (started-append w es' end
                  ∙ ap (λ a. a + 0) (transfer_binary-IsClean user host path).0
                  ∙ sym (killed-append es' end))
            ∙ sym (killed-append es (es' ++ end)),
        created-append es (es' ++ end)
            ∙ ap₂ (λ a b. a ++ b) h.1 (created-append es' end ∙ ap (λ ps. ps ++ []) none_made)
            ∙ sym (
                ap₂ (λ a b. a ++ b) h.2
                  (removed-append es' end ∙ ap (λ ps. ps ++ (path ∷ [])) none_removed))
            ∙ sym (removed-append es (es' ++ end)),
      )

  transfer_own-IsClean :
      (user host : Bytes) (o : Option Bytes) → IsClean w (transfer_own w user host o).1
  transfer_own-IsClean user host none = (refl, refl)
  transfer_own-IsClean user host (some path) = transfer_binary-IsClean user host path

  install_for-IsClean :
      (user host : Bytes) (o : Option (Bytes × Bytes)) → IsClean w (install_for w user host o).1
  install_for-IsClean user host none = (refl, refl)
  install_for-IsClean user host (some (os, arch)) =
      let url = release_url os arch in
      let (path, es) = download_release w url in
      if-IsClean (is_same os w.go_os && is_same arch w.go_arch) _ _
        (transfer_own-IsClean user host w.executable)
        (transfer_release-IsClean user host path es (download_release-Leaves url))

  install_remote-IsClean : (user host : Bytes) → IsClean w (install_remote w user host).1
  unfolding install_remote
  install_remote-IsClean user host =
      install_for-IsClean user host
        (arch_of w (ssh_run w (command_args w user host (codes "uname -sm"))))

  spawn_installed-IsClean :
      (user host : Bytes) (z : ℤ) (e : Option InstallError) (es : List Effect)
      → IsClean w es
      → IsClean w (spawn_installed w user host z (e, es)).1
  spawn_installed-IsClean user host z (some e) es h = h
  spawn_installed-IsClean user host z none es h = append-IsClean es _ h (
      after_install-IsClean (spawn_ssh w user host remote_goet_path z)
        (spawn_ssh-IsClean user host remote_goet_path z))

  install_and_spawn-IsClean :
      (user host : Bytes) (z : ℤ) → IsClean w (install_and_spawn w user host z).1
  unfolding install_and_spawn
  install_and_spawn-IsClean user host z =
      let (e, es) = install_remote w user host in
      spawn_installed-IsClean user host z e es (install_remote-IsClean user host)

  spawn_with_install-IsClean :
      (user host : Bytes) (z : ℤ) → IsClean w (spawn_with_install w user host z).1
  unfolding spawn_with_install
  spawn_with_install-IsClean user host z =
      let (remote, es) = get_remote_version w user host in
      append-IsClean es _ (get_remote_version-IsClean user host) (
        if-IsClean (is_current w remote) _ _ (spawn_ssh-IsClean user host (codes "goet") z)
          (install_and_spawn-IsClean user host z))

  -- However SpawnSSH fares, with an install or without, each ssh process that came to run for a session is killed
  -- and reaped, and the temporary files that were made are removed.
  pub spawn-IsClean :
      (destination : Bytes) (install : Bool) (z : ℤ) → IsClean w (spawn w destination install z).1
  unfolding spawn
  spawn-IsClean destination install z =
      let (user, host) = parse_destination destination in
      if-IsClean install _ _ (spawn_with_install-IsClean user host z) (
        suggest_install-IsClean host (spawn_ssh w user host (codes "goet") z)
          (spawn_ssh-IsClean user host (codes "goet") z))
