-- ===== src/Bootstrap/Install.antt =====
-- internal/client/install.go: what the remote host says of itself, and the version line that main of
-- cmd/goet/main.go prints.
use goet.Prelude.{
  ℕ, ◌≡◌, refl, sym, ap, ◌∙◌, List, [], ◌∷◌, ◌++◌, append_assoc, Bool, false, ◌||◌, Option, none,
  some, All-append,
}
use goet.Prelude.{◌==◌, if◌then◌else◌}
use goet.Text.{
  Bytes, codes, is_same, is_space, trim, trim_space, fields, IsWord, IsUncut, fields_word,
  fields_last, trim_left, trim_right, trim_right_end, trim_right_stop, trim_right_uncut,
}

abbrev go_os : Bytes → Option Bytes
go_os kernel =
    if is_same kernel (codes "Linux")
    then some (codes "linux")
    else if is_same kernel (codes "Darwin")
    then some (codes "darwin")
    else none

abbrev go_arch : Bytes → Option Bytes
go_arch machine =
    if is_same machine (codes "x86_64")
    then some (codes "amd64")
    else if is_same machine (codes "aarch64") || is_same machine (codes "arm64")
    then some (codes "arm64")
    else none

abbrev platform : Option Bytes → Option Bytes → Option (Bytes × Bytes)
platform (some os) (some arch) = some (os, arch)
platform _ _ = none

abbrev of_fields : List Bytes → Option (Bytes × Bytes)
of_fields (kernel ∷ machine ∷ []) = platform (go_os kernel) (go_arch machine)
of_fields _ = none

-- The goos and the goarch, or none for an error.
unfoldable pub parse_uname_output : Bytes → Option (Bytes × Bytes)
parse_uname_output output = of_fields (fields output)

abbrev pub is_paren : ℕ → Bool
is_paren c = c == b'(' || c == b')'

abbrev pub version_of : List Bytes → Option Bytes
version_of (name ∷ _ ∷ commit ∷ []) =
    if is_same name (codes "goet") then some (trim is_paren commit) else none
version_of (name ∷ commit ∷ []) = if is_same name (codes "goet") then some commit else none
version_of _ = none

-- The commit, or none for an error.
unfoldable pub parse_version_output : Bytes → Option Bytes
parse_version_output output = version_of (fields output)

-- "goet %s (%s)\n" of main
abbrev pub version_line : Bytes → Bytes → Bytes
version_line version commit = codes "goet " ++ (version ++ (codes " (" ++ (commit ++ codes ")\n")))

-- "(%s)"
abbrev in_parens : Bytes → Bytes
in_parens commit = b'(' ∷ (commit ++ (b')' ∷ []))

trim-in_parens :
    (commit : Bytes) → IsUncut is_paren commit → trim is_paren (in_parens commit) ≡ commit
unfolding trim_left trim_right
trim-in_parens [] h = refl
trim-in_parens (c ∷ s) h =
    rw (h.0) (trim_right_end is_paren (c ∷ s) b')' refl ∙ trim_right_uncut is_paren (c ∷ s) h)

-- The line without its newline.
abbrev bare_line : Bytes → Bytes → Bytes
bare_line version commit = codes "goet " ++ (version ++ (codes " " ++ in_parens commit))

in_parens-IsWord : (commit : Bytes) → IsUncut is_space commit → IsWord (in_parens commit)
in_parens-IsWord commit h =
    (refl, (refl, All-append (λ c. is_space c ≡ false) commit (b')' ∷ []) h (refl, tt)))

version_line_bare :
    (version commit : Bytes)
    → version_line version commit ≡ bare_line version commit ++ (b'\n' ∷ [])
version_line_bare version commit =
    let close = b')' ∷ [] in
    let newline = b'\n' ∷ [] in
    ap (λ t. codes "goet " ++ t)
      (ap (λ t. version ++ (codes " (" ++ t)) (sym (append_assoc commit close newline))
        ∙ sym (append_assoc version (codes " " ++ in_parens commit) newline))

trim_line :
    (version commit : Bytes) → trim_space (version_line version commit) ≡ bare_line version commit
unfolding trim_left
trim_line version commit =
    let ends : bare_line version commit
        ≡ (codes "goet " ++ (version ++ (codes " (" ++ commit))) ++ (b')' ∷ []) =
      ap (λ t. codes "goet " ++ t)
        (sym (append_assoc version (codes " (" ++ commit) (b')' ∷ []))) in
    ap trim_space (version_line_bare version commit)
    ∙ trim_right_end is_space (bare_line version commit) b'\n' refl
    ∙ ap (trim_right is_space) ends
    ∙ trim_right_stop is_space (codes "goet " ++ (version ++ (codes " (" ++ commit))) b')' refl
    ∙ sym ends

-- What main prints as its version is read back as the commit, if the version is a word and the commit has neither
-- white space nor parentheses.
pub parse_version_output-version_line :
    (version commit : Bytes)
    → IsWord version
    → IsUncut is_space commit
    → IsUncut is_paren commit
    → parse_version_output (trim_space (version_line version commit)) ≡ some commit
unfolding parse_version_output
parse_version_output-version_line version commit v c p =
    ap (λ t. version_of (fields t)) (trim_line version commit)
    ∙ ap version_of (
        fields_word (codes "goet") (version ++ (codes " " ++ in_parens commit))
          (refl, (refl, (refl, (refl, (refl, tt)))))
        ∙ ap (λ ws. codes "goet" ∷ ws)
            (fields_word version (in_parens commit) v
              ∙ ap (λ ws. version ∷ ws)
                  (fields_last (in_parens commit) (in_parens-IsWord commit c))))
    ∙ ap some (trim-in_parens commit p)
