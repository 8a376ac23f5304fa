-- ===== src/Session/Pty.antt =====
-- internal/session/pty.go. Text is its bytes: a rune above 0x7e is a byte above 0x7e or begins with
-- one, so the loop over runes tests the bytes.
use goet.Prelude.{ℕ, ◌-◌, ◌≤◌, ◌<◌, ◌≡◌, ◌≢◌, refl, List, [], ◌∷◌, ◌++◌, Bool, false, ◌||◌}
use goet.Text.{codes, has_prefix, base}
use goet.Prelude.{ltb, leb, ◌==◌, if◌then◌else◌, length, All, arith, Bool-cases, inl, inr}

-- "xterm-256color"
abbrev pub fallback_term : List ℕ
fallback_term =
    b'x' ∷ b't' ∷ b'e' ∷ b'r' ∷ b'm' ∷ b'-' ∷ b'2' ∷ b'5' ∷ b'6' ∷ b'c' ∷ b'o' ∷ b'l' ∷ b'o' ∷ b'r'
    ∷ []

-- The loop: whether it returns the fallback.
unfoldable pub has_bad_byte : List ℕ → Bool
has_bad_byte [] = false
has_bad_byte (c ∷ cs) = (ltb c 0x20 || c == b'=' || ltb 0x7e c) || has_bad_byte cs

unfoldable pub sanitize_term : List ℕ → List ℕ
sanitize_term term =
    if (length term == 0) || ltb 128 (length term)
    then fallback_term
    else if has_bad_byte term
    then fallback_term
    else term

-- The bytes that may stand in the value of an environment variable TERM.
abbrev pub IsTermByte : ℕ → Type 0
IsTermByte c = (0x20 ≤ c) × (c ≤ 0x7e) × ((c == b'=') ≡ false)

has_bad_byte-All : (cs : List ℕ) → has_bad_byte cs ≡ false → All IsTermByte cs
unfolding has_bad_byte
has_bad_byte-All [] h = tt
has_bad_byte-All (c ∷ cs) h =
    let good : (IsTermByte c) × (has_bad_byte cs ≡ false) = ground arith in
    (good.0, has_bad_byte-All cs good.1)

fallback_safe :
    (0 < length fallback_term) × (length fallback_term ≤ 128) × All IsTermByte fallback_term
fallback_safe = ground arith

-- Whatever the client sends, the value of TERM is not empty, has at most 128 bytes, and all of them
-- are printable ASCII other than `=`.
pub sanitize_term-safe :
    (term : List ℕ)
    → (0 < length (sanitize_term term))
      × (length (sanitize_term term) ≤ 128)
      × All IsTermByte (sanitize_term term)
unfolding sanitize_term
sanitize_term-safe term = elim (Bool-cases ((length term == 0) || ltb 128 (length term))) [
  | inl odd ↦ rw odd fallback_safe
  | inr sized ↦ elim (Bool-cases (has_bad_byte term)) [
    | inl bad ↦ rw (sized, bad) fallback_safe
    | inr good ↦ rw (sized, good) (ground arith, ground arith, has_bad_byte-All term good)
  ]
]

-- "TERM="
abbrev pub term_prefix : List ℕ
term_prefix = b'T' ∷ b'E' ∷ b'R' ∷ b'M' ∷ b'=' ∷ []

-- "GOET_SESSION="
abbrev session_prefix : List ℕ
session_prefix =
    b'G' ∷ b'O' ∷ b'E' ∷ b'T' ∷ b'_' ∷ b'S' ∷ b'E' ∷ b'S' ∷ b'S' ∷ b'I' ∷ b'O' ∷ b'N' ∷ b'=' ∷ []

-- The entries of the environment that are not TERM=.
unfoldable pub without_term : List (List ℕ) → List (List ℕ)
without_term [] = []
without_term (e ∷ es) =
    let rest = without_term es in if has_prefix e term_prefix then rest else e ∷ rest

-- spawnPTY: the program, from $SHELL, and its name, which begins with a minus for a login shell.
unfoldable pub shell_of : List ℕ → List ℕ
shell_of [] = codes "/bin/sh"
shell_of (c ∷ s) = c ∷ s

unfoldable pub login_name : List ℕ → List ℕ
login_name shell = b'-' ∷ base (shell_of shell)

-- The environment of the shell, from os.Environ.
unfoldable pub shell_env : List (List ℕ) → List ℕ → List ℕ → List (List ℕ)
shell_env environ session_id term =
    (without_term environ ++ ((term_prefix ++ sanitize_term term) ∷ []))
    ++ ((session_prefix ++ session_id) ∷ [])

-- The entries that set TERM.
unfoldable pub terms : List (List ℕ) → List (List ℕ)
terms [] = []
terms (e ∷ es) = let rest = terms es in if has_prefix e term_prefix then e ∷ rest else rest

terms-append : (xs ys : List (List ℕ)) → terms (xs ++ ys) ≡ terms xs ++ terms ys
unfolding terms
terms-append [] ys = refl
terms-append (x ∷ xs) ys = ground (arith, terms-append xs ys)

terms-without_term : (es : List (List ℕ)) → terms (without_term es) ≡ []
unfolding terms without_term
terms-without_term [] = refl
terms-without_term (e ∷ es) = ground (arith, terms-without_term es)

-- Whatever it inherits, the shell has exactly one TERM, with the value checked.
pub terms-shell_env :
    (environ : List (List ℕ)) (session_id term : List ℕ)
    → terms (shell_env environ session_id term) ≡ (term_prefix ++ sanitize_term term) ∷ []
unfolding shell_env
terms-shell_env environ session_id term =
    rw
      (
        terms-append (without_term environ ++ ((term_prefix ++ sanitize_term term) ∷ [])),
        terms-append (without_term environ),
        terms-without_term environ,
      )
      (unfold terms in refl)

-- bouncePTYSize: the rows after it, if the size can be read and set.
unfoldable pub bounce_rows : ℕ → ℕ
bounce_rows rows = if leb rows 1 then rows else rows - 1

-- A client with at least two rows that sends its size again after the bounce changes the size.
pub bounce_rows_differs : (rows : ℕ) → 2 ≤ rows → (bounce_rows rows ≢ rows) × (0 < bounce_rows rows)
unfolding bounce_rows
bounce_rows_differs rows h = ground arith
