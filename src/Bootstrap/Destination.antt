-- ===== src/Bootstrap/Destination.antt =====
-- parseDestination of internal/client/ssh.go.
use goet.Prelude.{
  ℕ, ◌≡◌, ◌⊎◌, inl, inr, refl, sym, ap, [], ◌∷◌, ◌++◌, Bool, Option, none, some, Bool-cases,
}
use goet.Prelude.{◌==◌, ==→eq}
use goet.Text.{Bytes, IsUncut}
use goet.Bootstrap.{cut_before, cut_last, user_and_host, parse_destination}

abbrev pub is_at : ℕ → Bool
is_at c = c == b'@'

abbrev IsCut : Bytes → Option (Bytes × Bytes) → Type 0
IsCut s none = IsUncut is_at s
IsCut s (some (user, host)) = (user ++ (b'@' ∷ host) ≡ s) × IsUncut is_at host

cut_before-IsCut :
    (c : ℕ) (s : Bytes) (o : Option (Bytes × Bytes)) → IsCut s o → IsCut (c ∷ s) (cut_before c s o)
cut_before-IsCut c s (some (user, host)) h = (ap (λ t. c ∷ t) h.0, h.1)
cut_before-IsCut c s none h = elim (Bool-cases (c == b'@')) [
  | inl at ↦ rw at (ap (λ d. d ∷ s) (sym (==→eq c b'@' at)), h)
  | inr other ↦ rw other (other, h)
]

cut_last-IsCut : (s : Bytes) → IsCut s (cut_last s)
unfolding cut_last
cut_last-IsCut [] = tt
cut_last-IsCut (c ∷ s) = cut_before-IsCut c s (cut_last s) (cut_last-IsCut s)

abbrev pub IsSplit : Bytes → Bytes × Bytes → Type 0
IsSplit dest (user, host) =
    IsUncut is_at host × ((user ++ (b'@' ∷ host) ≡ dest) ⊎ ((user ≡ []) × (host ≡ dest)))

user_and_host-IsSplit :
    (dest : Bytes) (o : Option (Bytes × Bytes)) → IsCut dest o → IsSplit dest (user_and_host dest o)
user_and_host-IsSplit dest none h = (h, inr (refl, refl))
user_and_host-IsSplit dest (some (user, host)) h = (h.1, inl h.0)

-- The host has no `@`. The user and the host are what stands before and after an `@` of the destination, or
-- else the user is empty, and the host is the destination.
pub parse_destination-IsSplit : (dest : Bytes) → IsSplit dest (parse_destination dest)
unfolding parse_destination
parse_destination-IsSplit dest = user_and_host-IsSplit dest (cut_last dest) (cut_last-IsCut dest)
