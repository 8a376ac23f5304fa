-- ===== src/Text/Hex.antt =====
-- encoding/hex, as the passkey is passed in it.
use goet.Prelude.{
  ◌>>=◌, ℕ, ◌+◌, ◌-◌, ◌*◌, ◌/◌, ◌%◌, ◌<◌, ◌≡◌, refl, ap, [], ◌∷◌, false, ◌&&◌, arith, Option, none,
  some, All,
}
use goet.Prelude.{ltb, leb, ◌==◌, if◌then◌else◌}
use goet.Text.{Bytes, is_space, IsUncut}

abbrev pub hex_digit : ℕ → ℕ
hex_digit d = if ltb d 10 then b'0' + d else b'a' + (d - 10)

-- hex.EncodeToString
unfoldable pub encode : Bytes → Bytes
encode [] = []
encode (b ∷ bs) = hex_digit (b / 16) ∷ hex_digit (b % 16) ∷ encode bs

unfoldable pub hex_value : ℕ → Option ℕ
hex_value c =
    if leb b'0' c && leb c b'9'
    then some (c - b'0')
    else if leb b'a' c && leb c b'f'
    then some (c - b'a' + 10)
    else if leb b'A' c && leb c b'F'
    then some (c - b'A' + 10)
    else none

-- hex.DecodeString: an odd length and a byte that is no digit are errors.
unfoldable pub decode : Bytes → Option Bytes
decode [] = some []
decode (c ∷ []) = none
decode (c ∷ d ∷ s) = do
  high ← hex_value c
  low ← hex_value d
  rest ← decode s
  some ((high * 16 + low) ∷ rest)

abbrev pub AreBytes : Bytes → Type 0
AreBytes s = All (λ b. b < 256) s

hex_value-hex_digit : (d : ℕ) → d < 16 → hex_value (hex_digit d) ≡ some d
unfolding hex_value
hex_value-hex_digit d h = ground arith

pub decode-encode : (s : Bytes) → AreBytes s → decode (encode s) ≡ some s
unfolding decode encode
decode-encode [] h = refl
decode-encode (b ∷ s) h =
    let high : b / 16 < 16 = omega (arith, h.0) in
    let low : b % 16 < 16 = omega arith in
    rw (hex_value-hex_digit (b / 16) high, hex_value-hex_digit (b % 16) low, decode-encode s h.1)
      (ap (λ c. some (c ∷ s)) (omega arith))

hex_digit-seen : (d : ℕ) → d < 16 → is_space (hex_digit d) ≡ false
hex_digit-seen d h = ground arith

pub encode-IsUncut : (s : Bytes) → AreBytes s → IsUncut is_space (encode s)
unfolding encode
encode-IsUncut [] h = tt
encode-IsUncut (b ∷ s) h = (
  hex_digit-seen (b / 16) (omega (arith, h.0)),
  (hex_digit-seen (b % 16) (omega arith), encode-IsUncut s h.1),
)

pub hex_digit_no_minus : (d : ℕ) → d < 16 → (hex_digit d == b'-') ≡ false
hex_digit_no_minus d h = ground arith
