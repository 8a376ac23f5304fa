-- ===== src/Text/Decimal.antt =====
-- strconv: Itoa and Atoi of 64-bit ints.
use goet.Prelude.{
  ℕ, zero, suc, ◌+◌, ◌-◌, ◌*◌, ◌/◌, ◌%◌, ◌^◌, ◌<◌, ◌≤◌, ◌≡◌, refl, ap, ◌∙◌, [], ◌∷◌, Bool, true,
  false, ◌||◌, arith, inl, inr, Bool-cases,
}
use goet.Prelude.{tests, ltb→lt, lt→ltb, ltb, All, length, leb, ◌==◌, if◌then◌else◌}
use goet.Protocol.Message.{ℤ, pos, negsuc}
use goet.Text.{codes, Bytes, is_space, IsUncut}

-- What ParseUint finds.
pub data Scan : Type 0 where
  bad_syntax out_of_range : Scan
  number : ℕ → Scan

unfoldable pub scan : Bytes → ℕ → Scan
scan [] n = number n
scan (c ∷ s) n =
    let d = c - b'0' in
    let rest = scan s (n * 10 + d) in
    if ltb c b'0' || ltb b'9' c
    then bad_syntax
    else if leb ((2 ^ 64 - 1) / 10 + 1) n || leb (2 ^ 64) (n * 10 + d)
    then out_of_range
    else rest

abbrev pub max_int : ℕ
max_int = 2 ^ 63 - 1

abbrev negate : ℕ → ℤ
negate n = if n == 0 then pos 0 else negsuc (n - 1)

abbrev clamp : Bool → Scan → ℤ × Bool
clamp minus bad_syntax = (pos 0, false)
clamp false out_of_range = (pos max_int, false)
clamp true out_of_range = (negsuc max_int, false)
clamp false (number n) = if ltb n (2 ^ 63) then (pos n, true) else (pos max_int, false)
clamp true (number n) = if ltb (2 ^ 63) n then (negsuc max_int, false) else (negate n, true)

unfoldable pub parse_signed : Bool → Bytes → ℤ × Bool
parse_signed minus [] = (pos 0, false)
parse_signed minus (c ∷ s) = clamp minus (scan (c ∷ s) 0)

-- strconv.Atoi: the int, and whether there is no error. Out of range it gives the nearest int.
unfoldable pub atoi : Bytes → ℤ × Bool
atoi [] = (pos 0, false)
atoi (c ∷ s) =
    if c == b'+'
    then parse_signed false s
    else if c == b'-'
    then parse_signed true s
    else parse_signed false (c ∷ s)

unfoldable pub digits : ℕ → ℕ → Bytes → Bytes
digits zero n out = out
digits (suc k) n out =
    let rest = digits k (n / 10) ((b'0' + n % 10) ∷ out) in
    if ltb n 10 then (b'0' + n) ∷ out else rest

-- strconv.Itoa of an int that is not negative: at most 20 digits.
unfoldable pub itoa : ℕ → Bytes
itoa n = digits 20 n []

abbrev tens : ℕ → ℕ
tens zero = 1
tens (suc k) = 10 * tens k

scan_digit :
    (s : Bytes) (n d : ℕ)
    → d < 10
    → n * 10 + d < 2 ^ 64
    → scan ((b'0' + d) ∷ s) n ≡ scan s (n * 10 + d)
unfolding scan
scan_digit s n d h small = ground arith

scan-digits :
    (k n : ℕ) (out : Bytes) → n < tens k → n < 2 ^ 64 → scan (digits k n out) 0 ≡ scan out n
unfolding digits
scan-digits zero n out h small = ap (scan out) (omega (arith, h))
scan-digits (suc k) n out h small = elim (Bool-cases (ltb n 10)) [
  | inl last ↦ rw last (
      scan_digit out 0 n (ltb→lt n 10 last) (omega (tests, small, last))
      ∙ ap (scan out) (omega arith))
  | inr more ↦ rw more (
      scan-digits k (n / 10) ((b'0' + n % 10) ∷ out) (omega (arith, h)) (omega (arith, small))
      ∙ scan_digit out (n / 10) (n % 10) (omega arith) (omega (arith, small))
      ∙ ap (scan out) (omega arith))
]

-- Digits, one at least.
abbrev pub IsNumeral : Bytes → Type 0
IsNumeral [] = ⊥
IsNumeral (c ∷ s) = (b'0' ≤ c) × (c ≤ b'9')

digits-IsNumeral : (k n : ℕ) (out : Bytes) → IsNumeral out → IsNumeral (digits k n out)
unfolding digits
digits-IsNumeral zero n out h = h
digits-IsNumeral (suc k) n out h = elim (Bool-cases (ltb n 10)) [
  | inl last ↦ rw last (omega arith, omega (tests, last))
  | inr more ↦
      rw more (digits-IsNumeral k (n / 10) ((b'0' + n % 10) ∷ out) (omega arith, omega arith))
]

pub itoa-IsNumeral : (n : ℕ) → IsNumeral (itoa n)
unfolding itoa digits
itoa-IsNumeral n = elim (Bool-cases (ltb n 10)) [
  | inl last ↦ rw last (omega arith, omega (tests, last))
  | inr more ↦
      rw more (digits-IsNumeral 19 (n / 10) ((b'0' + n % 10) ∷ []) (omega arith, omega arith))
]

scan-itoa : (n : ℕ) → n < 2 ^ 64 → scan (itoa n) 0 ≡ number n
unfolding itoa scan
scan-itoa n small = scan-digits 20 n [] (omega (arith, small)) small

atoi_numeral : (s : Bytes) → IsNumeral s → atoi s ≡ clamp false (scan s 0)
unfolding atoi parse_signed
atoi_numeral [] h = absurd h
atoi_numeral (c ∷ s) h = ground (arith, h.0, h.1)

pub atoi-itoa : (n : ℕ) → n < 2 ^ 63 → atoi (itoa n) ≡ (pos n, true)
atoi-itoa n small =
    atoi_numeral (itoa n) (itoa-IsNumeral n)
    ∙ ap (clamp false) (scan-itoa n (omega (arith, small)))
    ∙ rw (lt→ltb n (2 ^ 63) small) refl

abbrev AreDigits : Bytes → Type 0
AreDigits s = All (λ c. (b'0' ≤ c) × (c ≤ b'9')) s

digits-AreDigits : (k n : ℕ) (out : Bytes) → AreDigits out → AreDigits (digits k n out)
unfolding digits
digits-AreDigits zero n out h = h
digits-AreDigits (suc k) n out h = elim (Bool-cases (ltb n 10)) [
  | inl last ↦ rw last ((omega arith, omega (tests, last)), h)
  | inr more ↦
      rw more (digits-AreDigits k (n / 10) ((b'0' + n % 10) ∷ out) ((omega arith, omega arith), h))
]

AreDigits-IsUncut : (s : Bytes) → AreDigits s → IsUncut is_space s
AreDigits-IsUncut [] h = tt
AreDigits-IsUncut (c ∷ s) h =
    let low = h.0.0 in let high = h.0.1 in (ground arith, AreDigits-IsUncut s h.1)

pub itoa-IsUncut : (n : ℕ) → IsUncut is_space (itoa n)
unfolding itoa
itoa-IsUncut n = AreDigits-IsUncut (itoa n) (digits-AreDigits 20 n [] tt)

huge : atoi (codes "99999999999999999999") ≡ (pos max_int, false)
unfolding atoi parse_signed scan
huge = refl

length-digits : (k n : ℕ) (out : Bytes) → length (digits k n out) ≤ k + length out
unfolding digits
length-digits zero n out = omega arith
length-digits (suc k) n out = elim (Bool-cases (ltb n 10)) [
  | inl last ↦ rw last (omega arith)
  | inr more ↦ rw more (omega (arith, length-digits k (n / 10) ((b'0' + n % 10) ∷ out)))
]

pub length-itoa : (n : ℕ) → length (itoa n) ≤ 20
unfolding itoa
length-itoa n = omega (arith, length-digits 20 n [])
