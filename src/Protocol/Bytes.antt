-- ===== src/Protocol/Bytes.antt =====
-- encoding/binary's BigEndian, as internal/protocol/messages.go calls it.
use goet.Prelude.{ℕ, zero, suc, ◌+◌, ◌*◌, ◌/◌, ◌%◌, ◌^◌, ◌<◌, ◌≤◌, ◌≡◌, refl, ap, ◌∙◌}
use goet.Prelude.{
  List, [], ◌∷◌, ◌++◌, append_assoc, append-nil, arith, length, All, All-append, length-append,
}
use native.Mathlib.Nat.{pow-suc}

abbrev pub IsByte : ℕ → Type 0
IsByte b = b < 256

-- The `n` low bytes of `v`, the highest first: PutUint16, PutUint32 and PutUint64 at 2, 4 and 8.
unfoldable pub put_uint : ℕ → ℕ → List ℕ
put_uint zero v = []
put_uint (suc n) v = put_uint n (v / 256) ++ (v % 256 ∷ [])

-- The number that the bytes spell after `acc`: Uint16, Uint32 and Uint64 at `acc = 0`.
unfoldable pub get_uint : ℕ → List ℕ → ℕ
get_uint acc [] = acc
get_uint acc (b ∷ bs) = get_uint (acc * 256 + b) bs

pub length-put_uint : (n v : ℕ) → length (put_uint n v) ≡ n
unfolding put_uint
length-put_uint zero v = refl
length-put_uint (suc n) v =
    omega (arith, length-append (put_uint n (v / 256)) (v % 256 ∷ []), length-put_uint n (v / 256))

get_uint-append :
    (acc : ℕ) (xs ys : List ℕ) → get_uint acc (xs ++ ys) ≡ get_uint (get_uint acc xs) ys
unfolding get_uint
get_uint-append acc [] ys = refl
get_uint-append acc (x ∷ xs) ys = get_uint-append (acc * 256 + x) xs ys

pub get_uint-snoc : (xs : List ℕ) (b : ℕ) → get_uint 0 (xs ++ (b ∷ [])) ≡ get_uint 0 xs * 256 + b
unfolding get_uint
get_uint-snoc xs b = get_uint-append 0 xs (b ∷ [])

-- Reading what was written gives the number back, if it fits.
pub get_uint-put_uint : (n v : ℕ) → v < 256 ^ n → get_uint 0 (put_uint n v) ≡ v
unfolding put_uint
get_uint-put_uint zero v h = unfold get_uint in omega arith
get_uint-put_uint (suc n) v h = omega (
  arith,
  get_uint-snoc (put_uint n (v / 256)) (v % 256),
  get_uint-put_uint n (v / 256) (omega (arith, pow-suc 256 n)),
)

put_uint-shift :
    (k acc b : ℕ) (bs : List ℕ)
    → b < 256
    → put_uint (suc k) (acc * 256 + b) ++ bs ≡ put_uint k acc ++ (b ∷ bs)
unfolding put_uint
put_uint-shift k acc b bs h =
    let high : (acc * 256 + b) / 256 ≡ acc = omega arith in
    let low : (acc * 256 + b) % 256 ≡ b = omega arith in
    rw (high, low) (append_assoc (put_uint k acc) (b ∷ []) bs)

put_uint-get_uint_from :
    (k acc : ℕ) (bs : List ℕ)
    → All IsByte bs
    → put_uint (length bs + k) (get_uint acc bs) ≡ put_uint k acc ++ bs
unfolding get_uint
put_uint-get_uint_from k acc [] h = rw append-nil (ap (λ n. put_uint n acc) (omega arith))
put_uint-get_uint_from k acc (b ∷ bs) h =
    ap (λ n. put_uint n (get_uint (acc * 256 + b) bs)) (omega arith)
    ∙ put_uint-get_uint_from (suc k) (acc * 256 + b) bs h.1
    ∙ put_uint-shift k acc b bs h.0

-- Writing what was read gives the bytes back.
pub put_uint-get_uint : (bs : List ℕ) → All IsByte bs → put_uint (length bs) (get_uint 0 bs) ≡ bs
unfolding put_uint
put_uint-get_uint bs h =
    let e : length bs ≡ length bs + 0 = omega arith in
    ap (λ n. put_uint n (get_uint 0 bs)) e ∙ put_uint-get_uint_from 0 0 bs h

pub All-put_uint : (n v : ℕ) → All IsByte (put_uint n v)
unfolding put_uint
All-put_uint zero v = tt
All-put_uint (suc n) v =
    All-append IsByte (put_uint n (v / 256)) (v % 256 ∷ []) (All-put_uint n (v / 256)) (omega arith)

bound_step :
    (x acc b p q : ℕ) → b < 256 → x < (acc * 256 + b + 1) * p → q ≡ 256 * p → x < (acc + 1) * q
bound_step x acc b p q hb hx hq =
    let slack : (acc * 256 + b + 1) * p ≤ (acc * 256 + 256) * p = grind arith in rw hq (omega arith)

get_uint_bound :
    (acc : ℕ) (bs : List ℕ) → All IsByte bs → get_uint acc bs < (acc + 1) * 256 ^ length bs
unfolding get_uint
get_uint_bound acc [] h = omega arith
get_uint_bound acc (b ∷ bs) h =
    bound_step _ acc b (256 ^ length bs) _ h.0 (get_uint_bound (acc * 256 + b) bs h.1)
      (omega (arith, pow-suc 256 (length bs)))

-- What `n` bytes spell is below `256 ^ n`.
pub get_uint-lt : (bs : List ℕ) → All IsByte bs → get_uint 0 bs < 256 ^ length bs
get_uint-lt bs h = omega (arith, get_uint_bound 0 bs h)
