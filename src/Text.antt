-- ===== src/Text.antt =====
-- Texts as lists of their bytes, and what the program takes from Go's strings, bufio and fmt. A byte from 0x80 on
-- is no white space here: the texts that the program cuts are ASCII.
pub mod Hex
pub mod Decimal
use Prim.Native.Char.{code}
use Prim.Native.String.{String}
use goet.Prelude.{
  ℕ, ◌≤◌, ◌≡◌, refl, ap, List, [], ◌∷◌, ◌++◌, Bool, true, false, ◌&&◌, ◌||◌, not, arith, Option,
  none, some, inl, inr, Bool-cases, ==_refl,
}
use goet.Prelude.{ltb, leb, ◌==◌, ==→eq, if◌then◌else◌, All}

abbrev pub Bytes : Type 0
Bytes = List ℕ

abbrev pub codes : String → Bytes
codes String.[] = []
codes (String.◌∷◌ c s) = code c ∷ codes s

-- `==` on texts
abbrev pub is_same : Bytes → Bytes → Bool
is_same [] [] = true
is_same (b ∷ bs) (c ∷ cs) = (b == c) && is_same bs cs
is_same _ _ = false

abbrev pub is_empty : Bytes → Bool
is_empty [] = true
is_empty (c ∷ s) = false

-- strings.HasPrefix
abbrev pub has_prefix : Bytes → Bytes → Bool
has_prefix s [] = true
has_prefix [] (c ∷ cs) = false
has_prefix (b ∷ bs) (c ∷ cs) = (b == c) && has_prefix bs cs

-- The part after the last slash.
unfoldable pub after_slash : Bytes → Bytes → Bytes
after_slash [] last = last
after_slash (c ∷ s) last = if c == b'/' then after_slash s s else after_slash s last

abbrev pub or_slash : Bytes → Bytes
or_slash [] = b'/' ∷ []
or_slash (c ∷ s) = c ∷ s

abbrev pub is_slash : ℕ → Bool
is_slash c = c == b'/'

abbrev pub is_space : ℕ → Bool
is_space c = (leb 9 c && leb c 13) || c == 32

-- strings.TrimLeftFunc and TrimRightFunc
unfoldable pub trim_left : (ℕ → Bool) → Bytes → Bytes
trim_left cut [] = []
trim_left cut (c ∷ s) = let rest = trim_left cut s in if cut c then rest else c ∷ s

unfoldable pub trim_right : (ℕ → Bool) → Bytes → Bytes
trim_right cut [] = []
trim_right cut (c ∷ s) =
    let rest = trim_right cut s in if is_empty rest && cut c then [] else c ∷ rest

-- filepath.Base
unfoldable pub base : Bytes → Bytes
base [] = b'.' ∷ []
base (c ∷ path) = let bare = trim_right is_slash (c ∷ path) in or_slash (after_slash bare bare)

abbrev pub trim : (ℕ → Bool) → Bytes → Bytes
trim cut s = trim_right cut (trim_left cut s)

-- strings.TrimSpace
abbrev pub trim_space : Bytes → Bytes
trim_space s = trim is_space s

abbrev pub push : Bytes → List Bytes → List Bytes
push [] words = words
push (c ∷ w) words = (c ∷ w) ∷ words

-- The word at the start, which may be empty, and the words after it.
unfoldable pub split_words : Bytes → Bytes × List Bytes
split_words [] = ([], [])
split_words (c ∷ s) =
    let (w, words) = split_words s in if is_space c then ([], push w words) else (c ∷ w, words)

-- strings.Fields
unfoldable pub fields : Bytes → List Bytes
fields s = let (w, words) = split_words s in push w words

pub is_same-eq : (s t : Bytes) → is_same s t ≡ true → s ≡ t
is_same-eq [] [] h = refl
is_same-eq [] (c ∷ t) h = cc
is_same-eq (b ∷ s) [] h = cc
is_same-eq (b ∷ s) (c ∷ t) h = elim (Bool-cases (b == c)) [
  | inl same ↦
      let rest : is_same s t ≡ true = ground arith in
      let tails = is_same-eq s t rest in let heads = ==→eq b c same in cc
  | inr other ↦ ground arith
]

pub is_same_refl : (s : Bytes) → is_same s s ≡ true
is_same_refl [] = refl
is_same_refl (c ∷ s) = rw (==_refl c, is_same_refl s) refl

-- No byte of the text is cut.
abbrev pub IsUncut : (ℕ → Bool) → Bytes → Type 0
IsUncut cut s = All (λ c. cut c ≡ false) s

abbrev pub IsWord : Bytes → Type 0
IsWord s = (is_empty s ≡ false) × IsUncut is_space s

module _ (cut : ℕ → Bool) where
  pub trim_left_uncut : (s : Bytes) → IsUncut cut s → trim_left cut s ≡ s
  unfolding trim_left
  trim_left_uncut [] h = refl
  trim_left_uncut (c ∷ s) h = rw h.0 refl

  pub trim_right_uncut : (s : Bytes) → IsUncut cut s → trim_right cut s ≡ s
  unfolding trim_right
  trim_right_uncut [] h = refl
  trim_right_uncut (c ∷ s) h = rw (trim_right_uncut s h.1, h.0) (ground arith)

  pub trim_uncut : (s : Bytes) → IsUncut cut s → trim cut s ≡ s
  trim_uncut s h = rw (trim_left_uncut s h) (trim_right_uncut s h)

  -- A text that ends with what is cut.
  pub trim_right_end :
      (s : Bytes) (c : ℕ) → cut c ≡ true → trim_right cut (s ++ (c ∷ [])) ≡ trim_right cut s
  unfolding trim_right
  trim_right_end [] c h = rw h refl
  trim_right_end (b ∷ s) c h = rw (trim_right_end s c h) refl

  pub trim_left_start : (s t : Bytes) (c : ℕ) → cut c ≡ false → trim_left cut (c ∷ s) ≡ c ∷ s
  unfolding trim_left
  trim_left_start s t c h = rw h refl

split_words_word : (w s : Bytes) → IsUncut is_space w → split_words (w ++ (32 ∷ s)) ≡ (w, fields s)
unfolding split_words fields
split_words_word [] s h = refl
split_words_word (c ∷ w) s h = rw (h.0, split_words_word w s h.1) refl

push_word : (w : Bytes) (words : List Bytes) → is_empty w ≡ false → push w words ≡ w ∷ words
push_word [] words h = cc
push_word (c ∷ w) words h = refl

pub fields_word : (w s : Bytes) → IsWord w → fields (w ++ (32 ∷ s)) ≡ w ∷ fields s
unfolding fields
fields_word w s h = rw (split_words_word w s h.1) (push_word w (fields s) h.0)

split_words_last : (w : Bytes) → IsUncut is_space w → split_words w ≡ (w, [])
unfolding split_words
split_words_last [] h = refl
split_words_last (c ∷ w) h = rw (h.0, split_words_last w h.1) refl

pub fields_last : (w : Bytes) → IsWord w → fields w ≡ w ∷ []
unfolding fields
fields_last w h = rw (split_words_last w h.1) (push_word w [] h.0)

module _ (cut : ℕ → Bool) where
  -- A text that ends with what is not cut.
  pub trim_right_stop :
      (s : Bytes) (c : ℕ) → cut c ≡ false → trim_right cut (s ++ (c ∷ [])) ≡ s ++ (c ∷ [])
  unfolding trim_right
  trim_right_stop [] c h = rw h refl
  trim_right_stop (b ∷ s) c h = rw (trim_right_stop s c h) (if_same (cut b) s c b)
    where
      if_same :
          (x : Bool) (s : Bytes) (c b : ℕ)
          → (if is_empty (s ++ (c ∷ [])) && x then [] else b ∷ (s ++ (c ∷ [])))
            ≡ b ∷ (s ++ (c ∷ []))
      if_same x [] c b = refl
      if_same x (d ∷ s) c b = refl
