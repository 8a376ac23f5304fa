-- ===== src/Command/Handover.antt =====
-- The session that spawnSSH of internal/client/ssh.go asks for is the one that main of cmd/goet/main.go
-- starts on the remote host, if ssh and the remote shell pass the words on as they are.
use goet.Prelude.{
  ℕ, zero, suc, ◌/◌, ◌^◌, ◌<◌, ◌≡◌, refl, sym, ap, ap₂, ◌∙◌, arith, inl, inr, List, [], ◌∷◌, ◌++◌,
  append-nil, Bool, true, false, ◌&&◌, ◌||◌, not, Option, some, Bool-cases, All, All-take,
}
use goet.Prelude.{lt→ltb, ltb, ◌==◌, ==→eq, if◌then◌else◌, length, take, drop}
use goet.Protocol.Message.{ℤ, pos, negsuc}
use goet.Catchup
use goet.Catchup.{default_buffer_size}
use goet.Text.{Bytes, codes, is_same, is_empty, is_space, trim_uncut}
use goet.Text.Hex
use goet.Text.Hex.{AreBytes, decode-encode, encode-IsUncut}
use goet.Text.Decimal
use goet.Text.Decimal.{itoa, IsNumeral, itoa-IsNumeral}
use goet.Bootstrap.{session_command, session_id_of, passkey_line, replay_args, cut_line}
use goet.Bootstrap.PrintedPort.{cut_line_word}
use goet.Command.{
  Dispatch, session, dispatch, dispatch_flags, parse_global_flags, GlobalFlags, no_flags, set_flag,
  with_rest, read_flags, global_flag, other, session_config, int_or_zero, passkey_in, passkey_of,
  reverse,
}
use goet.Command.Flags.{parse_flags, shape, cut_equals, find_value}

-- A text that is an argument to flag and no flag: it starts with a byte that is no minus.
abbrev IsPlain : Bytes → Type 0
IsPlain [] = ⊥
IsPlain (c ∷ s) = (c == b'-') ≡ false

global_flag_plain : (s : Bytes) → IsPlain s → global_flag s ≡ other
unfolding global_flag
global_flag_plain [] h = absurd h
global_flag_plain (c ∷ s) h = rw h refl

-- The number that the session takes for its replay size.
abbrev pub told : ℤ → ℤ
told (pos n) = if ltb 0 n && not (n == default_buffer_size) then pos n else pos 0
told (negsuc n) = pos 0

-- The two ends keep the same number of bytes.
told_same : (z : ℤ) → Catchup.new (told z) ≡ Catchup.new z
unfolding Catchup.new
told_same (negsuc n) = refl
told_same (pos zero) = refl
told_same (pos (suc n)) = elim (Bool-cases (suc n == default_buffer_size)) [
  | inl default ↦
      rw (lt→ltb 0 (suc n) (omega arith), default)
        (ap Catchup.new_sized (sym (==→eq (suc n) default_buffer_size default)))
  | inr distinct ↦ rw (lt→ltb 0 (suc n) (omega arith), distinct) refl
]

passkey_read :
    (k : Bytes) → AreBytes k → length k ≡ 32 → passkey_in (cut_line (passkey_line k)) ≡ some k
passkey_read k h full =
    let plain = encode-IsUncut k h in
    ap passkey_in (cut_line_word (Hex.encode k) [] plain)
    ∙ ap (λ t. passkey_of (Hex.decode t)) (trim_uncut is_space (Hex.encode k) plain)
    ∙ ap passkey_of (decode-encode k h)
    ∙ rw full refl

-- The arguments after the path of goet.
abbrev pub session_words : Bytes → ℤ → List Bytes
session_words k z = drop 1 (session_command (codes "goet") (session_id_of k) z)

reverse_twice : (xs ys zs : List Bytes) → reverse (reverse xs ys) zs ≡ reverse ys (xs ++ zs)
unfolding reverse
reverse_twice [] ys zs = refl
reverse_twice (x ∷ xs) ys zs = reverse_twice xs (x ∷ ys) zs

AreOther : List Bytes → Type 0
AreOther args = All (λ arg. global_flag arg ≡ other) args

read_flags_others :
    (args : List Bytes) (g : GlobalFlags)
    → AreOther args
    → read_flags args g ≡ record g { rest = reverse args g.rest }
unfolding read_flags reverse AreOther
read_flags_others [] g h = refl
read_flags_others (arg ∷ []) g h = ap (λ f. set_flag f arg g) h.0
read_flags_others (arg ∷ next ∷ args) g h =
    rw h.0 (read_flags_others (next ∷ args) (with_rest arg g) h.1)

parse_others :
    (args : List Bytes) → AreOther args → parse_global_flags args ≡ record no_flags { rest = args }
unfolding parse_global_flags reverse
parse_others args h =
    ap {A = GlobalFlags} (λ g. record g { rest = reverse g.rest [] })
      (read_flags_others args no_flags h)
    ∙ ap (λ r. record no_flags { rest = r }) (reverse_twice args [] [] ∙ append-nil args)

encode-IsPlain : (s : Bytes) → AreBytes s → is_empty s ≡ false → IsPlain (Hex.encode s)
unfolding Hex.encode
encode-IsPlain [] h some_bytes = cc
encode-IsPlain (b ∷ s) h some_bytes = Hex.hex_digit_no_minus (b / 16) (omega (arith, h.0))

numeral-IsPlain : (s : Bytes) → IsNumeral s → IsPlain s
numeral-IsPlain [] h = h
numeral-IsPlain (c ∷ s) h = ground (arith, h.0, h.1)

replay_others : (z : ℤ) → AreOther (replay_args z)
unfolding AreOther global_flag
replay_others (negsuc n) = tt
replay_others (pos n) = elim (Bool-cases (ltb 0 n && not (n == default_buffer_size))) [
  | inl passed ↦
      rw passed
        (refl, (global_flag_plain (itoa n) (numeral-IsPlain (itoa n) (itoa-IsNumeral n)), tt))
  | inr default ↦ rw default tt
]

session_id_of-IsPlain : (k : Bytes) → AreBytes k → length k ≡ 32 → IsPlain (session_id_of k)
session_id_of-IsPlain [] h full = absurd (omega (arith, full))
session_id_of-IsPlain (b ∷ k) h full =
    encode-IsPlain (take 4 (b ∷ k)) (All-take (λ c. c < 256) 4 (b ∷ k) h) refl

named_plain : (s : Bytes) → IsPlain s → is_empty s ≡ false
named_plain [] h = absurd h
named_plain (c ∷ s) h = refl

words_others : (k : Bytes) (z : ℤ) → IsPlain (session_id_of k) → AreOther (session_words k z)
unfolding AreOther global_flag
words_others k z plain =
    (refl, (refl, (global_flag_plain (session_id_of k) plain, (refl, (refl, replay_others z)))))

session_first :
    (b : Bool) (args : List Bytes) (d : Dispatch)
    → (if b || true then session args else d) ≡ session args
session_first true args d = refl
session_first false args d = refl

dispatch_words :
    (base : Bytes) (k : Bytes) (z : ℤ)
    → IsPlain (session_id_of k)
    → dispatch base (session_words k z) ≡ session (session_words k z)
unfolding dispatch dispatch_flags
dispatch_words base k z plain =
    let words = session_words k z in
    ap (dispatch_flags base) (parse_others words (words_others k z plain))
    ∙ session_first (is_same base (codes "goet-session")) words _

-- The ints of a replay size that an int can be, on a 64-bit machine.
abbrev pub IsInt : ℤ → Type 0
IsInt (pos n) = n < 2 ^ 63
IsInt (negsuc n) = n < 2 ^ 63

module _ (parse_int : Bytes → Option ℤ)
    (reads : (n : ℕ) → n < 2 ^ 63 → parse_int (itoa n) ≡ some (pos n)) where
  zero_read : parse_int (codes "0") ≡ some (pos 0)
  unfolding itoa Decimal.digits
  zero_read = reads 0 (omega arith)

  config_short :
      (id stdin : Bytes) (log : Bool) (k : Bytes)
      → is_empty id ≡ false
      → passkey_in (cut_line stdin) ≡ some k
      → session_config parse_int
          (codes "session" ∷ codes "-f" ∷ id ∷ codes "-p" ∷ codes "0" ∷ [])
          stdin
          log
        ≡ some
            (record { session_id = id; port = pos 0; passkey = k; log = log; replay_size = pos 0 })
  unfolding session_config parse_flags shape cut_equals find_value
  config_short id stdin log k named key =
      rw (zero_read, named, key)
        (ap
          (λ o. some (record {
            session_id = id;
            port = int_or_zero o;
            passkey = k;
            log = log;
            replay_size = pos 0;
          }))
          zero_read)

  config_long :
      (n : ℕ) (id stdin : Bytes) (log : Bool) (k : Bytes)
      → n < 2 ^ 63
      → is_empty id ≡ false
      → passkey_in (cut_line stdin) ≡ some k
      → session_config parse_int
          (codes "session"
            ∷ codes "-f"
            ∷ id
            ∷ codes "-p"
            ∷ codes "0"
            ∷ codes "-replay-size"
            ∷ itoa n
            ∷ [])
          stdin
          log
        ≡ some
            (record { session_id = id; port = pos 0; passkey = k; log = log; replay_size = pos n })
  unfolding session_config parse_flags shape cut_equals find_value
  config_long n id stdin log k small named key =
      rw (reads n small, zero_read, named, key)
        (ap₂
          (λ o r. some (record {
            session_id = id;
            port = int_or_zero o;
            passkey = k;
            log = log;
            replay_size = int_or_zero r;
          }))
          zero_read (reads n small))

  config_words :
      (z : ℤ) (k stdin : Bytes) (log : Bool)
      → IsInt z
      → is_empty (session_id_of k) ≡ false
      → passkey_in (cut_line stdin) ≡ some k
      → session_config parse_int (session_words k z) stdin log
        ≡ some (record {
          session_id = session_id_of k;
          port = pos 0;
          passkey = k;
          log = log;
          replay_size = told z;
        })
  config_words (negsuc n) k stdin log small named key =
      config_short (session_id_of k) stdin log k named key
  config_words (pos n) k stdin log small named key =
      elim (Bool-cases (ltb 0 n && not (n == default_buffer_size))) [
        | inl passed ↦ rw passed (config_long n (session_id_of k) stdin log k small named key)
        | inr default ↦ rw default (config_short (session_id_of k) stdin log k named key)
      ]

  -- The words that spawnSSH passes to goet on the remote host, for a passkey of 32 bytes and any replay size: the
  -- program there starts a session, with the session id of the passkey, on a port that the system chooses,
  -- and with the passkey that stands on its stdin. A replay size that is passed is the size given, and a
  -- session without one keeps as much as the client does with the size given. It is used that ParseInt
  -- reads what Itoa writes.
  pub handover :
      (base : Bytes) (k : Bytes) (z : ℤ) (log : Bool)
      → AreBytes k
      → length k ≡ 32
      → IsInt z
      → (dispatch base (session_words k z) ≡ session (session_words k z))
        × (session_config parse_int (session_words k z) (passkey_line k) log
            ≡ some (record {
              session_id = session_id_of k;
              port = pos 0;
              passkey = k;
              log = log;
              replay_size = told z;
            }))
        × (Catchup.new (told z) ≡ Catchup.new z)
  handover base k z log bytes full small =
      let plain = session_id_of-IsPlain k bytes full in
      (
        dispatch_words base k z plain,
        config_words z k (passkey_line k) log small (named_plain (session_id_of k) plain)
            (passkey_read k bytes full),
        told_same z,
      )
