-- ===== src/Command/Flags.antt =====
-- The package flag of Go, for flags that take a value: Parse of a FlagSet.
use goet.Prelude.{ℕ, List, [], ◌∷◌, Bool, ◌||◌, not, Option, none, some}
use goet.Prelude.{◌==◌, if◌then◌else◌}
use goet.Text.{Bytes, is_same, is_empty}

-- The flags that were set, first first.
abbrev pub Assigned : Type 0
Assigned = List (Bytes × Bytes)

pub record Parsed : Type 0 where
  pub given : Assigned
  pub rest : List Bytes

-- What an argument is to parseOne.
pub data Shape : Type 0 where
  operand terminator bad_flag : Shape
  flag : Bytes → Option Bytes → Shape

abbrev pub before_equals : ℕ → Bytes × Option Bytes → Bytes × Option Bytes
before_equals c (name, value) = (c ∷ name, value)

-- Cut at the first =.
unfoldable pub cut_equals : Bytes → Bytes × Option Bytes
cut_equals [] = ([], none)
cut_equals (c ∷ s) =
    let rest = before_equals c (cut_equals s) in if c == b'=' then ([], some s) else rest

abbrev pub to_flag : Bytes × Option Bytes → Shape
to_flag (name, value) = flag name value

-- After the minuses.
abbrev pub named : Bytes → Shape
named [] = bad_flag
named (c ∷ s) =
    if c == b'-' || c == b'=' then bad_flag else to_flag (before_equals c (cut_equals s))

unfoldable pub shape : Bytes → Shape
shape (c ∷ d ∷ s) =
    if not (c == b'-')
    then operand
    else if d == b'-'
    then (if is_empty s then terminator else named s)
    else named (d ∷ s)
shape _ = operand

abbrev pub assign : Bool → Bytes → Bytes → Option Parsed → Option Parsed
assign good name text none = none
assign good name text (some p) =
    if good then some (record p { given = (name, text) ∷ p.given }) else none

-- `accepts` says whether there is a flag of that name and the text is a value of it. `none` is an
-- error, on which the program exits.
module _ (accepts : Bytes → Bytes → Bool) where
  -- The arguments, what parsing gives after the first, and what it gives after the second.
  abbrev pub parse_one : Shape → List Bytes → Option Parsed → Option Parsed → Option Parsed
  parse_one operand args after_one after_two = some (record { given = []; rest = args })
  parse_one terminator [] after_one after_two = none
  parse_one terminator (arg ∷ args) after_one after_two = some (record { given = []; rest = args })
  parse_one bad_flag args after_one after_two = none
  parse_one (flag name (some text)) args after_one after_two =
      assign (accepts name text) name text after_one
  parse_one (flag name none) (arg ∷ text ∷ args) after_one after_two =
      assign (accepts name text) name text after_two
  parse_one (flag name none) _ after_one after_two = none

  unfoldable pub parse_flags : List Bytes → Option Parsed
  parse_flags [] = some (record { given = []; rest = [] })
  parse_flags (arg ∷ []) = parse_one (shape arg) (arg ∷ []) (parse_flags []) none
  parse_flags (arg ∷ text ∷ args) =
      parse_one (shape arg) (arg ∷ text ∷ args) (parse_flags (text ∷ args)) (parse_flags args)

-- The value set last, if one was set; `found` is the one before.
unfoldable pub find_value : Assigned → Bytes → Option Bytes → Option Bytes
find_value [] name found = found
find_value ((n, text) ∷ given) name found =
    find_value given name (if is_same n name then some text else found)

abbrev pub value_of : Assigned → Bytes → Option Bytes
value_of given name = find_value given name none

abbrev pub text_or : Bytes → Option Bytes → Bytes
text_or default none = default
text_or default (some text) = text
