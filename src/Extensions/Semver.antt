-- ===== src/Extensions/Semver.antt =====
-- The versions and ranges of src/domain/extensions/semver.js. A text is the list of its character codes; a
-- number is unbounded, where the source has a double.
pub mod Print
pub mod Ranges
use oncall_backend_private.Prelude.{
  ℕ, zero, suc, ◌+◌, ◌*◌, ◌-◌, ◌/◌, ◌%◌, Bool, true, false, not, ◌&&◌, ◌||◌, Option, none, some,
  List, [], ◌∷◌, ◌++◌, ltb, leb, ◌==◌, if◌then◌else◌,
}

pub record Version : Type 0 where
  pub major : ℕ
  pub minor : ℕ
  pub patch : ℕ

abbrev pub Text : Type 0
Text = List ℕ

abbrev pub is_digit : ℕ → Bool
is_digit c = leb 48 c && leb c 57

-- The white space of ASCII, for `trim` and `\s`.
abbrev pub is_space : ℕ → Bool
is_space c = c == 32 || leb 9 c && leb c 13

unfoldable pub trim_start : Text → Text
trim_start [] = []
trim_start (c ∷ cs) = let rest = trim_start cs in if is_space c then rest else c ∷ cs

abbrev pub is_blank : Text → Bool
is_blank [] = true
is_blank (c ∷ cs) = false

unfoldable pub trim_end : Text → Text
trim_end [] = []
trim_end (c ∷ cs) = let rest = trim_end cs in if is_blank rest && is_space c then [] else c ∷ rest

-- `String(v).trim()`.
abbrev pub trim : Text → Text
trim cs = trim_end (trim_start cs)

-- `\d+` at the start of a text: the digits and what follows them.
unfoldable pub span_digits : Text → Text × Text
span_digits [] = ([], [])
span_digits (c ∷ cs) =
    let (ds, rest) = span_digits cs in if is_digit c then (c ∷ ds, rest) else ([], c ∷ cs)

-- `+m[1]`.
unfoldable pub number_from : ℕ → Text → ℕ
number_from n [] = n
number_from n (c ∷ cs) = number_from (n * 10 + (c - 48)) cs

unfoldable pub number_at : Text → Option (ℕ × Text)
number_at cs =
    let (ds, rest) = span_digits cs in if is_blank ds then none else some (number_from 0 ds, rest)

infixl 1 ◌>>=◌
abbrev pub ◌>>=◌ : {A B : Type 0} → Option A → (A → Option B) → Option B
none >>= f = none
some a >>= f = f a

-- A dot of the pattern.
unfoldable pub after_dot : Text → Option Text
after_dot [] = none
after_dot (c ∷ cs) = if c == 46 then some cs else none

-- The pattern of three numbers, up to the end of the text.
unfoldable pub match_core : Text → Option Version
match_core cs = do
  (major, r1) ← number_at cs
  r2 ← after_dot r1
  (minor, r3) ← number_at r2
  r4 ← after_dot r3
  (patch, r5) ← number_at r4
  if is_blank r5 then some (record { major = major; minor = minor; patch = patch }) else none

-- `parse`.
unfoldable pub parse : Text → Option Version
parse v = match_core (trim v)

unfoldable pub is_valid : Text → Bool
is_valid v = elim (parse v) [ none ↦ false | some p ↦ true ]

-- The signs that `compare` gives, and the comparison of two parsed versions.
pub data Sign : Type 0 where
  below equal above : Sign

abbrev order_then : ℕ → ℕ → Sign → Sign
order_then a b rest = if a == b then rest else if ltb a b then below else above

unfoldable pub compare_parts : Version → Version → Sign
compare_parts a b =
    order_then a.major b.major (order_then a.minor b.minor (order_then a.patch b.patch equal))

-- `compare`: none where the source throws.
unfoldable pub compare : Text → Text → Option Sign
compare a b = do pa ← parse a; pb ← parse b; some (compare_parts pa pb)

-- The text of a number in a template (`${n}`): its digits in front of a text, on fuel above the number.
unfoldable pub show_on : ℕ → ℕ → Text → Text
show_on zero n rest = rest
show_on (suc fuel) n rest =
    let more = show_on fuel (n / 10) ((48 + n % 10) ∷ rest) in
    if ltb n 10 then (48 + n % 10) ∷ rest else more

abbrev pub show : ℕ → Text → Text
show n rest = show_on (suc n) n rest

-- `${major}.${minor}.${patch}`.
unfoldable pub print : Version → Text
print p = show p.major (46 ∷ show p.minor (46 ∷ show p.patch []))

pub data Operator : Type 0 where
  exactly more at_least less at_most tilde caret : Operator

-- The operator of a range, and what follows it.
abbrev or_equal : Operator → Operator → Text → Operator × Text
or_equal op op_equal [] = (op, [])
or_equal op op_equal (c ∷ cs) = if c == 61 then (op_equal, cs) else (op, c ∷ cs)

unfoldable pub operator_of : Text → Operator × Text
operator_of [] = (exactly, [])
operator_of (c ∷ cs) =
    if c == 62
    then or_equal more at_least cs
    else if c == 60
    then or_equal less at_most cs
    else if c == 61
    then (exactly, cs)
    else if c == 94
    then (caret, cs)
    else if c == 126
    then (tilde, cs)
    else (exactly, c ∷ cs)

-- The first version above a range.
unfoldable pub upper_of : Operator → Version → Version
upper_of tilde p = record { major = p.major; minor = suc p.minor; patch = 0 }
upper_of _ p =
    if ltb 0 p.major
    then record { major = suc p.major; minor = 0; patch = 0 }
    else if ltb 0 p.minor
    then record { major = 0; minor = suc p.minor; patch = 0 }
    else record { major = 0; minor = 0; patch = suc p.patch }

abbrev pub is_above : Sign → Bool
is_above above = true
is_above _ = false

abbrev pub is_equal : Sign → Bool
is_equal equal = true
is_equal _ = false

abbrev pub is_below : Sign → Bool
is_below below = true
is_below _ = false

abbrev pub below_text : Option Sign → Bool
below_text none = false
below_text (some c) = is_below c

-- The switch of `satisfies`; the bound of a tilde or caret is printed and compared as a text.
unfoldable pub in_range : Operator → Text → Version → Sign → Bool
in_range exactly version base c = is_equal c
in_range more version base c = is_above c
in_range at_least version base c = not (is_below c)
in_range less version base c = is_below c
in_range at_most version base c = not (is_above c)
in_range op version base c =
    not (is_below c) && below_text (compare version (print (upper_of op base)))

-- The ranges of any version: `*`, `x` and the empty text.
abbrev pub is_any : Text → Bool
is_any [] = true
is_any (c ∷ []) = c == 42 || c == 120
is_any _ = false

-- `satisfies`.
unfoldable pub satisfies : Text → Text → Bool
satisfies version range =
    let r = trim range in
    let (op, rest) = operator_of r in
    elim (parse version) [
      | none ↦ false
      | some v ↦ if is_any r then true else elim (match_core (trim_start rest)) [
        | none ↦ false
        | some base ↦ in_range op version base (compare_parts v base)
      ]
    ]
