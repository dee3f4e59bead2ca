-- ===== src/Extensions/Semver/Ranges.antt =====
-- Which versions a range of src/domain/extensions/semver.js allows.
use oncall_backend_private.Prelude.{
  ◌≡◌, refl, Bool, true, false, not, ◌&&◌, ◌||◌, some, [], ◌∷◌, ◌++◌, leb, ltb, ◌==◌, if◌then◌else◌,
  arith, All-append,
}
use oncall_backend_private.Extensions.Semver.{
  Version, Text, is_space, compare_parts, compare, print, Operator, exactly, more, at_least, less,
  at_most, tilde, caret, operator_of, upper_of, in_range, is_any, satisfies, is_below,
}
use oncall_backend_private.Extensions.Semver.Print.{
  IsPlain, trim-plain, trim_start-plain, print-IsPlain, match_core-print, parse-print,
  starts_with_digit, starts-print,
}

-- How an operator is written.
pub sign_text : Operator → Text
sign_text exactly = []
sign_text more = 62 ∷ []
sign_text at_least = 62 ∷ 61 ∷ []
sign_text less = 60 ∷ []
sign_text at_most = 60 ∷ 61 ∷ []
sign_text tilde = 126 ∷ []
sign_text caret = 94 ∷ []

-- The order of versions: by the first number in which they differ.
abbrev pub earlier : Version → Version → Bool
earlier a b =
    ltb a.major b.major
    || a.major == b.major && (ltb a.minor b.minor || a.minor == b.minor && ltb a.patch b.patch)

abbrev pub identical : Version → Version → Bool
identical a b = a.major == b.major && (a.minor == b.minor && a.patch == b.patch)

-- What a range means: a tilde fixes the major and the minor number, a caret the first number that is not 0.
abbrev pub allows : Operator → Version → Version → Bool
allows exactly v b = identical v b
allows more v b = earlier b v
allows at_least v b = not (earlier v b)
allows less v b = earlier v b
allows at_most v b = not (earlier b v)
allows tilde v b = v.major == b.major && (v.minor == b.minor && leb b.patch v.patch)
allows caret v b =
    if ltb 0 b.major
    then v.major == b.major && not (earlier v b)
    else if ltb 0 b.minor
    then v.major == 0 && (v.minor == b.minor && leb b.patch v.patch)
    else identical v b

operator_of-sign :
    (op : Operator) (t : Text)
    → starts_with_digit t ≡ true
    → operator_of (sign_text op ++ t) ≡ (op, t)
unfolding operator_of sign_text
operator_of-sign op [] h = ground (arith, h)
operator_of-sign op (c ∷ cs) h = ground (arith, h)

not_any :
    (op : Operator) (t : Text) → starts_with_digit t ≡ true → is_any (sign_text op ++ t) ≡ false
unfolding sign_text
not_any op [] h = ground (arith, h)
not_any op (c ∷ cs) h = ground (arith, h)

sign-IsPlain : (op : Operator) → IsPlain (sign_text op)
unfolding sign_text
sign-IsPlain exactly = tt
sign-IsPlain more = (refl, tt)
sign-IsPlain at_least = (refl, (refl, tt))
sign-IsPlain less = (refl, tt)
sign-IsPlain at_most = (refl, (refl, tt))
sign-IsPlain tilde = (refl, tt)
sign-IsPlain caret = (refl, tt)

compare-print : (a b : Version) → compare (print a) (print b) ≡ some (compare_parts a b)
unfolding compare
compare-print a b = ground (arith, parse-print a, parse-print b)

tilde_bound :
    (v b : Version)
    → (not (is_below (compare_parts v b)) && is_below (compare_parts v (upper_of tilde b)))
      ≡ allows tilde v b
unfolding compare_parts upper_of
tilde_bound v b = ground arith

caret_bound :
    (v b : Version)
    → (not (is_below (compare_parts v b)) && is_below (compare_parts v (upper_of caret b)))
      ≡ allows caret v b
unfolding compare_parts upper_of
caret_bound v b = ground arith

in_range-allows :
    (op : Operator) (v b : Version) → in_range op (print v) b (compare_parts v b) ≡ allows op v b
unfolding in_range compare_parts
in_range-allows exactly v b = ground arith
in_range-allows more v b = ground arith
in_range-allows at_least v b = ground arith
in_range-allows less v b = ground arith
in_range-allows at_most v b = ground arith
in_range-allows tilde v b = rw (compare-print v (upper_of tilde b)) (tilde_bound v b)
in_range-allows caret v b = rw (compare-print v (upper_of caret b)) (caret_bound v b)

-- For versions and bounds as they are printed, a range allows exactly the versions that its operator means: a
-- caret, those below the next major version, below 0.(minor + 1).0 where the major is 0, and only the
-- version itself where the minor is 0 too.
pub satisfies_iff :
    (op : Operator) (v b : Version) → satisfies (print v) (sign_text op ++ print b) ≡ allows op v b
unfolding satisfies
satisfies_iff op v b =
    let plain = trim-plain (sign_text op ++ print b) (
      All-append (λ c. is_space c ≡ false) (sign_text op) (print b) (sign-IsPlain op)
        (print-IsPlain b)) in
    ground (
      arith,
      plain,
      parse-print v,
      not_any op (print b) (starts-print b),
      operator_of-sign op (print b) (starts-print b),
      trim_start-plain (print b) (print-IsPlain b),
      match_core-print b,
      in_range-allows op v b,
    )
