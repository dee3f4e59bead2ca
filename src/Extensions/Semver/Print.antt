-- ===== src/Extensions/Semver/Print.antt =====
-- A version that src/domain/extensions/semver.js prints is parsed back.
use oncall_backend_private.Prelude.{
  ℕ, zero, suc, ◌+◌, ◌/◌, ◌%◌, ◌<◌, ◌≡◌, refl, ap, ◌∙◌, Bool, true, false, some, [], ◌∷◌, ltb,
  if◌then◌else◌, arith, All,
}
use oncall_backend_private.Extensions.Semver.{
  Version, Text, is_digit, is_space, is_blank, trim, trim_start, trim_end, span_digits, number_from,
  number_at, after_dot, match_core, parse, show, show_on, print,
}

span-show :
    (fuel n : ℕ) (rest : Text)
    → span_digits (show_on fuel n rest)
      ≡ (show_on fuel n (span_digits rest).0, (span_digits rest).1)
unfolding show_on span_digits
span-show zero n rest = refl
span-show (suc fuel) n rest = ground (arith, span-show fuel (n / 10) ((48 + n % 10) ∷ rest))

number-show :
    (fuel n : ℕ) (rest : Text) → n < fuel → number_from 0 (show_on fuel n rest) ≡ number_from n rest
unfolding show_on number_from
number-show zero n rest h = ground (arith, h)
number-show (suc fuel) n rest h =
    ground (arith, h, number-show fuel (n / 10) ((48 + n % 10) ∷ rest))

blank-show : (fuel n : ℕ) (c : ℕ) (rest : Text) → is_blank (show_on fuel n (c ∷ rest)) ≡ false
unfolding show_on
blank-show zero n c rest = refl
blank-show (suc fuel) n c rest = ground (arith, blank-show fuel (n / 10) (48 + n % 10) (c ∷ rest))

nonblank-show : (n : ℕ) (rest : Text) → is_blank (show_on (suc n) n rest) ≡ false
unfolding show_on
nonblank-show n rest = ground (arith, blank-show n (n / 10) (48 + n % 10) rest)

dot-show : (rest : Text) → span_digits (46 ∷ rest) ≡ ([], 46 ∷ rest)
unfolding span_digits
dot-show rest = refl

-- A text that starts with a digit.
abbrev pub starts_with_digit : Text → Bool
starts_with_digit [] = false
starts_with_digit (c ∷ cs) = is_digit c

starts-show :
    (fuel n c : ℕ) (rest : Text)
    → is_digit c ≡ true
    → starts_with_digit (show_on fuel n (c ∷ rest)) ≡ true
unfolding show_on
starts-show zero n c rest h = h
starts-show (suc fuel) n c rest h =
    ground (arith, starts-show fuel (n / 10) (48 + n % 10) (c ∷ rest))

pub starts-print : (p : Version) → starts_with_digit (print p) ≡ true
unfolding print show_on
starts-print p =
    let rest = 46 ∷ show p.minor (46 ∷ show p.patch []) in
    ground (arith, starts-show p.major (p.major / 10) (48 + p.major % 10) rest)

abbrev pub IsPlain : Text → Type 0
IsPlain = All (λ c. is_space c ≡ false)

show-IsPlain : (fuel n : ℕ) (rest : Text) → IsPlain rest → IsPlain (show_on fuel n rest)
unfolding show_on
show-IsPlain zero n rest h = h
show-IsPlain (suc fuel) n rest h =
    pick (ltb n 10) digit (show-IsPlain fuel (n / 10) ((48 + n % 10) ∷ rest) digit)
  where
    digit : IsPlain ((48 + n % 10) ∷ rest)
    digit = (ground arith, h)

    pick :
        (b : Bool)
        → IsPlain ((48 + n % 10) ∷ rest)
        → IsPlain (show_on fuel (n / 10) ((48 + n % 10) ∷ rest))
        → IsPlain (if b then (48 + n % 10) ∷ rest else show_on fuel (n / 10) ((48 + n % 10) ∷ rest))
    pick true g k = g
    pick false g k = k

trim_end-plain : (cs : Text) → IsPlain cs → trim_end cs ≡ cs
unfolding trim_end
trim_end-plain [] h = refl
trim_end-plain (c ∷ cs) (h, hs) = ground (arith, h, trim_end-plain cs hs)

pub trim_start-plain : (cs : Text) → IsPlain cs → trim_start cs ≡ cs
unfolding trim_start
trim_start-plain [] h = refl
trim_start-plain (c ∷ cs) (h, hs) = ground (arith, h)

pub trim-plain : (cs : Text) → IsPlain cs → trim cs ≡ cs
trim-plain cs h = rw (trim_start-plain cs h) (trim_end-plain cs h)

-- A number in front of a text that does not start with a digit.
number_at-show :
    (n : ℕ) (rest : Text) → span_digits rest ≡ ([], rest) → number_at (show n rest) ≡ some (n, rest)
unfolding number_at number_from
number_at-show n rest h =
    let spanned =
      span-show (suc n) n rest ∙ ap (λ (p : Text × Text). (show_on (suc n) n p.0, p.1)) h in
    ground (arith, spanned, nonblank-show n [], number-show (suc n) n [])

pub print-IsPlain : (p : Version) → IsPlain (print p)
unfolding print
print-IsPlain p =
    show-IsPlain (suc p.major) p.major _
      (refl, show-IsPlain (suc p.minor) p.minor _ (refl, show-IsPlain (suc p.patch) p.patch [] tt))

pub match_core-print : (p : Version) → match_core (print p) ≡ some p
unfolding match_core print after_dot span_digits
match_core-print p =
    let patch = show p.patch [] in
    let minor = show p.minor (46 ∷ patch) in
    ground (
      arith,
      number_at-show p.major (46 ∷ minor) (dot-show minor),
      number_at-show p.minor (46 ∷ patch) (dot-show patch),
      number_at-show p.patch [] refl,
    )

-- The text that a version is printed as is parsed to the version.
pub parse-print : (p : Version) → parse (print p) ≡ some p
unfolding parse
parse-print p = rw (trim-plain (print p) (print-IsPlain p)) (match_core-print p)
