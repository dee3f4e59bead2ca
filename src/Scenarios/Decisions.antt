-- ===== src/Scenarios/Decisions.antt =====
-- Scenarios of the versions and of the policies.
use oncall_backend_private.Prelude.{
  ℕ, ◌≡◌, refl, true, not, ◌&&◌, none, some, List, [], ◌∷◌, ◌++◌, any, if◌then◌else◌, ltb,
}
use oncall_backend_private.Extensions.Semver.{
  Version, caret, parse, print, satisfies, compare, match_core, number_at, span_digits, trim_end,
  trim_start, show_on, after_dot, compare_parts, number_from,
}
use oncall_backend_private.Extensions.Semver.Print.{parse-print}
use oncall_backend_private.Extensions.Semver.Ranges.{allows, sign_text, satisfies_iff}
use oncall_backend_private.Extensions.Resolver.{
  Manifest, Platform, compatibility_errors, resolve, verify_compatibility,
}
use oncall_backend_private.Extensions.Resolver.Resolved.{IsAnswered, resolve-IsAnswered}
use oncall_backend_private.Policies.{
  Condition, all, negate, leaf, custom, stop, also, Policy, allow, deny, deny_overrides,
  allow_overrides, evaluate,
}
use oncall_backend_private.Policies.Decision.{
  concerns, allows as allows_request, denies, overrides_iff,
}

abbrev newer : Version
newer = record { major = 0; minor = 12; patch = 305 }

abbrev base : Version
base = record { major = 0; minor = 12; patch = 40 }

parse-print_example : parse (print newer) ≡ some newer
parse-print_example = parse-print newer

satisfies_iff_example :
    satisfies (print newer) (sign_text caret ++ print base) ≡ allows caret newer base
satisfies_iff_example = satisfies_iff caret newer base

-- Two extensions, where the first needs the second.
abbrev platform : Platform
platform = record { platform_version = some (print newer); platform_api_range = none }

abbrev maps : Manifest
maps = record {
  id = 7;
  version = print newer;
  api_version = print base;
  minimum_platform_version = print base;
  dependencies = (3, sign_text caret ++ print base) ∷ [];
}

abbrev tiles : Manifest
tiles = record {
  id = 3;
  version = print newer;
  api_version = print base;
  minimum_platform_version = print base;
  dependencies = [];
}

abbrev extensions : List Manifest
extensions = maps ∷ tiles ∷ []

resolve-IsAnswered_example : IsAnswered extensions (resolve extensions platform)
unfolding compatibility_errors verify_compatibility compare parse match_core number_at span_digits
    trim_end trim_start print show_on after_dot compare_parts number_from satisfies
resolve-IsAnswered_example = resolve-IsAnswered extensions platform [] refl

-- A request is the time of the day; a condition may fail on it.
abbrev by_day : Condition ℕ
by_day = all (
    also (leaf true (λ hour. some (ltb 6 hour)))
      (also (negate (custom (λ hour. some (ltb 22 hour)))) stop))

abbrev day_policy : Policy ℕ
day_policy = record {
  policy_id = 1;
  scope = none;
  priority = 5;
  condition = by_day;
  effect = allow;
  enabled = true;
}

abbrev failing_policy : Policy ℕ
failing_policy = record {
  policy_id = 2;
  scope = some 4;
  priority = 9;
  condition = leaf true (λ hour. none);
  effect = deny;
  enabled = true;
}

abbrev rules : List (Policy ℕ)
rules = day_policy ∷ failing_policy ∷ []

overrides_iff_example :
    let allowed = any (λ p. concerns 4 p && allows_request 12 p) rules in
    let denied = any (λ p. concerns 4 p && denies 12 p) rules in
    ((evaluate rules 4 12 deny_overrides).decision
      ≡ (if allowed && not denied then allow else deny))
    × ((evaluate rules 4 12 allow_overrides).decision ≡ (if allowed then allow else deny))
overrides_iff_example = overrides_iff rules 4 12
