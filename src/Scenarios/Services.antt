-- ===== src/Scenarios/Services.antt =====
-- Scenarios of the limits, the one-time codes and the circuit breaker.
use Prim.Native.String.{String}
use oncall_backend_private.Prelude.{
  ℕ, suc, ◌≡◌, refl, arith, true, false, Option, none, some, List, [], ◌∷◌, leb, keep, length,
}
use oncall_backend_private.Limits.{PhoneRecord, is_recent, rate_limit}
use oncall_backend_private.Limits.Window.{after_requests, rate_limit_iff}
use oncall_backend_private.Otp.{OtpRow, send_otp, verify_otp}
use oncall_backend_private.Otp.Codes.{after_attempts, three_guesses}
use oncall_backend_private.Circuit.{Circuit, CircuitPolicy, half_open, initial_state}

abbrev no_requests : ℕ → List ℕ
no_requests k = []

rate_limit_iff_example :
    (rate_limit 2 1000 (after_requests 2 1000 no_requests 3 (1500 ∷ 900 ∷ [])) 3 2000).1
    ≡ leb (suc (length (keep (is_recent 1000 2000) (1500 ∷ 900 ∷ [])))) 2
rate_limit_iff_example =
    rate_limit_iff 2 1000 no_requests 3 2000 (1500 ∷ 900 ∷ []) refl
      ((omega arith, (omega arith, tt)), ((omega arith, tt), (tt, tt)))

abbrev some_requests : ℕ → List ℕ
some_requests k = 100 ∷ 200 ∷ []

abbrev tried_twice : PhoneRecord
tried_twice = record { count = 2; first_at = 5; locked_until = 0 }

abbrev text_length : String → ℕ
text_length String.[] = 0
text_length (String.◌∷◌ c s) = suc (text_length s)

abbrev no_codes : ℕ → Option OtpRow
no_codes p = none

abbrev one_code : ℕ → Option OtpRow
one_code p = some (record { code_hash = 4; expires_at = 400; attempts = 1 })

three_guesses_example :
    (verify_otp text_length
      (after_attempts text_length
        (send_otp text_length no_codes 50 "4711" 100 true).0
        50
        (("2", 101) ∷ ("3", 102) ∷ ("4", 103) ∷ []))
      50
      "4711"
      104).1
    ≡ false
three_guesses_example =
    three_guesses text_length no_codes 50 "4711" "4711" 100 104 true
      (("2", 101) ∷ ("3", 102) ∷ ("4", 103) ∷ []) refl
      ((refl, refl), ((refl, refl), ((refl, refl), tt)))

abbrev strict : CircuitPolicy
strict = record { failure_threshold = 2; success_threshold = 2; recovery_window = 1000 }

abbrev trying : Circuit
trying = record initial_state { state = half_open; opened_at = some 9 }
