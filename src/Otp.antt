-- ===== src/Otp.antt =====
-- One-time codes by SMS: src/services/otpService.js. The table `otp_codes`, whose key is the phone, is a
-- function from a phone to its row. SHA-256 is the parameter `digest`, the random code and the success of
-- the SMS provider are arguments; the security log is left out. Times are seconds.
pub mod Codes
use Prim.Native.String.{String}
use oncall_backend_private.Prelude.{
  ℕ, zero, suc, ◌+◌, Bool, true, false, Option, none, some, ltb, leb, ◌==◌, if◌then◌else◌,
}

pub record OtpRow : Type 0 where
  pub code_hash : ℕ
  pub expires_at : ℕ
  pub attempts : ℕ

abbrev pub set_row : (ℕ → Option OtpRow) → ℕ → Option OtpRow → ℕ → Option OtpRow
set_row table phone row p = if phone == p then row else table p

-- An empty code and one that is no string are refused at once.
abbrev pub is_text : Option String → Bool
is_text none = false
is_text (some String.[]) = false
is_text (some (String.◌∷◌ c s)) = true

module _ (digest : String → ℕ) where
  -- `sendOTP`: the code stands in the table even if the SMS then fails, which the caller hears.
  unfoldable pub send_otp : (ℕ → Option OtpRow) → ℕ → String → ℕ → Bool → (ℕ → Option OtpRow) × Bool
  send_otp table phone code now sms_sent = (
    set_row table phone
        (some (record { code_hash = digest code; expires_at = now + 300; attempts = 0 })),
    sms_sent,
  )

  abbrev check_row :
      (ℕ → Option OtpRow) → ℕ → String → ℕ → Option OtpRow → (ℕ → Option OtpRow) × Bool
  check_row table phone code now none = (table, false)
  check_row table phone code now (some row) =
      if ltb row.expires_at now
      then (set_row table phone none, false)
      else if leb 3 row.attempts
      then (set_row table phone none, false)
      else if row.code_hash == digest code
      then (set_row table phone none, true)
      else (set_row table phone (some (record row { attempts = suc row.attempts })), false)

  -- `verifyOTP`.
  unfoldable pub verify_otp : (ℕ → Option OtpRow) → ℕ → String → ℕ → (ℕ → Option OtpRow) × Bool
  verify_otp table phone code now =
      if is_text (some code) then check_row table phone code now (table phone) else (table, false)
