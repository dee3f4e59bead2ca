-- ===== src/Otp/Codes.antt =====
-- Which codes `verifyOTP` of src/services/otpService.js accepts.
use Prim.Native.String.{String}
use oncall_backend_private.Prelude.{
  ℕ, zero, suc, ◌+◌, ◌≤◌, ◌≡◌, refl, ap, sym, subst, ◌⊎◌, ◌∙◌, Bool, true, false, ◌&&◌, Option,
  none, some, List, [], ◌∷◌, leb, ◌==◌, if◌then◌else◌, arith, All, length, Bool-cases, inl, inr,
}
use oncall_backend_private.Otp.{OtpRow, is_text, send_otp, check_row, verify_otp}

module _ (digest : String → ℕ) where
  -- The table after several attempts on a phone, the first one first.
  pub after_attempts : (ℕ → Option OtpRow) → ℕ → List (String × ℕ) → ℕ → Option OtpRow
  after_attempts table phone [] = table
  after_attempts table phone ((code, now) ∷ later) =
      after_attempts (verify_otp digest table phone code now).0 phone later

  row-check :
      (table : ℕ → Option OtpRow) (phone : ℕ) (code : String) (now : ℕ) (o : Option OtpRow)
      → (check_row digest table phone code now o).1 ≡ true
      → (check_row digest table phone code now o).0 phone ≡ none
  row-check table phone code now none h = ground (arith, h)
  row-check table phone code now (some row) h = ground (arith, h)

  spent :
      (table : ℕ → Option OtpRow) (phone : ℕ) (code : String) (now : ℕ)
      → (verify_otp digest table phone code now).1 ≡ true
      → (verify_otp digest table phone code now).0 phone ≡ none
  unfolding verify_otp
  spent table phone code now h = elim (Bool-cases (is_text (some code))) [
    | inl t ↦ ground (arith, t, h, row-check table phone code now (table phone))
    | inr f ↦ ground (arith, f, h)
  ]

  refused_missing :
      (table : ℕ → Option OtpRow) (phone : ℕ) (code : String) (now : ℕ)
      → table phone ≡ none
      → (verify_otp digest table phone code now).1 ≡ false
  unfolding verify_otp
  refused_missing table phone code now h =
      ap
        (λ o.
          (if◌then◌else◌ {A = (ℕ → Option OtpRow) × Bool} (is_text (some code))
            (check_row digest table phone code now o) (table, false)).1)
        h
      ∙ ground arith

  row_sent :
      (table : ℕ → Option OtpRow) (phone : ℕ) (code : String) (now : ℕ) (sms_sent : Bool)
      → (send_otp digest table phone code now sms_sent).0 phone
        ≡ some (record { code_hash = digest code; expires_at = now + 300; attempts = 0 })
  unfolding send_otp
  row_sent table phone code now sms_sent = ground arith

  check_sent :
      (table : ℕ → Option OtpRow) (phone : ℕ) (guess : String) (later hash expiry : ℕ)
      → (check_row digest table phone guess later
          (some (record { code_hash = hash; expires_at = expiry; attempts = 0 }))).1
        ≡ (leb later expiry && hash == digest guess)
  check_sent table phone guess later hash expiry = ground arith

  -- Just after a code was sent, an attempt is accepted exactly if it is not empty, 5 minutes have not
  -- passed, and its digest is that of the code sent.
  pub sent_code_iff :
      (table : ℕ → Option OtpRow) (phone : ℕ) (code guess : String) (now later : ℕ)
      (sms_sent : Bool)
      → (verify_otp digest (send_otp digest table phone code now sms_sent).0 phone guess later).1
        ≡ (is_text (some guess) && (leb later (now + 300) && digest code == digest guess))
  unfolding verify_otp send_otp
  sent_code_iff table phone code guess now later sms_sent = ground (
    arith,
    check_sent (send_otp digest table phone code now sms_sent).0 phone guess later (digest code)
        (now + 300),
  )

  -- An accepted code is spent: no code is accepted for the phone until another is sent.
  pub code_spent :
      (table : ℕ → Option OtpRow) (phone : ℕ) (code again : String) (now later : ℕ)
      → (verify_otp digest table phone code now).1 ≡ true
      → (verify_otp digest (verify_otp digest table phone code now).0 phone again later).1 ≡ false
  code_spent table phone code again now later h =
      refused_missing (verify_otp digest table phone code now).0 phone again later
        (spent table phone code now h)

  -- A row of that digest, with n attempts left at most.
  Left : ℕ → ℕ → Option OtpRow → Type 0
  Left hash n none = Unit
  Left hash n (some row) = (row.code_hash ≡ hash) × (3 ≤ row.attempts + n)

  wrong_guess :
      (table : ℕ → Option OtpRow) (phone : ℕ) (guess : String) (now : ℕ) (row : OtpRow)
      → (row.code_hash == digest guess) ≡ false
      → ((check_row digest table phone guess now (some row)).0 phone ≡ none)
        ⊎ ((check_row digest table phone guess now (some row)).0 phone
            ≡ some (record row { attempts = suc row.attempts }))
  wrong_guess table phone guess now row w = ground (arith, w)

  check-Left :
      (table : ℕ → Option OtpRow) (phone : ℕ) (guess : String) (now hash n : ℕ) (o : Option OtpRow)
      → Left hash (suc n) o
      → (hash == digest guess) ≡ false
      → o ≡ table phone
      → Left hash n ((check_row digest table phone guess now o).0 phone)
  unfolding Left
  check-Left table phone guess now hash n none h w e = subst (Left hash n) e tt
  check-Left table phone guess now hash n (some row) h w e =
      elim (wrong_guess table phone guess now row (ap (λ k. k == digest guess) h.0 ∙ w)) [
        | inl gone ↦ subst (Left hash n) (sym gone) tt
        | inr tried ↦ subst (Left hash n) (sym tried) (h.0, omega (arith, h.1))
      ]

  verify-Left :
      (table : ℕ → Option OtpRow) (phone : ℕ) (guess : String) (now hash n : ℕ)
      → Left hash (suc n) (table phone)
      → is_text (some guess) ≡ true
      → (hash == digest guess) ≡ false
      → Left hash n ((verify_otp digest table phone guess now).0 phone)
  unfolding verify_otp
  verify-Left table phone guess now hash n h t w =
      subst
        (λ b. Left hash n (
          (if◌then◌else◌ {A = (ℕ → Option OtpRow) × Bool} b
              (check_row digest table phone guess now (table phone)) (table, false)).0
            phone))
        (sym t) (check-Left table phone guess now hash n (table phone) h w refl)

  none-Left :
      (table : ℕ → Option OtpRow) (phone : ℕ) (guess : String) (now hash : ℕ) (o : Option OtpRow)
      → Left hash 0 o
      → (check_row digest table phone guess now o).1 ≡ false
  unfolding Left
  none-Left table phone guess now hash none h = refl
  none-Left table phone guess now hash (some row) h = ground (arith, h.1)

  refused_exhausted :
      (table : ℕ → Option OtpRow) (phone : ℕ) (guess : String) (now hash : ℕ)
      → Left hash 0 (table phone)
      → (verify_otp digest table phone guess now).1 ≡ false
  unfolding verify_otp
  refused_exhausted table phone guess now hash h =
      ground (arith, none-Left table phone guess now hash (table phone) h)

  -- A guess that is not empty and whose digest is not that of the code sent.
  abbrev pub IsWrong : String → String × ℕ → Type 0
  IsWrong code attempt =
      (is_text (some attempt.0) ≡ true) × ((digest code == digest attempt.0) ≡ false)

  attempts-Left :
      (code : String) (phone n : ℕ) (table : ℕ → Option OtpRow) (wrong : List (String × ℕ))
      → length wrong ≡ n
      → All (IsWrong code) wrong
      → Left (digest code) n (table phone)
      → Left (digest code) 0 (after_attempts table phone wrong phone)
  unfolding after_attempts
  attempts-Left code phone zero table [] e a h = h
  attempts-Left code phone (suc n) table [] e a h = ground (arith, e)
  attempts-Left code phone zero table ((guess, now) ∷ wrong) e a h = ground (arith, e)
  attempts-Left code phone (suc n) table ((guess, now) ∷ wrong) e a h =
      attempts-Left code phone n (verify_otp digest table phone guess now).0 wrong
        (ground (arith, e)) a.1 (verify-Left table phone guess now (digest code) n h a.0.0 a.0.1)

  -- After three wrong guesses, none of them empty and whenever they were made, no guess is
  -- accepted, not even the code that was sent.
  pub three_guesses :
      (table : ℕ → Option OtpRow) (phone : ℕ) (code guess : String) (now later : ℕ)
      (sms_sent : Bool) (wrong : List (String × ℕ))
      → length wrong ≡ 3
      → All (IsWrong code) wrong
      → (verify_otp digest
          (after_attempts (send_otp digest table phone code now sms_sent).0 phone wrong)
          phone
          guess
          later).1
        ≡ false
  unfolding send_otp Left
  three_guesses table phone code guess now later sms_sent wrong e a =
      refused_exhausted
        (after_attempts (send_otp digest table phone code now sms_sent).0 phone wrong) phone guess
        later (digest code)
        (attempts-Left code phone 3 (send_otp digest table phone code now sms_sent).0 wrong e a (
          subst (Left (digest code) 3) (sym (row_sent table phone code now sms_sent))
            (refl, omega arith)))
