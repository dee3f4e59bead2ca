-- ===== src/Jobs/Retries.antt =====
-- How often and how late a failing job runs again (src/domain/scheduler/retryPolicy.js), and that a pause
-- is undone by a resumption (src/domain/scheduler/job.js).
use oncall_backend_private.Prelude.{
  ℕ, suc, ◌+◌, ◌≤◌, ◌<◌, ◌≡◌, refl, ap, sym, subst, ◌∙◌, Bool, true, false, none, some, List, [],
  ◌∷◌, length, arith, if◌then◌else◌,
}
use oncall_backend_private.Jobs.{
  RetryPolicy, Decision, is_no_retry, decide, Job, is_due, mark_running, mark_retrying, mark_failed,
  is_paused, pause, resume, apply_failure, failed_with, failed, paused,
}

-- A job and the dead letters after runs that all failed, the latest first.
pub failing_runs : Job → List ℕ → List ℕ → Job × List ℕ
failing_runs j dead [] = (j, dead)
failing_runs j dead (now ∷ earlier) =
    let (before, letters) = failing_runs j dead earlier in
    apply_failure (mark_running before now) letters now

abbrev IsRetried : Job → List ℕ → ℕ → Job × List ℕ → Type 0
IsRetried j dead n (k, letters) =
    (k.retries ≡ n) × (k.job_id ≡ j.job_id) × (k.retry_policy ≡ j.retry_policy) × (letters ≡ dead)

decide-yes :
    (p : RetryPolicy) (n : ℕ)
    → is_no_retry p.type ≡ false
    → n < p.max_attempts
    → (decide p n).retry ≡ true
unfolding decide
decide-yes p n t h = ground (arith, t, h)

decide-no : (p : RetryPolicy) (n : ℕ) → p.max_attempts ≤ n → (decide p n).retry ≡ false
unfolding decide
decide-no p n h = ground (arith, h)

failed_with-yes :
    (d : Decision) (j : Job) (dead : List ℕ) (now : ℕ)
    → d.retry ≡ true
    → failed_with d j dead now ≡ (mark_retrying j (now + d.delay_ms), dead)
failed_with-yes d j dead now h = ground (arith, h)

failed_with-no :
    (d : Decision) (j : Job) (dead : List ℕ) (now : ℕ)
    → d.retry ≡ false
    → failed_with d j dead now ≡ (mark_failed j, j.job_id ∷ dead)
failed_with-no d j dead now h = ground (arith, h)

retry-step :
    (j : Job) (dead : List ℕ) (n now : ℕ) (r : Job × List ℕ)
    → is_no_retry j.retry_policy.type ≡ false
    → n < j.retry_policy.max_attempts
    → IsRetried j dead n r
    → IsRetried j dead (suc n) (apply_failure (mark_running r.0 now) r.1 now)
unfolding apply_failure mark_running mark_retrying
retry-step j dead n now (k, letters) t h (e, i, q, l) =
    let d = decide k.retry_policy k.retries in
    let yes : d.retry ≡ true =
      decide-yes k.retry_policy k.retries (ap (λ (p : RetryPolicy). is_no_retry p.type) q ∙ t)
        (omega (arith, e, h, ap (λ (p : RetryPolicy). p.max_attempts) q)) in
    subst (IsRetried j dead (suc n)) (sym (failed_with-yes d (mark_running k now) letters now yes))
      (ap suc e, i, q, l)

failing-IsRetried :
    (j : Job) (dead : List ℕ) (ts : List ℕ)
    → is_no_retry j.retry_policy.type ≡ false
    → j.retries ≡ 0
    → length ts ≤ j.retry_policy.max_attempts
    → IsRetried j dead (length ts) (failing_runs j dead ts)
unfolding failing_runs
failing-IsRetried j dead [] t z h = (z, refl, refl, refl)
failing-IsRetried j dead (now ∷ earlier) t z h =
    retry-step j dead (length earlier) now (failing_runs j dead earlier) t (omega (arith, h))
      (failing-IsRetried j dead earlier t z (omega (arith, h)))

-- A job whose policy retries, not retried so far, that keeps failing is retried exactly as many
-- times as the policy allows, with no dead letter; the failure after those makes it failed, with
-- one dead letter.
pub retries_exhausted :
    (j : Job) (dead : List ℕ) (now : ℕ) (earlier : List ℕ)
    → is_no_retry j.retry_policy.type ≡ false
    → j.retries ≡ 0
    → length earlier ≡ j.retry_policy.max_attempts
    → ((failing_runs j dead earlier).0.retries ≡ j.retry_policy.max_attempts)
      × ((failing_runs j dead earlier).1 ≡ dead)
      × ((failing_runs j dead (now ∷ earlier)).0.status ≡ failed)
      × ((failing_runs j dead (now ∷ earlier)).1 ≡ j.job_id ∷ dead)
unfolding failing_runs apply_failure mark_running mark_failed
retries_exhausted j dead now earlier t z h =
    let (e, i, q, l) = failing-IsRetried j dead earlier t z (omega (arith, h)) in
    let (k, letters) = failing_runs j dead earlier in
    let over : k.retry_policy.max_attempts ≤ k.retries =
      omega (arith, e, h, ap (λ (p : RetryPolicy). p.max_attempts) q) in
    let last =
      failed_with-no (decide k.retry_policy k.retries) (mark_running k now) letters now
        (decide-no k.retry_policy k.retries over) in
    (
      e ∙ h,
      l,
      ap (λ (r : Job × List ℕ). r.0.status) last,
      ap (λ (r : Job × List ℕ). r.1) last ∙ ap (λ x. x ∷ letters) i ∙ ap (λ x. j.job_id ∷ x) l,
    )

-- A pause that takes effect keeps the job from being due, and a resumption brings back the job as it was.
pub resume-pause :
    (j : Job) (now : ℕ)
    → is_paused j.status ≡ false
    → j.status_before_pause ≡ none
    → ((pause j).1 ≡ true) × (is_due (pause j).0 now ≡ false) × (resume (pause j).0 ≡ (j, true))
unfolding pause resume is_due
resume-pause j now h n = (
  ap (λ (r : Job × Bool). r.1) pausing,
  ap (λ (r : Job × Bool). is_due r.0 now) pausing,
  ap (λ (r : Job × Bool). resume r.0) pausing
      ∙ ap (λ s. (record j { status_before_pause = s }, true)) (sym n),
)
  where
    pausing : pause j ≡ (record j { status_before_pause = some j.status; status = paused }, true)
    pausing =
        ap
          (λ b.
            if b
            then (j, false)
            else (record j { status_before_pause = some j.status; status = paused }, true))
          h
