-- ===== src/Jobs.antt =====
-- Scheduled jobs: the transitions of src/domain/scheduler/job.js, the decision of
-- src/domain/scheduler/retryPolicy.js, and _applyFailure of src/application/scheduler/scheduler.js. Times are milliseconds; the name, owner, tags and metadata of a job,
-- which no transition reads, are left out, and the factor of the backoff is whole.
pub mod Retries
pub mod Scheduler
use oncall_backend_private.Prelude.{
  ℕ, zero, suc, ◌+◌, ◌*◌, ◌^◌, min, Bool, true, false, ◌&&◌, ◌||◌, Option, none, some, List, ◌∷◌,
  leb, if◌then◌else◌,
}

pub data RetryType : Type 0 where
  no_retry fixed exponential : RetryType

-- A normalized policy; no `max_delay_ms` is Infinity.
pub record RetryPolicy : Type 0 where
  pub type : RetryType
  pub max_attempts : ℕ
  pub delay_ms : ℕ
  pub factor : ℕ
  pub max_delay_ms : Option ℕ

-- `{ retry, delayMs }`.
pub record Decision : Type 0 where
  pub retry : Bool
  pub delay_ms : ℕ

abbrev pub clamp : Option ℕ → ℕ → ℕ
clamp none n = n
clamp (some m) n = min n m

abbrev pub delay_of : RetryType → RetryPolicy → ℕ → ℕ
delay_of fixed p retries_done = p.delay_ms
delay_of _ p retries_done = clamp p.max_delay_ms (p.delay_ms * p.factor ^ retries_done)

abbrev pub is_no_retry : RetryType → Bool
is_no_retry no_retry = true
is_no_retry _ = false

-- `decide`.
unfoldable pub decide : RetryPolicy → ℕ → Decision
decide p retries_done =
    if is_no_retry p.type || leb p.max_attempts retries_done
    then record { retry = false; delay_ms = 0 }
    else record { retry = true; delay_ms = delay_of p.type p retries_done }

pub data JobStatus : Type 0 where
  scheduled running completed failed timed_out cancelled paused retrying : JobStatus

pub record Job : Type 0 where
  pub job_id : ℕ
  pub priority : ℕ
  pub next_run : ℕ
  pub last_run : Option ℕ
  pub status : JobStatus
  pub retry_policy : RetryPolicy
  pub retries : ℕ
  pub attempts : ℕ
  pub status_before_pause : Option JobStatus

abbrev pub may_start : JobStatus → Bool
may_start scheduled = true
may_start retrying = true
may_start _ = false

-- `isDue`.
unfoldable pub is_due : Job → ℕ → Bool
is_due j now = may_start j.status && leb j.next_run now

-- `markRunning`, `markCompleted`, `markFailed`, `markTimedOut`, `markCancelled`, `markRetrying`, `reschedule`.
unfoldable pub mark_running : Job → ℕ → Job
mark_running j now = record j { status = running; last_run = some now; attempts = suc j.attempts }

unfoldable pub mark_completed : Job → Job
mark_completed j = record j { status = completed }

unfoldable pub mark_failed : Job → Job
mark_failed j = record j { status = failed }

unfoldable pub mark_timed_out : Job → Job
mark_timed_out j = record j { status = timed_out }

unfoldable pub mark_cancelled : Job → Job
mark_cancelled j = record j { status = cancelled }

unfoldable pub mark_retrying : Job → ℕ → Job
mark_retrying j next = record j { retries = suc j.retries; next_run = next; status = retrying }

unfoldable pub reschedule : Job → ℕ → Job
reschedule j next = record j { next_run = next; status = scheduled; retries = 0 }

abbrev pub is_paused : JobStatus → Bool
is_paused paused = true
is_paused _ = false

abbrev pub status_or_scheduled : Option JobStatus → JobStatus
status_or_scheduled none = scheduled
status_or_scheduled (some s) = s

-- `pause`, `resume`.
unfoldable pub pause : Job → Job × Bool
pause j =
    if is_paused j.status
    then (j, false)
    else (record j { status_before_pause = some j.status; status = paused }, true)

unfoldable pub resume : Job → Job × Bool
resume j =
    if is_paused j.status
    then (
      record j { status = status_or_scheduled j.status_before_pause; status_before_pause = none },
      true,
    )
    else (j, false)

abbrev pub failed_with : Decision → Job → List ℕ → ℕ → Job × List ℕ
failed_with d j dead now =
    if d.retry then (mark_retrying j (now + d.delay_ms), dead) else (mark_failed j, j.job_id ∷ dead)

-- `_applyFailure`: retried or failed, a failed job going to the dead letters (its id, the newest first).
unfoldable pub apply_failure : Job → List ℕ → ℕ → Job × List ℕ
apply_failure j dead now = failed_with (decide j.retry_policy j.retries) j dead now
