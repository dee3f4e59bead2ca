-- ===== src/Scenarios/Kernels.antt =====
-- Scenarios of the scheduled jobs and the locks.
use oncall_backend_private.Prelude.{List, ℕ, ◌≡◌, refl, none, some, [], ◌∷◌, true, false, All}
use oncall_backend_private.Sql.{select_first, update_where, changes}
use oncall_backend_private.Jobs.{Job, fixed, scheduled, failed, running, is_due, mark_running}
use oncall_backend_private.Jobs.Scheduler.{
  Recurrence, never, interval, Item, Scheduler, has_id, may_run, pick_due, pick_from, tick_start,
  verify_queue, check_clock, fill_workers, fill, execute, cancel_job, cancelled_item, ended, Ending,
  rejected, timed_out, resolved, next_recurrence,
}
use oncall_backend_private.Jobs.Scheduler.Picked.{IsBehind, pick_due-IsFirst}
use oncall_backend_private.Jobs.Scheduler.Queue.{
  begins, ends, cancels, step, steps, tick_start-fills, steps-verified, IsStopped, cancelled-ended,
}
use oncall_backend_private.Jobs.Retries.{failing_runs, retries_exhausted}
use oncall_backend_private.Locks.{Lock, available}

abbrev nightly : Job
nightly = record {
  job_id = 3;
  priority = 20;
  next_run = 100;
  last_run = none;
  status = scheduled;
  retry_policy = record {
    type = fixed;
    max_attempts = 2;
    delay_ms = 50;
    factor = 2;
    max_delay_ms = none;
  };
  retries = 0;
  attempts = 0;
  status_before_pause = none;
}

retries_exhausted_example :
    ((failing_runs nightly [] (200 ∷ 100 ∷ [])).0.retries ≡ 2)
    × ((failing_runs nightly [] (200 ∷ 100 ∷ [])).1 ≡ [])
    × ((failing_runs nightly [] (300 ∷ 200 ∷ 100 ∷ [])).0.status ≡ failed)
    × ((failing_runs nightly [] (300 ∷ 200 ∷ 100 ∷ [])).1 ≡ 3 ∷ [])
retries_exhausted_example = retries_exhausted nightly [] 300 (200 ∷ 100 ∷ []) refl refl refl

abbrev free_lock : Lock
free_lock = record {
  lock_id = "report";
  namespace = "jobs";
  owner_id = none;
  lease_ms = 30000;
  acquired_at = none;
  expires_at = none;
  renewed_at = none;
  metadata = [];
  version = 0;
  state = available;
}

-- Three jobs and two workers: the second job recurs, and the third has the higher priority.
abbrev item_of : Job → Recurrence → Item
item_of job recurrence = record {
  job = job;
  recurrence = recurrence;
  created_at = 10;
  is_cancelled = false;
  running_since = none;
}

abbrev hourly : Item
hourly = item_of (record nightly { job_id = 4; next_run = 50 }) (interval 3600)

abbrev urgent : Item
urgent = item_of (record nightly { job_id = 5; priority = 40 }) never

abbrev queue : Scheduler
queue = record {
  items = item_of nightly never ∷ hourly ∷ urgent ∷ [];
  in_flight = 0;
  concurrency = 2;
  dead_letter = [];
  last_now = 0;
  regressions = 0;
  draining = false;
}

pick_due-IsFirst_example :
    (may_run 100 urgent ≡ true)
    × (select_first (has_id 5) queue.items ≡ some urgent)
    × All (IsBehind 100 urgent) queue.items
unfolding pick_due pick_from is_due select_first
pick_due-IsFirst_example = pick_due-IsFirst queue.items 100 urgent (refl, (refl, (refl, tt))) refl

tick_start-fills_example :
    ((tick_start queue 100).in_flight ≡ 2) × (verify_queue (tick_start queue 100) ≡ true)
unfolding verify_queue changes select_first is_due
tick_start-fills_example = tick_start-fills queue 100 refl (refl, (refl, (refl, tt))) refl

steps-verified_example :
    verify_queue (steps queue (begins 100 ∷ cancels 4 ∷ ends 5 rejected 150 100 ∷ [])) ≡ true
unfolding verify_queue changes select_first step tick_start check_clock fill_workers fill pick_due
    pick_from execute mark_running is_due update_where cancel_job cancelled_item
steps-verified_example =
    steps-verified queue (begins 100 ∷ cancels 4 ∷ ends 5 rejected 150 100 ∷ []) refl
      (refl, (refl, (refl, tt))) (tt, (tt, ((_, refl, refl), tt)))

abbrev running_hourly : Item
running_hourly = record hourly { job = record hourly.job { status = running } }

cancelled-ended_example :
    let after : Ending → Item × List ℕ =
      λ ending. ended (cancelled_item running_hourly) [] ending 200 in
    IsStopped running_hourly (after rejected).0 5000
    × ((after rejected).1 ≡ [])
    × IsStopped running_hourly (after timed_out).0 5000
    × ((after timed_out).1 ≡ [])
    × ((after resolved).0.job.status ≡ scheduled)
    × (may_run 5000 (after resolved).0 ≡ true)
unfolding next_recurrence
cancelled-ended_example = cancelled-ended running_hourly [] 200 5000 refl
