-- ===== src/Jobs/Scheduler.antt =====
-- The tick of src/application/scheduler/scheduler.js, with nextRecurrence of src/domain/scheduler/schedule.js. A tick
-- is the steps that its loop takes: it fills the free workers, and after each handler that ends it fills them again.
-- The end of a handler carries the clock's reading; `cron.nextAfter` is a parameter. Events, metrics and the log of
-- transitions are left out; of a dead letter the job's id is kept.
pub mod Picked
pub mod Filled
pub mod Queue
use oncall_backend_private.Prelude.{
  ℕ, zero, suc, ◌+◌, ◌-◌, Bool, true, false, ◌&&◌, ◌||◌, not, Option, none, some, List, [], ◌∷◌,
  ltb, leb, ◌==◌, if◌then◌else◌,
}
use oncall_backend_private.Sql.{select_first, update_where, changes}
use oncall_backend_private.Jobs.{
  Job, JobStatus, scheduled, running, is_due, is_paused, mark_running, mark_completed,
  mark_cancelled, mark_timed_out, reschedule, apply_failure, pause, resume,
}

-- When a job runs again.
pub data Recurrence : Type 0 where
  never : Recurrence
  interval : ℕ → Recurrence
  cron : (ℕ → Option ℕ) → Recurrence

-- `nextRecurrence`.
unfoldable pub next_recurrence : Recurrence → ℕ → Option ℕ
next_recurrence never now = none
next_recurrence (interval ms) now = some (now + ms)
next_recurrence (cron next_after) now = next_after now

-- An entry of `records`.
pub record Item : Type 0 where
  pub job : Job
  pub recurrence : Recurrence
  pub created_at : ℕ
  pub is_cancelled : Bool
  pub running_since : Option ℕ

pub record Scheduler : Type 0 where
  pub items : List Item
  pub in_flight : ℕ
  pub concurrency : ℕ
  pub dead_letter : List ℕ
  pub last_now : ℕ
  pub regressions : ℕ
  pub draining : Bool

abbrev pub has_id : ℕ → Item → Bool
has_id id item = item.job.job_id == id

abbrev pub is_status_running : JobStatus → Bool
is_status_running running = true
is_status_running _ = false

abbrev pub runs : Item → Bool
runs item = is_status_running item.job.status

-- What `_pickDue` asks of an entry, and which of two it prefers.
abbrev pub may_run : ℕ → Item → Bool
may_run now item = not (runs item) && not (is_paused item.job.status) && is_due item.job now

abbrev pub goes_before : Item → Item → Bool
goes_before a b =
    ltb b.job.priority a.job.priority
    || (a.job.priority == b.job.priority && ltb a.job.next_run b.job.next_run)
    || (a.job.priority == b.job.priority
        && a.job.next_run == b.job.next_run
        && ltb a.created_at b.created_at)

abbrev pub preferred : ℕ → Option Item → Item → Option Item
preferred now none item = if may_run now item then some item else none
preferred now (some best) item =
    if may_run now item && goes_before item best then some item else some best

-- `_pickDue`.
unfoldable pub pick_from : ℕ → Option Item → List Item → Option Item
pick_from now best [] = best
pick_from now best (item ∷ items) = pick_from now (preferred now best item) items

unfoldable pub pick_due : List Item → ℕ → Option Item
pick_due items now = pick_from now none items

abbrev pub with_job : Item → Job → Item
with_job item j = record item { job = j }

-- `_execute`, up to the call of the handler.
unfoldable pub execute : Scheduler → Item → ℕ → Scheduler
execute s item now = record s {
  items =
      update_where (has_id item.job.job_id)
        (λ x. record x { job = mark_running x.job now; running_since = some now }) s.items;
  in_flight = suc s.in_flight;
}

-- `fill`: as long as a worker is free and a job is due.
unfoldable pub fill : ℕ → Scheduler → ℕ → Scheduler
fill zero s now = s
fill (suc free) s now = elim (pick_due s.items now) as (λ _. Scheduler) [
  | none ↦ s
  | some item ↦ fill free (execute s item now) now
]

unfoldable pub fill_workers : Scheduler → ℕ → Scheduler
fill_workers s now = fill (s.concurrency - s.in_flight) s now

-- How a handler ends.
pub data Ending : Type 0 where
  resolved rejected timed_out : Ending

-- `_onComplete`.
unfoldable pub on_complete : Item → ℕ → Item
on_complete item now = elim (next_recurrence item.recurrence now) [
  | some next ↦ with_job item (reschedule item.job next)
  | none ↦ with_job item (mark_completed item.job)
]

abbrev failed_item : Item → Job × List ℕ → Item × List ℕ
failed_item item (j, dead) = (with_job item j, dead)

-- The end of `_execute` for the entry, with the dead letters.
unfoldable pub ended : Item → List ℕ → Ending → ℕ → Item × List ℕ
ended item dead resolved now = (on_complete item now, dead)
ended item dead rejected now =
    if item.is_cancelled
    then (with_job item (mark_cancelled item.job), dead)
    else failed_item item (apply_failure item.job dead now)
ended item dead timed_out now =
    if item.is_cancelled
    then (with_job item (mark_cancelled item.job), dead)
    else failed_item item (apply_failure (mark_timed_out item.job) dead now)

-- A handler that is in flight ends.
unfoldable pub finish : Scheduler → ℕ → Ending → ℕ → Scheduler
finish s id ending now = elim (select_first (has_id id) s.items) [
  | none ↦ s
  | some item ↦
      let (after, dead) = ended item s.dead_letter ending now in
      record s {
        items = update_where (has_id id) (λ _. record after { running_since = none }) s.items;
        in_flight = s.in_flight - 1;
        dead_letter = dead;
      }
]

-- The start of `_tickOnce`: the clock is checked, and nothing is started where the scheduler drains.
unfoldable pub check_clock : Scheduler → ℕ → Scheduler
check_clock s now =
    if ltb now s.last_now
    then record s { regressions = suc s.regressions }
    else record s { last_now = now }

unfoldable pub tick_start : Scheduler → ℕ → Scheduler
tick_start s now =
    let seen = check_clock s now in if s.draining then seen else fill_workers seen now

-- The loop of `_tickOnce`, over the handlers that end.
unfoldable pub tick_loop : Scheduler → ℕ → List (ℕ × Ending × ℕ) → Scheduler
tick_loop s now [] = s
tick_loop s now ((id, ending, at) ∷ rest) =
    tick_loop (fill_workers (finish s id ending at) now) now rest

unfoldable pub tick : Scheduler → ℕ → List (ℕ × Ending × ℕ) → Scheduler
tick s now endings = tick_loop (tick_start s now) now endings

-- `cancel`.
unfoldable pub cancelled_item : Item → Item
cancelled_item item =
    if runs item
    then record item { is_cancelled = true }
    else record item { is_cancelled = true; job = mark_cancelled item.job }

unfoldable pub cancel_job : Scheduler → ℕ → Scheduler
cancel_job s id = record s { items = update_where (has_id id) cancelled_item s.items }

-- `pause`, `resume`.
unfoldable pub pause_job : Scheduler → ℕ → Scheduler
pause_job s id = record s {
  items = update_where (has_id id) (λ x. with_job x (pause x.job).0) s.items;
}

unfoldable pub resume_job : Scheduler → ℕ → Scheduler
resume_job s id = record s {
  items = update_where (has_id id) (λ x. with_job x (resume x.job).0) s.items;
}

-- `verifyQueue`.
unfoldable pub verify_queue : Scheduler → Bool
verify_queue s = changes runs s.items == s.in_flight && leb s.in_flight s.concurrency
