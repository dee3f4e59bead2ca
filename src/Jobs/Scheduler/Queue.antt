-- ===== src/Jobs/Scheduler/Queue.antt =====
-- That the queue of src/application/scheduler/scheduler.js stays consistent, and how many jobs a tick starts.
use oncall_backend_private.Prelude.{
  ℕ, ◌+◌, ◌-◌, ◌≡◌, refl, sym, ap, ◌∙◌, subst, min, Bool, leb, true, false, none, some, List, [],
  ◌∷◌, ==_iff, arith, Bool-cases, Option-cases, inl, inr,
}
use oncall_backend_private.Sql.{select_first, select_first_sound, update_where, changes}
use oncall_backend_private.Jobs.{
  JobStatus, scheduled, completed, cancelled, is_due, mark_completed, mark_cancelled,
  mark_timed_out, reschedule, apply_failure, mark_retrying, mark_failed,
}
use oncall_backend_private.Jobs.Scheduler.{
  Item, Scheduler, has_id, runs, may_run, next_recurrence, fill_workers, Ending, resolved, rejected,
  timed_out, on_complete, ended, finish, check_clock, tick_start, tick_loop, tick, cancelled_item,
  cancel_job, verify_queue,
}
use oncall_backend_private.Jobs.Scheduler.Picked.{UniqueIds}
use oncall_backend_private.Jobs.Scheduler.Filled.{
  one, KeepsId, changes-absent, changes-update, UniqueIds-update, fill-IsFilled,
}

-- A queue that `verifyQueue` accepts.
abbrev pub IsQueue : Scheduler → Type 0
IsQueue s = (verify_queue s ≡ true) × UniqueIds s.items

fill_workers-IsQueue : (s : Scheduler) (now : ℕ) → IsQueue s → IsQueue (fill_workers s now)
unfolding fill_workers verify_queue
fill_workers-IsQueue s now (v, u) =
    let (flight, count, same, kept) = fill-IsFilled (s.concurrency - s.in_flight) s now u in
    (ground (arith, v, flight, count, same), kept)

-- An entry whose handler has ended does not run.
ended-stops :
    (item : Item) (dead : List ℕ) (ending : Ending) (now : ℕ)
    → (runs (ended item dead ending now).0 ≡ false)
      × ((ended item dead ending now).0.job.job_id ≡ item.job.job_id)
unfolding ended on_complete apply_failure mark_cancelled mark_completed reschedule mark_timed_out
    mark_retrying mark_failed
ended-stops item dead resolved now = ground arith
ended-stops item dead rejected now = ground arith
ended-stops item dead timed_out now = ground arith

finish-IsQueue :
    (s : Scheduler) (id : ℕ) (ending : Ending) (now : ℕ) (item : Item)
    → select_first (has_id id) s.items ≡ some item
    → runs item ≡ true
    → IsQueue s
    → IsQueue (finish s id ending now)
unfolding finish verify_queue one KeepsId
finish-IsQueue s id ending now item h r (v, u) =
    let after = (ended item s.dead_letter ending now).0 in
    let stop : Item → Item = λ _. record after { running_since = none } in
    let (stopped, same) = ended-stops item s.dead_letter ending now in
    let id_of : item.job.job_id ≡ id =
      (==_iff item.job.job_id id).0 (select_first_sound (has_id id) s.items item h) in
    let at : update_where (has_id id) stop s.items ≡ (finish s id ending now).items =
      ground (arith, h) in
    (
      ground (arith, h, r, v, stopped, changes-update runs stop id s.items item u h),
      subst UniqueIds at (
          UniqueIds-update stop id s.items
            (λ x e. same ∙ (id_of ∙ sym ((==_iff x.job.job_id id).0 e))) u),
    )

cancel_job-IsQueue : (s : Scheduler) (id : ℕ) → IsQueue s → IsQueue (cancel_job s id)
unfolding cancel_job cancelled_item verify_queue mark_cancelled one KeepsId
cancel_job-IsQueue s id (v, u) = (
  elim (Option-cases (select_first (has_id id) s.items)) [
    | inl n ↦ ground (arith, v, changes-absent runs cancelled_item id s.items n)
    | inr (item, n) ↦ ground (arith, v, changes-update runs cancelled_item id s.items item u n)
  ],
  UniqueIds-update cancelled_item id s.items (λ x _. ground arith) u,
)

-- What happens to the scheduler: a tick begins; a handler ends, after which the tick that is under way fills the
-- workers again; a job is cancelled.
pub data Step : Type 0 where
  begins : ℕ → Step
  ends : ℕ → Ending → ℕ → ℕ → Step
  cancels : ℕ → Step

unfoldable pub step : Scheduler → Step → Scheduler
step s (begins now) = tick_start s now
step s (ends id ending at now) = fill_workers (finish s id ending at) now
step s (cancels id) = cancel_job s id

unfoldable pub steps : Scheduler → List Step → Scheduler
steps s [] = s
steps s (x ∷ xs) = steps (step s x) xs

-- A handler ends only for a job that is running.
abbrev pub IsRunning : Scheduler → Step → Type 0
IsRunning s (ends id ending at now) =
    (item : Item) × (select_first (has_id id) s.items ≡ some item) × (runs item ≡ true)
IsRunning s _ = Unit

abbrev pub AreRunning : Scheduler → List Step → Type 0
AreRunning s [] = Unit
AreRunning s (x ∷ xs) = IsRunning s x × AreRunning (step s x) xs

check_clock-kept :
    (s : Scheduler) (now : ℕ)
    → ((check_clock s now).items ≡ s.items)
      × ((check_clock s now).in_flight ≡ s.in_flight)
      × ((check_clock s now).concurrency ≡ s.concurrency)
unfolding check_clock
check_clock-kept s now = ground arith

check_clock-IsQueue : (s : Scheduler) (now : ℕ) → IsQueue s → IsQueue (check_clock s now)
unfolding verify_queue
check_clock-IsQueue s now (v, u) =
    let (items, flight, workers) = check_clock-kept s now in
    (ground (arith, v, ap (changes runs) items, flight, workers), subst UniqueIds (sym items) u)

-- A tick that begins on a queue that `verifyQueue` accepts, and does not drain, starts as many jobs as are due, or as
-- many as there are workers free, whichever is less; the queue is still accepted.
pub tick_start-fills :
    (s : Scheduler) (now : ℕ)
    → verify_queue s ≡ true
    → UniqueIds s.items
    → s.draining ≡ false
    → ((tick_start s now).in_flight
        ≡ s.in_flight + min (s.concurrency - s.in_flight) (changes (may_run now) s.items))
      × (verify_queue (tick_start s now) ≡ true)
unfolding tick_start fill_workers
tick_start-fills s now v u d =
    let seen = check_clock s now in
    let (items, flight, workers) = check_clock-kept s now in
    let q = check_clock-IsQueue s now (v, u) in
    let (started, _, _, _) = fill-IsFilled (seen.concurrency - seen.in_flight) seen now q.1 in
    let due = ap (changes (may_run now)) items in
    let accepted = (fill_workers-IsQueue seen now q).0 in
    let at : fill_workers seen now ≡ tick_start s now = ground (arith, d) in
    subst
      (λ (t : Scheduler).
        (t.in_flight
          ≡ s.in_flight + min (s.concurrency - s.in_flight) (changes (may_run now) s.items))
        × (verify_queue t ≡ true))
      at (omega (arith, started, due, flight, workers), accepted)

step-IsQueue : (s : Scheduler) (x : Step) → IsRunning s x → IsQueue s → IsQueue (step s x)
unfolding step tick_start
step-IsQueue s (begins now) r q = elim (Bool-cases s.draining) [
  | inl d ↦
      let at : check_clock s now ≡ tick_start s now = ground (arith, d) in
      subst IsQueue at (check_clock-IsQueue s now q)
  | inr d ↦
      let at : fill_workers (check_clock s now) now ≡ tick_start s now = ground (arith, d) in
      subst IsQueue at (fill_workers-IsQueue (check_clock s now) now (check_clock-IsQueue s now q))
]
step-IsQueue s (ends id ending at now) (item, h, r) q =
    fill_workers-IsQueue (finish s id ending at) now (finish-IsQueue s id ending at item h r q)
step-IsQueue s (cancels id) r q = cancel_job-IsQueue s id q

-- A whole tick is its beginning and the ends of its handlers.
pub ends_of : ℕ → List (ℕ × Ending × ℕ) → List Step
ends_of now [] = []
ends_of now ((id, ending, at) ∷ rest) = ends id ending at now ∷ ends_of now rest

tick_loop-steps :
    (s : Scheduler) (now : ℕ) (endings : List (ℕ × Ending × ℕ))
    → tick_loop s now endings ≡ steps s (ends_of now endings)
unfolding tick_loop steps step ends_of
tick_loop-steps s now [] = refl
tick_loop-steps s now ((id, ending, at) ∷ rest) =
    tick_loop-steps (fill_workers (finish s id ending at) now) now rest

pub tick-steps :
    (s : Scheduler) (now : ℕ) (endings : List (ℕ × Ending × ℕ))
    → tick s now endings ≡ steps s (begins now ∷ ends_of now endings)
unfolding tick steps step
tick-steps s now endings = tick_loop-steps (tick_start s now) now endings

-- Through ticks, the ends of handlers that are running, and cancellations, in whatever order, `verifyQueue` accepts
-- the queue that it accepted: the counter is the number of running jobs, and no more run than there are workers.
pub steps-verified :
    (s : Scheduler) (xs : List Step)
    → verify_queue s ≡ true
    → UniqueIds s.items
    → AreRunning s xs
    → verify_queue (steps s xs) ≡ true
unfolding steps
steps-verified s [] v u r = v
steps-verified s (x ∷ xs) v u (r, rs) =
    let (w, n) = step-IsQueue s x r (v, u) in steps-verified (step s x) xs w n rs

-- An entry that has ended for good by a cancellation: it is cancelled, is not picked at that time, whatever it
-- is, and has the retries that it had.
abbrev pub IsStopped : Item → Item → ℕ → Type 0
IsStopped before after later =
    (after.job.status ≡ cancelled)
    × (may_run later after ≡ false)
    × (after.job.retries ≡ before.job.retries)

-- A running job that is cancelled has the status cancelled when its handler rejects or runs out of time: it
-- can be picked at no later time, is not retried and goes to no dead letters. When its handler resolves, the
-- cancellation is lost: a job with no next time is completed and is not picked again, and a job that recurs
-- is scheduled, and is picked from its next time on.
pub cancelled-ended :
    (item : Item) (dead : List ℕ) (now later : ℕ)
    → runs item ≡ true
    → let after : Ending → Item × List ℕ = λ ending. ended (cancelled_item item) dead ending now in
      IsStopped item (after rejected).0 later
      × ((after rejected).1 ≡ dead)
      × IsStopped item (after timed_out).0 later
      × ((after timed_out).1 ≡ dead)
      × ((after resolved).0.job.status
          ≡ elim (next_recurrence item.recurrence now) as (λ _. JobStatus) [
            | none ↦ completed
            | some next ↦ scheduled
          ])
      × (may_run later (after resolved).0
          ≡ elim (next_recurrence item.recurrence now) as (λ _. Bool) [
            | none ↦ false
            | some next ↦ leb next later
          ])
unfolding ended cancelled_item on_complete mark_cancelled mark_completed reschedule is_due
cancelled-ended item dead now later h = ground (arith, h)
