-- ===== src/Jobs/Scheduler/Filled.antt =====
-- What the loop `fill` of src/application/scheduler/scheduler.js starts.
use oncall_backend_private.Prelude.{
  ℕ, zero, suc, ◌+◌, ◌≡◌, refl, sym, ap, ◌∙◌, subst, min, Bool, true, false, none, some, List, [],
  ◌∷◌, ◌==◌, ==_iff, if◌then◌else◌, arith, Bool-cases, Option-cases, inl, inr,
}
use oncall_backend_private.Sql.{select_first, update_where, changes}
use oncall_backend_private.Jobs.{mark_running}
use oncall_backend_private.Jobs.Scheduler.{
  Item, Scheduler, has_id, runs, may_run, pick_due, execute, fill,
}
use oncall_backend_private.Jobs.Scheduler.Picked.{UniqueIds, pick_due-none, pick_due-IsFirst}

unfoldable pub one : Bool → ℕ
one true = 1
one false = 0

unfoldable pub KeepsId : ℕ → (Item → Item) → Type 0
KeepsId id f = (x : Item) → has_id id x ≡ true → (f x).job.job_id ≡ x.job.job_id

pub changes-absent :
    (p : Item → Bool) (f : Item → Item) (id : ℕ) (items : List Item)
    → select_first (has_id id) items ≡ none
    → changes p (update_where (has_id id) f items) ≡ changes p items
unfolding changes update_where select_first
changes-absent p f id [] h = refl
changes-absent p f id (x ∷ items) h = ground (arith, h, changes-absent p f id items)

absent_id :
    (x : Item) (id : ℕ) (items : List Item)
    → select_first (has_id x.job.job_id) items ≡ none
    → (x.job.job_id == id) ≡ true
    → select_first (has_id id) items ≡ none
absent_id x id items n e =
    subst (λ i. select_first (has_id i) items ≡ none) ((==_iff x.job.job_id id).0 e) n

-- What a change of one entry does to the number of those that pass a test.
pub changes-update :
    (p : Item → Bool) (f : Item → Item) (id : ℕ) (items : List Item) (item : Item)
    → UniqueIds items
    → select_first (has_id id) items ≡ some item
    → changes p (update_where (has_id id) f items) + one (p item)
      ≡ changes p items + one (p (f item))
unfolding changes update_where select_first one
changes-update p f id [] item u h = absurd (ground (arith, h))
changes-update p f id (x ∷ items) item (n, u) h = elim (Bool-cases (x.job.job_id == id)) [
  | inl e ↦
      let same : x ≡ item = ground (arith, e, h) in
      subst
        (λ (y : Item).
          changes p (update_where (has_id id) f (x ∷ items)) + one (p y)
          ≡ changes p (x ∷ items) + one (p (f y)))
        same (ground (arith, e, changes-absent p f id items (absent_id x id items n e)))
  | inr e ↦ ground (arith, e, changes-update p f id items item u (ground (arith, e, h)))
]

absent_kept :
    (f : Item → Item) (id j : ℕ) (items : List Item)
    → KeepsId id f
    → select_first (has_id j) items ≡ none
    → select_first (has_id j) (update_where (has_id id) f items) ≡ none
unfolding update_where select_first KeepsId
absent_kept f id j [] k h = refl
absent_kept f id j (x ∷ items) k h = elim (Bool-cases (x.job.job_id == id)) [
  | inl e ↦ ground (arith, e, h, absent_kept f id j items k, ap (λ i. i == j) (k x e))
  | inr e ↦ ground (arith, e, h, absent_kept f id j items k)
]

kept_id :
    (f : Item → Item) (id : ℕ) (x : Item)
    → KeepsId id f
    → (if has_id id x then f x else x).job.job_id ≡ x.job.job_id
unfolding KeepsId
kept_id f id x k = elim (Bool-cases (has_id id x)) [
  | inl e ↦ ap (λ b. (if b then f x else x).job.job_id) e ∙ k x e
  | inr e ↦ ap (λ b. (if b then f x else x).job.job_id) e
]

pub UniqueIds-update :
    (f : Item → Item) (id : ℕ) (items : List Item)
    → KeepsId id f
    → UniqueIds items
    → UniqueIds (update_where (has_id id) f items)
unfolding update_where
UniqueIds-update f id [] k u = tt
UniqueIds-update f id (x ∷ items) k (n, u) = (
  subst (λ i. select_first (has_id i) (update_where (has_id id) f items) ≡ none)
      (sym (kept_id f id x k)) (absent_kept f id x.job.job_id items k n),
  UniqueIds-update f id items k u,
)

-- What a start does to the numbers of running and of due jobs.
execute-counts :
    (s : Scheduler) (item : Item) (now : ℕ)
    → UniqueIds s.items
    → may_run now item ≡ true
    → select_first (has_id item.job.job_id) s.items ≡ some item
    → let t = execute s item now in
      (changes runs t.items ≡ suc (changes runs s.items))
      × (suc (changes (may_run now) t.items) ≡ changes (may_run now) s.items)
      × UniqueIds t.items
unfolding execute mark_running one KeepsId
execute-counts s item now u m h =
    let start : Item → Item =
      λ x. record x { job = mark_running x.job now; running_since = some now } in
    (
      ground (arith, m, changes-update runs start item.job.job_id s.items item u h),
      ground (arith, m, changes-update (may_run now) start item.job.job_id s.items item u h),
      UniqueIds-update start item.job.job_id s.items (λ x _. refl) u,
    )

execute-in_flight :
    (s : Scheduler) (item : Item) (now : ℕ) → (execute s item now).in_flight ≡ suc s.in_flight
unfolding execute
execute-in_flight s item now = refl

execute-concurrency :
    (s : Scheduler) (item : Item) (now : ℕ) → (execute s item now).concurrency ≡ s.concurrency
unfolding execute
execute-concurrency s item now = refl

-- What the workers start: as many jobs as are due, or as many as there are free workers.
abbrev pub IsFilled : ℕ → ℕ → Scheduler → Scheduler → Type 0
IsFilled free now s t =
    (t.in_flight ≡ s.in_flight + min free (changes (may_run now) s.items))
    × (changes runs t.items ≡ changes runs s.items + min free (changes (may_run now) s.items))
    × (t.concurrency ≡ s.concurrency)
    × UniqueIds t.items

pub fill-IsFilled :
    (free : ℕ) (s : Scheduler) (now : ℕ) → UniqueIds s.items → IsFilled free now s (fill free s now)
unfolding fill
fill-IsFilled zero s now u = (omega arith, omega arith, refl, u)
fill-IsFilled (suc free) s now u = elim (Option-cases (pick_due s.items now)) [
  | inl n ↦
      let idle = pick_due-none s.items now n in
      let at : s ≡ fill (suc free) s now = ground (arith, n) in
      subst (IsFilled (suc free) now s) at (omega (arith, idle), omega (arith, idle), refl, u)
  | inr (item, n) ↦
      let (m, f, _) = pick_due-IsFirst s.items now item u n in
      let next = execute s item now in
      let (ran, due, unique) = execute-counts s item now u m f in
      let (flight, count, same, kept) = fill-IsFilled free next now unique in
      let at : fill free next now ≡ fill (suc free) s now = ground (arith, n) in
      subst (IsFilled (suc free) now s) at (
        omega (arith, flight, execute-in_flight s item now, due),
        omega (arith, count, ran, due),
        same ∙ execute-concurrency s item now,
        kept,
      )
]
