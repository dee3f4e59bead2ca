-- ===== src/Jobs/Scheduler/Picked.antt =====
-- Which job _pickDue of src/application/scheduler/scheduler.js picks.
use oncall_backend_private.Prelude.{
  ℕ, suc, ◌≤◌, ◌<◌, ◌≡◌, ◌≢◌, ltb, refl, sym, ap, ◌∙◌, subst, Bool, true, false, ◌&&◌, Option, none,
  some, List, [], ◌∷◌, ◌==◌, ==_iff, ==_refl, if◌then◌else◌, arith, All, All-imply, ltb→lt,
  Bool-cases, inl, inr, ◌⊎◌,
}
use oncall_backend_private.Sql.{select_first, changes}
use oncall_backend_private.Jobs.Scheduler.{Item, has_id, may_run, goes_before, pick_from, pick_due}

before_chain :
    (x b y : Item) → goes_before x b ≡ false → goes_before y b ≡ true → goes_before x y ≡ false
before_chain x b y h g = ground (arith, h, g)

irreflexive : (x : Item) → goes_before x x ≡ false
irreflexive x = ground arith

-- An entry does not go before another, if it may run at all.
abbrev pub YieldsTo : ℕ → Item → Item → Type 0
YieldsTo now item x = (may_run now x && goes_before x item) ≡ false

both : (p q : Bool) → (p && q) ≡ true → (p ≡ true) × (q ≡ true)
both true q h = (refl, h)
both false q h = absurd (ground (arith, h))

second_false : (p q : Bool) → q ≡ false → (p && q) ≡ false
second_false true q h = h
second_false false q h = refl

first_false : (p q : Bool) → (p && q) ≡ false → q ≡ true → p ≡ false
first_false true q h g = absurd (ground (arith, h, g))
first_false false q h g = refl

no_pair : (p q : Bool) → p ≡ false → (p && q) ≡ false
no_pair p q h = ground (arith, h)

not_before : (x b : Item) → goes_before x b ≡ true → goes_before b x ≡ false
not_before x b h = ground (arith, h)

yields :
    (now : ℕ) (b x item : Item)
    → (may_run now x && goes_before x b) ≡ false
    → (goes_before x b ≡ false → goes_before x item ≡ false)
    → YieldsTo now item x
yields now b x item n later = elim (Bool-cases (goes_before x b)) [
  | inl g ↦
      no_pair (may_run now x) (goes_before x item)
        (first_false (may_run now x) (goes_before x b) n g)
  | inr g ↦ second_false (may_run now x) (goes_before x item) (later g)
]

-- What a picked entry is: it may run, and it was a candidate or stands in the list.
pick_from-first :
    (now : ℕ) (b : Item) (items : List Item) (item : Item)
    → pick_from now (some b) items ≡ some item
    → (goes_before b item ≡ false)
      × ((x : Item) → goes_before x b ≡ false → goes_before x item ≡ false)
      × All (YieldsTo now item) items
unfolding pick_from
pick_from-first now b [] item h =
    let same : b ≡ item = ground (arith, h) in
    (
      subst (λ x. goes_before b x ≡ false) same (irreflexive b),
      λ x n. subst (λ y. goes_before x y ≡ false) same n,
      tt,
    )
pick_from-first now b (x ∷ items) item h = elim (Bool-cases (may_run now x && goes_before x b)) [
  | inr n ↦
      let kept : pick_from now (some b) items ≡ some item =
        ap (λ p. pick_from now (if p then some x else some b) items) (sym n) ∙ h in
      let (own, others, rest) = pick_from-first now b items item kept in
      (own, others, (yields now b x item n (others x), rest))
  | inl y ↦
      let taken : pick_from now (some x) items ≡ some item =
        ap (λ p. pick_from now (if p then some x else some b) items) (sym y) ∙ h in
      let (own, others, rest) = pick_from-first now x items item taken in
      let better = (both (may_run now x) (goes_before x b) y).1 in
      (
        others b (not_before x b better),
        λ z n. others z (before_chain z b x n better),
        (second_false (may_run now x) (goes_before x item) own, rest),
      )
]

-- Each id stands in one entry (`records` is a Map).
abbrev pub UniqueIds : List Item → Type 0
UniqueIds [] = Unit {0}
UniqueIds (x ∷ items) = (select_first (has_id x.job.job_id) items ≡ none) × UniqueIds items

absent :
    (x item : Item) (items : List Item)
    → select_first (has_id x.job.job_id) items ≡ none
    → select_first (has_id item.job.job_id) items ≡ some item
    → (x.job.job_id == item.job.job_id) ≡ false
absent x item items n h = elim (Bool-cases (x.job.job_id == item.job.job_id)) [
  | inr e ↦ e
  | inl e ↦
      let same = (==_iff x.job.job_id item.job.job_id).0 e in
      let gone = subst (λ i. select_first (has_id i) items ≡ none) same n in
      absurd (ground (arith, gone, h))
]

IsCandidate : ℕ → Item → List Item → Type 0
IsCandidate now item items =
    (may_run now item ≡ true) × (select_first (has_id item.job.job_id) items ≡ some item)

IsCandidate-later :
    (now : ℕ) (x item : Item) (items : List Item)
    → select_first (has_id x.job.job_id) items ≡ none
    → IsCandidate now item items
    → IsCandidate now item (x ∷ items)
unfolding IsCandidate select_first
IsCandidate-later now x item items n (m, h) = (m, ground (arith, absent x item items n h, h))

IsCandidate-first :
    (now : ℕ) (x : Item) (items : List Item) → may_run now x ≡ true → IsCandidate now x (x ∷ items)
unfolding IsCandidate select_first
IsCandidate-first now x items m = (m, ground (arith, ==_refl x.job.job_id))

pick_from-IsCandidate :
    (now : ℕ) (b : Option Item) (items : List Item) (item : Item)
    → UniqueIds items
    → pick_from now b items ≡ some item
    → (b ≡ some item) ⊎ IsCandidate now item items
unfolding pick_from
pick_from-IsCandidate now b [] item u h = inl h
pick_from-IsCandidate now none (x ∷ items) item (n, u) h = elim (Bool-cases (may_run now x)) [
  | inr m ↦
      let rest = ap (λ p. pick_from now (if p then some x else none) items) (sym m) ∙ h in
      elim (pick_from-IsCandidate now none items item u rest) [
        | inl e ↦ absurd (ground (arith, e))
        | inr c ↦ inr (IsCandidate-later now x item items n c)
      ]
  | inl m ↦
      let rest = ap (λ p. pick_from now (if p then some x else none) items) (sym m) ∙ h in
      elim (pick_from-IsCandidate now (some x) items item u rest) [
        | inl e ↦
            let same : x ≡ item = ground (arith, e) in
            inr (subst (λ y. IsCandidate now y (x ∷ items)) same (IsCandidate-first now x items m))
        | inr c ↦ inr (IsCandidate-later now x item items n c)
      ]
]
pick_from-IsCandidate now (some b) (x ∷ items) item (n, u) h =
    elim (Bool-cases (may_run now x && goes_before x b)) [
      | inr m ↦
          let rest = ap (λ p. pick_from now (if p then some x else some b) items) (sym m) ∙ h in
          elim (pick_from-IsCandidate now (some b) items item u rest) [
            | inl e ↦ inl e
            | inr c ↦ inr (IsCandidate-later now x item items n c)
          ]
      | inl m ↦
          let rest = ap (λ p. pick_from now (if p then some x else some b) items) (sym m) ∙ h in
          elim (pick_from-IsCandidate now (some x) items item u rest) [
            | inl e ↦
                let same : x ≡ item = ground (arith, e) in
                inr (
                  subst (λ y. IsCandidate now y (x ∷ items)) same
                    (IsCandidate-first now x items (both (may_run now x) (goes_before x b) m).0))
            | inr c ↦ inr (IsCandidate-later now x item items n c)
          ]
    ]

pick_none : (now : ℕ) (b : Item) (items : List Item) → pick_from now (some b) items ≢ none
unfolding pick_from
pick_none now b [] = λ h. ground (arith, h)
pick_none now b (x ∷ items) = elim (Bool-cases (may_run now x && goes_before x b)) [
  | inl m ↦ λ h.
      pick_none now x items
        (ap (λ p. pick_from now (if p then some x else some b) items) (sym m) ∙ h)
  | inr m ↦ λ h.
      pick_none now b items
        (ap (λ p. pick_from now (if p then some x else some b) items) (sym m) ∙ h)
]

pub pick_due-none :
    (items : List Item) (now : ℕ) → pick_due items now ≡ none → changes (may_run now) items ≡ 0
unfolding pick_due pick_from changes
pick_due-none [] now h = refl
pick_due-none (x ∷ items) now h = elim (Bool-cases (may_run now x)) [
  | inl m ↦ absurd (
      pick_none now x items
        (ap (λ p. pick_from now (if p then some x else none) items) (sym m) ∙ h))
  | inr m ↦
      ap (λ p. if p then suc (changes (may_run now) items) else changes (may_run now) items) m
      ∙ pick_due-none items now
          (ap (λ p. pick_from now (if p then some x else none) items) (sym m) ∙ h)
]

YieldsTo-All :
    (items : List Item) (now : ℕ) (item : Item)
    → pick_due items now ≡ some item
    → All (YieldsTo now item) items
unfolding pick_due pick_from
YieldsTo-All [] now item h = tt
YieldsTo-All (x ∷ items) now item h = elim (Bool-cases (may_run now x)) [
  | inl m ↦
      let (own, _, rest) =
        pick_from-first now x items item
          (ap (λ p. pick_from now (if p then some x else none) items) (sym m) ∙ h) in
      (second_false (may_run now x) (goes_before x item) own, rest)
  | inr m ↦ (
    no_pair (may_run now x) (goes_before x item) m,
    YieldsTo-All items now item
        (ap (λ p. pick_from now (if p then some x else none) items) (sym m) ∙ h),
  )
]

-- A job stands in front of another: by a higher priority, then by an earlier run, then by not being younger.
abbrev pub IsInFront : Item → Item → Type 0
IsInFront a b =
    (b.job.priority < a.job.priority)
    ⊎ ((a.job.priority ≡ b.job.priority)
        × ((a.job.next_run < b.job.next_run)
            ⊎ ((a.job.next_run ≡ b.job.next_run) × (a.created_at ≤ b.created_at))))

goes_before-IsInFront : (x item : Item) → goes_before x item ≡ false → IsInFront item x
goes_before-IsInFront x item h = elim (Bool-cases (ltb x.job.priority item.job.priority)) [
  | inl l ↦ inl (ltb→lt x.job.priority item.job.priority l)
  | inr l ↦ elim (Bool-cases (ltb item.job.next_run x.job.next_run)) [
    | inl n ↦ inr (ground (arith, l, h), inl (ltb→lt item.job.next_run x.job.next_run n))
    | inr n ↦ inr (ground (arith, l, h), inr (ground (arith, l, n, h), ground (arith, l, n, h)))
  ]
]

-- A job that may be started at a time waits, or stands behind.
abbrev pub IsBehind : ℕ → Item → Item → Type 0
IsBehind now item x = (may_run now x ≡ false) ⊎ IsInFront item x

YieldsTo-IsBehind : (now : ℕ) (item x : Item) → YieldsTo now item x → IsBehind now item x
YieldsTo-IsBehind now item x h = elim (Bool-cases (may_run now x)) [
  | inr m ↦ inl m
  | inl m ↦ inr (goes_before-IsInFront x item (ap (λ b. b && goes_before x item) (sym m) ∙ h))
]

-- The job that is picked is one of the queue that is due and neither running nor paused, and it stands in front of
-- all of those: it has a higher priority, or the same priority and an earlier run, or both the same and it was
-- created no later.
pub pick_due-IsFirst :
    (items : List Item) (now : ℕ) (item : Item)
    → UniqueIds items
    → pick_due items now ≡ some item
    → (may_run now item ≡ true)
      × (select_first (has_id item.job.job_id) items ≡ some item)
      × All (IsBehind now item) items
unfolding pick_due IsCandidate
pick_due-IsFirst items now item u h = elim (pick_from-IsCandidate now none items item u h) [
  | inl e ↦ absurd (ground (arith, e))
  | inr (m, f) ↦ (
    m,
    f,
    All-imply (YieldsTo now item) (IsBehind now item) items (YieldsTo-IsBehind now item)
        (YieldsTo-All items now item h),
  )
]
