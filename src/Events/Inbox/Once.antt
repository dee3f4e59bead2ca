-- ===== src/Events/Inbox/Once.antt =====
-- How often the handler of src/application/shared/inbox.js takes effect.
use Prim.Native.String.{String}
use oncall_backend_private.Prelude.{
  ℕ, suc, ◌≤◌, ◌≡◌, refl, sym, subst, Bool, true, false, Option, none, some, List, [], ◌∷◌, ◌++◌,
  includes, includes-append, if◌then◌else◌, arith, string_key, nat_key, pair_key, lookup, ◌==◌,
  lookup-insert, lookup-insert_other, lookup-erase, lookup-erase_other, same_pair, same_refl,
  Bool-cases, inl, inr,
}
use oncall_backend_private.Events.Inbox.{
  Processed, ids_of, has, mark, Phase, checking, handling, marking, Guards, Step, delivered,
  deliver, go_on, step, steps, new_guards,
}

-- How many effects a consumer has had for an event.
pub count : List (String × ℕ) → String × ℕ → ℕ
count [] k = 0
count (x ∷ xs) k = let rest = count xs k in if same_pair k x then suc rest else rest

includes-add :
    (ids : List ℕ) (id j : ℕ)
    → includes (if includes ids id then ids else ids ++ id ∷ []) j
      ≡ (if j == id then true else includes ids j)
unfolding includes
includes-add ids id j = ground (arith, includes-append ids (id ∷ []) j)

pub has-mark :
    (store : Processed) (k l : String × ℕ)
    → has (mark store k) l ≡ (if same_pair l k then true else has store l)
unfolding has mark ids_of same_pair
has-mark store (c, i) (d, j) = elim (Bool-cases (string_key.same d c)) [
  | inl e ↦
      subst
        (λ x.
          has (mark store (c, i)) (x, j)
          ≡ (if same_pair (x, j) (c, i) then true else has store (x, j)))
        (sym ((string_key.same_iff d c).0 e))
        (ground (
          arith,
          lookup-insert c
              (if includes (ids_of store c) i then ids_of store c else ids_of store c ++ i ∷ [])
              store,
          includes-add (ids_of store c) i j,
          same_refl c,
        ))
  | inr e ↦ ground (
    arith,
    e,
    lookup-insert_other c d
        (if includes (ids_of store c) i then ids_of store c else ids_of store c ++ i ∷ []) store e,
  )
]

-- What the guards know of one consumer and event.
abbrev pub IsConsistent : Bool → Option Phase → ℕ → Type 0
IsConsistent b none n = n ≡ (if b then 1 else 0)
IsConsistent b (some checking) n = n ≡ (if b then 1 else 0)
IsConsistent b (some handling) n = (n ≡ 0) × (b ≡ false)
IsConsistent b (some marking) n = (n ≡ 1) × (b ≡ false)

abbrev pub IsSound : Guards → Type 0
IsSound g =
    (k : String × ℕ) → IsConsistent (has g.store k) (lookup k g.in_flight) (count g.effects k)

-- A step of one call leaves the others alone.
go_on_other :
    (g : Guards) (k l : String × ℕ) (s : Step) (phase : Phase)
    → same_pair l k ≡ false
    → (has (go_on g k s phase).store l ≡ has g.store l)
      × (lookup l (go_on g k s phase).in_flight ≡ lookup l g.in_flight)
      × (count (go_on g k s phase).effects l ≡ count g.effects l)
unfolding go_on count
go_on_other g k l s phase h = ground (
  arith,
  h,
  has-mark g.store k l,
  lookup-insert_other k l handling g.in_flight h,
  lookup-insert_other k l marking g.in_flight h,
  lookup-erase_other k l g.in_flight h,
)

go_on_same :
    (g : Guards) (k : String × ℕ) (s : Step) (phase : Phase)
    → IsConsistent (has g.store k) (some phase) (count g.effects k)
    → lookup k g.in_flight ≡ some phase
    → IsConsistent
        (has (go_on g k s phase).store k)
        (lookup k (go_on g k s phase).in_flight)
        (count (go_on g k s phase).effects k)
unfolding go_on count
go_on_same g k s phase h e = ground (
  arith,
  h,
  e,
  has-mark g.store k k,
  lookup-insert k handling g.in_flight,
  lookup-insert k marking g.in_flight,
  lookup-erase k g.in_flight,
  same_refl k,
)

deliver_same :
    (g : Guards) (k : String × ℕ)
    → IsConsistent (has g.store k) (lookup k g.in_flight) (count g.effects k)
    → IsConsistent
        (has (deliver g k).store k)
        (lookup k (deliver g k).in_flight)
        (count (deliver g k).effects k)
unfolding deliver
deliver_same g k h = ground (arith, h, lookup-insert k checking g.in_flight)

deliver_other :
    (g : Guards) (k l : String × ℕ)
    → same_pair l k ≡ false
    → (has (deliver g k).store l ≡ has g.store l)
      × (lookup l (deliver g k).in_flight ≡ lookup l g.in_flight)
      × (count (deliver g k).effects l ≡ count g.effects l)
unfolding deliver
deliver_other g k l h = ground (arith, h, lookup-insert_other k l checking g.in_flight h)

step_same :
    (g : Guards) (s : Step) (k : String × ℕ)
    → IsConsistent (has g.store k) (lookup k g.in_flight) (count g.effects k)
    → IsConsistent
        (has (step g (k, s)).store k)
        (lookup k (step g (k, s)).in_flight)
        (count (step g (k, s)).effects k)
unfolding step
step_same g delivered k h = deliver_same g k h
step_same g s k h =
    ground
      (arith, h, go_on_same g k s checking, go_on_same g k s handling, go_on_same g k s marking)

pub step_other :
    (g : Guards) (s : Step) (k l : String × ℕ)
    → same_pair l k ≡ false
    → (has (step g (k, s)).store l ≡ has g.store l)
      × (lookup l (step g (k, s)).in_flight ≡ lookup l g.in_flight)
      × (count (step g (k, s)).effects l ≡ count g.effects l)
unfolding step
step_other g delivered k l h = deliver_other g k l h
step_other g s k l h = ground (
  arith,
  go_on_other g k l s checking h,
  go_on_other g k l s handling h,
  go_on_other g k l s marking h,
)

step-IsSound : (g : Guards) (s : (String × ℕ) × Step) → IsSound g → IsSound (step g s)
step-IsSound g (k, s) h l = elim (Bool-cases (same_pair l k)) [
  | inl e ↦
      subst
        (λ x.
          IsConsistent (has (step g (k, s)).store x) (lookup x (step g (k, s)).in_flight)
            (count (step g (k, s)).effects x))
        (sym ((pair_key.same_iff l k).0 e)) (step_same g s k (h k))
  | inr e ↦
      let (stored, flying, counted) = step_other g s k l e in rw (stored, flying, counted) (h l)
]

pub steps-IsSound :
    (g : Guards) (ss : List ((String × ℕ) × Step)) → IsSound g → IsSound (steps g ss)
unfolding steps
steps-IsSound g [] h = h
steps-IsSound g (s ∷ ss) h = steps-IsSound (step g s) ss (step-IsSound g s h)

pub new-IsSound : IsSound new_guards
unfolding has lookup count includes ids_of
new-IsSound k = refl

-- A handler that has resolved and whose event is not yet marked counts as done.
abbrev pub is_done : Option Phase → Bool → Bool
is_done (some marking) b = true
is_done _ b = b

consistent-count :
    (b : Bool) (phase : Option Phase) (n : ℕ)
    → IsConsistent b phase n
    → (n ≤ 1) × (n ≡ (if is_done phase b then 1 else 0))
consistent-count b phase n h = (ground (arith, h), ground (arith, h))

-- However the deliveries of events and the calls that they start interleave, redeliveries and failures of
-- handlers included, each consumer has had at most one effect of each event: one if the event is recorded
-- as processed or its handler has resolved and the mark is under way, and none otherwise.
pub effects_once :
    (ss : List ((String × ℕ) × Step)) (k : String × ℕ)
    → let g = steps new_guards ss in
      (count g.effects k ≤ 1)
      × (count g.effects k ≡ (if is_done (lookup k g.in_flight) (has g.store k) then 1 else 0))
effects_once ss k =
    let g = steps new_guards ss in
    let h = steps-IsSound new_guards ss new-IsSound k in
    consistent-count (has g.store k) (lookup k g.in_flight) (count g.effects k) h
