-- ===== src/Workflow/Engine/Keeps.antt =====
-- How the calls of src/application/workflow/workflowService.js keep a property of the registry, the settings
-- and the storage: it has to be kept by each write.
use Prim.Native.String.{String}
use oncall_backend_private.Prelude.{
  ℕ, ◌≡◌, refl, ◌∙◌, subst, Option, none, some, List, [], ◌∷◌, arith, string_key, nat_key, pair_key,
  lookup, Bool-cases, Option-cases, inl, inr, ◌⊎◌,
}
use oncall_backend_private.Locks.{Lock, is_name}
use oncall_backend_private.Locks.Service.{
  Buckets, Reply, done, thrown, memory_provider, try_acquire, release_lock,
}
use oncall_backend_private.Workflow.Definition.{Definition, is_terminal, is_failure_state}
use oncall_backend_private.Workflow.Instance.{Instance, complete, fail, from_model}
use oncall_backend_private.Workflow.Engine.{
  EventType, failed, finished, Engine, Faults, Answer, definition_of, record_engine_history, emit,
  persist, is_corrupt, cancel_timeout, schedule_timeout, arm_timeout, finish, finalize, settle,
}
use oncall_backend_private.Workflow.Engine.Calls.{
  lock_spec, released, on_lock, guarded, load, recover_one, recover_all,
}

-- Two engines with one registry, one configuration and one storage.
abbrev pub IsSame : {V : Type 0} → Engine V → Engine V → Type 0
IsSame e g =
    (e.by_key ≡ g.by_key)
    × (e.by_name ≡ g.by_name)
    × (e.settings ≡ g.settings)
    × (e.stored ≡ g.stored)

Answer-cases :
    (r : Reply (Option Lock))
    → ((l : Lock) × (r ≡ done (some l)))
      ⊎ ((r ≡ done none)
          ⊎ ((why : oncall_backend_private.Locks.Service.LockError) × (r ≡ thrown why)))
Answer-cases (done (some l)) = inl (l, refl)
Answer-cases (done none) = inr (inl refl)
Answer-cases (thrown why) = inr (inr (why, refl))

module _ {V : Type 0} where
  pub cancel_timeout-IsSame : (e : Engine V) (id : String) → IsSame e (cancel_timeout e id)
  unfolding cancel_timeout
  cancel_timeout-IsSame e id = ground arith

  pub arm_timeout-IsSame :
      (e : Engine V) (i : Instance V) (def : Definition V) (now : ℕ)
      → IsSame e (arm_timeout e i def now)
  unfolding arm_timeout schedule_timeout
  arm_timeout-IsSame e i def now = ground (arith, cancel_timeout-IsSame e i.workflow_id)

  pub emit-IsSame : (e : Engine V) (type : EventType) (i : Instance V) → IsSame e (emit e type i)
  unfolding emit
  emit-IsSame e type i = (refl, refl, refl, refl)

  recover_one-IsSame : (e : Engine V) (now : ℕ) (i : Instance V) → IsSame e (recover_one e now i)
  unfolding recover_one
  recover_one-IsSame e now i = elim (Option-cases (definition_of e i)) [
    | inl n ↦ ground (arith, n)
    | inr (def, n) ↦ ground (arith, n, arm_timeout-IsSame e (from_model i now) def now)
  ]

  pub recover_all-IsSame :
      (e : Engine V) (now : ℕ) (rest : List (String × Instance V))
      → IsSame e (recover_all e now rest)
  unfolding recover_all
  recover_all-IsSame e now [] = (refl, refl, refl, refl)
  recover_all-IsSame e now ((id, i) ∷ rest) =
      let (a, b, c, d) = recover_one-IsSame e now i in
      let (k, l, m, n) = recover_all-IsSame (recover_one e now i) now rest in
      (a ∙ k, b ∙ l, c ∙ m, d ∙ n)

module _ {V : Type 0} (P : Engine V → Type 0)
    (same : (e g : Engine V) → IsSame e g → P e → P g) where
  on_lock-keeps :
      (e : Engine V) (id : String) (now : ℕ) (f : Engine V → Engine V × Answer V) (s : Buckets)
      (r : Reply (Option Lock))
      → P e
      → ((g : Engine V) → IsSame e g → P (f g).0)
      → P (on_lock e id now f (s, r)).0
  unfolding on_lock released
  on_lock-keeps e id now f s (done (some l)) p h =
      same (f (record e { locks = some s })).0 _ (refl, refl, refl, refl)
        (h (record e { locks = some s }) (refl, refl, refl, refl))
  on_lock-keeps e id now f s (done none) p h = same e _ (refl, refl, refl, refl) p
  on_lock-keeps e id now f s (thrown why) p h = same e _ (refl, refl, refl, refl) p

  pub guarded-keeps :
      (e : Engine V) (id : String) (now : ℕ) (f : Engine V → Engine V × Answer V)
      → P e
      → ((g : Engine V) → IsSame e g → P (f g).0)
      → P (guarded e id now f).0
  unfolding guarded
  guarded-keeps e id now f p h = elim (Option-cases e.locks) [
    | inl n ↦
        let at : (f e).0 ≡ (guarded e id now f).0 = ground (arith, n) in
        subst P at (h e (refl, refl, refl, refl))
    | inr (s, n) ↦
        let locked = try_acquire s (lock_spec e.settings id) now in
        let at : (on_lock e id now f (locked.0, locked.1)).0 ≡ (guarded e id now f).0 =
          ground (arith, n) in
        subst P at (on_lock-keeps e id now f locked.0 locked.1 p h)
  ]

  pub load-keeps :
      (e : Engine V) (id : String) (now : ℕ) (faults : Faults)
      (f : Instance V → Definition V → Engine V × Answer V)
      → P e
      → ((i : Instance V) (def : Definition V)
          → lookup id e.stored ≡ some i
          → definition_of e (from_model i now) ≡ some def
          → P (f (from_model i now) def).0)
      → P (load e id now faults f).0
  unfolding load
  load-keeps e id now faults f p h = elim (Bool-cases faults.get_fails) [
    | inl b ↦ let at : e ≡ (load e id now faults f).0 = ground (arith, b) in subst P at p
    | inr b ↦ elim (Option-cases (lookup id e.stored)) [
      | inl n ↦ let at : e ≡ (load e id now faults f).0 = ground (arith, b, n) in subst P at p
      | inr (i, n) ↦ elim (Option-cases (definition_of e (from_model i now))) [
        | inl d ↦ let at : e ≡ (load e id now faults f).0 = ground (arith, b, n, d) in subst P at p
        | inr (def, d) ↦ elim (Bool-cases (is_corrupt i)) [
          | inl c ↦
              let at : e ≡ (load e id now faults f).0 = ground (arith, b, n, d, c) in subst P at p
          | inr c ↦
              let at : (f (from_model i now) def).0 ≡ (load e id now faults f).0 =
                ground (arith, b, n, d, c) in
              subst P at (h i def n d)
        ]
      ]
    ]
  ]

  module _ (Q : Instance V → Type 0)
      (store : (e : Engine V) (i : Instance V) → Q i → P e → P (persist e i))
      (over : (i : Instance V) (now : ℕ) → Q i → Q (complete i now) × Q (fail i i.state now)) where
    finish-keeps :
        (e : Engine V) (i : Instance V) (type : EventType) (now : ℕ) (faults : Faults)
        → Q i
        → P e
        → P (finish e i type now faults).0
    unfolding finish emit record_engine_history
    finish-keeps e i type now faults q p = elim (Bool-cases faults.second_put_fails) [
      | inl h ↦ same e (finish e i type now faults).0 (ground (arith, h)) p
      | inr h ↦
          same (persist e i) (finish e i type now faults).0 (ground (arith, h)) (store e i q p)
    ]

    finalize-keeps :
        (e : Engine V) (i : Instance V) (def : Definition V) (now : ℕ) (faults : Faults)
        → Q i
        → P e
        → P (finalize e i def now faults).0
    unfolding finalize
    finalize-keeps e i def now faults q p =
        let idle = cancel_timeout e i.workflow_id in
        let kept = same e idle (cancel_timeout-IsSame e i.workflow_id) p in
        elim (Bool-cases (is_failure_state def i.state)) [
          | inl h ↦
              let at : (finish idle (fail i i.state now) failed now faults).0
                  ≡ (finalize e i def now faults).0 =
                ground (arith, h) in
              subst P at
                (finish-keeps idle (fail i i.state now) failed now faults (over i now q).1 kept)
          | inr h ↦
              let at : (finish idle (complete i now) finished now faults).0
                  ≡ (finalize e i def now faults).0 =
                ground (arith, h) in
              subst P at
                (finish-keeps idle (complete i now) finished now faults (over i now q).0 kept)
        ]

    pub settle-keeps :
        (e : Engine V) (i : Instance V) (def : Definition V) (type : EventType) (now : ℕ)
        (faults : Faults)
        → Q i
        → P e
        → P (settle e i def type now faults).0
    unfolding settle emit record_engine_history
    settle-keeps e i def type now faults q p =
        let told = emit (record_engine_history (persist e i) type i.workflow_id now) type i in
        let armed = arm_timeout told i def now in
        let kept = same (persist e i) armed (arm_timeout-IsSame told i def now) (store e i q p) in
        elim (Bool-cases faults.put_fails) [
          | inl h ↦
              let at : e ≡ (settle e i def type now faults).0 = ground (arith, h) in subst P at p
          | inr h ↦ elim (Bool-cases (is_terminal def i.state)) [
            | inl t ↦
                let at : (finalize armed i def now faults).0 ≡ (settle e i def type now faults).0 =
                  ground (arith, h, t) in
                subst P at (finalize-keeps armed i def now faults q kept)
            | inr t ↦
                let at : armed ≡ (settle e i def type now faults).0 = ground (arith, h, t) in
                subst P at kept
          ]
        ]
