-- ===== src/Transactions/Atomicity.antt =====
-- What a transaction of src/config/database.js leaves, and the order of the queue.
use oncall_backend_private.Prelude.{
  ℕ, zero, suc, ◌+◌, ◌*◌, ◌≤◌, ◌≡◌, refl, ap, ◌∙◌, true, Option, none, some, List, [], ◌∷◌, arith,
  All,
}
use oncall_backend_private.Transactions.{
  BeginAnswer, Connection, Transaction, max_retries, base_delay_ms, begin_with, run_body,
  attempt_from, run_transaction, run_queue,
}

-- The state on disk after a call that answered: the body's where there is a result, and else the old one.
abbrev pub disk_after : {D A : Type 0} → D → Transaction D A → Option A → D
disk_after d t none = d
disk_after d t (some a) = (t.body d).0

-- The waits of the retries that are left.
waits : ℕ → ℕ → ℕ
waits attempt zero = 0
waits attempt (suc left) = base_delay_ms + attempt * 10 + waits (suc attempt) left

module _ {D A : Type 0} where
  body-atomic :
      (c : Connection D) (t : Transaction D A) (slept : ℕ)
      → let o = run_body c t slept in
        (o.connection.committed ≡ disk_after c.committed t o.result)
        × (o.runs ≤ 1)
        × (o.slept ≡ slept)
  unfolding run_body
  body-atomic c t slept = ground arith

  attempts-atomic :
      (c : Connection D) (t : Transaction D A) (left attempt slept : ℕ) (begins : List BeginAnswer)
      → let o = attempt_from c t left attempt slept begins in
        (o.connection.committed ≡ disk_after c.committed t o.result)
        × (o.runs ≤ 1)
        × (o.slept ≤ slept + waits attempt left)
  unfolding attempt_from begin_with waits
  attempts-atomic c t zero attempt slept [] =
      ground (arith, body-atomic (record c { working = some c.committed }) t slept)
  attempts-atomic c t zero attempt slept (b ∷ bs) =
      ground (arith, body-atomic (record c { working = some c.committed }) t slept)
  attempts-atomic c t (suc left) attempt slept [] =
      ground (arith, body-atomic (record c { working = some c.committed }) t slept)
  attempts-atomic c t (suc left) attempt slept (b ∷ bs) = ground (
    arith,
    body-atomic (record c { working = some c.committed }) t slept,
    attempts-atomic c t left (suc attempt) (slept + (base_delay_ms + attempt * 10)) bs,
  )

  -- Whatever SQLite answers and whether or not the body throws, the call of a transaction either answers
  -- with the body's result, and then the disk holds exactly what the body made of the state before, or it
  -- throws and the disk is as it was; the body runs at most once, and no more than 650 ms are waited.
  pub transaction_atomic :
      (c : Connection D) (t : Transaction D A)
      → let o = run_transaction c t in
        (o.connection.committed ≡ disk_after c.committed t o.result)
        × (o.runs ≤ 1)
        × (o.slept ≤ 650)
  unfolding run_transaction waits
  transaction_atomic c t = attempts-atomic c t max_retries 0 0 t.begins

  body-closed :
      (c : Connection D) (t : Transaction D A) (slept : ℕ)
      → t.rolls_back ≡ true
      → (run_body c t slept).connection.working ≡ none
  unfolding run_body
  body-closed c t slept h = ground (arith, h)

  attempts-closed :
      (c : Connection D) (t : Transaction D A) (left attempt slept : ℕ) (begins : List BeginAnswer)
      → t.rolls_back ≡ true
      → c.working ≡ none
      → (attempt_from c t left attempt slept begins).connection.working ≡ none
  unfolding attempt_from begin_with
  attempts-closed c t zero attempt slept begins r h =
      ground (arith, r, h, body-closed (record c { working = some c.committed }) t slept r)
  attempts-closed c t (suc left) attempt slept [] r h =
      ground (arith, r, h, body-closed (record c { working = some c.committed }) t slept r)
  attempts-closed c t (suc left) attempt slept (b ∷ bs) r h = ground (
    arith,
    r,
    h,
    body-closed (record c { working = some c.committed }) t slept r,
    attempts-closed c t left (suc attempt) (slept + (base_delay_ms + attempt * 10)) bs r h,
  )

  closed_after :
      (c : Connection D) (t : Transaction D A)
      → t.rolls_back ≡ true
      → c.working ≡ none
      → (run_transaction c t).connection.working ≡ none
  unfolding run_transaction
  closed_after c t r h = attempts-closed c t max_retries 0 0 t.begins r h

  -- The queue, one transaction after the other on the disk alone, by their results.
  pub replay : D → List (Transaction D A) → List (Option A) → D
  replay d [] results = d
  replay d (t ∷ ts) [] = d
  replay d (t ∷ ts) (o ∷ results) = replay (disk_after d t o) ts results

  -- However its transactions end, as long as SQLite rolls back when it is told to, a queue that starts with
  -- no transaction open leaves none open, and the disk holds what the transactions that answered have made
  -- of it one after the other, in their order, with nothing of those that threw.
  pub queue_serial :
      (c : Connection D) (ts : List (Transaction D A))
      → c.working ≡ none
      → All (λ (t : Transaction D A). t.rolls_back ≡ true) ts
      → let (end, results) = run_queue c ts in
        (end.working ≡ none) × (end.committed ≡ replay c.committed ts results)
  unfolding run_queue replay
  queue_serial c [] h rs = (h, refl)
  queue_serial c (t ∷ ts) h (r, rs) =
      let o = run_transaction c t in
      let (closed, serial) = queue_serial o.connection ts (closed_after c t r h) rs in
      (
        closed,
        serial ∙ ap (λ d. replay d ts (run_queue o.connection ts).1) (transaction_atomic c t).0,
      )
