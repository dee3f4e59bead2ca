-- ===== src/Transactions.antt =====
-- The transactions of src/config/database.js over one connection to SQLite: `_runTransaction` and the queue
-- of `dbTransaction`. What SQLite answers to each statement is given with a transaction: to each BEGIN, to
-- COMMIT and to ROLLBACK. A BEGIN inside an open transaction fails, as SQLite documents.
pub mod Atomicity
use oncall_backend_private.Prelude.{
  ℕ, zero, suc, ◌+◌, ◌*◌, Bool, true, false, Option, none, some, List, [], ◌∷◌, if◌then◌else◌,
}

-- The answer to BEGIN IMMEDIATE.
pub data BeginAnswer : Type 0 where
  begun busy broken : BeginAnswer

-- What is on disk, and the state inside the transaction that is open.
pub record Connection (D : Type 0) : Type 0 where
  pub committed : D
  pub working : Option D

-- A call of `dbTransaction`: its body takes a state to a state with a result, or with none where it throws.
pub record Transaction (D A : Type 0) : Type 0 where
  pub body : D → D × Option A
  pub begins : List BeginAnswer
  pub commits : Bool
  pub rolls_back : Bool

-- What a call leaves: its result, or none where it throws, the runs of the body and the time waited.
pub record Outcome (D A : Type 0) : Type 0 where
  pub connection : Connection D
  pub result : Option A
  pub runs : ℕ
  pub slept : ℕ

abbrev pub max_retries : ℕ
max_retries = 10

abbrev pub base_delay_ms : ℕ
base_delay_ms = 20

abbrev first_answer : List BeginAnswer → BeginAnswer
first_answer [] = begun
first_answer (b ∷ bs) = b

abbrev later_answers : List BeginAnswer → List BeginAnswer
later_answers [] = []
later_answers (b ∷ bs) = bs

module _ {D : Type 0} where
  -- BEGIN IMMEDIATE with an answer of SQLite.
  unfoldable pub begin_with : Connection D → BeginAnswer → Connection D × BeginAnswer
  begin_with c answer = elim c.working [
    | some d ↦ (c, broken)
    | none ↦ elim answer [
      | begun ↦ (record c { working = some c.committed }, begun)
      | busy ↦ (c, busy)
      | broken ↦ (c, broken)
    ]
  ]

  abbrev roll_back : Connection D → Bool → Connection D
  roll_back c ok = if ok then record c { working = none } else c

module _ {D A : Type 0} where
  -- The body, COMMIT, and ROLLBACK where one of them throws.
  unfoldable pub run_body : Connection D → Transaction D A → ℕ → Outcome D A
  run_body c t slept =
      let (after, result) = t.body c.committed in
      let failed : Outcome D A = record {
        connection = roll_back (record c { working = some after }) t.rolls_back;
        result = none;
        runs = 1;
        slept = slept;
      } in
      let done : Outcome D A = record {
        connection = record { committed = after; working = none };
        result = result;
        runs = 1;
        slept = slept;
      } in
      elim result [ none ↦ failed | some a ↦ if t.commits then done else failed ]

  -- The loop of `_runTransaction`, with the retries that are left and the attempt's number.
  unfoldable pub attempt_from :
      Connection D → Transaction D A → ℕ → ℕ → ℕ → List BeginAnswer → Outcome D A
  attempt_from c t zero attempt slept begins =
      let (opened, answer) = begin_with c (first_answer begins) in
      let refused : Outcome D A = record {
        connection = c;
        result = none;
        runs = 0;
        slept = slept;
      } in
      elim answer [ begun ↦ run_body opened t slept | _ ↦ refused ]
  attempt_from c t (suc left) attempt slept begins =
      let (opened, answer) = begin_with c (first_answer begins) in
      let again =
        attempt_from c t left (suc attempt) (slept + (base_delay_ms + attempt * 10))
          (later_answers begins) in
      let refused : Outcome D A = record {
        connection = c;
        result = none;
        runs = 0;
        slept = slept;
      } in
      elim answer [ begun ↦ run_body opened t slept | busy ↦ again | broken ↦ refused ]

  -- `_runTransaction`.
  unfoldable pub run_transaction : Connection D → Transaction D A → Outcome D A
  run_transaction c t = attempt_from c t max_retries 0 0 t.begins

  -- The queue of `dbTransaction`: each call runs when the one before has ended, whether it threw or not.
  unfoldable pub run_queue : Connection D → List (Transaction D A) → Connection D × List (Option A)
  run_queue c [] = (c, [])
  run_queue c (t ∷ ts) =
      let o = run_transaction c t in
      let (end, results) = run_queue o.connection ts in (end, o.result ∷ results)
