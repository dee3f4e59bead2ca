-- ===== src/Scenarios/Processes.antt =====
-- Scenarios of the workflow engine: an order that is paid, reviewed and shipped, or expires.
use oncall_backend_private.Prelude.{
  ℕ, ◌≡◌, refl, arith, Bool, true, false, ◌&&◌, Option, none, some, List, [], ◌∷◌, ltb, string_key,
  nat_key, pair_key, lookup, insert, erase, same_pair,
}
use oncall_backend_private.Locks.{Lock, acquired}
use oncall_backend_private.Locks.Service.{Spec, try_acquire}
use oncall_backend_private.Workflow.Definition.{
  StateSpec, Transition, DefinitionSpec, Definition, create_definition, index_all, timeout_problems,
  find_transition, timeout_for, is_terminal, is_failure_state,
}
use oncall_backend_private.Workflow.Definition.Declared.{IsAccepted, create_definition-IsAccepted}
use oncall_backend_private.Workflow.Instance.{
  Status, running, Instance, last_entries, drop, merge, create_instance, transition_to, complete,
  fail, cancel, from_model,
}
use oncall_backend_private.Workflow.Engine.{
  EventType, Settings, Engine, Faults, ok, error, modified_concurrently, register,
  register_definition, resolve, definition_of, record_engine_history, emit, persist, is_corrupt,
  cancel_timeout, schedule_timeout, arm_timeout, finish, finalize, settle, moved, commit,
}
use oncall_backend_private.Workflow.Engine.Calls.{
  signal, cancel_workflow, start, fire, verify_workflow, lock_spec, released, on_lock, guarded,
  load, guard_answer, action_patch, take_transition, signal_loaded, is_stale, timeout_loaded,
}
use oncall_backend_private.Workflow.Engine.Registered.{new_engine, register_all}
use oncall_backend_private.Workflow.Engine.Operations.{
  Operation, starts, signals, cancels, fires, operate, operate_all,
}
use oncall_backend_private.Workflow.Engine.Verified.{operate_all-verified}
use oncall_backend_private.Workflow.Engine.Finished.{finished_kept}
use oncall_backend_private.Workflow.Engine.Answers.{no_faults, IsAnswered}
use oncall_backend_private.Workflow.Engine.Timeouts.{signal-arms}
use oncall_backend_private.Workflow.Engine.Excluded.{lock_excludes}

abbrev plain : StateSpec
plain = record { terminal = false; failure = false; on_timeout = none }

abbrev ends : Bool → StateSpec
ends failure = record { terminal = true; failure = failure; on_timeout = none }

abbrev waits : StateSpec
waits = record {
  terminal = false;
  failure = false;
  on_timeout = some (record { after_ms = 60; to = "expired" });
}

abbrev pay : Transition ℕ
pay = record {
  from = "new";
  on = "pay";
  to = "paid";
  guard = some (λ context amount. some (ltb 9 amount));
  action = some (λ context amount. some (("amount", amount) ∷ []));
}

abbrev ship : Transition ℕ
ship = record { from = "paid"; on = "ship"; to = "shipped"; guard = none; action = none }

abbrev order : DefinitionSpec ℕ
order = record {
  name = "order";
  version = none;
  initial = "new";
  states = ("new", plain) ∷ ("paid", waits) ∷ ("shipped", ends false) ∷ ("expired", ends true) ∷ [];
  transitions = pay ∷ ship ∷ [];
}

abbrev settings : Settings
settings = record {
  engine_id = 1;
  history_limit = 1000;
  engine_history_limit = 500;
  lock_lease_ms = 30000;
  has_scheduler = true;
}

abbrev order_definition : Definition ℕ
order_definition = record {
  name = "order";
  version = 1;
  initial = "new";
  states = order.states;
  index = (("new", "pay"), pay) ∷ (("paid", "ship"), ship) ∷ [];
}

create_definition-IsAccepted_example : IsAccepted order order_definition
unfolding create_definition lookup index_all insert same_pair timeout_problems
create_definition-IsAccepted_example = create_definition-IsAccepted order order_definition refl

abbrev calls : List (Operation ℕ × ℕ × Faults)
calls =
    (starts "order" none "w1" [], 100, no_faults)
    ∷ (signals "w1" "pay" 25, 200, no_faults)
    ∷ (fires 1, 260, no_faults)
    ∷ []

abbrev new_order : Instance ℕ
new_order = record {
  workflow_id = "w1";
  definition_name = "order";
  definition_version = 1;
  state = "new";
  status = running;
  context = [];
  failure_reason = none;
  version = 1;
  history = [];
  created_at = 100;
  updated_at = 100;
}

abbrev paid_order : Instance ℕ
paid_order = record new_order {
  state = "paid";
  context = ("amount", 25) ∷ [];
  version = 2;
  history = record { from = "new"; to = "paid"; event = "pay"; at = 200; version = 1 } ∷ [];
  updated_at = 200;
}

abbrev expired_order : Instance ℕ
expired_order = record paid_order {
  state = "expired";
  status = Status.failed;
  failure_reason = some "expired";
  version = 4;
  history =
      record { from = "new"; to = "paid"; event = "pay"; at = 200; version = 1 }
      ∷ record { from = "paid"; to = "expired"; event = "__timeout__"; at = 260; version = 2 }
      ∷ [];
  updated_at = 260;
}

expires :
    lookup "w1" (operate_all (register_all (new_engine settings none) (order ∷ [])) calls).stored
    ≡ some expired_order
unfolding lookup insert erase same_pair create_definition index_all timeout_problems register
    register_definition new_engine register_all resolve definition_of record_engine_history emit
    persist is_corrupt cancel_timeout schedule_timeout arm_timeout finish finalize settle moved
    commit is_terminal is_failure_state timeout_for find_transition last_entries drop merge
    create_instance transition_to complete fail cancel from_model lock_spec released on_lock guarded
    load start guard_answer action_patch take_transition signal_loaded signal is_stale
    timeout_loaded fire operate operate_all
expires = refl

operate_all-verified_example :
    verify_workflow (operate_all (register_all (new_engine settings none) (order ∷ [])) calls) "w1"
    ≡ []
unfolding lookup oncall_backend_private.Workflow.Engine.Registered.has_at
operate_all-verified_example =
    operate_all-verified settings none (order ∷ []) calls "w1" expired_order (refl, tt) (refl, tt)
      (refl, (tt, (tt, tt))) expires

finished_kept_example :
    lookup "w1"
      (operate_all
        (operate_all (register_all (new_engine settings none) (order ∷ [])) calls)
        ((signals "w1" "ship" 0, 300, no_faults) ∷ (cancels "w1", 400, no_faults) ∷ [])).stored
    ≡ some expired_order
finished_kept_example =
    finished_kept settings none (order ∷ []) calls
      ((signals "w1" "ship" 0, 300, no_faults) ∷ (cancels "w1", 400, no_faults) ∷ []) "w1"
      expired_order expires refl (tt, (tt, tt))

-- An engine that has stored the new order, and the engine after its payment.
abbrev before : Engine ℕ
before = record {
  settings = settings;
  by_key = (("order", 1), order_definition) ∷ [];
  by_name = ("order", order_definition) ∷ [];
  stored = ("w1", new_order) ∷ [];
  timers = [];
  jobs = [];
  next_job = 1;
  locks = none;
  engine_history = [];
  published = [];
}

abbrev after : Engine ℕ
after = record before {
  stored = ("w1", paid_order) ∷ [];
  timers = ("w1", 1) ∷ [];
  jobs = (1, record { workflow_id = "w1"; at_state = "paid"; at_version = 2; due = 260 }) ∷ [];
  next_job = 2;
  engine_history = ("w1", EventType.transitioned, 200) ∷ [];
  published =
      record { type = EventType.transitioned; workflow_id = "w1"; state = "paid"; status = running }
      ∷ [];
}

paid : signal before "w1" "pay" 25 200 no_faults ≡ (after, ok paid_order)
unfolding lookup insert erase same_pair create_definition index_all timeout_problems register
    register_definition new_engine register_all resolve definition_of record_engine_history emit
    persist is_corrupt cancel_timeout schedule_timeout arm_timeout finish finalize settle moved
    commit is_terminal is_failure_state timeout_for find_transition last_entries drop merge
    create_instance transition_to complete fail cancel from_model lock_spec released on_lock guarded
    load start guard_answer action_patch take_transition signal_loaded signal is_stale
    timeout_loaded fire operate operate_all
paid = refl

signal-arms_example :
    (job : ℕ) × (lookup "w1" after.timers ≡ some job)
    × IsAnswered "w1" "expired" (fire after job 260 no_faults)
unfolding definition_of lookup same_pair is_corrupt timeout_for
signal-arms_example =
    signal-arms before after "w1" "pay" 25 200 260 paid_order order_definition
      (record { after_ms = 60; to = "expired" }) refl refl paid refl refl refl refl

-- The second engine, which holds the lock of the order.
abbrev second_spec : Spec
second_spec = record {
  namespace = "workflow";
  lock_id = "w1";
  owner_id = some 2;
  lease_ms = some 1000;
  wait_ms = none;
  metadata = [];
}

abbrev second_lock : Lock
second_lock = record {
  lock_id = "w1";
  namespace = "workflow";
  owner_id = some 2;
  lease_ms = 1000;
  acquired_at = some 240;
  expires_at = some 1240;
  renewed_at = some 240;
  metadata = [];
  version = 1;
  state = acquired;
}

abbrev locked : Engine ℕ
locked = record after { locks = some (("workflow", ("w1", second_lock) ∷ []) ∷ []) }

lock_excludes_example :
    (signal locked "w1" "ship" 0 260 no_faults ≡ (locked, error modified_concurrently))
    × (cancel_workflow locked "w1" 260 no_faults ≡ (locked, error modified_concurrently))
    × (start locked "order" none "w1" [] 260 no_faults ≡ (locked, error modified_concurrently))
    × (fire locked 1 260 no_faults ≡ (record locked { jobs = [] }, error modified_concurrently))
unfolding try_acquire oncall_backend_private.Locks.Service.on_loaded
    oncall_backend_private.Locks.Service.load oncall_backend_private.Locks.Service.found_lock
    oncall_backend_private.Locks.Service.memory_read oncall_backend_private.Prelude.lookup
    oncall_backend_private.Locks.Service.bucket oncall_backend_private.Locks.create_lock
    oncall_backend_private.Locks.Service.attempt oncall_backend_private.Locks.is_live
    oncall_backend_private.Locks.Service.settled oncall_backend_private.Locks.settle_expiry
    oncall_backend_private.Locks.Service.memory_write oncall_backend_private.Locks.acquire
    oncall_backend_private.Prelude.insert erase resolve
lock_excludes_example =
    lock_excludes locked [] (("workflow", ("w1", second_lock) ∷ []) ∷ []) second_spec 2 240 260 1
      second_lock "w1" "ship" "order" none 0 [] order_definition
      (record { workflow_id = "w1"; at_state = "paid"; at_version = 2; due = 260 }) no_faults refl
      (refl, refl) refl (omega arith) refl refl refl refl refl (refl, refl)
