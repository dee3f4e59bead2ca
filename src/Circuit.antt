-- ===== src/Circuit.antt =====
-- The circuit breaker of src/domain/resilience/circuit.js. Times are milliseconds; `openedAt` is null
-- while the circuit was never opened.
pub mod Breaker
use oncall_backend_private.Prelude.{
  ℕ, zero, suc, ◌-◌, Bool, true, false, Option, none, some, ltb, leb, if◌then◌else◌,
}

pub data CircuitState : Type 0 where
  closed open_circuit half_open : CircuitState

pub record Circuit : Type 0 where
  pub state : CircuitState
  pub failures : ℕ
  pub successes : ℕ
  pub opened_at : Option ℕ
  pub updated_at : ℕ

pub record CircuitPolicy : Type 0 where
  pub failure_threshold : ℕ
  pub success_threshold : ℕ
  pub recovery_window : ℕ

-- `initialState`.
abbrev pub initial_state : Circuit
initial_state = record {
  state = closed;
  failures = 0;
  successes = 0;
  opened_at = none;
  updated_at = 0;
}

-- `{ state, transitioned }`.
pub record Transition : Type 0 where
  pub circuit : Circuit
  pub transitioned : Option CircuitState

pub record Attempt : Type 0 where
  pub allowed : Bool
  pub after : Transition

abbrev pub kept : Circuit → Transition
kept s = record { circuit = s; transitioned = none }

-- `openedAt != null && now - openedAt >= recoveryWindow`, for a clock that does not go back.
abbrev pub has_recovered : Option ℕ → ℕ → ℕ → Bool
has_recovered none window now = false
has_recovered (some t) window now = leb window (now - t)

abbrev pub attempt_in : CircuitState → Circuit → CircuitPolicy → ℕ → Attempt
attempt_in open_circuit s policy now =
    if has_recovered s.opened_at policy.recovery_window now
    then record {
      allowed = true;
      after = record {
        circuit = record s { state = half_open; successes = 0; updated_at = now };
        transitioned = some half_open;
      };
    }
    else record { allowed = false; after = kept s }
attempt_in _ s policy now = record { allowed = true; after = kept s }

-- `canAttempt`.
unfoldable pub can_attempt : Circuit → CircuitPolicy → ℕ → Attempt
can_attempt s policy now = attempt_in s.state s policy now

abbrev pub success_in : CircuitState → Circuit → CircuitPolicy → ℕ → Transition
success_in half_open s policy now =
    let counted = record s { successes = suc s.successes; updated_at = now } in
    if leb policy.success_threshold counted.successes
    then record {
      circuit = record {
        state = closed;
        failures = 0;
        successes = 0;
        opened_at = none;
        updated_at = now;
      };
      transitioned = some closed;
    }
    else kept counted
success_in _ s policy now = kept (record s { failures = 0; updated_at = now })

-- `onSuccess`.
unfoldable pub on_success : Circuit → CircuitPolicy → ℕ → Transition
on_success s policy now = success_in s.state s policy now

abbrev pub opened : Circuit → ℕ → Transition
opened s now = record {
  circuit = record {
    state = open_circuit;
    failures = suc s.failures;
    successes = 0;
    opened_at = some now;
    updated_at = now;
  };
  transitioned = some open_circuit;
}

abbrev pub failure_in : CircuitState → Circuit → CircuitPolicy → ℕ → Transition
failure_in half_open s policy now = opened s now
failure_in closed s policy now =
    if leb policy.failure_threshold (suc s.failures)
    then opened s now
    else kept (record s { failures = suc s.failures; updated_at = now })
failure_in open_circuit s policy now = kept (record s { updated_at = now })

-- `onFailure`.
unfoldable pub on_failure : Circuit → CircuitPolicy → ℕ → Transition
on_failure s policy now = failure_in s.state s policy now
