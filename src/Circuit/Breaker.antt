-- ===== src/Circuit/Breaker.antt =====
-- How the circuit of src/domain/resilience/circuit.js opens, refuses and closes.
use oncall_backend_private.Prelude.{
  ℕ, suc, ◌+◌, ◌≤◌, ◌<◌, ◌≡◌, refl, ap, sym, subst, ◌∙◌, some, List, [], ◌∷◌, leb, if◌then◌else◌,
  arith, length,
}
use oncall_backend_private.Circuit.{
  CircuitState, closed, open_circuit, half_open, Circuit, CircuitPolicy, initial_state, Transition,
  attempt_in, success_in, failure_in, can_attempt, on_success, on_failure, opened,
}

-- A new circuit after failures, the latest first, with no success between them.
pub failing : CircuitPolicy → List ℕ → Circuit
failing policy [] = initial_state
failing policy (now ∷ earlier) = (on_failure (failing policy earlier) policy now).circuit

failure-closed :
    (s : Circuit) (policy : CircuitPolicy) (now : ℕ)
    → s.state ≡ closed
    → suc s.failures < policy.failure_threshold
    → ((on_failure s policy now).circuit.state ≡ closed)
      × ((on_failure s policy now).circuit.failures ≡ suc s.failures)
unfolding on_failure
failure-closed s policy now c h = (ground (arith, c, h), ground (arith, c, h))

failing-closed :
    (policy : CircuitPolicy) (ts : List ℕ)
    → length ts < policy.failure_threshold
    → ((failing policy ts).state ≡ closed) × ((failing policy ts).failures ≡ length ts)
unfolding failing
failing-closed policy [] h = (refl, refl)
failing-closed policy (now ∷ earlier) h =
    let before = failing-closed policy earlier (omega (arith, h)) in
    let after =
      failure-closed (failing policy earlier) policy now before.0 (omega (arith, before.1, h)) in
    (after.0, after.1 ∙ ap suc before.1)

failure-opens :
    (s : Circuit) (policy : CircuitPolicy) (now : ℕ)
    → s.state ≡ closed
    → policy.failure_threshold ≤ suc s.failures
    → on_failure s policy now ≡ opened s now
unfolding on_failure
failure-opens s policy now c h = ap (λ k. failure_in k s policy now) c ∙ ground (arith, h)

-- A new circuit stays closed for fewer consecutive failures than the threshold, and opens at the time of
-- the failure that reaches it.
pub threshold_opens :
    (policy : CircuitPolicy) (now : ℕ) (earlier : List ℕ)
    → suc (length earlier) ≡ policy.failure_threshold
    → ((failing policy earlier).state ≡ closed)
      × ((failing policy (now ∷ earlier)).state ≡ open_circuit)
      × ((failing policy (now ∷ earlier)).opened_at ≡ some now)
unfolding failing
threshold_opens policy now earlier h =
    let before = failing-closed policy earlier (omega (arith, h)) in
    let opens =
      failure-opens (failing policy earlier) policy now before.0 (omega (arith, before.1, h)) in
    (
      before.0,
      ap (λ (t : Transition). t.circuit.state) opens,
      ap (λ (t : Transition). t.circuit.opened_at) opens,
    )

-- A circuit that a failure has just opened refuses every attempt until the recovery window is over, and
-- stays open; it lets an attempt after that through, half open.
pub open_window :
    (s : Circuit) (policy : CircuitPolicy) (failed now : ℕ)
    → (on_failure s policy failed).transitioned ≡ some open_circuit
    → failed ≤ now
    → let s' = (on_failure s policy failed).circuit in
      ((can_attempt s' policy now).allowed ≡ leb (failed + policy.recovery_window) now)
      × ((can_attempt s' policy now).after.circuit.state
          ≡ (if leb (failed + policy.recovery_window) now then half_open else open_circuit))
unfolding on_failure can_attempt
open_window s policy failed now h k =
    subst
      (λ c.
        ((attempt_in c.state c policy now).allowed ≡ leb (failed + policy.recovery_window) now)
        × ((attempt_in c.state c policy now).after.circuit.state
            ≡ (if leb (failed + policy.recovery_window) now then half_open else open_circuit)))
      (sym (opening s.state h)) (ground (arith, k), ground (arith, k))
  where
    opening :
        (c : CircuitState)
        → (failure_in c s policy failed).transitioned ≡ some open_circuit
        → (failure_in c s policy failed).circuit ≡ (opened s failed).circuit
    opening closed e = ground (arith, e)
    opening half_open e = refl
    opening open_circuit e = ground (arith, e)

-- A new half-open circuit after successes, the latest first.
pub recovering : CircuitPolicy → Circuit → List ℕ → Circuit
recovering policy s [] = s
recovering policy s (now ∷ earlier) = (on_success (recovering policy s earlier) policy now).circuit

recovering-half_open :
    (policy : CircuitPolicy) (s : Circuit) (ts : List ℕ)
    → s.state ≡ half_open
    → s.successes ≡ 0
    → length ts < policy.success_threshold
    → ((recovering policy s ts).state ≡ half_open)
      × ((recovering policy s ts).successes ≡ length ts)
unfolding recovering on_success
recovering-half_open policy s [] a b h = (a, b)
recovering-half_open policy s (now ∷ earlier) a b h =
    let before = recovering-half_open policy s earlier a b (omega (arith, h)) in
    (ground (arith, before.0, before.1, h), ground (arith, before.0, before.1, h))

-- A half-open circuit that no success has reached closes, with its counts at 0, exactly at the success
-- that reaches the threshold;
-- a failure just before that opens it again.
pub successes_close :
    (policy : CircuitPolicy) (s : Circuit) (now : ℕ) (earlier : List ℕ)
    → s.state ≡ half_open
    → s.successes ≡ 0
    → suc (length earlier) ≡ policy.success_threshold
    → ((recovering policy s earlier).state ≡ half_open)
      × (recovering policy s (now ∷ earlier) ≡ record initial_state { updated_at = now })
      × ((on_failure (recovering policy s earlier) policy now).circuit.state ≡ open_circuit)
unfolding recovering on_success on_failure
successes_close policy s now earlier a b h =
    let before = recovering-half_open policy s earlier a b (omega (arith, h)) in
    (
      before.0,
      ap (λ k. (success_in k (recovering policy s earlier) policy now).circuit) before.0
          ∙ ground (arith, before.1, h),
      ap (λ k. (failure_in k (recovering policy s earlier) policy now).circuit.state) before.0,
    )
