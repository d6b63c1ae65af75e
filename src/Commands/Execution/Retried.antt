-- ===== src/Commands/Execution/Retried.antt =====
-- The limits of a command that is submitted again: `operatorSubmitInput` of src/commands/store.ts,
-- `commandExecutionPolicy` and `buildCommandExecutionPolicy` of src/commands/execution.ts.
use frontier_os.Prelude.{
  ℕ, ◌+◌, ◌*◌, ◌/◌, ◌≤◌, ◌≡◌, zero, suc, max, refl, arith, String, true, Option, some,
}
use frontier_os.Commands.{CommandRoute, PlannedAction}
use frontier_os.Commands.Execution.{
  timeout_for_verb, budgeted_timeout, ExecutionLimits, ExecutionPolicy, stored_policy,
  build_execution_policy, command_execution_policy, operator_limits,
}
use frontier_os.Commands.Execution.Bounds.{build_execution_policy-IsBounded}

-- A time of whole seconds within the time of the verb is what its seconds allow.
budget_of_whole :
    (verb : String) (ms s : ℕ)
    → ms ≡ s * 1000
    → 1 ≤ s
    → ms ≤ timeout_for_verb verb
    → budgeted_timeout verb (some s) ≡ ms
unfolding budgeted_timeout
budget_of_whole verb ms zero e p le = absurd (omega arith)
budget_of_whole verb ms (suc s) e p le = omega (arith, e, le)

policies_agree :
    (a a' b b' c c' d d' : ℕ)
    → a ≡ a'
    → b ≡ b'
    → c ≡ c'
    → d ≡ d'
    → ◌≡◌ {A = ExecutionPolicy}
        (record {
          max_attempts = a;
          backoff_ms = b;
          retry_on_failed = true;
          max_runtime_ms = c;
          max_runtime_seconds = d;
        })
        (record {
          max_attempts = a';
          backoff_ms = b';
          retry_on_failed = true;
          max_runtime_ms = c';
          max_runtime_seconds = d';
        })
policies_agree a a' b b' c c' d d' p q r s = rw (p, q, r, s) refl

-- A command that is submitted again for the same route, under the limits read from the policy
-- stored with it, gets that policy again: as many attempts, the same backoff and the same time.
pub retried_same :
    (limits : ExecutionLimits) (route : CommandRoute) (action next : Option PlannedAction)
    → build_execution_policy
        (operator_limits (
          command_execution_policy
            (some route.verb)
            (stored_policy (build_execution_policy limits route action))))
        route
        next
      ≡ build_execution_policy limits route action
unfolding build_execution_policy operator_limits command_execution_policy
retried_same limits route action next =
    let (time, tried) = build_execution_policy-IsBounded limits route action in
    let runtime = budgeted_timeout route.verb limits.max_runtime_seconds in
    let seconds = max 1 ((runtime + 999) / 1000) in
    let whole : runtime ≡ seconds * 1000 = time.whole in
    let positive : 1 ≤ seconds = time.positive in
    let shown : max 1 seconds ≡ seconds = omega (arith, positive) in
    let again : budgeted_timeout route.verb (some (max 1 seconds)) ≡ runtime =
      rw shown (budget_of_whole route.verb runtime seconds whole positive time.capped) in
    let once = tried.once in
    let ten = tried.ten in
    policies_agree _ _ _ _ _ _ _ _ (omega (arith, once, ten)) refl again (rw again refl)
