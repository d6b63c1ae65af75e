-- ===== src/Commands/Execution/Bounds.antt =====
-- The bounds of `buildCommandExecutionPolicy` of src/commands/execution.ts.
use frontier_os.Prelude.{
  or_else, ℕ, ◌+◌, ◌*◌, ◌/◌, ◌≤◌, ◌≡◌, ◌⊎◌, inl, inr, zero, suc, min, max, refl, arith, String,
  Option, none, some, Bool-cases,
}
use frontier_os.Commands.{CommandRoute, PlannedAction}
use frontier_os.Commands.Execution.{
  starts_with, timeout_for_verb, budgeted_timeout, ExecutionLimits, ExecutionPolicy,
  build_execution_policy,
}

timeout_for_verb-cases :
    (verb : String)
    → (timeout_for_verb verb ≡ 600000)
      ⊎ (timeout_for_verb verb ≡ 180000)
      ⊎ (timeout_for_verb verb ≡ 60000)
unfolding timeout_for_verb
timeout_for_verb-cases verb = elim (Bool-cases (starts_with "project." verb)) [
  | inl project ↦ inl (rw project refl)
  | inr outside ↦ elim (Bool-cases (starts_with "ops." verb)) [
    | inl ops ↦ inr (inl (rw (outside, ops) refl))
    | inr other ↦ inr (inr (rw (outside, other) refl))
  ]
]

-- The time of an attempt is some whole seconds, at least one, at most the time of the verb, and not
-- more than a budget that is not 0.
pub record IsBudgeted (verb : String) (budget : Option ℕ) (ms seconds : ℕ) : Type 0 where
  pub whole : ms ≡ seconds * 1000
  pub positive : 1 ≤ seconds
  pub capped : ms ≤ timeout_for_verb verb
  pub kept : (s : ℕ) → budget ≡ some (suc s) → seconds ≤ suc s

seconds_of : (ms k : ℕ) → ms ≡ suc k * 1000 → max 1 ((ms + 999) / 1000) ≡ suc k
seconds_of ms k e = omega arith

timeout-whole : (verb : String) → (k : ℕ) × (timeout_for_verb verb ≡ suc k * 1000) × (k ≤ 599)
timeout-whole verb = elim (timeout_for_verb-cases verb) [
  | inl a ↦ (599, a, omega arith)
  | inr (inl b) ↦ (179, b, omega arith)
  | inr (inr c) ↦ (59, c, omega arith)
]

pub budgeted_timeout-IsBudgeted :
    (verb : String) (budget : Option ℕ)
    → IsBudgeted verb budget
        (budgeted_timeout verb budget)
        (max 1 ((budgeted_timeout verb budget + 999) / 1000))
unfolding budgeted_timeout
budgeted_timeout-IsBudgeted verb none =
    let (k, e, _) = timeout-whole verb in
    let shown = seconds_of _ k e in
    record {
      whole = omega (arith, e, shown);
      positive = omega (arith, shown);
      capped = omega arith;
      kept = λ s h. absurd (ground arith);
    }
budgeted_timeout-IsBudgeted verb (some zero) =
    let (k, e, _) = timeout-whole verb in
    let shown = seconds_of _ k e in
    record {
      whole = omega (arith, e, shown);
      positive = omega (arith, shown);
      capped = omega arith;
      kept = λ s h. absurd (ground arith);
    }
budgeted_timeout-IsBudgeted verb (some (suc n)) =
    let (k, e, _) = timeout-whole verb in
    record {
      whole = omega (arith, e);
      positive = omega (arith, e);
      capped = omega arith;
      kept = λ s h. (let same : n ≡ s = ground arith in omega (arith, e, same));
    }

-- Between one and ten attempts, and one more than the retries that are asked for, up to nine.
pub record IsTried (retries : Option ℕ) (attempts : ℕ) : Type 0 where
  pub once : 1 ≤ attempts
  pub ten : attempts ≤ 10
  pub asked : (n : ℕ) → retries ≡ some n → n ≤ 9 → attempts ≡ suc n

pub attempts-IsTried :
    (retries : Option ℕ) (d : ℕ) → IsTried retries (min 10 (max 1 (or_else d retries + 1)))
attempts-IsTried none d = record {
  once = omega arith;
  ten = omega arith;
  asked = λ n h. absurd (ground arith);
}
attempts-IsTried (some m) d = record {
  once = omega arith;
  ten = omega arith;
  asked = λ n h le. (let same : m ≡ n = ground arith in omega (arith, same));
}

-- The limits of a policy are those of an envelope, within what the code allows.
abbrev pub IsBounded : ExecutionLimits → CommandRoute → ExecutionPolicy → Type 0
IsBounded limits route policy =
    IsBudgeted route.verb limits.max_runtime_seconds policy.max_runtime_ms
      policy.max_runtime_seconds
    × IsTried limits.max_retries policy.max_attempts

-- The policy that buildCommandExecutionPolicy gives a command allows between 1 and 10 attempts, and
-- exactly one more than the retries asked for when these are at most 9. Each attempt may take the
-- whole number of seconds shown, at least one, at most the time of the verb and at most the budget
-- of the envelope, if that is not 0.
pub build_execution_policy-IsBounded :
    (limits : ExecutionLimits) (route : CommandRoute) (action : Option PlannedAction)
    → IsBounded limits route (build_execution_policy limits route action)
unfolding build_execution_policy
build_execution_policy-IsBounded limits route action = (
  budgeted_timeout-IsBudgeted route.verb limits.max_runtime_seconds,
  attempts-IsTried limits.max_retries _,
)
