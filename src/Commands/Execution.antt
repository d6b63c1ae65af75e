-- ===== src/Commands/Execution.antt =====
-- `timeoutForVerb`, `budgetedTimeoutMs`, `retryPolicyForCommand` and the numbers of
-- `buildCommandExecutionPolicy` and `commandExecutionPolicy` of src/commands/execution.ts, and those
-- that `operatorSubmitInput` of src/commands/store.ts passes on. The numbers of an envelope are whole
-- here, and `none` stands for one that is missing or negative, or for infinitely many seconds, which
-- the code reads alike.
pub mod Bounds
pub mod Retried
use frontier_os.Prelude.{
  ℕ, ◌+◌, ◌-◌, ◌*◌, ◌/◌, zero, suc, min, max, String, Bool, true, false, Option, none, some, List,
  [], ◌∷◌, or_else, if◌then◌else◌,
}
use frontier_os.Prelude.Text.{units}
use frontier_os.Swarm.Search.{strip_prefix}
use frontier_os.Commands.{CommandRoute, PlannedAction}

-- `text.startsWith(prefix)`
abbrev pub is_some : {A : Type 0} → Option A → Bool
is_some none = false
is_some (some _) = true

abbrev pub starts_with : String → String → Bool
starts_with prefix text = is_some (strip_prefix (units prefix) (units text))

unfoldable pub timeout_for_verb : String → ℕ
timeout_for_verb verb =
    if starts_with "project." verb
    then 10 * 60000
    else if starts_with "ops." verb
    then 3 * 60000
    else 60000

unfoldable pub budgeted_timeout : String → Option ℕ → ℕ
budgeted_timeout verb none = timeout_for_verb verb
budgeted_timeout verb (some zero) = timeout_for_verb verb
budgeted_timeout verb (some (suc s)) = min (timeout_for_verb verb) (max 1000 (suc s * 1000))

-- The parts of an envelope's policy that bound the execution.
pub record ExecutionLimits : Type 0 where
  pub max_retries : Option ℕ
  pub retry_backoff_ms : Option ℕ
  pub max_runtime_seconds : Option ℕ

pub record ExecutionPolicy : Type 0 where
  pub max_attempts : ℕ
  pub backoff_ms : ℕ
  pub retry_on_failed : Bool
  pub max_runtime_ms : ℕ
  pub max_runtime_seconds : ℕ

abbrev pub is_dry_run_safe : Option PlannedAction → Bool
is_dry_run_safe none = false
is_dry_run_safe (some action) = action.dry_run_safe

abbrev pub default_retries : Option PlannedAction → List String → ℕ
default_retries action [] = 1
default_retries action (_ ∷ _) = if is_dry_run_safe action then 1 else 0

abbrev pub retry_attempts : ExecutionLimits → CommandRoute → Option PlannedAction → ℕ
retry_attempts limits route action =
    min 10 (max 1 (or_else (default_retries action route.side_effects) limits.max_retries + 1))

abbrev pub retry_backoff : ExecutionLimits → ℕ
retry_backoff limits = or_else 500 limits.retry_backoff_ms

unfoldable pub build_execution_policy :
    ExecutionLimits → CommandRoute → Option PlannedAction → ExecutionPolicy
build_execution_policy limits route action =
    let runtime = budgeted_timeout route.verb limits.max_runtime_seconds in
    record {
      max_attempts = retry_attempts limits route action;
      backoff_ms = retry_backoff limits;
      retry_on_failed = true;
      max_runtime_ms = runtime;
      max_runtime_seconds = max 1 ((runtime + 999) / 1000);
    }

-- The numbers of the JSON column of a command's policy, `none` where there is none. They are whole;
-- a negative one is read like 0.
pub record StoredPolicy : Type 0 where
  pub max_attempts : Option ℕ
  pub backoff_ms : Option ℕ
  pub retry_on_failed : Option Bool
  pub max_runtime_ms : Option ℕ
  pub max_runtime_seconds : Option ℕ

-- What submitting a command puts into the column.
abbrev pub stored_policy : ExecutionPolicy → StoredPolicy
stored_policy policy = record {
  max_attempts = some policy.max_attempts;
  backoff_ms = some policy.backoff_ms;
  retry_on_failed = some policy.retry_on_failed;
  max_runtime_ms = some policy.max_runtime_ms;
  max_runtime_seconds = some policy.max_runtime_seconds;
}

abbrev pub positive_integer : Option ℕ → ℕ → ℕ
positive_integer none fallback = fallback
positive_integer (some n) fallback = max 1 n

abbrev pub non_negative_integer : Option ℕ → ℕ → ℕ
non_negative_integer none fallback = fallback
non_negative_integer (some n) fallback = n

abbrev pub fallback_execution_policy : Option String → StoredPolicy → ExecutionPolicy
fallback_execution_policy verb stored =
    let runtime = budgeted_timeout (or_else "" verb) none in
    record {
      max_attempts = positive_integer stored.max_attempts 1;
      backoff_ms = non_negative_integer stored.backoff_ms 500;
      retry_on_failed = or_else true stored.retry_on_failed;
      max_runtime_ms = runtime;
      max_runtime_seconds = max 1 ((runtime + 999) / 1000);
    }

unfoldable pub command_execution_policy : Option String → StoredPolicy → ExecutionPolicy
command_execution_policy verb stored =
    let fallback = fallback_execution_policy verb stored in
    record {
      max_attempts = positive_integer stored.max_attempts fallback.max_attempts;
      backoff_ms = non_negative_integer stored.backoff_ms fallback.backoff_ms;
      retry_on_failed = or_else fallback.retry_on_failed stored.retry_on_failed;
      max_runtime_ms = non_negative_integer stored.max_runtime_ms fallback.max_runtime_ms;
      max_runtime_seconds =
          positive_integer stored.max_runtime_seconds fallback.max_runtime_seconds;
    }

-- The limits under which an operator submits a command again.
unfoldable pub operator_limits : ExecutionPolicy → ExecutionLimits
operator_limits policy = record {
  max_retries = some (policy.max_attempts - 1);
  retry_backoff_ms = some policy.backoff_ms;
  max_runtime_seconds = some policy.max_runtime_seconds;
}
