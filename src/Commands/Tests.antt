-- ===== src/Commands/Tests.antt =====
-- src/commands/store.ts: a command that needs an approval, and one that is denied.
use frontier_os.Prelude.{
  ℕ, ◌≡◌, ◌≢◌, refl, String, true, false, Option, none, some, ◌⊎◌, inl, inr, List, [], ◌∷◌, ◌++◌,
  arith, or_else, All, eq_iff,
}
use frontier_os.Prelude.Text.{units}
use frontier_os.Work.{class_1, class_2}
use frontier_os.Policy.Ledger.{Events, Has, append_event, newest}
use frontier_os.Policy.Samples.{env as policy_env, laws as policy_laws}
use frontier_os.Policy.Tokens.{
  approve_trace, append_policy_event, grant_from_event, grants_of, token_ids_of, is_active,
  active_grants, consumed_token_ids, candidate, consume_approval_token, decide,
  evaluate_policy_action,
}
use frontier_os.Commands.{queued, running, blocked_policy, blocked_approval, CommandRoute, ops}
use frontier_os.Commands.Explain.{
  CommandEnv, SubmitInput, normalize_intent, build_command_envelope, explain_envelope,
}
use frontier_os.Commands.Rows.{CommandRow, World, update_where}
use frontier_os.Commands.Claimable.{
  is_claimable, may_claim, earliest, select_claimable, count_claimable,
}
use frontier_os.Commands.Store.{mark_activities, insert_command}
use frontier_os.Commands.Operations.{
  Reply, done, claim_next, extend_lease, finish_activity, finish_command, cancel,
}
use frontier_os.Commands.Execution.{
  ExecutionLimits, build_execution_policy, operator_limits, command_execution_policy, stored_policy,
}
use frontier_os.Commands.Execution.Retried.{retried_same}
use frontier_os.Commands.Execution.Bounds.{IsBounded, build_execution_policy-IsBounded}
use frontier_os.Commands.Submissions.{submit, store_explained, retry, requeue}
use frontier_os.Commands.Events.{
  append_state_changed, append_lifecycle, append_terminal, append_linked,
}
use frontier_os.Commands.Resumption.{apply_resume, resume_blocked, resume}
use frontier_os.Commands.Operations.Runs.{
  Operation, submits, claims, resumes, appends, extends, run, empty, perform,
}
use frontier_os.Commands.Operations.Lifecycle.{IsSound, run-IsSound, run-IsKeyed, perform-IsMove}
use frontier_os.Commands.Operations.Moves.{IsMove}
use frontier_os.Commands.Operations.Approved.{IsQueued, resume_approved}
use frontier_os.Commands.Operations.Claiming.{NothingClaimed, Claims, claim_next_lem}
use frontier_os.Commands.Operations.Exclusion.{IsDuring, lease_exclusive}
use frontier_os.Commands.Operations.Births.{destructive_blocked}
use frontier_os.Commands.Explain.Denied.{is_destructive}
use frontier_os.Commands.Payload.{
  adapter_command, adapter_arguments, click_missing, enter_text_missing, navigate_missing,
  select_option_missing, set_filter_missing, report_filter_missing, move_widget_missing,
}
use frontier_os.Commands.Words.{
  has_word, says, is_destructive_filesystem, is_destructive_database, is_protected_restart,
}
use frontier_os.Commands.Verbs.{inferred_class_for_verb, route}
use frontier_os.Commands.AdapterRoute.{browser_route, salesforce_route, payload_route}
use frontier_os.Commands.Route.{
  salesforce_intent, browser_intent, other_intent, infer_project_id, classify_command,
}
use frontier_os.Commands.Plan.{
  local_action, browser_action, salesforce_action, direct_action_for, plan_command,
}
use frontier_os.Policy.{side_effects_for_class, classify_verb, build_action_envelope}
use frontier_os.Swarm.Search.{strip_prefix, includes}

abbrev env : CommandEnv
env = record {
  policy = policy_env;
  lower = λ s. s;
  projects = [];
  stringify = λ args. "{}";
  is_valid = λ envelope. true;
}

abbrev asking : String → SubmitInput
asking intent = record {
  intent = units intent;
  project_id = none;
  actor_id = none;
  channel = none;
  trace_id = none;
  approval_class = none;
  payload = [];
  dry_run = false;
}

abbrev approval : Events
approval = (approve_trace policy_env 2 "a" "t" 10 none []).1

abbrev first_ask : List (Operation × ℕ)
first_ask = (submits "c" "t" (asking "repair"), 1) ∷ []

-- A command that waits for its approval, which is given.
abbrev asked : List (Operation × ℕ)
asked = first_ask ++ (appends approval, 2) ∷ []

abbrev resumed : List (Operation × ℕ)
resumed = (resumes "c" none none, 3) ∷ (claims "w" 10 none none, 4) ∷ []

abbrev repair_route : CommandRoute
repair_route = record {
  lane = ops;
  verb = "ops.repair_launchagent";
  project_id = some "frontier-os";
  approval_class = class_2;
  side_effects = "local_service" ∷ [];
  reason = "deterministic_intent_route";
  missing_inputs = [];
}

abbrev idle : CommandRow
idle = record {
  command_id = "i";
  trace_id = "i";
  status = queued;
  intent = [];
  project_id = none;
  actor = "codex";
  surface = "cli";
  requested_at = 0;
  updated_at = 0;
  approval_class = some class_1;
  lane = none;
  verb = none;
  route = none;
  policy = none;
  plan = none;
  checkpoint = none;
  interrupt = none;
  resume_cursor = none;
  idempotency_key = none;
  lease_owner = none;
  lease_until = none;
  result = none;
  error = none;
}

abbrev first_of : List CommandRow → CommandRow
first_of [] = idle
first_of (row ∷ rows) = row

store : Unit {0}
unfolding run perform is_destructive adapter_command adapter_arguments click_missing
    enter_text_missing navigate_missing select_option_missing set_filter_missing
    report_filter_missing move_widget_missing has_word says is_destructive_filesystem
    is_destructive_database is_protected_restart inferred_class_for_verb route browser_route
    salesforce_route payload_route salesforce_intent browser_intent other_intent infer_project_id
    classify_command local_action browser_action salesforce_action direct_action_for plan_command
    build_command_envelope explain_envelope update_where is_claimable may_claim earliest
    select_claimable count_claimable mark_activities insert_command append_state_changed
    append_lifecycle append_terminal append_linked claim_next extend_lease finish_activity
    finish_command cancel store_explained submit apply_resume resume_blocked resume retry requeue
    side_effects_for_class classify_verb build_action_envelope append_policy_event grant_from_event
    grants_of token_ids_of is_active active_grants consumed_token_ids candidate
    consume_approval_token approve_trace decide evaluate_policy_action append_event newest
    strip_prefix includes
store = tt

abbrev row_c : List (Operation × ℕ) → CommandRow
row_c before = first_of (run env before empty).commands

run_status :
    ((row_c asked).status ≡ blocked_approval) × ((row_c (asked ++ resumed)).status ≡ running)
unfolding store
run_status = (refl, refl)

present : Has (run env (asked ++ resumed) empty).commands (row_c (asked ++ resumed))
unfolding store
present = inl refl

run-IsSound_example : IsSound (run env (asked ++ resumed) empty).events (row_c (asked ++ resumed))
run-IsSound_example =
    run-IsSound env policy_laws (asked ++ resumed) (row_c (asked ++ resumed)) present

abbrev waiting : World
waiting = run env asked empty

perform-IsMove_example : IsMove waiting (perform env (resumes "c" none none) 3 waiting)
perform-IsMove_example =
    perform-IsMove env policy_laws (resumes "c" none none) 3 waiting
      (run-IsKeyed env policy_laws asked)

named : repair_route.verb ≢ ""
named e = absurd (ground (arith, (eq_iff repair_route.verb "").1 e))

resume_approved_example : IsQueued (resume env "c" none none 3 waiting).0
unfolding store
resume_approved_example =
    resume_approved env policy_laws waiting "c" (row_c asked) repair_route none refl refl refl refl
      named 2 "a" 10 none (run env first_ask empty).events (λ e h. h) (omega arith) refl 3
      (omega arith)

-- Two commands that need no approval.
abbrev two : List (Operation × ℕ)
two = (submits "a" "ta" (asking "status"), 1) ∷ (submits "b" "tb" (asking "smoke"), 2) ∷ []

abbrev queue : World
queue = run env two empty

claim_next_lem_example :
    NothingClaimed "w" 10 none none 3 queue
    ⊎ ((row : CommandRow) × Claims "w" 10 none none 3 queue row)
claim_next_lem_example = claim_next_lem "w" 10 none none 3 queue (run-IsKeyed env policy_laws two)

abbrev or_idle : Option CommandRow → CommandRow
or_idle = or_else idle

abbrev row_a : CommandRow
row_a = or_idle (claim_next "w" 10 none none 3 queue).0

abbrev meanwhile : List (Operation × ℕ)
meanwhile = (extends "a" "w" 10, 4) ∷ (submits "d" "td" (asking "status"), 5) ∷ []

abbrev later : World
later = run env meanwhile (claim_next "w" 10 none none 3 queue).1

abbrev row_b : CommandRow
row_b = or_idle (claim_next "v" 10 none none 6 later).0

claimed_a : (claim_next "w" 10 none none 3 queue).0 ≡ some row_a
unfolding store
claimed_a = refl

claimed_b : (claim_next "v" 10 none none 6 later).0 ≡ some row_b
unfolding store
claimed_b = refl

during : All (IsDuring row_a.command_id 13) meanwhile
during = ((omega arith, inr (omega arith)), (omega arith, tt))

lease_exclusive_example : row_b.command_id ≢ row_a.command_id
lease_exclusive_example =
    lease_exclusive env policy_laws two "w" 10 none none 3 row_a claimed_a meanwhile during "v" 10
      none none 6 row_b (omega arith) claimed_b

abbrev denied : Reply CommandRow × World
denied = submit env "x" "tx" (asking "delete all files") 1 empty

abbrev row_x : CommandRow
row_x = first_of denied.1.commands

is_denied : is_destructive (env.lower (normalize_intent (asking "delete all files").intent)) ≡ true
unfolding store
is_denied = refl

answered : denied.0 ≡ done row_x
unfolding store
answered = refl

destructive_blocked_example : row_x.status ≡ blocked_policy
destructive_blocked_example =
    destructive_blocked env "x" "tx" (asking "delete all files") 1 empty row_x refl is_denied
      answered

-- Two retries, and 90 seconds for a verb with three minutes.
abbrev two_retries : ExecutionLimits
two_retries = record {
  max_retries = some 2;
  retry_backoff_ms = none;
  max_runtime_seconds = some 90;
}

build_execution_policy-IsBounded_example :
    IsBounded two_retries repair_route (build_execution_policy two_retries repair_route none)
build_execution_policy-IsBounded_example =
    build_execution_policy-IsBounded two_retries repair_route none

retried_same_example :
    build_execution_policy
      (operator_limits (
        command_execution_policy
          (some repair_route.verb)
          (stored_policy (build_execution_policy two_retries repair_route none))))
      repair_route
      none
    ≡ build_execution_policy two_retries repair_route none
retried_same_example = retried_same two_retries repair_route none none
