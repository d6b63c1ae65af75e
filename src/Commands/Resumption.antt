-- ===== src/Commands/Resumption.antt =====
-- `resume` of src/commands/store.ts.
use frontier_os.Prelude.{or_else, ℕ, String, true, Option, none, some, List, str_eq, if◌then◌else◌}
use frontier_os.Policy.{allow, PolicyEvaluation, build_action_envelope}
use frontier_os.Policy.Ledger.{Events}
use frontier_os.Policy.Tokens.{evaluate_policy_action}
use frontier_os.Commands.{CommandStatus, queued, blocked_approval, ActivityStatus, CommandRoute}
use frontier_os.Commands.Explain.{CommandEnv, checkpoint_for, action_input, log_evaluation}
use frontier_os.Commands.Rows.{CommandRow, ActivityRow, World, update_where, is_id, get_command}
use frontier_os.Commands.Store.{Patch, patched, mark_activities}
use frontier_os.Commands.Operations.{
  verb_required, no_route, unknown_command, trace_mismatch, done, threw, Reply, require_command,
}
use frontier_os.Commands.Events.{append_state_changed}

module _ (env : CommandEnv) where
  abbrev pub resume_patch : CommandRow → PolicyEvaluation → ℕ → Patch
  resume_patch row policy now = elim policy.decision.status [
    | allow ↦ record {
      status = queued;
      policy = some policy;
      checkpoint = checkpoint_for row.command_id queued now;
      interrupt = none;
      result = none;
      error = none;
    }
    | _ ↦ record {
      status = blocked_approval;
      policy = some policy;
      checkpoint = checkpoint_for row.command_id blocked_approval now;
      interrupt = row.interrupt;
      result = none;
      error = some policy.decision.reason;
    }
  ]

  abbrev marked : CommandStatus → String → ℕ → List ActivityRow → List ActivityRow
  marked queued id now activities = mark_activities id ActivityStatus.queued now activities
  marked _ id now activities = activities

  -- The part of `resume` behind the policy's evaluation.
  unfoldable pub apply_resume :
      CommandRow → PolicyEvaluation → Events → ℕ → World → Reply CommandRow × World
  apply_resume row policy events now w =
      let patch = resume_patch row policy now in
      let rows = update_where (is_id row.command_id) (patched now patch) w.commands in
      let after = get_command row.command_id rows in
      (
        require_command after row.command_id,
        record {
          commands = rows;
          activities = marked patch.status row.command_id now w.activities;
          events = append_state_changed row after "resume" (log_evaluation policy events);
        },
      )

  abbrev pub resume_routed :
      CommandRow → Option CommandRoute → Option String → ℕ → World → Reply CommandRow × World
  resume_routed row none actor now w = (threw no_route, w)
  resume_routed row (some r) actor now w =
      elim (build_action_envelope row.trace_id (env.policy.to_iso now)
        (action_input (or_else row.actor actor) row.surface row.project_id r row.trace_id)) [
          | none ↦ (threw verb_required, w)
          | some action ↦
              let (policy, events) = evaluate_policy_action env.policy action now true w.events in
              apply_resume row policy events now w
        ]

  unfoldable pub resume_blocked :
      CommandRow
      → CommandStatus
      → Option String
      → Option String
      → ℕ
      → World
      → Reply CommandRow × World
  resume_blocked row blocked_approval trace_id actor now w =
      let wanted = or_else row.trace_id trace_id in
      if str_eq wanted row.trace_id
      then resume_routed row row.route actor now w
      else (threw (trace_mismatch wanted), w)
  resume_blocked row _ trace_id actor now w = (done row, w)

  unfoldable pub resume :
      String → Option String → Option String → ℕ → World → Reply CommandRow × World
  unfolding resume_blocked
  resume id trace_id actor now w = elim (get_command id w.commands) [
    | none ↦ (threw (unknown_command id), w)
    | some row ↦ resume_blocked row row.status trace_id actor now w
  ]
