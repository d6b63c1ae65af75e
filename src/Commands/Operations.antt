-- ===== src/Commands/Operations.antt =====
-- The methods of the class CommandStore of src/commands/store.ts for workers, and `cancel`. Each takes
-- the time, at which all its reads of the clock are made, and returns its answer and the world it
-- leaves, also where it throws. The ledger's sessions are left out.
pub mod Moves
pub mod Working
pub mod Submitting
pub mod Additions
pub mod Resuming
pub mod Retrying
pub mod Runs
pub mod Lifecycle
pub mod Claiming
pub mod Changes
pub mod Leases
pub mod Holding
pub mod Exclusion
pub mod Births
pub mod Approved
use frontier_os.Prelude.{
  or_else, ℕ, ◌+◌, String, Bool, true, false, not, ◌&&◌, ◌||◌, Option, none, some, List, [], ◌∷◌,
  ◌++◌, str_eq, if◌then◌else◌,
}
use frontier_os.Prelude.Dict.{Dict, contains}
use frontier_os.Prelude.Text.{units, ◌<>◌}
use frontier_os.Work.{ApprovalClass}
use frontier_os.Policy.{allow, PolicyEvaluation, build_action_envelope}
use frontier_os.Policy.Ledger.{Json, nested, Events, append_event}
use frontier_os.Policy.Tokens.{Env, evaluate_policy_action}
use frontier_os.Commands.{
  CommandStatus, queued, running, blocked_approval, blocked_policy, completed, failed, canceled,
  ActivityStatus, blocked, CommandRoute,
}
use frontier_os.Commands.Payload.{Payload, scalar, text}
use frontier_os.Commands.Explain.{
  Envelope, CommandEnv, SubmitInput, build_command_envelope, status_text, checkpoint_for, Explained,
  action_input, log_evaluation, explain_envelope,
}
use frontier_os.Commands.Rows.{
  CommandResult, canceled_by, CommandRow, ActivityRow, World, update_where, is_id, get_command,
  get_activity,
}
use frontier_os.Commands.Claimable.{select_claimable}
use frontier_os.Commands.Store.{
  claimed, is_open, claim_activity, may_extend, extended, may_extend_activity, finished_activity,
  finished, Patch, patched, mark_activities, insert_command,
}
use frontier_os.Commands.Events.{append_state_changed, append_terminal}

pub data StoreError : Type 0 where
  intent_required invalid_envelope verb_required duplicate_key no_route : StoreError
  unknown_command unknown_activity trace_mismatch : String → StoreError
  not_retryable not_requeueable : CommandStatus → StoreError

pub data Reply {ℓ} (A : Type ℓ) : Type ℓ where
  done : A → Reply A
  threw : StoreError → Reply A

abbrev pub require_command : Option CommandRow → String → Reply CommandRow
require_command none command_id = threw (unknown_command command_id)
require_command (some row) command_id = done row

unfoldable pub claim_next :
    String → ℕ → Option String → Option ApprovalClass → ℕ → World → Option CommandRow × World
claim_next worker lease_ms command_id most now w =
    elim (select_claimable now command_id most w.commands) [
      | none ↦ (none, w)
      | some row ↦
          let until = now + lease_ms in
          let id = row.command_id in
          let rows =
            update_where (is_id id) (claimed now worker until (checkpoint_for id running now))
              w.commands in
          let after = get_command id rows in
          (
            after,
            record {
              commands = rows;
              activities =
                  update_where (λ a. str_eq a.command_id id && is_open a.status)
                    (claim_activity now worker until) w.activities;
              events = append_state_changed row after "claimed" w.events;
            },
          )
    ]

unfoldable pub extend_lease : String → String → ℕ → ℕ → World → Option CommandRow × World
extend_lease id worker lease_ms now w =
    let until = now + lease_ms in
    let rows =
      update_where (may_extend id worker) (extended now until (checkpoint_for id running now))
        w.commands in
    (
      get_command id rows,
      record w {
        commands = rows;
        activities =
            update_where (may_extend_activity id worker)
              (λ a. record a { updated_at = now; lease_until = some until }) w.activities;
      },
    )

unfoldable pub finish_activity :
    String → ActivityStatus → String → ℕ → World → Reply ActivityRow × World
finish_activity id status output now w =
    let rows =
      update_where (λ a. str_eq a.activity_id id) (finished_activity status now output)
        w.activities in
    (
      elim (get_activity id rows) [ none ↦ threw (unknown_activity id) | some a ↦ done a ],
      record w { activities = rows },
    )

unfoldable pub finish_command :
    String → CommandStatus → CommandResult → Option String → ℕ → World → Reply CommandRow × World
finish_command id status result error now w = elim (get_command id w.commands) [
  | none ↦ (threw (unknown_command id), w)
  | some before ↦
      let rows =
        update_where (is_id id) (finished status now (checkpoint_for id status now) result error)
          w.commands in
      let after = get_command id rows in
      (
        require_command after id,
        record w {
          commands = rows;
          events =
              append_terminal after
                (append_state_changed before after (status_text status) w.events);
        },
      )
]

abbrev pub is_over : CommandStatus → Bool
is_over completed = true
is_over failed = true
is_over canceled = true
is_over _ = false

unfoldable pub cancel : String → String → ℕ → World → Reply CommandRow × World
cancel id actor now w = elim (get_command id w.commands) [
  | none ↦ (threw (unknown_command id), w)
  | some before ↦
      let patch : Patch = record {
        status = canceled;
        policy = none;
        checkpoint = checkpoint_for id canceled now;
        interrupt = none;
        result = some (canceled_by actor now);
        error = none;
      } in
      let rows = update_where (is_id id) (patched now patch) w.commands in
      let after = get_command id rows in
      if is_over before.status then (done before, w) else (
        require_command after id,
        record {
          commands = rows;
          activities = mark_activities id ActivityStatus.canceled now w.activities;
          events = append_state_changed before after "canceled" w.events;
        },
      )
]
