-- ===== src/Commands/Store.antt =====
-- The prepared statements of src/commands/store.ts that change rows.
pub mod Rows
use frontier_os.Prelude.{
  or_else, ℕ, ◌+◌, String, Bool, true, false, ◌&&◌, ◌||◌, Option, none, some, List, [], ◌∷◌, ◌++◌,
  map, length, leb, ◌==◌, str_eq, if◌then◌else◌, select, exists, find_first,
}
use frontier_os.Work.{ApprovalClass, class_1, rank}
use frontier_os.Policy.{PolicyEvaluation}
use frontier_os.Policy.Ledger.{Events}
use frontier_os.Swarm.Search.{Text}
use frontier_os.Commands.{
  CommandStatus, queued, running, blocked_approval, blocked_policy, completed, failed, canceled,
  ActivityStatus, CommandLane, CommandRoute, CommandPlan,
}
use frontier_os.Commands as Commands
use frontier_os.Commands.Explain.{Interrupt, Checkpoint}
use frontier_os.Commands.Rows.{
  CommandResult, CommandRow, ActivityRow, update_where, is_id, same_status,
}

-- `claimCommandStmt`
abbrev pub claimed : ℕ → String → ℕ → Checkpoint → CommandRow → CommandRow
claimed now worker until checkpoint row = record row {
  status = running;
  updated_at = now;
  lease_owner = some worker;
  lease_until = some until;
  checkpoint = some checkpoint;
  resume_cursor = some checkpoint.cursor;
  interrupt = none;
  error = none;
}

-- `status IN ('queued', 'running')`, and with 'blocked'.
abbrev pub is_open : ActivityStatus → Bool
is_open ActivityStatus.queued = true
is_open ActivityStatus.running = true
is_open _ = false

abbrev pub is_pending : ActivityStatus → Bool
is_pending ActivityStatus.blocked = true
is_pending status = is_open status

-- `claimActivitiesStmt`
abbrev pub claim_activity : ℕ → String → ℕ → ActivityRow → ActivityRow
claim_activity now worker until a = record a {
  status = ActivityStatus.running;
  updated_at = now;
  lease_owner = some worker;
  lease_until = some until;
  started_at = some (or_else now a.started_at);
  attempts = a.attempts + 1;
}

-- `extendLeaseStmt` and `extendActivityLeaseStmt`, with their conditions.
abbrev pub is_owner : String → Option String → Bool
is_owner worker none = false
is_owner worker (some owner) = str_eq owner worker

abbrev pub may_extend : String → String → CommandRow → Bool
may_extend command_id worker row =
    is_id command_id row && same_status row.status running && is_owner worker row.lease_owner

abbrev pub extended : ℕ → ℕ → Checkpoint → CommandRow → CommandRow
extended now until checkpoint row = record row {
  updated_at = now;
  lease_until = some until;
  checkpoint = some checkpoint;
  resume_cursor = some checkpoint.cursor;
}

abbrev is_running : ActivityStatus → Bool
is_running ActivityStatus.running = true
is_running _ = false

abbrev pub may_extend_activity : String → String → ActivityRow → Bool
may_extend_activity command_id worker a =
    str_eq a.command_id command_id && is_running a.status && is_owner worker a.lease_owner

-- `updateActivityRunStmt`
abbrev pub finished_activity : ActivityStatus → ℕ → String → ActivityRow → ActivityRow
finished_activity status now output a = record a {
  status = status;
  updated_at = now;
  finished_at = some now;
  output = some output;
  lease_owner = none;
  lease_until = none;
}

-- `finishCommandStmt`
abbrev pub finished :
    CommandStatus → ℕ → Checkpoint → CommandResult → Option String → CommandRow → CommandRow
finished status now checkpoint result error row = record row {
  status = status;
  updated_at = now;
  checkpoint = some checkpoint;
  resume_cursor = some checkpoint.cursor;
  result = some result;
  error = error;
  lease_owner = none;
  lease_until = none;
}

-- What `updateState` is given.
pub record Patch : Type 0 where
  pub status : CommandStatus
  pub policy : Option PolicyEvaluation
  pub checkpoint : Checkpoint
  pub interrupt : Option Interrupt
  pub result : Option CommandResult
  pub error : Option String

abbrev coalesce : Option PolicyEvaluation → Option PolicyEvaluation → Option PolicyEvaluation
coalesce none old = old
coalesce (some new) old = some new

-- `updateStateStmt`
abbrev pub patched : ℕ → Patch → CommandRow → CommandRow
patched now patch row = record row {
  status = patch.status;
  updated_at = now;
  policy = coalesce patch.policy row.policy;
  checkpoint = some patch.checkpoint;
  interrupt = patch.interrupt;
  resume_cursor = some patch.checkpoint.cursor;
  result = patch.result;
  error = patch.error;
}

-- `updateActivityStatusStmt`
unfoldable pub mark_activities : String → ActivityStatus → ℕ → List ActivityRow → List ActivityRow
unfolding update_where
mark_activities command_id status now =
    update_where (λ a. str_eq a.command_id command_id && is_pending a.status)
      (λ a. record a { status = status; updated_at = now })

-- `INSERT INTO commands`: `none` where the primary key or the unique trace is taken.
unfoldable pub insert_command : CommandRow → List CommandRow → Option (List CommandRow)
insert_command row rows =
    if exists (λ r. is_id row.command_id r || str_eq r.trace_id row.trace_id) rows
    then none
    else some (rows ++ row ∷ [])
