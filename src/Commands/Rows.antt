-- ===== src/Commands/Rows.antt =====
-- The tables of src/commands/store.ts. A time is a number of milliseconds, for the printed instants
-- that the tables compare as texts. Columns that hold JSON hold the value that was printed; the
-- retry policy and the inputs of activities, which the store never reads, are left out.
use frontier_os.Prelude.{
  ℕ, String, Bool, true, false, Option, List, [], ◌∷◌, str_eq, if◌then◌else◌, find_first,
}
use frontier_os.Work.{ApprovalClass}
use frontier_os.Policy.{PolicyEvaluation}
use frontier_os.Policy.Ledger.{Events}
use frontier_os.Swarm.Search.{Text}
use frontier_os.Commands.{
  CommandStatus, queued, running, blocked_approval, blocked_policy, completed, failed, canceled,
  ActivityStatus, CommandLane, CommandRoute, CommandPlan,
}
use frontier_os.Commands.Explain.{Interrupt, Checkpoint}

pub data CommandResult : Type 0 where
  canceled_by : String → ℕ → CommandResult
  summary : String → CommandResult
  executed : String → String → String → CommandResult

pub record CommandRow : Type 0 where
  pub command_id : String
  pub trace_id : String
  pub status : CommandStatus
  pub intent : Text
  pub project_id : Option String
  pub actor : String
  pub surface : String
  pub requested_at : ℕ
  pub updated_at : ℕ
  pub approval_class : Option ApprovalClass
  pub lane : Option CommandLane
  pub verb : Option String
  pub route : Option CommandRoute
  pub policy : Option PolicyEvaluation
  pub plan : Option CommandPlan
  pub checkpoint : Option Checkpoint
  pub interrupt : Option Interrupt
  pub resume_cursor : Option String
  pub idempotency_key : Option String
  pub lease_owner : Option String
  pub lease_until : Option ℕ
  pub result : Option CommandResult
  pub error : Option String

pub record ActivityRow : Type 0 where
  pub activity_id : String
  pub command_id : String
  pub sequence : ℕ
  pub lane : CommandLane
  pub name : String
  pub verb : String
  pub status : ActivityStatus
  pub attempts : ℕ
  pub output : Option String
  pub idempotency_key : String
  pub lease_owner : Option String
  pub lease_until : Option ℕ
  pub started_at : Option ℕ
  pub finished_at : Option ℕ
  pub created_at : ℕ
  pub updated_at : ℕ

-- The two tables, and the ledger that the store appends to.
pub record World : Type 0 where
  pub commands : List CommandRow
  pub activities : List ActivityRow
  pub events : Events

-- `UPDATE … SET … WHERE …`
unfoldable pub update_where {ℓ} : {A : Type ℓ} → (A → Bool) → (A → A) → List A → List A
update_where test change [] = []
update_where test change (row ∷ rows) =
    (if test row then change row else row) ∷ update_where test change rows

abbrev pub is_id : String → CommandRow → Bool
is_id command_id row = str_eq row.command_id command_id

-- `SELECT … FROM commands WHERE command_id = ?`
abbrev pub get_command : String → List CommandRow → Option CommandRow
get_command command_id = find_first (is_id command_id)

abbrev pub get_activity : String → List ActivityRow → Option ActivityRow
get_activity activity_id = find_first (λ a. str_eq a.activity_id activity_id)

abbrev pub same_status : CommandStatus → CommandStatus → Bool
same_status queued queued = true
same_status running running = true
same_status blocked_approval blocked_approval = true
same_status blocked_policy blocked_policy = true
same_status completed completed = true
same_status failed failed = true
same_status canceled canceled = true
same_status _ _ = false
