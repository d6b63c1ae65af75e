-- ===== src/Commands.antt =====
-- src/commands/: commands that operators submit, their routes and plans, and the store that hands
-- them to workers. `Payload`, `Words`, `Verbs`, `AdapterRoute`, `Route` and `Plan` are the reading of
-- an intent, `Explain` puts them together with the policy, `Rows`, `Claimable` and `Store` are the
-- tables and their statements, and `Events`, `Operations`, `Submissions` and `Resumption` what the
-- class CommandStore does. Intents are lists of code units.
pub mod Payload
pub mod Words
pub mod Verbs
pub mod AdapterRoute
pub mod Route
pub mod Plan
pub mod Execution
pub mod Explain
pub mod Rows
pub mod Claimable
pub mod Store
pub mod Events
pub mod Operations
pub mod Submissions
pub mod Resumption
mod Tests
use frontier_os.Prelude.{ℕ, String, Bool, Option, List}
use frontier_os.Work.{ApprovalClass}
use frontier_os.Swarm.Search.{Text}

pub data CommandStatus : Type 0 where
  queued running blocked_approval blocked_policy completed failed canceled : CommandStatus

pub data ActivityStatus : Type 0 where
  queued running blocked completed failed canceled : ActivityStatus

pub data CommandLane : Type 0 where
  project ops helper mlx browser salesforce overnight frontier unknown : CommandLane

pub record CommandRoute : Type 0 where
  pub lane : CommandLane
  pub verb : String
  pub project_id : Option String
  pub approval_class : ApprovalClass
  pub side_effects : List String
  pub reason : String
  pub missing_inputs : List String

-- What the planner hands to the command line.
pub record PlannedAction : Type 0 where
  pub family : String
  pub subcommand : String
  pub args : List String
  pub dry_run_safe : Bool

pub data PlanType : Type 0 where
  direct_action work_graph blocked : PlanType

pub record CommandPlan : Type 0 where
  pub plan_id : String
  pub kind : PlanType
  pub action : Option PlannedAction
