-- ===== src/Work.antt =====
-- src/work/graph.ts: the documents that the executor runs, and their approval classes.
-- The payloads `inputs`, `outputs`, `budgets` and `context`, which no modelled code reads, are left
-- out of the records.
pub mod Kahn
pub mod Prepare
use frontier_os.Prelude.{
  ℕ, String, ◌≡◌, refl, Bool, Option, none, some, List, [], ◌∷◌, leb, if◌then◌else◌, arith, ◌≤◌,
}

pub data ApprovalClass : Type 0 where
  class_0 class_1 class_2 class_3 : ApprovalClass

-- The number that an approval class is.
abbrev pub rank : ApprovalClass → ℕ
rank class_0 = 0
rank class_1 = 1
rank class_2 = 2
rank class_3 = 3

pub data NodeKind : Type 0 where
  research repo_analysis code_change test_run review approval : NodeKind
  browser_task mac_task incident_packet document_generation publish dispatch : NodeKind

pub data NodeStatus : Type 0 where
  queued running blocked awaiting_approval completed failed skipped canceled : NodeStatus

pub data RuntimePlane : Type 0 where
  linux mac browser remote_api : RuntimePlane

pub data RuntimeExecutor : Type 0 where
  codex_app_server codex_exec claude_code native_cli mcp_tool playwright : RuntimeExecutor
  custom_worker : RuntimeExecutor

pub data VerifierMode : Type 0 where
  off required required_before_side_effect : VerifierMode

pub data SideEffectClass : Type 0 where
  auth_change billable_action deploy destructive_action external_message : SideEffectClass
  financial_action local_write no_effect pr_open repo_write shared_write : SideEffectClass
  ticket_write : SideEffectClass

pub record RetryPolicy : Type 0 where
  pub max_attempts : ℕ
  pub backoff_ms : Option ℕ
  pub retry_on_failed : Option Bool

pub record Runtime : Type 0 where
  pub plane : RuntimePlane
  pub executor : RuntimeExecutor
  pub model : Option String
  pub worktree_strategy : Option String

pub record VerifierPolicy : Type 0 where
  pub mode : VerifierMode
  pub checks : Option (List String)

pub record WorkNode : Type 0 where
  pub node_id : String
  pub kind : NodeKind
  pub title : String
  pub description : Option String
  pub status : NodeStatus
  pub priority : String
  pub runtime : Runtime
  pub approval_class : ApprovalClass
  pub dependencies : List String
  pub allowed_tools : List String
  pub verifier_policy : VerifierPolicy
  pub side_effects : Option (List SideEffectClass)
  pub retry_policy : Option RetryPolicy
  pub owner : Option String
  pub trace_id : Option String

pub record ApprovalPolicy : Type 0 where
  pub default_class : ApprovalClass
  pub require_human_for : List String

pub record WorkGraph : Type 0 where
  pub graph_id : String
  pub version : String
  pub goal : String
  pub tenant_id : String
  pub created_at : String
  pub updated_at : Option String
  pub priority : String
  pub status : String
  pub approval_policy : ApprovalPolicy
  pub labels : Option (List String)
  pub success_criteria : Option (List String)
  pub nodes : List WorkNode

-- `Math.max` on approval classes.
abbrev max_class : ApprovalClass → ApprovalClass → ApprovalClass
max_class a b = if leb (rank b) (rank a) then a else b

unfoldable pub effective_approval_class : WorkGraph → WorkNode → ApprovalClass
effective_approval_class graph node =
    max_class graph.approval_policy.default_class node.approval_class
