-- ===== src/Ghost.antt =====
-- src/ghost/safety.ts: the checks on a work graph before Ghost Shift runs it. The arrays that the
-- checks push to are passed along and returned.
pub mod Verdict
mod Tests
use frontier_os.Prelude.{
  String, Bool, true, false, ◌||◌, ◌&&◌, Option, none, some, List, [], ◌∷◌, ◌++◌, ltb, length, ◌==◌,
  if◌then◌else◌, exists,
}
use frontier_os.Prelude.Text.{◌<>◌}
use frontier_os.Work.{
  ApprovalClass, class_0, class_1, class_2, class_3, rank, VerifierMode, off, required,
  required_before_side_effect, SideEffectClass, auth_change, billable_action, deploy,
  destructive_action, external_message, financial_action, local_write, no_effect, pr_open,
  repo_write, shared_write, ticket_write, WorkNode, WorkGraph,
}

pub data RejectCode : Type 0 where
  class_too_high dangerous_side_effect missing_verifier unsafe_approval_policy : RejectCode

pub record Rejection : Type 0 where
  pub code : RejectCode
  pub message : String
  pub node_id : Option String

pub record SafetyVerdict : Type 0 where
  pub safe : Bool
  pub rejections : List Rejection
  pub warnings : List String

-- `DANGEROUS_SIDE_EFFECTS.has(se)`.
unfoldable pub is_dangerous : SideEffectClass → Bool
is_dangerous auth_change = true
is_dangerous billable_action = true
is_dangerous deploy = true
is_dangerous destructive_action = true
is_dangerous external_message = true
is_dangerous financial_action = true
is_dangerous _ = false

abbrev max_ghost_approval_class : ApprovalClass
max_ghost_approval_class = class_1

abbrev pub exceeds : ApprovalClass → Bool
exceeds class = ltb (rank max_ghost_approval_class) (rank class)

abbrev digit : ApprovalClass → String
digit class_0 = "0"
digit class_1 = "1"
digit class_2 = "2"
digit class_3 = "3"

-- The texts that the program prints for a side effect.
abbrev effect_text : SideEffectClass → String
effect_text auth_change = "auth_change"
effect_text billable_action = "billable_action"
effect_text deploy = "deploy"
effect_text destructive_action = "destructive_action"
effect_text external_message = "external_message"
effect_text financial_action = "financial_action"
effect_text local_write = "local_write"
effect_text no_effect = "none"
effect_text pr_open = "pr_open"
effect_text repo_write = "repo_write"
effect_text shared_write = "shared_write"
effect_text ticket_write = "ticket_write"

abbrev pub effects : WorkNode → List SideEffectClass
effects node = elim node.side_effects [ none ↦ [] | some es ↦ es ]

abbrev is_shared : SideEffectClass → Bool
is_shared repo_write = true
is_shared shared_write = true
is_shared pr_open = true
is_shared _ = false

abbrev is_off : VerifierMode → Bool
is_off off = true
is_off _ = false

abbrev pub Notes : Type 0
Notes = List Rejection × List String

-- The loop over a node's side effects.
pub reject_effects : String → List SideEffectClass → List Rejection → List Rejection
reject_effects node_id [] rejections = rejections
reject_effects node_id (se ∷ ses) rejections = reject_effects node_id ses (
    if is_dangerous se
    then rejections
      ++ record {
        code = dangerous_side_effect;
        message = "side effect \"" <> effect_text se <> "\" is not permitted in Ghost Shift";
        node_id = some node_id;
      }
        ∷ []
    else rejections)

pub reject_class : WorkNode → List Rejection → List Rejection
reject_class node rejections =
    if exceeds node.approval_class
    then rejections
      ++ record {
        code = class_too_high;
        message = "approvalClass=" <> digit node.approval_class <> " > 1";
        node_id = some node.node_id;
      }
        ∷ []
    else rejections

pub assess_node : WorkNode → Notes → Notes
assess_node node (rejections, warnings) =
    let after = reject_effects node.node_id (effects node) (reject_class node rejections) in
    let shared = exists is_shared (effects node) in
    (
      after,
      if shared && is_off node.verifier_policy.mode
          then warnings
            ++ ("node " <> node.node_id
                <> ": shared write with verifier=none (soft warning, not rejected)")
              ∷ []
          else warnings,
    )

pub assess_nodes : List WorkNode → Notes → Notes
assess_nodes [] notes = notes
assess_nodes (node ∷ nodes) notes = assess_nodes nodes (assess_node node notes)

abbrev start : WorkGraph → List Rejection
start graph =
    if exceeds graph.approval_policy.default_class
    then record {
      code = unsafe_approval_policy;
      message =
          "graph defaultClass="
          <> digit graph.approval_policy.default_class
          <> " > 1; Ghost Shift only autonomous on class ≤ 1";
      node_id = none;
    }
      ∷ []
    else []

unfoldable pub assess_graph : WorkGraph → SafetyVerdict
unfolding assess_nodes assess_node reject_class reject_effects
assess_graph graph =
    let (rejections, warnings) = assess_nodes graph.nodes (start graph, []) in
    record { safe = length rejections == 0; rejections = rejections; warnings = warnings }
