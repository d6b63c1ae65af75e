-- ===== src/Ghost/Tests.antt =====
-- src/ghost/safety.ts: verdicts on small graphs.
use frontier_os.Prelude.{◌≡◌, ◌≤◌, ◌↔◌, refl, true, false, some, none, List, [], ◌∷◌, All}
use frontier_os.Work.{
  ApprovalClass, class_0, class_2, rank, SideEffectClass, deploy, repo_write, WorkGraph,
  effective_approval_class,
}
use frontier_os.Work.Kahn.Tests.{node}
use frontier_os.Ghost.{is_dangerous, assess_graph}
use frontier_os.Ghost.Verdict.{IsHarmless, assess_graph_iff, safe-effective_class}

abbrev graph : ApprovalClass → List SideEffectClass → WorkGraph
graph default effects = record {
  graph_id = "g";
  version = "v1";
  goal = "ship";
  tenant_id = "t";
  created_at = "2026-04-27";
  updated_at = none;
  priority = "normal";
  status = "queued";
  approval_policy = record { default_class = default; require_human_for = [] };
  labels = none;
  success_criteria = none;
  nodes = record (node "a" []) { side_effects = some effects } ∷ [];
}

safe_writes : (assess_graph (graph class_0 (repo_write ∷ []))).safe ≡ true
unfolding assess_graph is_dangerous
safe_writes = refl

unsafe_deploy : (assess_graph (graph class_0 (deploy ∷ []))).safe ≡ false
unfolding assess_graph is_dangerous
unsafe_deploy = refl

unsafe_default : (assess_graph (graph class_2 [])).safe ≡ false
unfolding assess_graph is_dangerous
unsafe_default = refl

assess_graph_iff_example :
    ((assess_graph (graph class_0 (deploy ∷ []))).safe ≡ true)
    ↔ ((rank class_0 ≤ 1) × All IsHarmless (graph class_0 (deploy ∷ [])).nodes)
assess_graph_iff_example = assess_graph_iff (graph class_0 (deploy ∷ []))

safe-effective_class_example :
    All
      (λ n. rank (effective_approval_class (graph class_0 (repo_write ∷ [])) n) ≤ 1)
      (graph class_0 (repo_write ∷ [])).nodes
safe-effective_class_example = safe-effective_class (graph class_0 (repo_write ∷ [])) safe_writes
