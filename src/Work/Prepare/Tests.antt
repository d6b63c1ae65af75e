-- ===== src/Work/Prepare/Tests.antt =====
-- src/work/graph.ts: `prepare` on small graphs.
use frontier_os.Prelude.{◌≡◌, ◌≢◌, ◌↔◌, refl, none, List, [], ◌∷◌}
use frontier_os.Work.{WorkNode, WorkGraph, class_0}
use frontier_os.Work.Kahn.Tests.{node, diamond, sort-diamond}
use frontier_os.Work.Prepare.{
  PreparedGraph, duplicate_node_id, unknown_dependency, no_result, ok, err, prepare,
}
use frontier_os.Work.Prepare.Validity.{IsExecutable, IsPrepared, prepare-IsPrepared, prepare_iff}

abbrev graph : List WorkNode → WorkGraph
graph nodes = record {
  graph_id = "g";
  version = "v1";
  goal = "ship";
  tenant_id = "t";
  created_at = "2026-04-27";
  updated_at = none;
  priority = "normal";
  status = "queued";
  approval_policy = record { default_class = class_0; require_human_for = [] };
  labels = none;
  success_criteria = none;
  nodes = nodes;
}

abbrev prepared : PreparedGraph
prepared = record {
  graph = graph diamond;
  order = "a" ∷ "b" ∷ "c" ∷ "d" ∷ [];
  by_id =
      ("d", node "d" ("b" ∷ "c" ∷ []))
      ∷ ("c", node "c" ("a" ∷ []))
      ∷ ("b", node "b" ("a" ∷ "a" ∷ []))
      ∷ ("a", node "a" [])
      ∷ [];
}

prepare-diamond : prepare (graph diamond) ≡ ok prepared
unfolding prepare
prepare-diamond = rw sort-diamond

prepare_duplicate : prepare (graph (node "a" [] ∷ node "a" [] ∷ [])) ≡ err (duplicate_node_id "a")
unfolding prepare
prepare_duplicate = refl

prepare_unknown : prepare (graph (node "a" ("x" ∷ []) ∷ [])) ≡ err (unknown_dependency "a" "x")
unfolding prepare
prepare_unknown = refl

prepare-IsPrepared_example : IsPrepared (graph diamond) prepared
prepare-IsPrepared_example = prepare-IsPrepared (graph diamond) prepared prepare-diamond

prepare_iff_example :
    (((p : PreparedGraph) × (prepare (graph diamond) ≡ ok p)) ↔ IsExecutable diamond)
    × (prepare (graph diamond) ≢ err no_result)
prepare_iff_example = prepare_iff (graph diamond)
