-- ===== src/Work/Kahn/Tests.antt =====
-- src/work/graph.ts: the sort on small graphs.
use frontier_os.Prelude.{◌≡◌, ◌≢◌, ◌↔◌, refl, String, none, List, [], ◌∷◌}
use frontier_os.Prelude.Dict.{IsUnique}
use frontier_os.Prelude.Text.{lt_text}
use frontier_os.Work.{WorkNode, code_change, queued, linux, codex_exec, off, class_1}
use frontier_os.Work.Kahn.{
  sorted, cyclic, exhausted, topological_sort, insert_sorted, relax, relax_all, bump, bump_all,
  link, link_all,
}
use frontier_os.Work.Kahn.Count.{ids}
use frontier_os.Work.Kahn.Fuel.{topological_sort_terminates}
use frontier_os.Work.Kahn.Order.{IsTopological, topological_sort-IsTopological}
use frontier_os.Work.Kahn.Acyclic.{IsAcyclic, topological_sort_iff}

abbrev pub node : String → List String → WorkNode
node id deps = record {
  node_id = id;
  kind = code_change;
  title = id;
  description = none;
  status = queued;
  priority = "normal";
  runtime = record { plane = linux; executor = codex_exec; model = none; worktree_strategy = none };
  approval_class = class_1;
  dependencies = deps;
  allowed_tools = [];
  verifier_policy = record { mode = off; checks = none };
  side_effects = none;
  retry_policy = none;
  owner = none;
  trace_id = none;
}

sort_program : Unit {0}
unfolding topological_sort insert_sorted relax relax_all bump bump_all link link_all lt_text
sort_program = tt

abbrev pub diamond : List WorkNode
diamond =
    node "d" ("b" ∷ "c" ∷ []) ∷ node "c" ("a" ∷ []) ∷ node "b" ("a" ∷ "a" ∷ []) ∷ node "a" [] ∷ []

pub sort-diamond : topological_sort diamond ≡ sorted ("a" ∷ "b" ∷ "c" ∷ "d" ∷ [])
unfolding sort_program
sort-diamond = refl

sort_loop : topological_sort (node "a" ("b" ∷ []) ∷ node "b" ("a" ∷ []) ∷ []) ≡ cyclic
unfolding sort_program
sort_loop = refl

sort_dangling : topological_sort (node "a" ("x" ∷ []) ∷ []) ≡ cyclic
unfolding sort_program
sort_dangling = refl

topological_sort_terminates_example : topological_sort diamond ≢ exhausted
topological_sort_terminates_example = topological_sort_terminates diamond

abbrev pub diamond_unique : IsUnique (ids diamond)
diamond_unique = (refl, (refl, (refl, (refl, tt))))

topological_sort-IsTopological_example : IsTopological diamond ("a" ∷ "b" ∷ "c" ∷ "d" ∷ [])
topological_sort-IsTopological_example =
    topological_sort-IsTopological diamond ("a" ∷ "b" ∷ "c" ∷ "d" ∷ []) diamond_unique sort-diamond

topological_sort_iff_example :
    (((order : List String) × (topological_sort diamond ≡ sorted order)) ↔ IsAcyclic diamond)
    × ((topological_sort diamond ≡ cyclic) ↔ (¬ IsAcyclic diamond))
topological_sort_iff_example =
    topological_sort_iff diamond diamond_unique
      ((refl, (refl, tt)), ((refl, tt), ((refl, (refl, tt)), (tt, tt))))
