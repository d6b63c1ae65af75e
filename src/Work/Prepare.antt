-- ===== src/Work/Prepare.antt =====
-- `prepare` of src/work/graph.ts: the checks before the sort, and the prepared graph. Reading and
-- schema validation of the file, `loadGraph`, come before it and are not modelled.
pub mod Validity
mod Tests
use frontier_os.Prelude.{
  String, ◌≡◌, ◌↔◌, refl, Bool, true, false, ◌||◌, ◌∙◌, Option, none, some, List, [], ◌∷◌,
  if◌then◌else◌, arith, str_eq, eq_iff, Bool-cases, inl, inr, All, ◌⊎◌,
}
use frontier_os.Prelude.Dict.{
  Dict, lookup, insert, has, has-insert, lookup-insert, contains, IsUnique, has_of_lookup,
}
use frontier_os.Work.{WorkNode, WorkGraph}
use frontier_os.Work.Kahn.{Sorted, sorted, cyclic, exhausted, topological_sort}
use frontier_os.Work.Kahn.Count.{ids}
use frontier_os.Work.Kahn.Fuel.{topological_sort_terminates}
use frontier_os.Work.Kahn.Order.{DepsIn, IsTopological, topological_sort-IsTopological}
use frontier_os.Work.Kahn.Acyclic.{IsClosed, IsAcyclic, topological_sort_iff}

pub record PreparedGraph : Type 0 where
  pub graph : WorkGraph
  pub order : List String
  pub by_id : Dict WorkNode

-- The messages of `WorkGraphError`. `no_result` stands for a sort that does not return.
pub data WorkGraphError : Type 0 where
  duplicate_node_id : String → WorkGraphError
  unknown_dependency : String → String → WorkGraphError
  has_cycle : WorkGraphError
  no_result : WorkGraphError

pub data Result {ℓ} (A : Type ℓ) : Type ℓ where
  ok : A → Result A
  err : WorkGraphError → Result A

infixl 5 ◌>>=◌
abbrev pub ◌>>=◌ {ℓ κ} : {A : Type ℓ} {B : Type κ} → Result A → (A → Result B) → Result B
ok a >>= f = f a
err e >>= f = err e

-- The first loop.
pub index_nodes : Dict WorkNode → List WorkNode → Result (Dict WorkNode)
index_nodes m [] = ok m
index_nodes m (node ∷ nodes) =
    let rest = index_nodes (insert node.node_id node m) nodes in
    if has node.node_id m then err (duplicate_node_id node.node_id) else rest

-- The second loop.
pub check_deps : Dict WorkNode → String → List String → Result (Unit {0})
check_deps m id [] = ok tt
check_deps m id (dep ∷ deps) =
    if has dep m then check_deps m id deps else err (unknown_dependency id dep)

pub check_nodes : Dict WorkNode → List WorkNode → Result (Unit {0})
check_nodes m [] = ok tt
check_nodes m (node ∷ nodes) = do
  _ ← check_deps m node.node_id node.dependencies
  check_nodes m nodes

abbrev pub finish : WorkGraph → Dict WorkNode → Sorted → Result PreparedGraph
finish graph by_id (sorted order) = ok (record { graph = graph; order = order; by_id = by_id })
finish graph by_id cyclic = err has_cycle
finish graph by_id exhausted = err no_result

pub prepare : WorkGraph → Result PreparedGraph
unfolding index_nodes check_nodes check_deps
prepare graph = do
  by_id ← index_nodes [] graph.nodes
  _ ← check_nodes by_id graph.nodes
  finish graph by_id (topological_sort graph.nodes)
