-- ===== src/Work/Prepare/Validity.antt =====
-- src/work/graph.ts: which graphs `prepare` accepts, and what the prepared graph is.
use frontier_os.Prelude.{
  String, ◌≡◌, ◌↔◌, ◌≢◌, refl, true, false, ◌||◌, subst, some, List, [], ◌∷◌, arith, eq_iff, inl,
  inr, All, All-map, ◌⊎◌,
}
use frontier_os.Prelude.Dict.{
  Dict, lookup, insert, has, has-insert, lookup-insert, contains, IsUnique,
}
use frontier_os.Work.{WorkNode, WorkGraph}
use frontier_os.Work.Kahn.{Sorted, sorted, cyclic, exhausted, topological_sort}
use frontier_os.Work.Kahn.Count.{ids}
use frontier_os.Work.Kahn.Fuel.{topological_sort_terminates}
use frontier_os.Work.Kahn.Order.{DepsIn, IsTopological, topological_sort-IsTopological}
use frontier_os.Work.Kahn.Acyclic.{IsClosed, IsAcyclic, topological_sort_iff}
use frontier_os.Work.Prepare.{
  PreparedGraph, no_result, Result, ok, err, ◌>>=◌, index_nodes, check_deps, check_nodes, finish,
  prepare,
}

>>=-eq-ok {ℓ κ} :
    {A : Type ℓ} {B : Type κ} (r : Result A) (f : A → Result B) (b : B)
    → (r >>= f) ≡ ok b
    → (a : A) × (r ≡ ok a) × (f a ≡ ok b)
>>=-eq-ok (ok a) f b h = (a, refl, h)
>>=-eq-ok (err e) f b h = cc

-- The map holds the nodes of the list under their ids, and what it held before.
record IsIndex (m m' : Dict WorkNode) (nodes : List WorkNode) : Type 0 where
  keys : (k : String) → has k m' ≡ (has k m || contains (ids nodes) k)
  unique : IsUnique (ids nodes)
  fresh : (k : String) → contains (ids nodes) k ≡ true → has k m ≡ false
  kept : (k : String) → contains (ids nodes) k ≡ false → lookup k m' ≡ lookup k m
  found : All (λ node. lookup node.node_id m' ≡ some node) nodes

index_nodes-IsIndex :
    (nodes : List WorkNode) (m m' : Dict WorkNode)
    → index_nodes m nodes ≡ ok m'
    → IsIndex m m' nodes
unfolding index_nodes
index_nodes-IsIndex [] m m' h =
    let same : m ≡ m' = ground arith in
    record {
      keys = λ k. ground (arith, same);
      unique = tt;
      fresh = λ k e. ground arith;
      kept = λ k e. ground (arith, same);
      found = tt;
    }
index_nodes-IsIndex (node ∷ nodes) m m' h =
    let id = node.node_id in
    let new : has id m ≡ false = ground arith in
    let rest = index_nodes-IsIndex nodes (insert id node m) m' (ground arith) in
    let apart : contains (ids nodes) id ≡ false =
      ground (arith, rest.fresh id, has-insert id id node m, eq_iff id id) in
    record {
      keys = λ k. ground (arith, rest.keys k, has-insert id k node m);
      unique = (apart, rest.unique);
      fresh = λ k e. ground (arith, rest.fresh k, has-insert id k node m, eq_iff id k, new);
      kept = λ k e. ground (arith, rest.kept k, lookup-insert id k node m);
      found = (
        ground (arith, rest.kept id apart, lookup-insert id id node m, eq_iff id id),
        rest.found,
      );
    }

index_nodes_succeeds :
    (nodes : List WorkNode) (m : Dict WorkNode)
    → IsUnique (ids nodes)
    → ((k : String) → contains (ids nodes) k ≡ true → has k m ≡ false)
    → (m' : Dict WorkNode) × (index_nodes m nodes ≡ ok m')
unfolding index_nodes
index_nodes_succeeds [] m u fresh = (m, refl)
index_nodes_succeeds (node ∷ nodes) m (apart, u) fresh =
    let id = node.node_id in
    let (m', e) =
      index_nodes_succeeds nodes (insert id node m) u
        (λ k h. ground (arith, has-insert id k node m, eq_iff id k, eq_iff k id, fresh k, apart)) in
    let new : has id m ≡ false = ground (arith, fresh id, eq_iff id id) in (m', rw new e)

abbrev Has : Dict WorkNode → List String → Type 0
Has m = All (λ d. has d m ≡ true)

check_deps_iff :
    (m : Dict WorkNode) (id : String) (deps : List String)
    → (check_deps m id deps ≡ ok tt) ↔ Has m deps
unfolding check_deps
check_deps_iff m id [] = ((λ e. tt), (λ h. refl))
check_deps_iff m id (dep ∷ deps) =
    let rest = check_deps_iff m id deps in
    (
      (λ e. let here : has dep m ≡ true = ground arith in (here, rest.0 (ground arith))),
      (λ h. rw (h.0) (rest.1 h.1)),
    )

check_nodes_iff :
    (m : Dict WorkNode) (nodes : List WorkNode)
    → (check_nodes m nodes ≡ ok tt) ↔ All (λ node. Has m node.dependencies) nodes
unfolding check_nodes
check_nodes_iff m [] = ((λ e. tt), (λ h. refl))
check_nodes_iff m (node ∷ nodes) =
    let here = check_deps_iff m node.node_id node.dependencies in
    let rest = check_nodes_iff m nodes in
    (
      (λ e.
          let (u, p, q) =
            >>=-eq-ok (check_deps m node.node_id node.dependencies) (λ _. check_nodes m nodes) tt
              e in
          (here.0 p, rest.0 q)),
      (λ h. rw (here.1 h.0) (rest.1 h.1)),
    )

-- What a successful run went through.
prepare_steps :
    (graph : WorkGraph) (p : PreparedGraph)
    → prepare graph ≡ ok p
    → (m : Dict WorkNode) × IsIndex [] m graph.nodes
      × All (λ node. Has m node.dependencies) graph.nodes
      × (finish graph m (topological_sort graph.nodes) ≡ ok p)
unfolding prepare
prepare_steps graph p e =
    let (m, indexed, e1) = >>=-eq-ok (index_nodes [] graph.nodes) _ p e in
    let (u, checked, e2) = >>=-eq-ok (check_nodes m graph.nodes) _ p e1 in
    (m, index_nodes-IsIndex graph.nodes [] m indexed, (check_nodes_iff m graph.nodes).0 checked, e2)

closed_of_index :
    (m : Dict WorkNode) (nodes part : List WorkNode)
    → IsIndex [] m nodes
    → All (λ node. Has m node.dependencies) part ↔ All (DepsIn (ids nodes)) part
closed_of_index m nodes part i = (
  All-map (λ node. All-map (λ d h. ground (arith, i.keys d)) node.dependencies) part,
  All-map (λ node. All-map (λ d h. ground (arith, i.keys d)) node.dependencies) part,
)

-- The graphs that can be executed: distinct node ids, known dependencies, no cycle.
pub record IsExecutable (nodes : List WorkNode) : Type 0 where
  pub unique : IsUnique (ids nodes)
  pub closed : IsClosed nodes
  pub acyclic : IsAcyclic nodes

-- What the executor may assume of a prepared graph.
pub record IsPrepared (graph : WorkGraph) (p : PreparedGraph) : Type 0 where
  pub same : p.graph ≡ graph
  pub executable : IsExecutable graph.nodes
  pub topological : IsTopological graph.nodes p.order
  pub indexed : All (λ node. lookup node.node_id p.by_id ≡ some node) graph.nodes
  pub only : (k : String) → has k p.by_id ≡ contains (ids graph.nodes) k

module _ (graph : WorkGraph) (m : Dict WorkNode) (i : IsIndex [] m graph.nodes)
    (closed : IsClosed graph.nodes) where
  finish-IsPrepared :
      (r : Sorted) (p : PreparedGraph)
      → topological_sort graph.nodes ≡ r
      → finish graph m r ≡ ok p
      → IsPrepared graph p
  finish-IsPrepared (sorted order) p s e =
      let t = topological_sort-IsTopological graph.nodes order i.unique s in
      let acyclic = (topological_sort_iff graph.nodes i.unique closed).0.0 (order, s) in
      let same : ◌≡◌ {A = PreparedGraph} (record { graph = graph; order = order; by_id = m }) p =
        cc in
      subst (IsPrepared graph) same (record {
        same = refl;
        executable = record { unique = i.unique; closed = closed; acyclic = acyclic };
        topological = t;
        indexed = i.found;
        only = i.keys;
      })
  finish-IsPrepared cyclic p s e = absurd (ground arith)
  finish-IsPrepared exhausted p s e = absurd (ground arith)

-- A graph that `prepare` returns is the given one, which is executable, with a topological order of
-- its ids and a map that finds each node under its id and has no other key.
pub prepare-IsPrepared :
    (graph : WorkGraph) (p : PreparedGraph) → prepare graph ≡ ok p → IsPrepared graph p
prepare-IsPrepared graph p e =
    let (m, i, known, ended) = prepare_steps graph p e in
    let closed = (closed_of_index m graph.nodes graph.nodes i).0 known in
    finish-IsPrepared graph m i closed (topological_sort graph.nodes) p refl ended

prepare_succeeds :
    (graph : WorkGraph) → IsExecutable graph.nodes → (p : PreparedGraph) × (prepare graph ≡ ok p)
unfolding prepare
prepare_succeeds graph x =
    let (m, e) = index_nodes_succeeds graph.nodes [] x.unique (λ k h. refl) in
    let i = index_nodes-IsIndex graph.nodes [] m e in
    let known =
      (check_nodes_iff m graph.nodes).1
        ((closed_of_index m graph.nodes graph.nodes i).1 x.closed) in
    let (order, s) = (topological_sort_iff graph.nodes x.unique x.closed).0.1 x.acyclic in
    (record { graph = graph; order = order; by_id = m }, rw (e, known, s))

>>=-eq-no_result {ℓ κ} :
    {A : Type ℓ} {B : Type κ} (r : Result A) (f : A → Result B)
    → (r >>= f) ≡ err no_result
    → (r ≡ err no_result) ⊎ ((a : A) × (f a ≡ err no_result))
>>=-eq-no_result (ok a) f h = inr (a, h)
>>=-eq-no_result (err e) f h = inl (ground arith)

index_nodes-ne-no_result :
    (nodes : List WorkNode) (m : Dict WorkNode) → index_nodes m nodes ≢ err no_result
unfolding index_nodes
index_nodes-ne-no_result [] m = λ e. ground arith
index_nodes-ne-no_result (node ∷ nodes) m =
    λ e. ground (arith, index_nodes-ne-no_result nodes (insert node.node_id node m))

check_deps-ne-no_result :
    (m : Dict WorkNode) (id : String) (deps : List String) → check_deps m id deps ≢ err no_result
unfolding check_deps
check_deps-ne-no_result m id [] = λ e. ground arith
check_deps-ne-no_result m id (dep ∷ deps) = λ e. ground (arith, check_deps-ne-no_result m id deps)

check_nodes-ne-no_result :
    (m : Dict WorkNode) (nodes : List WorkNode) → check_nodes m nodes ≢ err no_result
unfolding check_nodes
check_nodes-ne-no_result m [] = λ e. ground arith
check_nodes-ne-no_result m (node ∷ nodes) = λ e.
    elim (>>=-eq-no_result (check_deps m node.node_id node.dependencies) _ e) [
      | inl here ↦ check_deps-ne-no_result m node.node_id node.dependencies here
      | inr (_, later) ↦ check_nodes-ne-no_result m nodes later
    ]

finish-ne-no_result :
    (graph : WorkGraph) (m : Dict WorkNode) (r : Sorted)
    → r ≢ exhausted
    → finish graph m r ≢ err no_result
finish-ne-no_result graph m (sorted order) h = λ e. ground arith
finish-ne-no_result graph m cyclic h = λ e. ground arith
finish-ne-no_result graph m exhausted h = λ e. h refl

prepare-ne-no_result : (graph : WorkGraph) → prepare graph ≢ err no_result
unfolding prepare
prepare-ne-no_result graph = λ e. elim (>>=-eq-no_result (index_nodes [] graph.nodes) _ e) [
  | inl here ↦ index_nodes-ne-no_result graph.nodes [] here
  | inr (m, later) ↦ elim (>>=-eq-no_result (check_nodes m graph.nodes) _ later) [
    | inl here ↦ check_nodes-ne-no_result m graph.nodes here
    | inr (_, last) ↦
        finish-ne-no_result graph m (topological_sort graph.nodes)
          (topological_sort_terminates graph.nodes) last
  ]
]

-- `prepare` accepts exactly the graphs with distinct node ids, known dependencies and no cycle, and
-- it always returns: one of its three errors is the answer for any other graph.
pub prepare_iff :
    (graph : WorkGraph)
    → (((p : PreparedGraph) × (prepare graph ≡ ok p)) ↔ IsExecutable graph.nodes)
      × (prepare graph ≢ err no_result)
prepare_iff graph = (
  ((λ (p, e). (prepare-IsPrepared graph p e).executable), prepare_succeeds graph),
  prepare-ne-no_result graph,
)
