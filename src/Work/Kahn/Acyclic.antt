-- ===== src/Work/Kahn/Acyclic.antt =====
-- src/work/graph.ts: `topologicalSort` reports a cycle exactly for the graphs that have one.
use frontier_os.Prelude.{
  ℕ, zero, suc, ◌≤◌, ◌<◌, ◌≡◌, ◌↔◌, ◌⊎◌, refl, subst, String, true, false, List, [], ◌∷◌, ◌++◌,
  arith, eq_iff, str_eq, if◌then◌else◌, Bool-cases, inl, inr, length, All, All-map, append_assoc,
  Option-cases,
}
use frontier_os.Prelude.Dict.{
  Dict, contains, contains-append, IsUnique, Subset, length-le_of_Subset,
}
use frontier_os.Work.{WorkNode}
use frontier_os.Work.Kahn.{
  Degree, drain_from, start, adjacency, Sorted, sorted, cyclic, exhausted, topological_sort,
}
use frontier_os.Work.Kahn.Count.{ids, open_in, open_deps}
use frontier_os.Work.Kahn.Invariant.{Inv}
use frontier_os.Work.Kahn.Start.{start-Inv}
use frontier_os.Work.Kahn.Fuel.{topological_sort_terminates}
use frontier_os.Work.Kahn.Order.{
  DepsIn, Respects, drain_from-Finished, topological_sort-IsTopological, length-ids,
}

-- `rank` puts each dependency below its node.
abbrev pub IsRanked : (String → ℕ) → List WorkNode → Type 0
IsRanked rank = All (λ node. All (λ d. rank d < rank node.node_id) node.dependencies)

-- The graph has no cycle.
abbrev pub IsAcyclic : List WorkNode → Type 0
IsAcyclic nodes = (rank : String → ℕ) × IsRanked rank nodes

-- Every dependency is a node of the graph.
abbrev pub IsClosed : List WorkNode → Type 0
IsClosed nodes = All (DepsIn (ids nodes)) nodes

module _ (nodes : List WorkNode) (rank : String → ℕ) (placed : List String) where
  -- All ids of rank below `n` are placed.
  abbrev Below : ℕ → Type 0
  Below n = (d : String) → contains (ids nodes) d ≡ true → rank d < n → contains placed d ≡ true

  open_in-Below :
      (n : ℕ) (ds : List String)
      → Below n
      → All (λ d. contains (ids nodes) d ≡ true) ds
      → All (λ d. rank d < n) ds
      → open_in placed ds ≡ 0
  open_in-Below n [] b k h = refl
  open_in-Below n (d ∷ ds) b (known, k) (low, h) =
      ground (arith, b d known low, open_in-Below n ds b k h)

  All-lower :
      (m n : ℕ) (ds : List String) → m ≤ n → All (λ d. rank d < m) ds → All (λ d. rank d < n) ds
  All-lower m n [] le h = tt
  All-lower m n (d ∷ ds) le (low, h) = (omega arith, All-lower m n ds le h)

  open_deps-Below :
      (k : String) (n : ℕ) (part : List WorkNode)
      → Below n
      → rank k ≤ n
      → All (DepsIn (ids nodes)) part
      → IsRanked rank part
      → open_deps placed k part ≡ 0
  open_deps-Below k n [] b le c r = refl
  open_deps-Below k n (node ∷ part) b le (known, c) (low, r) =
      let rest = open_deps-Below k n part b le c r in
      elim (Bool-cases (str_eq node.node_id k)) [
        | inl same ↦
            let e : node.node_id ≡ k = (eq_iff _ _).0 same in
            let bound = subst (λ j. All (λ d. rank d < rank j) node.dependencies) e low in
            rw same (
              omega (
                arith,
                rest,
                open_in-Below n node.dependencies b known
                    (All-lower (rank k) n node.dependencies le bound),
              ))
        | inr other ↦ rw other rest
      ]

  module _ (m : Dict Degree) (inv : Inv nodes placed [] (record { indegree = m; queue = [] }))
      (closed : IsClosed nodes) (ranked : IsRanked rank nodes) where
    -- When the queue is empty, an id that is not placed waits for one of lower rank.
    all_placed : (n : ℕ) → Below n
    all_placed zero d known low = absurd (omega arith)
    all_placed (suc n) d known low =
        let none_open = open_deps-Below d n nodes (all_placed n) (omega arith) closed ranked in
        ground (arith, none_open, inv.queued d)

    pub Subset_ids : Subset (ids nodes) placed
    Subset_ids d known = all_placed (suc (rank d)) d known (omega arith)

-- A graph with distinct ids, known dependencies and no cycle is sorted.
pub topological_sort_succeeds :
    (nodes : List WorkNode)
    → IsUnique (ids nodes)
    → IsClosed nodes
    → IsAcyclic nodes
    → (order : List String) × (topological_sort nodes ≡ sorted order)
unfolding topological_sort
topological_sort_succeeds nodes u closed (rank, ranked) =
    let run =
      drain_from (suc (length nodes)) (adjacency nodes) (start nodes).indegree (start nodes).queue
        [] in
    elim (Option-cases run) [
      | inl stopped ↦ absurd (topological_sort_terminates nodes (rw (stopped, topological_sort)))
      | inr (order, returned) ↦
          let (m, inv, _) =
            drain_from-Finished nodes (suc (length nodes)) _ _ [] order (start-Inv nodes) tt
              returned in
          let all = Subset_ids nodes rank order m inv closed ranked in
          let len : length order ≡ length nodes = omega (
            arith,
            length-ids nodes,
            length-le_of_Subset order (ids nodes) inv.placed_unique inv.placed_inside,
            length-le_of_Subset (ids nodes) order u all,
          ) in
          (order, rw (returned, topological_sort) (ground (arith, len)))
    ]

-- Where a text stands in a list.
abbrev position : String → List String → ℕ
position k [] = 0
position k (x ∷ xs) = if str_eq x k then 0 else suc (position k xs)

position_before :
    (seen rest : List String) (d : String)
    → contains seen d ≡ true
    → position d (seen ++ rest) < length seen
position_before [] rest d h = absurd (ground arith)
position_before (x ∷ seen) rest d h = ground (arith, position_before seen rest d)

position_after :
    (seen rest : List String) (v : String)
    → contains seen v ≡ false
    → length seen ≤ position v (seen ++ rest)
position_after [] rest v h = omega arith
position_after (x ∷ seen) rest v h = ground (arith, position_after seen rest v)

Respects-ranked :
    (nodes : List WorkNode) (node : WorkNode) (seen rest : List String)
    → Respects (node ∷ nodes) seen rest
    → contains seen node.node_id ≡ false
    → contains rest node.node_id ≡ true
    → All (λ d. position d (seen ++ rest) < position node.node_id (seen ++ rest)) node.dependencies
Respects-ranked nodes node seen [] r fresh h = absurd (ground arith)
Respects-ranked nodes node seen (v ∷ rest) ((here, _), r) fresh h =
    elim (Bool-cases (str_eq node.node_id v)) [
      | inl same ↦
          All-map
            (λ d known. omega (
              arith,
              position_before seen (v ∷ rest) d known,
              position_after seen (v ∷ rest) node.node_id fresh,
            ))
            node.dependencies (here same)
      | inr other ↦
          subst (λ l. All (λ d. position d l < position node.node_id l) node.dependencies)
            (append_assoc seen (v ∷ []) rest)
            (Respects-ranked nodes node (seen ++ v ∷ []) rest r
              (ground (
                arith,
                contains-append seen (v ∷ []) node.node_id,
                eq_iff v node.node_id,
                eq_iff node.node_id v,
              ))
              (ground (arith, eq_iff v node.node_id, eq_iff node.node_id v)))
    ]

Respects-cons :
    (part : List WorkNode) (node : WorkNode) (seen rest : List String)
    → Respects (node ∷ part) seen rest
    → Respects part seen rest
Respects-cons part node seen [] r = tt
Respects-cons part node seen (v ∷ rest) ((_, here), r) =
    (here, Respects-cons part node (seen ++ v ∷ []) rest r)

IsRanked-of_Respects :
    (part : List WorkNode) (order : List String)
    → Respects part [] order
    → Subset (ids part) order
    → IsRanked (λ k. position k order) part
IsRanked-of_Respects [] order r sub = tt
IsRanked-of_Respects (node ∷ part) order r sub = (
  Respects-ranked part node [] order r refl
      (sub node.node_id (ground (arith, eq_iff node.node_id node.node_id))),
  IsRanked-of_Respects part order (Respects-cons part node [] order r)
      (λ k h. sub k (ground arith)),
)

pub Sorted-cases :
    (r : Sorted) → ((order : List String) × (r ≡ sorted order)) ⊎ ((r ≡ cyclic) ⊎ (r ≡ exhausted))
Sorted-cases (sorted order) = inl (order, refl)
Sorted-cases cyclic = inr (inl refl)
Sorted-cases exhausted = inr (inr refl)

-- For nodes with distinct ids and known dependencies the sort returns an order exactly when the
-- dependency graph is acyclic, and reports a cycle exactly when it is not.
pub topological_sort_iff :
    (nodes : List WorkNode)
    → IsUnique (ids nodes)
    → IsClosed nodes
    → (((order : List String) × (topological_sort nodes ≡ sorted order)) ↔ IsAcyclic nodes)
      × ((topological_sort nodes ≡ cyclic) ↔ (¬ IsAcyclic nodes))
topological_sort_iff nodes u closed =
    let to_order = topological_sort_succeeds nodes u closed in
    let ranks : ((order : List String) × (topological_sort nodes ≡ sorted order))
        → IsAcyclic nodes =
      λ (order, e).
        let t = topological_sort-IsTopological nodes order u e in
        ((λ k. position k order), IsRanked-of_Respects nodes order t.respects t.complete) in
    (
      (ranks, to_order),
      (
        (λ e acyclic. let (order, f) = to_order acyclic in ground arith),
        λ cycle. elim (Sorted-cases (topological_sort nodes)) [
          | inl found ↦ absurd (cycle (ranks found))
          | inr (inl e) ↦ e
          | inr (inr e) ↦ absurd (topological_sort_terminates nodes e)
        ],
      ),
    )
