-- ===== src/Work/Kahn/Order.antt =====
-- src/work/graph.ts: what `topologicalSort` returns.
use frontier_os.Prelude.{
  ℕ, zero, suc, ◌≡◌, refl, sym, ap, subst, ◌∙◌, String, true, some, List, [], ◌∷◌, ◌++◌, arith,
  str_eq, inl, inr, length, All, append_assoc, append-nil, Option-cases,
}
use frontier_os.Prelude.Dict.{Dict, contains, IsUnique, Subset, Subset_of_length-eq}
use frontier_os.Work.{WorkNode}
use frontier_os.Work.Kahn.{Degree, drain_from, start, adjacency, sorted, topological_sort}
use frontier_os.Work.Kahn.Count.{ids, open_in, open_deps}
use frontier_os.Work.Kahn.Invariant.{Inv, head_ready, place-Inv, relax_all-Inv}
use frontier_os.Work.Kahn.Start.{start-Inv}

-- All dependencies of the node are among the texts.
abbrev pub DepsIn : List String → WorkNode → Type 0
DepsIn seen node = All (λ d. contains seen d ≡ true) node.dependencies

abbrev pub Ready : List String → String → WorkNode → Type 0
Ready seen v node = str_eq node.node_id v ≡ true → DepsIn seen node

-- Each id in the list comes when the dependencies of its nodes have been seen.
abbrev pub Respects : List WorkNode → List String → List String → Type 0
Respects nodes seen [] = Unit
Respects nodes seen (v ∷ rest) = All (Ready seen v) nodes × Respects nodes (seen ++ v ∷ []) rest

Respects-snoc :
    (nodes : List WorkNode) (rest seen : List String) (v : String)
    → Respects nodes seen rest
    → All (Ready (seen ++ rest) v) nodes
    → Respects nodes seen (rest ++ v ∷ [])
Respects-snoc nodes [] seen v r h = (rw append-nil at h, tt)
Respects-snoc nodes (x ∷ rest) seen v (here, r) h = (
  here,
  Respects-snoc nodes rest (seen ++ x ∷ []) v r
      (subst (λ p. All (Ready p v) nodes) (sym (append_assoc seen (x ∷ []) rest)) h),
)

DepsIn_of_open_in :
    (placed ds : List String) → open_in placed ds ≡ 0 → All (λ d. contains placed d ≡ true) ds
DepsIn_of_open_in placed [] h = tt
DepsIn_of_open_in placed (d ∷ ds) h = (ground arith, DepsIn_of_open_in placed ds (ground arith))

DepsIn_of_open_deps :
    (placed : List String) (v : String) (nodes : List WorkNode)
    → open_deps placed v nodes ≡ 0
    → All (Ready placed v) nodes
DepsIn_of_open_deps placed v [] h = tt
DepsIn_of_open_deps placed v (node ∷ nodes) h = (
  λ e. DepsIn_of_open_in placed node.dependencies (ground arith),
  DepsIn_of_open_deps placed v nodes (ground arith),
)

abbrev pub Finished : List WorkNode → List String → Type 0
Finished nodes order =
    (m : Dict Degree) × Inv nodes order [] (record { indegree = m; queue = [] })
    × Respects nodes [] order

pub drain_from-Finished :
    (nodes : List WorkNode) (fuel : ℕ) (m : Dict Degree) (queue placed order : List String)
    → Inv nodes placed [] (record { indegree = m; queue = queue })
    → Respects nodes [] placed
    → drain_from fuel (adjacency nodes) m queue placed ≡ some order
    → Finished nodes order
unfolding drain_from
drain_from-Finished nodes zero m queue placed order inv r e = absurd (ground arith)
drain_from-Finished nodes (suc fuel) m [] placed order inv r e =
    let same : placed ≡ order = ground arith in rw (← same) (m, inv, r)
drain_from-Finished nodes (suc fuel) m (v ∷ queue) placed order inv r e =
    let (_, _, waits) = head_ready nodes placed queue v m inv in
    drain_from-Finished nodes fuel _ _ (placed ++ v ∷ []) order
      (relax_all-Inv nodes (placed ++ v ∷ []) _ _ (place-Inv nodes placed queue v m inv))
      (Respects-snoc nodes placed [] v r (DepsIn_of_open_deps placed v nodes waits)) e

pub topological_sort-Finished :
    (nodes : List WorkNode) (order : List String)
    → topological_sort nodes ≡ sorted order
    → Finished nodes order × (length order ≡ length nodes)
unfolding topological_sort
topological_sort-Finished nodes order e =
    let run =
      drain_from (suc (length nodes)) (adjacency nodes) (start nodes).indegree (start nodes).queue
        [] in
    elim (Option-cases run) [
      | inl stopped ↦ absurd (ground arith)
      | inr (found, returned) ↦
          let same : found ≡ order = ground arith in
          (
            drain_from-Finished nodes (suc (length nodes)) _ _ [] order (start-Inv nodes) tt
                (returned ∙ ap some same),
            ground arith,
          )
    ]

pub length-ids : (nodes : List WorkNode) → length (ids nodes) ≡ length nodes
length-ids [] = refl
length-ids (node ∷ nodes) = ap suc (length-ids nodes)

pub record IsTopological (nodes : List WorkNode) (order : List String) : Type 0 where
  -- Each dependency stands in front of what depends on it.
  pub respects : Respects nodes [] order
  pub unique : IsUnique order
  pub listed : Subset order (ids nodes)
  pub complete : Subset (ids nodes) order

-- For nodes with distinct ids the result of a successful sort is a topological order: it lists each
-- node id exactly once and nothing else, each behind all dependencies of its node.
pub topological_sort-IsTopological :
    (nodes : List WorkNode) (order : List String)
    → IsUnique (ids nodes)
    → topological_sort nodes ≡ sorted order
    → IsTopological nodes order
topological_sort-IsTopological nodes order u e =
    let ((m, inv, r), len) = topological_sort-Finished nodes order e in
    record {
      respects = r;
      unique = inv.placed_unique;
      listed = inv.placed_inside;
      complete =
          Subset_of_length-eq order (ids nodes) inv.placed_unique inv.placed_inside
            (omega (arith, length-ids nodes));
    }
