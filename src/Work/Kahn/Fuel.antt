-- ===== src/Work/Kahn/Fuel.antt =====
-- src/work/graph.ts: the loop of `topologicalSort` ends. A node that enters the queue has lost its
-- last open dependency, so the queue and the nodes of positive degree together never grow.
use frontier_os.Prelude.{
  or_else, ℕ, zero, suc, ◌+◌, ◌≤◌, ◌<◌, ◌≡◌, refl, ◌≢◌, String, true, none, List, [], ◌∷◌, ◌++◌,
  arith, length, All, eq_iff,
}
use frontier_os.Prelude.Dict.{
  Dict, lookup, insert, has, has-insert, length-insert-le, length-insert-has,
}
use frontier_os.Work.{WorkNode}
use frontier_os.Work.Kahn.{
  Degree, pos, negsuc, incr, decr, is_zero, zero_degrees, bump, bump_all, degrees, insert_sorted,
  start_queue, Frontier, relax, relax_all, drain_from, start, adjacency, exhausted,
  topological_sort,
}

abbrev weight : Degree → ℕ
weight (pos zero) = 0
weight (pos (suc n)) = 1
weight (negsuc n) = 0

abbrev positives : Dict Degree → ℕ
positives [] = 0
positives ((k, d) ∷ m) = weight d + positives m

positives-insert :
    (k : String) (d : Degree) (m : Dict Degree)
    → positives (insert k d m) + weight (or_else (pos 0) (lookup k m)) ≡ positives m + weight d
positives-insert k d [] = omega arith
positives-insert k d ((j, e) ∷ m) = ground (arith, positives-insert k d m)

length-insert_sorted :
    (id : String) (queue : List String) → length (insert_sorted id queue) ≡ suc (length queue)
unfolding insert_sorted
length-insert_sorted id [] = refl
length-insert_sorted id (q ∷ queue) = ground (arith, length-insert_sorted id queue)

abbrev potential : Frontier → ℕ
potential s = length s.queue + positives s.indegree

-- What a lost dependency does to the weight of a degree.
weight-decr : (d : Degree) → weight (decr d) ≤ weight d
weight-decr (pos zero) = omega arith
weight-decr (pos (suc zero)) = omega arith
weight-decr (pos (suc (suc n))) = omega arith
weight-decr (negsuc n) = omega arith

weight_of_last : (d : Degree) → is_zero (decr d) ≡ true → suc (weight (decr d)) ≤ weight d
weight_of_last (pos zero) h = ground arith
weight_of_last (pos (suc zero)) h = omega arith
weight_of_last (pos (suc (suc n))) h = ground arith
weight_of_last (negsuc n) h = ground arith

potential-relax-le : (s : Frontier) (next : String) → potential (relax s next) ≤ potential s
unfolding relax
potential-relax-le s next =
    let d = or_else (pos 0) (lookup next s.indegree) in
    ground (
      arith,
      positives-insert next (decr d) s.indegree,
      length-insert_sorted next s.queue,
      weight-decr d,
      weight_of_last d,
    )

potential-relax_all-le :
    (rest : List String) (s : Frontier) → potential (relax_all s rest) ≤ potential s
unfolding relax_all
potential-relax_all-le [] s = omega arith
potential-relax_all-le (next ∷ rest) s =
    omega (arith, potential-relax-le s next, potential-relax_all-le rest (relax s next))

-- With more fuel than the potential the loop returns.
drain_from_returns :
    (fuel : ℕ) (adj : Dict (List String)) (indegree : Dict Degree) (queue order : List String)
    → length queue + positives indegree < fuel
    → drain_from fuel adj indegree queue order ≢ none
unfolding drain_from
drain_from_returns zero adj indegree queue order h = absurd (omega arith)
drain_from_returns (suc fuel) adj indegree [] order h = λ e. ground arith
drain_from_returns (suc fuel) adj indegree (current ∷ queue) order h =
    let next = or_else [] (lookup current adj) in
    let before : Frontier = record { indegree = indegree; queue = queue } in
    drain_from_returns fuel adj _ _ (order ++ current ∷ [])
      (omega (arith, potential-relax_all-le next before))

potential_of_start_queue : (m : Dict Degree) → length (start_queue m) + positives m ≤ length m
unfolding start_queue
potential_of_start_queue [] = omega arith
potential_of_start_queue ((k, pos zero) ∷ m) =
    omega (arith, length-insert_sorted k (start_queue m), potential_of_start_queue m)
potential_of_start_queue ((k, pos (suc n)) ∷ m) = omega (arith, potential_of_start_queue m)
potential_of_start_queue ((k, negsuc n) ∷ m) = omega (arith, potential_of_start_queue m)

length-zero_degrees-le :
    (nodes : List WorkNode) (m : Dict Degree)
    → length (zero_degrees m nodes) ≤ length m + length nodes
unfolding zero_degrees
length-zero_degrees-le [] m = omega arith
length-zero_degrees-le (node ∷ nodes) m = omega (
  arith,
  length-insert-le node.node_id (pos 0) m,
  length-zero_degrees-le nodes (insert node.node_id (pos 0) m),
)

abbrev pub Known : Dict Degree → List WorkNode → Type 0
Known m = All (λ node. has node.node_id m ≡ true)

Known-insert :
    (k : String) (d : Degree) (m : Dict Degree) (nodes : List WorkNode)
    → Known m nodes
    → Known (insert k d m) nodes
Known-insert k d m [] h = tt
Known-insert k d m (node ∷ nodes) (here, h) =
    (ground (arith, has-insert k node.node_id d m), Known-insert k d m nodes h)

has-zero_degrees :
    (nodes : List WorkNode) (m : Dict Degree) (k : String)
    → has k m ≡ true
    → has k (zero_degrees m nodes) ≡ true
unfolding zero_degrees
has-zero_degrees [] m k h = h
has-zero_degrees (node ∷ nodes) m k h =
    has-zero_degrees nodes (insert node.node_id (pos 0) m) k
      (ground (arith, has-insert node.node_id k (pos 0) m))

Known-zero_degrees : (nodes : List WorkNode) (m : Dict Degree) → Known (zero_degrees m nodes) nodes
unfolding zero_degrees
Known-zero_degrees [] m = tt
Known-zero_degrees (node ∷ nodes) m = (
  has-zero_degrees nodes (insert node.node_id (pos 0) m) node.node_id (
      ground
        (arith, has-insert node.node_id node.node_id (pos 0) m, eq_iff node.node_id node.node_id)),
  Known-zero_degrees nodes (insert node.node_id (pos 0) m),
)

-- Counting dependencies adds no key.
bump_all_keeps :
    (deps : List String) (id : String) (m : Dict Degree) (nodes : List WorkNode)
    → has id m ≡ true
    → Known m nodes
    → (length (bump_all id deps m) ≡ length m) × Known (bump_all id deps m) nodes
unfolding bump_all bump
bump_all_keeps [] id m nodes h k = (refl, k)
bump_all_keeps (dep ∷ deps) id m nodes h k =
    let d = incr (or_else (pos 0) (lookup id m)) in
    let rest =
      bump_all_keeps deps id (insert id d m) nodes
        (ground (arith, has-insert id id d m, eq_iff id id)) (Known-insert id d m nodes k) in
    (omega (arith, length-insert-has id d m h, rest.0), rest.1)

length-degrees :
    (nodes : List WorkNode) (m : Dict Degree) → Known m nodes → length (degrees nodes m) ≡ length m
unfolding degrees
length-degrees [] m h = refl
length-degrees (node ∷ nodes) m (here, h) =
    let kept = bump_all_keeps node.dependencies node.node_id m nodes here h in
    omega (arith, kept.0, length-degrees nodes _ kept.1)

potential-start-le :
    (nodes : List WorkNode)
    → length (start nodes).queue + positives (start nodes).indegree ≤ length nodes
unfolding start
potential-start-le nodes = omega (
  arith,
  potential_of_start_queue (degrees nodes (zero_degrees [] nodes)),
  length-degrees nodes (zero_degrees [] nodes) (Known-zero_degrees nodes []),
  length-zero_degrees-le nodes [],
)

-- The outer loop of `topologicalSort` ends for every list of nodes, well-formed or not: with one
-- round more than there are nodes it always empties its queue.
pub topological_sort_terminates : (nodes : List WorkNode) → topological_sort nodes ≢ exhausted
unfolding topological_sort
topological_sort_terminates nodes e =
    let stop =
      drain_from_returns (suc (length nodes)) (adjacency nodes) (start nodes).indegree
        (start nodes).queue [] (omega (arith, potential-start-le nodes)) in
    ground (arith, stop)
