-- ===== src/Work/Kahn.antt =====
-- `topologicalSort` of src/work/graph.ts: Kahn's algorithm on maps of degrees and of successors,
-- with a queue that is kept sorted.
pub mod Tests
pub mod Fuel
pub mod Count
pub mod Invariant
pub mod Start
pub mod Order
pub mod Acyclic
use frontier_os.Prelude.{
  or_else, ℕ, zero, suc, String, Bool, true, false, Option, none, some, List, [], ◌∷◌, ◌++◌, ◌==◌,
  map, if◌then◌else◌, length,
}
use frontier_os.Prelude.Dict.{Dict, lookup, insert}
use frontier_os.Prelude.Text.{lt_text}
use frontier_os.Work.{WorkNode}

-- A degree is a JavaScript number, which may fall below 0.
pub data Degree : Type 0 where
  pos : ℕ → Degree
  negsuc : ℕ → Degree

abbrev pub incr : Degree → Degree
incr (pos n) = pos (suc n)
incr (negsuc zero) = pos 0
incr (negsuc (suc n)) = negsuc n

abbrev pub decr : Degree → Degree
decr (pos zero) = negsuc 0
decr (pos (suc n)) = pos n
decr (negsuc n) = negsuc (suc n)

abbrev pub is_zero : Degree → Bool
is_zero (pos zero) = true
is_zero (pos (suc n)) = false
is_zero (negsuc n) = false

-- The maps that the first loop fills.
pub zero_degrees : Dict Degree → List WorkNode → Dict Degree
zero_degrees m [] = m
zero_degrees m (node ∷ nodes) = zero_degrees (insert node.node_id (pos 0) m) nodes

pub no_successors : Dict (List String) → List WorkNode → Dict (List String)
no_successors m [] = m
no_successors m (node ∷ nodes) = no_successors (insert node.node_id [] m) nodes

-- The second loop: each dependency of a node counts towards its degree, and is given the node as
-- a successor if it is a known node.
pub bump : String → Dict Degree → Dict Degree
bump id m = insert id (incr (or_else (pos 0) (lookup id m))) m

pub link : String → String → Dict (List String) → Dict (List String)
link id dep m = elim (lookup dep m) [ none ↦ m | some out ↦ insert dep (out ++ id ∷ []) m ]

pub bump_all : String → List String → Dict Degree → Dict Degree
bump_all id [] m = m
bump_all id (dep ∷ deps) m = bump_all id deps (bump id m)

pub link_all : String → List String → Dict (List String) → Dict (List String)
link_all id [] m = m
link_all id (dep ∷ deps) m = link_all id deps (link id dep m)

pub degrees : List WorkNode → Dict Degree → Dict Degree
degrees [] m = m
degrees (node ∷ nodes) m = degrees nodes (bump_all node.node_id node.dependencies m)

pub successors : List WorkNode → Dict (List String) → Dict (List String)
successors [] m = m
successors (node ∷ nodes) m = successors nodes (link_all node.node_id node.dependencies m)

-- Insertion in sorted position, in front of the first text that is not less.
pub insert_sorted : String → List String → List String
insert_sorted next [] = next ∷ []
insert_sorted next (q ∷ queue) =
    if lt_text q next then q ∷ insert_sorted next queue else next ∷ q ∷ queue

-- The ids of degree 0, sorted.
pub start_queue : Dict Degree → List String
start_queue [] = []
start_queue ((id, deg) ∷ m) =
    let rest = start_queue m in if is_zero deg then insert_sorted id rest else rest

pub record Frontier : Type 0 where
  pub indegree : Dict Degree
  pub queue : List String

-- The body of the loop over the successors of the current node.
pub relax : Frontier → String → Frontier
relax s next =
    let new_degree = decr (or_else (pos 0) (lookup next s.indegree)) in
    record {
      indegree = insert next new_degree s.indegree;
      queue = if is_zero new_degree then insert_sorted next s.queue else s.queue;
    }

pub relax_all : Frontier → List String → Frontier
relax_all s [] = s
relax_all s (next ∷ rest) = relax_all (relax s next) rest

-- The `while` loop, on fuel: `none` means that the fuel ran out.
pub drain_from :
    ℕ → Dict (List String) → Dict Degree → List String → List String → Option (List String)
drain_from zero adj indegree queue order = none
drain_from (suc fuel) adj indegree [] order = some order
drain_from (suc fuel) adj indegree (current ∷ queue) order =
    let s =
      relax_all (record { indegree = indegree; queue = queue }) (or_else [] (lookup current adj)) in
    drain_from fuel adj s.indegree s.queue (order ++ current ∷ [])

pub start : List WorkNode → Frontier
unfolding zero_degrees degrees start_queue
start nodes =
    let indegree = degrees nodes (zero_degrees [] nodes) in
    record { indegree = indegree; queue = start_queue indegree }

pub adjacency : List WorkNode → Dict (List String)
unfolding no_successors successors
adjacency nodes = successors nodes (no_successors [] nodes)

pub data Sorted : Type 0 where
  sorted : List String → Sorted
  cyclic : Sorted
  -- The loop's fuel ran out: `Fuel` shows that this does not happen.
  exhausted : Sorted

unfoldable pub topological_sort : List WorkNode → Sorted
unfolding drain_from start adjacency
topological_sort nodes =
    elim (drain_from (suc (length nodes)) (adjacency nodes) (start nodes).indegree
      (start nodes).queue []) [
        | none ↦ exhausted
        | some order ↦ if length order == length nodes then sorted order else cyclic
      ]
