-- ===== src/Work/Kahn/Count.antt =====
-- src/work/graph.ts: what the maps that `topologicalSort` fills hold, by counting. A node's degree
-- is the number of its dependencies, and it is a successor of each as often as it names it.
use frontier_os.Prelude.{
  or_else, ℕ, suc, ◌+◌, ◌≡◌, refl, String, true, false, some, List, [], ◌∷◌, ◌++◌, arith, eq_iff,
  str_eq, if◌then◌else◌, Option-cases, inl, inr,
}
use frontier_os.Prelude.Dict.{
  Dict, lookup, insert, has, lookup-insert, has-insert, contains, count, contains-append,
  lookup_of_has, has_of_lookup,
}
use frontier_os.Work.{WorkNode}
use frontier_os.Work.Kahn.{
  Degree, pos, incr, zero_degrees, no_successors, bump, bump_all, link, link_all, degrees,
  successors, start, adjacency,
}

abbrev pub ids : List WorkNode → List String
ids [] = []
ids (node ∷ nodes) = node.node_id ∷ ids nodes

-- How many of the dependencies are not placed.
abbrev pub open_in : List String → List String → ℕ
open_in placed [] = 0
open_in placed (d ∷ ds) = if contains placed d then open_in placed ds else suc (open_in placed ds)

abbrev pub open_deps : List String → String → List WorkNode → ℕ
open_deps placed k [] = 0
open_deps placed k (node ∷ nodes) =
    if str_eq node.node_id k
    then open_in placed node.dependencies + open_deps placed k nodes
    else open_deps placed k nodes

-- How often `k` names `v` as a dependency.
abbrev pub edges : String → String → List WorkNode → ℕ
edges v k [] = 0
edges v k (node ∷ nodes) =
    if str_eq node.node_id k then count v node.dependencies + edges v k nodes else edges v k nodes

open_in-snoc :
    (placed : List String) (v : String) (ds : List String)
    → contains placed v ≡ false
    → open_in (placed ++ v ∷ []) ds + count v ds ≡ open_in placed ds
open_in-snoc placed v [] h = omega arith
open_in-snoc placed v (d ∷ ds) h =
    ground
      (arith, contains-append placed (v ∷ []) d, eq_iff v d, eq_iff d v, open_in-snoc placed v ds h)

pub open_deps-snoc :
    (placed : List String) (v k : String) (nodes : List WorkNode)
    → contains placed v ≡ false
    → open_deps (placed ++ v ∷ []) k nodes + edges v k nodes ≡ open_deps placed k nodes
open_deps-snoc placed v k [] h = omega arith
open_deps-snoc placed v k (node ∷ nodes) h =
    ground (arith, open_in-snoc placed v node.dependencies h, open_deps-snoc placed v k nodes h)

pub edges_outside :
    (v k : String) (nodes : List WorkNode) → contains (ids nodes) k ≡ false → edges v k nodes ≡ 0
edges_outside v k [] h = refl
edges_outside v k (node ∷ nodes) h = ground (arith, edges_outside v k nodes)

-- The degrees.
lookup-bump_all :
    (k id : String) (deps : List String) (m : Dict Degree) (c : ℕ)
    → lookup k m ≡ some (pos c)
    → lookup k (bump_all id deps m) ≡ some (pos (c + (if str_eq id k then open_in [] deps else 0)))
unfolding bump_all bump
lookup-bump_all k id [] m c h = ground arith
lookup-bump_all k id (dep ∷ deps) m c h =
    let d = incr (or_else (pos 0) (lookup id m)) in
    ground (
      arith,
      eq_iff id k,
      lookup-insert id k d m,
      lookup-bump_all k id deps (insert id d m) c,
      lookup-bump_all k id deps (insert id d m) (suc c),
    )

lookup-degrees :
    (k : String) (nodes : List WorkNode) (m : Dict Degree) (c : ℕ)
    → lookup k m ≡ some (pos c)
    → lookup k (degrees nodes m) ≡ some (pos (c + open_deps [] k nodes))
unfolding degrees
lookup-degrees k [] m c h = ground arith
lookup-degrees k (node ∷ nodes) m c h =
    let here = lookup-bump_all k node.node_id node.dependencies m c h in
    let rest = lookup-degrees k nodes _ _ here in ground (arith, rest)

pub lookup-zero_degrees :
    (k : String) (nodes : List WorkNode) (m : Dict Degree)
    → lookup k (zero_degrees m nodes)
      ≡ (if contains (ids nodes) k then some (pos 0) else lookup k m)
unfolding zero_degrees
lookup-zero_degrees k [] m = refl
lookup-zero_degrees k (node ∷ nodes) m = ground (
  arith,
  lookup-zero_degrees k nodes (insert node.node_id (pos 0) m),
  lookup-insert node.node_id k (pos 0) m,
)

pub lookup-start :
    (k : String) (nodes : List WorkNode)
    → contains (ids nodes) k ≡ true
    → lookup k (start nodes).indegree ≡ some (pos (open_deps [] k nodes))
unfolding start
lookup-start k nodes h =
    let zeros = lookup-zero_degrees k nodes [] in
    let zeros' : lookup k (zero_degrees [] nodes) ≡ some (pos 0) = ground (arith, zeros) in
    let counted = lookup-degrees k nodes (zero_degrees [] nodes) 0 zeros' in ground (arith, counted)

-- The successors.
abbrev out : String → Dict (List String) → List String
out d m = or_else [] (lookup d m)

count-append : (k : String) (xs ys : List String) → count k (xs ++ ys) ≡ count k xs + count k ys
count-append k [] ys = omega arith
count-append k (x ∷ xs) ys = ground (arith, count-append k xs ys)

has-link :
    (d id dep : String) (m : Dict (List String)) → has d m ≡ true → has d (link id dep m) ≡ true
unfolding link
has-link d id dep m h = elim (Option-cases (lookup dep m)) [
  | inl missing ↦ rw (missing, link) h
  | inr (o, found) ↦ rw (found, link) (ground (arith, has-insert dep d (o ++ id ∷ []) m))
]

count-out-link :
    (d k id dep : String) (m : Dict (List String))
    → has d m ≡ true
    → count k (out d (link id dep m))
      ≡ count k (out d m) + (if str_eq id k then (if str_eq dep d then 1 else 0) else 0)
unfolding link
count-out-link d k id dep m h = elim (Option-cases (lookup dep m)) [
  | inl missing ↦
      let (o, found) = lookup_of_has d m h in
      rw (missing, link) (ground (arith, found, eq_iff dep d))
  | inr (o, found) ↦
      rw (found, link)
        (ground
          (arith, lookup-insert dep d (o ++ id ∷ []) m, count-append k o (id ∷ []), eq_iff dep d))
]

link_all_lem :
    (d k id : String) (deps : List String) (m : Dict (List String))
    → has d m ≡ true
    → (has d (link_all id deps m) ≡ true)
      × (count k (out d (link_all id deps m))
          ≡ count k (out d m) + (if str_eq id k then count d deps else 0))
unfolding link_all
link_all_lem d k id [] m h = (h, ground arith)
link_all_lem d k id (dep ∷ deps) m h =
    let rest = link_all_lem d k id deps (link id dep m) (has-link d id dep m h) in
    (rest.0, ground (arith, rest.1, count-out-link d k id dep m h))

count-successors :
    (d k : String) (nodes : List WorkNode) (m : Dict (List String))
    → has d m ≡ true
    → count k (out d (successors nodes m)) ≡ count k (out d m) + edges d k nodes
unfolding successors
count-successors d k [] m h = omega arith
count-successors d k (node ∷ nodes) m h =
    let here = link_all_lem d k node.node_id node.dependencies m h in
    let rest = count-successors d k nodes _ here.0 in ground (arith, here.1, rest)

lookup-no_successors :
    (d : String) (nodes : List WorkNode) (m : Dict (List String))
    → lookup d (no_successors m nodes) ≡ (if contains (ids nodes) d then some [] else lookup d m)
unfolding no_successors
lookup-no_successors d [] m = refl
lookup-no_successors d (node ∷ nodes) m = ground (
  arith,
  lookup-no_successors d nodes (insert node.node_id [] m),
  lookup-insert node.node_id d [] m,
)

pub count-adjacency :
    (d k : String) (nodes : List WorkNode)
    → contains (ids nodes) d ≡ true
    → count k (or_else [] (lookup d (adjacency nodes))) ≡ edges d k nodes
unfolding adjacency
count-adjacency d k nodes h =
    let m = no_successors [] nodes in
    let empty : lookup d m ≡ some [] = ground (arith, lookup-no_successors d nodes []) in
    ground (arith, count-successors d k nodes m (has_of_lookup d [] m empty), empty)
