-- ===== src/Work/Kahn/Start.antt =====
-- src/work/graph.ts: the invariant of `topologicalSort` holds when its `while` loop begins.
use frontier_os.Prelude.{
  ◌≡◌, refl, String, Bool, false, ◌∙◌, Option, none, some, List, [], ◌∷◌, arith, eq_iff, str_eq,
}
use frontier_os.Prelude.Dict.{
  Dict, IsMap, insert-IsMap, lookup, has, lookup-insert, contains, IsUnique,
}
use frontier_os.Work.{WorkNode}
use frontier_os.Work.Kahn.{
  Degree, pos, is_zero, zero_degrees, bump, bump_all, degrees, start_queue, start,
}
use frontier_os.Work.Kahn.Count.{ids, lookup-start, lookup-zero_degrees}
use frontier_os.Work.Kahn.Invariant.{Inv, contains-insert_sorted, insert_sorted-IsUnique}

zero_degrees-IsMap :
    (nodes : List WorkNode) (m : Dict Degree) → IsMap m → IsMap (zero_degrees m nodes)
unfolding zero_degrees
zero_degrees-IsMap [] m h = h
zero_degrees-IsMap (node ∷ nodes) m h = zero_degrees-IsMap nodes _ (insert-IsMap _ (pos 0) m h)

bump_all-IsMap :
    (deps : List String) (id : String) (m : Dict Degree) → IsMap m → IsMap (bump_all id deps m)
unfolding bump_all bump
bump_all-IsMap [] id m h = h
bump_all-IsMap (dep ∷ deps) id m h = bump_all-IsMap deps id _ (insert-IsMap id _ m h)

degrees-IsMap : (nodes : List WorkNode) (m : Dict Degree) → IsMap m → IsMap (degrees nodes m)
unfolding degrees
degrees-IsMap [] m h = h
degrees-IsMap (node ∷ nodes) m h =
    degrees-IsMap nodes _ (bump_all-IsMap node.dependencies node.node_id m h)

abbrev zero_at : Option Degree → Bool
zero_at none = false
zero_at (some d) = is_zero d

lookup_absent : (k : String) (m : Dict Degree) → has k m ≡ false → zero_at (lookup k m) ≡ false
lookup_absent k [] h = refl
lookup_absent k ((j, d) ∷ m) h = ground (arith, lookup_absent k m)

contains-start_queue :
    (k : String) (m : Dict Degree) → IsMap m → contains (start_queue m) k ≡ zero_at (lookup k m)
unfolding start_queue
contains-start_queue k [] h = refl
contains-start_queue k ((j, d) ∷ m) (fresh, h) = ground (
  arith,
  contains-start_queue k m h,
  contains-insert_sorted j k (start_queue m),
  lookup_absent k m,
  eq_iff j k,
)

start_queue-IsUnique : (m : Dict Degree) → IsMap m → IsUnique (start_queue m)
unfolding start_queue
start_queue-IsUnique [] h = tt
start_queue-IsUnique ((j, d) ∷ m) (fresh, h) =
    let rest = start_queue-IsUnique m h in
    let absent : contains (start_queue m) j ≡ false =
      ground (arith, contains-start_queue j m h, lookup_absent j m fresh) in
    ground (arith, rest, insert_sorted-IsUnique j (start_queue m) absent rest)

lookup-bump_all_ne :
    (k id : String) (deps : List String) (m : Dict Degree)
    → str_eq id k ≡ false
    → lookup k (bump_all id deps m) ≡ lookup k m
unfolding bump_all bump
lookup-bump_all_ne k id [] m h = refl
lookup-bump_all_ne k id (dep ∷ deps) m h = lookup-bump_all_ne k id deps _ h ∙ rw (lookup-insert, h)

lookup-degrees_outside :
    (k : String) (nodes : List WorkNode) (m : Dict Degree)
    → contains (ids nodes) k ≡ false
    → lookup k (degrees nodes m) ≡ lookup k m
unfolding degrees
lookup-degrees_outside k [] m h = refl
lookup-degrees_outside k (node ∷ nodes) m h =
    lookup-degrees_outside k nodes _ (ground arith)
    ∙ lookup-bump_all_ne k node.node_id node.dependencies m (ground arith)

lookup-start_outside :
    (k : String) (nodes : List WorkNode)
    → contains (ids nodes) k ≡ false
    → lookup k (start nodes).indegree ≡ none
unfolding start
lookup-start_outside k nodes h =
    lookup-degrees_outside k nodes (zero_degrees [] nodes) h
    ∙ (lookup-zero_degrees k nodes [] ∙ rw h)

start-IsMap : (nodes : List WorkNode) → IsMap (start nodes).indegree
unfolding start
start-IsMap nodes = degrees-IsMap nodes (zero_degrees [] nodes) (zero_degrees-IsMap nodes [] tt)

start_queued : (nodes : List WorkNode) → (start nodes).queue ≡ start_queue (start nodes).indegree
unfolding start
start_queued nodes = refl

pub start-Inv : (nodes : List WorkNode) → Inv nodes [] [] (start nodes)
start-Inv nodes = record {
  degree = λ k h. ground (arith, lookup-start k nodes h);
  queued = λ k. rw (start_queued nodes) (
      ground (
        arith,
        contains-start_queue k (start nodes).indegree (start-IsMap nodes),
        lookup-start k nodes,
        lookup-start_outside k nodes,
      ));
  unique = rw (start_queued nodes) (start_queue-IsUnique _ (start-IsMap nodes));
  settled = λ k h. ground arith;
  inside = λ k h. refl;
  placed_unique = tt;
  placed_inside = λ k h. ground arith;
}
