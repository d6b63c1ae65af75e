-- ===== src/Work/Kahn/Invariant.antt =====
-- src/work/graph.ts: the invariant of the loops of `topologicalSort`. `placed` is what stands in
-- `order`; `left` is what the loop over the current node's successors has still to visit.
use frontier_os.Prelude.{
  or_else, suc, ◌+◌, ◌≡◌, refl, String, Bool, true, false, not, ◌&&◌, ◌||◌, some, List, [], ◌∷◌,
  ◌++◌, arith, eq_iff, str_eq, ◌==◌,
}
use frontier_os.Prelude.Dict.{
  Dict, lookup, lookup-insert, contains, count, contains-append, IsUnique, IsUnique-snoc,
}
use frontier_os.Work.{WorkNode}
use frontier_os.Work.Kahn.{Degree, pos, decr, insert_sorted, Frontier, relax, relax_all, adjacency}
use frontier_os.Work.Kahn.Count.{ids, open_deps, open_deps-snoc, edges_outside, count-adjacency}

-- `k` has been placed, or waits for nothing: it stands in the queue.
abbrev pub is_ready : List WorkNode → List String → List String → String → Bool
is_ready nodes placed left k =
    contains (ids nodes) k
    && (not (contains placed k) && (open_deps placed k nodes + count k left == 0))

pub record Inv (nodes : List WorkNode) (placed left : List String) (s : Frontier) : Type 0 where
  pub degree :
      (k : String)
      → contains (ids nodes) k ≡ true
      → lookup k s.indegree ≡ some (pos (open_deps placed k nodes + count k left))
  pub queued : (k : String) → contains s.queue k ≡ is_ready nodes placed left k
  pub unique : IsUnique s.queue
  pub settled :
      (k : String) → contains placed k ≡ true → open_deps placed k nodes + count k left ≡ 0
  pub inside : (k : String) → contains (ids nodes) k ≡ false → count k left ≡ 0
  pub placed_unique : IsUnique placed
  pub placed_inside : (k : String) → contains placed k ≡ true → contains (ids nodes) k ≡ true

pub contains-insert_sorted :
    (x k : String) (queue : List String)
    → contains (insert_sorted x queue) k ≡ (str_eq x k || contains queue k)
unfolding insert_sorted
contains-insert_sorted x k [] = refl
contains-insert_sorted x k (q ∷ queue) = ground (arith, contains-insert_sorted x k queue)

pub insert_sorted-IsUnique :
    (x : String) (queue : List String)
    → contains queue x ≡ false
    → IsUnique queue
    → IsUnique (insert_sorted x queue)
unfolding insert_sorted
insert_sorted-IsUnique x [] h u = (refl, tt)
insert_sorted-IsUnique x (q ∷ queue) h u = ground (
  arith,
  eq_iff q x,
  eq_iff x q,
  contains-insert_sorted x q queue,
  insert_sorted-IsUnique x queue,
)

module _ (nodes : List WorkNode) (placed left : List String) (x : String) (s : Frontier)
    (inv : Inv nodes placed (x ∷ left) s) where
  x_inside : contains (ids nodes) x ≡ true
  x_inside = ground (arith, inv.inside x, eq_iff x x)

  x_degree : lookup x s.indegree ≡ some (pos (suc (open_deps placed x nodes + count x left)))
  x_degree = ground (arith, inv.degree x x_inside, eq_iff x x)

  x_waits : (contains placed x ≡ false) × (contains s.queue x ≡ false)
  x_waits =
      let out : contains placed x ≡ false = ground (arith, inv.settled x, eq_iff x x) in
      (out, ground (arith, inv.queued x, eq_iff x x))

  relax-degree :
      (k : String)
      → contains (ids nodes) k ≡ true
      → lookup k (relax s x).indegree ≡ some (pos (open_deps placed k nodes + count k left))
  unfolding relax
  relax-degree k h =
      let d = decr (or_else (pos 0) (lookup x s.indegree)) in
      ground (arith, x_degree, inv.degree k h, eq_iff x k, lookup-insert x k d s.indegree)

  relax-queued : (k : String) → contains (relax s x).queue k ≡ is_ready nodes placed left k
  unfolding relax
  relax-queued k = ground (
    arith,
    x_degree,
    x_inside,
    x_waits,
    inv.queued k,
    eq_iff x k,
    contains-insert_sorted x k s.queue,
  )

  relax-unique : IsUnique (relax s x).queue
  unfolding relax
  relax-unique = ground (arith, inv.unique, insert_sorted-IsUnique x s.queue x_waits.1 inv.unique)

  pub relax-Inv : Inv nodes placed left (relax s x)
  relax-Inv = record {
    degree = relax-degree;
    queued = relax-queued;
    unique = relax-unique;
    settled = λ k h. ground (arith, inv.settled k h);
    inside = λ k h. ground (arith, inv.inside k h);
    placed_unique = inv.placed_unique;
    placed_inside = inv.placed_inside;
  }

pub relax_all-Inv :
    (nodes : List WorkNode) (placed left : List String) (s : Frontier)
    → Inv nodes placed left s
    → Inv nodes placed [] (relax_all s left)
unfolding relax_all
relax_all-Inv nodes placed [] s inv = inv
relax_all-Inv nodes placed (x ∷ left) s inv =
    relax_all-Inv nodes placed left (relax s x) (relax-Inv nodes placed left x s inv)

-- The head of the queue waits for nothing, and is placed next.
module _ (nodes : List WorkNode) (placed queue : List String) (v : String) (m : Dict Degree)
    (inv : Inv nodes placed [] (record { indegree = m; queue = v ∷ queue })) where
  pub head_ready :
      (contains (ids nodes) v ≡ true) × (contains placed v ≡ false) × (open_deps placed v nodes ≡ 0)
  head_ready =
      let h = inv.queued v in
      (ground (arith, h, eq_iff v v), ground (arith, h, eq_iff v v), ground (arith, h, eq_iff v v))

  abbrev next : List String
  next = or_else [] (lookup v (adjacency nodes))

  balance :
      (k : String) → open_deps (placed ++ v ∷ []) k nodes + count k next ≡ open_deps placed k nodes
  balance k =
      let (known, fresh, _) = head_ready in
      ground (arith, count-adjacency v k nodes known, open_deps-snoc placed v k nodes fresh)

  pub place-Inv : Inv nodes (placed ++ v ∷ []) next (record { indegree = m; queue = queue })
  place-Inv = record {
    degree = λ k h. ground (arith, inv.degree k h, balance k);
    queued = λ k.
        ground (
          arith,
          inv.queued k,
          inv.unique,
          balance k,
          contains-append placed (v ∷ []) k,
          eq_iff v k,
        );
    unique = inv.unique.1;
    settled = λ k h. ground (
      arith,
      inv.settled k,
      balance k,
      contains-append placed (v ∷ []) k,
      eq_iff v k,
      head_ready,
    );
    inside =
        λ k h. ground (arith, count-adjacency v k nodes head_ready.0, edges_outside v k nodes h);
    placed_unique = IsUnique-snoc placed v inv.placed_unique head_ready.1;
    placed_inside = λ k h.
        ground
          (arith, inv.placed_inside k, contains-append placed (v ∷ []) k, eq_iff v k, head_ready);
  }
