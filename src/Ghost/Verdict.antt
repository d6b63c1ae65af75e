-- ===== src/Ghost/Verdict.antt =====
-- src/ghost/safety.ts: which graphs are safe.
use frontier_os.Prelude.{
  ℕ, ◌+◌, ◌≤◌, ◌≡◌, ◌↔◌, refl, String, true, false, List, [], ◌∷◌, ◌++◌, arith, All, All-map,
  length, length-append, if◌then◌else◌, Bool-cases, inl, inr,
}
use frontier_os.Work.{
  ApprovalClass, rank, SideEffectClass, auth_change, billable_action, deploy, destructive_action,
  external_message, financial_action, local_write, no_effect, pr_open, repo_write, shared_write,
  ticket_write, WorkNode, WorkGraph, effective_approval_class,
}
use frontier_os.Ghost.{
  Rejection, is_dangerous, exceeds, effects, Notes, reject_effects, reject_class, assess_node,
  assess_nodes, assess_graph,
}

-- How many rejections a list of side effects, and a node, add.
abbrev dangers : List SideEffectClass → ℕ
dangers [] = 0
dangers (se ∷ ses) = if is_dangerous se then 1 + dangers ses else dangers ses

length-reject_effects :
    (id : String) (ses : List SideEffectClass) (rs : List Rejection)
    → length (reject_effects id ses rs) ≡ length rs + dangers ses
unfolding reject_effects
length-reject_effects id [] rs = omega arith
length-reject_effects id (se ∷ ses) rs = elim (Bool-cases (is_dangerous se)) [
  | inl bad ↦
      rw bad
        (omega (arith, length-reject_effects id ses (rs ++ _ ∷ []), length-append {0} rs (_ ∷ [])))
  | inr good ↦ rw good (length-reject_effects id ses rs)
]

abbrev excess : ApprovalClass → ℕ
excess class = if exceeds class then 1 else 0

length-assess_node :
    (node : WorkNode) (notes : Notes)
    → length (assess_node node notes).0
      ≡ length notes.0 + excess node.approval_class + dangers (effects node)
unfolding assess_node reject_class
length-assess_node node notes = elim (Bool-cases (exceeds node.approval_class)) [
  | inl bad ↦ rw bad (
      omega (
        arith,
        length-reject_effects node.node_id (effects node) (notes.0 ++ _ ∷ []),
        length-append {0} notes.0 (_ ∷ []),
      ))
  | inr good ↦ rw good (omega (arith, length-reject_effects node.node_id (effects node) notes.0))
]

faults : List WorkNode → ℕ
faults [] = 0
faults (node ∷ nodes) = excess node.approval_class + dangers (effects node) + faults nodes

length-assess_nodes :
    (nodes : List WorkNode) (notes : Notes)
    → length (assess_nodes nodes notes).0 ≡ length notes.0 + faults nodes
unfolding assess_nodes faults
length-assess_nodes [] notes = omega arith
length-assess_nodes (node ∷ nodes) notes =
    omega (arith, length-assess_nodes nodes (assess_node node notes), length-assess_node node notes)

-- What cannot be undone, or reaches people, money or rights.
pub data Dangerous : SideEffectClass → Type 0 where
  changes_rights : Dangerous auth_change
  costs_money : Dangerous billable_action
  deploys : Dangerous deploy
  destroys : Dangerous destructive_action
  messages : Dangerous external_message
  pays : Dangerous financial_action

is_dangerous_iff : (se : SideEffectClass) → (is_dangerous se ≡ false) ↔ (¬ Dangerous se)
unfolding is_dangerous
is_dangerous_iff auth_change = ((λ e. absurd (ground arith)), λ f. absurd (f changes_rights))
is_dangerous_iff billable_action = ((λ e. absurd (ground arith)), λ f. absurd (f costs_money))
is_dangerous_iff deploy = ((λ e. absurd (ground arith)), λ f. absurd (f deploys))
is_dangerous_iff destructive_action = ((λ e. absurd (ground arith)), λ f. absurd (f destroys))
is_dangerous_iff external_message = ((λ e. absurd (ground arith)), λ f. absurd (f messages))
is_dangerous_iff financial_action = ((λ e. absurd (ground arith)), λ f. absurd (f pays))
is_dangerous_iff local_write = ((λ e d. elim d [ ]), λ f. refl)
is_dangerous_iff no_effect = ((λ e d. elim d [ ]), λ f. refl)
is_dangerous_iff pr_open = ((λ e d. elim d [ ]), λ f. refl)
is_dangerous_iff repo_write = ((λ e d. elim d [ ]), λ f. refl)
is_dangerous_iff shared_write = ((λ e d. elim d [ ]), λ f. refl)
is_dangerous_iff ticket_write = ((λ e d. elim d [ ]), λ f. refl)

-- A node that may run unattended: class at most 1, and no dangerous side effect.
abbrev pub IsHarmless : WorkNode → Type 0
IsHarmless node = (rank node.approval_class ≤ 1) × All (λ se. ¬ Dangerous se) (effects node)

dangers_iff : (ses : List SideEffectClass) → (dangers ses ≡ 0) ↔ All (λ se. ¬ Dangerous se) ses
dangers_iff [] = ((λ e. tt), (λ h. refl))
dangers_iff (se ∷ ses) =
    let rest = dangers_iff ses in
    let here = is_dangerous_iff se in
    (
      (λ e. (here.0 (ground arith), rest.0 (ground arith))),
      (λ h.
          let harmless = here.1 h.0 in
          let zero_left = rest.1 h.1 in ground (arith, harmless, zero_left)),
    )

excess_iff : (class : ApprovalClass) → (excess class ≡ 0) ↔ (rank class ≤ 1)
excess_iff class = ground arith

faults_iff : (nodes : List WorkNode) → (faults nodes ≡ 0) ↔ All IsHarmless nodes
unfolding faults
faults_iff [] = ((λ e. tt), (λ h. refl))
faults_iff (node ∷ nodes) =
    let class = excess_iff node.approval_class in
    let listed = dangers_iff (effects node) in
    let rest = faults_iff nodes in
    (
      (λ e. ((class.0 (omega (arith, e)), listed.0 (omega (arith, e))), rest.0 (omega (arith, e)))),
      (λ h. omega (arith, class.1 h.0.0, listed.1 h.0.1, rest.1 h.1)),
    )

counted :
    (graph : WorkGraph)
    → length (assess_graph graph).rejections
      ≡ excess graph.approval_policy.default_class + faults graph.nodes
unfolding assess_graph
counted graph = elim (Bool-cases (exceeds graph.approval_policy.default_class)) [
  | inl bad ↦ rw bad (omega (arith, length-assess_nodes graph.nodes (_ ∷ [], [])))
  | inr good ↦ rw good (omega (arith, length-assess_nodes graph.nodes ([], [])))
]

-- The verdict is safe exactly when the graph's default class is at most 1 and every node is of a
-- class of at most 1 and has no dangerous side effect; warnings never count.
pub assess_graph_iff :
    (graph : WorkGraph)
    → ((assess_graph graph).safe ≡ true)
      ↔ ((rank graph.approval_policy.default_class ≤ 1) × All IsHarmless graph.nodes)
unfolding assess_graph
assess_graph_iff graph =
    let nodes = faults_iff graph.nodes in
    (
      (λ e.
          let none_counted : excess graph.approval_policy.default_class + faults graph.nodes ≡ 0 =
            (let empty : length (assess_graph graph).rejections ≡ 0 = ground arith in
              omega (arith, empty, counted graph)) in
          (
            (excess_iff graph.approval_policy.default_class).0 (omega (arith, none_counted)),
            nodes.0 (omega (arith, none_counted)),
          )),
      (λ h.
          let first = (excess_iff graph.approval_policy.default_class).1 h.0 in
          let rest = nodes.1 h.1 in
          let zero_left : length (assess_graph graph).rejections ≡ 0 =
            omega (arith, counted graph, first, rest) in
          ground (arith, zero_left)),
    )

-- In a safe graph no node's effective approval class is above 1.
pub safe-effective_class :
    (graph : WorkGraph)
    → (assess_graph graph).safe ≡ true
    → All (λ node. rank (effective_approval_class graph node) ≤ 1) graph.nodes
unfolding effective_approval_class
safe-effective_class graph h =
    let (low, nodes) = (assess_graph_iff graph).0 h in
    All-map (λ node k. ground (arith, low, k.0)) graph.nodes nodes
