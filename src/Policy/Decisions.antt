-- ===== src/Policy/Decisions.antt =====
-- src/policy/evaluator.ts: which actions a policy evaluation allows.
use frontier_os.Prelude.{
  ℕ, ◌≤◌, ◌≡◌, ◌≢◌, ◌⊎◌, refl, ap, String, Bool, true, false, Option, none, some, inl, inr, arith,
  Option-cases, Bool-cases,
}
use frontier_os.Work.{ApprovalClass, class_0, class_1, class_2, class_3, rank}
use frontier_os.Policy.{ActionEnvelope, allow, ApprovalConsumption}
use frontier_os.Policy.Ledger.{Events}
use frontier_os.Policy.Tokens.{
  Env, Consumed, consumed, refused, consume_approval_token, candidate, decide,
  evaluate_policy_action, decision_of,
}
use frontier_os.Policy.OneShot.{IsEnv, IsConsumption, consume-IsConsumption}

-- What has to hold for an action to be allowed: a class of at most 1, or a class of 2 with a token
-- that this evaluation consumes.
abbrev pub Allowed :
    Env → ApprovalClass → String → ℕ → Bool → Events → Events → Option ApprovalConsumption → Type 0
Allowed env class trace_id now consume before after used =
    (rank class ≤ 1) × (used ≡ none) × (after ≡ before)
    ⊎ (class ≡ class_2)
      × (consume ≡ true)
      × ((c : ApprovalConsumption) × (used ≡ some c)
          × IsConsumption env now trace_id before after c)

consumed_part :
    (env : Env) (r : Consumed)
    → (decision_of env r).status ≡ allow
    → (c : ApprovalConsumption) × (r ≡ consumed c)
consumed_part env (consumed c) h = (c, refl)
consumed_part env (refused reason) h = absurd (ground arith)

refused_part :
    (env : Env) (r : Consumed)
    → (decision_of env r).status ≢ allow
    → (reason : String) × (r ≡ refused reason)
refused_part env (consumed c) h = absurd (h refl)
refused_part env (refused reason) h = (reason, refl)

refused_unchanged :
    (env : Env) (now : ℕ) (trace_id reason : String) (events : Events)
    → (consume_approval_token env now trace_id false events).0 ≡ refused reason
    → (consume_approval_token env now trace_id false events).1 ≡ events
unfolding consume_approval_token
refused_unchanged env now trace_id reason events e =
    elim (Option-cases (candidate env now trace_id events)) [
      | inl nothing ↦ rw (nothing, consume_approval_token)
      | inr (grant, found) ↦ absurd (ground (arith, rw (found, consume_approval_token) at e))
    ]

module _ (env : Env) (laws : IsEnv env) (action : ActionEnvelope) (now : ℕ) (consume : Bool)
    (events : Events) where
  decide-allow :
      (class : ApprovalClass) (trace_id : String)
      → (decide env class now trace_id consume events).0.status ≡ allow
      → Allowed env class trace_id now consume events
          (decide env class now trace_id consume events).1
          (decide env class now trace_id consume events).0.consumed_approval
  unfolding decide
  decide-allow class_0 trace_id h = inl (omega arith, refl, refl)
  decide-allow class_1 trace_id h = inl (omega arith, refl, refl)
  decide-allow class_2 trace_id h = elim (Bool-cases consume) [
    | inl asked ↦
        let run = consume_approval_token env now trace_id false events in
        let (c, e) = consumed_part env run.0 (rw (asked, decide) at h) in
        let whole : run ≡ (consumed c, run.1) = ap (λ r. (r, run.1)) e in
        rw asked (
          inr (
            refl,
            refl,
            (c, rw e, consume-IsConsumption env laws now trace_id false events run.1 c whole),
          ))
    | inr not_asked ↦ absurd (ground arith)
  ]
  decide-allow class_3 trace_id h = absurd (ground arith)

  decide_unchanged :
      (class : ApprovalClass) (trace_id : String)
      → (decide env class now trace_id consume events).0.status ≢ allow
      → (decide env class now trace_id consume events).1 ≡ events
  unfolding decide
  decide_unchanged class_0 trace_id h = refl
  decide_unchanged class_1 trace_id h = refl
  decide_unchanged class_2 trace_id h = elim (Bool-cases consume) [
    | inl asked ↦
        let run = consume_approval_token env now trace_id false events in
        let (reason, e) = refused_part env run.0 (rw (asked, decide) at h) in
        rw asked (refused_unchanged env now trace_id reason events e)
    | inr not_asked ↦ rw not_asked
  ]
  decide_unchanged class_3 trace_id h = refl

  -- An action is allowed only if its class is at most 1, and then no token is used and the ledger is
  -- left alone, or if its class is 2, consumption was asked for, and this evaluation consumed a token
  -- for the action's trace.
  pub evaluate-Allowed :
      (evaluate_policy_action env action now consume events).0.decision.status ≡ allow
      → Allowed env action.approval_class action.trace_id now consume events
          (evaluate_policy_action env action now consume events).1
          (evaluate_policy_action env action now consume events).0.decision.consumed_approval
  unfolding evaluate_policy_action
  evaluate-Allowed = decide-allow action.approval_class action.trace_id

  -- If an action is not allowed, the ledger is left alone, also where a consumption was attempted.
  pub evaluate_unchanged :
      (evaluate_policy_action env action now consume events).0.decision.status ≢ allow
      → (evaluate_policy_action env action now consume events).1 ≡ events
  unfolding evaluate_policy_action
  evaluate_unchanged = decide_unchanged action.approval_class action.trace_id
