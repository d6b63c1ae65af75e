-- ===== src/Commands/Operations/Resuming.antt =====
-- src/commands/store.ts: resuming, as a move of commands.
use frontier_os.Prelude.{
  or_else, ℕ, ◌≡◌, ◌≢◌, refl, sym, subst, subst₂, ◌∙◌, String, Bool, true, Option, none, some, ◌⊎◌,
  inl, inr, ◌∷◌, arith, Bool-cases, Option-cases, str_eq,
}
use frontier_os.Work.{ApprovalClass}
use frontier_os.Policy.{
  ActionEnvelope, Status, allow, requires_approval, deny, PolicyEvaluation, build_action_envelope,
  ApprovalConsumption,
}
use frontier_os.Policy.Ledger.{LedgerEvent, Events, Has, append_event}
use frontier_os.Policy.Tokens.{
  Env, evaluate_policy_action, append_policy_event, consumed_kind, consumption_payload, session_id,
}
use frontier_os.Policy.OneShot.{IsEnv}
use frontier_os.Policy.Decisions.{Allowed, evaluate-Allowed, evaluate_unchanged}
use frontier_os.Commands.{
  CommandStatus, queued, running, blocked_approval, blocked_policy, completed, failed, canceled,
  CommandRoute,
}
use frontier_os.Commands.Explain.{CommandEnv, action_input, log_evaluation}
use frontier_os.Commands.Rows.{CommandRow, World, get_command}
use frontier_os.Commands.Store.Rows.{IsKeyed, get_command-eq-some}
use frontier_os.Commands.Resumption.{
  resume_patch, apply_resume, resume_routed, resume_blocked, resume,
}
use frontier_os.Commands.Operations.Moves.{
  Grows, IsCleared, Turn, stays, unblocks, IsMove, same-IsMove, change-IsMove,
  append_state_changed-Grows,
}
use frontier_os.Commands.Operations.Submitting.{built_class, log_evaluation-Grows}
use frontier_os.Commands.Operations.Additions.{Turn-Grows}

refused_patch :
    (env : CommandEnv) (row : CommandRow) (policy : PolicyEvaluation) (now : ℕ)
    → policy.decision.status ≢ allow
    → (resume_patch env row policy now).status ≡ blocked_approval
refused_patch env row policy now refused = ground (arith, refused)

allow_cases : (s : Status) → (s ≡ allow) ⊎ (s ≢ allow)
allow_cases allow = inl refl
allow_cases requires_approval = inr (λ e. ground arith)
allow_cases deny = inr (λ e. ground arith)

Allowed-IsCleared :
    (env : Env) (class : ApprovalClass) (trace_id : String) (now : ℕ) (consume : Bool)
    (before after : Events) (used : Option ApprovalConsumption)
    → Allowed env class trace_id now consume before after used
    → IsCleared after trace_id class × Grows before after
unfolding append_policy_event append_event
Allowed-IsCleared env class trace_id now consume before after used (inl (low, _, same)) =
    (inl low, λ e h. rw same h)
Allowed-IsCleared env class trace_id now consume before after used (inr (two, _, (c, _, taken))) =
    let event : LedgerEvent = record {
      session_id = session_id;
      kind = consumed_kind;
      actor = some "policy";
      trace_id = some trace_id;
      payload = consumption_payload c;
    } in
    let same : after ≡ event ∷ before = taken.added in
    (inr (two, (event, rw same (inl refl), refl, refl)), λ e h. rw same (inr h))

resume-Turn :
    (env : CommandEnv) (row : CommandRow) (policy : PolicyEvaluation) (before after : Events)
    (now : ℕ) (r : CommandRoute)
    → Grows before after
    → row.status ≡ blocked_approval
    → row.route ≡ some r
    → (policy.decision.status ≡ allow → IsCleared before row.trace_id r.approval_class)
    → Turn after row (resume_patch env row policy now).status
resume-Turn env row policy before after now r grows blocked routed cleared =
    elim (allow_cases policy.decision.status) [
      | inl allowed ↦
          rw allowed
            (Turn-Grows before after row queued grows (unblocks r blocked routed (cleared allowed)))
      | inr refused ↦
          subst (Turn after row) (blocked ∙ sym (refused_patch env row policy now refused)) stays
    ]

module _ (env : CommandEnv) (laws : IsEnv env.policy) where
  apply_resume-IsMove :
      (row : CommandRow) (policy : PolicyEvaluation) (events : Events) (now : ℕ) (w : World)
      → IsKeyed w.commands
      → Has w.commands row
      → Grows w.events events
      → row.status ≡ blocked_approval
      → (r : CommandRoute) → row.route ≡ some r
      → (policy.decision.status ≡ allow → IsCleared events row.trace_id r.approval_class)
      → IsMove w (apply_resume env row policy events now w).1
  unfolding apply_resume
  apply_resume-IsMove row policy events now w k here grows blocked r routed cleared =
      let changed = append_state_changed-Grows row _ "resume" (log_evaluation policy events) in
      change-IsMove w row _ _ _ k here (λ r. refl)
        (resume-Turn env row policy events _ now r
          (λ e h. changed e (log_evaluation-Grows policy events e h)) blocked routed cleared)
        (λ e h. changed e (log_evaluation-Grows policy events e (grows e h)))

  evaluate_lem :
      (action : ActionEnvelope) (now : ℕ) (events : Events)
      → ((evaluate_policy_action env.policy action now true events).0.decision.status ≡ allow
          → IsCleared
              (evaluate_policy_action env.policy action now true events).1
              action.trace_id
              action.approval_class)
        × Grows events (evaluate_policy_action env.policy action now true events).1
  evaluate_lem action now events =
      let run = evaluate_policy_action env.policy action now true events in
      let cleared = λ (e : run.0.decision.status ≡ allow).
        Allowed-IsCleared env.policy action.approval_class action.trace_id now true events run.1 _
          (evaluate-Allowed env.policy laws action now true events e) in
      (
        λ e. (cleared e).0,
        elim (allow_cases run.0.decision.status) [
          | inl allowed ↦ (cleared allowed).1
          | inr refused ↦
              λ e h. rw (evaluate_unchanged env.policy laws action now true events refused) h
        ],
      )

  resume_routed-IsMove :
      (row : CommandRow) (found : Option CommandRoute) (actor : Option String) (now : ℕ) (w : World)
      → IsKeyed w.commands
      → Has w.commands row
      → row.status ≡ blocked_approval
      → row.route ≡ found
      → IsMove w (resume_routed env row found actor now w).1
  resume_routed-IsMove row none actor now w k here blocked routed = same-IsMove w k
  resume_routed-IsMove row (some r) actor now w k here blocked routed =
      let input =
        action_input (or_else row.actor actor) row.surface row.project_id r row.trace_id in
      elim (Option-cases (build_action_envelope row.trace_id (env.policy.to_iso now) input)) [
        | inl bad ↦ rw (bad, resume_routed) (same-IsMove w k)
        | inr (action, built) ↦
            let (class, trace) =
              built_class _ _ input r.approval_class row.trace_id action refl refl built in
            let (cleared, grows) = evaluate_lem action now w.events in
            rw (built, resume_routed)
              (apply_resume-IsMove row _ _ now w k here grows blocked r routed
                (λ allowed. subst₂ (IsCleared _) trace class (cleared allowed)))
      ]

  resume_blocked-IsMove :
      (row : CommandRow) (status : CommandStatus) (trace_id actor : Option String) (now : ℕ)
      (w : World)
      → IsKeyed w.commands
      → Has w.commands row
      → row.status ≡ status
      → IsMove w (resume_blocked env row status trace_id actor now w).1
  unfolding resume_blocked
  resume_blocked-IsMove row queued trace_id actor now w k here e = same-IsMove w k
  resume_blocked-IsMove row running trace_id actor now w k here e = same-IsMove w k
  resume_blocked-IsMove row blocked_policy trace_id actor now w k here e = same-IsMove w k
  resume_blocked-IsMove row completed trace_id actor now w k here e = same-IsMove w k
  resume_blocked-IsMove row failed trace_id actor now w k here e = same-IsMove w k
  resume_blocked-IsMove row canceled trace_id actor now w k here e = same-IsMove w k
  resume_blocked-IsMove row blocked_approval trace_id actor now w k here e =
      elim (Bool-cases (str_eq (or_else row.trace_id trace_id) row.trace_id)) [
        | inl agree ↦ rw agree (resume_routed-IsMove row row.route actor now w k here e refl)
        | inr differ ↦ rw differ (same-IsMove w k)
      ]

  pub resume-IsMove :
      (id : String) (trace_id actor : Option String) (now : ℕ) (w : World)
      → IsKeyed w.commands
      → IsMove w (resume env id trace_id actor now w).1
  unfolding resume
  resume-IsMove id trace_id actor now w k = elim (Option-cases (get_command id w.commands)) [
    | inl nothing ↦ rw (nothing, resume) (same-IsMove w k)
    | inr (row, found) ↦
        let (here, _) = get_command-eq-some id w.commands row found in
        rw (found, resume) (resume_blocked-IsMove row row.status trace_id actor now w k here refl)
  ]
