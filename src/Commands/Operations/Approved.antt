-- ===== src/Commands/Operations/Approved.antt =====
-- `resume` of src/commands/store.ts after an approval: the command can be worked on.
use frontier_os.Prelude.{
  or_else, ℕ, ◌+◌, ◌≤◌, ◌<◌, ◌≡◌, refl, sym, ap, subst, ◌∙◌, String, true, false, Option, none,
  some, inl, inr, arith, Bool-cases, Option-cases, ◌≢◌, eq_iff, str_eq, length, select,
}
use frontier_os.Prelude.Dict.{contains}
use frontier_os.Work.{ApprovalClass, class_2}
use frontier_os.Policy.{
  ActionInput, ApprovalConsumption, allow, PolicyEvaluation, build_action_envelope,
}
use frontier_os.Policy.Ledger.{Events, is_kind}
use frontier_os.Policy.Tokens.{
  Env, consumed, granted_kind, consumed_token_ids, consume_approval_token, approve_trace, decide,
  evaluate_policy_action,
}
use frontier_os.Policy.OneShot.{IsEnv}
use frontier_os.Policy.Grants.{approve-consume}
use frontier_os.Commands.{queued, blocked_approval, CommandRoute}
use frontier_os.Commands.Explain.{CommandEnv, action_input}
use frontier_os.Commands.Rows.{CommandRow, World, is_id, get_command}
use frontier_os.Commands.Store.{patched}
use frontier_os.Commands.Store.Rows.{get_command-eq-some}
use frontier_os.Commands.Operations.{Reply, done, require_command}
use frontier_os.Commands.Resumption.{
  resume_patch, apply_resume, resume_routed, resume_blocked, resume,
}
use frontier_os.Commands.Operations.Moves.{Grows}
use frontier_os.Commands.Operations.Submitting.{built_class}
use frontier_os.Commands.Operations.Claiming.{get_command-update_where}

built_some :
    (fresh now : String) (input : ActionInput)
    → input.verb ≢ ""
    → build_action_envelope fresh now input ≢ none
unfolding build_action_envelope
built_some fresh now input named e = elim (Bool-cases (str_eq input.verb "")) [
  | inl blank ↦ named ((eq_iff _ _).0 blank)
  | inr full ↦ absurd (ground (arith, rw full at e))
]

consumed_allows :
    (env : Env) (class : ApprovalClass) (now : ℕ) (trace_id : String) (events after : Events)
    (c : ApprovalConsumption)
    → class ≡ class_2
    → consume_approval_token env now trace_id false events ≡ (consumed c, after)
    → (decide env class now trace_id true events).0.status ≡ allow
unfolding decide
consumed_allows env class now trace_id events after c two e = rw (two, decide, e) refl

-- A row is answered, and it is queued.
abbrev pub IsQueued : Reply CommandRow → Type 0
IsQueued reply = (after : CommandRow) × (reply ≡ done after) × (after.status ≡ queued)

applied :
    (env : CommandEnv) (row : CommandRow) (policy : PolicyEvaluation) (events : Events) (now : ℕ)
    (w : World)
    → get_command row.command_id w.commands ≡ some row
    → policy.decision.status ≡ allow
    → IsQueued (apply_resume env row policy events now w).0
unfolding apply_resume
applied env row policy events now w found allowed =
    let change = patched now (resume_patch env row policy now) in
    let read =
      get_command-update_where row.command_id (is_id row.command_id) change (λ r. refl) w.commands
        row found in
    let mine = rw ((eq_iff row.command_id row.command_id).1 refl) at read in
    (change row, rw (mine, require_command) refl, rw allowed refl)

routed :
    (env : CommandEnv) (row : CommandRow) (r : CommandRoute) (actor : Option String) (now : ℕ)
    (w : World) (c : ApprovalConsumption) (events : Events)
    → get_command row.command_id w.commands ≡ some row
    → r.approval_class ≡ class_2
    → r.verb ≢ ""
    → consume_approval_token env.policy now row.trace_id false w.events ≡ (consumed c, events)
    → IsQueued (resume_routed env row (some r) actor now w).0
unfolding evaluate_policy_action
routed env row r actor now w c events found two named taken =
    let input = action_input (or_else row.actor actor) row.surface row.project_id r row.trace_id in
    elim (Option-cases (build_action_envelope row.trace_id (env.policy.to_iso now) input)) [
      | inl bad ↦ absurd (built_some row.trace_id (env.policy.to_iso now) input named bad)
      | inr (action, built) ↦
          let (class, trace) =
            built_class _ _ input r.approval_class row.trace_id action refl refl built in
          let allowed =
            consumed_allows env.policy action.approval_class now action.trace_id w.events events c
              (class ∙ two)
              (ap (λ t. consume_approval_token env.policy now t false w.events) trace ∙ taken) in
          rw (built, resume_routed)
            (applied env row _ _ now w found (unfold evaluate_policy_action in allowed))
    ]

module _ (env : CommandEnv) (laws : IsEnv env.policy) where
  -- After an approval of its trace, a command of class 2 that waits for it is queued when it is resumed
  -- before the approval expires, whatever the ledger has got since then, as long as the token was not
  -- consumed and the ledger holds at most the 1000 grants that one query returns.
  pub resume_approved :
      (w : World) (id : String) (row : CommandRow) (r : CommandRoute) (by : Option String)
      → get_command id w.commands ≡ some row
      → row.status ≡ blocked_approval
      → row.route ≡ some r
      → r.approval_class ≡ class_2
      → r.verb ≢ ""
      → (granted : ℕ) (uuid : String) (ttl_ms : ℕ) (actor : Option String) (before : Events)
      → Grows (approve_trace env.policy granted uuid row.trace_id ttl_ms actor before).1 w.events
      → length (select (is_kind granted_kind) w.events) ≤ 1000
      → contains
          (consumed_token_ids env.policy w.events)
          (approve_trace env.policy granted uuid row.trace_id ttl_ms actor before).0.token_id
        ≡ false
      → (now : ℕ) → now < granted + ttl_ms
      → IsQueued (resume env id none by now w).0
  unfolding resume resume_blocked
  resume_approved w id row r by found blocked has_route two named granted uuid ttl_ms actor before
        grown few unused now early =
      let (c, events, taken) =
        approve-consume env.policy laws granted uuid row.trace_id ttl_ms actor before w.events grown
          few unused now early false in
      let mine = (get_command-eq-some id w.commands row found).1 in
      let at_row = ap (λ i. get_command i w.commands) mine ∙ found in
      let at_route =
        subst (λ o. IsQueued (resume_routed env row o by now w).0) (sym has_route)
          (routed env row r by now w c events at_row two named taken) in
      let at_status : IsQueued (resume_blocked env row blocked_approval none by now w).0 =
        rw (resume_blocked, (eq_iff row.trace_id row.trace_id).1 refl) at_route in
      rw (found, resume)
        (subst (λ s. IsQueued (resume_blocked env row s none by now w).0) (sym blocked) at_status)
