-- ===== src/Commands/Operations/Submitting.antt =====
-- src/commands/store.ts: submitting, resuming, retrying and requeueing, as moves of commands.
use frontier_os.Prelude.{
  ℕ, ◌≡◌, refl, ap, subst, ◌∙◌, String, false, some, ◌⊎◌, inl, inr, arith, Bool-cases, Option-cases,
  str_eq,
}
use frontier_os.Work.{ApprovalClass, class_0, class_1, class_2, class_3}
use frontier_os.Policy.{
  ActionInput, ActionEnvelope, PolicyEvaluation, classify_verb, build_action_envelope,
}
use frontier_os.Policy.Ledger.{Events, Has, append_event}
use frontier_os.Policy.Tokens.{Env, decide, evaluate_policy_action, append_policy_event}
use frontier_os.Commands.Explain.{
  Envelope, CommandEnv, SubmitInput, build_command_envelope, Explained, action_input,
  log_evaluation, explain_envelope, initial_status, route_of, explained_as,
}
use frontier_os.Commands.Rows.{CommandRow, World}
use frontier_os.Commands.Store.{insert_command}
use frontier_os.Commands.Store.Rows.{
  IsKeyed, insert_command_lem, insert_command-IsKeyed, Has-append_last,
}
use frontier_os.Commands.Events.{append_linked, append_lifecycle}
use frontier_os.Commands.Submissions.{new_row, store_explained, submit}
use frontier_os.Commands.Operations.Moves.{Grows, birth_status, IsNew}

pub built_class :
    (fresh now : String) (input : ActionInput) (class : ApprovalClass) (trace_id : String)
    (action : ActionEnvelope)
    → input.approval_class ≡ some class
    → input.trace_id ≡ some trace_id
    → build_action_envelope fresh now input ≡ some action
    → (action.approval_class ≡ class) × (action.trace_id ≡ trace_id)
unfolding build_action_envelope classify_verb
built_class fresh now input class trace_id action given traced e =
    elim (Bool-cases (str_eq input.verb "")) [
      | inl blank ↦ absurd (ground (arith, rw blank at e))
      | inr full ↦
          let made = rw (full, given, traced, classify_verb) at e in
          (ground (arith, made), ground (arith, made))
    ]

-- Without consumption a class decides alone.
unasked_status :
    (env : Env) (class : ApprovalClass) (now : ℕ) (trace_id : String) (events : Events)
    → initial_status (decide env class now trace_id false events).0.status ≡ birth_status class
unfolding decide
unasked_status env class_0 now trace_id events = refl
unasked_status env class_1 now trace_id events = refl
unasked_status env class_2 now trace_id events = refl
unasked_status env class_3 now trace_id events = refl

module _ (env : CommandEnv) where
  pub explain_envelope_status :
      (now : ℕ) (envelope : Envelope) (events : Events) (e : Explained)
      → explain_envelope env now envelope events ≡ some e
      → (e.status ≡ birth_status e.route.approval_class) × (e.route ≡ route_of env envelope)
  unfolding explain_envelope evaluate_policy_action
  explain_envelope_status now envelope events e h =
      let r = route_of env envelope in
      let input =
        action_input envelope.actor_id envelope.channel r.project_id r envelope.trace_id in
      elim (Option-cases (build_action_envelope envelope.trace_id (env.policy.to_iso now) input)) [
        | inl bad ↦ absurd (ground (arith, rw (bad, explain_envelope) at h))
        | inr (action, made) ↦
            let policy = (evaluate_policy_action env.policy action now false events).0 in
            let same : explained_as env now envelope policy ≡ e =
              ground (arith, rw (made, explain_envelope) at h) in
            let (class, _) =
              built_class _ _ input r.approval_class envelope.trace_id action refl refl made in
            let status =
              unasked_status env.policy action.approval_class now action.trace_id events in
            subst (λ e. (e.status ≡ birth_status e.route.approval_class) × (e.route ≡ r)) same
              (unfold evaluate_policy_action in (status ∙ ap birth_status class, refl))
      ]

pub append_linked-Grows :
    (action : String) (source next : CommandRow) (actor : String) (events : Events)
    → Grows events (append_linked action source next actor events)
unfolding append_linked append_event
append_linked-Grows action source next actor events e h = inr (inr h)

append_lifecycle-Grows :
    (row : CommandRow) (events : Events) → Grows events (append_lifecycle row events)
unfolding append_lifecycle append_event
append_lifecycle-Grows row events e h = inr (inr (inr (inr h)))

pub log_evaluation-Grows :
    (policy : PolicyEvaluation) (events : Events) → Grows events (log_evaluation policy events)
unfolding append_policy_event append_event
log_evaluation-Grows policy events e h = inr h

-- An operation that leaves all rows, and adds new ones at most.
pub record IsAddition (before after : World) : Type 0 where
  pub rows : (row : CommandRow) → Has after.commands row → Has before.commands row ⊎ IsNew row
  pub keyed : IsKeyed before.commands → IsKeyed after.commands
  pub grows : Grows before.events after.events

none_added :
    (w : World) (events : Events)
    → Grows w.events events
    → IsAddition w (record w { events = events })
none_added w events grows = record { rows = λ row h. inl h; keyed = λ k. k; grows = grows }

pub same-IsAddition : (w : World) → IsAddition w w
same-IsAddition w = none_added w w.events (λ e h. h)

store_explained-IsAddition :
    (now : ℕ) (e : Explained) (w : World)
    → e.status ≡ birth_status e.route.approval_class
    → IsAddition w (store_explained now e w).1
unfolding store_explained
store_explained-IsAddition now e w status =
    let logged = log_evaluation-Grows e.policy w.events in
    elim (Option-cases (insert_command (new_row now e) w.commands)) [
      | inl taken ↦ rw (taken, store_explained) (none_added w _ logged)
      | inr (rows, inserted) ↦
          let (same, _) = insert_command_lem (new_row now e) w.commands rows inserted in
          rw (inserted, store_explained)
            (record {
              rows = λ row h. elim (Has-append_last w.commands (new_row now e) row (rw same at h)) [
                | inl old ↦ inl old
                | inr last ↦ inr (subst IsNew last (e.route, refl, refl, status))
              ];
              keyed = insert_command-IsKeyed (new_row now e) w.commands rows inserted;
              grows = λ x h. append_lifecycle-Grows (new_row now e) _ x (logged x h);
            })
    ]

module _ (env : CommandEnv) where
  pub submit-IsAddition :
      (command_id fresh_trace : String) (input : SubmitInput) (now : ℕ) (w : World)
      → IsAddition w (submit env command_id fresh_trace input now w).1
  unfolding submit
  submit-IsAddition command_id fresh_trace input now w =
      elim (Option-cases (build_command_envelope command_id fresh_trace now input)) [
        | inl blank ↦ rw (blank, submit) (same-IsAddition w)
        | inr (envelope, built) ↦ elim (Option-cases (explain_envelope env now envelope w.events)) [
          | inl bad ↦ rw (built, bad, submit) (same-IsAddition w)
          | inr (e, explained) ↦ elim (Bool-cases (env.is_valid envelope)) [
            | inr invalid ↦ rw (built, explained, invalid, submit) (same-IsAddition w)
            | inl valid ↦ elim (Bool-cases input.dry_run) [
              | inl dry ↦ rw (built, explained, valid, dry, submit) (same-IsAddition w)
              | inr wet ↦
                  rw (built, explained, valid, wet, submit)
                    (store_explained-IsAddition now e w
                      (explain_envelope_status env now envelope w.events e explained).0)
            ]
          ]
        ]
      ]
