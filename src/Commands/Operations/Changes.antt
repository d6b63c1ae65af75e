-- ===== src/Commands/Operations/Changes.antt =====
-- src/commands/store.ts: what submitting and resuming do to the table of commands.
use frontier_os.Prelude.{
  or_else, ℕ, ◌≡◌, refl, String, Option, none, some, ◌⊎◌, inl, inr, List, [], ◌∷◌, ◌++◌, Bool-cases,
  Option-cases, str_eq,
}
use frontier_os.Commands.{
  CommandStatus, queued, running, blocked_approval, blocked_policy, completed, failed, canceled,
  CommandRoute,
}
use frontier_os.Policy.{PolicyEvaluation, build_action_envelope}
use frontier_os.Commands.Explain.{
  CommandEnv, SubmitInput, build_command_envelope, explain_envelope, action_input,
}
use frontier_os.Commands.Rows.{CommandRow, World, update_where, is_id, get_command}
use frontier_os.Commands.Store.{insert_command, patched}
use frontier_os.Commands.Store.Rows.{insert_command_lem}
use frontier_os.Commands.Submissions.{new_row, store_explained, submit}
use frontier_os.Commands.Resumption.{
  resume_patch, apply_resume, resume_routed, resume_blocked, resume,
}

-- At most one row was added, at the end.
abbrev pub IsExtended : List CommandRow → List CommandRow → Type 0
IsExtended before after = (after ≡ before) ⊎ ((new : CommandRow) × (after ≡ before ++ new ∷ []))

pub submit-IsExtended :
    (env : CommandEnv) (command_id fresh_trace : String) (input : SubmitInput) (now : ℕ) (w : World)
    → IsExtended w.commands (submit env command_id fresh_trace input now w).1.commands
unfolding submit store_explained
submit-IsExtended env command_id fresh_trace input now w =
    elim (Option-cases (build_command_envelope command_id fresh_trace now input)) [
      | inl blank ↦ rw (blank, submit) (inl refl)
      | inr (envelope, built) ↦ elim (Option-cases (explain_envelope env now envelope w.events)) [
        | inl bad ↦ rw (built, bad, submit) (inl refl)
        | inr (e, explained) ↦ elim (Bool-cases (env.is_valid envelope)) [
          | inr invalid ↦ rw (built, explained, invalid, submit) (inl refl)
          | inl valid ↦ elim (Bool-cases input.dry_run) [
            | inl dry ↦ rw (built, explained, valid, dry, submit) (inl refl)
            | inr wet ↦ elim (Option-cases (insert_command (new_row now e) w.commands)) [
              | inl taken ↦
                  rw (built, explained, valid, wet, taken, submit, store_explained) (inl refl)
              | inr (rows, inserted) ↦
                  rw (built, explained, valid, wet, inserted, submit, store_explained)
                    (inr (
                      new_row now e,
                      (insert_command_lem (new_row now e) w.commands rows inserted).0,
                    ))
            ]
          ]
        ]
      ]
    ]

-- Resuming a row leaves the commands, or patches it where it waits for an approval.
abbrev pub IsPatched : CommandEnv → CommandRow → ℕ → World → List CommandRow → Type 0
IsPatched env row now w after =
    (after ≡ w.commands)
    ⊎ (row.status ≡ blocked_approval)
      × ((policy : PolicyEvaluation) × (after
            ≡ update_where (is_id row.command_id) (patched now (resume_patch env row policy now))
                w.commands))

routed-IsPatched :
    (env : CommandEnv) (row : CommandRow) (route : Option CommandRoute) (actor : Option String)
    (now : ℕ) (w : World)
    → row.status ≡ blocked_approval
    → IsPatched env row now w (resume_routed env row route actor now w).1.commands
unfolding apply_resume
routed-IsPatched env row none actor now w blocked = inl refl
routed-IsPatched env row (some r) actor now w blocked =
    elim (Option-cases (
      build_action_envelope row.trace_id (env.policy.to_iso now)
        (action_input (or_else row.actor actor) row.surface row.project_id r row.trace_id))) [
          | inl bad ↦ rw (bad, resume_routed) (inl refl)
          | inr (action, built) ↦ rw (built, resume_routed) (inr (blocked, (_, refl)))
        ]

blocked-IsPatched :
    (env : CommandEnv) (row : CommandRow) (status : CommandStatus) (trace_id actor : Option String)
    (now : ℕ) (w : World)
    → row.status ≡ status
    → IsPatched env row now w (resume_blocked env row status trace_id actor now w).1.commands
unfolding resume_blocked
blocked-IsPatched env row queued trace_id actor now w e = inl refl
blocked-IsPatched env row running trace_id actor now w e = inl refl
blocked-IsPatched env row blocked_policy trace_id actor now w e = inl refl
blocked-IsPatched env row completed trace_id actor now w e = inl refl
blocked-IsPatched env row failed trace_id actor now w e = inl refl
blocked-IsPatched env row canceled trace_id actor now w e = inl refl
blocked-IsPatched env row blocked_approval trace_id actor now w e =
    elim (Bool-cases (str_eq (or_else row.trace_id trace_id) row.trace_id)) [
      | inl agree ↦ rw agree (routed-IsPatched env row row.route actor now w e)
      | inr differ ↦ rw differ (inl refl)
    ]

pub resume_commands :
    (env : CommandEnv) (id : String) (trace_id actor : Option String) (now : ℕ) (w : World)
    → ((resume env id trace_id actor now w).1.commands ≡ w.commands)
      ⊎ ((row : CommandRow) × (get_command id w.commands ≡ some row)
          × IsPatched env row now w (resume env id trace_id actor now w).1.commands)
unfolding resume
resume_commands env id trace_id actor now w = elim (Option-cases (get_command id w.commands)) [
  | inl nothing ↦ rw (nothing, resume) (inl refl)
  | inr (row, found) ↦ inr (
    row,
    found,
    rw (found, resume) (blocked-IsPatched env row row.status trace_id actor now w refl),
  )
]
