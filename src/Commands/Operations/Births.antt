-- ===== src/Commands/Operations/Births.antt =====
-- `submit` of src/commands/store.ts: the status with which a command is answered.
use frontier_os.Prelude.{
  ℕ, ◌≡◌, ◌≢◌, refl, sym, ap, ◌∙◌, String, true, none, some, inl, inr, List, [], ◌∷◌, ◌++◌, arith,
  Bool-cases, Option-cases, eq_iff, str_eq,
}
use frontier_os.Work.{class_3}
use frontier_os.Policy.Ledger.{Has}
use frontier_os.Commands.{blocked_policy}
use frontier_os.Commands.Payload.{is_empty}
use frontier_os.Commands.Explain.{
  Envelope, CommandEnv, SubmitInput, normalize_intent, build_command_envelope, Explained,
  explain_envelope, route_of,
}
use frontier_os.Commands.Explain.Denied.{is_destructive, destructive_class}
use frontier_os.Commands.Rows.{CommandRow, World, get_command}
use frontier_os.Commands.Store.{insert_command}
use frontier_os.Commands.Store.Rows.{insert_command_lem}
use frontier_os.Commands.Operations.{done}
use frontier_os.Commands.Submissions.{new_row, dry_row, store_explained, submit}
use frontier_os.Commands.Operations.Moves.{birth_status}
use frontier_os.Commands.Operations.Submitting.{explain_envelope_status}

get_command_last :
    (rows : List CommandRow) (new : CommandRow)
    → ((r : CommandRow) → Has rows r → r.command_id ≢ new.command_id)
    → get_command new.command_id (rows ++ new ∷ []) ≡ some new
get_command_last [] new apart = rw ((eq_iff new.command_id new.command_id).1 refl) refl
get_command_last (r ∷ rows) new apart = elim (Bool-cases (str_eq r.command_id new.command_id)) [
  | inl clash ↦ absurd (apart r (inl refl) ((eq_iff _ _).0 clash))
  | inr differ ↦ rw differ (get_command_last rows new (λ r h. apart r (inr h)))
]

done_injective : (a b : CommandRow) → (done a ≡ done b) → a ≡ b
done_injective a b e = ground arith

stored_status :
    (now : ℕ) (e : Explained) (w : World) (row : CommandRow)
    → (store_explained now e w).0 ≡ done row
    → row.status ≡ e.status
unfolding store_explained
stored_status now e w row h = elim (Option-cases (insert_command (new_row now e) w.commands)) [
  | inl taken ↦ absurd (ground (arith, rw (taken, store_explained) at h))
  | inr (rows, inserted) ↦
      let (same, apart) = insert_command_lem (new_row now e) w.commands rows inserted in
      let last : get_command e.envelope.command_id rows ≡ some (new_row now e) =
        rw same (get_command_last w.commands (new_row now e) apart) in
      let read = rw (inserted, last, store_explained) at h in
      sym (ap (λ r. r.status) (done_injective (new_row now e) row read))
]

envelope_lem :
    (command_id fresh_trace : String) (now : ℕ) (input : SubmitInput) (envelope : Envelope)
    → build_command_envelope command_id fresh_trace now input ≡ some envelope
    → (envelope.intent ≡ normalize_intent input.intent)
      × (envelope.approval_class ≡ input.approval_class)
unfolding build_command_envelope
envelope_lem command_id fresh_trace now input envelope e =
    elim (Bool-cases (is_empty (normalize_intent input.intent))) [
      | inl blank ↦ absurd (ground (arith, rw blank at e))
      | inr full ↦ let made = rw full at e in (ground (arith, made), ground (arith, made))
    ]

module _ (env : CommandEnv) where
  submitted_status :
      (command_id fresh_trace : String) (input : SubmitInput) (now : ℕ) (w : World)
      (row : CommandRow)
      → (submit env command_id fresh_trace input now w).0 ≡ done row
      → (envelope : Envelope) × (build_command_envelope command_id fresh_trace now input
          ≡ some envelope)
        × (row.status ≡ birth_status (route_of env envelope).approval_class)
  unfolding submit
  submitted_status command_id fresh_trace input now w row h =
      elim (Option-cases (build_command_envelope command_id fresh_trace now input)) [
        | inl blank ↦ absurd (ground (arith, rw (blank, submit) at h))
        | inr (envelope, built) ↦ elim (Option-cases (explain_envelope env now envelope w.events)) [
          | inl bad ↦ elim (Bool-cases (env.is_valid envelope)) [
            | inl valid ↦ absurd (ground (arith, rw (built, bad, valid, submit) at h))
            | inr invalid ↦ absurd (ground (arith, rw (built, bad, invalid, submit) at h))
          ]
          | inr (e, explained) ↦
              let (status, same) = explain_envelope_status env now envelope w.events e explained in
              let born : e.status ≡ birth_status (route_of env envelope).approval_class =
                status ∙ ap (λ r. birth_status r.approval_class) same in
              elim (Bool-cases (env.is_valid envelope)) [
                | inr invalid ↦ absurd (ground (arith, rw (built, explained, invalid, submit) at h))
                | inl valid ↦ elim (Bool-cases input.dry_run) [
                  | inl dry ↦
                      let read = rw (built, explained, valid, dry, submit) at h in
                      (
                        envelope,
                        built,
                        sym (ap (λ r. r.status) (done_injective (dry_row e) row read)) ∙ born,
                      )
                  | inr wet ↦
                      let read = rw (built, explained, valid, wet, submit) at h in
                      (envelope, built, stored_status now e w row read ∙ born)
                ]
              ]
        ]
      ]

  -- If a command without a class, whose normalized intent in lower case is destructive, is submitted
  -- and answered, its status is blocked by the policy.
  pub destructive_blocked :
      (command_id fresh_trace : String) (input : SubmitInput) (now : ℕ) (w : World)
      (row : CommandRow)
      → input.approval_class ≡ none
      → is_destructive (env.lower (normalize_intent input.intent)) ≡ true
      → (submit env command_id fresh_trace input now w).0 ≡ done row
      → row.status ≡ blocked_policy
  destructive_blocked command_id fresh_trace input now w row open_class destroys h =
      let (envelope, built, born) = submitted_status command_id fresh_trace input now w row h in
      let (intent, class) = envelope_lem command_id fresh_trace now input envelope built in
      let three : (route_of env envelope).approval_class ≡ class_3 = rw (class ∙ open_class) (
        destructive_class env.lower env.projects envelope.intent envelope.project_id
          envelope.payload (rw intent destroys)) in
      born ∙ ap birth_status three
