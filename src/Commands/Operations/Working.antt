-- ===== src/Commands/Operations/Working.antt =====
-- src/commands/store.ts: the operations of workers, and cancelling, as moves of commands.
use frontier_os.Prelude.{
  ℕ, ◌≡◌, refl, ap, subst, ◌∙◌, String, Bool, true, false, Option, some, ◌⊎◌, inl, inr, List, [],
  ◌∷◌, arith, ◌+◌, Bool-cases, Option-cases, leb,
}
use frontier_os.Work.{ApprovalClass}
use frontier_os.Policy.Ledger.{Events, Has}
use frontier_os.Policy.Search.{Has-select_test}
use frontier_os.Commands.{CommandStatus, queued, running, completed, failed, ActivityStatus}
use frontier_os.Commands.Explain.{checkpoint_for}
use frontier_os.Commands.Rows.{CommandResult, CommandRow, World, get_command}
use frontier_os.Commands.Claimable.{select_claimable, earliest, may_claim, is_claimable}
use frontier_os.Commands.Store.{extended, may_extend}
use frontier_os.Commands.Store.Rows.{
  Has-update_where, IsKeyed, update_where-IsKeyed, get_command-eq-some,
}
use frontier_os.Commands.Operations.{
  claim_next, extend_lease, finish_activity, finish_command, is_over, cancel,
}
use frontier_os.Commands.Operations.Moves.{
  core, Turn, stays, starts, completes, fails, stops, IsMove, same-IsMove, activities-IsMove,
  change-IsMove, append_state_changed-Grows, append_terminal-Grows,
}

pub earliest-Has :
    (rows : List CommandRow) (row : CommandRow) → earliest rows ≡ some row → Has rows row
unfolding earliest
earliest-Has [] row e = absurd (ground arith)
earliest-Has (r ∷ rows) row e = elim (Option-cases (earliest rows)) [
  | inl nothing ↦ inl (ground (arith, rw (nothing, earliest) at e))
  | inr (other, found) ↦ elim (Bool-cases (leb r.requested_at other.requested_at)) [
    | inl first ↦ inl (ground (arith, rw (found, first, earliest) at e))
    | inr second ↦
        inr (earliest-Has rows row (found ∙ ground (arith, rw (found, second, earliest) at e)))
  ]
]

pub claimable_status :
    (now : ℕ) (row : CommandRow)
    → is_claimable now row ≡ true
    → (row.status ≡ queued) ⊎ (row.status ≡ running)
unfolding is_claimable
claimable_status now row h = ground arith

pub select_claimable-eq-some :
    (now : ℕ) (command_id : Option String) (most : Option ApprovalClass) (rows : List CommandRow)
    (row : CommandRow)
    → select_claimable now command_id most rows ≡ some row
    → Has rows row × (may_claim now command_id most row ≡ true)
unfolding select_claimable
select_claimable-eq-some now command_id most rows row e =
    Has-select_test (may_claim now command_id most) rows row (earliest-Has _ row e)

pub claim_next-IsMove :
    (worker : String) (lease_ms : ℕ) (command_id : Option String) (most : Option ApprovalClass)
    (now : ℕ) (w : World)
    → IsKeyed w.commands
    → IsMove w (claim_next worker lease_ms command_id most now w).1
unfolding claim_next may_claim
claim_next-IsMove worker lease_ms command_id most now w k =
    elim (Option-cases (select_claimable now command_id most w.commands)) [
      | inl nothing ↦ rw (nothing, claim_next) (same-IsMove w k)
      | inr (row, found) ↦
          let (here, may) = select_claimable-eq-some now command_id most w.commands row found in
          let able : is_claimable now row ≡ true = ground (arith, may) in
          rw (found, claim_next)
            (change-IsMove w row _ _ _ k here (λ r. refl) (starts (claimable_status now row able))
              (append_state_changed-Grows row _ "claimed" w.events))
    ]

pub extend_lease-IsMove :
    (id worker : String) (lease_ms now : ℕ) (w : World)
    → IsKeyed w.commands
    → IsMove w (extend_lease id worker lease_ms now w).1
unfolding extend_lease
extend_lease-IsMove id worker lease_ms now w k =
    let change = extended now (now + lease_ms) (checkpoint_for id running now) in
    record {
      rows = λ b h.
          let (a, found, how) = Has-update_where (may_extend id worker) change w.commands b h in
          elim how [
            | inl (_, e) ↦ inl (
              a,
              found,
              subst (λ b. core a ≡ core b) e refl,
              subst (λ b. Turn w.events a b.status) e stays,
            )
            | inr (_, e) ↦ inl (a, found, ap core e, subst (λ b. Turn w.events a b.status) e stays)
          ];
      keyed = update_where-IsKeyed _ change (λ r. refl) w.commands k;
      grows = λ e h. h;
    }

pub finish_activity-IsMove :
    (id : String) (status : ActivityStatus) (output : String) (now : ℕ) (w : World)
    → IsKeyed w.commands
    → IsMove w (finish_activity id status output now w).1
unfolding finish_activity
finish_activity-IsMove id status output now w k = activities-IsMove w _ k

-- The two ways in which a run ends.
abbrev pub ending : Bool → CommandStatus
ending true = completed
ending false = failed

ends : (events : Events) (row : CommandRow) (succeeded : Bool) → Turn events row (ending succeeded)
ends events row true = completes
ends events row false = fails

pub finish_command-IsMove :
    (id : String) (succeeded : Bool) (result : CommandResult) (error : Option String) (now : ℕ)
    (w : World)
    → IsKeyed w.commands
    → IsMove w (finish_command id (ending succeeded) result error now w).1
unfolding finish_command
finish_command-IsMove id succeeded result error now w k =
    elim (Option-cases (get_command id w.commands)) [
      | inl nothing ↦ rw (nothing, finish_command) (same-IsMove w k)
      | inr (row, found) ↦
          let (here, same) = get_command-eq-some id w.commands row found in
          rw (found, finish_command, ← same)
            (change-IsMove w row _ _ _ k here (λ r. refl) (ends _ row succeeded)
              (λ e h.
                append_terminal-Grows _ _ e (append_state_changed-Grows row _ _ w.events e h)))
    ]

pub cancel-IsMove :
    (id actor : String) (now : ℕ) (w : World)
    → IsKeyed w.commands
    → IsMove w (cancel id actor now w).1
unfolding cancel
cancel-IsMove id actor now w k = elim (Option-cases (get_command id w.commands)) [
  | inl nothing ↦ rw (nothing, cancel) (same-IsMove w k)
  | inr (row, found) ↦
      let (here, same) = get_command-eq-some id w.commands row found in
      elim (Bool-cases (is_over row.status)) [
        | inl over ↦ rw (found, over, cancel) (same-IsMove w k)
        | inr alive ↦
            rw (found, alive, cancel, ← same)
              (change-IsMove w row _ _ _ k here (λ r. refl) (stops alive)
                (append_state_changed-Grows row _ "canceled" w.events))
      ]
]
