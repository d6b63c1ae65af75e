-- ===== src/Commands/Operations/Leases.antt =====
-- The leases of src/commands/store.ts: while a claim's lease lasts no other claim gets the command,
-- whatever the other calls are.
use frontier_os.Prelude.{
  ℕ, ◌+◌, ◌≤◌, ◌<◌, ◌≡◌, ◌≢◌, refl, sym, ap, subst, ◌∙◌, String, Bool, true, false, Option, some,
  ◌⊎◌, inl, inr, List, [], ◌∷◌, ◌++◌, arith, Bool-cases, Option-cases, eq_iff, str_eq,
}
use frontier_os.Work.{ApprovalClass}
use frontier_os.Commands.{running, blocked_approval}
use frontier_os.Commands.Explain.{CommandEnv}
use frontier_os.Commands.Rows.{CommandRow, World, update_where, is_id, get_command, CommandResult}
use frontier_os.Commands.Claimable.{is_claimable, may_claim, select_claimable}
use frontier_os.Commands.Store.{may_extend, patched}
use frontier_os.Commands.Store.Rows.{IsKeyed, keyed_unique, get_command-eq-some}
use frontier_os.Commands.Operations.{claim_next, extend_lease, finish_command, is_over, cancel}
use frontier_os.Commands.Resumption.{resume_patch, resume}
use frontier_os.Commands.Operations.Working.{select_claimable-eq-some, ending}
use frontier_os.Commands.Operations.Claiming.{get_command-update_where}
use frontier_os.Commands.Operations.Changes.{IsExtended, resume_commands}

-- The command is over, or runs under a lease that lasts at least so long.
abbrev pub Held : ℕ → CommandRow → Type 0
Held until row =
    (is_over row.status ≡ true)
    ⊎ (row.status ≡ running) × ((u : ℕ) × (row.lease_until ≡ some u) × (until ≤ u))

abbrev pub IsHeld : String → ℕ → List CommandRow → Type 0
IsHeld id until rows = (row : CommandRow) × (get_command id rows ≡ some row) × Held until row

pub Held-not_claimable :
    (now until : ℕ) (row : CommandRow) → now < until → Held until row → is_claimable now row ≡ false
unfolding is_claimable
Held-not_claimable now until row early (inl over) = ground (arith, over)
Held-not_claimable now until row early (inr (runs, (u, leased, long))) =
    rw (runs, leased, is_claimable) (ground arith)

-- The first row with an id stays the first where another is added at the end.
get_command_append :
    (id : String) (rows : List CommandRow) (new row : CommandRow)
    → get_command id rows ≡ some row
    → get_command id (rows ++ new ∷ []) ≡ some row
get_command_append id [] new row e = absurd (ground arith)
get_command_append id (r ∷ rows) new row e = elim (Bool-cases (str_eq r.command_id id)) [
  | inl hit ↦ rw hit (rw hit at e)
  | inr miss ↦ rw miss (get_command_append id rows new row (rw miss at e))
]

ending-over : (succeeded : Bool) → is_over (ending succeeded) ≡ true
ending-over true = refl
ending-over false = refl

pub some_injective : (a b : CommandRow) → (some a ≡ some b) → a ≡ b
some_injective a b e = ground arith

Held-not_blocked : (row : CommandRow) (until : ℕ) → Held until row → row.status ≢ blocked_approval
Held-not_blocked row until (inl over) e = ground arith
Held-not_blocked row until (inr (runs, _)) e = ground arith

module _ (id : String) (until : ℕ) where
  pub update-IsHeld :
      (test : CommandRow → Bool) (change : CommandRow → CommandRow) (rows : List CommandRow)
      → ((r : CommandRow) → (change r).command_id ≡ r.command_id)
      → ((r : CommandRow)
          → r.command_id ≡ id
          → test r ≡ true
          → Held until r
          → Held until (change r))
      → IsHeld id until rows
      → IsHeld id until (update_where test change rows)
  update-IsHeld test change rows keeps_id keeps (row, found, held) =
      let there = get_command-update_where id test change keeps_id rows row found in
      let mine = (get_command-eq-some id rows row found).1 in
      elim (Bool-cases (test row)) [
        | inl hit ↦ (change row, rw hit at there, keeps row mine hit held)
        | inr miss ↦ (row, rw miss at there, held)
      ]

  pub claim-IsHeld :
      (worker : String) (lease_ms : ℕ) (command_id : Option String) (most : Option ApprovalClass)
      (now : ℕ) (w : World)
      → IsKeyed w.commands
      → now < until
      → IsHeld id until w.commands
      → IsHeld id until (claim_next worker lease_ms command_id most now w).1.commands
  unfolding claim_next may_claim
  claim-IsHeld worker lease_ms command_id most now w k early (held_row, at_id, held) =
      elim (Option-cases (select_claimable now command_id most w.commands)) [
        | inl nothing ↦ rw (nothing, claim_next) (held_row, at_id, held)
        | inr (row, found) ↦
            let (here, may) = select_claimable-eq-some now command_id most w.commands row found in
            let able : is_claimable now row ≡ true = ground (arith, may) in
            let (there, mine) = get_command-eq-some id w.commands held_row at_id in
            let apart : row.command_id ≢ id = λ clash.
              let same : row ≡ held_row =
                keyed_unique w.commands row held_row k here there (clash ∙ sym mine) in
              let not_able = Held-not_claimable now until held_row early held in
              ground (arith, able, ap (is_claimable now) same, not_able) in
            rw (found, claim_next)
              (update-IsHeld (is_id row.command_id) _ w.commands (λ r. refl)
                (λ r is hit h. absurd (apart (sym ((eq_iff _ _).0 hit) ∙ is)))
                (held_row, at_id, held))
      ]

  pub extend-IsHeld :
      (other worker : String) (lease_ms now : ℕ) (w : World)
      → (other ≢ id) ⊎ (until ≤ now + lease_ms)
      → IsHeld id until w.commands
      → IsHeld id until (extend_lease other worker lease_ms now w).1.commands
  unfolding extend_lease
  extend-IsHeld other worker lease_ms now w long =
      update-IsHeld (may_extend other worker) _ w.commands (λ r. refl)
        (λ r mine hit h. elim long [
          | inl apart ↦
              let is : str_eq r.command_id other ≡ true = ground (arith, hit) in
              absurd (apart (sym ((eq_iff r.command_id other).0 is) ∙ mine))
          | inr enough ↦ elim h [
            | inl over ↦ inl over
            | inr (runs, _) ↦ inr (runs, (now + lease_ms, refl, enough))
          ]
        ])

  pub finish-IsHeld :
      (other : String) (succeeded : Bool) (result : CommandResult) (error : Option String) (now : ℕ)
      (w : World)
      → IsHeld id until w.commands
      → IsHeld id until (finish_command other (ending succeeded) result error now w).1.commands
  unfolding finish_command
  finish-IsHeld other succeeded result error now w h =
      elim (Option-cases (get_command other w.commands)) [
        | inl nothing ↦ rw (nothing, finish_command) h
        | inr (row, found) ↦
            rw (found, finish_command)
              (update-IsHeld (is_id other) _ w.commands (λ r. refl)
                (λ r _ _ _. inl (ending-over succeeded)) h)
      ]

  pub cancel-IsHeld :
      (other actor : String) (now : ℕ) (w : World)
      → IsHeld id until w.commands
      → IsHeld id until (cancel other actor now w).1.commands
  unfolding cancel
  cancel-IsHeld other actor now w h = elim (Option-cases (get_command other w.commands)) [
    | inl nothing ↦ rw (nothing, cancel) h
    | inr (row, found) ↦ elim (Bool-cases (is_over row.status)) [
      | inl over ↦ rw (found, over, cancel) h
      | inr alive ↦
          rw (found, alive, cancel)
            (update-IsHeld (is_id other) _ w.commands (λ r. refl) (λ r _ _ _. inl refl) h)
    ]
  ]

  pub added-IsHeld :
      (before after : List CommandRow)
      → IsExtended before after
      → IsHeld id until before
      → IsHeld id until after
  added-IsHeld before after (inl same) h = subst (IsHeld id until) (sym same) h
  added-IsHeld before after (inr (new, same)) (row, found, held) =
      (row, ap (get_command id) same ∙ get_command_append id before new row found, held)

  pub resume-IsHeld :
      (env : CommandEnv) (other : String) (trace_id actor : Option String) (now : ℕ) (w : World)
      → IsHeld id until w.commands
      → IsHeld id until (resume env other trace_id actor now w).1.commands
  resume-IsHeld env other trace_id actor now w (held_row, at_id, held) =
      elim (resume_commands env other trace_id actor now w) [
        | inl same ↦ subst (IsHeld id until) (sym same) (held_row, at_id, held)
        | inr (row, found, inl same) ↦ subst (IsHeld id until) (sym same) (held_row, at_id, held)
        | inr (row, found, inr (blocked, (policy, same))) ↦
            let mine = (get_command-eq-some other w.commands row found).1 in
            let apart : row.command_id ≢ id = λ clash.
              let twice : row ≡ held_row =
                some_injective _ _
                  (sym found ∙ ap (λ i. get_command i w.commands) (sym mine ∙ clash) ∙ at_id) in
              Held-not_blocked held_row until held (ap (λ r. r.status) (sym twice) ∙ blocked) in
            subst (IsHeld id until) (sym same) (
              update-IsHeld (is_id row.command_id) (patched now (resume_patch env row policy now))
                w.commands (λ r. refl)
                (λ r is hit h. absurd (apart (sym ((eq_iff _ _).0 hit) ∙ is)))
                (held_row, at_id, held))
      ]
