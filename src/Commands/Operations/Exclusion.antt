-- ===== src/Commands/Operations/Exclusion.antt =====
-- The leases of src/commands/store.ts: while a claim's lease lasts no other claim gets the command,
-- whatever the other calls are.
use frontier_os.Prelude.{
  ℕ, ◌+◌, ◌≤◌, ◌<◌, ◌≡◌, ◌≢◌, refl, sym, ap, subst, ◌∙◌, String, true, Option, some, ◌⊎◌, inl, inr,
  List, [], ◌∷◌, arith, Option-cases, eq_iff, All,
}
use frontier_os.Work.{ApprovalClass}
use frontier_os.Policy.OneShot.{IsEnv}
use frontier_os.Commands.{running}
use frontier_os.Commands.Explain.{CommandEnv, checkpoint_for}
use frontier_os.Commands.Rows.{CommandRow, World, update_where, is_id, get_command}
use frontier_os.Commands.Claimable.{is_claimable, may_claim, select_claimable}
use frontier_os.Commands.Store.{claimed}
use frontier_os.Commands.Store.Rows.{IsKeyed}
use frontier_os.Commands.Operations.{claim_next, finish_activity}
use frontier_os.Commands.Operations.Working.{select_claimable-eq-some, claim_next-IsMove}
use frontier_os.Commands.Operations.Runs.{
  Operation, submits, claims, extends, finishes_activity, finishes, cancels, resumes, retries,
  requeues, appends, perform, run, empty,
}
use frontier_os.Commands.Operations.Lifecycle.{perform-IsMove, run-IsKeyed}
use frontier_os.Commands.Operations.Claiming.{
  get_command-update_where, get_command_of_Has, claim_next_lem,
}
use frontier_os.Commands.Operations.Leases.{
  Held, IsHeld, Held-not_claimable, claim-IsHeld, extend-IsHeld, finish-IsHeld, cancel-IsHeld,
  added-IsHeld, resume-IsHeld, some_injective,
}
use frontier_os.Commands.Operations.Changes.{submit-IsExtended}
use frontier_os.Commands.Operations.Holding.{retry-IsHeld, requeue-IsHeld}

-- The call is made before the lease of the command ends, and is no extension of it to an earlier end.
abbrev pub IsDuring : String → ℕ → Operation × ℕ → Type 0
IsDuring id until (extends other worker lease_ms, now) =
    (now < until) × ((other ≢ id) ⊎ (until ≤ now + lease_ms))
IsDuring id until (_, now) = now < until

module _ (env : CommandEnv) (id : String) (until : ℕ) where
  perform-IsHeld :
      (operation : Operation) (now : ℕ) (w : World)
      → IsKeyed w.commands
      → IsDuring id until (operation, now)
      → IsHeld id until w.commands
      → IsHeld id until (perform env operation now w).commands
  unfolding perform finish_activity
  perform-IsHeld (submits new_id trace input) now w k d h =
      added-IsHeld id until w.commands _ (submit-IsExtended env new_id trace input now w) h
  perform-IsHeld (claims worker lease_ms command_id most) now w k d h =
      claim-IsHeld id until worker lease_ms command_id most now w k d h
  perform-IsHeld (extends other worker lease_ms) now w k (_, long) h =
      extend-IsHeld id until other worker lease_ms now w long h
  perform-IsHeld (finishes_activity activity_id status output) now w k d h = h
  perform-IsHeld (finishes other succeeded result error) now w k d h =
      finish-IsHeld id until other succeeded result error now w h
  perform-IsHeld (cancels other actor) now w k d h = cancel-IsHeld id until other actor now w h
  perform-IsHeld (resumes other trace actor) now w k d h =
      resume-IsHeld id until env other trace actor now w h
  perform-IsHeld (retries new_id trace other actor) now w k d h =
      retry-IsHeld env id until new_id trace other actor now w h
  perform-IsHeld (requeues new_id trace other actor) now w k d h =
      requeue-IsHeld env id until new_id trace other actor now w h
  perform-IsHeld (appends events) now w k d h = h

  run-IsHeld :
      (laws : IsEnv env.policy) (calls : List (Operation × ℕ)) (w : World)
      → IsKeyed w.commands
      → All (IsDuring id until) calls
      → IsHeld id until w.commands
      → IsKeyed (run env calls w).commands × IsHeld id until (run env calls w).commands
  unfolding run
  run-IsHeld laws [] w k d h = (k, h)
  run-IsHeld laws ((operation, now) ∷ calls) w k (d, ds) h =
      let move = perform-IsMove env laws operation now w k in
      run-IsHeld laws calls (perform env operation now w) move.keyed ds
        (perform-IsHeld operation now w k d h)

  -- A command that is held is not claimed.
  Held-not_claimed :
      (w : World) (worker : String) (lease_ms : ℕ) (command_id : Option String)
      (most : Option ApprovalClass) (now : ℕ) (row : CommandRow)
      → IsKeyed w.commands
      → IsHeld id until w.commands
      → now < until
      → (claim_next worker lease_ms command_id most now w).0 ≡ some row
      → row.command_id ≢ id
  unfolding may_claim
  Held-not_claimed w worker lease_ms command_id most now row k (held_row, at_id, held) early e
        clash =
      elim (claim_next_lem worker lease_ms command_id most now w k) [
        | inl (nothing, _) ↦ absurd (ground (arith, e, ap (λ r. r.0) nothing))
        | inr (old, (here, may, _, given, _)) ↦
            let same : old.command_id ≡ row.command_id = ground (arith, e, given) in
            let twice : some old ≡ some held_row =
              sym (get_command_of_Has w.commands old k here)
              ∙ ap (λ i. get_command i w.commands) (same ∙ clash)
              ∙ at_id in
            let not_able = Held-not_claimable now until held_row early held in
            let able : is_claimable now old ≡ true = ground (arith, may) in
            let agree : old ≡ held_row = ground (arith, twice) in
            ground (arith, able, ap (is_claimable now) agree, not_able)
      ]

-- Who claims a command holds it until the end of the lease.
claimed-IsHeld :
    (worker : String) (lease_ms : ℕ) (command_id : Option String) (most : Option ApprovalClass)
    (now : ℕ) (w : World) (row : CommandRow)
    → IsKeyed w.commands
    → (claim_next worker lease_ms command_id most now w).0 ≡ some row
    → IsHeld row.command_id
        (now + lease_ms)
        (claim_next worker lease_ms command_id most now w).1.commands
unfolding claim_next
claimed-IsHeld worker lease_ms command_id most now w row k e =
    elim (Option-cases (select_claimable now command_id most w.commands)) [
      | inl nothing ↦ absurd (ground (arith, rw (nothing, claim_next) at e))
      | inr (old, found) ↦
          let (here, _) = select_claimable-eq-some now command_id most w.commands old found in
          let change =
            claimed now worker (now + lease_ms) (checkpoint_for old.command_id running now) in
          let read = rw (found, claim_next) at e in
          let changed =
            get_command-update_where old.command_id (is_id old.command_id) change (λ r. refl)
              w.commands old (get_command_of_Has w.commands old k here) in
          let same : change old ≡ row =
            some_injective _ _
              (sym (rw ((eq_iff old.command_id old.command_id).1 refl) at changed) ∙ read) in
          rw (found, claim_next)
            (
              row,
              ap (λ i. get_command i (update_where (is_id old.command_id) change w.commands))
                    (sym (ap (λ r. r.command_id) same))
                  ∙ read,
              subst (Held (now + lease_ms)) same (inr (refl, (now + lease_ms, refl, omega arith))),
            )
    ]

module _ (env : CommandEnv) (laws : IsEnv env.policy) where
  -- After a run from empty tables, once a command is claimed, no claim before the end of its lease gets
  -- a command of the same id, whatever calls are made in between, all before that end, if none extends
  -- the command's lease to an earlier end.
  pub lease_exclusive :
      (history : List (Operation × ℕ)) (worker : String) (lease_ms : ℕ) (command_id : Option String)
      (most : Option ApprovalClass) (now : ℕ) (row : CommandRow)
      → let w = run env history empty in
        let until = now + lease_ms in
        (claim_next worker lease_ms command_id most now w).0 ≡ some row
        → (calls : List (Operation × ℕ)) → All (IsDuring row.command_id until) calls
        → (worker' : String) (lease_ms' : ℕ) (command_id' : Option String)
          (most' : Option ApprovalClass) (now' : ℕ) (other : CommandRow)
        → now' < until
        → (claim_next worker' lease_ms' command_id' most' now'
            (run env calls (claim_next worker lease_ms command_id most now w).1)).0
          ≡ some other
        → other.command_id ≢ row.command_id
  lease_exclusive history worker lease_ms command_id most now row e calls during worker' lease_ms'
        command_id' most' now' other early e' =
      let w = run env history empty in
      let after = (claim_next worker lease_ms command_id most now w).1 in
      let k = run-IsKeyed env laws history in
      let move = claim_next-IsMove worker lease_ms command_id most now w k in
      let held = claimed-IsHeld worker lease_ms command_id most now w row k e in
      let (k', held') =
        run-IsHeld env row.command_id (now + lease_ms) laws calls after move.keyed during held in
      Held-not_claimed env row.command_id (now + lease_ms) (run env calls after) worker' lease_ms'
        command_id' most' now' other k' held' early e'
