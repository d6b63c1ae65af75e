-- ===== src/Commands/Operations/Lifecycle.antt =====
-- src/commands/store.ts: every operation of the store is a move of commands, and what therefore holds
-- of all rows after any run from empty tables.
use frontier_os.Prelude.{
  ℕ, ◌≡◌, refl, sym, ap, subst, ◌∙◌, String, some, inl, inr, List, [], ◌∷◌, ◌++◌, arith,
}
use frontier_os.Work.{ApprovalClass, class_0, class_1, class_2, class_3}
use frontier_os.Policy.Ledger.{Events, Has}
use frontier_os.Policy.OneShot.{IsEnv}
use frontier_os.Commands.{
  CommandStatus, queued, running, blocked_approval, blocked_policy, completed, failed, canceled,
  CommandRoute,
}
use frontier_os.Commands.Explain.{CommandEnv}
use frontier_os.Commands.Rows.{CommandRow, World}
use frontier_os.Commands.Store.Rows.{IsKeyed}
use frontier_os.Commands.Operations.Moves.{
  Grows, IsCleared, Turn, stays, starts, completes, fails, stops, unblocks, birth_status, IsNew,
  Follows, IsMove,
}
use frontier_os.Commands.Operations.Working.{
  claim_next-IsMove, extend_lease-IsMove, finish_activity-IsMove, finish_command-IsMove,
  cancel-IsMove,
}
use frontier_os.Commands.Operations.Submitting.{submit-IsAddition}
use frontier_os.Commands.Operations.Additions.{addition-IsMove}
use frontier_os.Commands.Operations.Resuming.{resume-IsMove}
use frontier_os.Commands.Operations.Retrying.{retry-IsMove, requeue-IsMove}
use frontier_os.Commands.Operations.Runs.{
  submits, claims, extends, finishes_activity, finishes, cancels, resumes, retries, requeues,
  appends, Operation, perform, run, empty,
}

appended : (new events : Events) → Grows events (new ++ events)
appended [] events e h = h
appended (x ∷ new) events e h = inr (appended new events e h)

-- What the status of a row says of its class and of the ledger.
abbrev pub Permits : Events → String → ApprovalClass → CommandStatus → Type 0
Permits events trace_id class queued = IsCleared events trace_id class
Permits events trace_id class running = IsCleared events trace_id class
Permits events trace_id class blocked_approval = class ≡ class_2
Permits events trace_id class blocked_policy = class ≡ class_3
Permits events trace_id class _ = Unit

pub record IsSound (events : Events) (row : CommandRow) : Type 0 where
  pub route : CommandRoute
  pub routed : row.route ≡ some route
  pub classified : row.approval_class ≡ some route.approval_class
  pub permitted : Permits events row.trace_id route.approval_class row.status

IsCleared-Grows :
    (before after : Events) (trace_id : String) (class : ApprovalClass)
    → Grows before after
    → IsCleared before trace_id class
    → IsCleared after trace_id class
IsCleared-Grows before after trace_id class g (inl low) = inl low
IsCleared-Grows before after trace_id class g (inr (two, (e, h, kind, traced))) =
    inr (two, (e, g e h, kind, traced))

Permits-Grows :
    (before after : Events) (trace_id : String) (class : ApprovalClass) (status : CommandStatus)
    → Grows before after
    → Permits before trace_id class status
    → Permits after trace_id class status
Permits-Grows before after trace_id class queued g p =
    IsCleared-Grows before after trace_id class g p
Permits-Grows before after trace_id class running g p =
    IsCleared-Grows before after trace_id class g p
Permits-Grows before after trace_id class blocked_approval g p = p
Permits-Grows before after trace_id class blocked_policy g p = p
Permits-Grows before after trace_id class completed g p = p
Permits-Grows before after trace_id class failed g p = p
Permits-Grows before after trace_id class canceled g p = p

Turn-Permits :
    (before after : Events) (old : CommandRow) (status : CommandStatus) (r : CommandRoute)
    → Grows before after
    → old.route ≡ some r
    → Permits before old.trace_id r.approval_class old.status
    → Turn after old status
    → Permits after old.trace_id r.approval_class status
Turn-Permits before after old _ r g routed p stays =
    Permits-Grows before after old.trace_id r.approval_class old.status g p
Turn-Permits before after old _ r g routed p (starts (inl was)) =
    IsCleared-Grows before after old.trace_id r.approval_class g
      (subst (Permits before old.trace_id r.approval_class) was p)
Turn-Permits before after old _ r g routed p (starts (inr was)) =
    IsCleared-Grows before after old.trace_id r.approval_class g
      (subst (Permits before old.trace_id r.approval_class) was p)
Turn-Permits before after old _ r g routed p completes = tt
Turn-Permits before after old _ r g routed p fails = tt
Turn-Permits before after old _ r g routed p (stops _) = tt
Turn-Permits before after old _ r g routed p (unblocks s _ found cleared) =
    let same : s ≡ r = ground (arith, found, routed) in
    subst (λ (r : CommandRoute). IsCleared after old.trace_id r.approval_class) same cleared

birth-Permits :
    (events : Events) (trace_id : String) (class : ApprovalClass)
    → Permits events trace_id class (birth_status class)
birth-Permits events trace_id class_0 = inl (omega arith)
birth-Permits events trace_id class_1 = inl (omega arith)
birth-Permits events trace_id class_2 = refl
birth-Permits events trace_id class_3 = refl

new-IsSound : (events : Events) (row : CommandRow) → IsNew row → IsSound events row
new-IsSound events row (r, routed, classified, born) = record {
  route = r;
  routed = routed;
  classified = classified;
  permitted =
      subst (Permits events row.trace_id r.approval_class) (sym born)
        (birth-Permits events row.trace_id r.approval_class);
}

abbrev pub Sound : World → Type 0
Sound w = (row : CommandRow) → Has w.commands row → IsSound w.events row

Follows-IsSound :
    (before after : World) (row : CommandRow)
    → Sound before
    → Grows before.events after.events
    → Follows after.events before.commands row
    → IsSound after.events row
Follows-IsSound before after row sound g (old, found, frozen, turn) =
    let was = sound old found in
    record {
      route = was.route;
      routed = sym (ap (λ c. c.route) frozen) ∙ was.routed;
      classified = sym (ap (λ c. c.approval_class) frozen) ∙ was.classified;
      permitted =
          subst (λ trace. Permits after.events trace was.route.approval_class row.status)
            (ap (λ c. c.trace_id) frozen)
            (Turn-Permits before.events after.events old row.status was.route g was.routed
              was.permitted turn);
    }

move-Sound : (before after : World) → IsMove before after → Sound before → Sound after
move-Sound before after move sound row h = elim (move.rows row h) [
  | inl follows ↦ Follows-IsSound before after row sound move.grows follows
  | inr new ↦ new-IsSound after.events row new
]

module _ (env : CommandEnv) (laws : IsEnv env.policy) where
  -- On tables with different command ids every operation is a move: each row afterwards is new, with
  -- the first status of its class, or keeps the core of an old row and takes an allowed turn of its
  -- status; ids stay different and the ledger only grows.
  pub perform-IsMove :
      (operation : Operation) (now : ℕ) (w : World)
      → IsKeyed w.commands
      → IsMove w (perform env operation now w)
  unfolding perform
  perform-IsMove (submits id trace input) now w k =
      addition-IsMove w _ k (submit-IsAddition env id trace input now w)
  perform-IsMove (claims worker lease_ms id most) now w k =
      claim_next-IsMove worker lease_ms id most now w k
  perform-IsMove (extends id worker lease_ms) now w k =
      extend_lease-IsMove id worker lease_ms now w k
  perform-IsMove (finishes_activity id status output) now w k =
      finish_activity-IsMove id status output now w k
  perform-IsMove (finishes id succeeded result error) now w k =
      finish_command-IsMove id succeeded result error now w k
  perform-IsMove (cancels id actor) now w k = cancel-IsMove id actor now w k
  perform-IsMove (resumes id trace actor) now w k = resume-IsMove env laws id trace actor now w k
  perform-IsMove (retries new_id trace id actor) now w k =
      retry-IsMove env new_id trace id actor now w k
  perform-IsMove (requeues new_id trace id actor) now w k =
      requeue-IsMove env new_id trace id actor now w k
  perform-IsMove (appends events) now w k = record {
    rows = λ row h. inl (row, h, refl, stays);
    keyed = k;
    grows = appended events w.events;
  }

  run_lem :
      (calls : List (Operation × ℕ)) (w : World)
      → IsKeyed w.commands
      → Sound w
      → IsKeyed (run env calls w).commands × Sound (run env calls w)
  unfolding run
  run_lem [] w k sound = (k, sound)
  run_lem ((operation, now) ∷ calls) w k sound =
      let move = perform-IsMove operation now w k in
      run_lem calls (perform env operation now w) move.keyed (move-Sound w _ move sound)

  -- After any run from empty tables each command keeps the class of its route; if it is queued or
  -- running, the class is at most 1, or it is 2 and a one-shot approval was consumed for its trace; if
  -- it waits for an approval, the class is 2, and if the policy blocks it, the class is 3.
  pub run-IsSound :
      (calls : List (Operation × ℕ)) (row : CommandRow)
      → Has (run env calls empty).commands row
      → IsSound (run env calls empty).events row
  run-IsSound calls = (run_lem calls empty tt (λ row h. elim h [ ])).1

  pub run-IsKeyed : (calls : List (Operation × ℕ)) → IsKeyed (run env calls empty).commands
  run-IsKeyed calls = (run_lem calls empty tt (λ row h. elim h [ ])).0
