-- ===== src/Commands/Operations/Runs.antt =====
-- src/commands/store.ts: the calls of the store as data, and runs of them.
use frontier_os.Prelude.{ℕ, String, Bool, Option, List, [], ◌∷◌, ◌++◌}
use frontier_os.Work.{ApprovalClass}
use frontier_os.Policy.Ledger.{Events}
use frontier_os.Commands.{ActivityStatus}
use frontier_os.Commands.Explain.{CommandEnv, SubmitInput}
use frontier_os.Commands.Rows.{CommandResult, World}
use frontier_os.Commands.Submissions.{submit, retry, requeue}
use frontier_os.Commands.Operations.{
  claim_next, extend_lease, finish_activity, finish_command, cancel,
}
use frontier_os.Commands.Resumption.{resume}
use frontier_os.Commands.Operations.Working.{ending}

-- A call of the store, with its arguments; or what others append to the ledger.
pub data Operation : Type 0 where
  submits : String → String → SubmitInput → Operation
  claims : String → ℕ → Option String → Option ApprovalClass → Operation
  extends : String → String → ℕ → Operation
  finishes_activity : String → ActivityStatus → String → Operation
  finishes : String → Bool → CommandResult → Option String → Operation
  cancels : String → String → Operation
  resumes : String → Option String → Option String → Operation
  retries : String → String → String → String → Operation
  requeues : String → String → String → String → Operation
  appends : Events → Operation

unfoldable pub perform : CommandEnv → Operation → ℕ → World → World
unfolding submit claim_next extend_lease finish_activity finish_command cancel resume retry requeue
perform env (submits id trace input) now w = (submit env id trace input now w).1
perform env (claims worker lease_ms id most) now w = (claim_next worker lease_ms id most now w).1
perform env (extends id worker lease_ms) now w = (extend_lease id worker lease_ms now w).1
perform env (finishes_activity id status output) now w = (finish_activity id status output now w).1
perform env (finishes id succeeded result error) now w =
    (finish_command id (ending succeeded) result error now w).1
perform env (cancels id actor) now w = (cancel id actor now w).1
perform env (resumes id trace actor) now w = (resume env id trace actor now w).1
perform env (retries new_id trace id actor) now w = (retry env new_id trace id actor now w).1
perform env (requeues new_id trace id actor) now w = (requeue env new_id trace id actor now w).1
perform env (appends events) now w = record w { events = events ++ w.events }

-- A run of the store, each call with the time at which it is made.
unfoldable pub run : CommandEnv → List (Operation × ℕ) → World → World
unfolding perform
run env [] w = w
run env ((operation, now) ∷ calls) w = run env calls (perform env operation now w)

abbrev pub empty : World
empty = record { commands = []; activities = []; events = [] }
