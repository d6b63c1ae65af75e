-- ===== src/Commands/Operations/Retrying.antt =====
-- src/commands/store.ts: retrying and requeueing, as moves of commands.
use frontier_os.Prelude.{ℕ, String, inl, inr, Option-cases}
use frontier_os.Commands.{
  CommandStatus, queued, running, blocked_approval, blocked_policy, completed, failed, canceled,
}
use frontier_os.Commands.Explain.{CommandEnv}
use frontier_os.Commands.Rows.{CommandRow, World, get_command}
use frontier_os.Commands.Store.Rows.{IsKeyed}
use frontier_os.Commands.Operations.{Reply, done, threw, cancel}
use frontier_os.Commands.Submissions.{
  resubmit, retry, requeue, retry_from, requeue_from, after_cancel, linked,
}
use frontier_os.Commands.Operations.Moves.{IsMove, same-IsMove}
use frontier_os.Commands.Operations.Working.{cancel-IsMove}
use frontier_os.Commands.Operations.Submitting.{
  append_linked-Grows, IsAddition, same-IsAddition, submit-IsAddition,
}
use frontier_os.Commands.Operations.Additions.{then_added, addition-IsMove}

module _ (env : CommandEnv) where
  linked-IsAddition :
      (action : String) (source : CommandRow) (actor : String) (w : World)
      (r : Reply CommandRow × World)
      → IsAddition w r.1
      → IsAddition w (linked env action source actor r).1
  linked-IsAddition action source actor w (threw e, after) a = a
  linked-IsAddition action source actor w (done next, after) a = record {
    rows = a.rows;
    keyed = a.keyed;
    grows = λ e h. append_linked-Grows action source next actor after.events e (a.grows e h);
  }

  resubmit-IsAddition :
      (action new_id fresh_trace : String) (source : CommandRow) (actor : String) (now : ℕ)
      (w : World)
      → IsAddition w (resubmit env action new_id fresh_trace source actor now w).1
  resubmit-IsAddition action new_id fresh_trace source actor now w =
      linked-IsAddition action source actor w _ (submit-IsAddition env new_id fresh_trace _ now w)

  retry_from-IsMove :
      (status : CommandStatus) (next : Reply CommandRow × World) (w : World)
      → IsMove w next.1
      → IsKeyed w.commands
      → IsMove w (retry_from env status next w).1
  retry_from-IsMove failed next w m k = m
  retry_from-IsMove canceled next w m k = m
  retry_from-IsMove queued next w m k = same-IsMove w k
  retry_from-IsMove running next w m k = same-IsMove w k
  retry_from-IsMove blocked_approval next w m k = same-IsMove w k
  retry_from-IsMove blocked_policy next w m k = same-IsMove w k
  retry_from-IsMove completed next w m k = same-IsMove w k

  pub retry-IsMove :
      (new_id fresh_trace id actor : String) (now : ℕ) (w : World)
      → IsKeyed w.commands
      → IsMove w (retry env new_id fresh_trace id actor now w).1
  unfolding retry
  retry-IsMove new_id fresh_trace id actor now w k =
      elim (Option-cases (get_command id w.commands)) [
        | inl nothing ↦ rw (nothing, retry) (same-IsMove w k)
        | inr (source, found) ↦
            rw (found, retry)
              (retry_from-IsMove source.status _ w
                (addition-IsMove w _ k
                  (resubmit-IsAddition "retry" new_id fresh_trace source actor now w))
                k)
      ]

  requeue_from-IsMove :
      (status : CommandStatus) (next : Reply CommandRow × World) (w : World)
      → IsMove w next.1
      → IsKeyed w.commands
      → IsMove w (requeue_from env status next w).1
  requeue_from-IsMove queued next w m k = m
  requeue_from-IsMove running next w m k = m
  requeue_from-IsMove blocked_approval next w m k = m
  requeue_from-IsMove failed next w m k = same-IsMove w k
  requeue_from-IsMove canceled next w m k = same-IsMove w k
  requeue_from-IsMove blocked_policy next w m k = same-IsMove w k
  requeue_from-IsMove completed next w m k = same-IsMove w k

  after_cancel-IsAddition :
      (new_id fresh_trace actor : String) (now : ℕ) (r : Reply CommandRow × World)
      → IsAddition r.1 (after_cancel env new_id fresh_trace actor now r).1
  after_cancel-IsAddition new_id fresh_trace actor now (threw e, w) = same-IsAddition w
  after_cancel-IsAddition new_id fresh_trace actor now (done source, w) =
      resubmit-IsAddition "requeue" new_id fresh_trace source actor now w

  pub requeue-IsMove :
      (new_id fresh_trace id actor : String) (now : ℕ) (w : World)
      → IsKeyed w.commands
      → IsMove w (requeue env new_id fresh_trace id actor now w).1
  unfolding requeue
  requeue-IsMove new_id fresh_trace id actor now w k =
      elim (Option-cases (get_command id w.commands)) [
        | inl nothing ↦ rw (nothing, requeue) (same-IsMove w k)
        | inr (source, found) ↦
            rw (found, requeue)
              (requeue_from-IsMove source.status _ w
                (then_added w _ _ (cancel-IsMove id actor now w k)
                  (after_cancel-IsAddition new_id fresh_trace actor now (cancel id actor now w)))
                k)
      ]
