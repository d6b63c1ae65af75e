-- ===== src/Commands/Operations/Holding.antt =====
-- The leases of src/commands/store.ts: retrying and requeueing leave a command held.
use frontier_os.Prelude.{ℕ, String, inl, inr, Option-cases}
use frontier_os.Commands.{
  CommandStatus, queued, running, blocked_approval, blocked_policy, completed, failed, canceled,
}
use frontier_os.Commands.Explain.{CommandEnv}
use frontier_os.Commands.Rows.{CommandRow, World, get_command}
use frontier_os.Commands.Operations.{Reply, done, threw, cancel}
use frontier_os.Commands.Submissions.{
  linked, resubmit, retry_from, retry, after_cancel, requeue_from, requeue,
}
use frontier_os.Commands.Operations.Leases.{IsHeld, cancel-IsHeld, added-IsHeld}
use frontier_os.Commands.Operations.Changes.{submit-IsExtended}

module _ (env : CommandEnv) (id : String) (until : ℕ) where
  resubmit-IsHeld :
      (action new_id fresh_trace : String) (source : CommandRow) (actor : String) (now : ℕ)
      (w : World)
      → IsHeld id until w.commands
      → IsHeld id until (resubmit env action new_id fresh_trace source actor now w).1.commands
  resubmit-IsHeld action new_id fresh_trace source actor now w h =
      linked_commands action source actor _
        (added-IsHeld id until w.commands _ (submit-IsExtended env new_id fresh_trace _ now w) h)
    where
      linked_commands :
          (action : String) (source : CommandRow) (actor : String) (r : Reply CommandRow × World)
          → IsHeld id until r.1.commands
          → IsHeld id until (linked env action source actor r).1.commands
      linked_commands action source actor (threw e, w) h = h
      linked_commands action source actor (done next, w) h = h

  retry_from-IsHeld :
      (status : CommandStatus) (next : Reply CommandRow × World) (w : World)
      → IsHeld id until next.1.commands
      → IsHeld id until w.commands
      → IsHeld id until (retry_from env status next w).1.commands
  retry_from-IsHeld failed next w m h = m
  retry_from-IsHeld canceled next w m h = m
  retry_from-IsHeld queued next w m h = h
  retry_from-IsHeld running next w m h = h
  retry_from-IsHeld blocked_approval next w m h = h
  retry_from-IsHeld blocked_policy next w m h = h
  retry_from-IsHeld completed next w m h = h

  pub retry-IsHeld :
      (new_id fresh_trace other actor : String) (now : ℕ) (w : World)
      → IsHeld id until w.commands
      → IsHeld id until (retry env new_id fresh_trace other actor now w).1.commands
  unfolding retry
  retry-IsHeld new_id fresh_trace other actor now w h =
      elim (Option-cases (get_command other w.commands)) [
        | inl nothing ↦ rw (nothing, retry) h
        | inr (source, found) ↦
            rw (found, retry)
              (retry_from-IsHeld source.status _ w
                (resubmit-IsHeld "retry" new_id fresh_trace source actor now w h) h)
      ]

  after_cancel-IsHeld :
      (new_id fresh_trace actor : String) (now : ℕ) (r : Reply CommandRow × World)
      → IsHeld id until r.1.commands
      → IsHeld id until (after_cancel env new_id fresh_trace actor now r).1.commands
  after_cancel-IsHeld new_id fresh_trace actor now (threw e, w) h = h
  after_cancel-IsHeld new_id fresh_trace actor now (done source, w) h =
      resubmit-IsHeld "requeue" new_id fresh_trace source actor now w h

  requeue_from-IsHeld :
      (status : CommandStatus) (next : Reply CommandRow × World) (w : World)
      → IsHeld id until next.1.commands
      → IsHeld id until w.commands
      → IsHeld id until (requeue_from env status next w).1.commands
  requeue_from-IsHeld queued next w m h = m
  requeue_from-IsHeld running next w m h = m
  requeue_from-IsHeld blocked_approval next w m h = m
  requeue_from-IsHeld failed next w m h = h
  requeue_from-IsHeld canceled next w m h = h
  requeue_from-IsHeld blocked_policy next w m h = h
  requeue_from-IsHeld completed next w m h = h

  pub requeue-IsHeld :
      (new_id fresh_trace other actor : String) (now : ℕ) (w : World)
      → IsHeld id until w.commands
      → IsHeld id until (requeue env new_id fresh_trace other actor now w).1.commands
  unfolding requeue
  requeue-IsHeld new_id fresh_trace other actor now w h =
      elim (Option-cases (get_command other w.commands)) [
        | inl nothing ↦ rw (nothing, requeue) h
        | inr (source, found) ↦
            rw (found, requeue)
              (requeue_from-IsHeld source.status _ w
                (after_cancel-IsHeld new_id fresh_trace actor now (cancel other actor now w)
                  (cancel-IsHeld id until other actor now w h))
                h)
      ]
