-- ===== src/Commands/Operations/Moves.antt =====
-- The life of a command in src/commands/store.ts: what may become of a row in one operation, and
-- the operations of workers and of cancelling as such moves.
use frontier_os.Prelude.{
  ℕ, ◌≤◌, ◌≡◌, refl, sym, ap, subst, String, false, Option, none, some, ◌⊎◌, inl, inr, List,
}
use frontier_os.Work.{ApprovalClass, class_0, class_1, class_2, class_3, rank}
use frontier_os.Swarm.Search.{Text}
use frontier_os.Policy.Ledger.{LedgerEvent, Events, Has, append_event}
use frontier_os.Policy.Tokens.{consumed_kind}
use frontier_os.Commands.{
  CommandStatus, queued, running, blocked_approval, blocked_policy, completed, failed, canceled,
  CommandRoute,
}
use frontier_os.Commands.Rows.{CommandRow, ActivityRow, World, update_where, is_id}
use frontier_os.Commands.Store.Rows.{IsKeyed, update_where-IsKeyed, Has-update_id}
use frontier_os.Commands.Events.{append_state_changed, append_terminal}
use frontier_os.Commands.Operations.{is_over}

-- The ledger only grows.
abbrev pub Grows : Events → Events → Type 0
Grows before after = (e : LedgerEvent) → Has before e → Has after e

-- A one-shot approval was consumed for the trace.
abbrev pub IsConsumed : Events → String → Type 0
IsConsumed events trace_id =
    (e : LedgerEvent) × Has events e × (e.kind ≡ consumed_kind) × (e.trace_id ≡ some trace_id)

-- What lets a command of the class run.
abbrev pub IsCleared : Events → String → ApprovalClass → Type 0
IsCleared events trace_id class = (rank class ≤ 1) ⊎ (class ≡ class_2) × IsConsumed events trace_id

-- What no operation changes of a row.
pub record Core : Type 0 where
  pub command_id : String
  pub trace_id : String
  pub intent : Text
  pub requested_at : ℕ
  pub approval_class : Option ApprovalClass
  pub route : Option CommandRoute

abbrev pub core : CommandRow → Core
core row = record {
  command_id = row.command_id;
  trace_id = row.trace_id;
  intent = row.intent;
  requested_at = row.requested_at;
  approval_class = row.approval_class;
  route = row.route;
}

-- What one operation makes of the status of a row, with the ledger that it leaves.
pub data Turn (events : Events) (old : CommandRow) : CommandStatus → Type 0 where
  stays : Turn events old old.status
  starts : (old.status ≡ queued) ⊎ (old.status ≡ running) → Turn events old running
  completes : Turn events old completed
  fails : Turn events old failed
  stops : is_over old.status ≡ false → Turn events old canceled
  unblocks :
      (r : CommandRoute)
      → old.status ≡ blocked_approval
      → old.route ≡ some r
      → IsCleared events old.trace_id r.approval_class
      → Turn events old queued

-- The first status of a command.
abbrev pub birth_status : ApprovalClass → CommandStatus
birth_status class_0 = queued
birth_status class_1 = queued
birth_status class_2 = blocked_approval
birth_status class_3 = blocked_policy

abbrev pub IsNew : CommandRow → Type 0
IsNew row =
    (r : CommandRoute) × (row.route ≡ some r)
    × (row.approval_class ≡ some r.approval_class)
    × (row.status ≡ birth_status r.approval_class)

abbrev pub Follows : Events → List CommandRow → CommandRow → Type 0
Follows events rows row =
    (old : CommandRow) × Has rows old × (core old ≡ core row) × Turn events old row.status

-- One operation: each row is new or follows an old one, ids stay different and the ledger grows.
pub record IsMove (before after : World) : Type 0 where
  pub rows :
      (row : CommandRow)
      → Has after.commands row
      → Follows after.events before.commands row ⊎ IsNew row
  pub keyed : IsKeyed after.commands
  pub grows : Grows before.events after.events

pub same-IsMove : (w : World) → IsKeyed w.commands → IsMove w w
same-IsMove w k = record { rows = λ row h. inl (row, h, refl, stays); keyed = k; grows = λ e h. h }

-- An operation on the activities alone.
pub activities-IsMove :
    (w : World) (activities : List ActivityRow)
    → IsKeyed w.commands
    → IsMove w (record w { activities = activities })
activities-IsMove w activities k = record {
  rows = λ row h. inl (row, h, refl, stays);
  keyed = k;
  grows = λ e h. h;
}

-- An operation that changes the row of one id.
pub change-IsMove :
    (w : World) (row : CommandRow) (change : CommandRow → CommandRow)
    (activities : List ActivityRow) (events : Events)
    → IsKeyed w.commands
    → Has w.commands row
    → ((r : CommandRow) → core r ≡ core (change r))
    → Turn events row (change row).status
    → Grows w.events events
    → IsMove w (record {
      commands = update_where (is_id row.command_id) change w.commands;
      activities = activities;
      events = events;
    })
change-IsMove w row change activities events k found frozen turn grows = record {
  rows = λ b h. elim (Has-update_id w.commands row b change k found h) [
    | inl e ↦ inl (
      row,
      found,
      subst (λ b. core row ≡ core b) e (frozen row),
      subst (λ b. Turn events row b.status) e turn,
    )
    | inr old ↦ inl (b, old, refl, stays)
  ];
  keyed = update_where-IsKeyed _ change (λ r. ap (λ c. c.command_id) (sym (frozen r))) w.commands k;
  grows = grows;
}

pub append_state_changed-Grows :
    (before : CommandRow) (after : Option CommandRow) (reason : String) (events : Events)
    → Grows events (append_state_changed before after reason events)
unfolding append_state_changed append_event
append_state_changed-Grows before none reason events e h = h
append_state_changed-Grows before (some after) reason events e h = inr h

pub append_terminal-Grows :
    (row : Option CommandRow) (events : Events) → Grows events (append_terminal row events)
unfolding append_terminal append_event
append_terminal-Grows none events e h = h
append_terminal-Grows (some row) events e h = inr h
