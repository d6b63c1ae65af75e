-- ===== src/Commands/Operations/Additions.antt =====
-- src/commands/store.ts: adding a command after a move of commands.
use frontier_os.Prelude.{inl, inr}
use frontier_os.Policy.Ledger.{Events}
use frontier_os.Commands.{CommandStatus}
use frontier_os.Commands.Rows.{CommandRow, World}
use frontier_os.Commands.Store.Rows.{IsKeyed}
use frontier_os.Commands.Operations.Moves.{Grows, Turn, stays, unblocks, IsMove, same-IsMove}
use frontier_os.Commands.Operations.Moves.{starts, completes, fails, stops}
use frontier_os.Commands.Operations.Submitting.{IsAddition}

pub Turn-Grows :
    (before after : Events) (old : CommandRow) (status : CommandStatus)
    → Grows before after
    → Turn before old status
    → Turn after old status
Turn-Grows before after old _ g stays = stays
Turn-Grows before after old _ g (starts h) = starts h
Turn-Grows before after old _ g completes = completes
Turn-Grows before after old _ g fails = fails
Turn-Grows before after old _ g (stops h) = stops h
Turn-Grows before after old _ g (unblocks r b e (inl low)) = unblocks r b e (inl low)
Turn-Grows before after old _ g (unblocks r b e (inr (two, (x, h, kind, traced)))) =
    unblocks r b e (inr (two, (x, g x h, kind, traced)))

-- What is added after a move keeps it a move.
pub then_added :
    (first second third : World)
    → IsMove first second
    → IsAddition second third
    → IsMove first third
then_added first second third move addition = record {
  rows = λ row h. elim (addition.rows row h) [
    | inr new ↦ inr new
    | inl there ↦ elim (move.rows row there) [
      | inr new ↦ inr new
      | inl (old, found, frozen, turn) ↦ inl (
        old,
        found,
        frozen,
        Turn-Grows second.events third.events old row.status addition.grows turn,
      )
    ]
  ];
  keyed = addition.keyed move.keyed;
  grows = λ e h. addition.grows e (move.grows e h);
}

pub addition-IsMove : (w after : World) → IsKeyed w.commands → IsAddition w after → IsMove w after
addition-IsMove w after k = then_added w w after (same-IsMove w k)
