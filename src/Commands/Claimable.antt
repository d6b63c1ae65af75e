-- ===== src/Commands/Claimable.antt =====
-- The statements of src/commands/store.ts that look for a command to claim. Of rows of equal
-- `requested_at` the first inserted is taken.
use frontier_os.Prelude.{
  or_else, ℕ, String, Bool, true, false, ◌&&◌, Option, none, some, List, [], ◌∷◌, length, leb,
  if◌then◌else◌, select,
}
use frontier_os.Work.{ApprovalClass, class_1, rank}
use frontier_os.Commands.{queued, running}
use frontier_os.Commands.Rows.{CommandRow, is_id}

-- `lease_until IS NULL OR lease_until <= ?`, and with `IS NOT NULL AND`.
abbrev pub is_free : ℕ → Option ℕ → Bool
is_free now none = true
is_free now (some until) = leb until now

abbrev pub is_expired : ℕ → Option ℕ → Bool
is_expired now none = false
is_expired now (some until) = leb until now

-- The first condition of the claimable rows, which is also that of `countClaimableStmt`.
unfoldable pub is_claimable : ℕ → CommandRow → Bool
is_claimable now row = elim row.status [
  | queued ↦ is_free now row.lease_until
  | running ↦ is_expired now row.lease_until
  | _ ↦ false
]

abbrev matches_id : Option String → CommandRow → Bool
matches_id none row = true
matches_id (some id) row = is_id id row

-- `COALESCE(approval_class, 1) <= ?`
abbrev within_class : Option ApprovalClass → CommandRow → Bool
within_class none row = true
within_class (some most) row = leb (rank (or_else class_1 row.approval_class)) (rank most)

unfoldable pub may_claim : ℕ → Option String → Option ApprovalClass → CommandRow → Bool
unfolding is_claimable
may_claim now command_id most row =
    is_claimable now row && matches_id command_id row && within_class most row

-- `ORDER BY requested_at ASC LIMIT 1`
unfoldable pub earliest : List CommandRow → Option CommandRow
earliest [] = none
earliest (row ∷ rows) = elim (earliest rows) [
  | none ↦ some row
  | some other ↦ if leb row.requested_at other.requested_at then some row else some other
]

unfoldable pub select_claimable :
    ℕ → Option String → Option ApprovalClass → List CommandRow → Option CommandRow
unfolding earliest may_claim
select_claimable now command_id most rows = earliest (select (may_claim now command_id most) rows)

unfoldable pub count_claimable : ℕ → List CommandRow → ℕ
unfolding is_claimable
count_claimable now rows = length (select (is_claimable now) rows)
