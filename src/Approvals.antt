-- ===== src/Approvals.antt =====
-- src/approvals/queue.ts: which grants the queue of approvals shows for a trace, and the status of a
-- request from it. The reading of the requests themselves is not modelled.
pub mod Agreement
mod Tests
use frontier_os.Prelude.{
  ℕ, String, Bool, true, false, not, ◌&&◌, Option, none, some, List, [], ◌∷◌, map, leb, str_eq,
  if◌then◌else◌,
}
use frontier_os.Prelude.Dict.{Dict, lookup, insert, has, contains}
use frontier_os.Policy.{ApprovalGrant}
use frontier_os.Policy.Ledger.{LedgerEvent, Events}
use frontier_os.Policy.Tokens.{Env, granted_kind, grant_from_event, consumed_token_ids}

pub data RequestStatus : Type 0 where
  pending approved consumed : RequestStatus

pub record GrantSummary : Type 0 where
  pub grant : ApprovalGrant
  pub expired : Bool
  pub consumed : Bool

module _ (env : Env) (now : ℕ) where
  -- `Date.parse(expiresAt) <= nowMs`, false for NaN.
  unfoldable pub is_expired : ApprovalGrant → Bool
  is_expired grant = elim (env.parse_date grant.expires_at) [
    | none ↦ false
    | some expires ↦ leb expires now
  ]

  -- `grantSummary`: its tests of the payload are those of `grantFromEvent`.
  unfoldable pub grant_summary : LedgerEvent → Option GrantSummary
  unfolding is_expired
  grant_summary event = elim (grant_from_event event) [
    | none ↦ none
    | some grant ↦ some (record { grant = grant; expired = is_expired grant; consumed = false })
  ]

  unfoldable pub summaries_of : Events → List GrantSummary
  unfolding grant_summary
  summaries_of [] = []
  summaries_of (event ∷ events) = elim (grant_summary event) [
    | none ↦ summaries_of events
    | some summary ↦ summary ∷ summaries_of events
  ]

  abbrev pub mark : List String → GrantSummary → GrantSummary
  mark used summary = record summary { consumed = contains used summary.grant.token_id }

  unfoldable pub grant_summaries : Events → List GrantSummary
  unfolding summaries_of consumed_token_ids
  grant_summaries events =
      map (mark (consumed_token_ids env events)) (summaries_of (env.find events granted_kind 1000))

abbrev pub can_use : GrantSummary → Bool
can_use summary = not summary.expired && not summary.consumed

-- `activeGrantByTrace`: the first that can be used, for each trace.
unfoldable pub index_active : Dict GrantSummary → List GrantSummary → Dict GrantSummary
index_active found [] = found
index_active found (summary ∷ summaries) =
    let next =
      if can_use summary && not (has summary.grant.trace_id found)
      then insert summary.grant.trace_id summary found
      else found in
    index_active next summaries

-- `consumedTraceIds`
unfoldable pub consumed_traces : List GrantSummary → List String
consumed_traces [] = []
consumed_traces (summary ∷ summaries) =
    let rest = consumed_traces summaries in
    if summary.consumed then summary.grant.trace_id ∷ rest else rest

module _ (env : Env) (now : ℕ) (trace_id : String) where
  unfoldable pub active_grant : Events → Option GrantSummary
  unfolding grant_summaries index_active
  active_grant events = lookup trace_id (index_active [] (grant_summaries env now events))

  abbrev with_grant : Option GrantSummary → RequestStatus
  with_grant none = pending
  with_grant (some summary) = approved

  unfoldable pub request_status : Events → RequestStatus
  unfolding active_grant consumed_traces
  request_status events =
      if contains (consumed_traces (grant_summaries env now events)) trace_id
      then consumed
      else with_grant (active_grant events)
