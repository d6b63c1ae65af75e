-- ===== src/Approvals/Tests.antt =====
-- src/approvals/queue.ts: two approvals of a trace, one of which was used, and one that cannot be read.
use frontier_os.Prelude.{◌≡◌, refl, none, [], true}
use frontier_os.Policy.Ledger.{Events, newest}
use frontier_os.Policy.Samples.{env, tally}
use frontier_os.Policy.Tokens.{
  Env, approve_trace, candidate, consume_approval_token, grant_from_event, active_grants,
}
use frontier_os.Approvals.{
  active_grant, request_status, pending, approved, consumed, grant_summary, grant_summaries,
  index_active, consumed_traces,
}
use frontier_os.Approvals.Agreement.{grant_of, active_grant-candidate}

queue : Unit {0}
unfolding newest approve_trace candidate consume_approval_token grant_from_event active_grants
    active_grant request_status grant_summary grant_summaries index_active consumed_traces
queue = tt

-- Two approvals, for 10 ms each.
abbrev both : Events
both = (approve_trace env 6 "b" "t" 10 none (approve_trace env 5 "a" "t" 10 none []).1).1

abbrev one_used : Events
one_used = (consume_approval_token env 7 "t" true both).1

active_grant-candidate_example :
    grant_of (active_grant env 8 "t" one_used) ≡ candidate env 8 "t" one_used
active_grant-candidate_example = active_grant-candidate env 8 "t" one_used (λ g h. (_, refl))

statuses :
    (request_status env 8 "t" [] ≡ pending)
    × (request_status env 8 "t" both ≡ approved)
    × (request_status env 8 "t" one_used ≡ consumed)
unfolding queue
statuses = (refl, refl, refl)

-- A grant whose expiry cannot be read is shown for ever, and is never used.
abbrev undated : Env
undated = record { find = newest; parse_date = λ s. none; to_iso = tally }

undated_shown :
    (request_status undated 100 "t" (approve_trace undated 5 "a" "t" 10 none []).1 ≡ approved)
    × (candidate undated 100 "t" (approve_trace undated 5 "a" "t" 10 none []).1 ≡ none)
unfolding queue
undated_shown = (refl, refl)
