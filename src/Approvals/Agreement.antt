-- ===== src/Approvals/Agreement.antt =====
-- src/approvals/queue.ts and src/policy/evaluator.ts: the queue shows the token that is used.
use frontier_os.Prelude.{
  ℕ, ◌≡◌, refl, sym, ap, ◌∙◌, String, Bool, not, ◌&&◌, Option, none, some, inl, inr, List, [], ◌∷◌,
  map, str_eq, eq_iff, arith, Bool-cases, Option-cases, find_first, select,
}
use frontier_os.Prelude.Dict.{
  Dict, lookup, insert, has, contains, lookup-insert, lookup_of_has, lookup-eq-none,
}
use frontier_os.Policy.{ApprovalGrant}
use frontier_os.Policy.Ledger.{Events, Has}
use frontier_os.Policy.Tokens.{
  Env, granted_kind, grant_from_event, grants_of, is_active, active_grants, consumed_token_ids,
  candidate,
}
use frontier_os.Approvals.{
  GrantSummary, is_expired, grant_summary, summaries_of, mark, grant_summaries, can_use,
  index_active, active_grant,
}

abbrev or_found : Option GrantSummary → Option GrantSummary → Option GrantSummary
or_found none later = later
or_found (some summary) later = some summary

abbrev suits : String → GrantSummary → Bool
suits trace_id summary = can_use summary && str_eq summary.grant.trace_id trace_id

or_found_nothing : (first : Option GrantSummary) → first ≡ or_found first none
or_found_nothing none = refl
or_found_nothing (some summary) = refl

lookup-index_active :
    (trace_id : String) (found : Dict GrantSummary) (summaries : List GrantSummary)
    → lookup trace_id (index_active found summaries)
      ≡ or_found (lookup trace_id found) (find_first (suits trace_id) summaries)
unfolding index_active
lookup-index_active trace_id found [] = or_found_nothing (lookup trace_id found)
lookup-index_active trace_id found (summary ∷ summaries) = elim (Bool-cases (can_use summary)) [
  | inr useless ↦ rw useless (lookup-index_active trace_id found summaries)
  | inl usable ↦
      let key = summary.grant.trace_id in
      elim (Bool-cases (has key found)) [
        | inl known ↦ elim (Bool-cases (str_eq key trace_id)) [
          | inl same ↦
              let (first, there) = lookup_of_has key found known in
              let there' : lookup trace_id found ≡ some first =
                ap (λ k. lookup k found) (sym ((eq_iff _ _).0 same)) ∙ there in
              rw (usable, known, same, there')
                (lookup-index_active trace_id found summaries ∙ rw there' refl)
          | inr other ↦ rw (usable, known, other) (lookup-index_active trace_id found summaries)
        ]
        | inr fresh ↦
            let added = lookup-insert key trace_id summary found in
            let rest = lookup-index_active trace_id (insert key summary found) summaries in
            elim (Bool-cases (str_eq key trace_id)) [
              | inl same ↦
                  let nothing : lookup trace_id found ≡ none =
                    ap (λ k. lookup k found) (sym ((eq_iff _ _).0 same))
                    ∙ lookup-eq-none key found fresh in
                  let now_there = rw same at added in
                  rw (usable, fresh, same, nothing) (rest ∙ rw now_there refl)
              | inr other ↦
                  let unchanged = rw other at added in
                  rw (usable, fresh, other) (rest ∙ rw unchanged refl)
            ]
      ]
]

abbrev pub grant_of : Option GrantSummary → Option ApprovalGrant
grant_of none = none
grant_of (some summary) = some summary.grant

-- The expiry of every grant can be read.
abbrev pub IsDated : Env → Events → Type 0
IsDated env events =
    (g : ApprovalGrant)
    → Has (grants_of events) g
    → (t : ℕ) × (env.parse_date g.expires_at ≡ some t)

expired_lem :
    (env : Env) (now : ℕ) (grant : ApprovalGrant) (t : ℕ)
    → env.parse_date grant.expires_at ≡ some t
    → is_expired env now grant ≡ not (is_active env now grant)
unfolding is_expired is_active
expired_lem env now grant t parsed = rw (parsed, is_expired, is_active) (ground arith)

module _ (env : Env) (now : ℕ) (trace_id : String) (used : List String) where
  first_agrees :
      (rows : Events)
      → IsDated env rows
      → grant_of (find_first (suits trace_id) (map (mark env now used) (summaries_of env now rows)))
        ≡ find_first
            (λ g. not (contains used g.token_id))
            (select (is_active env now) (select (λ g. str_eq g.trace_id trace_id) (grants_of rows)))
  unfolding summaries_of grant_summary grants_of
  first_agrees [] dated = refl
  first_agrees (row ∷ rows) dated = elim (Option-cases (grant_from_event row)) [
    | inl nothing ↦
        rw (nothing, summaries_of, grants_of)
          (first_agrees rows (λ g h. dated g (rw (nothing, grants_of) h)))
    | inr (grant, read) ↦
        let (t, parsed) = dated grant (rw (read, grants_of) (inl refl)) in
        let rest = first_agrees rows (λ g h. dated g (rw (read, grants_of) (inr h))) in
        let opposite = expired_lem env now grant t parsed in
        rw (read, summaries_of, grants_of)
          (elim (Bool-cases (str_eq grant.trace_id trace_id)) [
            | inr other ↦ elim (Bool-cases (is_active env now grant)) [
              | inl active ↦ elim (Bool-cases (contains used grant.token_id)) [
                | inl gone ↦ rw (other, opposite, active, gone) rest
                | inr fresh ↦ rw (other, opposite, active, fresh) rest
              ]
              | inr expired ↦ rw (other, opposite, expired) rest
            ]
            | inl mine ↦ elim (Bool-cases (is_active env now grant)) [
              | inr expired ↦ rw (mine, opposite, expired) rest
              | inl active ↦ elim (Bool-cases (contains used grant.token_id)) [
                | inl gone ↦ rw (mine, opposite, active, gone) rest
                | inr fresh ↦ rw (mine, opposite, active, fresh) refl
              ]
            ]
          ])
  ]

-- Where the expiry of each grant that the ledger answers with can be read, the grant that the queue
-- shows as active for a trace is the one that a consumption for the trace would use at that time, and
-- it shows none exactly where there is none to use.
pub active_grant-candidate :
    (env : Env) (now : ℕ) (trace_id : String) (events : Events)
    → IsDated env (env.find events granted_kind 1000)
    → grant_of (active_grant env now trace_id events) ≡ candidate env now trace_id events
unfolding active_grant grant_summaries candidate active_grants
active_grant-candidate env now trace_id events dated =
    let used = consumed_token_ids env events in
    ap grant_of (lookup-index_active trace_id [] (grant_summaries env now events))
    ∙ first_agrees env now trace_id used (env.find events granted_kind 1000) dated
