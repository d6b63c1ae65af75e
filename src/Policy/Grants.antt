-- ===== src/Policy/Grants.antt =====
-- src/policy/evaluator.ts: an approval that has been given can be used until it expires.
use frontier_os.Prelude.{
  ℕ, ◌+◌, ◌≤◌, ◌<◌, ◌≡◌, refl, String, Bool, true, false, not, Option, some, str_eq, eq_iff, arith,
  length, select, inl,
}
use frontier_os.Prelude.Dict.{contains}
use frontier_os.Policy.{ApprovalGrant, ApprovalConsumption}
use frontier_os.Policy.Ledger.{LedgerEvent, Events, Has, is_kind}
use frontier_os.Policy.Tokens.{
  Env, consumed, grant_payload, granted_kind, grants_of, grant_from_event, is_active, active_grants,
  consumed_token_ids, candidate, consume_approval_token, approve_trace, append_policy_event,
  consumption, consumption_payload, consumed_kind,
}
use frontier_os.Policy.Search.{find_first_of_Has, Has-select_of_test, Has-grants_of_event}
use frontier_os.Policy.OneShot.{IsEnv}

module _ (env : Env) (laws : IsEnv env) where
  -- After an approval of a trace the trace's next consumption before the expiry succeeds, on every
  -- ledger that has grown from the one then left, if the new token is not recorded as consumed
  -- there and the ledger holds no more grants than one query returns, 1000.
  pub approve-consume :
      (now : ℕ) (uuid trace_id : String) (ttl_ms : ℕ) (actor : Option String)
      (events later : Events)
      → ((e : LedgerEvent)
          → Has (approve_trace env now uuid trace_id ttl_ms actor events).1 e
          → Has later e)
      → length (select (is_kind granted_kind) later) ≤ 1000
      → contains
          (consumed_token_ids env later)
          (approve_trace env now uuid trace_id ttl_ms actor events).0.token_id
        ≡ false
      → (now' : ℕ) → now' < now + ttl_ms
      → (emit_denied : Bool)
      → (c : ApprovalConsumption) × (after : Events) × (consume_approval_token env now' trace_id
            emit_denied later
          ≡ (consumed c, after))
  unfolding approve_trace candidate append_policy_event consume_approval_token grant_from_event
  approve-consume now uuid trace_id ttl_ms actor events later grown few unused now' early
        emit_denied =
      let grant = (approve_trace env now uuid trace_id ttl_ms actor events).0 in
      let event : LedgerEvent = record {
        session_id = "policy-core";
        kind = granted_kind;
        actor = some "policy";
        trace_id = some trace_id;
        payload = grant_payload grant;
      } in
      let row =
        laws.query.complete later granted_kind 1000 event few (grown event (inl refl)) refl in
      let rows = env.find later granted_kind 1000 in
      let listed = Has-grants_of_event rows event grant row refl in
      let mine = λ (g : ApprovalGrant). str_eq g.trace_id trace_id in
      let in_trace = Has-select_of_test mine (grants_of rows) grant listed ((eq_iff _ _).1 refl) in
      let active : is_active env now' grant ≡ true =
        unfold is_active in rw (laws.parse-iso (now + ttl_ms), is_active) (ground arith) in
      let in_active =
        Has-select_of_test (is_active env now') (select mine (grants_of rows)) grant in_trace
          active in
      let (chosen, found) =
        find_first_of_Has
          (λ (g : ApprovalGrant). not (contains (consumed_token_ids env later) g.token_id))
          (active_grants env now' trace_id later) grant (unfold active_grants in in_active)
          (ground (arith, unused)) in
      let c = consumption env now' trace_id chosen in
      (
        c,
        append_policy_event consumed_kind trace_id (consumption_payload c) later,
        rw (found, consume_approval_token),
      )
