-- ===== src/Policy/OneShot.antt =====
-- src/policy/evaluator.ts: an approval token is used for its own trace, while it is active, and once.
use frontier_os.Prelude.{
  ℕ, ◌≤◌, ◌≡◌, ◌≢◌, refl, subst₂, String, Bool, true, false, some, str_eq, eq_iff, arith, inl, inr,
  Option-cases, length, select,
}
use frontier_os.Prelude.Dict.{contains}
use frontier_os.Policy.{ApprovalGrant, ApprovalConsumption}
use frontier_os.Policy.Ledger.{LedgerEvent, Events, Has, IsQuery, is_kind}
use frontier_os.Policy.Tokens.{
  Env, consumed, consumption, consumption_payload, granted_kind, consumed_kind, grants_of,
  grant_from_event, is_active, active_grants, consumed_token_ids, candidate, consume_approval_token,
  append_policy_event,
}
use frontier_os.Policy.Search.{
  find_first-eq-some, Has-select_test, Has-grants_of, contains-token_ids_of,
}

-- What the proofs use of the environment: the query, and that a printed date is read back.
pub record IsEnv (env : Env) : Type 0 where
  pub query : IsQuery env.find
  pub parse-iso : (t : ℕ) → env.parse_date (env.to_iso t) ≡ some t

-- A token that was consumed for a trace: granted for that trace by an event of the ledger, active
-- at the time, not recorded as consumed; and its consumption has been added to the ledger.
pub record IsConsumption (env : Env) (now : ℕ) (trace_id : String) (before after : Events)
    (c : ApprovalConsumption) : Type 0 where
  pub for_trace : c.trace_id ≡ trace_id
  pub granted_for : c.grant.trace_id ≡ trace_id
  pub token : c.token_id ≡ c.grant.token_id
  pub active : is_active env now c.grant ≡ true
  pub unused : contains (consumed_token_ids env before) c.token_id ≡ false
  pub event : LedgerEvent
  pub recorded : Has before event
  pub granted : event.kind ≡ granted_kind
  pub holds : grant_from_event event ≡ some c.grant
  pub added : after ≡ append_policy_event consumed_kind trace_id (consumption_payload c) before

module _ (env : Env) (laws : IsEnv env) where
  candidate-IsConsumption :
      (now : ℕ) (trace_id : String) (events : Events) (grant : ApprovalGrant)
      → candidate env now trace_id events ≡ some grant
      → let c = consumption env now trace_id grant in
        IsConsumption env now trace_id events
          (append_policy_event consumed_kind trace_id (consumption_payload c) events)
          c
  unfolding candidate
  candidate-IsConsumption now trace_id events grant e =
      let rows = env.find events granted_kind 1000 in
      let mine = λ (g : ApprovalGrant). str_eq g.trace_id trace_id in
      let (listed, fresh) = find_first-eq-some _ (active_grants env now trace_id events) grant e in
      let (in_trace, active) =
        Has-select_test (is_active env now) (select mine (grants_of rows)) grant
          (unfold active_grants in listed) in
      let (in_rows, same) = Has-select_test mine (grants_of rows) grant in_trace in
      let (event, found, holds) = Has-grants_of rows grant in_rows in
      let (stored, kind) = laws.query.sound events granted_kind 1000 event found in
      record {
        for_trace = refl;
        granted_for = (eq_iff _ _).0 same;
        token = refl;
        active = active;
        unused = ground (arith, fresh);
        event = event;
        recorded = stored;
        granted = kind;
        holds = holds;
        added = refl;
      }

  pub consume-IsConsumption :
      (now : ℕ) (trace_id : String) (emit_denied : Bool) (events after : Events)
      (c : ApprovalConsumption)
      → consume_approval_token env now trace_id emit_denied events ≡ (consumed c, after)
      → IsConsumption env now trace_id events after c
  unfolding consume_approval_token
  consume-IsConsumption now trace_id emit_denied events after c e =
      elim (Option-cases (candidate env now trace_id events)) [
        | inl nothing ↦ absurd (ground (arith, rw (nothing, consume_approval_token) at e))
        | inr (grant, found) ↦
            let e' = rw (found, consume_approval_token) at e in
            let same_c : consumption env now trace_id grant ≡ c = ground arith in
            let same_after : append_policy_event consumed_kind trace_id
                  (consumption_payload (consumption env now trace_id grant)) events
                ≡ after =
              ground arith in
            subst₂ (λ d a. IsConsumption env now trace_id events a d) same_c same_after
              (candidate-IsConsumption now trace_id events grant found)
      ]

  -- One-shot: once a token is consumed, no consumption at any later time, for any trace, on a ledger
  -- that has grown from the one then left, is of that token; as long as the ledger holds no more
  -- consumptions than one query returns, 1000.
  pub consume_once :
      (now : ℕ) (trace_id : String) (emit_denied : Bool) (events after : Events)
      (c : ApprovalConsumption)
      → consume_approval_token env now trace_id emit_denied events ≡ (consumed c, after)
      → (later : Events) → ((e : LedgerEvent) → Has after e → Has later e)
      → length (select (is_kind consumed_kind) later) ≤ 1000
      → (now' : ℕ) (trace_id' : String) (emit_denied' : Bool) (c' : ApprovalConsumption)
        (final : Events)
      → consume_approval_token env now' trace_id' emit_denied' later ≡ (consumed c', final)
      → c'.token_id ≢ c.token_id
  unfolding consumed_token_ids append_policy_event
  consume_once now trace_id emit_denied events after c e later grown few now' trace_id' emit_denied'
        c' final e' =
      let first = consume-IsConsumption now trace_id emit_denied events after c e in
      let second = consume-IsConsumption now' trace_id' emit_denied' later final c' e' in
      let event : LedgerEvent = record {
        session_id = "policy-core";
        kind = consumed_kind;
        actor = some "policy";
        trace_id = some trace_id;
        payload = consumption_payload c;
      } in
      let stored : Has later event = grown event (rw (first.added) (inl refl)) in
      let row = laws.query.complete later consumed_kind 1000 event few stored refl in
      let used =
        contains-token_ids_of (env.find later consumed_kind 1000) event c.token_id row refl in
      λ same. ground (arith, used, second.unused, same)
