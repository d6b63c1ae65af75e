-- ===== src/Policy/Tokens.antt =====
-- src/policy/evaluator.ts: granting, consuming and evaluating. The ledger is passed in and returned;
-- the time, the random ids and the texts of dates are parameters.
use frontier_os.Prelude.{
  or_else, ℕ, ◌+◌, ◌/◌, String, Bool, true, false, not, Option, none, some, List, [], ◌∷◌, str_eq,
  ltb, if◌then◌else◌, select, find_first,
}
use frontier_os.Prelude.Dict.{Dict, lookup, contains}
use frontier_os.Prelude.Text.{◌<>◌}
use frontier_os.Work.{ApprovalClass, class_0, class_1, class_2, class_3}
use frontier_os.Policy.{
  ActionEnvelope, Status, allow, requires_approval, deny, ApprovalGrant, ApprovalConsumption,
  PolicyDecision, PolicyEvaluation, class_rule_for_action,
}
use frontier_os.Policy.Ledger.{Json, text, number, nested, LedgerEvent, Events, append_event}

-- What the code calls: the ledger's query, `Date.parse` (`none` for NaN) and `toISOString`.
pub record Env : Type 0 where
  pub find : Events → String → ℕ → Events
  pub parse_date : String → Option ℕ
  pub to_iso : ℕ → String

abbrev pub granted_kind : String
granted_kind = "policy.approval_granted"

abbrev pub consumed_kind : String
consumed_kind = "policy.approval_consumed"

abbrev pub denied_kind : String
denied_kind = "policy.approval_denied"

abbrev pub session_id : String
session_id = "policy-core"

unfoldable pub append_policy_event : String → String → Dict Json → Events → Events
unfolding append_event
append_policy_event kind trace_id payload = append_event (record {
  session_id = session_id;
  kind = kind;
  actor = some "policy";
  trace_id = some trace_id;
  payload = payload;
})

abbrev pub grant_payload : ApprovalGrant → Dict Json
grant_payload grant =
    ("tokenId", text grant.token_id)
    ∷ ("traceId", text grant.trace_id)
    ∷ ("actor", text grant.actor)
    ∷ ("grantedAt", text grant.granted_at)
    ∷ ("expiresAt", text grant.expires_at)
    ∷ ("ttlSeconds", number grant.ttl_seconds)
    ∷ []

abbrev pub consumption_payload : ApprovalConsumption → Dict Json
consumption_payload c =
    ("tokenId", text c.token_id)
    ∷ ("traceId", text c.trace_id)
    ∷ ("grant", nested)
    ∷ ("consumedAt", text c.consumed_at)
    ∷ []

abbrev pub denied_payload : String → String → Dict Json
denied_payload trace_id reason = ("traceId", text trace_id) ∷ ("reason", text reason) ∷ []

infixl 5 ◌>>=◌
abbrev pub ◌>>=◌ {ℓ κ} : {A : Type ℓ} {B : Type κ} → Option A → (A → Option B) → Option B
none >>= f = none
some a >>= f = f a

-- `typeof payload.k === "string"` and `"number"`.
abbrev pub text_at : String → Dict Json → Option String
text_at k payload = elim (lookup k payload) [ some (text s) ↦ some s | _ ↦ none ]

abbrev pub number_at : String → Dict Json → Option ℕ
number_at k payload = elim (lookup k payload) [ some (number n) ↦ some n | _ ↦ none ]

unfoldable pub grant_from_event : LedgerEvent → Option ApprovalGrant
grant_from_event event = do
  token_id ← text_at "tokenId" event.payload
  trace_id ← text_at "traceId" event.payload
  actor ← text_at "actor" event.payload
  granted_at ← text_at "grantedAt" event.payload
  expires_at ← text_at "expiresAt" event.payload
  ttl_seconds ← number_at "ttlSeconds" event.payload
  some (record {
    token_id = token_id;
    trace_id = trace_id;
    actor = actor;
    granted_at = granted_at;
    expires_at = expires_at;
    ttl_seconds = ttl_seconds;
  })

unfoldable pub grants_of : Events → List ApprovalGrant
grants_of [] = []
grants_of (event ∷ events) = elim (grant_from_event event) [
  | none ↦ grants_of events
  | some grant ↦ grant ∷ grants_of events
]

unfoldable pub token_ids_of : Events → List String
token_ids_of [] = []
token_ids_of (event ∷ events) = elim (text_at "tokenId" event.payload) [
  | none ↦ token_ids_of events
  | some token_id ↦ token_id ∷ token_ids_of events
]

pub data Consumed : Type 0 where
  consumed : ApprovalConsumption → Consumed
  refused : String → Consumed

module _ (env : Env) where
  -- `Date.parse(expiresAt) > now`, false for NaN.
  unfoldable pub is_active : ℕ → ApprovalGrant → Bool
  is_active now grant = elim (env.parse_date grant.expires_at) [
    | none ↦ false
    | some expires ↦ ltb now expires
  ]

  unfoldable pub active_grants : ℕ → String → Events → List ApprovalGrant
  unfolding grants_of is_active
  active_grants now trace_id events =
      select (is_active now)
        (select (λ g. str_eq g.trace_id trace_id) (grants_of (env.find events granted_kind 1000)))

  unfoldable pub consumed_token_ids : Events → List String
  unfolding token_ids_of
  consumed_token_ids events = token_ids_of (env.find events consumed_kind 1000)

  unfoldable pub candidate : ℕ → String → Events → Option ApprovalGrant
  unfolding active_grants consumed_token_ids
  candidate now trace_id events =
      let used = consumed_token_ids events in
      find_first (λ g. not (contains used g.token_id)) (active_grants now trace_id events)

  abbrev pub consumption : ℕ → String → ApprovalGrant → ApprovalConsumption
  consumption now trace_id grant = record {
    token_id = grant.token_id;
    trace_id = trace_id;
    consumed_at = env.to_iso now;
    grant = grant;
  }

  unfoldable pub consume_approval_token : ℕ → String → Bool → Events → Consumed × Events
  unfolding candidate append_policy_event
  consume_approval_token now trace_id emit_denied events =
      let reason = "no active approval token for trace " <> trace_id in
      elim (candidate now trace_id events) [
        | none ↦ (
          refused reason,
          if emit_denied
              then append_policy_event denied_kind trace_id (denied_payload trace_id reason) events
              else events,
        )
        | some grant ↦
            let c = consumption now trace_id grant in
            (consumed c, append_policy_event consumed_kind trace_id (consumption_payload c) events)
      ]

  -- `approval-${randomUUID()}`, `Math.round(ttlMs / 1000)`.
  unfoldable pub approve_trace :
      ℕ → String → String → ℕ → Option String → Events → ApprovalGrant × Events
  unfolding append_policy_event
  approve_trace now uuid trace_id ttl_ms actor events =
      let grant : ApprovalGrant = record {
        token_id = "approval-" <> uuid;
        trace_id = trace_id;
        actor = or_else "codex" actor;
        granted_at = env.to_iso now;
        expires_at = env.to_iso (now + ttl_ms);
        ttl_seconds = (ttl_ms + 500) / 1000;
      } in
      (grant, append_policy_event granted_kind trace_id (grant_payload grant) events)

  abbrev pub plain : Status → String → Bool → PolicyDecision
  plain status reason required = record {
    status = status;
    reason = reason;
    approval_required = required;
    consumed_approval = none;
  }

  abbrev pub decision_of : Consumed → PolicyDecision
  decision_of (consumed c) = record {
    status = allow;
    reason = "class-2 one-shot approval token consumed";
    approval_required = true;
    consumed_approval = some c;
  }
  decision_of (refused _) =
      plain requires_approval "class-2 action requires a one-shot approval token" true

  unfoldable pub decide : ApprovalClass → ℕ → String → Bool → Events → PolicyDecision × Events
  unfolding consume_approval_token
  decide class_0 now trace_id consume events = (plain allow "read-only action" false, events)
  decide class_1 now trace_id consume events =
      (plain allow "bounded local side effect allowed by personal-default policy" false, events)
  decide class_2 now trace_id consume events =
      if consume
      then (let (result, after) = consume_approval_token now trace_id false events in
          (decision_of result, after))
      else (
        plain requires_approval "class-2 action requires a one-shot approval token" true,
        events,
      )
  decide class_3 now trace_id consume events =
      (plain deny "class-3 privileged/external action denied by default" true, events)

  unfoldable pub evaluate_policy_action :
      ActionEnvelope → ℕ → Bool → Events → PolicyEvaluation × Events
  unfolding decide
  evaluate_policy_action action now consume events =
      let (decision, after) = decide action.approval_class now action.trace_id consume events in
      (
        record {
          action = action;
          decision = decision;
          policy_id = "personal-default";
          version = "v1";
          class_rule = class_rule_for_action action;
        },
        after,
      )
