-- ===== src/Policy/Tests.antt =====
-- src/policy/evaluator.ts: tokens and decisions on a small ledger.
use frontier_os.Prelude.{
  ℕ, ◌+◌, ◌≡◌, ◌≢◌, refl, String, true, false, Option, none, some, List, [], ◌∷◌, arith,
}
use frontier_os.Work.{class_1, class_2, class_3, ApprovalClass}
use frontier_os.Policy.{
  ActionInput, ActionEnvelope, allow, ApprovalGrant, ApprovalConsumption, classify_verb,
  build_action_envelope,
}
use frontier_os.Policy.Ledger.{Events, newest}
use frontier_os.Policy.Samples.{tally, env, laws}
use frontier_os.Policy.Tokens.{
  consumed, refused, consumption, consume_approval_token, approve_trace, grant_from_event,
  evaluate_policy_action,
}
use frontier_os.Policy.OneShot.{consume_once}
use frontier_os.Policy.Grants.{approve-consume}
use frontier_os.Policy.Decisions.{Allowed, evaluate-Allowed, evaluate_unchanged}
use frontier_os.Policy.Classes.{unlisted_allowed}

policy : Unit {0}
unfolding newest consume_approval_token grant_from_event approve_trace evaluate_policy_action
    classify_verb build_action_envelope
policy = tt

-- Two approvals of the same trace, for 10 ms each.
abbrev approved : Events
approved = (approve_trace env 6 "b" "t" 10 none (approve_trace env 5 "a" "t" 10 none []).1).1

abbrev grant : String → ℕ → ApprovalGrant
grant id now = record {
  token_id = id;
  trace_id = "t";
  actor = "codex";
  granted_at = tally now;
  expires_at = tally (now + 10);
  ttl_seconds = 0;
}

abbrev use_b : ApprovalConsumption
use_b = consumption env 7 "t" (grant "approval-b" 6)

abbrev use_a : ApprovalConsumption
use_a = consumption env 8 "t" (grant "approval-a" 5)

abbrev after_b : Events
after_b = (consume_approval_token env 7 "t" true approved).1

abbrev after_a : Events
after_a = (consume_approval_token env 8 "t" true after_b).1

consume_first : consume_approval_token env 7 "t" true approved ≡ (consumed use_b, after_b)
unfolding policy
consume_first = refl

consume_second : consume_approval_token env 8 "t" true after_b ≡ (consumed use_a, after_a)
unfolding policy
consume_second = refl

consume_third :
    (consume_approval_token env 9 "t" true after_a).0
    ≡ refused "no active approval token for trace t"
unfolding policy
consume_third = refl

consume_expired :
    (consume_approval_token env 16 "t" true approved).0
    ≡ refused "no active approval token for trace t"
unfolding policy
consume_expired = refl

consume_once_example : use_a.token_id ≢ use_b.token_id
unfolding policy
consume_once_example =
    consume_once env laws 7 "t" true approved after_b use_b consume_first after_b (λ e h. h)
      (omega arith) 8 "t" true use_a after_a consume_second

approve-consume_example :
    (c : ApprovalConsumption) × (after : Events) × (consume_approval_token env 9 "t" true
        (approve_trace env 5 "a" "t" 10 none []).1
      ≡ (consumed c, after))
unfolding policy
approve-consume_example =
    approve-consume env laws 5 "a" "t" 10 none [] (approve_trace env 5 "a" "t" 10 none []).1
      (λ e h. h) (omega arith) refl 9 (omega arith) true

abbrev input : String → Option ApprovalClass → ActionInput
input verb class = record {
  actor = none;
  source = none;
  project_id = none;
  verb = verb;
  approval_class = class;
  side_effects = none;
  trace_id = some "t";
}

abbrev action : String → ApprovalClass → List String → ActionEnvelope
action verb class effects = record {
  actor = "codex";
  source = "cli";
  project_id = none;
  verb = verb;
  approval_class = class;
  side_effects = effects;
  trace_id = "t";
  requested_at = "now";
}

abbrev kickstart : ActionEnvelope
kickstart = action "launchd.kickstart" class_2 []

evaluate_kickstart :
    (evaluate_policy_action env kickstart 7 true approved).0.decision.status ≡ allow
unfolding policy
evaluate_kickstart = refl

evaluate-Allowed_example :
    Allowed env class_2 "t" 7 true approved
      (evaluate_policy_action env kickstart 7 true approved).1
      (evaluate_policy_action env kickstart 7 true approved).0.decision.consumed_approval
evaluate-Allowed_example = evaluate-Allowed env laws kickstart 7 true approved evaluate_kickstart

not_approved : (evaluate_policy_action env kickstart 7 true []).0.decision.status ≢ allow
unfolding policy
not_approved e = ground arith

evaluate_unchanged_example : (evaluate_policy_action env kickstart 7 true []).1 ≡ []
evaluate_unchanged_example = evaluate_unchanged env laws kickstart 7 true [] not_approved

built :
    build_action_envelope "x" "now" (input "repo.publish" none)
    ≡ some (action "repo.publish" class_3 ("privileged_or_external" ∷ []))
unfolding policy
built = refl

abbrev unknown : ActionEnvelope
unknown = action "disk.erase" class_1 ("local_write" ∷ [])

built_unknown : build_action_envelope "x" "now" (input "disk.erase" none) ≡ some unknown
unfolding policy
built_unknown = refl

unlisted_allowed_example :
    ((evaluate_policy_action env unknown 7 false []).0.decision.status ≡ allow)
    × ((evaluate_policy_action env unknown 7 false []).1 ≡ [])
unlisted_allowed_example =
    unlisted_allowed env "x" "now" (input "disk.erase" none) unknown refl built_unknown 7 false []
      refl refl refl
