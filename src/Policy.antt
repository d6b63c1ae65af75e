-- ===== src/Policy.antt =====
-- src/policy/evaluator.ts: approval classes of verbs, policy decisions, and one-shot approval
-- tokens that are kept as events of the ledger. A verb's side effects and the reasons are the
-- source's texts.
pub mod Ledger
pub mod Tokens
pub mod Classes
pub mod Search
pub mod OneShot
pub mod Grants
pub mod Decisions
pub mod Samples
mod Tests
use frontier_os.Prelude.{
  or_else, ℕ, ◌+◌, ◌≡◌, refl, String, Bool, true, false, Option, none, some, List, [], ◌∷◌, str_eq,
  leb, ◌==◌, if◌then◌else◌,
}
use frontier_os.Prelude.Dict.{Dict, contains}
use frontier_os.Work.{ApprovalClass, class_0, class_1, class_2, class_3, rank}

pub record ActionEnvelope : Type 0 where
  pub actor : String
  pub source : String
  pub project_id : Option String
  pub verb : String
  pub approval_class : ApprovalClass
  pub side_effects : List String
  pub trace_id : String
  pub requested_at : String

pub data Status : Type 0 where
  allow requires_approval deny : Status

pub record ApprovalGrant : Type 0 where
  pub token_id : String
  pub trace_id : String
  pub actor : String
  pub granted_at : String
  pub expires_at : String
  pub ttl_seconds : ℕ

pub record ApprovalConsumption : Type 0 where
  pub token_id : String
  pub trace_id : String
  pub consumed_at : String
  pub grant : ApprovalGrant

pub record PolicyDecision : Type 0 where
  pub status : Status
  pub reason : String
  pub approval_required : Bool
  pub consumed_approval : Option ApprovalConsumption

pub record PolicyEvaluation : Type 0 where
  pub action : ActionEnvelope
  pub decision : PolicyDecision
  pub policy_id : String
  pub version : String
  pub class_rule : String

abbrev pub read_only_verbs : List String
read_only_verbs =
    "daemon.health" ∷ "daemon.status" ∷ "helper.status" ∷ "launchd.status" ∷ "ledger.recent"
    ∷ "mcp.smoke" ∷ "network.status" ∷ "ops.status" ∷ "project.inspect" ∷ "project.list"
    ∷ "project.next" ∷ "project.repair_plan" ∷ "project.status" ∷ "overnight.plan"
    ∷ "overnight.brief" ∷ []

abbrev pub class_one_verbs : List String
class_one_verbs =
    "daemon.install-user-agent" ∷ "logs.read" ∷ "overnight.enqueue" ∷ "overnight.run"
    ∷ "watcher.run" ∷ "work.queue" ∷ []

abbrev pub class_two_verbs : List String
class_two_verbs =
    "helper.invoke" ∷ "launchd.kickstart" ∷ "ops.repair_launchagent" ∷ "service.stop-user"
    ∷ "service.start-user" ∷ []

abbrev pub class_three_verbs : List String
class_three_verbs =
    "credential.change" ∷ "external.message" ∷ "package.install" ∷ "privilege.change"
    ∷ "repo.publish" ∷ "service.restart" ∷ "system.shutdown" ∷ []

pub record Classification : Type 0 where
  pub approval_class : ApprovalClass
  pub side_effects : List String
  pub rule : String

unfoldable pub side_effects_for_class : ApprovalClass → List String
side_effects_for_class class_0 = []
side_effects_for_class class_1 = "local_write" ∷ []
side_effects_for_class class_2 = "local_service" ∷ []
side_effects_for_class class_3 = "privileged_or_external" ∷ []

pub inferred_class : String → Classification
inferred_class verb =
    if contains read_only_verbs verb
    then record { approval_class = class_0; side_effects = []; rule = "read_only_allowlist" }
    else if contains class_one_verbs verb
    then record {
      approval_class = class_1;
      side_effects = "local_write" ∷ [];
      rule = "class_1_allowlist";
    }
    else if contains class_two_verbs verb
    then record {
      approval_class = class_2;
      side_effects = "local_service" ∷ [];
      rule = "class_2_approval_allowlist";
    }
    else if contains class_three_verbs verb
    then record {
      approval_class = class_3;
      side_effects = "privileged_or_external" ∷ [];
      rule = "class_3_human_required";
    }
    else record {
      approval_class = class_1;
      side_effects = "local_write" ∷ [];
      rule = "default_class_1";
    }

unfoldable pub classify_verb : String → Option ApprovalClass → Classification
unfolding inferred_class side_effects_for_class
classify_verb verb (some explicit) = record {
  approval_class = explicit;
  side_effects = side_effects_for_class explicit;
  rule = "explicit_class";
}
classify_verb verb none = inferred_class verb

pub record ActionInput : Type 0 where
  pub actor : Option String
  pub source : Option String
  pub project_id : Option String
  pub verb : String
  pub approval_class : Option ApprovalClass
  pub side_effects : Option (List String)
  pub trace_id : Option String

-- `none` is the error on an empty verb. The random trace id and the time are arguments.
unfoldable pub build_action_envelope : String → String → ActionInput → Option ActionEnvelope
build_action_envelope fresh_trace now input =
    let classified = classify_verb input.verb input.approval_class in
    if str_eq input.verb ""
    then none
    else some (record {
      actor = or_else "codex" input.actor;
      source = or_else "cli" input.source;
      project_id = input.project_id;
      verb = input.verb;
      approval_class = classified.approval_class;
      side_effects = or_else classified.side_effects input.side_effects;
      trace_id = or_else fresh_trace input.trace_id;
      requested_at = now;
    })

pub class_rule_for_action : ActionEnvelope → String
class_rule_for_action action =
    let inferred = classify_verb action.verb none in
    if rank inferred.approval_class == rank action.approval_class
    then inferred.rule
    else "explicit_class"
