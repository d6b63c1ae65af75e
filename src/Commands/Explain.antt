-- ===== src/Commands/Explain.antt =====
-- `buildCommandEnvelope` of src/commands/envelope.ts and `explainEnvelope` of src/commands/store.ts:
-- from what is submitted to a route, a policy decision and the first status. The schema's check
-- of an envelope, the random ids and the clock are parameters. Of an envelope the correlation, the
-- outputs and the execution policy are left out, of a checkpoint its state, of an interrupt the
-- details and the printed commands.
pub mod Denied
use frontier_os.Prelude.{
  or_else, ℕ, String, Bool, true, false, Option, none, some, List, [], ◌∷◌, str_eq, if◌then◌else◌,
  not,
}
use frontier_os.Prelude.Dict.{Dict, insert}
use frontier_os.Prelude.Text.{units, ◌<>◌}
use frontier_os.Work.{ApprovalClass}
use frontier_os.Swarm.Search.{Text}
use frontier_os.Arbiter.AntiExample.{is_space}
use frontier_os.Policy.{
  ActionInput, ActionEnvelope, Status, allow, requires_approval, deny, PolicyEvaluation,
  build_action_envelope,
}
use frontier_os.Policy.Ledger.{Json, nested, Events}
use frontier_os.Policy.Ledger as Ledger
use frontier_os.Policy.Tokens.{Env, append_policy_event, evaluate_policy_action}
use frontier_os.Commands.{
  CommandStatus, queued, running, blocked_approval, blocked_policy, completed, failed, canceled,
  CommandRoute, CommandPlan,
}
use frontier_os.Commands.Payload.{Payload, Arguments, Value, scalar, text, trim, is_empty}
use frontier_os.Commands.Route.{Project, classify_command}
use frontier_os.Commands.Plan.{plan_command}

pub record Envelope : Type 0 where
  pub command_id : String
  pub intent : Text
  pub requested_at : ℕ
  pub trace_id : String
  pub project_id : Option String
  pub actor_id : String
  pub channel : String
  pub approval_class : Option ApprovalClass
  pub payload : Payload

-- What the store uses of its surroundings.
pub record CommandEnv : Type 0 where
  pub policy : Env
  pub lower : Text → Text
  pub projects : List Project
  pub stringify : Arguments → String
  pub is_valid : Envelope → Bool

pub record SubmitInput : Type 0 where
  pub intent : Text
  pub project_id : Option String
  pub actor_id : Option String
  pub channel : Option String
  pub trace_id : Option String
  pub approval_class : Option ApprovalClass
  pub payload : Payload
  pub dry_run : Bool

-- `intent.trim().replace(/\s+/g, " ")`: each run of spaces becomes one.
abbrev pub squeeze : Bool → Text → Text
squeeze after_space [] = []
squeeze after_space (c ∷ s) =
    let rest = squeeze (is_space c) s in
    if is_space c then (if after_space then rest else 32 ∷ rest) else c ∷ rest

abbrev pub normalize_intent : Text → Text
normalize_intent intent = squeeze false (trim intent)

-- `{ ...payload, intent, ...(projectId ? { projectId } : {}) }`
abbrev with_project : Option String → Payload → Payload
with_project none payload = payload
with_project (some id) payload = insert "projectId" (scalar (text (units id))) payload

-- A project id that is not the empty text.
abbrev given_id : Option String → Option String
given_id none = none
given_id (some id) = if str_eq id "" then none else some id

-- `none` is the error on an intent without words.
unfoldable pub build_command_envelope : String → String → ℕ → SubmitInput → Option Envelope
build_command_envelope command_id fresh_trace now input =
    let intent = normalize_intent input.intent in
    if is_empty intent
    then none
    else some (record {
      command_id = command_id;
      intent = intent;
      requested_at = now;
      trace_id = or_else fresh_trace input.trace_id;
      project_id = given_id input.project_id;
      actor_id = or_else "codex" input.actor_id;
      channel = or_else "cli" input.channel;
      approval_class = input.approval_class;
      payload =
          with_project (given_id input.project_id)
            (insert "intent" (scalar (text intent)) input.payload);
    })

pub record Interrupt : Type 0 where
  pub interrupt_id : String
  pub trace_id : String
  pub command_id : String
  pub question : String

pub record Checkpoint : Type 0 where
  pub thread_id : String
  pub cursor : String
  pub saved_at : ℕ

abbrev pub status_text : CommandStatus → String
status_text queued = "queued"
status_text running = "running"
status_text blocked_approval = "blocked_approval"
status_text blocked_policy = "blocked_policy"
status_text completed = "completed"
status_text failed = "failed"
status_text canceled = "canceled"

abbrev pub checkpoint_for : String → CommandStatus → ℕ → Checkpoint
checkpoint_for command_id status now = record {
  thread_id = command_id;
  cursor = command_id <> ":" <> status_text status;
  saved_at = now;
}

abbrev pub initial_status : Status → CommandStatus
initial_status allow = queued
initial_status requires_approval = blocked_approval
initial_status deny = blocked_policy

abbrev pub interrupt_for : Envelope → CommandRoute → CommandStatus → Option Interrupt
interrupt_for envelope r blocked_approval = some (record {
  interrupt_id = "int_" <> envelope.command_id;
  trace_id = envelope.trace_id;
  command_id = envelope.command_id;
  question = "Approve " <> r.verb <> "?";
})
interrupt_for envelope r _ = none

pub record Explained : Type 0 where
  pub envelope : Envelope
  pub route : CommandRoute
  pub policy : PolicyEvaluation
  pub plan : CommandPlan
  pub status : CommandStatus
  pub interrupt : Option Interrupt
  pub checkpoint : Checkpoint
  pub idempotency_key : String

-- The policy's input for a routed command.
abbrev pub action_input : String → String → Option String → CommandRoute → String → ActionInput
action_input actor source project_id r trace_id = record {
  actor = some actor;
  source = some source;
  project_id = project_id;
  verb = r.verb;
  approval_class = some r.approval_class;
  side_effects = some r.side_effects;
  trace_id = some trace_id;
}

-- `logPolicyEvaluation`
abbrev pub log_evaluation : PolicyEvaluation → Events → Events
log_evaluation evaluation = append_policy_event "policy.evaluated" evaluation.action.trace_id (
    ("action", nested)
    ∷ ("decision", nested)
    ∷ ("policyId", Json.text evaluation.policy_id)
    ∷ ("version", Json.text evaluation.version)
    ∷ ("classRule", Json.text evaluation.class_rule)
    ∷ [])

module _ (env : CommandEnv) where
  abbrev pub route_of : Envelope → CommandRoute
  route_of envelope =
      classify_command env.lower env.projects envelope.intent envelope.project_id
        envelope.approval_class envelope.payload

  abbrev pub explained_as : ℕ → Envelope → PolicyEvaluation → Explained
  explained_as now envelope policy =
      let r = route_of envelope in
      let status = initial_status policy.decision.status in
      record {
        envelope = envelope;
        route = r;
        policy = policy;
        plan = plan_command env.stringify envelope.command_id r envelope.payload;
        status = status;
        interrupt = interrupt_for envelope r status;
        checkpoint = checkpoint_for envelope.command_id status now;
        idempotency_key = "command:" <> envelope.trace_id <> ":" <> r.verb;
      }

  -- `none` is the error of `buildActionEnvelope` on a verb without text.
  unfoldable pub explain_envelope : ℕ → Envelope → Events → Option Explained
  explain_envelope now envelope events =
      let r = route_of envelope in
      elim (build_action_envelope envelope.trace_id (env.policy.to_iso now)
        (action_input envelope.actor_id envelope.channel r.project_id r envelope.trace_id)) [
          | none ↦ none
          | some action ↦
              let (policy, _) = evaluate_policy_action env.policy action now false events in
              some (explained_as now envelope policy)
        ]
