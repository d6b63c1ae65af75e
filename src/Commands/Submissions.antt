-- ===== src/Commands/Submissions.antt =====
-- `submit`, `retry` and `requeue` of src/commands/store.ts. The files of work graphs are left out.
use frontier_os.Prelude.{ℕ, String, false, Option, none, some, [], ◌∷◌, ◌++◌, if◌then◌else◌}
use frontier_os.Prelude.Dict.{contains}
use frontier_os.Prelude.Text.{units, ◌<>◌}
use frontier_os.Commands.{
  CommandStatus, queued, running, blocked_approval, blocked_policy, completed, failed, canceled,
  ActivityStatus, blocked,
}
use frontier_os.Commands.Payload.{scalar, text}
use frontier_os.Commands.Explain.{
  CommandEnv, SubmitInput, build_command_envelope, status_text, Explained, log_evaluation,
  explain_envelope,
}
use frontier_os.Commands.Rows.{CommandRow, ActivityRow, World, get_command}
use frontier_os.Commands.Store.{insert_command}
use frontier_os.Commands.Operations.{
  intent_required, invalid_envelope, verb_required, duplicate_key, unknown_command, not_retryable,
  not_requeueable, done, threw, Reply, require_command, cancel,
}
use frontier_os.Commands.Events.{append_lifecycle, append_linked}

-- The one activity of a plan.
abbrev first_activity : ActivityStatus → ℕ → Explained → ActivityRow
first_activity status now e = record {
  activity_id = e.envelope.command_id <> ":act:0";
  command_id = e.envelope.command_id;
  sequence = 0;
  lane = e.route.lane;
  name = e.route.verb;
  verb = e.route.verb;
  status = status;
  attempts = 0;
  output = none;
  idempotency_key = e.idempotency_key <> ":activity:0";
  lease_owner = none;
  lease_until = none;
  started_at = none;
  finished_at = none;
  created_at = now;
  updated_at = now;
}

abbrev pub activity_status_for : CommandStatus → ActivityStatus
activity_status_for blocked_approval = blocked
activity_status_for blocked_policy = blocked
activity_status_for canceled = ActivityStatus.canceled
activity_status_for failed = ActivityStatus.failed
activity_status_for completed = ActivityStatus.completed
activity_status_for _ = ActivityStatus.queued

abbrev pub new_row : ℕ → Explained → CommandRow
new_row now e = record {
  command_id = e.envelope.command_id;
  trace_id = e.envelope.trace_id;
  status = e.status;
  intent = e.envelope.intent;
  project_id = e.route.project_id;
  actor = e.envelope.actor_id;
  surface = e.envelope.channel;
  requested_at = e.envelope.requested_at;
  updated_at = now;
  approval_class = some e.route.approval_class;
  lane = some e.route.lane;
  verb = some e.route.verb;
  route = some e.route;
  policy = some e.policy;
  plan = some e.plan;
  checkpoint = some e.checkpoint;
  interrupt = e.interrupt;
  resume_cursor = some e.checkpoint.cursor;
  idempotency_key = some e.idempotency_key;
  lease_owner = none;
  lease_until = none;
  result = none;
  error = none;
}

abbrev reason_of : CommandStatus → String → Option String
reason_of blocked_policy reason = some reason
reason_of blocked_approval reason = some reason
reason_of _ reason = none

-- `explainedToRecord`
abbrev pub dry_row : Explained → CommandRow
dry_row e = record (new_row e.envelope.requested_at e) {
  error = reason_of e.status e.policy.decision.reason;
}

-- The transaction of `submit`, and what follows it.
unfoldable pub store_explained : ℕ → Explained → World → Reply CommandRow × World
store_explained now e w =
    let row = new_row now e in
    let logged = log_evaluation e.policy w.events in
    elim (insert_command row w.commands) [
      | none ↦ (threw duplicate_key, record w { events = logged })
      | some rows ↦ (
        require_command (get_command row.command_id rows) row.command_id,
        record {
          commands = rows;
          activities = w.activities ++ first_activity (activity_status_for e.status) now e ∷ [];
          events = append_lifecycle row logged;
        },
      )
    ]

module _ (env : CommandEnv) where
  unfoldable pub submit : String → String → SubmitInput → ℕ → World → Reply CommandRow × World
  submit command_id fresh_trace input now w =
      elim (build_command_envelope command_id fresh_trace now input) [
        | none ↦ (threw intent_required, w)
        | some envelope ↦ elim (explain_envelope env now envelope w.events) [
          | none ↦
              (if env.is_valid envelope then threw verb_required else threw invalid_envelope, w)
          | some e ↦
              if env.is_valid envelope
              then (if input.dry_run then (done (dry_row e), w) else store_explained now e w)
              else (threw invalid_envelope, w)
        ]
      ]

  abbrev surface_channel : String → String
  surface_channel surface =
      if contains
        ("cli" ∷ "siri_shortcut" ∷ "apple_app_intent" ∷ "mobile_app" ∷ "menu_bar" ∷ "web" ∷ "api"
          ∷ "automation" ∷ [])
        surface
      then surface
      else "automation"

  -- `operatorSubmitInput`: the payload is a new one, without the source's. Its kind of failure, which
  -- nothing here reads, is left out.
  abbrev pub operator_input : String → CommandRow → String → SubmitInput
  operator_input action row actor = record {
    intent = row.intent;
    project_id = row.project_id;
    actor_id = some actor;
    channel = some (surface_channel row.surface);
    trace_id = none;
    approval_class = row.approval_class;
    payload =
        ("sourceCommandId", scalar (text (units row.command_id)))
        ∷ ("sourceTraceId", scalar (text (units row.trace_id)))
        ∷ ("sourceStatus", scalar (text (units (status_text row.status))))
        ∷ ("operatorAction", scalar (text (units action)))
        ∷ [];
    dry_run = false;
  }

  abbrev pub linked :
      String → CommandRow → String → Reply CommandRow × World → Reply CommandRow × World
  linked action source actor (threw e, w) = (threw e, w)
  linked action source actor (done next, w) =
      (done next, record w { events = append_linked action source next actor w.events })

  abbrev pub resubmit :
      String → String → String → CommandRow → String → ℕ → World → Reply CommandRow × World
  resubmit action new_id fresh_trace source actor now w =
      linked action source actor
        (submit new_id fresh_trace (operator_input action source actor) now w)

  abbrev pub retry_from :
      CommandStatus → (Reply CommandRow × World) → World → Reply CommandRow × World
  retry_from failed next w = next
  retry_from canceled next w = next
  retry_from status next w = (threw (not_retryable status), w)

  unfoldable pub retry : String → String → String → String → ℕ → World → Reply CommandRow × World
  unfolding submit
  retry new_id fresh_trace id actor now w = elim (get_command id w.commands) [
    | none ↦ (threw (unknown_command id), w)
    | some source ↦
        retry_from source.status (resubmit "retry" new_id fresh_trace source actor now w) w
  ]

  abbrev pub after_cancel :
      String → String → String → ℕ → Reply CommandRow × World → Reply CommandRow × World
  after_cancel new_id fresh_trace actor now (threw e, w) = (threw e, w)
  after_cancel new_id fresh_trace actor now (done source, w) =
      resubmit "requeue" new_id fresh_trace source actor now w

  abbrev pub requeue_from :
      CommandStatus → (Reply CommandRow × World) → World → Reply CommandRow × World
  requeue_from queued next w = next
  requeue_from running next w = next
  requeue_from blocked_approval next w = next
  requeue_from status next w = (threw (not_requeueable status), w)

  unfoldable pub requeue : String → String → String → String → ℕ → World → Reply CommandRow × World
  unfolding submit cancel
  requeue new_id fresh_trace id actor now w = elim (get_command id w.commands) [
    | none ↦ (threw (unknown_command id), w)
    | some source ↦
        requeue_from source.status
          (after_cancel new_id fresh_trace actor now (cancel id actor now w)) w
  ]
