-- ===== src/Commands/Events.antt =====
-- The events that src/commands/store.ts appends to the ledger: `appendStateChanged` and its kin.
use frontier_os.Prelude.{String, Option, none, some, [], ◌∷◌}
use frontier_os.Prelude.Dict.{Dict}
use frontier_os.Prelude.Text.{◌<>◌}
use frontier_os.Policy.Ledger.{Json, nested, Events, append_event}
use frontier_os.Commands.{CommandStatus, queued, completed}
use frontier_os.Commands.Explain.{status_text}
use frontier_os.Commands.Rows.{CommandRow}

abbrev pub append_command_event : CommandRow → String → String → Dict Json → Events → Events
append_command_event row kind actor payload = append_event (record {
  session_id = "command-" <> row.command_id;
  kind = kind;
  actor = some actor;
  trace_id = some row.trace_id;
  payload = payload;
})

unfoldable pub append_state_changed : CommandRow → Option CommandRow → String → Events → Events
append_state_changed before none reason events = events
append_state_changed before (some after) reason events =
    append_command_event after "command.state_changed" "command.gateway"
      (("commandId", Json.text after.command_id)
        ∷ ("from", Json.text (status_text before.status))
        ∷ ("to", Json.text (status_text after.status))
        ∷ ("checkpoint", nested)
        ∷ ("interrupt", nested)
        ∷ ("reason", Json.text reason)
        ∷ [])
      events

abbrev queued_kind : CommandStatus → String
queued_kind queued = "command.queued"
queued_kind _ = "command.state_changed"

unfoldable pub append_lifecycle : CommandRow → Events → Events
append_lifecycle row events =
    append_command_event row (queued_kind row.status) "command.gateway"
      (("commandId", Json.text row.command_id)
        ∷ ("status", Json.text (status_text row.status))
        ∷ ("interrupt", nested)
        ∷ [])
      (append_command_event row "command.planned" "command.gateway"
        (("plan", nested) ∷ ("checkpoint", nested) ∷ [])
        (append_command_event row "command.classified" "command.gateway"
          (("route", nested) ∷ ("policy", nested) ∷ [])
          (append_command_event row "command.received" row.actor (("envelope", nested) ∷ [])
            events)))

abbrev terminal_kind : CommandStatus → String
terminal_kind completed = "command.completed"
terminal_kind _ = "command.failed"

unfoldable pub append_terminal : Option CommandRow → Events → Events
append_terminal none events = events
append_terminal (some row) events =
    append_command_event row (terminal_kind row.status) "command.worker"
      (("commandId", Json.text row.command_id)
        ∷ ("status", Json.text (status_text row.status))
        ∷ ("result", nested)
        ∷ ("execution", nested)
        ∷ ("activities", nested)
        ∷ [])
      events

unfoldable pub append_linked : String → CommandRow → CommandRow → String → Events → Events
append_linked action source next actor events =
    append_command_event next "command.state_changed" actor
      (("commandId", Json.text next.command_id)
        ∷ ("operatorAction", Json.text action)
        ∷ ("sourceCommandId", Json.text source.command_id)
        ∷ ("sourceTraceId", Json.text source.trace_id)
        ∷ [])
      (append_command_event source "command.state_changed" actor
        (("commandId", Json.text source.command_id)
          ∷ ("operatorAction", Json.text action)
          ∷ ("replacementCommandId", Json.text next.command_id)
          ∷ ("replacementTraceId", Json.text next.trace_id)
          ∷ [])
        events)
