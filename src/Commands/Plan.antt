-- ===== src/Commands/Plan.antt =====
-- `directActionFor` and `planCommand` of src/commands/store.ts. `JSON.stringify` is a parameter. Of a
-- plan the summary, the artifact directory and the input of its one activity are left out.
use frontier_os.Prelude.{
  String, Bool, true, false, Option, none, some, List, [], ◌∷◌, ◌++◌, length, ltb, ◌==◌, str_eq,
  if◌then◌else◌,
}
use frontier_os.Prelude.Text.{◌<>◌}
use frontier_os.Commands.{
  CommandRoute, PlannedAction, PlanType, direct_action, blocked, CommandPlan,
}
use frontier_os.Commands.Payload.{
  Arguments, Payload, adapter_arguments, click_missing, enter_text_missing, navigate_missing,
  select_option_missing, report_filter_missing, move_widget_missing,
}

abbrev action : String → String → List String → Bool → PlannedAction
action family subcommand args safe = record {
  family = family;
  subcommand = subcommand;
  args = args;
  dry_run_safe = safe;
}

abbrev pub is_ready : List String → Bool
is_ready missing = length missing == 0

-- `condition ? action : null`
abbrev pub only_if : Bool → PlannedAction → Option PlannedAction
only_if true a = some a
only_if false a = none

module _ (stringify : Arguments → String) where
  abbrev pub adapter_action : String → String → String → Bool → Arguments → PlannedAction
  adapter_action adapter command mode safe args =
      action "adapter" "invoke"
        ((adapter ∷ command ∷ "--mode" ∷ mode ∷ [])
          ++ (if ltb 0 (length args) then "--input" ∷ stringify args ∷ [] else []))
        safe

  abbrev project_action : String → Option String → Option PlannedAction
  project_action subcommand none = none
  project_action subcommand (some id) = some (action "project" subcommand (id ∷ []) false)

  abbrev project_args : Option String → List String
  project_args none = []
  project_args (some id) = id ∷ []

  unfoldable pub local_action : String → Option String → Option PlannedAction
  local_action verb project_id =
      if str_eq verb "project.status"
      then some (action "project" "status" (project_args project_id) true)
      else if str_eq verb "project.verify"
      then project_action "verify" project_id
      else if str_eq verb "project.smoke"
      then project_action "smoke" project_id
      else if str_eq verb "overnight.plan"
      then some (action "overnight" "plan" [] true)
      else if str_eq verb "overnight.brief"
      then some (action "overnight" "brief" [] true)
      else if str_eq verb "overnight.enqueue"
      then some (action "overnight" "enqueue" ("--limit" ∷ "4" ∷ []) false)
      else if str_eq verb "overnight.run"
      then some (action "overnight" "run" ("--limit" ∷ "4" ∷ "--max-concurrent" ∷ "2" ∷ []) false)
      else if str_eq verb "mlx.status"
      then some (action "mlx" "status" ("--fail-if-not-ready" ∷ []) true)
      else if str_eq verb "mlx.smoke"
      then some (action "mlx" "smoke" [] false)
      else if str_eq verb "mlx.generate"
      then some (
          action "mlx" "generate"
            ("--prompt" ∷ "Say ready in one word." ∷ "--max-tokens" ∷ "8" ∷ []) false)
      else if str_eq verb "mlx.benchmark"
      then some (
          action "mlx" "benchmark"
            ("--prompt-tokens" ∷ "32" ∷ "--generation-tokens" ∷ "16" ∷ "--num-trials" ∷ "1"
              ∷ "--timeout-seconds" ∷ "120" ∷ [])
            false)
      else if str_eq verb "helper.status"
      then some (action "helper" "status" [] true)
      else if str_eq verb "logs.read"
      then some (
          action "helper" "production-invoke"
            ("logs.read" ∷ "--path" ∷ "/Users/test/Library/Logs/frontier-os/frontierd.err.log" ∷ [])
            true)
      else none

  unfoldable pub browser_action : String → Arguments → Option PlannedAction
  browser_action verb args =
      let adapter = adapter_action "browser" in
      if str_eq verb "browser.inspect"
      then some (adapter "current-tab" "read" true args)
      else if str_eq verb "browser.inspect_dom"
      then some (adapter "inspect-dom" "read" true args)
      else if str_eq verb "browser.inspect_network"
      then some (adapter "inspect-network" "read" true args)
      else if str_eq verb "browser.capture_screenshot"
      then some (adapter "capture-screenshot" "read" true args)
      else if str_eq verb "browser.click_element"
      then only_if (is_ready (click_missing args)) (adapter "click-element" "apply" false args)
      else if str_eq verb "browser.enter_text"
      then only_if (is_ready (enter_text_missing args)) (adapter "enter-text" "apply" false args)
      else if str_eq verb "browser.select_option"
      then only_if (is_ready (select_option_missing args))
          (adapter "select-option" "apply" false args)
      else if str_eq verb "browser.navigate"
      then only_if (is_ready (navigate_missing args)) (adapter "navigate" "apply" false args)
      else none

  unfoldable pub salesforce_action : String → Arguments → Option PlannedAction
  salesforce_action verb args =
      let adapter = adapter_action "salesforce" in
      if str_eq verb "salesforce.portfolio_summary"
      then some (adapter "portfolio-inventory" "read" true args)
      else if str_eq verb "salesforce.inspect_dashboard"
      then some (adapter "inspect-dashboard" "read" true args)
      else if str_eq verb "salesforce.inspect_report"
      then some (adapter "inspect-report" "read" true args)
      else if str_eq verb "salesforce.set_report_filter"
      then only_if (is_ready (report_filter_missing args))
          (adapter "set-report-filter" "apply" false args)
      else if str_eq verb "salesforce.list_filters"
      then some (adapter "list-filters" "read" true args)
      else if str_eq verb "salesforce.audit_dashboard"
      then some (adapter "audit-dashboard" "read" true args)
      else if str_eq verb "salesforce.set_filter"
      then some (adapter "set-filter" "apply" false args)
      else if str_eq verb "salesforce.enter_edit_mode"
      then some (adapter "enter-edit-mode" "apply" false args)
      else if str_eq verb "salesforce.move_widget"
      then only_if (is_ready (move_widget_missing args)) (adapter "move-widget" "apply" false args)
      else if str_eq verb "salesforce.save_dashboard"
      then some (adapter "save-dashboard" "apply" false args)
      else none

  abbrev ops_action : String → Option PlannedAction
  ops_action verb =
      if str_eq verb "ops.repair_launchagent"
      then some (action "ops" "repair-launchagent" ("com.frontier-os.frontierd" ∷ []) false)
      else none

  abbrev first_of : Option PlannedAction → Option PlannedAction → Option PlannedAction
  first_of (some a) next = some a
  first_of none next = next

  -- The verbs of the parts are distinct, so their order does not matter.
  unfoldable pub direct_action_for : CommandRoute → Payload → Option PlannedAction
  direct_action_for r payload =
      let args = adapter_arguments payload in
      first_of (local_action r.verb r.project_id) (
        first_of (browser_action r.verb args)
          (first_of (salesforce_action r.verb args) (ops_action r.verb)))

  abbrev type_of : Option PlannedAction → PlanType
  type_of none = blocked
  type_of (some a) = direct_action

  unfoldable pub plan_command : String → CommandRoute → Payload → CommandPlan
  plan_command command_id r payload =
      let planned = direct_action_for r payload in
      record { plan_id = "plan_" <> command_id; kind = type_of planned; action = planned }
