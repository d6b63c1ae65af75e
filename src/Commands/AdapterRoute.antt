-- ===== src/Commands/AdapterRoute.antt =====
-- The routes of adapter commands in src/commands/store.ts, with the inputs that they miss.
use frontier_os.Prelude.{String, Bool, Option, none, some, if◌then◌else◌}
use frontier_os.Prelude.Text.{units}
use frontier_os.Work.{ApprovalClass}
use frontier_os.Swarm.Search.{Text}
use frontier_os.Commands.{browser, salesforce, CommandRoute}
use frontier_os.Commands.Payload.{
  Arguments, same_text, click_missing, enter_text_missing, navigate_missing, select_option_missing,
  set_filter_missing, report_filter_missing, move_widget_missing,
}
use frontier_os.Commands.Verbs.{route, needing}

abbrev is_command : String → Text → Bool
is_command name command = same_text command (units name)

module _ (args : Arguments) (project_id : Option String) (explicit : Option ApprovalClass) where
  unfoldable pub browser_route : Text → Option CommandRoute
  browser_route command =
      if is_command "current-tab" command
      then some (route browser "browser.inspect" project_id explicit)
      else if is_command "inspect-dom" command
      then some (route browser "browser.inspect_dom" project_id explicit)
      else if is_command "inspect-network" command
      then some (route browser "browser.inspect_network" project_id explicit)
      else if is_command "capture-screenshot" command
      then some (route browser "browser.capture_screenshot" project_id explicit)
      else if is_command "click-element" command
      then some
          (needing (click_missing args) (route browser "browser.click_element" project_id explicit))
      else if is_command "enter-text" command
      then some (
          needing (enter_text_missing args)
            (route browser "browser.enter_text" project_id explicit))
      else if is_command "select-option" command
      then some (
          needing (select_option_missing args)
            (route browser "browser.select_option" project_id explicit))
      else if is_command "navigate" command
      then some
          (needing (navigate_missing args) (route browser "browser.navigate" project_id explicit))
      else none

  abbrev pub report_filter_route : CommandRoute
  report_filter_route =
      needing (report_filter_missing args)
        (route salesforce "salesforce.set_report_filter" project_id explicit)

  abbrev pub move_widget_route : CommandRoute
  move_widget_route =
      needing (move_widget_missing args)
        (route salesforce "salesforce.move_widget" project_id explicit)

  unfoldable pub salesforce_route : Text → Option CommandRoute
  salesforce_route command =
      if is_command "inspect-dashboard" command
      then some (route salesforce "salesforce.inspect_dashboard" project_id explicit)
      else if is_command "inspect-report" command
      then some (route salesforce "salesforce.inspect_report" project_id explicit)
      else if is_command "set-report-filter" command
      then some report_filter_route
      else if is_command "list-filters" command
      then some (route salesforce "salesforce.list_filters" project_id explicit)
      else if is_command "audit-dashboard" command
      then some (route salesforce "salesforce.audit_dashboard" project_id explicit)
      else if is_command "set-filter" command
      then some (
          needing (set_filter_missing args)
            (route salesforce "salesforce.set_filter" project_id explicit))
      else if is_command "enter-edit-mode" command
      then some (route salesforce "salesforce.enter_edit_mode" project_id explicit)
      else if is_command "move-widget" command
      then some move_widget_route
      else if is_command "save-dashboard" command
      then some (route salesforce "salesforce.save_dashboard" project_id explicit)
      else if is_command "portfolio-inventory" command
      then some (route salesforce "salesforce.portfolio_summary" project_id explicit)
      else none

  unfoldable pub payload_route : Option Text → Option CommandRoute
  payload_route none = none
  payload_route (some command) = elim (browser_route command) [
    | some r ↦ some r
    | none ↦ salesforce_route command
  ]
