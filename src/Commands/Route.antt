-- ===== src/Commands/Route.antt =====
-- `classifyCommand` of src/commands/store.ts: the lane, verb and class of an intent. The projects'
-- manifests and `toLowerCase` are parameters; the confidence of a route is left out.
use frontier_os.Prelude.{
  or_else, String, not, ◌&&◌, ◌||◌, Option, none, some, List, [], ◌∷◌, if◌then◌else◌, exists, map,
}
use frontier_os.Prelude.Text.{units}
use frontier_os.Work.{ApprovalClass}
use frontier_os.Swarm.Search.{Text, includes}
use frontier_os.Commands.{
  project, ops, helper, mlx, browser, salesforce, overnight, frontier, unknown, CommandRoute,
}
use frontier_os.Commands.Payload.{
  Payload, Arguments, adapter_command, adapter_arguments, is_empty, click_missing,
}
use frontier_os.Commands.Words.{
  says, is_destructive_filesystem, is_destructive_database, is_protected_restart,
}
use frontier_os.Commands.Verbs.{route, needing}
use frontier_os.Commands.AdapterRoute.{report_filter_route, move_widget_route, payload_route}

pub record Project : Type 0 where
  pub id : String
  pub name : Text
  pub ledger_tags : List Text

module _ (args : Arguments) (project_id : Option String) (explicit : Option ApprovalClass) where
  -- The branches for intents about salesforce, and about the browser.
  unfoldable pub salesforce_intent : Text → CommandRoute
  salesforce_intent intent =
      if says intent "report"
      then (if says intent "filter"
          then report_filter_route args project_id explicit
          else route salesforce "salesforce.inspect_report" project_id explicit)
      else if says intent "move widget"
          || says intent "reposition widget"
          || says intent "rearrange widget"
      then move_widget_route args project_id explicit
      else if says intent "save dashboard" || (says intent "save" && says intent "dashboard")
      then route salesforce "salesforce.save_dashboard" project_id explicit
      else if says intent "enter edit mode"
          || says intent "edit mode"
          || says intent "edit dashboard"
      then route salesforce "salesforce.enter_edit_mode" project_id explicit
      else route salesforce "salesforce.portfolio_summary" project_id explicit

  unfoldable pub browser_intent : Text → CommandRoute
  browser_intent intent =
      if says intent "click"
      then needing (click_missing args) (route browser "browser.click_element" project_id explicit)
      else if says intent "dom"
      then route browser "browser.inspect_dom" project_id explicit
      else if says intent "screenshot" || says intent "snapshot"
      then route browser "browser.capture_screenshot" project_id explicit
      else route browser "browser.inspect" project_id explicit

  abbrev frontier_project : Option String
  frontier_project = some (or_else "frontier-os" project_id)

  unfoldable pub other_intent : Text → CommandRoute
  other_intent intent =
      if says intent "helper" || says intent "launchd status"
      then route helper (if says intent "logs" then "logs.read" else "helper.status")
          frontier_project explicit
      else if says intent "repair" || says intent "restart" || says intent "fix launch"
      then route ops "ops.repair_launchagent" frontier_project explicit
      else if says intent "verify" || says intent "typecheck"
      then route project "project.verify" project_id explicit
      else if says intent "smoke"
      then route project "project.smoke" project_id explicit
      else if says intent "status" || says intent "health"
      then route project "project.status" project_id explicit
      else route unknown "command.intent" project_id explicit

abbrev overnight_verb : Text → String
overnight_verb intent =
    if says intent "brief"
    then "overnight.brief"
    else if says intent "run"
    then "overnight.run"
    else if says intent "queue" || says intent "enqueue"
    then "overnight.enqueue"
    else "overnight.plan"

abbrev mlx_verb : Text → String
mlx_verb intent =
    if says intent "smoke"
    then "mlx.smoke"
    else if says intent "benchmark" || says intent "bench"
    then "mlx.benchmark"
    else if says intent "generate"
    then "mlx.generate"
    else "mlx.status"

module _ (lower : Text → Text) (projects : List Project) where
  -- `inferProjectId`: the first project of which the intent has the id, the name or a tag.
  unfoldable pub infer_project_id : Text → List Project → Option String
  infer_project_id intent [] = none
  infer_project_id intent (p ∷ ps) =
      let rest = infer_project_id intent ps in
      if exists (λ candidate. not (is_empty candidate) && includes intent candidate)
        (lower (units p.id) ∷ lower p.name ∷ map lower p.ledger_tags)
      then some p.id
      else rest

  unfoldable pub classify_command :
      Text → Option String → Option ApprovalClass → Payload → CommandRoute
  classify_command raw given explicit payload =
      let intent = lower raw in
      let args = adapter_arguments payload in
      let project_id : Option String = elim given [
        | some id ↦ some id
        | none ↦ infer_project_id intent projects
      ] in
      if is_destructive_filesystem intent
      then route frontier "filesystem.delete" project_id explicit
      else if is_destructive_database intent
      then route frontier "database.drop" project_id explicit
      else if is_protected_restart intent
      then route ops "service.restart" project_id explicit
      else if says intent "overnight"
      then route overnight (overnight_verb intent) project_id explicit
      else if says intent "mlx"
      then route mlx (mlx_verb intent) (some (or_else "mlx-workbench" project_id)) explicit
      else elim (payload_route args project_id explicit (adapter_command payload)) [
        | some r ↦ r
        | none ↦
            if says intent "salesforce" || says intent "dashboard" || says intent "crm analytics"
            then salesforce_intent args project_id explicit intent
            else if says intent "browser" || says intent "tab"
            then browser_intent args project_id explicit intent
            else other_intent args project_id explicit intent
      ]
