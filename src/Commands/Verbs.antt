-- ===== src/Commands/Verbs.antt =====
-- `route` and `inferredClassForVerb` of src/commands/store.ts. The confidence is left out.
use frontier_os.Prelude.{
  or_else, String, Bool, true, false, Option, none, List, [], ◌∷◌, str_eq, if◌then◌else◌,
}
use frontier_os.Prelude.Dict.{contains}
use frontier_os.Work.{ApprovalClass, class_0, class_1, class_2, class_3}
use frontier_os.Policy.{side_effects_for_class}
use frontier_os.Commands.{CommandLane, project, unknown, CommandRoute}

abbrev pub class_zero_verbs : List String
class_zero_verbs =
    "project.status" ∷ "helper.status" ∷ "overnight.plan" ∷ "overnight.brief" ∷ "mlx.status"
    ∷ "browser.inspect" ∷ "browser.inspect_dom" ∷ "browser.inspect_network"
    ∷ "browser.capture_screenshot" ∷ "salesforce.inspect_dashboard" ∷ "salesforce.inspect_report"
    ∷ "salesforce.list_filters" ∷ "salesforce.audit_dashboard" ∷ []

abbrev pub class_one_verbs : List String
class_one_verbs =
    "project.verify" ∷ "project.smoke" ∷ "overnight.enqueue" ∷ "overnight.run" ∷ "mlx.smoke"
    ∷ "mlx.benchmark" ∷ "mlx.generate" ∷ "salesforce.portfolio_summary"
    ∷ "salesforce.set_report_filter" ∷ "salesforce.set_filter" ∷ "salesforce.enter_edit_mode"
    ∷ "salesforce.move_widget" ∷ "salesforce.save_dashboard" ∷ "browser.click_element"
    ∷ "browser.enter_text" ∷ "browser.select_option" ∷ "browser.navigate" ∷ "command.intent"
    ∷ "logs.read" ∷ []

unfoldable pub inferred_class_for_verb : String → ApprovalClass
inferred_class_for_verb verb =
    if contains class_zero_verbs verb
    then class_0
    else if contains class_one_verbs verb
    then class_1
    else if str_eq verb "ops.repair_launchagent"
    then class_2
    else if contains ("filesystem.delete" ∷ "database.drop" ∷ "service.restart" ∷ []) verb
    then class_3
    else class_1

abbrev is_unknown : CommandLane → Bool
is_unknown unknown = true
is_unknown _ = false

abbrev missing_project : CommandLane → Option String → List String
missing_project project none = "projectId" ∷ []
missing_project _ _ = []

unfoldable pub route : CommandLane → String → Option String → Option ApprovalClass → CommandRoute
unfolding inferred_class_for_verb
route lane verb project_id explicit_class =
    let class = or_else (inferred_class_for_verb verb) explicit_class in
    record {
      lane = lane;
      verb = verb;
      project_id = project_id;
      approval_class = class;
      side_effects = side_effects_for_class class;
      reason = if is_unknown lane then "fallback_intent_route" else "deterministic_intent_route";
      missing_inputs = missing_project lane project_id;
    }

-- `{ ...route(…), missingInputs }`
abbrev pub needing : List String → CommandRoute → CommandRoute
needing missing r = record r { missing_inputs = missing }
