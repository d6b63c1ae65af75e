-- ===== src/Commands/Payload.antt =====
-- The payload of a command, as src/commands/store.ts reads it: `adapterCommand`, and the fields of
-- `adapterArguments`. What is never looked into keeps its printed JSON.
use frontier_os.Prelude.{
  String, Bool, true, false, not, ◌&&◌, ◌||◌, Option, none, some, List, [], ◌∷◌, ◌++◌, ◌==◌,
  if◌then◌else◌,
}
use frontier_os.Prelude.Dict.{Dict, lookup}
use frontier_os.Prelude.Text.{units}
use frontier_os.Swarm.Search.{Text}
use frontier_os.Arbiter.AntiExample.{is_space, drop_while, trim_end}

pub data Scalar : Type 0 where
  text : Text → Scalar
  number : String → Scalar
  other : String → Scalar

pub data Value : Type 0 where
  scalar : Scalar → Value
  object : Dict Scalar → Value

abbrev pub Arguments : Type 0
Arguments = Dict Scalar

abbrev pub Payload : Type 0
Payload = Dict Value

-- `trim`
abbrev pub trim : Text → Text
trim s = trim_end (drop_while is_space s)

abbrev pub is_empty : Text → Bool
is_empty [] = true
is_empty (c ∷ s) = false

unfoldable pub adapter_command : Payload → Option Text
adapter_command payload = elim (lookup "adapterCommand" payload) [
  | some (scalar (text s)) ↦ if is_empty (trim s) then none else some (trim s)
  | _ ↦ none
]

unfoldable pub adapter_arguments : Payload → Arguments
adapter_arguments payload = elim (lookup "adapterArguments" payload) [
  | some (object fs) ↦ fs
  | _ ↦ []
]

-- `typeof args.k === "string"`, and that with a text that is not blank.
abbrev pub is_text : String → Arguments → Bool
is_text k args = elim (lookup k args) [ some (text s) ↦ true | _ ↦ false ]

abbrev pub is_number : String → Arguments → Bool
is_number k args = elim (lookup k args) [ some (number n) ↦ true | _ ↦ false ]

abbrev pub is_filled : String → Arguments → Bool
is_filled k args = elim (lookup k args) [ some (text s) ↦ not (is_empty (trim s)) | _ ↦ false ]

-- `if (!ok) missing.push(name)`
abbrev pub require : Bool → String → List String
require true name = []
require false name = name ∷ []

abbrev pub has_locator : Arguments → Bool
has_locator args = is_text "selector" args || is_text "text" args || is_text "ariaLabel" args

abbrev pub locator_name : String
locator_name = "adapterArguments.selector|text|ariaLabel"

unfoldable pub click_missing : Arguments → List String
click_missing args = require (has_locator args) locator_name

unfoldable pub enter_text_missing : Arguments → List String
enter_text_missing args =
    require (has_locator args) locator_name
    ++ require (is_text "value" args) "adapterArguments.value"

unfoldable pub navigate_missing : Arguments → List String
navigate_missing args = require (is_filled "url" args) "adapterArguments.url"

unfoldable pub select_option_missing : Arguments → List String
select_option_missing args =
    require (has_locator args) locator_name
    ++ require (is_text "optionLabel" args || is_text "optionValue" args)
        "adapterArguments.optionLabel|optionValue"

-- `args.variant`, trimmed, or "click".
abbrev pub variant : Arguments → Text
variant args = elim (lookup "variant" args) [
  | some (text s) ↦ if is_empty (trim s) then units "click" else trim s
  | _ ↦ units "click"
]

abbrev pub same_text : Text → Text → Bool
same_text [] [] = true
same_text (c ∷ s) (d ∷ t) = c == d && same_text s t
same_text _ _ = false

unfoldable pub set_filter_missing : Arguments → List String
set_filter_missing args =
    require (is_filled "filterLabel" args) "adapterArguments.filterLabel"
    ++ (if same_text (variant args) (units "dropdown")
        then require (is_filled "optionLabel" args) "adapterArguments.optionLabel"
        else require (is_filled "expectedNewLabel" args) "adapterArguments.expectedNewLabel")

unfoldable pub report_filter_missing : Arguments → List String
report_filter_missing args =
    require (is_filled "filterLabel" args) "adapterArguments.filterLabel"
    ++ (require (is_filled "actionLabel" args) "adapterArguments.actionLabel"
        ++ require (is_filled "expectedNewLabel" args) "adapterArguments.expectedNewLabel")

unfoldable pub move_widget_missing : Arguments → List String
move_widget_missing args =
    require (is_text "selector" args || is_text "widgetId" args || is_text "widgetTitle" args)
      "adapterArguments.selector|widgetId|widgetTitle"
    ++ require
        (is_text "targetSelector" args
          || is_text "direction" args
          || is_number "deltaX" args
          || is_number "deltaY" args)
        "adapterArguments.targetSelector|direction|deltaX|deltaY"
