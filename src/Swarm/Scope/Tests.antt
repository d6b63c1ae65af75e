-- ===== src/Swarm/Scope/Tests.antt =====
-- Paths before the checks of src/swarm/diff-scope-checker.ts.
use frontier_os.Prelude.{◌≡◌, ◌↔◌, ◌⊎◌, String, true, false, List, [], ◌∷◌, All}
use frontier_os.Prelude.Text.{units}
use frontier_os.Swarm.Apply.{Block}
use frontier_os.Swarm.Scope.{check_diff_scope, check_search_replace_scope}
use frontier_os.Swarm.Scope.Allowed.{
  IsSafePath, IsInScope, check_diff_scope-allowed_iff, check_search_replace_scope-allowed_iff,
}

abbrev files : List String
files = "src/a.ts" ∷ "src/../b.ts" ∷ []

abbrev block : String → Block
block path = record { file_path = path; search_text = units "x"; replacement = units "y" }

check_diff_scope-allowed_iff_example :
    ((check_diff_scope files false ("src/a.ts" ∷ [])).allowed ≡ true) ↔ (
      (files ≡ [])
      ⊎ ((false ≡ false) × All IsSafePath files × All (IsInScope ("src/a.ts" ∷ [])) files))
check_diff_scope-allowed_iff_example = check_diff_scope-allowed_iff files false ("src/a.ts" ∷ [])

check_search_replace_scope-allowed_iff_example :
    ((check_search_replace_scope (block "b.ts" ∷ block "a.ts" ∷ block "b.ts" ∷ []) []).allowed
      ≡ true)
    ↔ All
        (λ b. IsSafePath b.file_path × IsInScope [] b.file_path)
        (block "b.ts" ∷ block "a.ts" ∷ block "b.ts" ∷ [])
check_search_replace_scope-allowed_iff_example =
    check_search_replace_scope-allowed_iff (block "b.ts" ∷ block "a.ts" ∷ block "b.ts" ∷ []) []
