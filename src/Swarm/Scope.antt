-- ===== src/Swarm/Scope.antt =====
-- src/swarm/diff-scope-checker.ts: the check of the paths that a patch or a list of blocks touches.
-- Which files a diff touches, and whether it has binary parts, are found by regular expressions that
-- are not modelled: the checks start from those. The printed reason is left out.
pub mod Allowed
mod Tests
use frontier_os.Prelude.{
  ℕ, String, Bool, true, false, not, ◌&&◌, Option, none, some, List, [], ◌∷◌, ◌++◌, map, length,
  ◌==◌, if◌then◌else◌,
}
use frontier_os.Prelude.Dict.{contains}
use frontier_os.Prelude.Text.{units, lt_text}
use frontier_os.Swarm.Search.{Text}
use frontier_os.Swarm.Apply.{Block}

pub data ScopeReason : Type 0 where
  outside_touch_list binary_file absolute_path parent_traversal : ScopeReason

pub record ScopeViolation : Type 0 where
  pub path : String
  pub reason : ScopeReason

pub record ScopeCheckResult : Type 0 where
  pub allowed : Bool
  pub touched_files : List String
  pub violations : List ScopeViolation

-- `p.split("/")`
abbrev pub segments : Text → List Text
segments [] = [] ∷ []
segments (c ∷ text) =
    let rest = segments text in
    if c == b'/'
    then [] ∷ rest
    else elim rest [ [] ↦ (c ∷ []) ∷ [] | part ∷ parts ↦ (c ∷ part) ∷ parts ]

-- `segments.includes("..")`
abbrev pub is_up : Text → Bool
is_up (c ∷ d ∷ []) = c == b'.' && d == b'.'
is_up _ = false

abbrev pub has_up : List Text → Bool
has_up [] = false
has_up (part ∷ parts) = let rest = has_up parts in if is_up part then true else rest

abbrev pub starts_with_slash : Text → Bool
starts_with_slash [] = false
starts_with_slash (c ∷ text) = c == b'/'

unfoldable pub check_path_danger : String → Option ScopeReason
check_path_danger p =
    if starts_with_slash (units p)
    then some absolute_path
    else if has_up (segments (units p))
    then some parent_traversal
    else none

unfoldable pub binary_violations : List String → List ScopeViolation
binary_violations [] = []
binary_violations (p ∷ ps) = record { path = p; reason = binary_file } ∷ binary_violations ps

unfoldable pub danger_violations : List String → List ScopeViolation
danger_violations [] = []
danger_violations (p ∷ ps) =
    let rest = danger_violations ps in
    elim (check_path_danger p) [ none ↦ rest | some r ↦ record { path = p; reason = r } ∷ rest ]

unfoldable pub outside_violations : List String → List String → List ScopeViolation
outside_violations touch_list [] = []
outside_violations touch_list (p ∷ ps) =
    let rest = outside_violations touch_list ps in
    if contains touch_list p then rest else record { path = p; reason = outside_touch_list } ∷ rest

-- The check of the touch list, which an empty list skips.
unfoldable pub scope_violations : List String → List String → List ScopeViolation
scope_violations [] files = []
scope_violations (t ∷ ts) files = outside_violations (t ∷ ts) files

abbrev verdict : List String → List ScopeViolation → ScopeCheckResult
verdict files violations = record {
  allowed = length violations == 0;
  touched_files = files;
  violations = violations;
}

-- `checkDiffScope`, from the files that the diff touches and whether it has binary parts.
unfoldable pub check_diff_scope : List String → Bool → List String → ScopeCheckResult
check_diff_scope [] binary touch_list = verdict [] []
check_diff_scope (p ∷ ps) binary touch_list = verdict (p ∷ ps) (
    (if binary then binary_violations (p ∷ ps) else [])
    ++ (danger_violations (p ∷ ps) ++ scope_violations touch_list (p ∷ ps)))

-- `Array.from(new Set(paths)).sort()`
abbrev pub add_path : String → List String → List String
add_path p [] = p ∷ []
add_path p (q ∷ qs) = let rest = add_path p qs in if lt_text p q then p ∷ q ∷ qs else q ∷ rest

abbrev pub distinct_paths : List Block → List String
distinct_paths [] = []
distinct_paths (b ∷ bs) =
    let rest = distinct_paths bs in
    if contains rest b.file_path then rest else add_path b.file_path rest

unfoldable pub check_files : List String → List String → ScopeCheckResult
check_files [] touch_list = verdict [] []
check_files (p ∷ ps) touch_list =
    verdict (p ∷ ps) (danger_violations (p ∷ ps) ++ scope_violations touch_list (p ∷ ps))

unfoldable pub check_search_replace_scope : List Block → List String → ScopeCheckResult
check_search_replace_scope blocks touch_list = check_files (distinct_paths blocks) touch_list
