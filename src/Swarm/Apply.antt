-- ===== src/Swarm/Apply.antt =====
-- `applySearchReplaceBlocks` of src/swarm/search-replace.ts: all blocks are tried on copies first,
-- and written only if every one of them fits. The worktree is a map from resolved paths to texts;
-- `isAbsolute` and `resolve` of node:path are parameters, and so is what makes a write throw.
pub mod Edits
pub mod Phases
pub mod Success
pub mod Writes
mod Tests
use frontier_os.Prelude.{
  or_else, ℕ, zero, suc, String, Bool, true, false, Option, none, some, List, [], ◌∷◌, ◌++◌, ◌==◌,
  length, if◌then◌else◌, ltb,
}
use frontier_os.Prelude.Dict.{Dict, lookup, insert}
use frontier_os.Prelude.Text.{units}
use frontier_os.Swarm.Search.{Text, includes, count_occurrences, replace_first}

pub record Block : Type 0 where
  pub file_path : String
  pub search_text : Text
  pub replacement : Text

-- The messages of a failed run.
pub data ApplyError : Type 0 where
  no_blocks : ApplyError
  absolute_path path_traversal refused_to_clobber not_found : String → ApplyError
  ambiguous : String → ℕ → ApplyError

-- A result, an answer that is not `ok`, or the exception of a write, with the path it was for.
pub data Outcome {ℓ} (A : Type ℓ) : Type ℓ where
  ok : A → Outcome A
  err : ApplyError → Outcome A
  thrown : String → Outcome A

infixl 5 ◌>>=◌
abbrev pub ◌>>=◌ {μ ν} : {X : Type μ} {Y : Type ν} → Outcome X → (X → Outcome Y) → Outcome Y
err reason >>= next = err reason
thrown path >>= next = thrown path
ok x >>= next = next x

abbrev pub Worktree : Type 0
Worktree = Dict Text

-- The body of the loop over a file's blocks.
unfoldable pub edit_once : String → Text → Block → Outcome Text
edit_once path current block =
    let matches = count_occurrences current block.search_text in
    if length block.search_text == 0
    then (if ltb 0 (length current) then err (refused_to_clobber path) else ok block.replacement)
    else if matches == 0
    then err (not_found path)
    else if ltb 1 matches
    then err (ambiguous path matches)
    else ok (replace_first current block.search_text block.replacement)

unfoldable pub edit_file : String → Text → List Block → Outcome Text
edit_file path current [] = ok current
edit_file path current (block ∷ blocks) = do
  next ← edit_once path current block
  edit_file path next blocks

-- `x.includes("..")`, on the code units.
abbrev pub has_dots : String → Bool
has_dots path = includes (units path) (b'.' ∷ b'.' ∷ [])

module _ (is_absolute : String → Bool) where
  -- The grouping loop, with its checks of the paths.
  unfoldable pub group : Dict (List Block) → List Block → Outcome (Dict (List Block))
  group by_file [] = ok by_file
  group by_file (block ∷ blocks) =
      let path = block.file_path in
      let rest =
        group (insert path (or_else [] (lookup path by_file) ++ block ∷ []) by_file) blocks in
      if is_absolute path
      then err (absolute_path path)
      else if has_dots path
      then err (path_traversal path)
      else rest

module _ (resolve : String → String → String) where
  -- Phase 1: the texts after all edits; nothing is written.
  unfoldable pub dry_run : String → Worktree → Dict (List Block) → Dict Text → Outcome (Dict Text)
  dry_run root tree [] contents = ok contents
  dry_run root tree ((path, blocks) ∷ by_file) contents = do
    content ← edit_file path (or_else [] (lookup (resolve root path) tree)) blocks
    dry_run root tree by_file (insert path content contents)

module _ (resolve : String → String → String) (failure : Worktree → String → Option Worktree) where
  -- Phase 2: every text is written, and its path noted. `failure` says whether the write of a file
  -- throws, and what worktree it leaves then; the exception ends the loop and the run.
  unfoldable pub write_all :
      String → Dict Text → Worktree × List String → Outcome (List String) × Worktree
  write_all root [] (tree, written) = (ok written, tree)
  write_all root ((path, content) ∷ contents) (tree, written) =
      let file = resolve root path in
      let rest = write_all root contents (insert file content tree, written ++ path ∷ []) in
      elim (failure tree file) [ none ↦ rest | some left ↦ (thrown path, left) ]

  -- A plan that failed is reported; one that did not is written.
  unfoldable pub commit : String → Worktree → Outcome (Dict Text) → Outcome (List String) × Worktree
  commit root tree (err e) = (err e, tree)
  commit root tree (thrown path) = (thrown path, tree)
  commit root tree (ok contents) = write_all root contents (tree, [])

module _ (is_absolute : String → Bool) (resolve : String → String → String) where
  unfoldable pub plan : String → List Block → Worktree → Outcome (Dict Text)
  plan root blocks tree = do
    by_file ← group is_absolute [] blocks
    dry_run resolve root tree by_file []

module _ (is_absolute : String → Bool) (resolve : String → String → String)
    (failure : Worktree → String → Option Worktree) where
  unfoldable pub apply_blocks : String → List Block → Worktree → Outcome (List String) × Worktree
  apply_blocks root [] tree = (err no_blocks, tree)
  apply_blocks root (block ∷ blocks) tree =
      commit resolve failure root tree (plan is_absolute resolve root (block ∷ blocks) tree)
