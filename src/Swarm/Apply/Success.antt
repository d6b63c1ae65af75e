-- ===== src/Swarm/Apply/Success.antt =====
-- src/swarm/search-replace.ts: when a run of the edits succeeds.
use frontier_os.Prelude.{
  or_else, ◌≡◌, ◌↔◌, refl, String, Bool, false, Option, none, some, List, [], ◌∷◌, ◌++◌, arith,
  str_eq, eq_iff, inl, inr, Bool-cases, length, ◌<◌,
}
use frontier_os.Prelude.Dict.{Dict, lookup, insert, has, has_of_lookup, IsMap}
use frontier_os.Swarm.Search.{Text}
use frontier_os.Swarm.Apply.{
  Block, ok, Worktree, edit_file, group, dry_run, write_all, commit, plan, apply_blocks,
}
use frontier_os.Swarm.Apply.Phases.{
  >>=-ok, edit_file-Edited, Edited-edit_file, blocks_for, IsInside, group_lem,
}
use frontier_os.Swarm.Apply.Writes.{Fits, planned_text, apply_blocks-ok}

-- Without a block the text stays.
edit_some :
    (path : String) (old : Text) (blocks : List Block)
    → (0 < length blocks → (content : Text) × (edit_file path old blocks ≡ ok content))
    → (content : Text) × (edit_file path old blocks ≡ ok content)
unfolding edit_file
edit_some path old [] fit = (old, refl)
edit_some path old (block ∷ blocks) fit = fit (omega arith)

module _ (is_absolute : String → Bool) where
  group_succeeds :
      (blocks : List Block) (before : Dict (List Block))
      → ((path : String) → 0 < length (blocks_for path blocks) → IsInside is_absolute path)
      → (after : Dict (List Block)) × (group is_absolute before blocks ≡ ok after)
  unfolding group
  group_succeeds [] before inside = (before, refl)
  group_succeeds (block ∷ blocks) before inside =
      let here = block.file_path in
      let (relative, plain) = inside here (ground (arith, eq_iff here here)) in
      let (after, grouped) =
        group_succeeds blocks (insert here (or_else [] (lookup here before) ++ block ∷ []) before)
          (λ path named. inside path (ground (arith, named))) in
      (after, rw (relative, plain) grouped)

module _ (resolve : String → String → String) (root : String) (tree : Worktree) where
  dry_run_succeeds :
      (by_file : Dict (List Block)) (contents : Dict Text)
      → IsMap by_file
      → ((path : String) (blocks : List Block)
          → lookup path by_file ≡ some blocks
          → (content : Text) × (edit_file path (or_else [] (lookup (resolve root path) tree)) blocks
              ≡ ok content))
      → (final : Dict Text) × (dry_run resolve root tree by_file contents ≡ ok final)
  unfolding dry_run
  dry_run_succeeds [] contents m fit = (contents, refl)
  dry_run_succeeds ((path, blocks) ∷ by_file) contents (fresh, m) fit =
      let (content, edited) = fit path blocks (ground (arith, eq_iff path path)) in
      let (final, done) =
        dry_run_succeeds by_file (insert path content contents) m (λ other mine found.
          elim (Bool-cases (str_eq path other)) [
            | inl same ↦
                let here : path ≡ other = (eq_iff path other).0 same in
                let gone : has other by_file ≡ false = rw here at fresh in
                absurd (ground (arith, has_of_lookup other mine by_file found, gone))
            | inr differ ↦ fit other mine (ground (arith, found, differ))
          ]) in
      (
        final,
        >>=-ok _ (edit_file path (or_else [] (lookup (resolve root path) tree)) blocks) edited done,
      )

module _ (resolve : String → String → String) (failure : Worktree → String → Option Worktree)
    (root : String) where
  write_all_succeeds :
      ((tree : Worktree) (file : String) → failure tree file ≡ none)
      → (contents : Dict Text) (tree : Worktree) (written : List String)
      → (out : List String) × (after : Worktree) × (write_all resolve failure root contents
            (tree, written)
          ≡ (ok out, after))
  unfolding write_all
  write_all_succeeds safe [] tree written = (written, tree, refl)
  write_all_succeeds safe ((path, content) ∷ contents) tree written =
      let file = resolve root path in
      let (out, after, done) =
        write_all_succeeds safe contents (insert file content tree) (written ++ path ∷ []) in
      (out, after, rw (safe tree file, write_all) done)

module _ (is_absolute : String → Bool) (resolve : String → String → String)
    (failure : Worktree → String → Option Worktree) (root : String) where
  -- The run returns, with the paths that were written.
  abbrev pub Succeeds : List Block → Worktree → Type 0
  Succeeds blocks tree =
      (written : List String) × (after : Worktree) × (apply_blocks is_absolute resolve failure root
          blocks tree
        ≡ (ok written, after))

  -- Where no write throws, a run on some blocks succeeds exactly if all blocks of each path that is
  -- named can be applied, in their order, to the old text of its file, and the path is not
  -- absolute and has no two dots in a row.
  pub apply_blocks_iff :
      (blocks : List Block) (tree : Worktree)
      → 0 < length blocks
      → ((t : Worktree) (file : String) → failure t file ≡ none)
      → Succeeds blocks tree ↔ (
          (path : String)
          → 0 < length (blocks_for path blocks)
          → Fits is_absolute resolve root blocks tree path)
  unfolding apply_blocks plan commit
  apply_blocks_iff [] tree some_block safe = absurd (omega arith)
  apply_blocks_iff (block ∷ rest) tree some_block safe =
      let blocks = block ∷ rest in
      (
        λ (written, after, h) path named.
            let (by_file, contents, grouped, run, _) =
              apply_blocks-ok is_absolute resolve failure root blocks tree after written h in
            let (_, inside, (content, edited, _)) =
              planned_text is_absolute resolve root blocks tree by_file contents path grouped run
                named in
            (inside, (content, edit_file-Edited path _ content _ edited)),
        λ fits.
            let (by_file, grouped) =
              group_succeeds is_absolute blocks [] (λ path named. (fits path named).0) in
            let (contents, run) =
              dry_run_succeeds resolve root tree by_file []
                (group_lem is_absolute blocks [] by_file "" grouped tt).0
                (λ path mine at.
                  let own = (group_lem is_absolute blocks [] by_file path grouped tt).1 in
                  let same : mine ≡ blocks_for path blocks = ground (arith, own, at) in
                  rw same (
                    edit_some path _ (blocks_for path blocks) (λ named.
                      let (content, edited) = (fits path named).1 in
                      (content, Edited-edit_file path _ content _ edited)))) in
            let planned : plan is_absolute resolve root blocks tree ≡ ok contents =
              >>=-ok _ (group is_absolute [] blocks) grouped run in
            let (out, after, done) =
              write_all_succeeds resolve failure root safe contents tree [] in
            (out, after, rw planned done),
      )
