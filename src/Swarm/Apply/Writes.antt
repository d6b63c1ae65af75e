-- ===== src/Swarm/Apply/Writes.antt =====
-- src/swarm/search-replace.ts: what a run of the edits writes, and when it writes at all.
use frontier_os.Prelude.{
  or_else, ◌≡◌, ◌≢◌, refl, ap, String, Bool, true, Option, none, some, List, [], ◌∷◌, arith, eq_iff,
  inl, inr, length, ◌<◌,
}
use frontier_os.Prelude.Dict.{Dict, lookup, contains, has, IsMap, contains-keys, has_of_lookup}
use frontier_os.Swarm.Search.{Text}
use frontier_os.Swarm.Apply.{
  Block, Outcome, ok, err, thrown, Worktree, edit_file, group, dry_run, write_all, commit, plan,
  apply_blocks,
}
use frontier_os.Swarm.Apply.Phases.{
  Edited, edit_file-Edited, >>=-eq-ok, blocks_for, IsInside, group_lem, group-IsInside, dry_run_lem,
  write_all_lem, write_all_found,
}

-- A value that was found, where the default is shorter.
lookup_of_or_else :
    (blocks : List Block) (found : Option (List Block))
    → 0 < length blocks
    → or_else [] found ≡ blocks
    → found ≡ some blocks
lookup_of_or_else blocks none h e = absurd (ground arith)
lookup_of_or_else blocks (some mine) h e = ap some e

module _ (resolve : String → String → String) (failure : Worktree → String → Option Worktree)
    (root : String) where
  commit-changes :
      (planned : Outcome (Dict Text)) (tree : Worktree)
      → (commit resolve failure root tree planned).1 ≢ tree
      → (contents : Dict Text) × (planned ≡ ok contents)
  unfolding commit
  commit-changes (err _) tree changed = absurd (changed refl)
  commit-changes (thrown _) tree changed = absurd (changed refl)
  commit-changes (ok contents) tree changed = (contents, refl)

  commit-ok :
      (planned : Outcome (Dict Text)) (tree after : Worktree) (written : List String)
      → commit resolve failure root tree planned ≡ (ok written, after)
      → (contents : Dict Text) × (planned ≡ ok contents)
        × (write_all resolve failure root contents (tree, []) ≡ (ok written, after))
  unfolding commit
  commit-ok (err _) tree after written h = absurd (ground arith)
  commit-ok (thrown _) tree after written h = absurd (ground arith)
  commit-ok (ok contents) tree after written h = (contents, refl, h)

module _ (is_absolute : String → Bool) (resolve : String → String → String) (root : String) where
  plan-ok :
      (blocks : List Block) (tree : Worktree) (contents : Dict Text)
      → plan is_absolute resolve root blocks tree ≡ ok contents
      → (by_file : Dict (List Block)) × (group is_absolute [] blocks ≡ ok by_file)
        × (dry_run resolve root tree by_file [] ≡ ok contents)
  unfolding plan
  plan-ok blocks tree contents made = >>=-eq-ok _ (group is_absolute [] blocks) made

  -- The blocks that name the path can be applied, in their order, to what the path's file holds.
  abbrev pub Fits : List Block → Worktree → String → Type 0
  Fits blocks tree path =
      IsInside is_absolute path
      × ((content : Text) × Edited path (or_else [] (lookup (resolve root path) tree))
            (blocks_for path blocks) content)

  pub planned_text :
      (blocks : List Block) (tree : Worktree) (by_file : Dict (List Block)) (contents : Dict Text)
      (path : String)
      → group is_absolute [] blocks ≡ ok by_file
      → dry_run resolve root tree by_file [] ≡ ok contents
      → 0 < length (blocks_for path blocks)
      → IsMap contents
        × IsInside is_absolute path
        × ((content : Text) × (edit_file path
                (or_else [] (lookup (resolve root path) tree))
                (blocks_for path blocks)
              ≡ ok content)
            × (lookup path contents ≡ some content))
  planned_text blocks tree by_file contents path grouped run named =
      let (m, mine) = group_lem is_absolute blocks [] by_file path grouped tt in
      let at = lookup_of_or_else (blocks_for path blocks) (lookup path by_file) named mine in
      let (keeps, has_eq, outside, found) =
        dry_run_lem resolve root tree by_file [] contents path m run in
      (
        keeps tt,
        elim (group-IsInside is_absolute blocks [] by_file path grouped
            (has_of_lookup path _ by_file at)) [
              | inl old ↦ absurd (ground arith)
              | inr inside ↦ inside
            ],
        found (blocks_for path blocks) at,
      )

module _ (is_absolute : String → Bool) (resolve : String → String → String)
    (failure : Worktree → String → Option Worktree) (root : String) where
  -- Nothing is changed before every block is known to fit: if a run leaves another worktree than it
  -- found, also one that a write ended by throwing, then all blocks of each path that is named
  -- could be applied to the old text of its file, and the path is not absolute and has no two dots
  -- in a row.
  pub apply_blocks_atomic :
      (blocks : List Block) (tree : Worktree)
      → (apply_blocks is_absolute resolve failure root blocks tree).1 ≢ tree
      → (path : String) → 0 < length (blocks_for path blocks)
      → Fits is_absolute resolve root blocks tree path
  unfolding apply_blocks
  apply_blocks_atomic [] tree changed path named = absurd (changed refl)
  apply_blocks_atomic (block ∷ blocks) tree changed path named =
      let (contents, made) =
        commit-changes resolve failure root (plan is_absolute resolve root (block ∷ blocks) tree)
          tree changed in
      let (by_file, grouped, run) =
        plan-ok is_absolute resolve root (block ∷ blocks) tree contents made in
      let (_, inside, (content, edited, _)) =
        planned_text is_absolute resolve root (block ∷ blocks) tree by_file contents path grouped
          run named in
      (inside, (content, edit_file-Edited path _ content _ edited))

  pub apply_blocks-ok :
      (blocks : List Block) (tree after : Worktree) (written : List String)
      → apply_blocks is_absolute resolve failure root blocks tree ≡ (ok written, after)
      → (by_file : Dict (List Block)) × (contents : Dict Text) × (group is_absolute [] blocks
          ≡ ok by_file)
        × (dry_run resolve root tree by_file [] ≡ ok contents)
        × (write_all resolve failure root contents (tree, []) ≡ (ok written, after))
  unfolding apply_blocks
  apply_blocks-ok [] tree after written h = absurd (ground arith)
  apply_blocks-ok (block ∷ blocks) tree after written h =
      let (contents, made, rest) =
        commit-ok resolve failure root (plan is_absolute resolve root (block ∷ blocks) tree) tree
          after written h in
      let (by_file, grouped, run) =
        plan-ok is_absolute resolve root (block ∷ blocks) tree contents made in
      (by_file, contents, grouped, run, rest)

  -- After a run that succeeds, each file that a block names has a path that is not absolute and has
  -- no dots in a row, is reported as written, and holds what the file's blocks, in their order, made
  -- of its old text (none for a file that was not there), if no other path that is reported
  -- resolves to that file.
  pub apply_blocks_writes :
      (blocks : List Block) (tree after : Worktree) (written : List String) (path : String)
      → apply_blocks is_absolute resolve failure root blocks tree ≡ (ok written, after)
      → 0 < length (blocks_for path blocks)
      → ((q : String) → contains written q ≡ true → resolve root q ≡ resolve root path → q ≡ path)
      → IsInside is_absolute path
        × (contains written path ≡ true)
        × ((content : Text) × Edited path
              (or_else [] (lookup (resolve root path) tree))
              (blocks_for path blocks)
              content
            × (lookup (resolve root path) after ≡ some content))
  apply_blocks_writes blocks tree after written path h named apart =
      let (by_file, contents, grouped, run, rest) = apply_blocks-ok blocks tree after written h in
      let (m, inside, (content, edited, holds)) =
        planned_text is_absolute resolve root blocks tree by_file contents path grouped run named in
      let (names, kept) = write_all_lem resolve failure root contents tree after [] written rest in
      let reported : (q : String) → has q contents ≡ true → contains written q ≡ true =
        λ q k. rw (names, contains-keys q contents) k in
      (
        inside,
        reported path (has_of_lookup path content contents holds),
        (
          content,
          edit_file-Edited path _ content _ edited,
          write_all_found resolve failure root contents tree after [] written path content
              (λ q k. apart q (reported q k)) m holds rest,
        ),
      )

  -- A run that succeeds writes no file but those it reports.
  pub apply_blocks_frame :
      (blocks : List Block) (tree after : Worktree) (written : List String) (file : String)
      → apply_blocks is_absolute resolve failure root blocks tree ≡ (ok written, after)
      → ((path : String) → contains written path ≡ true → resolve root path ≢ file)
      → lookup file after ≡ lookup file tree
  apply_blocks_frame blocks tree after written file h apart =
      let (by_file, contents, grouped, run, rest) = apply_blocks-ok blocks tree after written h in
      let (names, kept) = write_all_lem resolve failure root contents tree after [] written rest in
      kept file (λ path k.
        let differ = apart path (rw (names, contains-keys path contents) k) in
        ground (arith, differ, eq_iff (resolve root path) file))
