-- ===== src/Swarm/Apply/Tests.antt =====
-- Edits of a small worktree by src/swarm/search-replace.ts. Absolute paths are here those with a
-- slash in front, and a path is resolved by putting the root before it, without a `./` in front.
use Prim.Native.Char.{code}
use frontier_os.Prelude.{
  ℕ, ◌+◌, ◌<◌, ◌≤◌, ◌≡◌, ◌↔◌, refl, sym, ap, ◌∙◌, ◌||◌, ◌&&◌, ◌==◌, str_eq, String, Bool, true,
  false, Option, none, some, List, [], ◌∷◌, ◌++◌, length, arith, eq_iff, Bool-cases, inl, inr,
  if◌then◌else◌,
}
use frontier_os.Prelude.Dict.{lookup, contains}
use frontier_os.Prelude.Text.{units, ◌<>◌}
use frontier_os.Swarm.Search.{Text, includes, count_occurrences, replace_first}
use frontier_os.Swarm.Search.Finding.{Occurs}
use frontier_os.Swarm.Apply.{
  Block, ok, err, thrown, not_found, Worktree, edit_once, edit_file, group, dry_run, write_all,
  commit, plan, apply_blocks,
}
use frontier_os.Swarm.Apply.Edits.{edit_once_replaces, edit_once-not_found_iff}
use frontier_os.Swarm.Apply.Success.{Succeeds, apply_blocks_iff}
use frontier_os.Swarm.Apply.Writes.{
  Fits, apply_blocks_atomic, apply_blocks_writes, apply_blocks_frame,
}
use frontier_os.Swarm.Apply.Phases.{Edited, IsInside, blocks_for}

abbrev slash_first : List ℕ → Bool
slash_first [] = false
slash_first (c ∷ cs) = c == b'/'

abbrev is_absolute : String → Bool
is_absolute path = slash_first (units path)

abbrev without_dot : String → String
without_dot (String.◌∷◌ c (String.◌∷◌ d rest)) =
    if (code c == b'.') && (code d == b'/') then rest else String.◌∷◌ c (String.◌∷◌ d rest)
without_dot path = path

abbrev resolved : String → String → String
resolved root path = root <> "/" <> without_dot path

-- Every write succeeds.
abbrev never : Worktree → String → Option Worktree
never tree file = none

-- The writes of b.ts throw, and leave the worktree as it is.
abbrev locked : Worktree → String → Option Worktree
locked tree file = if str_eq file "w/b.ts" then some tree else none

abbrev tree : Worktree
tree = ("w/a.ts", units "let x = 1;") ∷ ("w/b.ts", units "y()") ∷ []

abbrev one_to_two : Block
one_to_two = record { file_path = "a.ts"; search_text = units "1"; replacement = units "2" }

abbrev drop_call : Block
drop_call = record { file_path = "b.ts"; search_text = units "y()"; replacement = units "z" }

abbrev second_edit : Block
second_edit = record { file_path = "a.ts"; search_text = units "x = 2"; replacement = units "w" }

abbrev lost : Block
lost = record { file_path = "b.ts"; search_text = units "q"; replacement = units "z" }

abbrev doubled : Block
doubled = record { file_path = "b.ts"; search_text = units "y"; replacement = units "a$$b" }

abbrev edited : Worktree
edited = ("w/a.ts", units "let w;") ∷ ("w/b.ts", units "z") ∷ []

run_lem :
    apply_blocks is_absolute resolved never "w" (one_to_two ∷ drop_call ∷ second_edit ∷ []) tree
    ≡ (ok ("a.ts" ∷ "b.ts" ∷ []), edited)
unfolding apply_blocks commit plan group includes dry_run edit_file edit_once count_occurrences
    replace_first write_all
run_lem = refl

failed_run_lem :
    apply_blocks is_absolute resolved never "w" (one_to_two ∷ lost ∷ []) tree
    ≡ (err (not_found "b.ts"), tree)
unfolding apply_blocks commit plan group includes dry_run edit_file edit_once count_occurrences
    replace_first write_all
failed_run_lem = refl

-- Two names of one file: the second write replaces the first.
same_file_lem :
    apply_blocks is_absolute resolved never "w"
      (one_to_two ∷ (record one_to_two { file_path = "./a.ts"; replacement = units "3" }) ∷ [])
      tree
    ≡ (ok ("a.ts" ∷ "./a.ts" ∷ []), ("w/a.ts", units "let x = 3;") ∷ ("w/b.ts", units "y()") ∷ [])
unfolding apply_blocks commit plan group includes dry_run edit_file edit_once count_occurrences
    replace_first write_all
same_file_lem = refl

-- A write that throws after another one: the response is applied by half.
half_run_lem :
    apply_blocks is_absolute resolved locked "w" (one_to_two ∷ drop_call ∷ []) tree
    ≡ (thrown "b.ts", ("w/a.ts", units "let x = 2;") ∷ ("w/b.ts", units "y()") ∷ [])
unfolding apply_blocks commit plan group includes dry_run edit_file edit_once count_occurrences
    replace_first write_all
half_run_lem = refl

-- Two places that overlap are counted as one.
overlap_lem :
    edit_once "a.ts"
      (units "aaa")
      (record { file_path = "a.ts"; search_text = units "aa"; replacement = units "b" })
    ≡ ok (units "ba")
unfolding edit_once count_occurrences replace_first
overlap_lem = refl

-- The two paths that the run reports resolve to different files.
apart :
    (q : String)
    → contains ("a.ts" ∷ "b.ts" ∷ []) q ≡ true
    → resolved "w" q ≡ resolved "w" "a.ts"
    → q ≡ "a.ts"
apart q k e =
    let found : (str_eq "a.ts" q || (str_eq "b.ts" q || false)) ≡ true = k in
    elim (Bool-cases (str_eq "a.ts" q)) [
      | inl same ↦ sym ((eq_iff "a.ts" q).0 same)
      | inr other ↦
          let at : "b.ts" ≡ q = (eq_iff "b.ts" q).0 (ground (arith, found, other)) in
          let moved : resolved "w" "b.ts" ≡ resolved "w" q = ap (resolved "w") at in
          let clash : resolved "w" "b.ts" ≡ resolved "w" "a.ts" = moved ∙ e in
          absurd (ground (arith, (eq_iff "w/b.ts" "w/a.ts").1 clash))
    ]

edit_once_replaces_example :
    (before : Text) × (after : Text) × (units "let x = 1;" ≡ before ++ (units "1" ++ after))
    × (units "let x = 2;" ≡ before ++ (units "2" ++ after))
    × (¬ Occurs (units "1") after)
    × ((before' after' : Text)
        → units "let x = 1;" ≡ before' ++ (units "1" ++ after')
        → (length before ≤ length before') × (length before' < length before + length (units "1")))
unfolding edit_once count_occurrences replace_first
edit_once_replaces_example =
    edit_once_replaces "a.ts" (units "let x = 1;") (units "let x = 2;") one_to_two (omega arith)
      (ground arith) refl

edit_once-not_found_iff_example :
    (edit_once "b.ts" (units "y()") lost ≡ err (not_found "b.ts"))
    ↔ (¬ Occurs (units "q") (units "y()"))
edit_once-not_found_iff_example = edit_once-not_found_iff "b.ts" (units "y()") lost (omega arith)

apply_blocks_atomic_example :
    Fits is_absolute resolved "w" (one_to_two ∷ drop_call ∷ []) tree "b.ts"
apply_blocks_atomic_example =
    apply_blocks_atomic is_absolute resolved locked "w" (one_to_two ∷ drop_call ∷ []) tree
      (λ e.
        let whole = ap (λ r. r.1) half_run_lem in
        let at = ap (lookup "w/a.ts") (sym whole ∙ e) in ground (arith, at))
      "b.ts" (omega arith)

apply_blocks_iff_example : Succeeds is_absolute resolved never "w" (one_to_two ∷ lost ∷ []) tree ↔ (
    (path : String)
    → 0 < length (blocks_for path (one_to_two ∷ lost ∷ []))
    → Fits is_absolute resolved "w" (one_to_two ∷ lost ∷ []) tree path)
apply_blocks_iff_example =
    apply_blocks_iff is_absolute resolved never "w" (one_to_two ∷ lost ∷ []) tree (omega arith)
      (λ t file. refl)

apply_blocks_writes_example :
    IsInside is_absolute "a.ts"
    × (contains ("a.ts" ∷ "b.ts" ∷ []) "a.ts" ≡ true)
    × ((content : Text) × Edited "a.ts" (units "let x = 1;") (one_to_two ∷ second_edit ∷ []) content
        × (lookup "w/a.ts" edited ≡ some content))
apply_blocks_writes_example =
    apply_blocks_writes is_absolute resolved never "w" (one_to_two ∷ drop_call ∷ second_edit ∷ [])
      tree edited ("a.ts" ∷ "b.ts" ∷ []) "a.ts" run_lem (omega arith) apart

one_run_lem :
    apply_blocks is_absolute resolved never "w" (one_to_two ∷ []) tree
    ≡ (ok ("a.ts" ∷ []), ("w/a.ts", units "let x = 2;") ∷ ("w/b.ts", units "y()") ∷ [])
unfolding apply_blocks commit plan group includes dry_run edit_file edit_once count_occurrences
    replace_first write_all
one_run_lem = refl

apply_blocks_frame_example :
    lookup "w/b.ts" (("w/a.ts", units "let x = 2;") ∷ ("w/b.ts", units "y()") ∷ [])
    ≡ lookup "w/b.ts" tree
apply_blocks_frame_example =
    apply_blocks_frame is_absolute resolved never "w" (one_to_two ∷ []) tree
      (("w/a.ts", units "let x = 2;") ∷ ("w/b.ts", units "y()") ∷ []) ("a.ts" ∷ []) "w/b.ts"
      one_run_lem
      (λ path k e.
        let found : (str_eq "a.ts" path || false) ≡ true = k in
        let at : "a.ts" ≡ path = (eq_iff "a.ts" path).0 (ground (arith, found)) in
        let clash : "w/a.ts" ≡ "w/b.ts" = ap (resolved "w") at ∙ e in
        absurd (ground (arith, (eq_iff "w/a.ts" "w/b.ts").1 clash)))
