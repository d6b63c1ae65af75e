-- ===== src/Swarm/Apply/Phases.antt =====
-- src/swarm/search-replace.ts: what grouping, the first and the second phase leave.
use frontier_os.Prelude.{
  or_else, ◌≡◌, refl, ap, sym, ◌∙◌, String, Bool, true, false, ◌||◌, some, List, [], ◌∷◌, ◌++◌,
  select, arith, str_eq, eq_iff, Bool-cases, inl, inr, append_assoc, append-nil, ◌⊎◌, Option,
  Option-cases,
}
use frontier_os.Prelude.Dict.{
  Dict, lookup, insert, has, lookup-insert, has-insert, IsMap, insert-IsMap, keys,
}
use frontier_os.Swarm.Search.{Text}
use frontier_os.Swarm.Apply.{
  Block, Outcome, ok, err, thrown, ◌>>=◌, Worktree, edit_once, edit_file, has_dots, group, dry_run,
  write_all,
}

pub >>=-eq-ok {μ ν} :
    {X : Type μ} {Y : Type ν} (next : X → Outcome Y) (before : Outcome X) {y : Y}
    → (before >>= next) ≡ ok y
    → (x : X) × (before ≡ ok x) × (next x ≡ ok y)
>>=-eq-ok next (err reason) done = absurd (ground arith)
>>=-eq-ok next (thrown path) done = absurd (ground arith)
>>=-eq-ok next (ok x) done = (x, refl, done)

pub >>=-ok {μ ν} :
    {X : Type μ} {Y : Type ν} (next : X → Outcome Y) (before : Outcome X) {x : X} {y : Y}
    → before ≡ ok x
    → next x ≡ ok y
    → (before >>= next) ≡ ok y
>>=-ok next before e done = rw e done

-- Every one of the blocks succeeds, each on the text that the one before it left.
abbrev pub Edited : String → Text → List Block → Text → Type 0
Edited path old [] new = old ≡ new
Edited path old (block ∷ blocks) new =
    (next : Text) × (edit_once path old block ≡ ok next) × Edited path next blocks new

pub edit_file-Edited :
    (path : String) (old new : Text) (blocks : List Block)
    → edit_file path old blocks ≡ ok new
    → Edited path old blocks new
unfolding edit_file
edit_file-Edited path old new [] e = ground arith
edit_file-Edited path old new (block ∷ blocks) e =
    let (next, first, rest) = >>=-eq-ok _ (edit_once path old block) e in
    (next, first, edit_file-Edited path next new blocks rest)

pub Edited-edit_file :
    (path : String) (old new : Text) (blocks : List Block)
    → Edited path old blocks new
    → edit_file path old blocks ≡ ok new
unfolding edit_file
Edited-edit_file path old new [] e = ap ok e
Edited-edit_file path old new (block ∷ blocks) (next, first, rest) =
    >>=-ok _ (edit_once path old block) first (Edited-edit_file path next new blocks rest)

abbrev pub blocks_for : String → List Block → List Block
blocks_for path = select (λ b. str_eq b.file_path path)

-- A path that the checks let through.
abbrev pub IsInside : (String → Bool) → String → Type 0
IsInside is_absolute path = (is_absolute path ≡ false) × (has_dots path ≡ false)

module _ (is_absolute : String → Bool) where
  pub group_lem :
      (blocks : List Block) (before after : Dict (List Block)) (path : String)
      → group is_absolute before blocks ≡ ok after
      → IsMap before
      → IsMap after
        × (or_else [] (lookup path after)
            ≡ or_else [] (lookup path before) ++ blocks_for path blocks)
  unfolding group
  group_lem [] before after path e m =
      let same : before ≡ after = ground arith in rw (← same) (m, sym (append-nil _))
  group_lem (block ∷ blocks) before after path e m =
      let here = block.file_path in
      let mine = or_else [] (lookup here before) ++ block ∷ [] in
      let (m', rest) =
        group_lem blocks (insert here mine before) after path (ground arith)
          (insert-IsMap here mine before m) in
      let whole =
        append_assoc (or_else [] (lookup here before)) (block ∷ []) (blocks_for path blocks) in
      let put = lookup-insert here path mine before in
      (
        m',
        elim (Bool-cases (str_eq here path)) [
          | inl same ↦
              let at : here ≡ path = (eq_iff here path).0 same in
              ground (arith, rest, put, whole, at)
          | inr other ↦ ground (arith, rest, put)
        ],
      )

  pub group-IsInside :
      (blocks : List Block) (before after : Dict (List Block)) (path : String)
      → group is_absolute before blocks ≡ ok after
      → has path after ≡ true
      → (has path before ≡ true) ⊎ IsInside is_absolute path
  unfolding group
  group-IsInside [] before after path e h = inl (ground arith)
  group-IsInside (block ∷ blocks) before after path e h =
      let here = block.file_path in
      let mine = or_else [] (lookup here before) ++ block ∷ [] in
      let inside : IsInside is_absolute here = (ground arith, ground arith) in
      elim (group-IsInside blocks (insert here mine before) after path (ground arith) h) [
        | inl old ↦ elim (Bool-cases (str_eq here path)) [
          | inl same ↦ inr (rw (← (eq_iff here path).0 same) inside)
          | inr other ↦ inl (ground (arith, old, has-insert here path mine before))
        ]
        | inr checked ↦ inr checked
      ]

module _ (resolve : String → String → String) (root : String) where
  -- What the first phase leaves at a path.
  pub dry_run_lem :
      (tree : Worktree) (by_file : Dict (List Block)) (contents final : Dict Text) (path : String)
      → IsMap by_file
      → dry_run resolve root tree by_file contents ≡ ok final
      → (IsMap contents → IsMap final)
        × (has path final ≡ (has path contents || has path by_file))
        × (has path by_file ≡ false → lookup path final ≡ lookup path contents)
        × ((blocks : List Block)
            → lookup path by_file ≡ some blocks
            → (content : Text) × (edit_file path
                  (or_else [] (lookup (resolve root path) tree))
                  blocks
                ≡ ok content)
              × (lookup path final ≡ some content))
  unfolding dry_run
  dry_run_lem tree [] contents final path m e =
      let same : contents ≡ final = ground arith in
      rw (← same) ((λ k. k), ground arith, (λ h. refl), λ blocks h. absurd (ground arith))
  dry_run_lem tree ((here, mine) ∷ by_file) contents final path (fresh, m) e =
      let (content, edited, e') =
        >>=-eq-ok _ (edit_file here (or_else [] (lookup (resolve root here) tree)) mine) e in
      let (keeps, has_eq, outside, found) =
        dry_run_lem tree by_file (insert here content contents) final path m e' in
      (
        (λ k. keeps (insert-IsMap here content contents k)),
        ground (arith, has_eq, has-insert here path content contents),
        (λ h. ground (arith, h, outside, lookup-insert here path content contents)),
        λ blocks h. elim (Bool-cases (str_eq here path)) [
          | inl same ↦
              let at : here ≡ path = (eq_iff here path).0 same in
              let this : mine ≡ blocks = ground arith in
              let gone : has path by_file ≡ false = rw at at fresh in
              (
                content,
                rw (← at) (rw (← this) edited),
                ground (arith, outside gone, lookup-insert here path content contents),
              )
          | inr other ↦ found blocks (ground arith)
        ],
      )

module _ (resolve : String → String → String) (failure : Worktree → String → Option Worktree)
    (root : String) where
  write_all_step :
      (here : String) (mine : Text) (contents : Dict Text) (tree after : Worktree)
      (written out : List String)
      → write_all resolve failure root ((here, mine) ∷ contents) (tree, written) ≡ (ok out, after)
      → write_all resolve failure root contents
          (insert (resolve root here) mine tree, written ++ here ∷ [])
        ≡ (ok out, after)
  unfolding write_all
  write_all_step here mine contents tree after written out e =
      elim (Option-cases (failure tree (resolve root here))) [
        | inl fine ↦ rw (fine, write_all) at e
        | inr (left, bad) ↦ absurd (ground (arith, rw (bad, write_all) at e))
      ]

  -- What the second phase reports, and leaves in a file that no path of it names.
  pub write_all_lem :
      (contents : Dict Text) (tree after : Worktree) (written out : List String)
      → write_all resolve failure root contents (tree, written) ≡ (ok out, after)
      → (out ≡ written ++ keys contents)
        × ((file : String)
            → ((path : String) → has path contents ≡ true → str_eq (resolve root path) file ≡ false)
            → lookup file after ≡ lookup file tree)
  unfolding write_all
  write_all_lem [] tree after written out e =
      let same : tree ≡ after = ground arith in
      let all : written ≡ out = ground arith in
      (rw (← all) (sym (append-nil written)), λ file h. rw (← same) refl)
  write_all_lem ((here, content) ∷ contents) tree after written out e =
      let (order, kept) =
        write_all_lem contents (insert (resolve root here) content tree) after
          (written ++ here ∷ []) out
          (write_all_step here content contents tree after written out e) in
      (
        order ∙ append_assoc written (here ∷ []) (keys contents),
        λ file h.
            kept file (λ path k. h path (ground (arith, k)))
            ∙ rw (lookup-insert, h here (ground (arith, eq_iff here here))),
      )

  -- What it leaves in the file of a path, if no other path of it names that file.
  pub write_all_found :
      (contents : Dict Text) (tree after : Worktree) (written out : List String) (path : String)
      (content : Text)
      → ((q : String) → has q contents ≡ true → resolve root q ≡ resolve root path → q ≡ path)
      → IsMap contents
      → lookup path contents ≡ some content
      → write_all resolve failure root contents (tree, written) ≡ (ok out, after)
      → lookup (resolve root path) after ≡ some content
  unfolding write_all
  write_all_found [] tree after written out path content apart m e done = absurd (ground arith)
  write_all_found ((here, mine) ∷ contents) tree after written out path content apart (fresh, m) e
        done =
      let next = write_all_step here mine contents tree after written out done in
      elim (Bool-cases (str_eq here path)) [
        | inl same ↦
            let at : here ≡ path = (eq_iff here path).0 same in
            let this : mine ≡ content = ground arith in
            let (_, kept) =
              write_all_lem contents (insert (resolve root here) mine tree) after
                (written ++ here ∷ []) out next in
            kept (resolve root path) (λ p k.
              elim (Bool-cases (str_eq (resolve root p) (resolve root path))) [
                | inl clash ↦
                    let again : p ≡ path = apart p (ground (arith, k)) ((eq_iff _ _).0 clash) in
                    ground (arith, again, at, k, fresh)
                | inr differ ↦ differ
              ])
            ∙ ground (
              arith,
              lookup-insert (resolve root here) (resolve root path) mine tree,
              at,
              this,
              eq_iff (resolve root here) (resolve root path),
            )
        | inr other ↦
            write_all_found contents (insert (resolve root here) mine tree) after
              (written ++ here ∷ []) out path content (λ q k. apart q (ground (arith, k))) m
              (ground arith) next
      ]
