-- ===== src/Swarm/Search.antt =====
-- src/swarm/search-replace.ts: `indexOf`, `countOccurrences`, and the one replacement that
-- `String.prototype.replace` makes for a text pattern. Texts are lists of UTF-16 code units.
pub mod Finding
pub mod Replacing
use frontier_os.Prelude.{
  ℕ, zero, suc, Bool, true, false, Option, none, some, List, [], ◌∷◌, ◌++◌, ◌==◌, length,
  if◌then◌else◌,
}

abbrev pub Text : Type 0
Text = List ℕ

-- The rest of the text behind a prefix.
unfoldable pub strip_prefix : Text → Text → Option Text
strip_prefix [] s = some s
strip_prefix (c ∷ p) [] = none
strip_prefix (c ∷ p) (d ∷ s) = if c == d then strip_prefix p s else none

abbrev pub prepend : ℕ → Option (Text × Text) → Option (Text × Text)
prepend c none = none
prepend c (some (before, after)) = some (c ∷ before, after)

-- What stands before and behind the first occurrence.
unfoldable pub find_split : Text → Text → Option (Text × Text)
find_split needle [] = elim (strip_prefix needle []) [ none ↦ none | some after ↦ some ([], after) ]
find_split needle (c ∷ text) = elim (strip_prefix needle (c ∷ text)) [
  | none ↦ prepend c (find_split needle text)
  | some after ↦ some ([], after)
]

-- `includes`.
unfoldable pub includes : Text → Text → Bool
unfolding find_split strip_prefix
includes text needle = elim (find_split needle text) [ none ↦ false | some _ ↦ true ]

-- The loop of `countOccurrences`, on fuel, over the text from `from` on.
pub count_from : ℕ → Text → Text → ℕ
count_from zero needle text = 0
count_from (suc fuel) needle text = elim (find_split needle text) [
  | none ↦ 0
  | some (before, after) ↦ suc (count_from fuel needle after)
]

unfoldable pub count_occurrences : Text → Text → ℕ
unfolding count_from find_split strip_prefix
count_occurrences haystack [] = 0
count_occurrences haystack (c ∷ needle) = count_from (suc (length haystack)) (c ∷ needle) haystack

-- The replacement text of `replace`, where `$$`, `$&`, `` $` `` and `$'` stand for `$`, the match,
-- the text before it and the text behind it, and any other `$` for itself.
abbrev pub dollar : ℕ
dollar = b'$'

pub expand : Text → Text → Text → Text → Text
expand before matched after [] = []
expand before matched after (c ∷ []) = c ∷ []
expand before matched after (c ∷ d ∷ template) =
    let rest = expand before matched after template in
    let plain = c ∷ expand before matched after (d ∷ template) in
    if c == dollar
    then (if d == dollar
        then dollar ∷ rest
        else if d == b'&'
        then matched ++ rest
        else if d == 96
        then before ++ rest
        else if d == 39
        then after ++ rest
        else plain)
    else plain

-- `current.replace(search, replace)`.
unfoldable pub replace_first : Text → Text → Text → Text
unfolding find_split strip_prefix expand
replace_first current sought replacement = elim (find_split sought current) [
  | none ↦ current
  | some (before, after) ↦ before ++ (expand before sought after replacement ++ after)
]
