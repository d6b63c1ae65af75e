-- ===== src/Swarm/Search/Replacing.antt =====
-- src/swarm/search-replace.ts: what a replacement puts in place of the occurrence.
use frontier_os.Prelude.{◌≡◌, refl, false, some, [], ◌∷◌, ◌++◌, ◌==◌, ap, All}
use frontier_os.Swarm.Search.{Text, find_split, dollar, expand, replace_first}

-- No `$` in the text.
abbrev pub IsPlain : Text → Type 0
IsPlain = All (λ c. (c == dollar) ≡ false)

expand_plain :
    (before matched after template : Text)
    → IsPlain template
    → expand before matched after template ≡ template
unfolding expand
expand_plain before matched after [] h = refl
expand_plain before matched after (c ∷ []) h = refl
expand_plain before matched after (c ∷ d ∷ template) (p, h) =
    rw p (ap (λ t. c ∷ t) (expand_plain before matched after (d ∷ template) h))

-- A replacement without `$` takes the place of the first occurrence as it is.
pub replace_first_plain :
    (current sought replacement before after : Text)
    → find_split sought current ≡ some (before, after)
    → IsPlain replacement
    → replace_first current sought replacement ≡ before ++ (replacement ++ after)
unfolding replace_first
replace_first_plain current sought replacement before after found plain =
    rw (found, replace_first, expand_plain before sought after replacement plain)

expand_dollars :
    (before matched after left right : Text)
    → IsPlain left
    → expand before matched after (left ++ (dollar ∷ (dollar ∷ right)))
      ≡ left ++ (dollar ∷ expand before matched after right)
unfolding expand
expand_dollars before matched after [] right h = refl
expand_dollars before matched after (c ∷ []) right (p, h) = rw p refl
expand_dollars before matched after (c ∷ d ∷ left) right (p, h) =
    rw p (ap (λ t. c ∷ t) (expand_dollars before matched after (d ∷ left) right h))

-- But a replacement with a `$$` loses one of the two dollars.
pub replace_first_dollars :
    (current sought left right before after : Text)
    → find_split sought current ≡ some (before, after)
    → IsPlain left
    → IsPlain right
    → replace_first current sought (left ++ (dollar ∷ (dollar ∷ right)))
      ≡ before ++ ((left ++ (dollar ∷ right)) ++ after)
unfolding replace_first
replace_first_dollars current sought left right before after found p q = rw (
  found,
  replace_first,
  expand_dollars before sought after left right p,
  expand_plain before sought after right q,
)
