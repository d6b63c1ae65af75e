-- ===== src/Arbiter/AntiExample.antt =====
-- `matchAntiExample` of src/arbiter/arbiter.ts, on UTF-16 code units; `toLowerCase` is a parameter.
use frontier_os.Prelude.{
  ℕ, zero, suc, Bool, false, ◌&&◌, ◌||◌, List, [], ◌∷◌, length, leb, ◌==◌, if◌then◌else◌, exists,
  select, map,
}
use frontier_os.Swarm.Search.{Text, includes}

-- `\s` of a regular expression, and what `trim` removes.
abbrev pub is_space : ℕ → Bool
is_space c =
    (leb 9 c && leb c 13)
    || c == 32
    || c == 160
    || c == 0x1680
    || (leb 0x2000 c && leb c 0x200A)
    || c == 0x2028
    || c == 0x2029
    || c == 0x202F
    || c == 0x205F
    || c == 0x3000
    || c == 0xFEFF

-- `split("\n")`
abbrev pub split_lines : Text → List Text
split_lines [] = [] ∷ []
split_lines (c ∷ text) =
    let rest = split_lines text in
    if c == 10
    then [] ∷ rest
    else elim rest [ [] ↦ (c ∷ []) ∷ [] | line ∷ lines ↦ (c ∷ line) ∷ lines ]

-- `/^#{1,3}\s/`, on a line with as many `#` before it as are still allowed, after the first one.
abbrev after_hashes : ℕ → Text → Bool
after_hashes left [] = false
after_hashes zero (c ∷ line) = is_space c
after_hashes (suc left) (c ∷ line) =
    let rest = after_hashes left line in is_space c || (c == b'#' && rest)

abbrev pub is_heading : Text → Bool
is_heading [] = false
is_heading (c ∷ line) = c == b'#' && after_hashes 2 line

-- The text from the first unit on that fails a test.
abbrev pub drop_while : (ℕ → Bool) → Text → Text
drop_while p [] = []
drop_while p (c ∷ text) = let rest = drop_while p text in if p c then rest else c ∷ text

-- The text up to the last unit that is no space.
abbrev pub trim_end : Text → Text
trim_end [] = []
trim_end (c ∷ text) =
    let rest = trim_end text in
    elim rest [ [] ↦ if is_space c then [] else c ∷ [] | d ∷ more ↦ c ∷ d ∷ more ]

-- `l.replace(/^#+\s+/, "").trim()`, for a heading.
abbrev pub phrase_of : Text → Text
phrase_of line = trim_end (drop_while is_space (drop_while (λ c. c == b'#') line))

abbrev pub headings : Text → List Text
headings body =
    select (λ phrase. leb 6 (length phrase)) (map phrase_of (select is_heading (split_lines body)))

-- Only "matches" (true) and "safe" (false) are ever returned.
unfoldable pub match_anti_example : (Text → Text) → Text → Text → Bool
match_anti_example lower diff body =
    if length diff == 0 || length body == 0
    then false
    else exists (λ phrase. includes (lower diff) (lower phrase)) (headings body)
