-- ===== src/Swarm/Parse/Markers.antt =====
-- src/swarm/search-replace.ts: where the markers of a text are found.
use frontier_os.Prelude.{
  ℕ, zero, suc, ◌≤◌, ◌≡◌, ◌≢◌, refl, ap, ◌∙◌, Bool, true, false, not, ◌&&◌, Option, none, some, [],
  ◌∷◌, ◌++◌, leb, ◌==◌, arith, Bool-cases, inl, inr, if◌then◌else◌,
}
use frontier_os.Swarm.Search.{Text, prepend}
use frontier_os.Arbiter.AntiExample.{is_space}
use frontier_os.Swarm.Parse.{
  is_terminator, close_line, count_run, match_marker, find_marker, find_last_marker,
}

-- So many units `c` stand at the start.
unfoldable pub begins : ℕ → ℕ → Text → Bool
begins c zero s = true
begins c (suc n) [] = false
begins c (suc n) (d ∷ s) = let rest = begins c n s in d == c && rest

-- No line begins with 5 units `c`.
unfoldable pub quiet : ℕ → Bool → Text → Bool
unfolding begins
quiet c at_start [] = true
quiet c at_start (d ∷ s) =
    let rest = quiet c (is_terminator d) s in not (at_start && begins c 5 (d ∷ s)) && rest

-- The first line is not blank, and not the last.
unfoldable pub opens : Text → Bool
opens [] = false
opens (c ∷ s) = let rest = opens s in if is_space c then not (is_terminator c) && rest else true

count_run-begins : (c n : ℕ) (s : Text) → n ≤ count_run c s → begins c n s ≡ true
unfolding begins
count_run-begins c zero s h = refl
count_run-begins c (suc n) [] h = absurd (omega arith)
count_run-begins c (suc n) (d ∷ s) h = elim (Bool-cases (d == c)) [
  | inl same ↦
      let longer : suc n ≤ suc (count_run c s) = rw same at h in
      rw (same, begins, count_run-begins c n s (omega (arith, longer))) refl
  | inr differ ↦ let none_there : suc n ≤ 0 = rw differ at h in absurd (omega (arith, none_there))
]

-- What begins in front of a line's end begins without it.
begins_cut : (c n : ℕ) (s t : Text) → c ≢ 10 → begins c n (s ++ 10 ∷ t) ≡ true → begins c n s ≡ true
unfolding begins
begins_cut c zero s t apart h = refl
begins_cut c (suc n) [] t apart h = absurd (ground arith)
begins_cut c (suc n) (d ∷ s) t apart h =
    let same : (d == c) ≡ true = ground (arith, h) in
    let rest : begins c n (s ++ 10 ∷ t) ≡ true = ground (arith, h) in
    ground (arith, same, begins_cut c n s t apart rest)

match_marker-none :
    (c : ℕ) (word : Option Text) (s : Text) → begins c 5 s ≡ false → match_marker c word s ≡ none
unfolding match_marker
match_marker-none c word s h = elim (Bool-cases (leb 5 (count_run c s))) [
  | inl many ↦
      let there = count_run-begins c 5 s (ground (arith, many)) in absurd (ground (arith, there, h))
  | inr few ↦ rw (few, match_marker) refl
]

-- What is found behind a line in front.
unfoldable pub in_line : Text → Option (Text × Text) → Option (Text × Text)
in_line p none = none
in_line p (some (before, after)) = some (p ++ 10 ∷ before, after)

prepend-in_line :
    (d : ℕ) (p : Text) (found : Option (Text × Text))
    → prepend d (in_line p found) ≡ in_line (d ∷ p) found
unfolding in_line
prepend-in_line d p none = refl
prepend-in_line d p (some (before, after)) = refl

prepend_newline : (found : Option (Text × Text)) → prepend 10 found ≡ in_line [] found
unfolding in_line
prepend_newline none = refl
prepend_newline (some (before, after)) = refl

head_none :
    (c d : ℕ) (s t : Text) (word : Option Text)
    → c ≢ 10
    → begins c 5 (d ∷ s) ≡ false
    → match_marker c word (d ∷ s ++ 10 ∷ t) ≡ none
head_none c d s t word apart h = elim (Bool-cases (begins c 5 (d ∷ s ++ 10 ∷ t))) [
  | inl there ↦ absurd (ground (arith, h, begins_cut c 5 (d ∷ s) t apart there))
  | inr absent ↦ match_marker-none c word (d ∷ s ++ 10 ∷ t) absent
]

newline_none :
    (c : ℕ) (t : Text) (word : Option Text) → c ≢ 10 → match_marker c word (10 ∷ t) ≡ none
unfolding begins
newline_none c t word apart = match_marker-none c word (10 ∷ t) (ground arith)

-- A line without a marker is passed over.
pub find_marker-quiet :
    (c : ℕ) (word : Option Text) (at_start : Bool) (p t : Text)
    → c ≢ 10
    → quiet c at_start p ≡ true
    → find_marker c word at_start (p ++ 10 ∷ t) ≡ in_line p (find_marker c word true t)
unfolding find_marker quiet
find_marker-quiet c word true [] t apart h =
    rw (newline_none c t word apart, find_marker) (prepend_newline (find_marker c word true t))
find_marker-quiet c word false [] t apart h = prepend_newline (find_marker c word true t)
find_marker-quiet c word false (d ∷ p) t apart h =
    ap (prepend d) (find_marker-quiet c word (is_terminator d) p t apart (ground (arith, h)))
    ∙ prepend-in_line d p (find_marker c word true t)
find_marker-quiet c word true (d ∷ p) t apart h =
    let absent : begins c 5 (d ∷ p) ≡ false = ground (arith, h) in
    let rest : quiet c (is_terminator d) p ≡ true = ground (arith, h) in
    rw (head_none c d p t word apart absent, find_marker)
      (ap (prepend d) (find_marker-quiet c word (is_terminator d) p t apart rest)
        ∙ prepend-in_line d p (find_marker c word true t))

pub find_last_marker_behind :
    (c : ℕ) (word : Option Text) (at_start : Bool) (p t : Text) (found : Text × Text)
    → find_last_marker c word true t ≡ some found
    → find_last_marker c word at_start (p ++ 10 ∷ t) ≡ in_line p (some found)
unfolding find_last_marker in_line
find_last_marker_behind c word at_start [] t found h = rw (h, find_last_marker) refl
find_last_marker_behind c word at_start (d ∷ p) t found h =
    rw (find_last_marker_behind c word (is_terminator d) p t found h, find_last_marker) refl

pub find_last_marker-quiet :
    (c : ℕ) (word : Option Text) (at_start : Bool) (s : Text)
    → quiet c at_start s ≡ true
    → find_last_marker c word at_start s ≡ none
unfolding find_last_marker quiet
find_last_marker-quiet c word at_start [] h = refl
find_last_marker-quiet c word false (d ∷ s) h =
    rw (find_last_marker-quiet c word (is_terminator d) s (ground (arith, h)), find_last_marker)
      refl
find_last_marker-quiet c word true (d ∷ s) h =
    let absent : begins c 5 (d ∷ s) ≡ false = ground (arith, h) in
    rw
      (
        find_last_marker-quiet c word (is_terminator d) s (ground (arith, h)),
        match_marker-none c word (d ∷ s) absent,
        find_last_marker,
      )
      refl

pub quiet_line :
    (c : ℕ) (at_start : Bool) (p : Text)
    → c ≢ 10
    → quiet c at_start p ≡ true
    → quiet c at_start (p ++ 10 ∷ []) ≡ true
unfolding quiet begins
quiet_line c at_start [] apart h = ground arith
quiet_line c false (d ∷ p) apart h = quiet_line c (is_terminator d) p apart (ground (arith, h))
quiet_line c true (d ∷ p) apart h =
    let absent : begins c 5 (d ∷ p) ≡ false = ground (arith, h) in
    let rest : quiet c (is_terminator d) p ≡ true = ground (arith, h) in
    let later = quiet_line c (is_terminator d) p apart rest in
    elim (Bool-cases (begins c 5 (d ∷ p ++ 10 ∷ []))) [
      | inl there ↦ absurd (ground (arith, absent, begins_cut c 5 (d ∷ p) [] apart there))
      | inr none_there ↦ ground (arith, later, none_there)
    ]

-- A line that is not blank ends where it ends.
pub close_line-opens : (s t : Text) → opens s ≡ true → close_line (s ++ t) ≡ none
unfolding close_line opens
close_line-opens [] t h = absurd (ground arith)
close_line-opens (c ∷ s) t h = elim (Bool-cases (is_space c)) [
  | inl space ↦
      let parts : (not (is_terminator c) && opens s) ≡ true = rw space at h in
      rw (space, close_line-opens s t (ground (arith, parts)), close_line) (ground (arith, parts))
  | inr solid ↦ rw solid refl
]
