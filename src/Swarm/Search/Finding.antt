-- ===== src/Swarm/Search/Finding.antt =====
-- src/swarm/search-replace.ts: the first occurrence of a text, and the number of its occurrences.
use frontier_os.Prelude.{
  ℕ, zero, suc, ◌<◌, ◌≤◌, ◌+◌, ◌≡◌, ◌≢◌, ◌↔◌, ◌⊎◌, refl, ap, Option, none, some, [], ◌∷◌, ◌++◌,
  length, length-append, append_assoc, sym, ◌∙◌, arith, Option-cases, inl, inr,
}
use native.Mathlib.Decide.{dec_lt}
use frontier_os.Swarm.Search.{
  Text, strip_prefix, prepend, find_split, count_from, count_occurrences,
}

strip_prefix-eq-some : (p s r : Text) → strip_prefix p s ≡ some r → s ≡ p ++ r
unfolding strip_prefix
strip_prefix-eq-some [] s r h = ground arith
strip_prefix-eq-some (c ∷ p) [] r h = ground arith
strip_prefix-eq-some (c ∷ p) (d ∷ s) r h = ground (arith, strip_prefix-eq-some p s r)

strip_prefix-append : (p r : Text) → strip_prefix p (p ++ r) ≡ some r
unfolding strip_prefix
strip_prefix-append [] r = refl
strip_prefix-append (c ∷ p) r = ground (arith, strip_prefix-append p r)

prepend-eq-some :
    (c : ℕ) (o : Option (Text × Text)) (b a : Text)
    → prepend c o ≡ some (b, a)
    → (b' : Text) × (b ≡ c ∷ b') × (o ≡ some (b', a))
prepend-eq-some c none b a h = absurd (ground arith)
prepend-eq-some c (some (b', a')) b a h = (b', ground arith, ground arith)

-- A found occurrence is one.
pub find_split-eq-some :
    (needle text before after : Text)
    → find_split needle text ≡ some (before, after)
    → text ≡ before ++ (needle ++ after)
unfolding find_split
find_split-eq-some needle [] before after h = elim (Option-cases (strip_prefix needle [])) [
  | inl e ↦ absurd (ground (arith, rw (e, find_split) at h))
  | inr (r, e) ↦
      let h' = rw (e, find_split) at h in
      let same : before ≡ [] = ground arith in
      let rest : r ≡ after = ground arith in
      rw same (rw (← rest) (strip_prefix-eq-some needle [] r e))
]
find_split-eq-some needle (c ∷ text) before after h =
    elim (Option-cases (strip_prefix needle (c ∷ text))) [
      | inl e ↦
          let (b', same, found) =
            prepend-eq-some c (find_split needle text) before after (rw (e, find_split) at h) in
          rw same (ap (λ t. c ∷ t) (find_split-eq-some needle text b' after found))
      | inr (r, e) ↦
          let h' = rw (e, find_split) at h in
          let same : before ≡ [] = ground arith in
          let rest : r ≡ after = ground arith in
          rw same (rw (← rest) (strip_prefix-eq-some needle (c ∷ text) r e))
    ]

found_here :
    (needle text r : Text) → strip_prefix needle text ≡ some r → find_split needle text ≢ none
unfolding find_split
found_here needle [] r h = λ e. ground (arith, h)
found_here needle (c ∷ text) r h = λ e. ground (arith, h)

found_later : (c : ℕ) (o : Option (Text × Text)) → o ≢ none → prepend c o ≢ none
found_later c none h = absurd (h refl)
found_later c (some (b, a)) h = λ e. ground arith

-- An occurrence is found.
pub find_split-ne-none :
    (needle before after : Text) → find_split needle (before ++ (needle ++ after)) ≢ none
unfolding find_split
find_split-ne-none needle [] after =
    found_here needle (needle ++ after) after (strip_prefix-append needle after)
find_split-ne-none needle (c ∷ before) after =
    let text = before ++ (needle ++ after) in
    elim (Option-cases (strip_prefix needle (c ∷ text))) [
      | inl e ↦
          rw (e, find_split)
            (found_later c (find_split needle text) (find_split-ne-none needle before after))
      | inr (r, e) ↦ found_here needle (c ∷ text) r e
    ]

-- An occurrence in a text that does not begin with one is one in its tail.
first_later :
    (needle text : Text) (c : ℕ) (b after before' after' : Text)
    → strip_prefix needle (c ∷ text) ≡ none
    → find_split needle text ≡ some (b, after)
    → (c ∷ text) ≡ before' ++ (needle ++ after')
    → ((b' : Text) → text ≡ b' ++ (needle ++ after') → length b ≤ length b')
    → length (c ∷ b) ≤ length before'
first_later needle text c b after [] after' missed found e later =
    let begins = strip_prefix-append needle after' in
    absurd (ground (arith, rw e at missed, begins))
first_later needle text c b after (d ∷ b') after' missed found e later =
    let tails : text ≡ b' ++ (needle ++ after') = ground arith in omega (arith, later b' tails)

-- The occurrence that is found is the first.
pub find_split_first :
    (needle text before after before' after' : Text)
    → find_split needle text ≡ some (before, after)
    → text ≡ before' ++ (needle ++ after')
    → length before ≤ length before'
unfolding find_split
find_split_first needle [] before after before' after' h e =
    let whole : length {A = ℕ} [] ≡ length (before ++ (needle ++ after)) =
      ap length (find_split-eq-some needle [] before after h) in
    omega (arith, whole, length-append before (needle ++ after))
find_split_first needle (c ∷ text) before after before' after' h e =
    elim (Option-cases (strip_prefix needle (c ∷ text))) [
      | inr (r, found) ↦
          let h' = rw (found, find_split) at h in
          let same : before ≡ [] = ground arith in rw same (omega arith)
      | inl missed ↦
          let (b, same, found) =
            prepend-eq-some c (find_split needle text) before after
              (rw (missed, find_split) at h) in
          rw same (
            first_later needle text c b after before' after' missed found e
              (λ b' tails. find_split_first needle text b after b' after' found tails))
    ]

-- Where a text occurs.
abbrev pub Occurs : Text → Text → Type 0
Occurs needle text = (before : Text) × (after : Text) × (text ≡ before ++ (needle ++ after))

absent_of_none : (needle text : Text) → find_split needle text ≡ none → ¬ Occurs needle text
absent_of_none needle text h (before, after, e) =
    find_split-ne-none needle before after (rw (← e) h)

shorter :
    (needle text before after : Text)
    → 0 < length needle
    → find_split needle text ≡ some (before, after)
    → length after < length text
shorter needle text before after h e = omega (
  arith,
  ap length (find_split-eq-some needle text before after e),
  length-append before (needle ++ after),
  length-append needle after,
)

-- The fuel of the loop makes no difference once it is more than the text is long.
count_from_enough :
    (f g : ℕ) (needle text : Text)
    → 0 < length needle
    → length text < f
    → length text < g
    → count_from f needle text ≡ count_from g needle text
unfolding count_from
count_from_enough zero g needle text h p q = absurd (omega arith)
count_from_enough (suc f) zero needle text h p q = absurd (omega arith)
count_from_enough (suc f) (suc g) needle text h p q = elim (Option-cases (find_split needle text)) [
  | inl e ↦ rw (e, count_from)
  | inr ((before, after), e) ↦
      let less = shorter needle text before after h e in
      rw (e, count_from)
        (ap suc (count_from_enough f g needle after h (omega (arith, less)) (omega (arith, less))))
]

-- What the count says of the text: how the first occurrence, if any, splits it.
count_occurrences-split :
    (text needle : Text)
    → 0 < length needle
    → (find_split needle text ≡ none) × (count_occurrences text needle ≡ 0)
      ⊎ ((before : Text) × (after : Text) × (find_split needle text ≡ some (before, after))
          × (count_occurrences text needle ≡ suc (count_occurrences after needle)))
unfolding count_occurrences
count_occurrences-split text [] h = absurd (omega arith)
count_occurrences-split text (c ∷ needle) h = elim (Option-cases (find_split (c ∷ needle) text)) [
  | inl e ↦ inl (e, rw (e, count_from))
  | inr ((before, after), e) ↦
      let less = shorter (c ∷ needle) text before after h e in
      inr (
        before,
        after,
        e,
        rw (e, count_from)
            (ap suc (
              count_from_enough (length text) (suc (length after)) (c ∷ needle) after h
                (omega (arith, less)) (omega (arith, less)))),
      )
]

-- A count of 0 is right: it is the answer exactly for the texts that the needle does not occur in.
pub count_occurrences_zero_iff :
    (text needle : Text)
    → 0 < length needle
    → (count_occurrences text needle ≡ 0) ↔ (¬ Occurs needle text)
count_occurrences_zero_iff text needle h = elim (count_occurrences-split text needle h) [
  | inl (e, zero_count) ↦ ((λ _. absent_of_none needle text e), (λ _. zero_count))
  | inr (before, after, e, more) ↦ (
    (λ z. absurd (ground (arith, more, z))),
    (λ absent. absurd (absent (before, after, find_split-eq-some needle text before after e))),
  )
]

-- A count of 1 means one occurrence and none behind it.
pub count_occurrences_one :
    (text needle : Text)
    → 0 < length needle
    → count_occurrences text needle ≡ 1
    → (before : Text) × (after : Text) × (find_split needle text ≡ some (before, after))
      × (text ≡ before ++ (needle ++ after))
      × (¬ Occurs needle after)
count_occurrences_one text needle h one = elim (count_occurrences-split text needle h) [
  | inl (e, zero_count) ↦ absurd (ground (arith, zero_count, one))
  | inr (before, after, e, more) ↦ (
    before,
    after,
    e,
    find_split-eq-some needle text before after e,
    (count_occurrences_zero_iff after needle h).0 (omega (arith, more, one)),
  )
]

-- What follows a prefix ends with what follows a longer one.
append_split :
    (xs ys xs' ys' : Text)
    → xs ++ ys ≡ xs' ++ ys'
    → length xs ≤ length xs'
    → (mid : Text) × (ys ≡ mid ++ ys')
append_split [] ys xs' ys' e h = (xs', e)
append_split (x ∷ xs) ys [] ys' e h = absurd (omega arith)
append_split (x ∷ xs) ys (x' ∷ xs') ys' e h =
    let tails : xs ++ ys ≡ xs' ++ ys' = ground arith in
    append_split xs ys xs' ys' tails (omega arith)

-- Where the count is 1, every occurrence begins inside the first one.
pub count_one_overlap :
    (text needle before after before' after' : Text)
    → text ≡ before ++ (needle ++ after)
    → ¬ Occurs needle after
    → text ≡ before' ++ (needle ++ after')
    → length before' < length before + length needle
count_one_overlap text needle before after before' after' e absent e' =
    elim (dec_lt (length before') (length before + length needle)) [
      | yes less ↦ less
      | no far ↦
          let whole : (before ++ needle) ++ after ≡ before' ++ (needle ++ after') =
            append_assoc before needle after ∙ sym e ∙ e' in
          let (mid, tail) =
            append_split (before ++ needle) after before' (needle ++ after') whole
              (omega (arith, length-append before needle)) in
          absurd (absent (mid, after', tail))
    ]
