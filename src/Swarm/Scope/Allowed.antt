-- ===== src/Swarm/Scope/Allowed.antt =====
-- src/swarm/diff-scope-checker.ts: what is allowed.
use frontier_os.Prelude.{
  ◌≡◌, ◌↔◌, ◌⊎◌, inl, inr, refl, String, Bool, true, false, none, List, [], ◌∷◌, ◌++◌, length, ◌==◌,
  arith, All, All-map, All-both, Bool-cases, Option-cases, eq_iff, str_eq,
}
use frontier_os.Prelude.Dict.{contains}
use frontier_os.Prelude.Text.{lt_text, units}
use frontier_os.Swarm.Search.{Text}
use frontier_os.Swarm.Apply.{Block}
use frontier_os.Swarm.Scope.{
  is_up, has_up, segments, starts_with_slash, check_path_danger, binary_violations,
  danger_violations, outside_violations, scope_violations, check_diff_scope, add_path,
  distinct_paths, check_files, check_search_replace_scope,
}

-- A path that does not start with a slash, and has no segment of two dots.
abbrev pub IsSafePath : String → Type 0
IsSafePath p =
    (starts_with_slash (units p) ≡ false)
    × All (λ part. ¬ (part ≡ b'.' ∷ b'.' ∷ [])) (segments (units p))

is_up_iff : (part : Text) → (is_up part ≡ true) ↔ (part ≡ b'.' ∷ b'.' ∷ [])
is_up_iff [] = ground arith
is_up_iff (c ∷ []) = ground arith
is_up_iff (c ∷ d ∷ []) = ground arith
is_up_iff (c ∷ d ∷ x ∷ more) = ground arith

has_up_iff :
    (parts : List Text) → (has_up parts ≡ false) ↔ All (λ part. ¬ (part ≡ b'.' ∷ b'.' ∷ [])) parts
has_up_iff [] = ((λ _. tt), λ _. refl)
has_up_iff (part ∷ parts) =
    let here = is_up_iff part in
    let rest = has_up_iff parts in
    elim (Bool-cases (is_up part)) [
      | inl up ↦ ((λ h. absurd (ground (arith, up, h))), λ (f, _). absurd (f (here.0 up)))
      | inr plain ↦ (
        (λ h. ((λ e. ground (arith, plain, here.1 e)), rest.0 (ground (arith, plain, h)))),
        λ (_, h). ground (arith, plain, rest.1 h),
      )
    ]

check_path_danger_iff : (p : String) → (check_path_danger p ≡ none) ↔ IsSafePath p
unfolding check_path_danger
check_path_danger_iff p =
    let parts = has_up_iff (segments (units p)) in
    elim (Bool-cases (starts_with_slash (units p))) [
      | inl slash ↦
          ((λ h. absurd (ground (arith, slash, h))), λ (s, _). absurd (ground (arith, slash, s)))
      | inr relative ↦ (
        (λ h. (relative, parts.0 (ground (arith, relative, h)))),
        λ (_, h). let plain = parts.1 h in ground (arith, relative, plain),
      )
    ]

-- An empty touch list leaves every path in scope.
abbrev pub IsInScope : List String → String → Type 0
IsInScope touch_list p = (touch_list ≡ []) ⊎ (contains touch_list p ≡ true)

danger_violations_iff : (ps : List String) → (danger_violations ps ≡ []) ↔ All IsSafePath ps
unfolding danger_violations
danger_violations_iff [] = ((λ _. tt), λ _. refl)
danger_violations_iff (p ∷ ps) =
    let rest = danger_violations_iff ps in
    elim (Option-cases (check_path_danger p)) [
      | inl safe ↦ (
        (λ h. ((check_path_danger_iff p).0 safe, rest.0 (ground (arith, safe, h)))),
        λ (_, h). let k = rest.1 h in ground (arith, safe, k),
      )
      | inr (r, found) ↦ (
        (λ h. absurd (ground (arith, found, h))),
        λ (s, h). let e = (check_path_danger_iff p).1 s in absurd (ground (arith, found, e)),
      )
    ]

outside_violations_iff :
    (touch_list ps : List String)
    → (outside_violations touch_list ps ≡ []) ↔ All (λ p. contains touch_list p ≡ true) ps
unfolding outside_violations
outside_violations_iff touch_list [] = ((λ _. tt), λ _. refl)
outside_violations_iff touch_list (p ∷ ps) =
    let rest = outside_violations_iff touch_list ps in
    elim (Bool-cases (contains touch_list p)) [
      | inl found ↦ (
        (λ h. (found, rest.0 (ground (arith, found, h)))),
        λ (_, h). ground (arith, found, rest.1 h),
      )
      | inr missing ↦ (
        (λ h. absurd (ground (arith, missing, h))),
        λ (s, h). absurd (ground (arith, missing, s)),
      )
    ]

All-of_each {ℓ} : {A : Type ℓ} {P : A → Type 0} → ((x : A) → P x) → (xs : List A) → All P xs
All-of_each h [] = tt
All-of_each h (x ∷ xs) = (h x, All-of_each h xs)

scope_violations_iff :
    (touch_list ps : List String)
    → (scope_violations touch_list ps ≡ []) ↔ All (IsInScope touch_list) ps
unfolding scope_violations
scope_violations_iff [] ps = ((λ _. All-of_each (λ p. inl refl) ps), λ _. refl)
scope_violations_iff (t ∷ ts) ps =
    let whole = outside_violations_iff (t ∷ ts) ps in
    (
      (λ h. All-map (λ p k. inr k) ps (whole.0 h)),
      (λ h. whole.1 (
          All-map (λ p k. elim k [ inl e ↦ absurd (ground (arith, e)) | inr found ↦ found ]) ps h)),
    )

append-eq-[] {ℓ} : {A : Type ℓ} (xs ys : List A) → (xs ++ ys ≡ []) ↔ ((xs ≡ []) × (ys ≡ []))
append-eq-[] [] ys = ground arith
append-eq-[] (x ∷ xs) ys = ground arith

length_zero_iff {ℓ} : {A : Type ℓ} (xs : List A) → ((length xs == 0) ≡ true) ↔ (xs ≡ [])
length_zero_iff [] = ground arith
length_zero_iff (x ∷ xs) = ground arith

module _ (Q : String → Type 0) where
  add_path-All : (p : String) (ps : List String) → All Q (add_path p ps) ↔ (Q p × All Q ps)
  add_path-All p [] = ((λ h. h), λ h. h)
  add_path-All p (q ∷ qs) =
      let rest = add_path-All p qs in
      elim (Bool-cases (lt_text p q)) [
        | inl less ↦ rw less ((λ h. h), λ h. h)
        | inr more ↦
            rw more
              ((λ (a, h). let (b, k) = rest.0 h in (b, (a, k))), λ (b, (a, k)). (a, rest.1 (b, k)))
      ]

  All-contains : (ps : List String) (p : String) → All Q ps → contains ps p ≡ true → Q p
  All-contains [] p h k = absurd (ground arith)
  All-contains (q ∷ qs) p (a, h) k = elim (Bool-cases (str_eq q p)) [
    | inl same ↦ rw (← (eq_iff q p).0 same) a
    | inr other ↦ All-contains qs p h (ground (arith, other, k))
  ]

  distinct_paths-All :
      (blocks : List Block) → All Q (distinct_paths blocks) ↔ All (λ b. Q b.file_path) blocks
  distinct_paths-All [] = ((λ h. h), λ h. h)
  distinct_paths-All (b ∷ bs) =
      let rest = distinct_paths-All bs in
      let put = add_path-All b.file_path (distinct_paths bs) in
      elim (Bool-cases (contains (distinct_paths bs) b.file_path)) [
        | inl known ↦ rw known (
          (λ h. (All-contains (distinct_paths bs) b.file_path h known, rest.0 h)),
          λ (_, h). rest.1 h,
        )
        | inr new ↦
            rw new ((λ h. let (a, k) = put.0 h in (a, rest.0 k)), λ (a, h). put.1 (a, rest.1 h))
      ]

-- A diff is allowed exactly if it touches no file, or has no binary part and every file it touches
-- has a relative path without a parent segment and is on the touch list, unless that is empty.
pub check_diff_scope-allowed_iff :
    (files : List String) (binary : Bool) (touch_list : List String)
    → ((check_diff_scope files binary touch_list).allowed ≡ true) ↔ (
        (files ≡ []) ⊎ ((binary ≡ false) × All IsSafePath files × All (IsInScope touch_list) files))
unfolding check_diff_scope binary_violations
check_diff_scope-allowed_iff [] binary touch_list = ((λ _. inl refl), λ _. refl)
check_diff_scope-allowed_iff (p ∷ ps) true touch_list = (
  (λ h. absurd (ground arith)),
  λ k. absurd (elim k [ inl e ↦ ground (arith, e) | inr h ↦ ground (arith, h.0) ]),
)
check_diff_scope-allowed_iff (p ∷ ps) false touch_list =
    let dangers = danger_violations (p ∷ ps) in
    let outside = scope_violations touch_list (p ∷ ps) in
    let both = append-eq-[] dangers outside in
    let zero_iff = length_zero_iff (dangers ++ outside) in
    let safe = danger_violations_iff (p ∷ ps) in
    let scoped = scope_violations_iff touch_list (p ∷ ps) in
    (
      (λ h. let (d, o) = both.0 (zero_iff.0 h) in inr (refl, safe.0 d, scoped.0 o)),
      λ k. elim k [
        | inl e ↦ absurd (ground (arith, e))
        | inr h ↦ let (_, s, o) = h in zero_iff.1 (both.1 (safe.1 s, scoped.1 o))
      ],
    )

check_files_iff :
    (files touch_list : List String)
    → ((check_files files touch_list).allowed ≡ true)
      ↔ All (λ p. IsSafePath p × IsInScope touch_list p) files
unfolding check_files
check_files_iff [] touch_list = ((λ _. tt), λ _. refl)
check_files_iff (p ∷ ps) touch_list =
    let dangers = danger_violations (p ∷ ps) in
    let outside = scope_violations touch_list (p ∷ ps) in
    let both = append-eq-[] dangers outside in
    let zero_iff = length_zero_iff (dangers ++ outside) in
    let safe = danger_violations_iff (p ∷ ps) in
    let scoped = scope_violations_iff touch_list (p ∷ ps) in
    (
      (λ h.
          let (d, o) = both.0 (zero_iff.0 h) in
          All-both IsSafePath (IsInScope touch_list) (p ∷ ps) (safe.0 d) (scoped.0 o)),
      λ k. zero_iff.1 (
          both.1
            (safe.1 (All-map (λ x h. h.0) (p ∷ ps) k), scoped.1 (All-map (λ x h. h.1) (p ∷ ps) k))),
    )

-- Blocks are allowed exactly if every one of them names a relative path without a parent segment
-- that is on the touch list, unless that is empty.
pub check_search_replace_scope-allowed_iff :
    (blocks : List Block) (touch_list : List String)
    → ((check_search_replace_scope blocks touch_list).allowed ≡ true)
      ↔ All (λ b. IsSafePath b.file_path × IsInScope touch_list b.file_path) blocks
unfolding check_search_replace_scope
check_search_replace_scope-allowed_iff blocks touch_list =
    let files = check_files_iff (distinct_paths blocks) touch_list in
    let named = distinct_paths-All (λ p. IsSafePath p × IsInScope touch_list p) blocks in
    ((λ h. named.0 (files.0 h)), λ h. files.1 (named.1 h))
