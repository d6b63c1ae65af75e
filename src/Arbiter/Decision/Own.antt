-- ===== src/Arbiter/Decision/Own.antt =====
-- src/arbiter/arbiter.ts: with a builder for each candidate, the results that are looked up by builder
-- are the candidate's own.
use frontier_os.Prelude.{
  ℕ, ◌≡◌, refl, String, Bool, false, ◌&&◌, ◌||◌, Option, some, List, [], ◌∷◌, ◌++◌, map, exists,
  find_first, str_eq, eq_iff, arith, All, All-map, All-both, Bool-cases, inl, inr,
}
use frontier_os.Prelude.Dict.{Dict, lookup, IsUnique, contains}
use frontier_os.Swarm.Search.{Text}
use frontier_os.Arbiter.Verifier.{VerifierOptions, verify_candidate}
use frontier_os.Arbiter.Rubric.{score_candidate}
use frontier_os.Arbiter.Inputs.{
  Env, CandidateInput, ReviewerFindingInput, ArbiterInput, gates_of, index_findings,
  AntiExampleMatch, verification_of, matches_of, score_of, all_matches,
}
use frontier_os.Arbiter.Gates.{Eligibility, assess, eligibility_of}
use frontier_os.Arbiter.Decision.{eligibilities}

abbrev pub builders : List CandidateInput → List String
builders = map (λ c. c.builder_id)

module _ {ℓ κ} {A : Type ℓ} {B : Type κ} where
  map-eq_of_All : (f g : A → B) (xs : List A) → All (λ x. f x ≡ g x) xs → map f xs ≡ map g xs
  map-eq_of_All f g [] h = refl
  map-eq_of_All f g (x ∷ xs) (e, h) = rw (e, map-eq_of_All f g xs h)

fresh_lem :
    (id : String) (cs : List CandidateInput)
    → contains (builders cs) id ≡ false
    → All (λ c. str_eq id c.builder_id ≡ false) cs
fresh_lem id [] h = tt
fresh_lem id (c ∷ cs) h = (
  ground (arith, h, eq_iff id c.builder_id, eq_iff c.builder_id id),
  fresh_lem id cs (ground (arith, h)),
)

module _ {R : Type 0} (name : R → String) (f : CandidateInput → R) where
  -- The first result under a candidate's builder is the candidate's.
  find_first-map :
      ((c : CandidateInput) → name (f c) ≡ c.builder_id)
      → (cs : List CandidateInput) → IsUnique (builders cs)
      → All (λ c. find_first (λ r. str_eq (name r) c.builder_id) (map f cs) ≡ some (f c)) cs
  find_first-map named [] u = tt
  find_first-map named (c ∷ cs) (fresh, u) = (
    rw (named c, (eq_iff c.builder_id c.builder_id).1 refl),
    All-map (λ d (e, other). rw (named c, other) e) cs
        (All-both _ _ cs (find_first-map named cs u) (fresh_lem c.builder_id cs fresh)),
  )

verify_candidate-builder_id :
    (exec : String → List String → String → Option ℕ) (is_there : String → Bool)
    (opts : VerifierOptions)
    → (verify_candidate exec is_there opts).builder_id ≡ opts.builder_id
unfolding verify_candidate
verify_candidate-builder_id exec is_there opts = elim (Bool-cases (is_there opts.worktree_path)) [
  | inl there ↦ rw there
  | inr missing ↦ rw missing
]

matches_of_lem :
    (env : Env) (input : ArbiterInput) (bodies : List (String × Text)) (c : CandidateInput)
    (k : String)
    → exists (λ m. str_eq m.builder_id k && m.matches) (matches_of env input bodies c) ≡ (
        str_eq c.builder_id k
        && exists (λ (m : AntiExampleMatch). m.matches) (matches_of env input bodies c))
unfolding matches_of
matches_of_lem env input [] c k = ground arith
matches_of_lem env input (entry ∷ bodies) c k = ground (arith, matches_of_lem env input bodies c k)

exists-append {ℓ} :
    {A : Type ℓ} (p : A → Bool) (xs ys : List A)
    → exists p (xs ++ ys) ≡ (exists p xs || exists p ys)
exists-append p [] ys = refl
exists-append p (x ∷ xs) ys = ground (arith, exists-append p xs ys)

module _ (env : Env) (input : ArbiterInput) (bodies : List (String × Text)) where
  abbrev pub has_match : CandidateInput → Bool
  has_match c = exists (λ (m : AntiExampleMatch). m.matches) (matches_of env input bodies c)

  abbrev tagged : String → AntiExampleMatch → Bool
  tagged k m = str_eq m.builder_id k && m.matches

  all_matches-fresh :
      (k : String) (cs : List CandidateInput)
      → contains (builders cs) k ≡ false
      → exists (tagged k) (all_matches env input bodies cs) ≡ false
  unfolding all_matches
  all_matches-fresh k [] h = refl
  all_matches-fresh k (c ∷ cs) h = ground (
    arith,
    h,
    exists-append (tagged k) (matches_of env input bodies c) (all_matches env input bodies cs),
    matches_of_lem env input bodies c k,
    all_matches-fresh k cs,
  )

  all_matches-own :
      (cs : List CandidateInput)
      → IsUnique (builders cs)
      → All (λ c. exists (tagged c.builder_id) (all_matches env input bodies cs) ≡ has_match c) cs
  unfolding all_matches
  all_matches-own [] u = tt
  all_matches-own (c ∷ cs) (fresh, u) =
      let split = λ (k : String).
        exists-append (tagged k) (matches_of env input bodies c)
          (all_matches env input bodies cs) in
      let mine = λ (k : String). matches_of_lem env input bodies c k in
      (
        ground (
          arith,
          split c.builder_id,
          mine c.builder_id,
          all_matches-fresh c.builder_id cs fresh,
          eq_iff c.builder_id c.builder_id,
        ),
        All-map (λ d (e, other). ground (arith, split d.builder_id, mine d.builder_id, e, other)) cs
            (All-both _ _ cs (all_matches-own cs u) (fresh_lem c.builder_id cs fresh)),
      )

module _ (env : Env) (input : ArbiterInput) (bodies : List (String × Text)) where
  verification_of-builder_id :
      (c : CandidateInput) → (verification_of env input bodies c).builder_id ≡ c.builder_id
  unfolding verification_of
  verification_of-builder_id c = verify_candidate-builder_id env.exec env.is_there _

  score_of-builder_id :
      (findings : Dict ReviewerFindingInput) (c : CandidateInput)
      → (score_of env input bodies findings c).builder_id ≡ c.builder_id
  unfolding score_of score_candidate
  score_of-builder_id findings c = refl

module _ (env : Env) (input : ArbiterInput) (bodies : List (String × Text))
    (missing : List String) where
  -- The gates of a candidate, on its own results.
  unfoldable pub own : CandidateInput → Eligibility
  own c =
      let findings = index_findings input.reviewer_findings [] in
      assess (gates_of input) missing c.builder_id (some (verification_of env input bodies c))
        (some (score_of env input bodies findings c)) (lookup c.builder_id findings)
        (has_match env input bodies c)

  pub eligibilities-own :
      (cs : List CandidateInput)
      → IsUnique (builders cs)
      → eligibilities env input bodies missing cs ≡ map own cs
  unfolding eligibilities eligibility_of own
  eligibilities-own cs u =
      let findings = index_findings input.reviewer_findings [] in
      let verified =
        find_first-map (λ v. v.builder_id) (verification_of env input bodies)
          (verification_of-builder_id env input bodies) cs u in
      let scored =
        find_first-map (λ s. s.builder_id) (score_of env input bodies findings)
          (score_of-builder_id env input bodies findings) cs u in
      let matched = all_matches-own env input bodies cs u in
      map-eq_of_All _ _ cs (
        All-map (λ c (v, (s, m)). rw (v, s, m) refl) cs
          (All-both _ _ cs verified (All-both _ _ cs scored matched)))
