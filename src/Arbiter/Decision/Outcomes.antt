-- ===== src/Arbiter/Decision/Outcomes.antt =====
-- src/arbiter/arbiter.ts: when a run accepts and when it rejects.
use frontier_os.Prelude.{
  ◌≡◌, ◌↔◌, ◌⊎◌, inl, inr, refl, ◌∙◌, sym, ap, String, true, false, List, [], ◌∷◌, map, select,
  arith, All, All-map, All-both,
}
use frontier_os.Prelude.Dict.{IsUnique}
use frontier_os.Swarm.Search.{Text}
use frontier_os.Arbiter.Inputs.{Env, CandidateInput, ArbiterInput, is_collected, load_all}
use frontier_os.Arbiter.Gates.{Eligibility, assess}
use frontier_os.Arbiter.Decision.{
  accept, reject, RejectionReason, is_uncertain, choose, without_eligible, conclude, decide,
}
use frontier_os.Arbiter.Decision.Own.{builders, own, eligibilities-own}
use frontier_os.Arbiter.Decision.Selecting.{
  HasOne, All-of_select-eq-[], select-eq-[], HasOne-of_select-eq, select-eq_of_HasOne, select-map,
  HasOne-of_iff, map-eq-[], map-eq-one, All-map_iff,
}

-- The gates on facts, and those on what reviewers and rubric leave open.
abbrev pub PassesObjective : Eligibility → Type 0
PassesObjective e =
    (e.ver_passed ≡ true) × (e.rubric_score_ok ≡ true) × (e.anti_example_gate_ok ≡ true)

abbrev pub PassesUncertain : Eligibility → Type 0
PassesUncertain e =
    (e.rubric_coverage_ok ≡ true)
    × (e.review_coverage_ok ≡ true)
    × (e.no_blocking_review_issue ≡ true)

abbrev pub Qualifies : Eligibility → Type 0
Qualifies e = PassesObjective e × PassesUncertain e

without_eligible-ne-accept :
    (us es : List Eligibility) (b : String) → ¬ (without_eligible us es ≡ accept b)
without_eligible-ne-accept [] es b h = ground arith
without_eligible-ne-accept (u ∷ us) es b h = ground arith

choose-eq-accept :
    (chosen es : List Eligibility) (b : String)
    → choose chosen es ≡ accept b
    → (e : Eligibility) × (chosen ≡ e ∷ []) × (e.builder_id ≡ b)
choose-eq-accept [] es b h = absurd (without_eligible-ne-accept (select is_uncertain es) es b h)
choose-eq-accept (e ∷ []) es b h = (e, refl, ground arith)
choose-eq-accept (e ∷ f ∷ more) es b h = absurd (ground arith)

conclude-eq-accept :
    (missing : List String) (es : List Eligibility) (b : String)
    → conclude missing es ≡ accept b
    → (missing ≡ [])
      × ((e : Eligibility) × (select (λ x. x.eligible) es ≡ e ∷ []) × (e.builder_id ≡ b))
unfolding conclude
conclude-eq-accept missing [] b h = absurd (ground arith)
conclude-eq-accept (path ∷ paths) (e ∷ es) b h = absurd (ground arith)
conclude-eq-accept [] (e ∷ es) b h =
    (refl, choose-eq-accept (select (λ x. x.eligible) (e ∷ es)) (e ∷ es) b h)

conclude-accept :
    (es : List Eligibility) (e : Eligibility)
    → select (λ x. x.eligible) es ≡ e ∷ []
    → conclude [] es ≡ accept e.builder_id
unfolding conclude
conclude-accept [] e h = absurd (ground arith)
conclude-accept (f ∷ es) e h = rw h refl

own-eligible :
    (env : Env) (input : ArbiterInput) (bodies : List (String × Text)) (missing : List String)
    (c : CandidateInput)
    → ((own env input bodies missing c).eligible ≡ true)
      ↔ Qualifies (own env input bodies missing c)
unfolding own assess
own-eligible env input bodies missing c = ground arith

own-builder_id :
    (env : Env) (input : ArbiterInput) (bodies : List (String × Text)) (missing : List String)
    (c : CandidateInput)
    → (own env input bodies missing c).builder_id ≡ c.builder_id
unfolding own assess
own-builder_id env input bodies missing c = refl

without_eligible-eq-reject :
    (us es : List Eligibility) (rs : List RejectionReason)
    → without_eligible us es ≡ reject rs
    → us ≡ []
without_eligible-eq-reject [] es rs h = refl
without_eligible-eq-reject (u ∷ us) es rs h = absurd (ground arith)

choose-eq-reject :
    (chosen es : List Eligibility) (rs : List RejectionReason)
    → choose chosen es ≡ reject rs
    → (chosen ≡ []) × (select is_uncertain es ≡ [])
choose-eq-reject [] es rs h = (refl, without_eligible-eq-reject (select is_uncertain es) es rs h)
choose-eq-reject (e ∷ []) es rs h = absurd (ground arith)
choose-eq-reject (e ∷ f ∷ more) es rs h = absurd (ground arith)

-- A candidate that passes the gates on facts is eligible or uncertain.
abbrev IsSound : Eligibility → Type 0
IsSound e = (e.eligible ≡ true) ↔ Qualifies e

objective_lem :
    (e : Eligibility)
    → IsSound e
    → PassesObjective e
    → e.eligible ≡ false
    → is_uncertain e ≡ false
    → ⊥
objective_lem e sound passes dull sure = ground arith

failing_lem :
    (e : Eligibility)
    → IsSound e
    → ¬ PassesObjective e
    → (e.eligible ≡ false) × (is_uncertain e ≡ false)
failing_lem e sound fails = ground arith

conclude-reject_iff :
    (missing : List String) (es : List Eligibility)
    → All IsSound es
    → ((rs : List RejectionReason) × (conclude missing es ≡ reject rs))
      ↔ ((es ≡ []) ⊎ ((missing ≡ []) × All (λ e. ¬ PassesObjective e) es))
unfolding conclude
conclude-reject_iff missing [] sound = ((λ _. inl refl), λ _. (_, refl))
conclude-reject_iff (path ∷ paths) (e ∷ es) sound = (
  (λ (rs, h). absurd (ground arith)),
  (λ k. absurd (elim k [ inl h ↦ ground (arith, h) | inr h ↦ ground (arith, h.0) ])),
)
conclude-reject_iff [] (e ∷ es) sound = (
  (λ (rs, h).
      let (chosen, uncertain) =
        choose-eq-reject (select (λ x. x.eligible) (e ∷ es)) (e ∷ es) rs h in
      let dull = All-of_select-eq-[] (λ (x : Eligibility). x.eligible) (e ∷ es) chosen in
      let sure = All-of_select-eq-[] is_uncertain (e ∷ es) uncertain in
      inr (
        refl,
        All-map (λ x (s, (d, u)) o. objective_lem x s o d u) (e ∷ es)
            (All-both _ _ (e ∷ es) sound (All-both _ _ (e ∷ es) dull sure)),
      )),
  (λ k.
      let failing : All (λ x. ¬ PassesObjective x) (e ∷ es) = elim k [
        | inl h ↦ absurd (ground (arith, h))
        | inr h ↦ h.1
      ] in
      let both = All-both _ _ (e ∷ es) sound failing in
      let none_chosen =
        select-eq-[] (λ (x : Eligibility). x.eligible) (e ∷ es)
          (All-map (λ x (s, f). (failing_lem x s f).0) (e ∷ es) both) in
      let none_uncertain =
        select-eq-[] is_uncertain (e ∷ es)
          (All-map (λ x (s, f). (failing_lem x s f).1) (e ∷ es) both) in
      (
        _,
        ap (λ chosen. choose chosen (e ∷ es)) none_chosen
            ∙ ap (λ us. without_eligible us (e ∷ es)) none_uncertain,
      )),
)

abbrev pub collected_of : ArbiterInput → List CandidateInput
collected_of input = select is_collected input.candidates

module _ (env : Env) (input : ArbiterInput) where
  abbrev pub missing_of : List String
  missing_of = (load_all env.load_anti_example input.anti_example_paths).1

  -- The gates of a candidate on its own results.
  abbrev pub own_gates : CandidateInput → Eligibility
  own_gates = own env input (load_all env.load_anti_example input.anti_example_paths).0 missing_of

  decide_lem :
      IsUnique (builders (collected_of input))
      → decide env input ≡ conclude missing_of (map own_gates (collected_of input))
  unfolding decide
  decide_lem u = ap (conclude missing_of) (
      eligibilities-own env input (load_all env.load_anti_example input.anti_example_paths).0
        missing_of (collected_of input) u)

  map-own-IsSound : (cs : List CandidateInput) → All IsSound (map own_gates cs)
  map-own-IsSound [] = tt
  map-own-IsSound (c ∷ cs) = (own-eligible env input _ _ c, map-own-IsSound cs)

  -- With a builder for each candidate, a run accepts a builder exactly if all anti-example files
  -- load and that builder's candidate is the only one, of those that collected a patch, that passes
  -- all six gates on its own results.
  pub decide-accept_iff :
      (b : String)
      → IsUnique (builders (collected_of input))
      → (decide env input ≡ accept b) ↔ (
          (missing_of ≡ [])
          × ((c : CandidateInput) × HasOne (λ d. Qualifies (own_gates d)) (collected_of input) c
              × (c.builder_id ≡ b)))
  decide-accept_iff b u =
      let cs = collected_of input in
      let chosen = λ (c : CandidateInput). (own_gates c).eligible in
      let same = λ (c : CandidateInput).
        own-eligible env input (load_all env.load_anti_example input.anti_example_paths).0
          missing_of c in
      let mapped = select-map own_gates (λ (e : Eligibility). e.eligible) cs in
      (
        (λ h.
            let (m, (e, one, at)) =
              conclude-eq-accept missing_of (map own_gates cs) b (sym (decide_lem u) ∙ h) in
            let (c, alone, made) = map-eq-one own_gates (select chosen cs) e (sym mapped ∙ one) in
            (
              m,
              (
                c,
                HasOne-of_iff same cs c (HasOne-of_select-eq chosen cs c alone),
                sym (own-builder_id env input _ _ c)
                    ∙ ap (λ (x : Eligibility). x.builder_id) made
                    ∙ at,
              ),
            )),
        (λ (m, (c, one, at)).
            let alone =
              select-eq_of_HasOne chosen cs c
                (HasOne-of_iff (λ d. ((same d).1, (same d).0)) cs c one) in
            decide_lem u
            ∙ ap (λ missing. conclude missing (map own_gates cs)) m
            ∙ conclude-accept (map own_gates cs) (own_gates c) (mapped ∙ ap (map own_gates) alone)
            ∙ ap accept (own-builder_id env input _ _ c ∙ at)),
      )

  -- With a builder for each candidate, a run rejects exactly if no candidate collected a patch, or
  -- all anti-example files load and each candidate fails verification, the quality floor or the
  -- anti-examples. In all other cases it accepts or asks a human.
  pub decide-reject_iff :
      IsUnique (builders (collected_of input))
      → ((rs : List RejectionReason) × (decide env input ≡ reject rs)) ↔ (
          (collected_of input ≡ [])
          ⊎ ((missing_of ≡ []) × All (λ c. ¬ PassesObjective (own_gates c)) (collected_of input)))
  decide-reject_iff u =
      let cs = collected_of input in
      let whole = conclude-reject_iff missing_of (map own_gates cs) (map-own-IsSound cs) in
      let over = All-map_iff own_gates (λ e. ¬ PassesObjective e) cs in
      (
        (λ (rs, h). elim (whole.0 (rs, sym (decide_lem u) ∙ h)) [
          | inl nothing ↦ inl (map-eq-[] own_gates cs nothing)
          | inr (m, f) ↦ inr (m, over.0 f)
        ]),
        (λ k.
            let (rs, h) =
              whole.1
                (elim k [ inl nothing ↦ inl (rw nothing refl) | inr (m, f) ↦ inr (m, over.1 f) ]) in
            (rs, decide_lem u ∙ h)),
      )
