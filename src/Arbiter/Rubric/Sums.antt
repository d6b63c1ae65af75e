-- ===== src/Arbiter/Rubric/Sums.antt =====
-- src/arbiter/rubric-scorer.ts: what a score is made of.
use frontier_os.Prelude.{
  or_else, ◌≡◌, refl, String, Bool, true, false, not, Option, none, some, List, [], ◌∷◌, ◌++◌, map,
  select, append_assoc, append-nil, sym, ◌∙◌, Option-cases, inl, inr,
}
use frontier_os.Swarm.Search.{Text}
use frontier_os.Arbiter.Verifier.{VerificationResult}
use frontier_os.Arbiter.Ratio.{Ratio, plus, of_halves, zero_ratio, one_ratio, ratio_or_zero}
use frontier_os.Arbiter.Rubric.{
  Criterion, Rubric, FindingSummary, CriterionScore, RubricScore, start_totals, score_criteria,
  score_criterion, Totals, add_criterion, add_criteria, score_candidate,
}

-- The sum, from the left.
pub sum_from : Ratio → List Ratio → Ratio
sum_from total [] = total
sum_from total (w ∷ ws) = sum_from (plus total w) ws

-- The criterion has a score.
abbrev pub is_scored : CriterionScore → Bool
is_scored c = elim c.score [ none ↦ false | some _ ↦ true ]

-- The weight of a criterion, 1 where none is given.
abbrev pub weight_of : CriterionScore → Ratio
weight_of c = or_else one_ratio c.weight

-- Its score times its weight.
abbrev pub points_of : CriterionScore → Ratio
points_of c = of_halves (or_else 0 c.score) (weight_of c)

-- The totals of some criteria, on top of others.
record Adds (cs : List CriterionScore) (t after : Totals) : Type 0 where
  total : after.total_weight ≡ sum_from t.total_weight (map weight_of cs)
  scored : after.scored_weight ≡ sum_from t.scored_weight (map weight_of (select is_scored cs))
  points : after.weighted_sum ≡ sum_from t.weighted_sum (map points_of (select is_scored cs))
  missing :
      after.unsupported ≡ t.unsupported ++ map (λ c. c.id) (select (λ c. not (is_scored c)) cs)

add_criteria_lem : (cs : List CriterionScore) (t : Totals) → Adds cs t (add_criteria cs t)
unfolding add_criteria sum_from
add_criteria_lem [] t = record {
  total = refl;
  scored = refl;
  points = refl;
  missing = sym (append-nil t.unsupported);
}
add_criteria_lem (c ∷ cs) t = elim (Option-cases c.score) [
  | inl absent ↦
      let rest = add_criteria_lem cs (add_criterion c t) in
      record {
        total = rest.total ∙ rw (absent) refl;
        scored = rest.scored ∙ rw (absent) refl;
        points = rest.points ∙ rw (absent) refl;
        missing = rest.missing ∙ rw (absent) (append_assoc t.unsupported (c.id ∷ []) _);
      }
  | inr (score, found) ↦
      let rest = add_criteria_lem cs (add_criterion c t) in
      record {
        total = rest.total ∙ rw (found) refl;
        scored = rest.scored ∙ rw (found) refl;
        points = rest.points ∙ rw (found) refl;
        missing = rest.missing ∙ rw (found) refl;
      }
]

-- What the scorer promises of a score, from the criteria's own scores.
pub record IsTotalled (r : RubricScore) : Type 0 where
  pub total : r.total_weight ≡ sum_from zero_ratio (map weight_of r.criteria)
  pub scored : r.scored_weight ≡ sum_from zero_ratio (map weight_of (select is_scored r.criteria))
  pub score :
      r.score
      ≡ ratio_or_zero
          (sum_from zero_ratio (map points_of (select is_scored r.criteria)))
          r.scored_weight
  pub coverage : r.coverage ≡ ratio_or_zero r.scored_weight r.total_weight
  pub missing :
      r.unsupported_criteria ≡ map (λ c. c.id) (select (λ c. not (is_scored c)) r.criteria)

module _ (lower : Text → Text) where
  -- How a criterion of the rubric is answered.
  abbrev pub answer : Option VerificationResult → FindingSummary → Criterion → CriterionScore
  answer v f c = record { id = c.id; score = score_criterion lower c v f; weight = c.weight }

  score_criteria-map :
      (cs : List Criterion) (v : Option VerificationResult) (f : FindingSummary)
      → score_criteria lower cs v f ≡ map (answer v f) cs
  unfolding score_criteria
  score_criteria-map [] v f = refl
  score_criteria-map (c ∷ cs) v f = rw (score_criteria-map cs v f) refl

  -- Each criterion of the rubric, in order, is answered once. The total weight is the sum over all
  -- of them and the scored weight the sum over those with a score, where a missing weight is 1; the
  -- score is the sum of their scores by weight, divided by the scored weight, the coverage is the
  -- scored weight divided by the total weight (each 0 where the divisor is not positive), and the
  -- ids without a score are listed.
  pub score_candidate_totals :
      (builder_id : String) (rubric : Rubric) (v : Option VerificationResult) (f : FindingSummary)
      → IsTotalled (score_candidate lower builder_id rubric v f)
        × ((score_candidate lower builder_id rubric v f).criteria
            ≡ map (answer v f) rubric.criteria)
  unfolding score_candidate
  score_candidate_totals builder_id rubric v f =
      let adds = add_criteria_lem (score_criteria lower rubric.criteria v f) start_totals in
      (
        record {
          total = adds.total;
          scored = adds.scored;
          score = rw (adds.points) refl;
          coverage = refl;
          missing = adds.missing;
        },
        score_criteria-map rubric.criteria v f,
      )
