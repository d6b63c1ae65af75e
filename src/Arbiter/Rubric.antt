-- ===== src/Arbiter/Rubric.antt =====
-- src/arbiter/rubric-scorer.ts: `scoreCandidate`. A criterion's score is counted in halves: 0, 1 or
-- 2, and a weight is any number, as a rubric's file may have it. `toLowerCase` is a parameter. The rationale texts of the scores, and the loading of a rubric,
-- are left out.
pub mod Sums
use frontier_os.Prelude.{
  or_else, ℕ, zero, suc, ◌+◌, ◌*◌, String, Bool, true, false, ◌&&◌, ◌||◌, Option, none, some, List,
  [], ◌∷◌, ◌++◌, ltb, if◌then◌else◌,
}
use frontier_os.Prelude.Text.{units, ◌<>◌}
use frontier_os.Swarm.Search.{Text, includes}
use frontier_os.Arbiter.Verifier.{
  VerificationPhase, skipped, worktree_missing, typecheck_failed, tests_failed,
  passed_typecheck_only, passed, VerificationResult,
}
use frontier_os.Arbiter.Ratio.{Ratio, plus, of_halves, zero_ratio, one_ratio, ratio_or_zero}

pub record Criterion : Type 0 where
  pub id : String
  pub title : String
  pub rationale : String
  pub weight : Option Ratio

pub record Rubric : Type 0 where
  pub rubric_id : String
  pub criteria : List Criterion

-- The counts that the scorer reads.
pub record FindingSummary : Type 0 where
  pub contract_violation : Option ℕ
  pub false_green : Option ℕ
  pub anti_example_matched : Option Bool

pub record CriterionScore : Type 0 where
  pub id : String
  pub score : Option ℕ
  pub weight : Option Ratio

pub record RubricScore : Type 0 where
  pub builder_id : String
  pub rubric_id : String
  pub score : Ratio
  pub scored_weight : Ratio
  pub total_weight : Ratio
  pub coverage : Ratio
  pub unsupported_criteria : List String
  pub criteria : List CriterionScore

abbrev pub phase_score : VerificationPhase → Option ℕ
phase_score worktree_missing = some 0
phase_score typecheck_failed = some 0
phase_score tests_failed = some 0
phase_score passed = some 2
phase_score passed_typecheck_only = some 1
phase_score skipped = none

abbrev pub verification_score : Option VerificationResult → Option ℕ
verification_score none = none
verification_score (some result) = phase_score result.phase

-- `n > 0 ? 0 : 1`, for a count that may be missing.
abbrev pub penalty : Option ℕ → ℕ
penalty found = if ltb 0 (or_else 0 found) then 0 else 2

module _ (lower : Text → Text) where
  unfoldable pub score_criterion : Criterion → Option VerificationResult → FindingSummary → Option ℕ
  score_criterion c v f =
      let blob = lower (units (c.title <> " " <> c.rationale)) in
      let says : String → Bool = λ phrase. includes blob (units phrase) in
      if says "passed implies" || says "classification" || says "invariant"
      then verification_score v
      else if says "false green" || says "false-green"
      then some (penalty f.false_green)
      else if says "invariant" || says "contract"
      then some (penalty f.contract_violation)
      else if or_else false f.anti_example_matched && (says "anti" || says "exemplar")
      then some 0
      else none

-- The sums of the second loop.
pub record Totals : Type 0 where
  pub total_weight : Ratio
  pub scored_weight : Ratio
  pub weighted_sum : Ratio
  pub unsupported : List String

abbrev pub add_criterion : CriterionScore → Totals → Totals
add_criterion c t =
    let w = or_else one_ratio c.weight in
    elim c.score [
      | none ↦ record t {
        total_weight = plus t.total_weight w;
        unsupported = t.unsupported ++ c.id ∷ [];
      }
      | some s ↦ record t {
        total_weight = plus t.total_weight w;
        scored_weight = plus t.scored_weight w;
        weighted_sum = plus t.weighted_sum (of_halves s w);
      }
    ]

pub add_criteria : List CriterionScore → Totals → Totals
add_criteria [] t = t
add_criteria (c ∷ cs) t = add_criteria cs (add_criterion c t)

abbrev pub start_totals : Totals
start_totals = record {
  total_weight = zero_ratio;
  scored_weight = zero_ratio;
  weighted_sum = zero_ratio;
  unsupported = [];
}

module _ (lower : Text → Text) where
  pub score_criteria :
      List Criterion → Option VerificationResult → FindingSummary → List CriterionScore
  score_criteria [] v f = []
  score_criteria (c ∷ cs) v f =
      record { id = c.id; score = score_criterion lower c v f; weight = c.weight }
      ∷ score_criteria cs v f

  unfoldable pub score_candidate :
      String → Rubric → Option VerificationResult → FindingSummary → RubricScore
  unfolding add_criteria score_criteria
  score_candidate builder_id rubric v f =
      let criteria = score_criteria rubric.criteria v f in
      let t = add_criteria criteria start_totals in
      record {
        builder_id = builder_id;
        rubric_id = rubric.rubric_id;
        score = ratio_or_zero t.weighted_sum t.scored_weight;
        scored_weight = t.scored_weight;
        total_weight = t.total_weight;
        coverage = ratio_or_zero t.scored_weight t.total_weight;
        unsupported_criteria = t.unsupported;
        criteria = criteria;
      }
