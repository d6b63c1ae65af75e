-- ===== src/Arbiter/Gates.antt =====
-- src/arbiter/arbiter.ts: the gates that make a candidate eligible.
use frontier_os.Prelude.{
  or_else, String, Bool, true, false, not, ◌&&◌, Option, none, some, List, length, ◌==◌, exists,
  find_first, str_eq,
}
use frontier_os.Prelude.Dict.{Dict, lookup}
use frontier_os.Arbiter.Ratio.{Ratio, at_least, zero_ratio}
use frontier_os.Arbiter.Verifier.{passed_typecheck_only, passed, VerificationResult}
use frontier_os.Arbiter.Rubric.{RubricScore}
use frontier_os.Arbiter.Inputs.{
  CandidateInput, ReviewerFindingInput, Gates, category, severity_high, AntiExampleMatch,
}

pub record Eligibility : Type 0 where
  pub builder_id : String
  pub ver_passed : Bool
  pub rubric_score_ok : Bool
  pub rubric_coverage_ok : Bool
  pub review_coverage_ok : Bool
  pub review_coverage : Option Ratio
  pub no_blocking_review_issue : Bool
  pub anti_example_gate_ok : Bool
  pub eligible : Bool
  pub score : Ratio
  pub rubric_coverage : Ratio

abbrev pub is_verified : Bool → Option VerificationResult → Bool
is_verified require_tests none = false
is_verified require_tests (some result) = elim result.phase [
  | passed ↦ true
  | passed_typecheck_only ↦ not require_tests
  | _ ↦ false
]

abbrev pub review_covered : Ratio → Option ReviewerFindingInput → Bool
review_covered floor none = true
review_covered floor (some r) = at_least (or_else zero_ratio r.review_coverage) floor

abbrev pub is_unblocked : Option ReviewerFindingInput → Bool
is_unblocked findings =
    category "bug" findings == 0
    && category "contract_violation" findings == 0
    && severity_high findings == 0

abbrev pub coverage_said : Option ReviewerFindingInput → Option Ratio
coverage_said none = none
coverage_said (some r) = r.review_coverage

abbrev pub score_value : Option RubricScore → Ratio
score_value none = zero_ratio
score_value (some s) = s.score

abbrev pub coverage_value : Option RubricScore → Ratio
coverage_value none = zero_ratio
coverage_value (some s) = s.coverage

-- The gates of one candidate, from what the lists hold for it.
unfoldable pub assess :
    Gates
    → List String
    → String
    → Option VerificationResult
    → Option RubricScore
    → Option ReviewerFindingInput
    → Bool
    → Eligibility
assess gates missing id ver score findings matched_anti =
    let ver_passed = is_verified gates.require_tests ver in
    let rubric_score_ok = at_least (score_value score) gates.quality_floor in
    let rubric_coverage_ok = at_least (coverage_value score) gates.min_rubric_coverage in
    let review_coverage_ok = review_covered gates.min_review_coverage findings in
    let no_blocking_review_issue = is_unblocked findings in
    let anti_example_gate_ok = not matched_anti && length missing == 0 in
    record {
      builder_id = id;
      ver_passed = ver_passed;
      rubric_score_ok = rubric_score_ok;
      rubric_coverage_ok = rubric_coverage_ok;
      review_coverage_ok = review_coverage_ok;
      review_coverage = coverage_said findings;
      no_blocking_review_issue = no_blocking_review_issue;
      anti_example_gate_ok = anti_example_gate_ok;
      eligible =
          ver_passed && rubric_score_ok && rubric_coverage_ok && review_coverage_ok
          && no_blocking_review_issue && anti_example_gate_ok;
      score = score_value score;
      rubric_coverage = coverage_value score;
    }

-- The `map` over the collected candidates, which looks their results up by builder.
unfoldable pub eligibility_of :
    Gates
    → List String
    → Dict ReviewerFindingInput
    → List VerificationResult
    → List RubricScore
    → List AntiExampleMatch
    → CandidateInput
    → Eligibility
eligibility_of gates missing findings verifications scores matches c =
    assess gates missing c.builder_id
      (find_first (λ v. str_eq v.builder_id c.builder_id) verifications)
      (find_first (λ s. str_eq s.builder_id c.builder_id) scores) (lookup c.builder_id findings)
      (exists (λ m. str_eq m.builder_id c.builder_id && m.matches) matches)
