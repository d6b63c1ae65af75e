-- ===== src/Arbiter/Tests.antt =====
-- Runs of the arbiter of src/arbiter/: two candidates, of which the second fails its tests.
use frontier_os.Prelude.{
  map, ℕ, ◌≡◌, ◌↔◌, ◌⊎◌, refl, String, true, Option, none, some, List, [], ◌∷◌, str_eq,
  if◌then◌else◌, arith, eq_iff, All,
}
use frontier_os.Swarm.Search.{includes}
use frontier_os.Arbiter.AntiExample.{match_anti_example}
use frontier_os.Arbiter.Ratio.{pos, negsuc, at_least, plus, ratio_or_zero}
use frontier_os.Prelude.Text.{units}
use frontier_os.Arbiter.Verifier.{
  passed, VerifierOptions, omitted, given, verify_candidate, run_tests, typecheck,
}
use frontier_os.Arbiter.Verifier.Phases.{Succeeds, verify_candidate-passed_iff}
use frontier_os.Arbiter.Rubric.{Rubric, FindingSummary, score_candidate, score_criterion}
use frontier_os.Arbiter.Rubric.Sums.{IsTotalled, answer, score_candidate_totals}
use frontier_os.Arbiter.Inputs.{
  Env, CandidateInput, ArbiterInput, load_all, verification_of, score_of, matches_of,
  index_findings, all_matches,
}
use frontier_os.Arbiter.Gates.{eligibility_of, assess}
use frontier_os.Arbiter.Decision.{accept, reject, RejectionReason, decide, conclude, eligibilities}
use frontier_os.Arbiter.Decision.Selecting.{HasOne}
use frontier_os.Arbiter.Decision.Outcomes.{
  Qualifies, PassesObjective, collected_of, missing_of, own_gates, decide-accept_iff,
  decide-reject_iff,
}

-- Every command succeeds but "test" in the worktree "w2".
abbrev run : String → List String → String → Option ℕ
run cmd args cwd =
    if str_eq cmd "test" then (if str_eq cwd "w2" then some 1 else some 0) else some 0

abbrev env : Env
env = record {
  exec = run;
  is_there = λ path. true;
  lower = λ text. text;
  load_anti_example = λ path. none;
}

abbrev options : String → VerifierOptions
options worktree = record {
  builder_id = "b";
  worktree_path = worktree;
  typecheck_command = omitted;
  test_command = given ("test" ∷ []);
}

abbrev rubric : Rubric
rubric = record {
  rubric_id = "r";
  criteria =
      record {
        id = "c";
        title = "passed implies checks";
        rationale = "";
        weight = some (record { num = pos 3; den = 1 });
      }
      ∷ record { id = "d"; title = "taste"; rationale = ""; weight = none }
      ∷ [];
}

abbrev candidate : String → String → CandidateInput
candidate id worktree = record {
  builder_id = id;
  worktree_path = some worktree;
  ok = true;
  phase = "collected";
  diff = some (units "+ x");
}

abbrev input : List CandidateInput → ArbiterInput
input candidates = record {
  candidates = candidates;
  reviewer_findings = [];
  rubric = rubric;
  quality_floor = none;
  min_rubric_coverage = none;
  min_review_coverage = none;
  anti_example_paths = [];
  typecheck_command = omitted;
  test_command = given ("test" ∷ []);
  require_tests = none;
}

abbrev both : ArbiterInput
both = input (candidate "b1" "w1" ∷ candidate "b2" "w2" ∷ [])

abbrev failing : ArbiterInput
failing = input (candidate "b2" "w2" ∷ [])

decide_lem : decide env both ≡ accept "b1"
unfolding decide conclude eligibilities load_all eligibility_of assess verification_of
    verify_candidate run_tests typecheck at_least plus ratio_or_zero score_of score_candidate
    score_criterion includes matches_of index_findings all_matches match_anti_example
decide_lem = refl

verify_candidate-passed_iff_example :
    ((verify_candidate run (λ path. true) (options "w1")).phase ≡ passed) ↔ (
      (true ≡ true)
      × Succeeds run "w1" ("npm" ∷ "run" ∷ "typecheck" ∷ [])
      × Succeeds run "w1" ("test" ∷ []))
verify_candidate-passed_iff_example =
    verify_candidate-passed_iff run (λ path. true) (options "w1") ("npm" ∷ "run" ∷ "typecheck" ∷ [])
      ("test" ∷ []) refl refl (λ e. ground (arith, (eq_iff "npm" "").1 e))
      (λ e. ground (arith, (eq_iff "test" "").1 e))

abbrev silent : FindingSummary
silent = record { contract_violation = none; false_green = some 1; anti_example_matched = none }

score_candidate_totals_example :
    IsTotalled (score_candidate (λ text. text) "b" rubric none silent)
    × ((score_candidate (λ text. text) "b" rubric none silent).criteria
        ≡ map (answer (λ text. text) none silent) rubric.criteria)
score_candidate_totals_example = score_candidate_totals (λ text. text) "b" rubric none silent

-- A negative weight makes the coverage more than 1.
abbrev lowered : Rubric
lowered = record {
  rubric_id = "r";
  criteria =
      record {
        id = "c";
        title = "false green";
        rationale = "";
        weight = some (record { num = pos 3; den = 1 });
      }
      ∷ record {
        id = "d";
        title = "taste";
        rationale = "";
        weight = some (record { num = negsuc 0; den = 1 });
      }
      ∷ [];
}

overcovered_lem :
    (score_candidate (λ text. text) "b" lowered none silent).coverage
    ≡ record { num = pos 3; den = 2 }
unfolding score_candidate score_criterion includes plus ratio_or_zero
overcovered_lem = refl

decide-accept_iff_example : (decide env both ≡ accept "b1") ↔ (
    (missing_of env both ≡ [])
    × ((c : CandidateInput) × HasOne (λ d. Qualifies (own_gates env both d)) (collected_of both) c
        × (c.builder_id ≡ "b1")))
decide-accept_iff_example = decide-accept_iff env both "b1" (ground arith)

decide-reject_iff_example : ((rs : List RejectionReason) × (decide env failing ≡ reject rs)) ↔ (
    (collected_of failing ≡ [])
    ⊎ ((missing_of env failing ≡ [])
        × All (λ c. ¬ PassesObjective (own_gates env failing c)) (collected_of failing)))
decide-reject_iff_example = decide-reject_iff env failing (ground arith)
