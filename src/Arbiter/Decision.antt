-- ===== src/Arbiter/Decision.antt =====
-- `decide` of src/arbiter/arbiter.ts: its branches. The clock, the decision's id and the rendered
-- evidence are left out; the texts of reasons and questions are the data they are printed from.
pub mod Selecting
pub mod Own
pub mod Outcomes
use frontier_os.Prelude.{
  or_else, ℕ, zero, suc, ◌+◌, String, Bool, true, false, not, ◌&&◌, ◌||◌, Option, none, some, List,
  [], ◌∷◌, ◌++◌, map, length, ltb, ◌==◌, if◌then◌else◌, exists, select, find_first, str_eq,
}
use frontier_os.Prelude.Dict.{Dict, lookup, insert}
use frontier_os.Swarm.Search.{Text}
use frontier_os.Arbiter.Ratio.{Ratio, at_least, zero_ratio}
use frontier_os.Arbiter.Verifier.{
  VerificationPhase, skipped, worktree_missing, typecheck_failed, tests_failed,
  passed_typecheck_only, passed, VerificationResult, Command, verify_candidate,
}
use frontier_os.Arbiter.Rubric.{Rubric, FindingSummary, RubricScore, score_candidate}
use frontier_os.Arbiter.AntiExample.{match_anti_example}
use frontier_os.Arbiter.Inputs.{
  Env, CandidateInput, ReviewerFindingInput, ArbiterInput, Gates, gates_of, index_findings,
  is_collected, load_all, category, severity_high, summarize_findings, AntiExampleMatch,
  verification_of, matches_of, score_of, all_matches,
}
use frontier_os.Arbiter.Gates.{
  Eligibility, is_verified, review_covered, is_unblocked, coverage_said, score_value,
  coverage_value, assess, eligibility_of,
}

-- Why a candidate is not eligible, in the order of the source's texts.
pub data Blocker : Type 0 where
  verification score_low rubric_coverage_low review_coverage_low review_issue anti_example : Blocker

abbrev note : Bool → Blocker → List Blocker → List Blocker
note true b bs = bs
note false b bs = b ∷ bs

abbrev is_said : Option Ratio → Bool
is_said none = false
is_said (some _) = true

abbrev pub rejection_blockers : Eligibility → List Blocker
rejection_blockers e = note e.ver_passed verification (
    note e.rubric_score_ok score_low (
      note e.rubric_coverage_ok rubric_coverage_low (
        note (e.review_coverage_ok || not (is_said e.review_coverage)) review_coverage_low (
          note e.no_blocking_review_issue review_issue
            (note e.anti_example_gate_ok anti_example [])))))

abbrev pub escalation_blockers : Eligibility → List Blocker
escalation_blockers e = note e.rubric_coverage_ok rubric_coverage_low (
    note (e.review_coverage_ok || not (is_said e.review_coverage)) review_coverage_low
      (note e.no_blocking_review_issue review_issue []))

-- A line for each candidate that has a blocker.
abbrev pub blocked_lines :
    (Eligibility → List Blocker) → List Eligibility → List (String × List Blocker)
blocked_lines f [] = []
blocked_lines f (e ∷ es) =
    let rest = blocked_lines f es in
    elim (f e) [ [] ↦ rest | b ∷ bs ↦ (e.builder_id, b ∷ bs) ∷ rest ]

pub data RejectionReason : Type 0 where
  none_collected : RejectionReason
  blocked_candidate : String × List Blocker → RejectionReason

pub data Question : Type 0 where
  missing_files : List String → Question
  uncertain : List (String × List Blocker) → Question
  pick_one : List (String × Ratio) → Question

pub data Verdict : Type 0 where
  accept : String → Verdict
  reject : List RejectionReason → Verdict
  escalate_to_human : Question → Verdict

-- `sort((a, b) => b.score - a.score)`, which is stable.
abbrev pub place : Eligibility → List Eligibility → List Eligibility
place e [] = e ∷ []
place e (f ∷ fs) =
    let rest = place e fs in if at_least e.score f.score then e ∷ f ∷ fs else f ∷ rest

abbrev pub ranked : List Eligibility → List Eligibility
ranked [] = []
ranked (e ∷ es) = place e (ranked es)

abbrev pub is_uncertain : Eligibility → Bool
is_uncertain e =
    e.ver_passed
    && e.rubric_score_ok
    && e.anti_example_gate_ok
    && (not e.rubric_coverage_ok || not e.review_coverage_ok || not e.no_blocking_review_issue)

abbrev pub without_eligible : List Eligibility → List Eligibility → Verdict
without_eligible [] es = reject (map blocked_candidate (blocked_lines rejection_blockers es))
without_eligible (u ∷ us) es =
    escalate_to_human (uncertain (blocked_lines escalation_blockers (u ∷ us)))

abbrev pub choose : List Eligibility → List Eligibility → Verdict
choose [] es = without_eligible (select is_uncertain es) es
choose (e ∷ []) es = accept e.builder_id
choose (e ∷ f ∷ more) es =
    escalate_to_human (pick_one (map (λ r. (r.builder_id, r.score)) (ranked (e ∷ f ∷ more))))

-- The branches of the decision.
unfoldable pub conclude : List String → List Eligibility → Verdict
conclude missing [] = reject (none_collected ∷ [])
conclude (path ∷ paths) (e ∷ es) = escalate_to_human (missing_files (path ∷ paths))
conclude [] (e ∷ es) = choose (select (λ x. x.eligible) (e ∷ es)) (e ∷ es)

module _ (env : Env) (input : ArbiterInput) where
  -- The eligibility of every collected candidate, in order.
  unfoldable pub eligibilities :
      List (String × Text) → List String → List CandidateInput → List Eligibility
  eligibilities bodies missing collected =
      let findings = index_findings input.reviewer_findings [] in
      map
        (eligibility_of (gates_of input) missing findings
          (map (verification_of env input bodies) collected)
          (map (score_of env input bodies findings) collected)
          (all_matches env input bodies collected))
        collected

  unfoldable pub decide : Verdict
  decide =
      let collected = select is_collected input.candidates in
      let (bodies, missing) = load_all env.load_anti_example input.anti_example_paths in
      conclude missing (eligibilities bodies missing collected)
