-- ===== src/Arbiter/Inputs.antt =====
-- What `decide` of src/arbiter/arbiter.ts gets, and what it finds out about each candidate. Reading
-- the anti-example files, running commands and `toLowerCase` are the fields of `Env`.
use frontier_os.Prelude.{
  or_else, ℕ, String, Bool, true, false, not, ◌&&◌, Option, none, some, List, [], ◌∷◌, ◌++◌, map,
  if◌then◌else◌, exists, str_eq,
}
use frontier_os.Prelude.Dict.{Dict, lookup, insert}
use frontier_os.Swarm.Search.{Text}
use frontier_os.Arbiter.Ratio.{Ratio, pos}
use frontier_os.Arbiter.Verifier.{VerificationResult, Command, verify_candidate}
use frontier_os.Arbiter.Rubric.{Rubric, FindingSummary, RubricScore, score_candidate}
use frontier_os.Arbiter.AntiExample.{match_anti_example}

-- What the arbiter uses of its surroundings.
pub record Env : Type 0 where
  pub exec : String → List String → String → Option ℕ
  pub is_there : String → Bool
  pub lower : Text → Text
  pub load_anti_example : String → Option Text

pub record CandidateInput : Type 0 where
  pub builder_id : String
  pub worktree_path : Option String
  pub ok : Bool
  pub phase : String
  pub diff : Option Text

pub record ReviewerFindingInput : Type 0 where
  pub builder_id : String
  pub high : Option ℕ
  pub by_category : Dict ℕ
  pub anti_example_matched : Option Bool
  pub review_coverage : Option Ratio

pub record ArbiterInput : Type 0 where
  pub candidates : List CandidateInput
  pub reviewer_findings : List ReviewerFindingInput
  pub rubric : Rubric
  pub quality_floor : Option Ratio
  pub min_rubric_coverage : Option Ratio
  pub min_review_coverage : Option Ratio
  pub anti_example_paths : List String
  pub typecheck_command : Command
  pub test_command : Command
  pub require_tests : Option Bool

-- The thresholds, with their defaults.
pub record Gates : Type 0 where
  pub quality_floor : Ratio
  pub min_rubric_coverage : Ratio
  pub min_review_coverage : Ratio
  pub require_tests : Bool

abbrev pub gates_of : ArbiterInput → Gates
gates_of input = record {
  quality_floor = or_else (record { num = pos 7; den = 10 }) input.quality_floor;
  min_rubric_coverage = or_else (record { num = pos 1; den = 2 }) input.min_rubric_coverage;
  min_review_coverage = or_else (record { num = pos 33; den = 50 }) input.min_review_coverage;
  require_tests = or_else true input.require_tests;
}

-- The map of the findings by builder; a later one replaces an earlier.
unfoldable pub index_findings :
    List ReviewerFindingInput → Dict ReviewerFindingInput → Dict ReviewerFindingInput
index_findings [] m = m
index_findings (r ∷ rs) m = index_findings rs (insert r.builder_id r m)

abbrev has_text : Option String → Bool
has_text none = false
has_text (some s) = not (str_eq s "")

abbrev has_patch : Option Text → Bool
has_patch none = false
has_patch (some _) = true

abbrev pub is_collected : CandidateInput → Bool
is_collected c = c.ok && str_eq c.phase "collected" && has_patch c.diff && has_text c.worktree_path

-- The files that load, and those that do not.
unfoldable pub load_all : (String → Option Text) → List String → List (String × Text) × List String
load_all load [] = ([], [])
load_all load (path ∷ paths) =
    let (bodies, missing) = load_all load paths in
    elim (load path) [
      | none ↦ (bodies, path ∷ missing)
      | some body ↦ ((path, body) ∷ bodies, missing)
    ]

abbrev pub category : String → Option ReviewerFindingInput → ℕ
category name none = 0
category name (some r) = or_else 0 (lookup name r.by_category)

abbrev pub severity_high : Option ReviewerFindingInput → ℕ
severity_high none = 0
severity_high (some r) = or_else 0 r.high

-- The counts of `summarizeFindings` that the scorer reads.
abbrev pub summarize_findings : Option ReviewerFindingInput → FindingSummary
summarize_findings none = record {
  contract_violation = none;
  false_green = none;
  anti_example_matched = none;
}
summarize_findings (some r) = record {
  contract_violation = some (or_else 0 (lookup "contract_violation" r.by_category));
  false_green = some (or_else 0 (lookup "false_green" r.by_category));
  anti_example_matched = r.anti_example_matched;
}

-- An anti-example match: whose diff, which file, and whether the verdict is "matches".
pub record AntiExampleMatch : Type 0 where
  pub builder_id : String
  pub anti_example : String
  pub matches : Bool

module _ (env : Env) (input : ArbiterInput) (bodies : List (String × Text)) where
  unfoldable pub verification_of : CandidateInput → VerificationResult
  verification_of c = verify_candidate env.exec env.is_there (record {
    builder_id = c.builder_id;
    worktree_path = or_else "" c.worktree_path;
    typecheck_command = input.typecheck_command;
    test_command = input.test_command;
  })

  unfoldable pub matches_of : CandidateInput → List AntiExampleMatch
  matches_of c =
      map
        (λ entry. record {
          builder_id = c.builder_id;
          anti_example = entry.0;
          matches = match_anti_example env.lower (or_else [] c.diff) entry.1;
        })
        bodies

  unfoldable pub score_of : Dict ReviewerFindingInput → CandidateInput → RubricScore
  score_of findings c =
      let summary = summarize_findings (lookup c.builder_id findings) in
      let marked : FindingSummary =
        if exists (λ (m : AntiExampleMatch). m.matches) (matches_of c)
        then record summary { anti_example_matched = some true }
        else summary in
      score_candidate env.lower c.builder_id input.rubric (some (verification_of c)) marked

  -- The lists that the loop over the candidates fills.
  unfoldable pub all_matches : List CandidateInput → List AntiExampleMatch
  all_matches [] = []
  all_matches (c ∷ cs) = matches_of c ++ all_matches cs
