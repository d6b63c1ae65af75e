-- ===== src/Arbiter/Verifier.antt =====
-- src/arbiter/verifier.ts: `verifyCandidate`, which runs the type check and the tests in the
-- candidate's worktree. Running a command (`exec`) and `existsSync` are parameters; the clock and the
-- texts of stderr, which decide nothing, are left out.
pub mod Phases
use frontier_os.Prelude.{
  ℕ, zero, suc, String, Bool, true, false, not, ◌&&◌, Option, none, some, List, [], ◌∷◌, str_eq,
  if◌then◌else◌,
}

pub data VerificationPhase : Type 0 where
  skipped worktree_missing typecheck_failed tests_failed passed_typecheck_only passed :
      VerificationPhase

-- An exit code of `none` is the source's -1, for a command that was killed.
pub record VerificationResult : Type 0 where
  pub builder_id : String
  pub worktree_path : String
  pub phase : VerificationPhase
  pub typecheck_exit_code : Option (Option ℕ)
  pub test_exit_code : Option (Option ℕ)

-- A command that the caller leaves out, switches off by null, or gives.
pub data Command : Type 0 where
  omitted off : Command
  given : List String → Command

pub record VerifierOptions : Type 0 where
  pub builder_id : String
  pub worktree_path : String
  pub typecheck_command : Command
  pub test_command : Command

-- `opts.typecheckCommand === undefined ? DEFAULT_TYPECHECK : opts.typecheckCommand`
abbrev pub typecheck_words : Command → Option (List String)
typecheck_words omitted = some ("npm" ∷ "run" ∷ "typecheck" ∷ [])
typecheck_words off = none
typecheck_words (given words) = some words

-- `opts.testCommand ?? null`
abbrev pub test_words : Command → Option (List String)
test_words (given words) = some words
test_words _ = none

abbrev pub is_zero : Option ℕ → Bool
is_zero (some zero) = true
is_zero _ = false

module _ (exec : String → List String → String → Option ℕ) where
  -- The phase after the type check, and its exit code.
  unfoldable pub typecheck :
      String → Option (List String) → Option (List String) → VerificationPhase × Option (Option ℕ)
  typecheck cwd (some (cmd ∷ args)) tests =
      let status = exec cmd args cwd in
      if str_eq cmd ""
      then (skipped, none)
      else if is_zero status
      then (passed, some status)
      else (typecheck_failed, some status)
  typecheck cwd none none = (skipped, none)
  typecheck cwd _ _ = (passed, none)

  -- The tests, run only after a phase of `passed`.
  unfoldable pub run_tests :
      String → Option (List String) → VerificationPhase → VerificationPhase × Option (Option ℕ)
  run_tests cwd none passed = (passed_typecheck_only, none)
  run_tests cwd (some []) passed = (passed, none)
  run_tests cwd (some (cmd ∷ args)) passed =
      let status = exec cmd args cwd in
      if str_eq cmd ""
      then (passed, none)
      else if is_zero status
      then (passed, some status)
      else (tests_failed, some status)
  run_tests cwd tests phase = (phase, none)

module _ (exec : String → List String → String → Option ℕ) (is_there : String → Bool) where
  unfoldable pub verify_candidate : VerifierOptions → VerificationResult
  verify_candidate opts =
      let cwd = opts.worktree_path in
      let tests = test_words opts.test_command in
      let (checked, typecheck_exit_code) =
        typecheck exec cwd (typecheck_words opts.typecheck_command) tests in
      let (phase, test_exit_code) = run_tests exec cwd tests checked in
      if is_there cwd
      then record {
        builder_id = opts.builder_id;
        worktree_path = cwd;
        phase = phase;
        typecheck_exit_code = typecheck_exit_code;
        test_exit_code = test_exit_code;
      }
      else record {
        builder_id = opts.builder_id;
        worktree_path = cwd;
        phase = worktree_missing;
        typecheck_exit_code = none;
        test_exit_code = none;
      }
