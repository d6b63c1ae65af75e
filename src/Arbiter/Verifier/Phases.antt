-- ===== src/Arbiter/Verifier/Phases.antt =====
-- src/arbiter/verifier.ts: what each phase says about the commands.
use frontier_os.Prelude.{
  ℕ, zero, suc, ◌≡◌, ◌≢◌, ◌↔◌, refl, ◌∙◌, Bool-cases, String, Bool, true, Option, none, some, List,
  [], ◌∷◌, if◌then◌else◌, arith, eq_iff, inl, inr,
}
use frontier_os.Arbiter.Verifier.{
  VerificationPhase, skipped, worktree_missing, typecheck_failed, tests_failed,
  passed_typecheck_only, passed, given, VerifierOptions, typecheck_words, test_words, is_zero,
  typecheck, run_tests, verify_candidate,
}

is_zero_iff : (status : Option ℕ) → (is_zero status ≡ true) ↔ (status ≡ some 0)
is_zero_iff none = ground arith
is_zero_iff (some zero) = ground arith
is_zero_iff (some (suc n)) = ground arith

-- A list of words that names a command, and one that does not.
abbrev pub Runs : List String → Type 0
Runs [] = ⊥
Runs (cmd ∷ args) = cmd ≢ ""

module _ (exec : String → List String → String → Option ℕ) where
  abbrev pub Succeeds : String → List String → Type 0
  Succeeds cwd [] = ⊥
  Succeeds cwd (cmd ∷ args) = exec cmd args cwd ≡ some 0

  typecheck-passed_iff :
      (cwd : String) (words : List String) (tests : Option (List String))
      → Runs words
      → ((typecheck exec cwd (some words) tests).0 ≡ passed) ↔ Succeeds cwd words
  unfolding typecheck
  typecheck-passed_iff cwd [] tests h = absurd h
  typecheck-passed_iff cwd (cmd ∷ args) tests h =
      ground (arith, h, eq_iff cmd "", is_zero_iff (exec cmd args cwd))

  run_tests-passed_iff :
      (cwd : String) (words : List String) (phase : VerificationPhase)
      → Runs words
      → ((run_tests exec cwd (some words) phase).0 ≡ passed)
        ↔ ((phase ≡ passed) × Succeeds cwd words)
  unfolding run_tests
  run_tests-passed_iff cwd [] phase h = absurd h
  run_tests-passed_iff cwd (cmd ∷ args) passed h =
      ground (arith, h, eq_iff cmd "", is_zero_iff (exec cmd args cwd))
  run_tests-passed_iff cwd (cmd ∷ args) skipped h = ground arith
  run_tests-passed_iff cwd (cmd ∷ args) worktree_missing h = ground arith
  run_tests-passed_iff cwd (cmd ∷ args) typecheck_failed h = ground arith
  run_tests-passed_iff cwd (cmd ∷ args) tests_failed h = ground arith
  run_tests-passed_iff cwd (cmd ∷ args) passed_typecheck_only h = ground arith

module _ (exec : String → List String → String → Option ℕ) (is_there : String → Bool) where
  -- The phase of a run, from what its two steps say.
  verify_candidate_lem :
      (opts : VerifierOptions) (checks tests : Option (List String))
      → typecheck_words opts.typecheck_command ≡ checks
      → test_words opts.test_command ≡ tests
      → ((verify_candidate exec is_there opts).phase ≡ (
          if is_there opts.worktree_path
          then (run_tests exec opts.worktree_path tests
              (typecheck exec opts.worktree_path checks tests).0).0
          else worktree_missing))
        × ((verify_candidate exec is_there opts).test_exit_code ≡ (
            if is_there opts.worktree_path
            then (run_tests exec opts.worktree_path tests
                (typecheck exec opts.worktree_path checks tests).0).1
            else none))
  unfolding verify_candidate
  verify_candidate_lem opts checks tests e e' =
      rw (← e, ← e')
        elim (Bool-cases (is_there opts.worktree_path)) [
          | inl there ↦ (rw there, rw there)
          | inr missing ↦ (rw missing, rw missing)
        ]

  -- With a type check and tests to run, a candidate passes exactly if its worktree is there and both
  -- commands exit with 0 in it.
  pub verify_candidate-passed_iff :
      (opts : VerifierOptions) (checks tests : List String)
      → typecheck_words opts.typecheck_command ≡ some checks
      → test_words opts.test_command ≡ some tests
      → Runs checks
      → Runs tests
      → ((verify_candidate exec is_there opts).phase ≡ passed) ↔ (
          (is_there opts.worktree_path ≡ true)
          × Succeeds exec opts.worktree_path checks
          × Succeeds exec opts.worktree_path tests)
  verify_candidate-passed_iff opts checks tests e e' h h' =
      let cwd = opts.worktree_path in
      let checked = (typecheck exec cwd (some checks) (some tests)).0 in
      let one = typecheck-passed_iff exec cwd checks (some tests) h in
      let two = run_tests-passed_iff exec cwd tests checked h' in
      let (phase, _) = verify_candidate_lem opts (some checks) (some tests) e e' in
      ground (arith, phase, one, two)

  -- An empty list as the test command passes a candidate whose type check exits with 0, though no
  -- test ran: the phase is `passed`, and not `passed_typecheck_only`.
  verify_candidate_untested :
      (opts : VerifierOptions) (checks : List String)
      → typecheck_words opts.typecheck_command ≡ some checks
      → opts.test_command ≡ given []
      → Runs checks
      → Succeeds exec opts.worktree_path checks
      → is_there opts.worktree_path ≡ true
      → ((verify_candidate exec is_there opts).phase ≡ passed)
        × ((verify_candidate exec is_there opts).test_exit_code ≡ none)
  unfolding run_tests
  verify_candidate_untested opts checks e e' h ran there =
      let cwd = opts.worktree_path in
      let one = (typecheck-passed_iff exec cwd checks (some []) h).1 ran in
      let (phase, code) = verify_candidate_lem opts (some checks) (some []) e (rw e' refl) in
      (phase ∙ rw (there, one), code ∙ rw (there, one))
