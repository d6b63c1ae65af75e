-- ===== src/Commands/Explain/Denied.antt =====
-- src/commands/store.ts: intents that destroy are of class 3, unless the caller names a class.
use frontier_os.Prelude.{
  ◌≡◌, refl, Bool, String, true, ◌||◌, Option, none, List, arith, Bool-cases, inl, inr,
}
use frontier_os.Work.{class_3}
use frontier_os.Swarm.Search.{Text}
use frontier_os.Commands.Payload.{Payload}
use frontier_os.Commands.Words.{
  is_destructive_filesystem, is_destructive_database, is_protected_restart,
}
use frontier_os.Commands.Route.{Project, classify_command}
use frontier_os.Commands.Verbs.{inferred_class_for_verb, route}

unfoldable pub is_destructive : Text → Bool
is_destructive intent =
    is_destructive_filesystem intent
    || is_destructive_database intent
    || is_protected_restart intent

pub destructive_class :
    (lower : Text → Text) (projects : List Project) (raw : Text) (given : Option String)
    (payload : Payload)
    → is_destructive (lower raw) ≡ true
    → (classify_command lower projects raw given none payload).approval_class ≡ class_3
unfolding is_destructive classify_command route inferred_class_for_verb
destructive_class lower projects raw given payload h =
    let intent = lower raw in
    elim (Bool-cases (is_destructive_filesystem intent)) [
      | inl files ↦ rw (files, classify_command) refl
      | inr no_files ↦ elim (Bool-cases (is_destructive_database intent)) [
        | inl tables ↦ rw (no_files, tables, classify_command) refl
        | inr no_tables ↦
            let service : is_protected_restart intent ≡ true =
              ground (arith, rw (no_files, no_tables) at h) in
            rw (no_files, no_tables, service, classify_command) refl
      ]
    ]
