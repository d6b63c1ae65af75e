-- ===== src/Policy/Classes.antt =====
-- src/policy/evaluator.ts: which class a verb has when the caller names none.
use frontier_os.Prelude.{
  ℕ, ◌≡◌, ◌↔◌, refl, subst, ◌∙◌, String, Bool, true, false, none, some, List, [], ◌∷◌, inl, inr,
  arith, Bool-cases, str_eq, eq_iff, All, if◌then◌else◌,
}
use frontier_os.Prelude.Dict.{contains}
use frontier_os.Work.{ApprovalClass, class_0, class_1, class_2, class_3}
use frontier_os.Policy.{
  ActionEnvelope, ActionInput, allow, deny, classify_verb, read_only_verbs, class_one_verbs,
  class_two_verbs, class_three_verbs, build_action_envelope,
}
use frontier_os.Policy.Ledger.{Events}
use frontier_os.Policy.Tokens.{Env, decide, evaluate_policy_action}

contains_All {ℓ} :
    (P : String → Type ℓ) (xs : List String) (k : String) → All P xs → contains xs k ≡ true → P k
contains_All P [] k h c = absurd (ground arith)
contains_All P (x ∷ xs) k (p, h) c = elim (Bool-cases (str_eq x k)) [
  | inl same ↦ subst P ((eq_iff x k).0 same) p
  | inr other ↦ contains_All P xs k h (rw other at c)
]

-- No verb of the later lists is in an earlier one.
apart_two :
    (verb : String)
    → contains class_two_verbs verb ≡ true
    → (contains read_only_verbs verb ≡ false) × (contains class_one_verbs verb ≡ false)
apart_two verb =
    contains_All (λ v. (contains read_only_verbs v ≡ false) × (contains class_one_verbs v ≡ false))
      class_two_verbs verb
      ((refl, refl), ((refl, refl), ((refl, refl), ((refl, refl), ((refl, refl), tt)))))

apart_three :
    (verb : String)
    → contains class_three_verbs verb ≡ true
    → (contains read_only_verbs verb ≡ false)
      × (contains class_one_verbs verb ≡ false)
      × (contains class_two_verbs verb ≡ false)
apart_three verb =
    contains_All
      (λ v.
        (contains read_only_verbs v ≡ false)
        × (contains class_one_verbs v ≡ false)
        × (contains class_two_verbs v ≡ false))
      class_three_verbs verb
      (
        (refl, refl, refl),
        (
          (refl, refl, refl),
          (
            (refl, refl, refl),
            (
              (refl, refl, refl),
              ((refl, refl, refl), ((refl, refl, refl), ((refl, refl, refl), tt))),
            ),
          ),
        ),
      )

abbrev class_of : (a b c d : Bool) → ApprovalClass
class_of a b c d =
    if a
    then class_0
    else if b
    then class_1
    else if c
    then class_2
    else if d
    then class_3
    else class_1

ladder :
    (verb : String) (a b c d : Bool)
    → contains read_only_verbs verb ≡ a
    → contains class_one_verbs verb ≡ b
    → contains class_two_verbs verb ≡ c
    → contains class_three_verbs verb ≡ d
    → (classify_verb verb none).approval_class ≡ class_of a b c d
unfolding classify_verb
ladder verb true b c d p q r s = rw p
ladder verb false true c d p q r s = rw (p, q)
ladder verb false false true d p q r s = rw (p, q, r)
ladder verb false false false true p q r s = rw (p, q, r, s)
ladder verb false false false false p q r s = rw (p, q, r, s)

class_of_iff :
    (a b c d : Bool)
    → (c ≡ true → (a ≡ false) × (b ≡ false))
    → (d ≡ true → (a ≡ false) × (b ≡ false) × (c ≡ false))
    → ((class_of a b c d ≡ class_0) ↔ (a ≡ true))
      × ((class_of a b c d ≡ class_2) ↔ (c ≡ true))
      × ((class_of a b c d ≡ class_3) ↔ (d ≡ true))
class_of_iff a b c d h k = ground arith

-- With no explicit class a verb is of class 0, 2 or 3 exactly when it is on the list for that class,
-- so every verb on none of those lists, an unknown one too, is of class 1.
classify_verb_iff :
    (verb : String)
    → (((classify_verb verb none).approval_class ≡ class_0)
        ↔ (contains read_only_verbs verb ≡ true))
      × (((classify_verb verb none).approval_class ≡ class_2)
          ↔ (contains class_two_verbs verb ≡ true))
      × (((classify_verb verb none).approval_class ≡ class_3)
          ↔ (contains class_three_verbs verb ≡ true))
classify_verb_iff verb =
    rw (ladder verb _ _ _ _ refl refl refl refl)
      (class_of_iff _ _ _ _ (apart_two verb) (apart_three verb))

class_1_of_unlisted :
    (a b c d : Bool) → a ≡ false → c ≡ false → d ≡ false → class_of a b c d ≡ class_1
class_1_of_unlisted a b c d p q r = ground arith

module _ (env : Env) (fresh_trace now_text : String) (input : ActionInput) (action : ActionEnvelope)
    (none_given : input.approval_class ≡ none)
    (built : build_action_envelope fresh_trace now_text input ≡ some action) (now : ℕ)
    (consume : Bool) (events : Events) where
  action_class :
      (action.approval_class ≡ (classify_verb input.verb none).approval_class)
      × (action.verb ≡ input.verb)
  unfolding build_action_envelope
  action_class = (ground (arith, none_given), ground (arith, none_given))

  -- An action for a verb on the class-3 list, built with no explicit class, is denied whatever
  -- tokens there are, and the ledger is left alone.
  class_three_denied :
      contains class_three_verbs input.verb ≡ true
      → ((evaluate_policy_action env action now consume events).0.decision.status ≡ deny)
        × ((evaluate_policy_action env action now consume events).1 ≡ events)
  unfolding evaluate_policy_action
  class_three_denied h =
      let three : action.approval_class ≡ class_3 =
        action_class.0 ∙ (classify_verb_iff input.verb).2.1 h in
      rw (three, decide) (refl, refl)

  -- An action for a verb that is on none of the lists for classes 0, 2 and 3, built with no explicit
  -- class, is allowed, and no token is used.
  pub unlisted_allowed :
      contains read_only_verbs input.verb ≡ false
      → contains class_two_verbs input.verb ≡ false
      → contains class_three_verbs input.verb ≡ false
      → ((evaluate_policy_action env action now consume events).0.decision.status ≡ allow)
        × ((evaluate_policy_action env action now consume events).1 ≡ events)
  unfolding evaluate_policy_action
  unlisted_allowed p q r =
      let one : action.approval_class ≡ class_1 =
        action_class.0
        ∙ (ladder input.verb _ _ _ _ refl refl refl refl
            ∙ class_1_of_unlisted _ (contains class_one_verbs input.verb) _ _ p q r) in
      rw (one, decide) (refl, refl)
