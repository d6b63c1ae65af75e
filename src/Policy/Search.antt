-- ===== src/Policy/Search.antt =====
-- src/policy/evaluator.ts: what the filters and searches over the ledger's events find.
use frontier_os.Prelude.{
  ◌≡◌, refl, String, Bool, true, some, List, [], ◌∷◌, eq_iff, arith, inl, inr, Bool-cases,
  Option-cases, select, find_first,
}
use frontier_os.Prelude.Dict.{contains}
use frontier_os.Policy.{ApprovalGrant}
use frontier_os.Policy.Ledger.{LedgerEvent, Events, Has}
use frontier_os.Policy.Tokens.{grants_of, token_ids_of, grant_from_event, text_at}

module _ {A : Type 0} where
  pub find_first-eq-some :
      (p : A → Bool) (xs : List A) (a : A) → find_first p xs ≡ some a → Has xs a × (p a ≡ true)
  find_first-eq-some p [] a h = absurd (ground arith)
  find_first-eq-some p (x ∷ xs) a h = elim (Bool-cases (p x)) [
    | inl hit ↦ let same : x ≡ a = ground arith in (inl same, rw (← same) hit)
    | inr miss ↦ let (found, hit) = find_first-eq-some p xs a (rw miss at h) in (inr found, hit)
  ]

  pub find_first_of_Has :
      (p : A → Bool) (xs : List A) (a : A)
      → Has xs a
      → p a ≡ true
      → (b : A) × (find_first p xs ≡ some b)
  find_first_of_Has p [] a h q = elim h [ ]
  find_first_of_Has p (x ∷ xs) a h q = elim (Bool-cases (p x)) [
    | inl hit ↦ (x, rw hit)
    | inr miss ↦ elim h [
      | inl here ↦ absurd (ground arith)
      | inr later ↦ rw miss (find_first_of_Has p xs a later q)
    ]
  ]

  pub Has-select_test :
      (p : A → Bool) (xs : List A) (a : A) → Has (select p xs) a → Has xs a × (p a ≡ true)
  Has-select_test p [] a h = elim h [ ]
  Has-select_test p (x ∷ xs) a h = elim (Bool-cases (p x)) [
    | inl hit ↦ elim (rw hit at h) [
      | inl same ↦ (inl same, rw (← same) hit)
      | inr later ↦ let (q, r) = Has-select_test p xs a later in (inr q, r)
    ]
    | inr miss ↦ let (q, r) = Has-select_test p xs a (rw miss at h) in (inr q, r)
  ]

  pub Has-select_of_test :
      (p : A → Bool) (xs : List A) (a : A) → Has xs a → p a ≡ true → Has (select p xs) a
  Has-select_of_test p [] a h q = elim h [ ]
  Has-select_of_test p (x ∷ xs) a (inl here) q = rw (here, q) (inl refl)
  Has-select_of_test p (x ∷ xs) a (inr later) q = elim (Bool-cases (p x)) [
    | inl hit ↦ rw hit (inr (Has-select_of_test p xs a later q))
    | inr miss ↦ rw miss (Has-select_of_test p xs a later q)
  ]

pub Has-grants_of :
    (es : Events) (g : ApprovalGrant)
    → Has (grants_of es) g
    → (e : LedgerEvent) × Has es e × (grant_from_event e ≡ some g)
unfolding grants_of
Has-grants_of [] g h = elim h [ ]
Has-grants_of (x ∷ es) g h = elim (Option-cases (grant_from_event x)) [
  | inl bad ↦ let (e, p, q) = Has-grants_of es g (rw (bad, grants_of) at h) in (e, inr p, q)
  | inr (g', good) ↦ elim (rw (good, grants_of) at h) [
    | inl same ↦ (x, inl refl, rw (← same) good)
    | inr later ↦ let (e, p, q) = Has-grants_of es g later in (e, inr p, q)
  ]
]

pub Has-grants_of_event :
    (es : Events) (e : LedgerEvent) (g : ApprovalGrant)
    → Has es e
    → grant_from_event e ≡ some g
    → Has (grants_of es) g
unfolding grants_of
Has-grants_of_event [] e g h k = elim h [ ]
Has-grants_of_event (x ∷ es) e g (inl here) k = rw (here, k, grants_of) (inl refl)
Has-grants_of_event (x ∷ es) e g (inr later) k = elim (Option-cases (grant_from_event x)) [
  | inl bad ↦ rw (bad, grants_of) (Has-grants_of_event es e g later k)
  | inr (g', good) ↦ rw (good, grants_of) (inr (Has-grants_of_event es e g later k))
]

pub contains-token_ids_of :
    (es : Events) (e : LedgerEvent) (t : String)
    → Has es e
    → text_at "tokenId" e.payload ≡ some t
    → contains (token_ids_of es) t ≡ true
unfolding token_ids_of
contains-token_ids_of [] e t h k = elim h [ ]
contains-token_ids_of (x ∷ es) e t (inl here) k =
    rw (here, k, token_ids_of) (ground (arith, eq_iff t t))
contains-token_ids_of (x ∷ es) e t (inr later) k =
    let rest = contains-token_ids_of es e t later k in
    elim (Option-cases (text_at "tokenId" x.payload)) [
      | inl bad ↦ rw (bad, token_ids_of) rest
      | inr (t', good) ↦ rw (good, token_ids_of) (ground (arith, rest))
    ]
