-- ===== src/Arbiter/Decision/Selecting.antt =====
-- The lists that `filter` leaves, as `decide` of src/arbiter/arbiter.ts reads them.
use frontier_os.Prelude.{
  ◌≡◌, ◌↔◌, refl, Bool, true, false, List, [], ◌∷◌, ◌++◌, map, select, arith, All, All-map,
  Bool-cases, inl, inr,
}

-- The list has one member with the property, and the others do not have it.
abbrev pub HasOne {ℓ} : {A : Type ℓ} → (A → Type 0) → List A → A → Type ℓ
HasOne {A = A} P xs x =
    (before : List A) × (after : List A) × (xs ≡ before ++ x ∷ after)
    × P x
    × All (λ y. ¬ P y) before
    × All (λ y. ¬ P y) after

module _ {ℓ} {A : Type ℓ} (p : A → Bool) where
  pub All-of_select-eq-[] : (xs : List A) → select p xs ≡ [] → All (λ x. p x ≡ false) xs
  All-of_select-eq-[] [] h = tt
  All-of_select-eq-[] (x ∷ xs) h = elim (Bool-cases (p x)) [
    | inl on ↦ absurd (ground (arith, h, on))
    | inr off ↦ (off, All-of_select-eq-[] xs (ground (arith, h, off)))
  ]

  pub select-eq-[] : (xs : List A) → All (λ x. p x ≡ false) xs → select p xs ≡ []
  select-eq-[] [] h = refl
  select-eq-[] (x ∷ xs) (off, h) = ground (arith, off, select-eq-[] xs h)

  pub HasOne-of_select-eq :
      (xs : List A) (x : A) → select p xs ≡ x ∷ [] → HasOne (λ y. p y ≡ true) xs x
  HasOne-of_select-eq [] x h = absurd (ground arith)
  HasOne-of_select-eq (y ∷ ys) x h = elim (Bool-cases (p y)) [
    | inl on ↦
        let same : y ≡ x = ground (arith, h, on) in
        let rest : select p ys ≡ [] = ground (arith, h, on) in
        (
          [],
          ys,
          rw same,
          rw (← same) on,
          tt,
          All-map (λ z off. ground arith) ys (All-of_select-eq-[] ys rest),
        )
    | inr off ↦
        let (before, after, split, here, b, a) =
          HasOne-of_select-eq ys x (ground (arith, h, off)) in
        (y ∷ before, after, rw split, here, (ground (arith, off), b), a)
  ]

  select-append : (xs ys : List A) → select p (xs ++ ys) ≡ select p xs ++ select p ys
  select-append [] ys = refl
  select-append (x ∷ xs) ys = ground (arith, select-append xs ys)

  pub select-eq_of_HasOne :
      (xs : List A) (x : A) → HasOne (λ y. p y ≡ true) xs x → select p xs ≡ x ∷ []
  select-eq_of_HasOne xs x (before, after, split, here, b, a) =
      let none_before = select-eq-[] before (All-map (λ y off. ground (arith, off)) before b) in
      let none_after = select-eq-[] after (All-map (λ y off. ground (arith, off)) after a) in
      rw (split, select-append before (x ∷ after), none_before) (ground (arith, here, none_after))

module _ {ℓ κ} {A : Type ℓ} {B : Type κ} (f : A → B) (p : B → Bool) where
  pub select-map : (xs : List A) → select p (map f xs) ≡ map f (select (λ x. p (f x)) xs)
  select-map [] = refl
  select-map (x ∷ xs) = ground (arith, select-map xs)

module _ {ℓ κ} {A : Type ℓ} {B : Type κ} (f : A → B) where
  pub map-eq-[] : (xs : List A) → map f xs ≡ [] → xs ≡ []
  map-eq-[] [] h = refl
  map-eq-[] (x ∷ xs) h = absurd (ground arith)

  pub map-eq-one : (xs : List A) (y : B) → map f xs ≡ y ∷ [] → (x : A) × (xs ≡ x ∷ []) × (f x ≡ y)
  map-eq-one [] y h = absurd (ground arith)
  map-eq-one (x ∷ xs) y h =
      let rest : map f xs ≡ [] = ground (arith, h) in (x, rw (map-eq-[] xs rest), ground (arith, h))

  pub All-map_iff : (P : B → Type 0) (xs : List A) → All P (map f xs) ↔ All (λ x. P (f x)) xs
  All-map_iff P [] = ((λ _. tt), λ _. tt)
  All-map_iff P (x ∷ xs) =
      let rest = All-map_iff P xs in ((λ (p, h). (p, rest.0 h)), λ (p, h). (p, rest.1 h))

module _ {ℓ} {A : Type ℓ} {P Q : A → Type 0} where
  pub HasOne-of_iff : ((y : A) → P y ↔ Q y) → (xs : List A) (x : A) → HasOne P xs x → HasOne Q xs x
  HasOne-of_iff same xs x (before, after, split, here, b, a) = (
    before,
    after,
    split,
    (same x).0 here,
    All-map (λ y f q. f ((same y).1 q)) before b,
    All-map (λ y f q. f ((same y).1 q)) after a,
  )
