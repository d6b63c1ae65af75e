-- ===== src/Prelude/Dict.antt =====
-- A `Map` with text keys, as an association list in insertion order: `set` overwrites in place, and
-- adds a new key at the end. Also the sets of texts that the program tests membership in.
use mathlib.Core.Path.{◌≡◌, refl}
use mathlib.Core.Logic.{inl, inr}
use mathlib.Core.Bool.{Bool, true, false, ◌||◌}
use mathlib.Core.List.{List, [], ◌∷◌, ◌++◌}
use mathlib.Core.Option.{Option, none, some}
use Prim.Native.Nat.{ℕ, suc, ◌≤◌}
use Prim.Native.String.{String}
use native.Mathlib.Omega.{arith}
use text.Mathlib.Text.{◌==◌ as str_eq}
use text.Mathlib.TextEquality.{eq_iff}
use frontier_os.Prelude.Tests.{if◌then◌else◌, Bool-cases}
use frontier_os.Prelude.Lists.{length}

abbrev pub Dict {ℓ} : Type ℓ → Type ℓ
Dict V = List (String × V)

module _ {ℓ} {V : Type ℓ} where
  -- `m.get(k)`
  abbrev pub lookup : String → Dict V → Option V
  lookup k [] = none
  lookup k ((j, v) ∷ m) = if str_eq j k then some v else lookup k m

  -- `m.set(k, v)`
  abbrev pub insert : String → V → Dict V → Dict V
  insert k v [] = (k, v) ∷ []
  insert k v ((j, w) ∷ m) = if str_eq j k then (j, v) ∷ m else (j, w) ∷ insert k v m

  -- `m.has(k)`
  abbrev pub has : String → Dict V → Bool
  has k [] = false
  has k ((j, v) ∷ m) = str_eq j k || has k m

  pub lookup-insert :
      (k j : String) (v : V) (m : Dict V)
      → lookup j (insert k v m) ≡ (if str_eq k j then some v else lookup j m)
  lookup-insert k j v [] = refl
  lookup-insert k j v ((i, w) ∷ m) =
      ground (arith, eq_iff k j, eq_iff i k, eq_iff i j, lookup-insert k j v m)

  pub has-insert :
      (k j : String) (v : V) (m : Dict V) → has j (insert k v m) ≡ (str_eq k j || has j m)
  has-insert k j v [] = refl
  has-insert k j v ((i, w) ∷ m) =
      ground (arith, eq_iff k j, eq_iff i k, eq_iff i j, has-insert k j v m)

-- Membership in a list of texts: `includes`, `Set.has`.
abbrev pub contains : List String → String → Bool
contains [] k = false
contains (x ∷ xs) k = str_eq x k || contains xs k

abbrev pub count : String → List String → ℕ
count k [] = 0
count k (x ∷ xs) = if str_eq x k then suc (count k xs) else count k xs

abbrev pub IsUnique : List String → Type 0
IsUnique [] = Unit
IsUnique (x ∷ xs) = (contains xs x ≡ false) × IsUnique xs

pub contains-append :
    (xs ys : List String) (k : String) → contains (xs ++ ys) k ≡ (contains xs k || contains ys k)
contains-append [] ys k = refl
contains-append (x ∷ xs) ys k = ground (arith, contains-append xs ys k)

pub IsUnique-snoc :
    (xs : List String) (x : String) → IsUnique xs → contains xs x ≡ false → IsUnique (xs ++ x ∷ [])
IsUnique-snoc [] x u h = (refl, tt)
IsUnique-snoc (y ∷ ys) x (fresh, u) h = (
  ground (arith, contains-append ys (x ∷ []) y, eq_iff x y, eq_iff y x),
  IsUnique-snoc ys x u (ground arith),
)

-- The list without the first occurrence of a text.
abbrev remove : String → List String → List String
remove k [] = []
remove k (x ∷ xs) = if str_eq x k then xs else x ∷ remove k xs

length-remove :
    (k : String) (xs : List String) → contains xs k ≡ true → suc (length (remove k xs)) ≡ length xs
length-remove k [] h = ground arith
length-remove k (x ∷ xs) h = ground (arith, length-remove k xs)

contains-remove :
    (k j : String) (xs : List String)
    → str_eq k j ≡ false
    → contains (remove k xs) j ≡ contains xs j
contains-remove k j [] h = refl
contains-remove k j (x ∷ xs) h =
    ground (arith, eq_iff x k, eq_iff k j, eq_iff x j, contains-remove k j xs h)

abbrev pub Subset : List String → List String → Type 0
Subset xs ys = (k : String) → contains xs k ≡ true → contains ys k ≡ true

-- The pigeonhole principle.
pub length-le_of_Subset : (xs ys : List String) → IsUnique xs → Subset xs ys → length xs ≤ length ys
length-le_of_Subset [] ys u sub = omega arith
length-le_of_Subset (x ∷ xs) ys (fresh, u) sub =
    let here : contains ys x ≡ true = sub x (ground (arith, eq_iff x x)) in
    let rest =
      length-le_of_Subset xs (remove x ys) u
        (λ k h. ground (arith, eq_iff x k, contains-remove x k ys, sub k)) in
    omega (arith, length-remove x ys here)

-- A list without repetition that is as long as one that holds all its texts holds all of its.
pub Subset_of_length-eq :
    (xs ys : List String) → IsUnique xs → Subset xs ys → length xs ≡ length ys → Subset ys xs
Subset_of_length-eq xs ys u sub e k h = elim (Bool-cases (contains xs k)) [
  | inl found ↦ found
  | inr missing ↦ absurd (
      let more =
        length-le_of_Subset (k ∷ xs) ys (missing, u) (λ j hj. ground (arith, eq_iff k j, sub j)) in
      omega arith)
]

module _ {ℓ} {V : Type ℓ} where
  pub length-insert-le : (k : String) (v : V) (m : Dict V) → length (insert k v m) ≤ suc (length m)
  length-insert-le k v [] = omega arith
  length-insert-le k v ((j, w) ∷ m) = ground (arith, length-insert-le k v m)

  pub length-insert-has :
      (k : String) (v : V) (m : Dict V) → has k m ≡ true → length (insert k v m) ≡ length m
  length-insert-has k v [] h = ground arith
  length-insert-has k v ((j, w) ∷ m) h = ground (arith, length-insert-has k v m)

  pub has_of_lookup : (k : String) (v : V) (m : Dict V) → lookup k m ≡ some v → has k m ≡ true
  has_of_lookup k v [] h = ground arith
  has_of_lookup k v ((j, w) ∷ m) h = ground (arith, has_of_lookup k v m)

  pub lookup_of_has : (k : String) (m : Dict V) → has k m ≡ true → (v : V) × (lookup k m ≡ some v)
  lookup_of_has k [] h = absurd (ground arith)
  lookup_of_has k ((j, w) ∷ m) h = elim (Bool-cases (str_eq j k)) [
    | inl same ↦ (w, rw same)
    | inr other ↦ rw other (lookup_of_has k m (ground arith))
  ]

module _ {ℓ} {V : Type ℓ} where
  -- Each key stands once, as in the source's maps.
  abbrev pub IsMap : Dict V → Type 0
  IsMap [] = Unit
  IsMap ((k, v) ∷ m) = (has k m ≡ false) × IsMap m

  pub insert-IsMap : (k : String) (v : V) (m : Dict V) → IsMap m → IsMap (insert k v m)
  insert-IsMap k v [] h = (refl, tt)
  insert-IsMap k v ((j, w) ∷ m) (fresh, h) =
      ground (arith, fresh, h, eq_iff k j, eq_iff j k, has-insert k j v m, insert-IsMap k v m h)

  -- The keys, in the order of insertion.
  abbrev pub keys : Dict V → List String
  keys [] = []
  keys ((k, v) ∷ m) = k ∷ keys m

  pub contains-keys : (k : String) (m : Dict V) → contains (keys m) k ≡ has k m
  contains-keys k [] = refl
  contains-keys k ((j, v) ∷ m) = rw (contains-keys k m)

  pub lookup-eq-none : (k : String) (m : Dict V) → has k m ≡ false → lookup k m ≡ none
  lookup-eq-none k [] h = refl
  lookup-eq-none k ((j, w) ∷ m) h = ground (arith, lookup-eq-none k m)
