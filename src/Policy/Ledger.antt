-- ===== src/Policy/Ledger.antt =====
-- src/ledger/index.ts, as far as the policy core uses it: events are appended, and read back by
-- kind. The table and its query run in SQLite, so the query is a parameter with what it documents.
use Prim.Native.Nat.{ℕ, ◌≤◌}
use frontier_os.Prelude.{
  ◌≡◌, refl, String, Bool, Option, List, [], ◌∷◌, str_eq, length, select, arith, take, eq_iff, suc,
  zero, Bool-cases, inl, inr, ◌⊎◌,
}
use frontier_os.Prelude.Dict.{Dict}

-- A value of a payload; `nested` stands for objects, arrays, Booleans and null, which the policy
-- core never looks into.
pub data Json : Type 0 where
  text : String → Json
  number : ℕ → Json
  nested : Json

pub record LedgerEvent : Type 0 where
  pub session_id : String
  pub kind : String
  pub actor : Option String
  pub trace_id : Option String
  pub payload : Dict Json

-- The events are kept with the newest first.
abbrev pub Events : Type 0
Events = List LedgerEvent

abbrev pub is_kind : String → LedgerEvent → Bool
is_kind kind e = str_eq e.kind kind

-- The event stands in the table.
abbrev pub Has : {A : Type 0} → List A → A → Type 0
Has [] e = ⊥
Has (x ∷ xs) e = (x ≡ e) ⊎ Has xs e

-- `SELECT … WHERE kind = ? ORDER BY ts DESC LIMIT ?`: rows of the table, of that kind, at most as
-- many as the limit, and all of them where no more than the limit are there. The order of
-- the rows is left open.
pub record IsQuery (find : Events → String → ℕ → Events) : Type 0 where
  pub sound :
      (es : Events) (kind : String) (limit : ℕ) (e : LedgerEvent)
      → Has (find es kind limit) e
      → Has es e × (e.kind ≡ kind)
  pub bounded : (es : Events) (kind : String) (limit : ℕ) → length (find es kind limit) ≤ limit
  pub complete :
      (es : Events) (kind : String) (limit : ℕ) (e : LedgerEvent)
      → length (select (is_kind kind) es) ≤ limit
      → Has es e
      → e.kind ≡ kind
      → Has (find es kind limit) e

unfoldable pub append_event : LedgerEvent → Events → Events
append_event e es = e ∷ es

-- The newest events of the kind: a query that meets the description.
unfoldable pub newest : Events → String → ℕ → Events
newest es kind limit = take limit (select (is_kind kind) es)

Has-select :
    (es : Events) (kind : String) (e : LedgerEvent)
    → Has (select (is_kind kind) es) e
    → Has es e × (e.kind ≡ kind)
Has-select [] kind e h = elim h [ ]
Has-select (x ∷ es) kind e h = elim (Bool-cases (str_eq x.kind kind)) [
  | inl same ↦ elim (rw same at h) [
    | inl here ↦ (inl here, rw (← here) ((eq_iff _ _).0 same))
    | inr later ↦ let (p, q) = Has-select es kind e later in (inr p, q)
  ]
  | inr other ↦ let (p, q) = Has-select es kind e (rw other at h) in (inr p, q)
]

select-Has :
    (es : Events) (kind : String) (e : LedgerEvent)
    → Has es e
    → e.kind ≡ kind
    → Has (select (is_kind kind) es) e
select-Has [] kind e h k = elim h [ ]
select-Has (x ∷ es) kind e (inl here) k = rw (here, (eq_iff e.kind kind).1 k) (inl refl)
select-Has (x ∷ es) kind e (inr later) k = elim (Bool-cases (str_eq x.kind kind)) [
  | inl same ↦ rw same (inr (select-Has es kind e later k))
  | inr other ↦ rw other (select-Has es kind e later k)
]

Has-take : (n : ℕ) (es : Events) (e : LedgerEvent) → Has (take n es) e → Has es e
Has-take zero es e h = elim h [ ]
Has-take (suc n) [] e h = elim h [ ]
Has-take (suc n) (x ∷ es) e (inl here) = inl here
Has-take (suc n) (x ∷ es) e (inr later) = inr (Has-take n es e later)

take_all : (n : ℕ) (es : Events) → length es ≤ n → take n es ≡ es
take_all zero [] h = refl
take_all zero (x ∷ es) h = absurd (omega arith)
take_all (suc n) [] h = refl
take_all (suc n) (x ∷ es) h = ground (arith, take_all n es)

length-take-le : (n : ℕ) (es : Events) → length (take n es) ≤ n
length-take-le zero es = omega arith
length-take-le (suc n) [] = omega arith
length-take-le (suc n) (x ∷ es) = omega (arith, length-take-le n es)

pub newest-IsQuery : IsQuery newest
unfolding newest
newest-IsQuery = record {
  sound = λ es kind limit e h. Has-select es kind e (Has-take limit _ e h);
  bounded = λ es kind limit. length-take-le limit (select (is_kind kind) es);
  complete = λ es kind limit e few h k. rw (take_all limit _ few) (select-Has es kind e h k);
}
