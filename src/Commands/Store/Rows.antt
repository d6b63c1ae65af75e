-- ===== src/Commands/Store/Rows.antt =====
-- The statements of src/commands/store.ts: what rows a table has after them, and that the ids of its
-- rows stay different.
use frontier_os.Prelude.{
  ◌≡◌, ◌≢◌, refl, sym, ap, subst, ◌∙◌, String, Bool, true, false, some, ◌⊎◌, inl, inr, List, [],
  ◌∷◌, ◌++◌, arith, Bool-cases, eq_iff, str_eq, exists, ◌||◌,
}
use frontier_os.Policy.Ledger.{Has}
use frontier_os.Policy.Search.{find_first-eq-some}
use frontier_os.Commands.Rows.{CommandRow, update_where, is_id, get_command}
use frontier_os.Commands.Store.{insert_command}

module _ {A : Type 0} where
  pub Has-update_where :
      (test : A → Bool) (change : A → A) (rows : List A) (b : A)
      → Has (update_where test change rows) b
      → (a : A) × Has rows a × ((test a ≡ true) × (change a ≡ b) ⊎ (test a ≡ false) × (a ≡ b))
  unfolding update_where
  Has-update_where test change [] b h = elim h [ ]
  Has-update_where test change (row ∷ rows) b (inl here) = elim (Bool-cases (test row)) [
    | inl hit ↦ (row, inl refl, inl (hit, rw hit at here))
    | inr miss ↦ (row, inl refl, inr (miss, rw miss at here))
  ]
  Has-update_where test change (row ∷ rows) b (inr later) =
      let (a, found, how) = Has-update_where test change rows b later in (a, inr found, how)

  pub update_where-Has :
      (test : A → Bool) (change : A → A) (rows : List A) (a : A)
      → Has rows a
      → test a ≡ true
      → Has (update_where test change rows) (change a)
  unfolding update_where
  update_where-Has test change [] a h hit = elim h [ ]
  update_where-Has test change (row ∷ rows) a (inl here) hit =
      rw (here, hit, update_where) (inl refl)
  update_where-Has test change (row ∷ rows) a (inr later) hit =
      inr (update_where-Has test change rows a later hit)

  pub Has-append_last :
      (rows : List A) (new b : A) → Has (rows ++ new ∷ []) b → Has rows b ⊎ (new ≡ b)
  Has-append_last [] new b (inl here) = inr here
  Has-append_last [] new b (inr later) = elim later [ ]
  Has-append_last (row ∷ rows) new b (inl here) = inl (inl here)
  Has-append_last (row ∷ rows) new b (inr later) = elim (Has-append_last rows new b later) [
    | inl old ↦ inl (inr old)
    | inr last ↦ inr last
  ]

  pub not_exists :
      (test : A → Bool) (rows : List A) (b : A)
      → exists test rows ≡ false
      → Has rows b
      → test b ≡ false
  not_exists test [] b e h = elim h [ ]
  not_exists test (row ∷ rows) b e (inl here) = rw (← here) (ground arith)
  not_exists test (row ∷ rows) b e (inr later) = not_exists test rows b (ground arith) later

-- The primary key: no two rows have one id.
abbrev pub IsKeyed : List CommandRow → Type 0
IsKeyed [] = Unit
IsKeyed (row ∷ rows) =
    ((other : CommandRow) → Has rows other → row.command_id ≢ other.command_id) × IsKeyed rows

pub keyed_unique :
    (rows : List CommandRow) (a b : CommandRow)
    → IsKeyed rows
    → Has rows a
    → Has rows b
    → a.command_id ≡ b.command_id
    → a ≡ b
keyed_unique [] a b k h g e = elim h [ ]
keyed_unique (row ∷ rows) a b k (inl x) (inl y) e = sym x ∙ y
keyed_unique (row ∷ rows) a b (apart, k) (inl x) (inr g) e =
    absurd (apart b g (ap (λ r. r.command_id) x ∙ e))
keyed_unique (row ∷ rows) a b (apart, k) (inr h) (inl y) e =
    absurd (apart a h (ap (λ r. r.command_id) y ∙ sym e))
keyed_unique (row ∷ rows) a b (apart, k) (inr h) (inr g) e = keyed_unique rows a b k h g e

pub update_where-IsKeyed :
    (test : CommandRow → Bool) (change : CommandRow → CommandRow)
    → ((r : CommandRow) → (change r).command_id ≡ r.command_id)
    → (rows : List CommandRow) → IsKeyed rows
    → IsKeyed (update_where test change rows)
unfolding update_where
update_where-IsKeyed test change keeps [] k = tt
update_where-IsKeyed test change keeps (row ∷ rows) (apart, k) =
    let rest = update_where-IsKeyed test change keeps rows k in
    let fresh : (other : CommandRow)
        → Has (update_where test change rows) other
        → row.command_id ≢ other.command_id =
      λ other h same.
        let (a, found, how) = Has-update_where test change rows other h in
        elim how [
          | inl (_, e) ↦ absurd (apart a found (same ∙ sym (ap (λ r. r.command_id) e) ∙ keeps a))
          | inr (_, e) ↦ absurd (apart a found (same ∙ sym (ap (λ r. r.command_id) e)))
        ] in
    elim (Bool-cases (test row)) [
      | inl hit ↦ rw hit (λ other h same. fresh other h (sym (keeps row) ∙ same), rest)
      | inr miss ↦ rw miss (fresh, rest)
    ]

append_last-IsKeyed :
    (rows : List CommandRow) (new : CommandRow)
    → IsKeyed rows
    → ((r : CommandRow) → Has rows r → r.command_id ≢ new.command_id)
    → IsKeyed (rows ++ new ∷ [])
append_last-IsKeyed [] new k apart = (λ other h. elim h [ ], tt)
append_last-IsKeyed (row ∷ rows) new (mine, k) apart = (
  λ other h same. elim (Has-append_last rows new other h) [
    | inl old ↦ mine other old same
    | inr last ↦ apart row (inl refl) (same ∙ sym (ap (λ r. r.command_id) last))
  ],
  append_last-IsKeyed rows new k (λ r h. apart r (inr h)),
)

pub get_command-eq-some :
    (id : String) (rows : List CommandRow) (row : CommandRow)
    → get_command id rows ≡ some row
    → Has rows row × (row.command_id ≡ id)
get_command-eq-some id rows row e =
    let (found, same) = find_first-eq-some (is_id id) rows row e in (found, (eq_iff _ _).0 same)

pub insert_command_lem :
    (row : CommandRow) (rows after : List CommandRow)
    → insert_command row rows ≡ some after
    → (after ≡ rows ++ row ∷ []) × ((r : CommandRow) → Has rows r → r.command_id ≢ row.command_id)
unfolding insert_command
insert_command_lem row rows after e =
    let taken = λ (r : CommandRow). is_id row.command_id r || str_eq r.trace_id row.trace_id in
    elim (Bool-cases (exists taken rows)) [
      | inl dup ↦ absurd (ground (arith, rw dup at e))
      | inr free ↦ (
        ground (arith, rw free at e),
        λ r h same.
            let no_clash = not_exists taken rows r free h in
            ground (arith, (eq_iff r.command_id row.command_id).1 same),
      )
    ]

pub insert_command-IsKeyed :
    (row : CommandRow) (rows after : List CommandRow)
    → insert_command row rows ≡ some after
    → IsKeyed rows
    → IsKeyed after
insert_command-IsKeyed row rows after e k =
    let (same, apart) = insert_command_lem row rows after e in
    rw same (append_last-IsKeyed rows row k apart)

-- After an update of the row with an id only that row is another.
pub Has-update_id :
    (rows : List CommandRow) (row b : CommandRow) (change : CommandRow → CommandRow)
    → IsKeyed rows
    → Has rows row
    → Has (update_where (is_id row.command_id) change rows) b
    → (change row ≡ b) ⊎ Has rows b
Has-update_id rows row b change k found h =
    let (a, mine, how) = Has-update_where (is_id row.command_id) change rows b h in
    elim how [
      | inl (hit, e) ↦
          let same : a ≡ row = keyed_unique rows a row k mine found ((eq_iff _ _).0 hit) in
          inl (ap change (sym same) ∙ e)
      | inr (_, e) ↦ inr (subst (Has rows) e mine)
    ]
