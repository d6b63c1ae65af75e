-- ===== src/Commands/Operations/Claiming.antt =====
-- `claimNext` of src/commands/store.ts: which command a worker is given.
use frontier_os.Prelude.{
  ℕ, ◌+◌, ◌≤◌, ◌≡◌, refl, subst, ◌∙◌, String, Bool, true, false, Option, none, some, ◌⊎◌, inl, inr,
  List, [], ◌∷◌, arith, Bool-cases, Option-cases, eq_iff, str_eq, leb, if◌then◌else◌,
}
use frontier_os.Work.{ApprovalClass}
use frontier_os.Policy.Ledger.{Has}
use frontier_os.Policy.Search.{Has-select_of_test}
use frontier_os.Commands.{running}
use frontier_os.Commands.Explain.{checkpoint_for}
use frontier_os.Commands.Rows.{CommandRow, World, update_where, is_id, get_command}
use frontier_os.Commands.Claimable.{earliest, may_claim, select_claimable}
use frontier_os.Commands.Store.{claimed}
use frontier_os.Commands.Store.Rows.{IsKeyed, Has-update_id}
use frontier_os.Commands.Operations.{claim_next}
use frontier_os.Commands.Operations.Working.{select_claimable-eq-some}

-- What is found under an id after an update is what was found before, changed where the test holds.
pub get_command-update_where :
    (id : String) (test : CommandRow → Bool) (change : CommandRow → CommandRow)
    → ((r : CommandRow) → (change r).command_id ≡ r.command_id)
    → (rows : List CommandRow) (row : CommandRow) → get_command id rows ≡ some row
    → get_command id (update_where test change rows) ≡ some (if test row then change row else row)
unfolding update_where
get_command-update_where id test change keeps [] row e = absurd (ground arith)
get_command-update_where id test change keeps (r ∷ rows) row e =
    elim (Bool-cases (str_eq r.command_id id)) [
      | inl hit ↦
          let same : r ≡ row = ground (arith, rw hit at e) in
          elim (Bool-cases (test r)) [
            | inl yes_test ↦ rw (← same, yes_test, keeps r, hit) refl
            | inr no_test ↦ rw (← same, no_test, hit) refl
          ]
      | inr miss ↦
          let rest = get_command-update_where id test change keeps rows row (rw miss at e) in
          elim (Bool-cases (test r)) [
            | inl yes_test ↦ rw (yes_test, keeps r, miss) rest
            | inr no_test ↦ rw (no_test, miss) rest
          ]
    ]

pub get_command_of_Has :
    (rows : List CommandRow) (row : CommandRow)
    → IsKeyed rows
    → Has rows row
    → get_command row.command_id rows ≡ some row
get_command_of_Has [] row k h = elim h [ ]
get_command_of_Has (r ∷ rows) row k (inl same) =
    rw (same, (eq_iff row.command_id row.command_id).1 refl) refl
get_command_of_Has (r ∷ rows) row (apart, k) (inr later) =
    elim (Bool-cases (str_eq r.command_id row.command_id)) [
      | inl clash ↦ absurd (apart row later ((eq_iff _ _).0 clash))
      | inr differ ↦ rw differ (get_command_of_Has rows row k later)
    ]

earliest-none :
    (rows : List CommandRow) (row : CommandRow) → earliest rows ≡ none → Has rows row → ⊥
unfolding earliest
earliest-none [] row e h = h
earliest-none (r ∷ rows) row e h = elim (Option-cases (earliest rows)) [
  | inl nothing ↦ absurd (ground (arith, rw (nothing, earliest) at e))
  | inr (other, found) ↦ elim (Bool-cases (leb r.requested_at other.requested_at)) [
    | inl first ↦ absurd (ground (arith, rw (found, first, earliest) at e))
    | inr second ↦ absurd (ground (arith, rw (found, second, earliest) at e))
  ]
]

earliest_step :
    (r : CommandRow) (rows : List CommandRow) (first : CommandRow)
    → earliest (r ∷ rows) ≡ some first
    → (first.requested_at ≤ r.requested_at)
      × ((other : CommandRow)
          → earliest rows ≡ some other
          → first.requested_at ≤ other.requested_at)
unfolding earliest
earliest_step r rows first e = elim (Option-cases (earliest rows)) [
  | inl nothing ↦
      let same : r ≡ first = ground (arith, rw (nothing, earliest) at e) in
      (
        subst (λ f. f.requested_at ≤ r.requested_at) same (omega arith),
        λ other found. absurd (ground arith),
      )
  | inr (least, found) ↦ elim (Bool-cases (leb r.requested_at least.requested_at)) [
    | inl low ↦
        let same : r ≡ first = ground (arith, rw (found, low, earliest) at e) in
        subst
          (λ f.
            (f.requested_at ≤ r.requested_at)
            × ((other : CommandRow)
                → earliest rows ≡ some other
                → f.requested_at ≤ other.requested_at))
          same
          (
            omega arith,
            λ other other_found.
                let agree : least ≡ other = ground arith in
                subst (λ o. r.requested_at ≤ o.requested_at) agree (ground arith),
          )
    | inr high ↦
        let same : least ≡ first = ground (arith, rw (found, high, earliest) at e) in
        subst
          (λ f.
            (f.requested_at ≤ r.requested_at)
            × ((other : CommandRow)
                → earliest rows ≡ some other
                → f.requested_at ≤ other.requested_at))
          same
          (
            ground arith,
            λ other other_found.
                let agree : least ≡ other = ground arith in
                subst (λ o. least.requested_at ≤ o.requested_at) agree (omega arith),
          )
  ]
]

earliest_least :
    (rows : List CommandRow) (first row : CommandRow)
    → earliest rows ≡ some first
    → Has rows row
    → first.requested_at ≤ row.requested_at
earliest_least [] first row e h = elim h [ ]
earliest_least (r ∷ rows) first row e (inl same) =
    subst (λ a. first.requested_at ≤ a.requested_at) same (earliest_step r rows first e).0
earliest_least (r ∷ rows) first row e (inr later) = elim (Option-cases (earliest rows)) [
  | inl nothing ↦ absurd (earliest-none rows row nothing later)
  | inr (other, found) ↦
      let first_le = (earliest_step r rows first e).1 other found in
      let other_le = earliest_least rows other row found later in omega (arith, first_le, other_le)
]

module _ (worker : String) (lease_ms : ℕ) (command_id : Option String) (most : Option ApprovalClass)
    (now : ℕ) (w : World) where
  -- Nothing can be claimed, and nothing happens.
  abbrev pub NothingClaimed : Type 0
  NothingClaimed =
      (claim_next worker lease_ms command_id most now w ≡ (none, w))
      × ((row : CommandRow) → Has w.commands row → may_claim now command_id most row ≡ false)

  -- The row is the earliest that can be claimed, and the worker gets it with a lease.
  abbrev pub Claims : CommandRow → Type 0
  Claims row =
      Has w.commands row
      × (may_claim now command_id most row ≡ true)
      × ((other : CommandRow)
          → Has w.commands other
          → may_claim now command_id most other ≡ true
          → row.requested_at ≤ other.requested_at)
      × ((claim_next worker lease_ms command_id most now w).0
          ≡ some
              (claimed now worker (now + lease_ms) (checkpoint_for row.command_id running now) row))
      × ((other : CommandRow)
          → Has (claim_next worker lease_ms command_id most now w).1.commands other
          → (claimed now worker (now + lease_ms) (checkpoint_for row.command_id running now) row
              ≡ other)
            ⊎ Has w.commands other)

  -- On tables with different command ids either nothing can be claimed and nothing happens, or the
  -- worker gets the command of the earliest request among all that may be claimed, and every
  -- other row of the table afterwards was in it before.
  pub claim_next_lem : IsKeyed w.commands → NothingClaimed ⊎ ((row : CommandRow) × Claims row)
  unfolding claim_next select_claimable
  claim_next_lem k = elim (Option-cases (select_claimable now command_id most w.commands)) [
    | inl nothing ↦ inl (
      rw (nothing, claim_next) refl,
      λ row h. elim (Bool-cases (may_claim now command_id most row)) [
        | inl may ↦ absurd (
            earliest-none _ row nothing
              (Has-select_of_test (may_claim now command_id most) w.commands row h may))
        | inr not ↦ not
      ],
    )
    | inr (row, found) ↦
        let (here, may) = select_claimable-eq-some now command_id most w.commands row found in
        let change =
          claimed now worker (now + lease_ms) (checkpoint_for row.command_id running now) in
        let after =
          get_command-update_where row.command_id (is_id row.command_id) change (λ r. refl)
            w.commands row (get_command_of_Has w.commands row k here) in
        inr (
          row,
          (
            here,
            may,
            λ other h able.
                earliest_least _ row other found
                  (Has-select_of_test (may_claim now command_id most) w.commands other h able),
            rw (found, claim_next)
                (after ∙ rw ((eq_iff row.command_id row.command_id).1 refl) refl),
            λ other h.
                Has-update_id w.commands row other change k here (rw (found, claim_next) at h),
          ),
        )
  ]
