-- ===== src/Policy/Samples.antt =====
-- src/policy/evaluator.ts: a query and a printing of dates that do what is documented, for tests.
use frontier_os.Prelude.{ℕ, zero, suc, ◌≡◌, refl, ap, String, some}
use frontier_os.Policy.Ledger.{newest, newest-IsQuery}
use frontier_os.Policy.Tokens.{Env}
use frontier_os.Policy.OneShot.{IsEnv}

-- A date is written as a tally, and read back by counting.
abbrev pub tally : ℕ → String
tally zero = ""
tally (suc n) = String.◌∷◌ "i" (tally n)

abbrev read_tally : String → ℕ
read_tally String.[] = 0
read_tally (String.◌∷◌ c s) = suc (read_tally s)

abbrev pub env : Env
env = record { find = newest; parse_date = λ s. some (read_tally s); to_iso = tally }

read-tally : (t : ℕ) → read_tally (tally t) ≡ t
read-tally zero = refl
read-tally (suc t) = ap suc (read-tally t)

pub laws : IsEnv env
laws = record { query = newest-IsQuery; parse-iso = λ t. ap some (read-tally t) }
