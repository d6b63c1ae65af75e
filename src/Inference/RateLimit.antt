-- ===== src/Inference/RateLimit.antt =====
-- src/inference/rate-limit.ts: a token bucket for each model. A token is 60000 units, so that the
-- refill of `rpm / 60000` tokens in a millisecond is `rpm` units; the floating-point rounding of the
-- tokens is left out. Times are milliseconds.
pub mod Bounds
pub mod Penalty
mod Tests
use frontier_os.Prelude.{
  ℕ, ◌+◌, ◌-◌, ◌*◌, ◌/◌, min, String, Bool, true, false, Option, none, some, List, [], ◌∷◌, leb,
  ◌==◌, if◌then◌else◌,
}
use frontier_os.Prelude.Dict.{Dict, lookup, insert}

abbrev pub token : ℕ
token = 60000

pub record BucketConfig : Type 0 where
  pub model_id : String
  pub rpm : ℕ
  pub capacity : Option ℕ

-- `tokens` and `capacity` are in units.
pub record BucketState : Type 0 where
  pub tokens : ℕ
  pub last_refill_ms : ℕ
  pub capacity : ℕ
  pub refill_per_ms : ℕ

-- A wait of `none` is the `Infinity` of a division by a rate of 0.
pub record AcquireResult : Type 0 where
  pub granted : Bool
  pub tokens_remaining : ℕ
  pub retry_after_ms : Option ℕ

abbrev pub Limiter : Type 0
Limiter = Dict BucketState

unfoldable pub configure : BucketConfig → ℕ → Limiter → Limiter
configure config now limiter =
    let capacity = (elim config.capacity [ none ↦ config.rpm | some c ↦ c ]) * token in
    insert config.model_id
      (record {
        tokens = capacity;
        last_refill_ms = now;
        capacity = capacity;
        refill_per_ms = config.rpm;
      })
      limiter

module _ (rounded : ℕ → ℕ → ℕ) where
  -- `Math.ceil(deficit / refillPerMs)` for a deficit and a rate in units. For a whole token the
  -- floating-point quotient rounds up to the exact number of milliseconds. Where a fraction of a
  -- token is left, the rounding of the numbers decides, so that answer is a parameter.
  abbrev pub wait_for : ℕ → ℕ → Option ℕ
  wait_for deficit rate =
      if rate == 0
      then none
      else if deficit == token
      then some ((deficit + rate - 1) / rate)
      else some (rounded deficit rate)

  -- `Math.max(0, t - lastRefillMs)` is the truncated subtraction.
  unfoldable pub acquire_bucket : BucketState → ℕ → AcquireResult × BucketState
  acquire_bucket state t =
      let refilled =
        min state.capacity (state.tokens + (t - state.last_refill_ms) * state.refill_per_ms) in
      if leb token refilled
      then (
        record { granted = true; tokens_remaining = refilled - token; retry_after_ms = some 0 },
        record state { tokens = refilled - token; last_refill_ms = t },
      )
      else (
        record {
          granted = false;
          tokens_remaining = refilled;
          retry_after_ms = wait_for (token - refilled) state.refill_per_ms;
        },
        record state { tokens = refilled; last_refill_ms = t },
      )

  unfoldable pub acquire : String → ℕ → Limiter → AcquireResult × Limiter
  unfolding acquire_bucket
  acquire model_id t limiter = elim (lookup model_id limiter) [
    | none ↦ (record { granted = false; tokens_remaining = 0; retry_after_ms = some 0 }, limiter)
    | some state ↦
        let (result, after) = acquire_bucket state t in (result, insert model_id after limiter)
  ]

unfoldable pub penalize_bucket : BucketState → ℕ → ℕ → BucketState
penalize_bucket state observed_retry_after_ms t = record state {
  tokens = 0;
  last_refill_ms = t + observed_retry_after_ms;
}

unfoldable pub penalize : String → ℕ → ℕ → Limiter → Limiter
unfolding penalize_bucket
penalize model_id observed_retry_after_ms t limiter = elim (lookup model_id limiter) [
  | none ↦ limiter
  | some state ↦ insert model_id (penalize_bucket state observed_retry_after_ms t) limiter
]

-- Calls of one model's bucket, in the order of their times, and how many are granted.
abbrev pub one_if : Bool → ℕ
one_if true = 1
one_if false = 0

module _ (rounded : ℕ → ℕ → ℕ) where
  pub grants : BucketState → List ℕ → ℕ
  grants state [] = 0
  grants state (t ∷ ts) =
      let (result, after) = acquire_bucket rounded state t in
      one_if result.granted + grants after ts
