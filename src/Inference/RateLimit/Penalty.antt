-- ===== src/Inference/RateLimit/Penalty.antt =====
-- src/inference/rate-limit.ts: what a penalty does, and when it ends.
use frontier_os.Prelude.{ℕ, ◌+◌, ◌-◌, ◌*◌, ◌/◌, ◌≤◌, ◌<◌, ◌≡◌, ◌↔◌, true, false, some, arith}
use native.Mathlib.Decide.{dec_le}
use frontier_os.Inference.RateLimit.{token, BucketState, acquire_bucket, penalize_bucket}

ceil_bounds : (d r : ℕ) → 0 < r → 0 < d → (d ≤ (d + r - 1) / r * r) × ((d + r - 1) / r * r < d + r)
ceil_bounds d r h k = (grind arith, grind arith)

-- The rounded-up quotient is the least number of milliseconds that refills the deficit.
ceil_iff : (d r e : ℕ) → 0 < r → 0 < d → (d ≤ e * r) ↔ ((d + r - 1) / r ≤ e)
ceil_iff d r e h k =
    let (enough, least) = ceil_bounds d r h k in
    let w = (d + r - 1) / r in
    ((λ reached. elim (dec_le w e) [ yes p ↦ p | no p ↦ absurd (grind arith) ]), (λ p. grind arith))

module _ (rounded : ℕ → ℕ → ℕ) where
  granted_iff :
      (state : BucketState) (t : ℕ)
      → token ≤ state.capacity
      → ((acquire_bucket rounded state t).0.granted ≡ true)
        ↔ (token ≤ state.tokens + (t - state.last_refill_ms) * state.refill_per_ms)
  unfolding acquire_bucket
  granted_iff state t h = ground arith

  -- A call during the cooldown is refused, and is told the wait for one token from then on.
  pub penalized_refuses :
      (state : BucketState) (wait t t' : ℕ)
      → 0 < state.refill_per_ms
      → t' ≤ t + wait
      → ((acquire_bucket rounded (penalize_bucket state wait t) t').0.granted ≡ false)
        × ((acquire_bucket rounded (penalize_bucket state wait t) t').0.retry_after_ms
            ≡ some ((token + state.refill_per_ms - 1) / state.refill_per_ms))
  unfolding acquire_bucket penalize_bucket
  penalized_refuses state wait t t' rate cooling =
      let idle : t' - (t + wait) ≡ 0 = omega arith in rw idle (ground arith)

  -- The refused call leaves an empty bucket, refilled from its own time on.
  emptied :
      (state : BucketState) (wait t t' : ℕ)
      → t' ≤ t + wait
      → let after = (acquire_bucket rounded (penalize_bucket state wait t) t').1 in
        (after.tokens ≡ 0)
        × (after.refill_per_ms ≡ state.refill_per_ms)
        × (after.last_refill_ms ≡ t')
        × (after.capacity ≡ state.capacity)
  unfolding acquire_bucket penalize_bucket
  emptied state wait t t' cooling =
      let idle : t' - (t + wait) ≡ 0 = omega arith in rw idle (ground arith)

  -- That call ends the cooldown, however long the provider asked to wait: the next call is granted as
  -- soon as one token has been refilled since the refused call.
  pub cooldown_lost :
      (state : BucketState) (wait t t' t'' : ℕ)
      → token ≤ state.capacity
      → 0 < state.refill_per_ms
      → t' ≤ t + wait
      → t' ≤ t''
      → ((acquire_bucket rounded
            (acquire_bucket rounded (penalize_bucket state wait t) t').1
            t'').0.granted
          ≡ true)
        ↔ (t' + (token + state.refill_per_ms - 1) / state.refill_per_ms ≤ t'')
  cooldown_lost state wait t t' t'' cap rate cooling later =
      let after = (acquire_bucket rounded (penalize_bucket state wait t) t').1 in
      let (none_left, refill, last, same) = emptied state wait t t' cooling in
      let g = granted_iff after t'' (omega (arith, same)) in
      let c = ceil_iff token state.refill_per_ms (t'' - t') rate (omega arith) in
      let g' = rw (none_left, refill, last) at g in
      (
        (λ p. let q = g'.0 p in let r = c.0 (omega arith) in omega (arith, r)),
        (λ p. let q = c.1 (omega arith) in g'.1 (omega arith)),
      )
