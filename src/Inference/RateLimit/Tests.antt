-- ===== src/Inference/RateLimit/Tests.antt =====
-- src/inference/rate-limit.ts: a bucket of 60 calls a minute, one token a second.
use frontier_os.Prelude.{
  ℕ, ◌+◌, ◌-◌, ◌*◌, ◌/◌, ◌≤◌, ◌≡◌, ◌↔◌, refl, true, false, none, some, List, [], ◌∷◌, arith,
}
use frontier_os.Inference.RateLimit.{token, BucketState, acquire_bucket, penalize_bucket, grants}
use frontier_os.Inference.RateLimit.Bounds.{
  Call, configured, acquired, penalized, IsValid, run, run-IsValid, grants_bound,
}
use frontier_os.Inference.RateLimit.Penalty.{penalized_refuses, cooldown_lost}

-- A rounding that is exact.
abbrev rounded : ℕ → ℕ → ℕ
rounded deficit rate = (deficit + rate - 1) / rate

abbrev bucket : BucketState
bucket = record { tokens = 0; last_refill_ms = 100; capacity = 60 * token; refill_per_ms = 60 }

acquire_early :
    (acquire_bucket rounded bucket 600).0
    ≡ record { granted = false; tokens_remaining = 30000; retry_after_ms = some 500 }
unfolding acquire_bucket
acquire_early = refl

abbrev calls : List Call
calls =
    configured (record { model_id = "m"; rpm = 60; capacity = none }) 100
    ∷ acquired "m" 100
    ∷ penalized "m" 5000 200
    ∷ acquired "m" 300
    ∷ []

run-IsValid_example : IsValid (run rounded calls [])
run-IsValid_example = run-IsValid rounded calls

grants_bound_example :
    grants rounded bucket (1100 ∷ 1200 ∷ 2100 ∷ []) * token ≤ 0 + (2100 - 100) * 60
grants_bound_example = grants_bound rounded (1100 ∷ 1200 ∷ 2100 ∷ []) bucket 2100 (omega arith)

penalized_refuses_example :
    ((acquire_bucket rounded (penalize_bucket bucket 5000 200) 300).0.granted ≡ false)
    × ((acquire_bucket rounded (penalize_bucket bucket 5000 200) 300).0.retry_after_ms
        ≡ some ((token + 60 - 1) / 60))
penalized_refuses_example =
    penalized_refuses rounded bucket 5000 200 300 (omega arith) (omega arith)

cooldown_lost_example :
    ((acquire_bucket rounded
        (acquire_bucket rounded (penalize_bucket bucket 5000 200) 300).1
        1300).0.granted
      ≡ true)
    ↔ (300 + (token + 60 - 1) / 60 ≤ 1300)
cooldown_lost_example =
    cooldown_lost rounded bucket 5000 200 300 1300 (omega arith) (omega arith) (omega arith)
      (omega arith)
