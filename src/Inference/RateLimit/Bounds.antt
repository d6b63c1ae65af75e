-- ===== src/Inference/RateLimit/Bounds.antt =====
-- src/inference/rate-limit.ts: the bucket never overflows and never lets more calls through than
-- its content and its refill allow.
use frontier_os.Prelude.{
  ℕ, ◌+◌, ◌-◌, ◌*◌, ◌≤◌, ◌≡◌, String, some, List, [], ◌∷◌, arith, Bool-cases, inl, inr,
  Option-cases, str_eq,
}
use frontier_os.Prelude.Dict.{lookup, insert, lookup-insert}
use frontier_os.Inference.RateLimit.{
  token, BucketConfig, BucketState, Limiter, configure, acquire_bucket, acquire, penalize_bucket,
  penalize, one_if, grants,
}

abbrev pub IsBounded : BucketState → Type 0
IsBounded state = state.tokens ≤ state.capacity

-- Every bucket of the limiter holds at most its capacity.
abbrev pub IsValid : Limiter → Type 0
IsValid limiter =
    (model : String) (state : BucketState) → lookup model limiter ≡ some state → IsBounded state

insert-IsValid :
    (model : String) (state : BucketState) (limiter : Limiter)
    → IsBounded state
    → IsValid limiter
    → IsValid (insert model state limiter)
insert-IsValid model state limiter b v other found e = elim (Bool-cases (str_eq model other)) [
  | inl same ↦ ground (arith, lookup-insert model other state limiter, b)
  | inr differ ↦ v other found (ground (arith, lookup-insert model other state limiter))
]

configure-IsValid :
    (config : BucketConfig) (now : ℕ) (limiter : Limiter)
    → IsValid limiter
    → IsValid (configure config now limiter)
unfolding configure
configure-IsValid config now limiter v = insert-IsValid config.model_id _ limiter (omega arith) v

penalize-IsValid :
    (model : String) (wait t : ℕ) (limiter : Limiter)
    → IsValid limiter
    → IsValid (penalize model wait t limiter)
unfolding penalize
penalize-IsValid model wait t limiter v = elim (Option-cases (lookup model limiter)) [
  | inl missing ↦ rw (missing, penalize) v
  | inr (state, found) ↦
      rw (found, penalize)
        (insert-IsValid model (penalize_bucket state wait t) limiter (omega arith) v)
]

pub data Call : Type 0 where
  configured : BucketConfig → ℕ → Call
  acquired : String → ℕ → Call
  penalized : String → ℕ → ℕ → Call

-- The times do not fall, from `lo` up to `hi`.
abbrev pub Rising : ℕ → List ℕ → ℕ → Type 0
Rising lo [] hi = lo ≤ hi
Rising lo (t ∷ ts) hi = (lo ≤ t) × Rising t ts hi

Rising-le : (lo hi : ℕ) (ts : List ℕ) → Rising lo ts hi → lo ≤ hi
Rising-le lo hi [] h = h
Rising-le lo hi (t ∷ ts) h = omega (arith, h.0, Rising-le t hi ts h.1)

mul_split : (lo t hi r : ℕ) → lo ≤ t → t ≤ hi → (t - lo) * r + (hi - t) * r ≡ (hi - lo) * r
mul_split lo t hi r h k = grind arith

module _ (rounded : ℕ → ℕ → ℕ) where
  acquire_bucket-IsBounded :
      (state : BucketState) (t : ℕ) → IsBounded (acquire_bucket rounded state t).1
  unfolding acquire_bucket
  acquire_bucket-IsBounded state t = ground arith

  abbrev pub run : List Call → Limiter → Limiter
  run [] limiter = limiter
  run (configured config now ∷ calls) limiter = run calls (configure config now limiter)
  run (acquired model t ∷ calls) limiter = run calls (acquire rounded model t limiter).1
  run (penalized model wait t ∷ calls) limiter = run calls (penalize model wait t limiter)

  acquire-IsValid :
      (model : String) (t : ℕ) (limiter : Limiter)
      → IsValid limiter
      → IsValid (acquire rounded model t limiter).1
  unfolding acquire
  acquire-IsValid model t limiter v = elim (Option-cases (lookup model limiter)) [
    | inl missing ↦ rw (missing, acquire) v
    | inr (state, found) ↦
        rw (found, acquire)
          (insert-IsValid model (acquire_bucket rounded state t).1 limiter
            (acquire_bucket-IsBounded state t) v)
  ]

  run-IsValid_from :
      (calls : List Call) (limiter : Limiter) → IsValid limiter → IsValid (run calls limiter)
  run-IsValid_from [] limiter v = v
  run-IsValid_from (configured config now ∷ calls) limiter v =
      run-IsValid_from calls _ (configure-IsValid config now limiter v)
  run-IsValid_from (acquired model t ∷ calls) limiter v =
      run-IsValid_from calls _ (acquire-IsValid model t limiter v)
  run-IsValid_from (penalized model wait t ∷ calls) limiter v =
      run-IsValid_from calls _ (penalize-IsValid model wait t limiter v)

  -- However a new limiter is configured, asked and penalised, every bucket in it holds at most its
  -- capacity.
  pub run-IsValid : (calls : List Call) → IsValid (run calls [])
  run-IsValid calls = run-IsValid_from calls [] (λ model state e. absurd (ground arith))

  acquire_spends :
      (state : BucketState) (t : ℕ)
      → one_if (acquire_bucket rounded state t).0.granted * token
          + (acquire_bucket rounded state t).1.tokens
        ≤ state.tokens + (t - state.last_refill_ms) * state.refill_per_ms
  unfolding acquire_bucket
  acquire_spends state t = ground arith

  acquire_keeps :
      (state : BucketState) (t : ℕ)
      → ((acquire_bucket rounded state t).1.refill_per_ms ≡ state.refill_per_ms)
        × ((acquire_bucket rounded state t).1.last_refill_ms ≡ t)
  unfolding acquire_bucket
  acquire_keeps state t = ground arith

  -- The calls that one bucket grants up to the time `hi`, at times that do not fall, cost no more
  -- tokens than the bucket held and gained since its last refill.
  pub grants_bound :
      (ts : List ℕ) (state : BucketState) (hi : ℕ)
      → Rising state.last_refill_ms ts hi
      → grants rounded state ts * token
        ≤ state.tokens + (hi - state.last_refill_ms) * state.refill_per_ms
  unfolding grants
  grants_bound [] state hi h = omega arith
  grants_bound (t ∷ ts) state hi (here, h) =
      let after = (acquire_bucket rounded state t).1 in
      let kept = acquire_keeps state t in
      let rest = grants_bound ts after hi (rw (kept.1) h) in
      let rest' = rw (kept.0, kept.1) at rest in
      omega (
        arith,
        rest',
        acquire_spends state t,
        mul_split state.last_refill_ms t hi state.refill_per_ms here (Rising-le t hi ts h),
      )
