-- ===== src/Client/RetryBudget/Exact.antt =====
-- A bucket of crates/sdkwork-rpc-client/src/retry_budget.rs at whole seconds and whole rates: its
-- doubles are exact, and keep an account of whole tokens.
use native.Mathlib.Nat.{mul-le-mul}
use sdkwork_rpc_framework.Prelude.Rust.{u32_max, from_secs}
use sdkwork_rpc_framework.Prelude.{
  ℕ, ◌+◌, ◌-◌, ◌*◌, ◌≤◌, min, max, true, Option, none, some, leb, arith, ◌≡◌, refl, inl, inr,
  Bool-cases,
}
use sdkwork_rpc_framework.External.{Doubles}
use sdkwork_rpc_framework.Client.RetryBudget.{
  RetryBudgetConfig, TokenBucket, refill, try_consume, bucket_or_full,
}
use sdkwork_rpc_framework.Client.RetryBudget.Account.{Account, earned, spend}

-- The last second of a run, about twelve days.
abbrev pub horizon : ℕ
horizon = 1_048_576

abbrev pub Fits : ℕ → Account → Type 0
Fits capacity account = (account.tokens ≤ capacity) × (account.at ≤ horizon)

abbrev pub AllFit : ℕ → Option Account → Type 0
AllFit capacity none = Unit
AllFit capacity (some account) = Fits capacity account

earned-le-capacity :
    (capacity rate second : ℕ) (account : Account)
    → Fits capacity account
    → earned capacity rate second account ≤ capacity
earned-le-capacity capacity rate second account fits = ground arith

earned-le-u32_max :
    (capacity rate second : ℕ) (account : Account)
    → capacity ≤ u32_max
    → Fits capacity account
    → earned capacity rate second account ≤ u32_max
earned-le-u32_max capacity rate second account c fits =
    omega (arith, earned-le-capacity capacity rate second account fits)

module _ (doubles : Doubles) where
  open doubles use {F64, of_ℕ, as_secs_f64, add, sub, mul, min_f64, ge, gt}

  abbrev pub bucket_of : Account → TokenBucket doubles
  bucket_of account = record { tokens = of_ℕ account.tokens; last_refill = from_secs account.at }

  elapsed-of :
      (second at : ℕ)
      → second ≤ horizon
      → as_secs_f64 (from_secs second - from_secs at) ≡ of_ℕ (second - at)
  elapsed-of second at h =
      let apart : from_secs second - from_secs at ≡ (second - at) * 1_000_000_000 = omega arith in
      rw apart (doubles.as_secs_f64-secs (second - at) (omega arith))

  later-of : (d : ℕ) → d ≤ horizon → gt (of_ℕ d) (of_ℕ 0) ≡ leb 1 d
  later-of d h = ground (arith, doubles.gt-of d 0 (omega arith) (omega arith))

  product-small : (d rate : ℕ) → d ≤ horizon → rate ≤ u32_max → d * rate ≤ horizon * u32_max
  product-small d rate h k = mul-le-mul h k

  earned-of :
      (capacity rate second : ℕ) (account : Account)
      → capacity ≤ u32_max
      → rate ≤ u32_max
      → second ≤ horizon
      → Fits capacity account
      → min_f64
          (add (of_ℕ account.tokens) (mul (of_ℕ (second - account.at)) (of_ℕ rate)))
          (of_ℕ capacity)
        ≡ of_ℕ (min (account.tokens + (second - account.at) * rate) capacity)
  earned-of capacity rate second account c r s fits =
      let d = second - account.at in
      let small = product-small d rate (omega arith) r in
      let product = doubles.mul-of d rate (omega arith) (omega arith) (omega (arith, small)) in
      let sum = doubles.add-of account.tokens (d * rate) (omega (arith, small)) in
      rw (product, sum) (doubles.min-of _ capacity (omega (arith, small)) (omega arith))

  refill-of :
      (config : RetryBudgetConfig doubles) (rate second : ℕ) (account : Account)
      → config.refill_per_second ≡ of_ℕ rate
      → config.capacity ≤ u32_max
      → rate ≤ u32_max
      → second ≤ horizon
      → Fits config.capacity account
      → refill doubles config (from_secs second) (bucket_of account)
        ≡ bucket_of (record {
          tokens = earned config.capacity rate second account;
          at = max account.at second;
        })
  unfolding refill
  refill-of config rate second account whole c r s fits =
      elim (Bool-cases (leb second account.at)) [
        | inl early ↦
            let same : second - account.at ≡ 0 = ground (arith, early) in
            let latest : max account.at second ≡ account.at = ground (arith, early) in
            rw
              (
                elapsed-of second account.at s,
                later-of (second - account.at) (omega arith),
                same,
                early,
                latest,
              )
              refl
        | inr late ↦
            let some_time : leb 1 (second - account.at) ≡ true = ground (arith, late) in
            let latest : max account.at second ≡ second = ground (arith, late) in
            rw
              (
                elapsed-of second account.at s,
                later-of (second - account.at) (omega arith),
                some_time,
                late,
                latest,
                whole,
                earned-of config.capacity rate second account c r s fits,
              )
              refl
      ]

  try_consume-of :
      (tokens at : ℕ)
      → tokens ≤ u32_max
      → try_consume doubles (bucket_of (record { tokens = tokens; at = at }))
        ≡ (bucket_of (record { tokens = tokens - 1; at = at }), leb 1 tokens)
  unfolding try_consume
  try_consume-of tokens at h =
      let tested : ge (of_ℕ tokens) (of_ℕ 1) ≡ leb 1 tokens =
        ground (arith, doubles.ge-of tokens 1 (omega arith) (omega arith)) in
      elim (Bool-cases (leb 1 tokens)) [
        | inl enough ↦
            let positive : 1 ≤ tokens = ground (arith, enough) in
            rw (tested, enough, doubles.sub-of tokens 1 positive (omega arith)) refl
        | inr empty ↦
            let zero_left : tokens ≡ tokens - 1 = ground (arith, empty) in
            rw (tested, empty, ← zero_left) refl
      ]

  abbrev pub buckets_of : Option Account → Option (TokenBucket doubles)
  buckets_of none = none
  buckets_of (some account) = some (bucket_of account)

  -- An acquisition spends from the account that the bucket keeps.
  abbrev pub Spends : RetryBudgetConfig doubles → ℕ → ℕ → Option Account → Type 0
  Spends config rate second found =
      let (account, granted) = spend config.capacity rate second found in
      (try_consume doubles (
          refill doubles config (from_secs second)
            (bucket_or_full doubles (from_secs second) config.capacity (buckets_of found)))
        ≡ (bucket_of account, granted))
      × Fits config.capacity account

  spend-account :
      (config : RetryBudgetConfig doubles) (rate second : ℕ) (account : Account)
      → config.refill_per_second ≡ of_ℕ rate
      → config.capacity ≤ u32_max
      → rate ≤ u32_max
      → second ≤ horizon
      → Fits config.capacity account
      → Spends config rate second (some account)
  unfolding spend
  spend-account config rate second account whole c r s fits = (
    rw (refill-of config rate second account whole c r s fits) (
        try_consume-of (earned config.capacity rate second account) _
          (earned-le-u32_max config.capacity rate second account c fits)),
    (omega (arith, earned-le-capacity config.capacity rate second account fits), omega arith),
  )

  pub spend-of :
      (config : RetryBudgetConfig doubles) (rate second : ℕ) (found : Option Account)
      → config.refill_per_second ≡ of_ℕ rate
      → config.capacity ≤ u32_max
      → rate ≤ u32_max
      → second ≤ horizon
      → AllFit config.capacity found
      → Spends config rate second found
  unfolding spend
  spend-of config rate second none whole c r s fits =
      spend-account config rate second (record { tokens = config.capacity; at = second }) whole c r
        s (omega arith, s)
  spend-of config rate second (some account) whole c r s fits =
      spend-account config rate second account whole c r s fits
