-- ===== src/Client/RetryBudget.antt =====
-- crates/sdkwork-rpc-client/src/retry_budget.rs: token buckets by service. An `Instant` is its
-- nanoseconds; the clock readings are arguments, one where a bucket is made and one where it refills.
pub mod Account
pub mod Exact
pub mod Isolation
use sdkwork_rpc_framework.Prelude.{
  ℕ, ◌-◌, String, Bool, true, false, Option, none, some, List, [], ◌∷◌, if◌then◌else◌,
}
use sdkwork_rpc_framework.Prelude.Map.{Map, lookup, insert}
use sdkwork_rpc_framework.External.{Doubles}

module _ (doubles : Doubles) where
  open doubles use {F64, of_ℕ, as_secs_f64, add, sub, mul, min_f64, ge, gt}

  pub record RetryBudgetConfig : Type 0 where
    pub capacity : ℕ
    pub refill_per_second : F64

  abbrev pub default_budget_config : RetryBudgetConfig
  default_budget_config = record { capacity = 100; refill_per_second = of_ℕ 10 }

  pub record TokenBucket : Type 0 where
    pub tokens : F64
    pub last_refill : ℕ

  abbrev pub new_bucket : ℕ → ℕ → TokenBucket
  new_bucket now filled_to = record { tokens = of_ℕ filled_to; last_refill = now }

  -- `duration_since` is zero for an earlier instant.
  unfoldable pub refill : RetryBudgetConfig → ℕ → TokenBucket → TokenBucket
  refill config now bucket =
      let elapsed = as_secs_f64 (now - bucket.last_refill) in
      if gt elapsed (of_ℕ 0)
      then record {
        tokens =
            min_f64 (add bucket.tokens (mul elapsed config.refill_per_second))
              (of_ℕ config.capacity);
        last_refill = now;
      }
      else bucket

  unfoldable pub try_consume : TokenBucket → TokenBucket × Bool
  try_consume bucket =
      if ge bucket.tokens (of_ℕ 1)
      then (record bucket { tokens = sub bucket.tokens (of_ℕ 1) }, true)
      else (bucket, false)

  pub record RetryBudgetRegistry : Type 0 where
    pub inner : Map TokenBucket
    pub config : RetryBudgetConfig

  abbrev pub new : RetryBudgetConfig → RetryBudgetRegistry
  new config = record { inner = []; config = config }

  -- `entry(..).or_insert_with(..)`.
  abbrev pub bucket_or_full : ℕ → ℕ → Option TokenBucket → TokenBucket
  bucket_or_full created capacity none = new_bucket created capacity
  bucket_or_full created capacity (some bucket) = bucket

  -- The bucket of a service after its refill.
  unfoldable pub refilled : ℕ → ℕ → String → RetryBudgetRegistry → TokenBucket
  refilled created now service_name registry =
      refill registry.config now
        (bucket_or_full created registry.config.capacity (lookup service_name registry.inner))

  abbrev pub put_bucket : String → TokenBucket → RetryBudgetRegistry → RetryBudgetRegistry
  put_bucket service_name bucket registry = record registry {
    inner = insert service_name bucket registry.inner;
  }

  unfoldable pub try_acquire : ℕ → ℕ → String → RetryBudgetRegistry → RetryBudgetRegistry × Bool
  try_acquire created now service_name registry =
      let (bucket, granted) = try_consume (refilled created now service_name registry) in
      (put_bucket service_name bucket registry, granted)

  unfoldable pub available_tokens : ℕ → ℕ → String → RetryBudgetRegistry → RetryBudgetRegistry × F64
  available_tokens created now service_name registry =
      let bucket = refilled created now service_name registry in
      (put_bucket service_name bucket registry, bucket.tokens)
