-- ===== src/Resilience/Backoff.antt =====
-- crates/sdkwork-rpc-resilience/src/backoff.rs, and the deadline test of src/lib.rs. The random
-- sample `random_range(0..=base)` is the argument `draw`, a value for each upper end.
pub mod Bounds
use sdkwork_rpc_framework.Prelude.{
  ℕ, ◌-◌, ◌/◌, ◌^◌, ◌≤◌, min, max, Bool, true, false, ◌==◌, if◌then◌else◌, leb, Option, none, some,
}
use sdkwork_rpc_framework.Prelude.Rust.{
  Duration, as_millis, saturating_add_u64, saturating_mul_u64, try_u64,
}
use sdkwork_rpc_framework.Resilience.Policy.{RetryPolicy}

abbrev pub min_rpc_deadline_reserve_ms : ℕ
min_rpc_deadline_reserve_ms = 10

-- `min(initial * 2 ^ min(attempt - 1, 16), max)`, for `attempt` from 1 on.
unfoldable pub backoff_base : {Code : Type 0} → RetryPolicy Code → ℕ → ℕ
backoff_base policy attempt =
    let exponent = min (attempt - 1) 16 in
    min (saturating_mul_u64 policy.initial_backoff_ms (2 ^ exponent)) policy.max_backoff_ms

unfoldable pub retry_backoff_ms : {Code : Type 0} → (ℕ → ℕ) → RetryPolicy Code → ℕ → ℕ
unfolding backoff_base
retry_backoff_ms draw policy attempt =
    if attempt == 0
    then policy.initial_backoff_ms
    else let base = backoff_base policy attempt in
      if base == 0 then policy.initial_backoff_ms else draw base

-- What the generator promises of `random_range(0..=base)`.
abbrev pub IsDraw : (ℕ → ℕ) → Type 0
IsDraw draw = (base : ℕ) → draw base ≤ base

-- The time that a retry after `backoff_ms` is taken to need.
abbrev pub required_ms : ℕ → ℕ
required_ms backoff_ms =
    let rpc_estimate_ms = max (backoff_ms / 2) min_rpc_deadline_reserve_ms in
    saturating_add_u64 backoff_ms rpc_estimate_ms

covers : Option ℕ → ℕ → Bool
covers (some remaining_ms) required = leb required remaining_ms
covers none required = true

unfoldable pub deadline_covers_backoff : ℕ → Duration → Bool
unfolding covers
deadline_covers_backoff backoff_ms remaining =
    covers (try_u64 (as_millis remaining)) (required_ms backoff_ms)
