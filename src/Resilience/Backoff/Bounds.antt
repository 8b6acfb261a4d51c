-- ===== src/Resilience/Backoff/Bounds.antt =====
-- What the delays of crates/sdkwork-rpc-resilience/src/backoff.rs and the deadline test promise.
use sdkwork_rpc_framework.Prelude.{ℕ, ◌+◌, ◌-◌, ◌*◌, ◌^◌, ◌≤◌, min, ◌≡◌, refl, true, arith}
use sdkwork_rpc_framework.Prelude.Rust.{Duration, duration_max, as_millis, u64_max}
use sdkwork_rpc_framework.Resilience.Policy.{RetryPolicy}
use sdkwork_rpc_framework.Resilience.Backoff.{
  IsDraw, backoff_base, retry_backoff_ms, deadline_covers_backoff, required_ms,
}

-- A policy whose fields are `u64`s in the order that the profiles keep.
pub record IsOrdered {Code : Type 0} (policy : RetryPolicy Code) : Type 0 where
  pub initial-le-max : policy.initial_backoff_ms ≤ policy.max_backoff_ms
  pub max-u64 : policy.max_backoff_ms ≤ u64_max

add-sub_one : (n : ℕ) → n + 1 - 1 ≡ n
add-sub_one n = omega arith

-- With `u64` bounds the saturating product never shows: the base of attempt n + 1 is the smaller
-- of `initial * 2 ^ min(n, 16)` and the maximum.
backoff_base-eq-min :
    {Code : Type 0} (policy : RetryPolicy Code) (n : ℕ)
    → policy.max_backoff_ms ≤ u64_max
    → backoff_base policy (n + 1)
      ≡ min (policy.initial_backoff_ms * 2 ^ min n 16) policy.max_backoff_ms
unfolding backoff_base
backoff_base-eq-min policy n h = rw (add-sub_one n) (omega arith)

-- Under an ordered policy no delay passes the policy's maximum, whatever the generator draws.
pub retry_backoff_ms-le-max :
    {Code : Type 0} (draw : ℕ → ℕ) (policy : RetryPolicy Code) (attempt : ℕ)
    → IsDraw draw
    → IsOrdered policy
    → retry_backoff_ms draw policy attempt ≤ policy.max_backoff_ms
unfolding retry_backoff_ms
retry_backoff_ms-le-max draw policy attempt d o = ground (arith, d (backoff_base policy attempt))

pub deadline_covers_backoff-max :
    (backoff_ms : ℕ) → deadline_covers_backoff backoff_ms duration_max ≡ true
unfolding deadline_covers_backoff
deadline_covers_backoff-max backoff_ms = refl

-- A deadline that passes the test leaves room for the delay and for half of it again, and for ten
-- milliseconds more than the delay in any case.
pub deadline_covers_backoff-room :
    (backoff_ms : ℕ) (remaining : Duration)
    → as_millis remaining ≤ u64_max
    → deadline_covers_backoff backoff_ms remaining ≡ true
    → required_ms backoff_ms ≤ as_millis remaining
unfolding deadline_covers_backoff
deadline_covers_backoff-room backoff_ms remaining h e = ground arith
