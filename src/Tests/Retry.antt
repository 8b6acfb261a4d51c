-- ===== src/Tests/Retry.antt =====
-- Retries of one call: the theorems on crates/sdkwork-rpc-resilience/src/lib.rs, src/backoff.rs and
-- src/pushback.rs at small policies, budgets and deadlines.
use sdkwork_rpc_framework.Prelude.{ℕ, ◌≤◌, ◌≡◌, ◌↔◌, refl, true, none, some, List, [], ◌∷◌, arith}
use sdkwork_rpc_framework.Prelude.Rust.{from_secs, from_millis}
use sdkwork_rpc_framework.Prelude.Text.{parse_u64}
use sdkwork_rpc_framework.Core.Profile.{rpc_read_only}
use sdkwork_rpc_framework.Resilience.Policy.{
  RetryPolicy, consume, for_profile, retryable, allows_retry, new,
}
use sdkwork_rpc_framework.Resilience.Backoff.{retry_backoff_ms, deadline_covers_backoff}
use sdkwork_rpc_framework.Resilience.Retry.{
  RetryAdmission, stop, retry, should_retry_call_with_pushback, extract_retry_pushback_ms,
  effective_retry_backoff_ms, allows_retry_metadata, should_retry_call_with_deadline,
}
use sdkwork_rpc_framework.Resilience.Retry.Decision.{
  IsAdmitted, should_retry_call_with_pushback_iff, should_retry_call_with_pushback-eq-deadline,
}
use sdkwork_rpc_framework.Resilience.Retry.Budget.{Failure, retries, retries-le-budget}
use sdkwork_rpc_framework.Tests.Instances.{Metadata, numbered}

-- The largest sample each time.
abbrev top : ℕ → ℕ
top base = base

abbrev policy : RetryPolicy ℕ
policy = record {
  max_attempts = 3;
  retry_budget = 32;
  initial_backoff_ms = 50;
  max_backoff_ms = 2_000;
  retryable_codes = 14 ∷ 8 ∷ [];
}

abbrev keyed : RetryAdmission
keyed = record { method_requires_idempotency = true; has_idempotency_key = true }

-- RESOURCE_EXHAUSTED, with a pushback of a quarter of a second.
abbrev pushed : ℕ × Metadata
pushed = (8, λ k. some "250")

abbrev down : ℕ × Metadata
down = (14, λ k. none)

should_retry_call_with_pushback_iff_example :
    (should_retry_call_with_pushback numbered top policy pushed 1 (new 2) keyed (from_secs 5)
      ≡ (new 1, retry 250))
    ↔ IsAdmitted numbered top policy pushed 1 (new 2) keyed (from_secs 5) 250 (new 1)
should_retry_call_with_pushback_iff_example =
    should_retry_call_with_pushback_iff numbered top policy pushed 1 (new 2) keyed (from_secs 5) 250
      (new 1)

late :
    (should_retry_call_with_pushback numbered top policy pushed 1 (new 2) keyed (from_millis 300)).1
    ≡ stop
unfolding should_retry_call_with_pushback allows_retry_metadata extract_retry_pushback_ms parse_u64
    retryable deadline_covers_backoff effective_retry_backoff_ms
late = refl

should_retry_call_with_pushback-eq-deadline_example :
    should_retry_call_with_pushback numbered top policy down 2 (new 2) keyed (from_secs 5)
    ≡ (new 1, retry 100)
unfolding should_retry_call_with_deadline allows_retry_metadata allows_retry retryable
    deadline_covers_backoff retry_backoff_ms consume
should_retry_call_with_pushback-eq-deadline_example =
    should_retry_call_with_pushback-eq-deadline numbered top policy down 2 (new 2) keyed
      (from_secs 5) (omega arith)

failures : List (Failure numbered top)
failures =
    record { attempt = 1; status = down; remaining = from_secs 5 }
    ∷ record { attempt = 2; status = pushed; remaining = from_secs 5 }
    ∷ []

retries-le-budget_example : retries numbered top policy keyed (new 1) failures ≤ 1
retries-le-budget_example = retries-le-budget numbered top policy keyed (new 1) failures

granted :
    should_retry_call_with_pushback numbered top
      (for_profile numbered rpc_read_only)
      pushed
      1
      (new 2)
      keyed
      (from_secs 5)
    ≡ (new 1, retry 250)
unfolding should_retry_call_with_pushback allows_retry_metadata for_profile
    extract_retry_pushback_ms parse_u64 retryable deadline_covers_backoff effective_retry_backoff_ms
    consume
granted = refl
