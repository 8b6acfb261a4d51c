-- ===== src/Resilience/Policy.antt =====
-- crates/sdkwork-rpc-resilience/src/lib.rs: the retry policy of a profile and the per-call budget.
use sdkwork_rpc_framework.Prelude.{
  ℕ, ◌-◌, Bool, true, false, ◌&&◌, List, [], ◌∷◌, any, ltb, ◌==◌, if◌then◌else◌,
}
use sdkwork_rpc_framework.External.{Tonic}
use sdkwork_rpc_framework.Core.Profile.{
  ResilienceProfile, rpc_default, rpc_read_only, rpc_idempotent_write, rpc_critical_write,
  rpc_stream, rpc_local_dev,
}

pub record RetryPolicy (Code : Type 0) : Type 0 where
  pub max_attempts : ℕ
  pub retry_budget : ℕ
  pub initial_backoff_ms : ℕ
  pub max_backoff_ms : ℕ
  pub retryable_codes : List Code

pub record RetryBudgetTracker : Type 0 where
  pub remaining : ℕ

abbrev pub new : ℕ → RetryBudgetTracker
new budget = record { remaining = budget }

-- The mutable tracker comes back beside the result.
unfoldable pub consume : RetryBudgetTracker → RetryBudgetTracker × Bool
consume b = if b.remaining == 0 then (b, false) else (record { remaining = b.remaining - 1 }, true)

module _ (tonic : Tonic) where
  open tonic use {Code, code_eq, unavailable, resource_exhausted}

  unfoldable pub for_profile : ResilienceProfile → RetryPolicy Code
  for_profile rpc_read_only = record {
    max_attempts = 3;
    retry_budget = 32;
    initial_backoff_ms = 50;
    max_backoff_ms = 2_000;
    retryable_codes = unavailable ∷ resource_exhausted ∷ [];
  }
  for_profile rpc_idempotent_write = record {
    max_attempts = 2;
    retry_budget = 16;
    initial_backoff_ms = 100;
    max_backoff_ms = 2_000;
    retryable_codes = unavailable ∷ [];
  }
  for_profile rpc_critical_write = record {
    max_attempts = 1;
    retry_budget = 4;
    initial_backoff_ms = 100;
    max_backoff_ms = 500;
    retryable_codes = [];
  }
  for_profile rpc_stream = record {
    max_attempts = 1;
    retry_budget = 4;
    initial_backoff_ms = 100;
    max_backoff_ms = 500;
    retryable_codes = [];
  }
  for_profile rpc_local_dev = record {
    max_attempts = 5;
    retry_budget = 64;
    initial_backoff_ms = 25;
    max_backoff_ms = 1_000;
    retryable_codes = unavailable ∷ resource_exhausted ∷ [];
  }
  for_profile rpc_default = record {
    max_attempts = 3;
    retry_budget = 24;
    initial_backoff_ms = 50;
    max_backoff_ms = 2_000;
    retryable_codes = unavailable ∷ [];
  }

  -- `retryable_codes.contains(&code)`.
  unfoldable pub retryable : RetryPolicy Code → Code → Bool
  retryable policy code = any (code_eq code) policy.retryable_codes

  unfoldable pub allows_retry : RetryPolicy Code → Code → ℕ → Bool
  allows_retry policy code remaining_budget = ltb 0 remaining_budget && retryable policy code
