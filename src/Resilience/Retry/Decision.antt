-- ===== src/Resilience/Retry/Decision.antt =====
-- When a call is retried: the decision of crates/sdkwork-rpc-resilience/src/pushback.rs against
-- the conditions that the retry contract names.
use sdkwork_rpc_framework.Prelude.{ℕ, ◌+◌, ◌<◌, ◌≡◌, ◌≢◌, ◌↔◌, true, none, arith, if◌then◌else◌}
use sdkwork_rpc_framework.Prelude.Rust.{Duration}
use sdkwork_rpc_framework.External.{Tonic}
use sdkwork_rpc_framework.Resilience.Policy.{
  RetryPolicy, RetryBudgetTracker, consume, retryable, allows_retry,
}
use sdkwork_rpc_framework.Resilience.Backoff.{retry_backoff_ms, deadline_covers_backoff}
use sdkwork_rpc_framework.Resilience.Retry.{
  RetryAdmission, allows_retry_metadata, RetryDecision, stop, retry,
  should_retry_call_with_deadline, extract_retry_pushback_ms, effective_retry_backoff_ms,
  pushback_of, should_retry_call_with_pushback,
}

module _ (tonic : Tonic) (draw : ℕ → ℕ) where
  open tonic use {Code, code_eq, code_eq_iff, resource_exhausted, Status, code}

  -- The conditions on a retry after `backoff_ms` that leaves the budget `after`.
  pub record IsAdmitted (policy : RetryPolicy Code) (status : Status) (attempt : ℕ)
      (budget : RetryBudgetTracker) (admission : RetryAdmission) (remaining : Duration)
      (backoff_ms : ℕ) (after : RetryBudgetTracker) : Type 0 where
    pub keyed : allows_retry_metadata admission ≡ true
    pub in_attempts : attempt < policy.max_attempts
    pub listed : retryable tonic policy (code status) ≡ true
    pub signalled : code status ≡ resource_exhausted → extract_retry_pushback_ms tonic status ≢ none
    pub delay :
        backoff_ms ≡ effective_retry_backoff_ms tonic draw policy attempt (pushback_of tonic status)
    pub covered : deadline_covers_backoff backoff_ms remaining ≡ true
    pub spent : budget.remaining ≡ after.remaining + 1

  module _ (policy : RetryPolicy Code) (status : Status) (attempt : ℕ) (budget : RetryBudgetTracker)
      (admission : RetryAdmission) (remaining : Duration) where
    abbrev outcome : RetryBudgetTracker × RetryDecision
    outcome =
        should_retry_call_with_pushback tonic draw policy status attempt budget admission remaining

    retry-IsAdmitted :
        (backoff_ms : ℕ) (after : RetryBudgetTracker)
        → outcome ≡ (after, retry backoff_ms)
        → IsAdmitted policy status attempt budget admission remaining backoff_ms after
    unfolding should_retry_call_with_pushback consume
    retry-IsAdmitted backoff_ms after e =
        ground (arith, code_eq_iff (code status) resource_exhausted)

    IsAdmitted-retry :
        (backoff_ms : ℕ) (after : RetryBudgetTracker)
        → IsAdmitted policy status attempt budget admission remaining backoff_ms after
        → outcome ≡ (after, retry backoff_ms)
    unfolding should_retry_call_with_pushback consume
    IsAdmitted-retry backoff_ms after a =
        ground (arith, code_eq_iff (code status) resource_exhausted, a.signalled)

    -- A call is retried exactly when its metadata admits it, attempts are left, the code is in the
    -- policy's list (and, for RESOURCE_EXHAUSTED, the server sent a pushback), the delay is the
    -- effective one, the deadline covers it, and one token of the budget pays for it.
    pub should_retry_call_with_pushback_iff :
        (backoff_ms : ℕ) (after : RetryBudgetTracker)
        → (outcome ≡ (after, retry backoff_ms))
          ↔ IsAdmitted policy status attempt budget admission remaining backoff_ms after
    should_retry_call_with_pushback_iff backoff_ms after =
        (retry-IsAdmitted backoff_ms after, IsAdmitted-retry backoff_ms after)

    -- A call that is not retried keeps its budget.
    stop-budget : outcome.1 ≡ stop → outcome.0 ≡ budget
    unfolding should_retry_call_with_pushback consume
    stop-budget e = ground arith

    -- For every code but RESOURCE_EXHAUSTED the pushback trailer is ignored: the decision is that
    -- of the deadline-aware path, with the jittered delay.
    pub should_retry_call_with_pushback-eq-deadline :
        code status ≢ resource_exhausted
        → let (after, again) =
            should_retry_call_with_deadline tonic draw policy
              (code status)
              attempt
              budget
              admission
              remaining in
          outcome ≡ (after, if again then retry (retry_backoff_ms draw policy attempt) else stop)
    unfolding should_retry_call_with_pushback should_retry_call_with_deadline allows_retry consume
        effective_retry_backoff_ms
    should_retry_call_with_pushback-eq-deadline other =
        ground (arith, code_eq_iff (code status) resource_exhausted)
