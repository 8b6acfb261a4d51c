-- ===== src/Resilience/Retry.antt =====
-- crates/sdkwork-rpc-resilience/src/lib.rs (`should_retry_with_deadline`), src/idempotency.rs and
-- src/pushback.rs: the decision to retry a call. The mutable budget comes back with the result.
pub mod Decision
pub mod Budget
use sdkwork_rpc_framework.Prelude.{
  ℕ, String, Bool, true, false, not, ◌&&◌, Option, none, some, leb, is_some, min, ◌>>=◌,
  if◌then◌else◌,
}
use sdkwork_rpc_framework.Prelude.Rust.{Duration, duration_max}
use sdkwork_rpc_framework.Prelude.Text.{parse_u64}
use sdkwork_rpc_framework.External.{Tonic}
use sdkwork_rpc_framework.Resilience.Policy.{
  RetryPolicy, RetryBudgetTracker, consume, retryable, allows_retry,
}
use sdkwork_rpc_framework.Resilience.Backoff.{retry_backoff_ms, deadline_covers_backoff}

pub record RetryAdmission : Type 0 where
  pub method_requires_idempotency : Bool
  pub has_idempotency_key : Bool

unfoldable pub allows_retry_metadata : RetryAdmission → Bool
allows_retry_metadata a =
    if a.method_requires_idempotency && not a.has_idempotency_key then false else true

pub data RetryDecision : Type 0 where
  stop : RetryDecision
  retry : (backoff_ms : ℕ) → RetryDecision

abbrev pub grpc_retry_pushback_ms : String
grpc_retry_pushback_ms = "grpc-retry-pushback-ms"

module _ (tonic : Tonic) where
  open tonic use {Code, code_eq, resource_exhausted, Status, code, metadata, get, to_str}

  unfoldable pub extract_retry_pushback_ms : Status → Option ℕ
  extract_retry_pushback_ms status = do
    value ← get (metadata status) grpc_retry_pushback_ms
    text ← to_str value
    parse_u64 text

  -- Pushback governs RESOURCE_EXHAUSTED alone.
  unfoldable pub pushback_of : Status → Option ℕ
  pushback_of status =
      if code_eq (code status) resource_exhausted then extract_retry_pushback_ms status else none

  unfoldable pub code_allowed : RetryPolicy Code → Status → Bool
  code_allowed policy status =
      if code_eq (code status) resource_exhausted
      then is_some (pushback_of status) && retryable tonic policy (code status)
      else retryable tonic policy (code status)

module _ (tonic : Tonic) (draw : ℕ → ℕ) where
  open tonic use {Code, Status}

  -- The last step of both paths: take a token, and retry if there was one.
  unfoldable pub should_retry_with_deadline :
      RetryPolicy Code → Code → ℕ → RetryBudgetTracker → Duration → RetryBudgetTracker × Bool
  should_retry_with_deadline policy code attempt budget remaining =
      if leb policy.max_attempts attempt
      then (budget, false)
      else if not (allows_retry tonic policy code budget.remaining)
      then (budget, false)
      else let backoff_ms = retry_backoff_ms draw policy attempt in
        if not (deadline_covers_backoff backoff_ms remaining)
        then (budget, false)
        else consume budget

  unfoldable pub should_retry :
      RetryPolicy Code → Code → ℕ → RetryBudgetTracker → RetryBudgetTracker × Bool
  unfolding should_retry_with_deadline
  should_retry policy code attempt budget =
      should_retry_with_deadline policy code attempt budget duration_max

  unfoldable pub should_retry_call_with_deadline :
      RetryPolicy Code
      → Code
      → ℕ
      → RetryBudgetTracker
      → RetryAdmission
      → Duration
      → RetryBudgetTracker × Bool
  unfolding should_retry_with_deadline
  should_retry_call_with_deadline policy code attempt budget admission remaining =
      if not (allows_retry_metadata admission)
      then (budget, false)
      else should_retry_with_deadline policy code attempt budget remaining

  unfoldable pub should_retry_call :
      RetryPolicy Code → Code → ℕ → RetryBudgetTracker → RetryAdmission → RetryBudgetTracker × Bool
  unfolding should_retry_call_with_deadline
  should_retry_call policy code attempt budget admission =
      should_retry_call_with_deadline policy code attempt budget admission duration_max

  unfoldable pub effective_retry_backoff_ms : RetryPolicy Code → ℕ → Option ℕ → ℕ
  effective_retry_backoff_ms policy attempt (some ms) = min ms policy.max_backoff_ms
  effective_retry_backoff_ms policy attempt none = retry_backoff_ms draw policy attempt

  unfoldable pub should_retry_call_with_pushback :
      RetryPolicy Code
      → Status
      → ℕ
      → RetryBudgetTracker
      → RetryAdmission
      → Duration
      → RetryBudgetTracker × RetryDecision
  unfolding code_allowed pushback_of
  should_retry_call_with_pushback policy status attempt budget admission remaining =
      if not (allows_retry_metadata admission)
      then (budget, stop)
      else if leb policy.max_attempts attempt
      then (budget, stop)
      else if not (code_allowed tonic policy status)
      then (budget, stop)
      else let backoff_ms = effective_retry_backoff_ms policy attempt (pushback_of tonic status) in
        if not (deadline_covers_backoff backoff_ms remaining)
        then (budget, stop)
        else let (budget', consumed) = consume budget in
          if not consumed then (budget', stop) else (budget', retry backoff_ms)
