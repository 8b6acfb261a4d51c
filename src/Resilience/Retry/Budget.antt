-- ===== src/Resilience/Retry/Budget.antt =====
-- The per-call budget of crates/sdkwork-rpc-resilience over a whole call, and what the profiles
-- allow.
use sdkwork_rpc_framework.Prelude.{
  ℕ, ◌+◌, ◌≤◌, ◌≡◌, ◌⊎◌, ◌/◌, max, false, ◌&&◌, List, [], ◌∷◌, arith, if◌then◌else◌, ltb,
}
use sdkwork_rpc_framework.Prelude.Rust.{Duration, as_millis, u64_max}
use sdkwork_rpc_framework.External.{Tonic}
use sdkwork_rpc_framework.Core.Profile.{ResilienceProfile, rpc_critical_write, rpc_stream}
use sdkwork_rpc_framework.Resilience.Policy.{
  RetryPolicy, RetryBudgetTracker, consume, for_profile, retryable, allows_retry,
}
use sdkwork_rpc_framework.Resilience.Backoff.{IsDraw, required_ms, retry_backoff_ms}
use sdkwork_rpc_framework.Resilience.Backoff.Bounds.{
  IsOrdered, retry_backoff_ms-le-max, deadline_covers_backoff-max, deadline_covers_backoff-room,
}
use sdkwork_rpc_framework.Resilience.Retry.Decision.{should_retry_call_with_pushback_iff}
use sdkwork_rpc_framework.Resilience.Retry.{
  RetryAdmission, allows_retry_metadata, RetryDecision, stop, retry, should_retry_call,
  effective_retry_backoff_ms, code_allowed, should_retry_call_with_pushback,
}

abbrev cost : RetryDecision → ℕ
cost stop = 0
cost (retry backoff_ms) = 1

module _ (tonic : Tonic) (draw : ℕ → ℕ) where
  open tonic use {Code, Status, code, unavailable, resource_exhausted}

  -- One failed attempt of a call: its number, the status that came back, the time left.
  pub record Failure : Type 0 where
    pub attempt : ℕ
    pub status : Status
    pub remaining : Duration

  module _ (policy : RetryPolicy Code) (admission : RetryAdmission) where
    abbrev decide : RetryBudgetTracker → Failure → RetryBudgetTracker × RetryDecision
    decide budget f =
        should_retry_call_with_pushback tonic draw policy f.status f.attempt budget admission
          f.remaining

    -- The retries granted to the failures of one call, with the tracker passed along.
    pub retries : RetryBudgetTracker → List Failure → ℕ
    retries budget [] = 0
    retries budget (f ∷ fs) = cost (decide budget f).1 + retries (decide budget f).0 fs

    decide-cost :
        (budget : RetryBudgetTracker) (f : Failure)
        → cost (decide budget f).1 + (decide budget f).0.remaining ≡ budget.remaining
    unfolding should_retry_call_with_pushback consume
    decide-cost budget f = ground arith

    -- However its attempts fail, a call is retried at most as often as its budget has tokens.
    pub retries-le-budget :
        (budget : RetryBudgetTracker) (fs : List Failure) → retries budget fs ≤ budget.remaining
    unfolding retries
    retries-le-budget budget [] = omega arith
    retries-le-budget budget (f ∷ fs) =
        omega (arith, decide-cost budget f, retries-le-budget (decide budget f).0 fs)

  pub for_profile-IsOrdered : (p : ResilienceProfile) → IsOrdered (for_profile tonic p)
  unfolding for_profile
  for_profile-IsOrdered p = ground arith

  -- Under the policy of a profile, every granted retry waits at most the profile's maximum: both
  -- the server's pushback and the jitter stay below it.
  retry-le-max_backoff :
      (p : ResilienceProfile) (status : Status) (attempt : ℕ) (budget after : RetryBudgetTracker)
      (admission : RetryAdmission) (remaining : Duration) (backoff_ms : ℕ)
      → IsDraw draw
      → should_retry_call_with_pushback tonic draw
          (for_profile tonic p)
          status
          attempt
          budget
          admission
          remaining
        ≡ (after, retry backoff_ms)
      → backoff_ms ≤ (for_profile tonic p).max_backoff_ms
  unfolding should_retry_call_with_pushback effective_retry_backoff_ms consume
  retry-le-max_backoff p status attempt budget after admission remaining backoff_ms d e = ground (
    arith,
    retry_backoff_ms-le-max draw (for_profile tonic p) attempt d (for_profile-IsOrdered p),
  )

  for_profile-max : (p : ResilienceProfile) → (for_profile tonic p).max_backoff_ms ≤ 2_000
  unfolding for_profile
  for_profile-max p = ground arith

  required_ms-small : (b m : ℕ) → b ≤ 2_000 → required_ms b ≤ m → b + max (b / 2) 10 ≤ m
  required_ms-small b m h k = omega arith

  -- Under the policy of a profile, a granted retry leaves the deadline room for the delay, and after
  -- it for half the delay again and for ten milliseconds, where the time left is a `u64` of
  -- milliseconds.
  retry-room :
      (p : ResilienceProfile) (status : Status) (attempt : ℕ) (budget after : RetryBudgetTracker)
      (admission : RetryAdmission) (remaining : Duration) (backoff_ms : ℕ)
      → IsDraw draw
      → as_millis remaining ≤ u64_max
      → should_retry_call_with_pushback tonic draw
          (for_profile tonic p)
          status
          attempt
          budget
          admission
          remaining
        ≡ (after, retry backoff_ms)
      → backoff_ms + max (backoff_ms / 2) 10 ≤ as_millis remaining
  retry-room p status attempt budget after admission remaining backoff_ms d h e =
      let granted =
        (should_retry_call_with_pushback_iff tonic draw (for_profile tonic p) status attempt budget
            admission remaining backoff_ms after).0
          e in
      let short =
        retry-le-max_backoff p status attempt budget after admission remaining backoff_ms d e in
      required_ms-small backoff_ms (as_millis remaining) (omega (arith, short, for_profile-max p))
        (deadline_covers_backoff-room backoff_ms remaining h granted.covered)

  -- Writes that are critical and streams are never retried, whatever the status, the attempt, the
  -- budget and the deadline.
  critical-stop :
      (p : ResilienceProfile) (status : Status) (attempt : ℕ) (budget : RetryBudgetTracker)
      (admission : RetryAdmission) (remaining : Duration)
      → (p ≡ rpc_critical_write) ⊎ (p ≡ rpc_stream)
      → should_retry_call_with_pushback tonic draw
          (for_profile tonic p)
          status
          attempt
          budget
          admission
          remaining
        ≡ (budget, stop)
  unfolding should_retry_call_with_pushback code_allowed retryable for_profile
  critical-stop p status attempt budget admission remaining h = ground arith

  -- The wrapper that takes no deadline decides by the admission, the attempts and the whitelist,
  -- and takes a token exactly then.
  should_retry_call-eq :
      (policy : RetryPolicy Code) (c : Code) (attempt : ℕ) (budget : RetryBudgetTracker)
      (admission : RetryAdmission)
      → should_retry_call tonic draw policy c attempt budget admission ≡ (
          if allows_retry_metadata admission
            && ltb attempt policy.max_attempts
            && allows_retry tonic policy c budget.remaining
          then consume budget
          else (budget, false))
  unfolding should_retry_call
  should_retry_call-eq policy c attempt budget admission =
      ground (arith, deadline_covers_backoff-max (retry_backoff_ms draw policy attempt))
