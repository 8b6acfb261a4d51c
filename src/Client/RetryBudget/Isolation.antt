-- ===== src/Client/RetryBudget/Isolation.antt =====
-- The registry of crates/sdkwork-rpc-client/src/retry_budget.rs at whole seconds and whole rates: each
-- service has an account of its own.
use Prim.Native.String.{String}
use text.Mathlib.Text.{◌==◌ as str_eq}
use text.Mathlib.TextEquality.{eq_iff}
use sdkwork_rpc_framework.Prelude.Rust.{u32_max, from_secs}
use sdkwork_rpc_framework.Prelude.Map.{lookup, lookup-insert}
use sdkwork_rpc_framework.Prelude.{
  ℕ, ◌+◌, ◌*◌, ◌≤◌, Bool, Option, none, some, List, [], ◌∷◌, if◌then◌else◌, All, arith, ◌≡◌, refl,
  subst, ap, ◌∙◌, inl, inr, Bool-cases,
}
use sdkwork_rpc_framework.External.{Doubles}
use sdkwork_rpc_framework.Client.RetryBudget.{
  try_consume, RetryBudgetRegistry, new, refilled, put_bucket, try_acquire,
}
use sdkwork_rpc_framework.Client.RetryBudget.Exact.{
  horizon, bucket_of, buckets_of, AllFit, spend-of,
}
use sdkwork_rpc_framework.Client.RetryBudget.Account.{Account, spend, answers_of, grants, grants-le}

-- Acquisitions of services, at seconds of the clock.
pub record Call : Type 0 where
  pub service_name : String
  pub second : ℕ

unfoldable pub seconds_for : String → List Call → List ℕ
seconds_for name [] = []
seconds_for name (call ∷ calls) =
    let rest = seconds_for name calls in
    if str_eq name call.service_name then call.second ∷ rest else rest

All-horizon :
    (start span : ℕ) (calls : List Call)
    → start + span ≤ horizon
    → All (λ call. (start ≤ call.second) × (call.second ≤ start + span)) calls
    → All (λ call. call.second ≤ horizon) calls
All-horizon start span [] fits within = tt
All-horizon start span (call ∷ calls) fits within =
    (omega (arith, within.0.1), All-horizon start span calls fits within.1)

All-seconds_for :
    (name : String) (start end : ℕ) (calls : List Call)
    → All (λ call. (start ≤ call.second) × (call.second ≤ end)) calls
    → All (λ second. (start ≤ second) × (second ≤ end)) (seconds_for name calls)
unfolding seconds_for
All-seconds_for name start end [] within = tt
All-seconds_for name start end (call ∷ calls) within =
    ground (arith, All-seconds_for name start end calls within.1)

module _ (doubles : Doubles) where
  open doubles use {of_ℕ}

  -- The answers to one service, of a registry that serves many.
  unfoldable pub answers_for : String → RetryBudgetRegistry doubles → List Call → List Bool
  answers_for name registry [] = []
  answers_for name registry (call ∷ calls) =
      let clock = from_secs call.second in
      let (next, granted) = try_acquire doubles clock clock call.service_name registry in
      let rest = answers_for name next calls in
      if str_eq name call.service_name then granted ∷ rest else rest

  answers_for-account :
      (name : String) (registry : RetryBudgetRegistry doubles) (rate : ℕ) (found : Option Account)
      (calls : List Call)
      → registry.config.refill_per_second ≡ of_ℕ rate
      → registry.config.capacity ≤ u32_max
      → rate ≤ u32_max
      → All (λ call. call.second ≤ horizon) calls
      → lookup name registry.inner ≡ buckets_of doubles found
      → AllFit registry.config.capacity found
      → answers_for name registry calls
        ≡ answers_of registry.config.capacity rate found (seconds_for name calls)
  unfolding answers_for seconds_for answers_of try_acquire refilled
  answers_for-account name registry rate found [] whole c r within kept fits = refl
  answers_for-account name registry rate found (call ∷ calls) whole c r within kept fits =
      elim (Bool-cases (str_eq name call.service_name)) [
        | inl ours ↦
            let clock = from_secs call.second in
            let spent = spend registry.config.capacity rate call.second found in
            let (consumed, fine) =
              spend-of doubles registry.config rate call.second found whole c r within.0 fits in
            let here : lookup call.service_name registry.inner ≡ buckets_of doubles found =
              subst (λ service. lookup service registry.inner ≡ buckets_of doubles found)
                ((eq_iff name call.service_name).0 ours) kept in
            let next = put_bucket doubles call.service_name (bucket_of doubles spent.0) registry in
            rw (ours, here, consumed)
              (ap (λ rest. spent.1 ∷ rest)
                (answers_for-account name next rate (some spent.0) calls whole c r within.1
                  (lookup-insert name call.service_name (bucket_of doubles spent.0) registry.inner
                    ∙ rw ours refl)
                  fine))
        | inr other ↦
            let clock = from_secs call.second in
            let bucket =
              (try_consume doubles (refilled doubles clock clock call.service_name registry)).0 in
            rw other (
              answers_for-account name (put_bucket doubles call.service_name bucket registry) rate
                found calls whole c r within.1
                (lookup-insert name call.service_name bucket registry.inner ∙ rw other kept) fits)
      ]

  lookup-nil : (name : String) → lookup name [] ≡ buckets_of doubles none
  unfolding lookup
  lookup-nil name = refl

  -- A registry with a whole rate, whose calls come in whole seconds of the clock up to `horizon`,
  -- answers each service as that service's own account would, whatever other services acquire in
  -- between; the capacity and the rate are 32-bit numbers.
  pub answers_for-eq-account :
      (name : String) (capacity rate : ℕ) (calls : List Call)
      → capacity ≤ u32_max
      → rate ≤ u32_max
      → All (λ call. call.second ≤ horizon) calls
      → answers_for name
          (new doubles (record { capacity = capacity; refill_per_second = of_ℕ rate }))
          calls
        ≡ answers_of capacity rate none (seconds_for name calls)
  answers_for-eq-account name capacity rate calls c r within =
      answers_for-account name
        (new doubles (record { capacity = capacity; refill_per_second = of_ℕ rate })) rate none
        calls refl c r within (lookup-nil name) tt

  -- A registry with a whole rate, where every call of any service comes in a whole second of the clock
  -- from `start` to `start + span`, up to `horizon`, grants one service at most
  -- `capacity + rate * span` retries; the capacity and the rate are 32-bit numbers.
  pub grants-answers_for :
      (name : String) (capacity rate start span : ℕ) (calls : List Call)
      → capacity ≤ u32_max
      → rate ≤ u32_max
      → start + span ≤ horizon
      → All (λ call. (start ≤ call.second) × (call.second ≤ start + span)) calls
      → grants (
          answers_for name
            (new doubles (record { capacity = capacity; refill_per_second = of_ℕ rate }))
            calls)
        ≤ capacity + rate * span
  grants-answers_for name capacity rate start span calls c r fits within =
      rw
        (answers_for-eq-account name capacity rate calls c r
          (All-horizon start span calls fits within))
        (grants-le capacity rate start span (seconds_for name calls)
          (All-seconds_for name start (start + span) calls within))
