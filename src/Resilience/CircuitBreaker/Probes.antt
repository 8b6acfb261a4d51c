-- ===== src/Resilience/CircuitBreaker/Probes.antt =====
-- Opening, waiting and probing: what runs of calls do to the breaker of
-- crates/sdkwork-rpc-resilience/src/circuit_breaker.rs.
use native.Mathlib.Nat.{zero-add}
use sdkwork_rpc_framework.Prelude.{
  ℕ, suc, ◌+◌, ◌-◌, ◌%◌, ◌^◌, ◌≤◌, ◌<◌, min, ◌≡◌, refl, subst, ap, ◌∙◌, true, false, List, [], ◌∷◌,
  map, arith, All, ◌⊎◌, inl, inr, leb, if◌then◌else◌, length,
}
use sdkwork_rpc_framework.Prelude.Rust.{u32_max, saturating_add_u32}
use sdkwork_rpc_framework.Resilience.CircuitBreaker.{
  CircuitBreaker, CircuitBreakerConfig, closed, opened, open_u8, half_open_u8, from_u8, new, Answer,
  allowed, seen, recorded, half_open, refresh_state, count_failure, CircuitBreakerState, read_state,
  allow_request, record_failure,
}
use sdkwork_rpc_framework.Resilience.CircuitBreaker.Machine.{
  Call, inspect, request, success, failure, step, run, answers, step-config,
}

-- The clock readings of a failed call, in the order of its two reads.
abbrev pub Clocks : Type 0
Clocks = ℕ × ℕ

abbrev pub failed : Clocks → Call
failed (now, later) = failure now later

-- How many of the calls were let through.
abbrev pub granted : List Answer → ℕ
granted [] = 0
granted (allowed true ∷ given) = suc (granted given)
granted (_ ∷ given) = granted given

-- After `n` failures of a closed breaker: still counting below the threshold, open from it on.
record AfterFailures (n : ℕ) (b : CircuitBreaker) : Type 0 where
  state_lem : from_u8 b.state ≡ (if leb b.failure_threshold n then opened else closed)
  counting : from_u8 b.state ≡ closed → b.consecutive_failures ≡ n

failure-AfterFailures :
    (n : ℕ) (b : CircuitBreaker) (t : Clocks)
    → AfterFailures n b
    → 0 < b.failure_threshold
    → n < u32_max
    → AfterFailures (suc n) (step b (failed t)).0
unfolding step record_failure from_u8
failure-AfterFailures n b (now, later) a p h = ground arith

failures-AfterFailures :
    (n : ℕ) (b : CircuitBreaker) (ts : List Clocks)
    → AfterFailures n b
    → 0 < b.failure_threshold
    → n + length ts ≤ u32_max
    → AfterFailures (n + length ts) (run b (map failed ts))
unfolding run
failures-AfterFailures n b [] a p h = subst (λ k. AfterFailures k b) (omega arith) a
failures-AfterFailures n b (t ∷ ts) a p h =
    subst (λ k. AfterFailures k (run (step b (failed t)).0 (map failed ts))) (omega arith)
      (failures-AfterFailures (suc n) (step b (failed t)).0 ts
        (failure-AfterFailures n b t a p (omega arith)) (rw (step-config b (failed t)) p)
        (omega arith))

run-config : (b : CircuitBreaker) (cs : List Call) → (run b cs).config ≡ b.config
unfolding run
run-config b [] = refl
run-config b (c ∷ cs) = run-config (step b c).0 cs ∙ step-config b c

new-config : (c : CircuitBreakerConfig) → (new c).config ≡ c
unfolding new
new-config c = refl

new-AfterFailures : (c : CircuitBreakerConfig) → 0 < c.failure_threshold → AfterFailures 0 (new c)
unfolding new from_u8
new-AfterFailures c p = ground arith

-- Failures in a row open a new breaker exactly when they reach the threshold, whenever they come,
-- if they are fewer than 2 ^ 32 and the threshold is not zero.
pub run-failures :
    (c : CircuitBreakerConfig) (ts : List Clocks)
    → 0 < c.failure_threshold
    → length ts ≤ u32_max
    → from_u8 (run (new c) (map failed ts)).state
      ≡ (if leb c.failure_threshold (length ts) then opened else closed)
run-failures c ts p h =
    subst
      (λ k.
        from_u8 (run (new c) (map failed ts)).state
        ≡ (if leb k (length ts) then opened else closed))
      (ap (λ (x : CircuitBreakerConfig). x.failure_threshold)
        (run-config (new c) (map failed ts) ∙ new-config c))
      (rw zero-add at (
        (failures-AfterFailures 0 (new c) ts (new-AfterFailures c p) (rw (new-config c) p)
          (omega arith)).state_lem))

-- A half-open breaker lets exactly as many of the next requests through as probe slots are left.
granted-answers :
    (b : CircuitBreaker) (nows : List ℕ)
    → b.state ≡ half_open_u8
    → b.half_open_probes ≤ b.half_open_max_probes
    → b.half_open_max_probes ≤ u32_max
    → granted (answers b (map request nows))
      ≡ min (length nows) (b.half_open_max_probes - b.half_open_probes)
unfolding answers step allow_request
granted-answers b [] e h k = omega arith
granted-answers b (now ∷ nows) e h k = ground (arith, granted-answers (allow_request now b).0 nows)

-- An open breaker refuses every request that comes within its recovery timeout, and stays as it is.
pub waiting-refuses :
    (b : CircuitBreaker) (now : ℕ)
    → b.state ≡ open_u8
    → now - b.opened_at_nanos < b.recovery_timeout
    → allow_request now b ≡ (b, false)
unfolding allow_request
waiting-refuses b now e h = ground arith

-- A call that only asks, and what an open breaker answers to it.
abbrev pub IsInquiry : Call → Type 0
IsInquiry (inspect now) = Unit {0}
IsInquiry (request now) = Unit {0}
IsInquiry _ = ⊥

abbrev pub refusal : Call → Answer
refusal (inspect now) = seen opened
refusal (request now) = allowed false
refusal _ = recorded

stuck-step :
    (b : CircuitBreaker) (c : Call)
    → b.state ≡ open_u8
    → b.opened_at_nanos ≡ 0
    → IsInquiry c
    → step b c ≡ (b, refusal c)
unfolding step read_state allow_request
stuck-step b (inspect now) e h k = ground arith
stuck-step b (request now) e h k = ground arith
stuck-step b (success now) e h k = elim k [ ]
stuck-step b (failure now later) e h k = elim k [ ]

stuck :
    (b : CircuitBreaker) (cs : List Call)
    → b.state ≡ open_u8
    → b.opened_at_nanos ≡ 0
    → All IsInquiry cs
    → (run b cs ≡ b) × (answers b cs ≡ map refusal cs)
unfolding run answers
stuck b [] e h k = (refl, refl)
stuck b (c ∷ cs) e h (k, ks) =
    rw (stuck-step b c e h k) (let (stays, refused) = stuck b cs e h ks in (stays, rw refused refl))

-- Open since this time.
abbrev IsOpened : ℕ → CircuitBreaker → Type 0
IsOpened later b = (b.state ≡ open_u8) × (b.opened_at_nanos ≡ later % 2 ^ 64)

count_failure-IsOpened :
    (later : ℕ) (b : CircuitBreaker)
    → b.failure_threshold ≤ saturating_add_u32 b.consecutive_failures 1
    → IsOpened later (count_failure later b)
unfolding count_failure
count_failure-IsOpened later b h = ground arith

refresh_state-config : (now : ℕ) (b : CircuitBreaker) → (refresh_state now b).config ≡ b.config
unfolding refresh_state
refresh_state-config now b = ground arith

-- A failure opens a breaker that is half open, or that reaches the threshold with it.
abbrev pub Reaches : ℕ → CircuitBreaker → CircuitBreakerState → Type 0
Reaches now b s =
    (s ≡ half_open)
    ⊎ (b.failure_threshold ≤ saturating_add_u32 (refresh_state now b).consecutive_failures 1)

reached-IsOpened :
    (now later : ℕ) (b : CircuitBreaker)
    → b.failure_threshold ≤ saturating_add_u32 (refresh_state now b).consecutive_failures 1
    → IsOpened later (count_failure later (refresh_state now b))
reached-IsOpened now later b h =
    count_failure-IsOpened later (refresh_state now b) (rw (refresh_state-config now b) h)

failure-IsOpened :
    (now later : ℕ) (b : CircuitBreaker) (s : CircuitBreakerState)
    → from_u8 (refresh_state now b).state ≡ s
    → Reaches now b s
    → IsOpened later (record_failure now later b)
unfolding record_failure
failure-IsOpened now later b half_open e h = rw (record_failure, e) (refl, refl)
failure-IsOpened now later b closed e (inl same) = absurd (cc same)
failure-IsOpened now later b opened e (inl same) = absurd (cc same)
failure-IsOpened now later b closed e (inr reached) =
    rw (record_failure, e) (reached-IsOpened now later b reached)
failure-IsOpened now later b opened e (inr reached) =
    rw (record_failure, e) (reached-IsOpened now later b reached)

-- A failure that makes a breaker open, as it is half open or at its threshold, while the clock reads
-- zero modulo 2 ^ 64, leaves it open for all calls that only ask: however late they come, requests
-- are refused, the state is told as open, and the breaker stays as it is.
pub stuck-refuses :
    (b : CircuitBreaker) (now later : ℕ) (calls : List Call)
    → Reaches now b (from_u8 (refresh_state now b).state)
    → later % 2 ^ 64 ≡ 0
    → All IsInquiry calls
    → (run (record_failure now later b) calls ≡ record_failure now later b)
      × (answers (record_failure now later b) calls ≡ map refusal calls)
stuck-refuses b now later calls reaches zeroed asking =
    let (open_, since) = failure-IsOpened now later b _ refl reaches in
    stuck (record_failure now later b) calls open_ (since ∙ zeroed) asking
