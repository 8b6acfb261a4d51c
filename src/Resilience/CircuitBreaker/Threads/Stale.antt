-- ===== src/Resilience/CircuitBreaker/Threads/Stale.antt =====
-- Two threads on a half-open breaker of crates/sdkwork-rpc-resilience/src/circuit_breaker.rs: one records a
-- failure, and the other asks between the two stores with which the first opens the breaker.
use sdkwork_rpc_framework.Prelude.{
  inl, inr, Bool-cases, ◌%◌, ℕ, ◌-◌, ◌≤◌, ◌<◌, ◌^◌, ◌≡◌, refl, true, false, List, ◌++◌, ltb, leb,
  ◌==◌, arith, replicate,
}
use sdkwork_rpc_framework.Resilience.CircuitBreaker.{
  CircuitBreakerConfig, allowed, recorded, open_u8, half_open_u8, from_u8, refresh_state, admit,
  open_breaker, acquire_half_open_probe, allow_request as allow_request_at_once,
  record_failure as record_failure_at_once,
}
use sdkwork_rpc_framework.Resilience.CircuitBreaker.Threads.{
  Words, allow_request, record_failure, returned, thread_step, System, Turn, turn, schedule,
}
use sdkwork_rpc_framework.Resilience.CircuitBreaker.Threads.Alone.{breaker_of}

-- Half open since an opening at this time.
abbrev pub trying : ℕ → ℕ → ℕ → Words
trying failures probes opened_at = record {
  state = half_open_u8;
  consecutive_failures = failures;
  half_open_probes = probes;
  opened_at_nanos = opened_at;
}

abbrev pub resting : Words → System
resting words = record { words = words; threads = λ thread. returned recorded }

-- Thread 0 records a failure, and thread 1 asks once the state says open.
abbrev pub overtaking : ℕ → List Turn
overtaking now =
    let fails : Turn = record { thread = 0; now = now; next = record_failure } in
    let asks : Turn = record { thread = 1; now = now; next = allow_request } in
    replicate 4 fails ++ replicate 9 asks ++ replicate 2 fails

overtaken :
    (config : CircuitBreakerConfig) (now failures probes opened_at : ℕ)
    → (opened_at == 0) ≡ false
    → ltb (now - opened_at) config.recovery_timeout ≡ false
    → leb config.half_open_max_probes 0 ≡ false
    → let (end, notes) =
        schedule config (resting (trying failures probes opened_at)) (overtaking now) in
      (end.words.state ≡ half_open_u8)
      × (end.threads 0 ≡ returned recorded)
      × (end.threads 1 ≡ returned (allowed true))
unfolding schedule turn thread_step from_u8
overtaken config now failures probes opened_at set over room =
    rw (set, over, room) (refl, refl, refl)

refused-after :
    (config : CircuitBreakerConfig) (now failures probes opened_at : ℕ)
    → now < 2 ^ 64
    → 0 < config.recovery_timeout
    → let b = breaker_of config (trying failures probes opened_at) in
      let (after, answer) = allow_request_at_once now (record_failure_at_once now now b) in
      (after.state ≡ open_u8) × (answer ≡ false)
unfolding allow_request_at_once record_failure_at_once open_breaker refresh_state admit from_u8
refused-after config now failures probes opened_at small timed =
    elim (Bool-cases (now % 2 ^ 64 == 0)) [
      | inl unset ↦ rw unset (refl, refl)
      | inr set ↦
          let early : ltb (now - now % 2 ^ 64) config.recovery_timeout ≡ true = ground arith in
          rw (set, early) (refl, refl)
    ]

opened-after :
    (config : CircuitBreakerConfig) (now failures probes opened_at : ℕ)
    → let b = breaker_of config (trying failures probes opened_at) in
      (record_failure_at_once now now (allow_request_at_once now b).0).state ≡ open_u8
unfolding allow_request_at_once record_failure_at_once open_breaker acquire_half_open_probe from_u8
opened-after config now failures probes opened_at =
    elim (Bool-cases (leb config.half_open_max_probes probes)) [
      | inl full ↦ rw full refl
      | inr room ↦ rw room refl
    ]

-- A failure on a half-open breaker whose opening lies the recovery timeout back, with at least one
-- probe allowed and a clock that 64 bits hold, can be lost to a request that overtakes it: in
-- one interleaving of the two calls, at one reading of the clock, the request is granted and the breaker
-- is half open when both have returned, while the two methods one after the other leave it
-- open in either order, and refuse the request where the failure comes first.
pub overtaking-reopens :
    (config : CircuitBreakerConfig) (now failures probes opened_at : ℕ)
    → 0 < opened_at
    → 0 < config.recovery_timeout
    → config.recovery_timeout ≤ now - opened_at
    → 0 < config.half_open_max_probes
    → now < 2 ^ 64
    → let words = trying failures probes opened_at in
      let b = breaker_of config words in
      let (end, notes) = schedule config (resting words) (overtaking now) in
      let (refusing, answer) = allow_request_at_once now (record_failure_at_once now now b) in
      ((end.words.state ≡ half_open_u8)
        × (end.threads 0 ≡ returned recorded)
        × (end.threads 1 ≡ returned (allowed true)))
      × ((refusing.state ≡ open_u8) × (answer ≡ false))
      × ((record_failure_at_once now now (allow_request_at_once now b).0).state ≡ open_u8)
overtaking-reopens config now failures probes opened_at set timed over room small = (
  overtaken config now failures probes opened_at (ground arith) (ground arith) (ground arith),
  refused-after config now failures probes opened_at small timed,
  opened-after config now failures probes opened_at,
)
