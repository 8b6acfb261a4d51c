-- ===== src/Resilience/CircuitBreaker.antt =====
-- crates/sdkwork-rpc-resilience/src/circuit_breaker.rs, called by one thread at a time. Each read of
-- the clock is an argument: the nanoseconds since `created_at`.
pub mod Machine
pub mod Probes
pub mod Threads
use sdkwork_rpc_framework.Prelude.{
  ℕ, ◌+◌, ◌-◌, ◌%◌, ◌^◌, Bool, true, false, ltb, leb, ◌==◌, if◌then◌else◌,
}
use sdkwork_rpc_framework.Prelude.Rust.{Duration, from_secs, saturating_add_u32}

pub data CircuitBreakerState : Type 0 where
  closed opened half_open : CircuitBreakerState

abbrev pub closed_u8 : ℕ
closed_u8 = 0

abbrev pub open_u8 : ℕ
open_u8 = 1

abbrev pub half_open_u8 : ℕ
half_open_u8 = 2

unfoldable pub from_u8 : ℕ → CircuitBreakerState
from_u8 value =
    if value == open_u8 then opened else if value == half_open_u8 then half_open else closed

-- What a method returns: whether a request may proceed, the state, or nothing.
pub data Answer : Type 0 where
  allowed : (granted : Bool) → Answer
  seen : (state : CircuitBreakerState) → Answer
  recorded : Answer

pub record CircuitBreakerConfig : Type 0 where
  pub failure_threshold : ℕ
  pub recovery_timeout : Duration
  pub half_open_max_probes : ℕ

abbrev pub default_config : CircuitBreakerConfig
default_config = record {
  failure_threshold = 5;
  recovery_timeout = from_secs 30;
  half_open_max_probes = 1;
}

pub record CircuitBreaker : Type 0 where
  pub config : CircuitBreakerConfig
  pub open config use *
  pub state : ℕ
  pub consecutive_failures : ℕ
  pub half_open_probes : ℕ
  pub opened_at_nanos : ℕ

unfoldable pub new : CircuitBreakerConfig → CircuitBreaker
new config = record {
  config = config;
  state = closed_u8;
  consecutive_failures = 0;
  half_open_probes = 0;
  opened_at_nanos = 0;
}

-- `opened_at.elapsed()` is zero where the clock stands before `opened_at`.
unfoldable pub refresh_state : ℕ → CircuitBreaker → CircuitBreaker
unfolding from_u8
refresh_state now b = elim (from_u8 b.state) [
  | opened ↦
      if b.opened_at_nanos == 0
      then b
      else if ltb (now - b.opened_at_nanos) b.recovery_timeout
      then b
      else record b { state = half_open_u8; half_open_probes = 0; consecutive_failures = 0 }
  | _ ↦ b
]

-- `state()` also applies the recovery transition.
unfoldable pub read_state : ℕ → CircuitBreaker → CircuitBreaker × CircuitBreakerState
unfolding refresh_state
read_state now b = (refresh_state now b, from_u8 (refresh_state now b).state)

-- The compare-and-exchange succeeds at once where no other thread interferes.
unfoldable pub acquire_half_open_probe : CircuitBreaker → CircuitBreaker × Bool
acquire_half_open_probe b =
    if leb b.half_open_max_probes b.half_open_probes
    then (b, false)
    else (record b { half_open_probes = saturating_add_u32 b.half_open_probes 1 }, true)

unfoldable pub admit : CircuitBreakerState → CircuitBreaker → CircuitBreaker × Bool
unfolding acquire_half_open_probe
admit closed b = (b, true)
admit opened b = (b, false)
admit half_open b = acquire_half_open_probe b

unfoldable pub allow_request : ℕ → CircuitBreaker → CircuitBreaker × Bool
unfolding refresh_state admit
allow_request now b = admit (from_u8 (refresh_state now b).state) (refresh_state now b)

unfoldable pub record_success : ℕ → CircuitBreaker → CircuitBreaker
unfolding refresh_state
record_success now b = record (refresh_state now b) {
  state = closed_u8;
  consecutive_failures = 0;
  half_open_probes = 0;
  opened_at_nanos = 0;
}

-- `elapsed().as_nanos() as u64` keeps the low 64 bits.
unfoldable pub open_breaker : ℕ → CircuitBreaker → CircuitBreaker
open_breaker now b = record b {
  state = open_u8;
  opened_at_nanos = now % 2 ^ 64;
  half_open_probes = 0;
}

-- `fetch_add` wraps around; the number that is compared saturates.
unfoldable pub count_failure : ℕ → CircuitBreaker → CircuitBreaker
unfolding open_breaker
count_failure now b =
    let b' = record b { consecutive_failures = (b.consecutive_failures + 1) % 2 ^ 32 } in
    let failures = saturating_add_u32 b.consecutive_failures 1 in
    if leb b.failure_threshold failures then open_breaker now b' else b'

-- The clock is read by `refresh_state` and, later, by `open`.
unfoldable pub record_failure : ℕ → ℕ → CircuitBreaker → CircuitBreaker
unfolding refresh_state count_failure open_breaker
record_failure now later b = elim (from_u8 (refresh_state now b).state) [
  | half_open ↦ open_breaker later (refresh_state now b)
  | _ ↦ count_failure later (refresh_state now b)
]
