-- ===== src/Tests/Breaker.antt =====
-- A breaker that opens on the second failure and lets two probes out: the theorems on
-- crates/sdkwork-rpc-resilience/src/circuit_breaker.rs at short runs.
use sdkwork_rpc_framework.Prelude.{◌≡◌, refl, inr, List, [], ◌∷◌, map, arith}
use sdkwork_rpc_framework.Prelude.Rust.{from_secs}
use sdkwork_rpc_framework.Resilience.CircuitBreaker.{
  refresh_state, CircuitBreaker, CircuitBreakerConfig, opened, half_open_u8, from_u8, new,
  record_failure,
}
use sdkwork_rpc_framework.Resilience.CircuitBreaker.Machine.{
  Call, inspect, request, success, failure, run, answers, machine_answers, closed_after,
  answers-machine_answers,
}
use sdkwork_rpc_framework.Resilience.CircuitBreaker.Probes.{
  failed, refusal, run-failures, stuck-refuses,
}

abbrev config : CircuitBreakerConfig
config = record { failure_threshold = 2; recovery_timeout = from_secs 30; half_open_max_probes = 2 }

-- Two failures, a look and a request too early, and, thirty seconds later, a probe that succeeds.
abbrev calls : List Call
calls =
    request 1
    ∷ failure 1 2
    ∷ failure 3 4
    ∷ inspect 5
    ∷ request 5
    ∷ request (from_secs 31)
    ∷ success (from_secs 32)
    ∷ request (from_secs 33)
    ∷ []

answers-machine_answers_example :
    answers (new config) calls ≡ machine_answers config (closed_after 0) calls
answers-machine_answers_example =
    answers-machine_answers config calls (omega arith)
      (
        tt,
        (
          (omega arith, omega arith),
          ((omega arith, omega arith), (tt, (tt, (tt, (tt, (tt, tt)))))),
        ),
      )
      (omega arith)

run-failures_example : from_u8 (run (new config) (map failed ((1, 2) ∷ (3, 4) ∷ []))).state ≡ opened
run-failures_example = run-failures config ((1, 2) ∷ (3, 4) ∷ []) (omega arith) (omega arith)

abbrev probing : CircuitBreaker
probing = record {
  config = config;
  state = half_open_u8;
  consecutive_failures = 0;
  half_open_probes = 1;
  opened_at_nanos = 7;
}

abbrev asking : List Call
asking = request (from_secs 31) ∷ inspect (from_secs 32) ∷ request (from_secs 3_600) ∷ []

-- The second of two failures, both at time zero.
stuck-refuses_example :
    (run (record_failure 0 0 (record_failure 0 0 (new config))) asking
      ≡ record_failure 0 0 (record_failure 0 0 (new config)))
    × (answers (record_failure 0 0 (record_failure 0 0 (new config))) asking ≡ map refusal asking)
unfolding record_failure refresh_state new
stuck-refuses_example =
    stuck-refuses (record_failure 0 0 (new config)) 0 0 asking (inr (omega arith)) refl
      (tt, (tt, (tt, tt)))
