-- ===== src/Tests/Threads.antt =====
-- Three threads on one breaker: the theorem on interleavings of
-- crates/sdkwork-rpc-resilience/src/circuit_breaker.rs at a schedule in which two probes pass one limit.
use sdkwork_rpc_framework.Prelude.{
  true, false, ℕ, ◌+◌, ◌*◌, ◌≤◌, ◌≡◌, refl, List, ◌++◌, arith, replicate,
}
use sdkwork_rpc_framework.Resilience.CircuitBreaker.{
  CircuitBreakerConfig, allowed, seen, recorded, open_u8, half_open_u8,
  read_state as read_state_at_once, allow_request as allow_request_at_once,
  record_success as record_success_at_once, record_failure as record_failure_at_once,
}
use sdkwork_rpc_framework.Resilience.CircuitBreaker.Threads.{
  read_state, allow_request, record_success, record_failure, Words, load_state, returned, idle,
  System, Turn, schedule,
}
use sdkwork_rpc_framework.Resilience.CircuitBreaker.Threads.Grants.{
  since_reset, grants, resets, schedule-grants,
}
use sdkwork_rpc_framework.Resilience.CircuitBreaker.Threads.Alone.{words_of, breaker_of, run_alone}
use sdkwork_rpc_framework.Resilience.CircuitBreaker.Threads.Stale.{
  trying, resting, overtaking, overtaking-reopens,
}
use sdkwork_rpc_framework.Resilience.CircuitBreaker.Threads.Methods.{run_alone-methods}
use sdkwork_rpc_framework.Resilience.CircuitBreaker.Threads.Progress.{
  ReturnsWithin, schedule-returns,
}

abbrev config : CircuitBreakerConfig
config = record { failure_threshold = 1; recovery_timeout = 10; half_open_max_probes = 1 }

abbrev fails : Turn
fails = record { thread = 0; now = 5; next = record_failure }

abbrev asks : ℕ → Turn
asks thread = record { thread = thread; now = 100; next = allow_request }

-- Thread 0 opens the breaker. Thread 1 makes it half open, thread 2 gets a probe, and thread 1 resets the
-- counter and gets another.
abbrev turns : List Turn
turns = replicate 7 fails ++ replicate 4 (asks 1) ++ replicate 5 (asks 2) ++ replicate 5 (asks 1)

two_probes :
    ((schedule config idle turns).0.words.state ≡ half_open_u8)
    × (grants (schedule config idle turns).1 ≡ 2)
unfolding schedule
two_probes = (refl, refl)

schedule-grants_example :
    let (end, notes) = schedule config idle turns in
    (end.words.half_open_probes ≡ since_reset 0 notes)
    × (end.words.half_open_probes ≤ 1)
    × (grants notes ≤ 1 * resets notes + end.words.half_open_probes)
schedule-grants_example = schedule-grants config turns (omega arith)

-- Thread 2 is about to count its probe when thread 1 resets the counter.
abbrev reserving : System
reserving =
    (schedule config idle (replicate 7 fails ++ replicate 4 (asks 1) ++ replicate 4 (asks 2))).0

abbrev raced : List Turn
raced = replicate 1 (asks 1) ++ replicate 12 (asks 2)

schedule-returns_example : ReturnsWithin config reserving 2 raced
unfolding schedule
schedule-returns_example = schedule-returns config 2 raced reserving (omega arith)

-- A breaker that has been open for longer than its timeout.
abbrev tripped : Words
tripped = record { state = 1; consecutive_failures = 1; half_open_probes = 0; opened_at_nanos = 5 }

run_alone-methods_example :
    let b = breaker_of config tripped in
    (run_alone config 100 101 10 tripped (load_state read_state)
      ≡ (words_of (read_state_at_once 100 b).0, returned (seen (read_state_at_once 100 b).1)))
    × (run_alone config 100 101 10 tripped (load_state allow_request) ≡ (
      words_of (allow_request_at_once 100 b).0,
      returned (allowed (allow_request_at_once 100 b).1),
    ))
    × (run_alone config 100 101 10 tripped (load_state record_success)
        ≡ (words_of (record_success_at_once 100 b), returned recorded))
    × (run_alone config 100 101 10 tripped (load_state record_failure)
        ≡ (words_of (record_failure_at_once 100 101 b), returned recorded))
run_alone-methods_example = run_alone-methods config 100 101 tripped

overtaking-reopens_example :
    let words = trying 0 1 5 in
    let b = breaker_of config words in
    let (end, notes) = schedule config (resting words) (overtaking 100) in
    let (refusing, answer) = allow_request_at_once 100 (record_failure_at_once 100 100 b) in
    ((end.words.state ≡ half_open_u8)
      × (end.threads 0 ≡ returned recorded)
      × (end.threads 1 ≡ returned (allowed true)))
    × ((refusing.state ≡ open_u8) × (answer ≡ false))
    × ((record_failure_at_once 100 100 (allow_request_at_once 100 b).0).state ≡ open_u8)
overtaking-reopens_example =
    overtaking-reopens config 100 0 1 5 (omega arith) (omega arith) (omega arith) (omega arith)
      (omega arith)
