-- ===== src/Resilience/CircuitBreaker/Threads.antt =====
-- crates/sdkwork-rpc-resilience/src/circuit_breaker.rs, shared by threads: every atomic operation is one
-- step, between which any other thread may step. The clock is read at the step that uses it.
pub mod Grants
pub mod Progress
pub mod Alone
pub mod Methods
pub mod Stale
use sdkwork_rpc_framework.Prelude.{
  ℕ, ◌+◌, ◌-◌, ◌%◌, ◌^◌, Bool, true, false, List, [], ◌∷◌, ltb, leb, ◌==◌, if◌then◌else◌,
}
use sdkwork_rpc_framework.Prelude.Rust.{saturating_add_u32}
use sdkwork_rpc_framework.Resilience.CircuitBreaker.{
  CircuitBreakerState, closed, opened, half_open, closed_u8, open_u8, half_open_u8, from_u8,
  CircuitBreakerConfig, Answer, allowed, seen, recorded,
}

-- The atomics.
pub record Words : Type 0 where
  pub state : ℕ
  pub consecutive_failures : ℕ
  pub half_open_probes : ℕ
  pub opened_at_nanos : ℕ

-- `read_state` is a call of `state`.
pub data Call : Type 0 where
  read_state allow_request record_success record_failure : Call

-- The next atomic operation of a thread. First those of `refresh_state`, for its call, then those
-- of `acquire_half_open_probe`, `record_success`, `record_failure` and `open`.
pub data Pc : Type 0 where
  load_state load_opened_at store_probes store_failures refreshed : (call : Call) → Pc
  exchange_state : (call : Call) → (observed : ℕ) → Pc
  load_probes : Pc
  exchange_probes : (observed : ℕ) → Pc
  close_failures close_probes close_opened_at : Pc
  add_failure : Pc
  swap_open store_opened_at open_probes : Pc
  returned : (answer : Answer) → Pc

-- What a step does to the probe counter.
pub data Note : Type 0 where
  silent granted reset : Note

abbrev pub Outcome : Type 0
Outcome = Words × Pc × Note

-- `refresh_state` returns unless the breaker is open.
abbrev pub on_observed : CircuitBreakerState → Call → Pc
on_observed opened call = load_opened_at call
on_observed _ call = refreshed call

abbrev pub on_opened_at : CircuitBreakerConfig → ℕ → ℕ → Call → Pc
on_opened_at config now opened_nanos call =
    if opened_nanos == 0
    then refreshed call
    else if ltb (now - opened_nanos) config.recovery_timeout
    then refreshed call
    else exchange_state call open_u8

abbrev pub on_allow : CircuitBreakerState → Pc
on_allow closed = returned (allowed true)
on_allow opened = returned (allowed false)
on_allow half_open = load_probes

abbrev pub on_failure : CircuitBreakerState → Pc
on_failure half_open = swap_open
on_failure _ = add_failure

-- The first operation of a call after its `refresh_state`.
abbrev call_step : Words → Call → Outcome
call_step words read_state = (words, returned (seen (from_u8 words.state)), silent)
call_step words allow_request = (words, on_allow (from_u8 words.state), silent)
call_step words record_success = (record words { state = closed_u8 }, close_failures, silent)
call_step words record_failure = (words, on_failure (from_u8 words.state), silent)

-- One atomic operation of a thread; a thread that has returned makes the next call.
unfoldable pub thread_step : CircuitBreakerConfig → ℕ → Call → Words → Pc → Outcome
unfolding from_u8
thread_step config now next words (load_state call) =
    (words, on_observed (from_u8 words.state) call, silent)
thread_step config now next words (load_opened_at call) =
    (words, on_opened_at config now words.opened_at_nanos call, silent)
thread_step config now next words (exchange_state call observed) =
    if words.state == observed
    then (record words { state = half_open_u8 }, store_probes call, silent)
    else (words, refreshed call, silent)
thread_step config now next words (store_probes call) =
    (record words { half_open_probes = 0 }, store_failures call, reset)
thread_step config now next words (store_failures call) =
    (record words { consecutive_failures = 0 }, refreshed call, silent)
thread_step config now next words (refreshed call) = call_step words call
thread_step config now next words load_probes =
    if leb config.half_open_max_probes words.half_open_probes
    then (words, returned (allowed false), silent)
    else (words, exchange_probes words.half_open_probes, silent)
thread_step config now next words (exchange_probes observed) =
    if words.half_open_probes == observed
    then (
      record words { half_open_probes = saturating_add_u32 observed 1 },
      returned (allowed true),
      granted,
    )
    else (words, load_probes, silent)
thread_step config now next words close_failures =
    (record words { consecutive_failures = 0 }, close_probes, silent)
thread_step config now next words close_probes =
    (record words { half_open_probes = 0 }, close_opened_at, reset)
thread_step config now next words close_opened_at =
    (record words { opened_at_nanos = 0 }, returned recorded, silent)
thread_step config now next words add_failure =
    let failures = saturating_add_u32 words.consecutive_failures 1 in
    (
      record words { consecutive_failures = (words.consecutive_failures + 1) % 2 ^ 32 },
      if leb config.failure_threshold failures then swap_open else returned recorded,
      silent,
    )
thread_step config now next words swap_open =
    (record words { state = open_u8 }, store_opened_at, silent)
thread_step config now next words store_opened_at =
    (record words { opened_at_nanos = now % 2 ^ 64 }, open_probes, silent)
thread_step config now next words open_probes =
    (record words { half_open_probes = 0 }, returned recorded, reset)
thread_step config now next words (returned answer) = (words, load_state next, silent)

-- The breaker with its threads, by number.
pub record System : Type 0 where
  pub words : Words
  pub threads : ℕ → Pc

abbrev pub idle : System
idle = record {
  words = record {
    state = closed_u8;
    consecutive_failures = 0;
    half_open_probes = 0;
    opened_at_nanos = 0;
  };
  threads = λ thread. returned recorded;
}

-- A turn of a schedule: whose, at which reading of the clock, and the call that a thread would make.
pub record Turn : Type 0 where
  pub thread : ℕ
  pub now : ℕ
  pub next : Call

unfoldable pub turn : CircuitBreakerConfig → Turn → System → System × Note
unfolding thread_step
turn config t system =
    let (words, pc, note) =
      thread_step config t.now t.next system.words (system.threads t.thread) in
    (
      record {
        words = words;
        threads = λ thread. if thread == t.thread then pc else system.threads thread;
      },
      note,
    )

-- A schedule from a system, with the notes of its turns in their order.
unfoldable pub schedule : CircuitBreakerConfig → System → List Turn → System × List Note
unfolding turn
schedule config system [] = (system, [])
schedule config system (t ∷ turns) =
    let (next, note) = turn config t system in
    let (last, notes) = schedule config next turns in (last, note ∷ notes)
