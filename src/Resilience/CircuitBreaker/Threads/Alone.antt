-- ===== src/Resilience/CircuitBreaker/Threads/Alone.antt =====
-- A thread of crates/sdkwork-rpc-resilience/src/circuit_breaker.rs that runs alone: its atomic operations in a
-- row, and the recovery transition with which each call begins.
use sdkwork_rpc_framework.Prelude.{
  ap, ◌∙◌, ℕ, zero, suc, ◌-◌, ◌≡◌, refl, true, false, if◌then◌else◌, inl, inr, ◌==◌, ltb,
  Bool-cases, arith,
}
use sdkwork_rpc_framework.Resilience.CircuitBreaker.{
  Answer, CircuitBreakerConfig, CircuitBreaker, CircuitBreakerState, half_open_u8, open_u8, from_u8,
  closed, opened, half_open, refresh_state,
}
use sdkwork_rpc_framework.Resilience.CircuitBreaker.Threads.{
  Words, Call, allow_request, Pc, load_state, load_opened_at, on_observed, on_opened_at,
  exchange_state, store_probes, store_failures, refreshed, returned, thread_step,
}
use sdkwork_rpc_framework.Resilience.CircuitBreaker.Threads.Progress.{has_returned}

-- The words of a breaker.
abbrev pub words_of : CircuitBreaker → Words
words_of b = record {
  state = b.state;
  consecutive_failures = b.consecutive_failures;
  half_open_probes = b.half_open_probes;
  opened_at_nanos = b.opened_at_nanos;
}

-- The breaker with these words.
abbrev pub breaker_of : CircuitBreakerConfig → Words → CircuitBreaker
breaker_of config words = record {
  config = config;
  state = words.state;
  consecutive_failures = words.consecutive_failures;
  half_open_probes = words.half_open_probes;
  opened_at_nanos = words.opened_at_nanos;
}

-- The clock, as `refresh_state` reads it and as `open` does.
abbrev pub reading : ℕ → ℕ → Pc → ℕ
reading now later (load_opened_at call) = now
reading now later _ = later

-- Some steps in a row, up to the end of the call.
unfoldable pub run_alone : CircuitBreakerConfig → ℕ → ℕ → ℕ → Words → Pc → Words × Pc
unfolding thread_step
run_alone config now later zero words pc = (words, pc)
run_alone config now later (suc n) words pc =
    let (moved, next, note) = thread_step config (reading now later pc) allow_request words pc in
    let rest = run_alone config now later n moved next in
    if has_returned pc then (words, pc) else rest

open-state : (value : ℕ) → from_u8 value ≡ opened → (value == open_u8) ≡ true
unfolding from_u8
open-state value e = ground arith

module _ (config : CircuitBreakerConfig) (now later : ℕ) where
  abbrev pub run : ℕ → Words → Pc → Words × Pc
  run n words pc = run_alone config now later n words pc

  pub run-step :
      (n : ℕ) (words : Words) (pc : Pc)
      → has_returned pc ≡ false
      → let (moved, next, note) =
          thread_step config (reading now later pc) allow_request words pc in
        run (suc n) words pc ≡ run n moved next
  unfolding run_alone
  run-step n words pc going = rw going refl

  pub run-returned :
      (n : ℕ) (words : Words) (answer : Answer)
      → run n words (returned answer) ≡ (words, returned answer)
  unfolding run_alone
  run-returned zero words answer = refl
  run-returned (suc n) words answer = refl

  run-load_state :
      (n : ℕ) (words : Words) (call : Call) (s : CircuitBreakerState)
      → from_u8 words.state ≡ s
      → run (suc n) words (load_state call) ≡ run n words (on_observed s call)
  unfolding thread_step
  run-load_state n words call s e =
      run-step n words (load_state call) refl ∙ ap (λ s. run n words (on_observed s call)) e

  run-load_opened_at :
      (n : ℕ) (words : Words) (call : Call)
      → run (suc n) words (load_opened_at call)
        ≡ run n words (on_opened_at config now words.opened_at_nanos call)
  unfolding thread_step
  run-load_opened_at n words call = run-step n words (load_opened_at call) refl

  abbrev recovered : Words → Words
  recovered words = record words {
    state = half_open_u8;
    half_open_probes = 0;
    consecutive_failures = 0;
  }

  run-recover :
      (n : ℕ) (words : Words) (call : Call)
      → (words.state == open_u8) ≡ true
      → run (suc (suc (suc n))) words (exchange_state call open_u8)
        ≡ run n (recovered words) (refreshed call)
  unfolding thread_step
  run-recover n words call e =
      run-step (suc (suc n)) words (exchange_state call open_u8) refl
      ∙ rw e (run-step (suc n) _ (store_probes call) refl ∙ run-step n _ (store_failures call) refl)

  -- What is left of ten steps after the recovery transition.
  abbrev pub IsRefreshed : ℕ → Words → Call → Words × Pc → Type 0
  IsRefreshed n words call outcome =
      (rest : ℕ) × (outcome
        ≡ run (suc (suc (suc (suc (suc rest)))))
            (words_of (refresh_state now (breaker_of config words))) (refreshed call))

  recovery :
      (n : ℕ) (words : Words) (call : Call)
      → from_u8 words.state ≡ opened
      → IsRefreshed n words call (
          run
            (suc (suc (suc (suc (suc (suc (suc (suc n))))))))
            words
            (on_opened_at config now words.opened_at_nanos call))
  unfolding refresh_state
  recovery n words call e = elim (Bool-cases (words.opened_at_nanos == 0)) [
    | inl unset ↦ (suc (suc (suc n)), rw (refresh_state, e, unset) refl)
    | inr set ↦ elim (Bool-cases (ltb (now - words.opened_at_nanos) config.recovery_timeout)) [
      | inl waiting ↦ (suc (suc (suc n)), rw (refresh_state, e, set, waiting) refl)
      | inr over ↦ (
        n,
        rw (refresh_state, e, set, over)
            (run-recover (suc (suc (suc (suc (suc n))))) words call (open-state words.state e)),
      )
    ]
  ]

  pub refreshing :
      (n : ℕ) (words : Words) (call : Call) (s : CircuitBreakerState)
      → from_u8 words.state ≡ s
      → IsRefreshed n words call (
          run (suc (suc (suc (suc (suc (suc (suc (suc (suc (suc n)))))))))) words (load_state call))
  unfolding refresh_state
  refreshing n words call closed e = (
    suc (suc (suc (suc n))),
    run-load_state (suc (suc (suc (suc (suc (suc (suc (suc (suc n))))))))) words call closed e
        ∙ rw (refresh_state, e) refl,
  )
  refreshing n words call half_open e = (
    suc (suc (suc (suc n))),
    run-load_state (suc (suc (suc (suc (suc (suc (suc (suc (suc n))))))))) words call half_open e
        ∙ rw (refresh_state, e) refl,
  )
  refreshing n words call opened e =
      let (rest, reached) = recovery n words call e in
      (rest, run-load_state _ words call opened e ∙ (run-load_opened_at _ words call ∙ reached))
