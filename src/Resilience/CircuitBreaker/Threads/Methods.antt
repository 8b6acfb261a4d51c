-- ===== src/Resilience/CircuitBreaker/Threads/Methods.antt =====
-- The methods of crates/sdkwork-rpc-resilience/src/circuit_breaker.rs as a thread carries them out that runs
-- alone.
use sdkwork_rpc_framework.Prelude.{
  ap, sym, ◌∙◌, ℕ, suc, ◌≡◌, refl, true, false, inl, inr, ◌==◌, leb, Bool-cases, arith,
}
use sdkwork_rpc_framework.Prelude.Rust.{saturating_add_u32}
use sdkwork_rpc_framework.Resilience.CircuitBreaker.{
  closed_u8, allowed, seen, recorded, read_state as read_state_at_once, CircuitBreakerConfig,
  CircuitBreaker, CircuitBreakerState, from_u8, closed, opened, half_open, refresh_state,
  allow_request as allow_request_at_once, record_success as record_success_at_once,
  record_failure as record_failure_at_once, acquire_half_open_probe, admit, open_breaker,
  count_failure,
}
use sdkwork_rpc_framework.Resilience.CircuitBreaker.Threads.{
  Words, read_state, allow_request, record_success, record_failure, Pc, load_state, on_allow,
  on_failure, load_probes, exchange_probes, close_failures, close_probes, close_opened_at,
  add_failure, swap_open, store_opened_at, open_probes, refreshed, returned, thread_step,
}
use sdkwork_rpc_framework.Resilience.CircuitBreaker.Threads.Alone.{
  words_of, run_alone, run-step, run-returned, breaker_of, refreshing,
}

eq_self : (n : ℕ) → (n == n) ≡ true
eq_self n = ground arith

module _ (config : CircuitBreakerConfig) (now later : ℕ) where
  abbrev run : ℕ → Words → Pc → Words × Pc
  run n words pc = run_alone config now later n words pc

  admitting :
      (n : ℕ) (words : Words) (s : CircuitBreakerState)
      → let (after, answer) = admit s (breaker_of config words) in
        run (suc (suc n)) words (on_allow s) ≡ (words_of after, returned (allowed answer))
  unfolding admit acquire_half_open_probe thread_step
  admitting n words closed = run-returned config now later _ words (allowed true)
  admitting n words opened = run-returned config now later _ words (allowed false)
  admitting n words half_open =
      elim (Bool-cases (leb config.half_open_max_probes words.half_open_probes)) [
        | inl full ↦
            run-step config now later (suc n) words load_probes refl
            ∙ rw full (run-returned config now later _ words (allowed false))
        | inr room ↦
            run-step config now later (suc n) words load_probes refl
            ∙ rw room (
                run-step config now later n words (exchange_probes words.half_open_probes) refl
                ∙ rw (eq_self words.half_open_probes)
                    (run-returned config now later n _ (allowed true)))
      ]

  closing :
      (n : ℕ) (words : Words)
      → run (suc (suc (suc (suc n)))) words (refreshed record_success) ≡ (
        record words {
          state = closed_u8;
          consecutive_failures = 0;
          half_open_probes = 0;
          opened_at_nanos = 0;
        },
        returned recorded,
      )
  unfolding thread_step
  closing n words =
      run-step config now later (suc (suc (suc n))) words (refreshed record_success) refl
      ∙ (run-step config now later (suc (suc n)) _ close_failures refl
          ∙ (run-step config now later (suc n) _ close_probes refl
              ∙ (run-step config now later n _ close_opened_at refl
                  ∙ run-returned config now later n _ recorded)))

  opening :
      (n : ℕ) (words : Words)
      → run (suc (suc (suc n))) words swap_open
        ≡ (words_of (open_breaker later (breaker_of config words)), returned recorded)
  unfolding thread_step open_breaker
  opening n words =
      run-step config now later (suc (suc n)) words swap_open refl
      ∙ (run-step config now later (suc n) _ store_opened_at refl
          ∙ (run-step config now later n _ open_probes refl
              ∙ run-returned config now later n _ recorded))

  counting :
      (n : ℕ) (words : Words)
      → run (suc (suc (suc (suc n)))) words add_failure
        ≡ (words_of (count_failure later (breaker_of config words)), returned recorded)
  unfolding thread_step count_failure
  counting n words =
      let failures = saturating_add_u32 words.consecutive_failures 1 in
      run-step config now later (suc (suc (suc n))) words add_failure refl
      ∙ elim (Bool-cases (leb config.failure_threshold failures)) [
        | inl reached ↦ rw reached (opening n _)
        | inr below ↦ rw below (run-returned config now later _ _ recorded)
      ]

  refreshed_breaker :
      (words : Words)
      → breaker_of config (words_of (refresh_state now (breaker_of config words)))
        ≡ refresh_state now (breaker_of config words)
  unfolding refresh_state
  refreshed_breaker words = ground arith

  abbrev on_state : CircuitBreakerState → CircuitBreaker → CircuitBreaker
  on_state half_open b = open_breaker later b
  on_state _ b = count_failure later b

  failing :
      (n : ℕ) (words : Words) (s : CircuitBreakerState)
      → run (suc (suc (suc (suc n)))) words (on_failure s)
        ≡ (words_of (on_state s (breaker_of config words)), returned recorded)
  failing n words closed = counting n words
  failing n words opened = counting n words
  failing n words half_open = opening (suc n) words

  record_failure-on_state :
      (b : CircuitBreaker) (s : CircuitBreakerState)
      → from_u8 (refresh_state now b).state ≡ s
      → record_failure_at_once now later b ≡ on_state s (refresh_state now b)
  unfolding record_failure_at_once
  record_failure-on_state b closed e = rw (record_failure_at_once, e) refl
  record_failure-on_state b opened e = rw (record_failure_at_once, e) refl
  record_failure-on_state b half_open e = rw (record_failure_at_once, e) refl

  -- A call that runs alone does in at most ten steps what the method does at once: the answer and the
  -- words that it leaves are those of `state`, `allow_request`, `record_success` and
  -- `record_failure`, whatever the words were, and whatever the two readings of the clock.
  pub run_alone-methods :
      (words : Words)
      → let b = breaker_of config words in
        let (looked, state) = read_state_at_once now b in
        let (asked, answer) = allow_request_at_once now b in
        (run_alone config now later 10 words (load_state read_state)
          ≡ (words_of looked, returned (seen state)))
        × (run_alone config now later 10 words (load_state allow_request)
            ≡ (words_of asked, returned (allowed answer)))
        × (run_alone config now later 10 words (load_state record_success)
            ≡ (words_of (record_success_at_once now b), returned recorded))
        × (run_alone config now later 10 words (load_state record_failure)
            ≡ (words_of (record_failure_at_once now later b), returned recorded))
  unfolding read_state_at_once allow_request_at_once record_success_at_once thread_step
  run_alone-methods words =
      let same = refreshed_breaker words in
      let w = words_of (refresh_state now (breaker_of config words)) in
      let (l, read) = refreshing config now later 0 words read_state _ refl in
      let (m, tried) = refreshing config now later 0 words allow_request _ refl in
      let (n, closed_) = refreshing config now later 0 words record_success _ refl in
      let (k, failed) = refreshing config now later 0 words record_failure _ refl in
      (
        read
            ∙ (run-step config now later (suc (suc (suc (suc l)))) w (refreshed read_state) refl
                ∙ run-returned config now later _ w (seen (from_u8 w.state))),
        tried
            ∙ (run-step config now later (suc (suc (suc (suc m)))) w (refreshed allow_request) refl
                ∙ rw (← same) (admitting (suc (suc m)) w (from_u8 w.state))),
        closed_ ∙ closing (suc n) w,
        failed
            ∙ (run-step config now later (suc (suc (suc (suc k)))) w (refreshed record_failure) refl
                ∙ (failing k w (from_u8 w.state)
                    ∙ ap (λ b. (words_of b, returned recorded))
                        (ap (on_state (from_u8 w.state)) same
                          ∙ sym (
                              record_failure-on_state (breaker_of config words) (from_u8 w.state)
                                refl)))),
      )
