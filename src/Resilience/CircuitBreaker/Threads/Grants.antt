-- ===== src/Resilience/CircuitBreaker/Threads/Grants.antt =====
-- How many probes crates/sdkwork-rpc-resilience/src/circuit_breaker.rs grants to threads that share a breaker.
use sdkwork_rpc_framework.Prelude.{
  ℕ, ◌+◌, ◌*◌, ◌≤◌, ◌<◌, ◌≡◌, refl, ap, subst, ◌∙◌, List, [], ◌∷◌, ◌==◌, if◌then◌else◌, arith,
  Bool-cases, inl, inr,
}
use sdkwork_rpc_framework.Prelude.Rust.{u32_max}
use sdkwork_rpc_framework.Resilience.CircuitBreaker.{CircuitBreakerConfig}
use sdkwork_rpc_framework.Resilience.CircuitBreaker.Threads.{
  Words, Call, Pc, exchange_probes, Note, silent, granted, reset, Outcome, thread_step, System,
  idle, Turn, turn, schedule,
}

-- The grants since the last reset of the counter, where there were `n` before.
abbrev pub after_note : ℕ → Note → ℕ
after_note n silent = n
after_note n granted = n + 1
after_note n reset = 0

abbrev pub since_reset : ℕ → List Note → ℕ
since_reset n [] = n
since_reset n (note ∷ notes) = since_reset (after_note n note) notes

abbrev is_grant : Note → ℕ
is_grant granted = 1
is_grant _ = 0

abbrev is_reset : Note → ℕ
is_reset reset = 1
is_reset _ = 0

abbrev pub grants : List Note → ℕ
grants [] = 0
grants (note ∷ notes) = is_grant note + grants notes

abbrev pub resets : List Note → ℕ
resets [] = 0
resets (note ∷ notes) = is_reset note + resets notes

-- A thread that is about to count a probe has seen the counter below the limit.
abbrev IsReserving : ℕ → Pc → Type 0
IsReserving limit (exchange_probes observed) = observed < limit
IsReserving limit _ = Unit

abbrev IsCounted : CircuitBreakerConfig → ℕ → Outcome → Type 0
IsCounted config n outcome =
    (outcome.0.half_open_probes ≡ after_note n outcome.2)
    × (after_note n outcome.2 ≤ config.half_open_max_probes)
    × IsReserving config.half_open_max_probes outcome.1

thread_step-IsCounted :
    (config : CircuitBreakerConfig) (now : ℕ) (next : Call) (words : Words) (pc : Pc)
    → config.half_open_max_probes ≤ u32_max
    → words.half_open_probes ≤ config.half_open_max_probes
    → IsReserving config.half_open_max_probes pc
    → IsCounted config words.half_open_probes (thread_step config now next words pc)
unfolding thread_step
thread_step-IsCounted config now next words pc small within reserving = ground arith

abbrev AllReserving : CircuitBreakerConfig → System → Type 0
AllReserving config system =
    (thread : ℕ) → IsReserving config.half_open_max_probes (system.threads thread)

moved-IsReserving :
    (limit moving thread : ℕ) (pc : Pc) (threads : ℕ → Pc)
    → IsReserving limit pc
    → ((other : ℕ) → IsReserving limit (threads other))
    → IsReserving limit (if thread == moving then pc else threads thread)
moved-IsReserving limit moving thread pc threads here there = elim (Bool-cases (thread == moving)) [
  | inl same ↦ rw same here
  | inr other ↦ rw other (there thread)
]

-- What a schedule does to the counter, and how many grants it makes in all.
abbrev IsAccounted : CircuitBreakerConfig → ℕ → System × List Note → Type 0
IsAccounted config n outcome =
    (outcome.0.words.half_open_probes ≡ since_reset n outcome.1)
    × (outcome.0.words.half_open_probes ≤ config.half_open_max_probes)
    × (n + grants outcome.1
        ≤ config.half_open_max_probes * resets outcome.1 + outcome.0.words.half_open_probes)

note-grants :
    (limit n g r last : ℕ) (note : Note)
    → n ≤ limit
    → after_note n note + g ≤ limit * r + last
    → n + (is_grant note + g) ≤ limit * (is_reset note + r) + last
note-grants limit n g r last silent h e = omega arith
note-grants limit n g r last granted h e = omega arith
note-grants limit n g r last reset h e = omega arith

schedule-IsAccounted :
    (config : CircuitBreakerConfig) (system : System) (turns : List Turn)
    → config.half_open_max_probes ≤ u32_max
    → system.words.half_open_probes ≤ config.half_open_max_probes
    → AllReserving config system
    → IsAccounted config system.words.half_open_probes (schedule config system turns)
unfolding schedule turn
schedule-IsAccounted config system [] small within reserving = (refl, within, omega arith)
schedule-IsAccounted config system (t ∷ turns) small within reserving =
    let (counted, bounded, mine) =
      thread_step-IsCounted config t.now t.next system.words (system.threads t.thread) small within
        (reserving t.thread) in
    let (next, note) = turn config t system in
    let (exact, last, total) =
      schedule-IsAccounted config next turns small (rw counted bounded) (λ thread.
        moved-IsReserving config.half_open_max_probes t.thread thread _ system.threads mine
          reserving) in
    let (end, notes) = schedule config next turns in
    (
      exact ∙ ap (λ n. since_reset n notes) counted,
      last,
      note-grants config.half_open_max_probes system.words.half_open_probes (grants notes)
          (resets notes) end.words.half_open_probes note within
          (subst
            (λ n.
              n + grants notes
              ≤ config.half_open_max_probes * resets notes + end.words.half_open_probes)
            counted total),
    )

-- However the atomic operations of any number of threads interleave, on a breaker that starts closed,
-- the probe counter never passes its limit and counts the probes granted since its last reset
-- exactly; in all, the probes granted are at most one limit for each reset, and what the counter holds.
-- The limit is a 32-bit number.
pub schedule-grants :
    (config : CircuitBreakerConfig) (turns : List Turn)
    → config.half_open_max_probes ≤ u32_max
    → let (end, notes) = schedule config idle turns in
      (end.words.half_open_probes ≡ since_reset 0 notes)
      × (end.words.half_open_probes ≤ config.half_open_max_probes)
      × (grants notes ≤ config.half_open_max_probes * resets notes + end.words.half_open_probes)
schedule-grants config turns small =
    let (exact, last, total) =
      schedule-IsAccounted config idle turns small (omega arith) (λ thread. tt) in
    (exact, last, omega (arith, total))
