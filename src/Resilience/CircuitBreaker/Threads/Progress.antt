-- ===== src/Resilience/CircuitBreaker/Threads/Progress.antt =====
-- That a call of crates/sdkwork-rpc-resilience/src/circuit_breaker.rs ends: its loops are run again only
-- because another thread changed the probe counter.
use sdkwork_rpc_framework.Prelude.{
  ℕ, ◌+◌, ◌*◌, ◌≤◌, ◌≡◌, refl, ap, Bool, true, false, inl, inr, List, [], ◌∷◌, ◌++◌, ◌==◌,
  if◌then◌else◌, arith, Bool-cases,
}
use sdkwork_rpc_framework.Resilience.CircuitBreaker.{CircuitBreakerConfig}
use sdkwork_rpc_framework.Resilience.CircuitBreaker.Threads.{
  Words, Call, Pc, load_state, load_opened_at, store_probes, store_failures, refreshed,
  exchange_state, load_probes, exchange_probes, close_failures, close_probes, close_opened_at,
  add_failure, swap_open, store_opened_at, open_probes, returned, Note, silent, thread_step, System,
  Turn, turn, schedule,
}

abbrev pub has_returned : Pc → Bool
has_returned (returned answer) = true
has_returned _ = false

-- How many turns a thread still needs, if nobody changes the probe counter meanwhile.
abbrev rank : Words → Pc → ℕ
rank words (load_state call) = 10
rank words (load_opened_at call) = 9
rank words (exchange_state call observed) = 8
rank words (store_probes call) = 7
rank words (store_failures call) = 6
rank words (refreshed call) = 5
rank words load_probes = 2
rank words (exchange_probes observed) = if words.half_open_probes == observed then 1 else 3
rank words close_failures = 3
rank words close_probes = 2
rank words close_opened_at = 1
rank words add_failure = 4
rank words swap_open = 3
rank words store_opened_at = 2
rank words open_probes = 1
rank words (returned answer) = 0

rank-le-ten : (words : Words) (pc : Pc) → rank words pc ≤ 10
rank-le-ten words pc = ground arith

rank-thread_step :
    (config : CircuitBreakerConfig) (now : ℕ) (next : Call) (words : Words) (pc : Pc)
    → has_returned pc ≡ false
    → let (after, moved, note) = thread_step config now next words pc in
      rank after moved + 1 ≤ rank words pc
unfolding thread_step
rank-thread_step config now next words pc going = ground arith

abbrev changes : Note → ℕ
changes silent = 0
changes _ = 1

rank-other :
    (config : CircuitBreakerConfig) (now : ℕ) (next : Call) (words : Words) (other pc : Pc)
    → let (after, moved, note) = thread_step config now next words other in
      rank after pc ≤ rank words pc + 2 * changes note
unfolding thread_step
rank-other config now next words other pc = ground arith

-- The turns of a thread.
abbrev pub own : ℕ → List Turn → ℕ
own thread [] = 0
own thread (t ∷ turns) = (if thread == t.thread then 1 else 0) + own thread turns

-- The turns of other threads that write to the probe counter.
abbrev pub disturbances : ℕ → List Turn → List Note → ℕ
disturbances thread (t ∷ turns) (note ∷ notes) =
    (if thread == t.thread then 0 else changes note) + disturbances thread turns notes
disturbances thread _ _ = 0

-- Some first part of a schedule lets the thread return.
abbrev pub ReturnsWithin : CircuitBreakerConfig → System → ℕ → List Turn → Type 0
ReturnsWithin config system thread turns =
    (before : List Turn) × (after : List Turn) × (turns ≡ before ++ after)
    × (has_returned ((schedule config system before).0.threads thread) ≡ true)

rank-zero : (words : Words) (pc : Pc) → rank words pc ≤ 0 → has_returned pc ≡ true
rank-zero words pc h = ground arith

turn-rank :
    (config : CircuitBreakerConfig) (t : Turn) (system : System) (thread : ℕ)
    → has_returned (system.threads thread) ≡ false
    → let (next, note) = turn config t system in
      rank next.words (next.threads thread) + (if thread == t.thread then 1 else 0)
      ≤ rank system.words (system.threads thread)
        + 2 * (if thread == t.thread then 0 else changes note)
unfolding turn
turn-rank config t system thread going = elim (Bool-cases (thread == t.thread)) [
  | inl same ↦
      let e : t.thread ≡ thread = ground arith in
      rw (same, e)
        (omega
          (arith, rank-thread_step config t.now t.next system.words (system.threads thread) going))
  | inr other ↦ rw (other) (
      omega (
        arith,
        rank-other config t.now t.next system.words (system.threads t.thread)
            (system.threads thread),
      ))
]

returns-within :
    (config : CircuitBreakerConfig) (thread : ℕ) (turns : List Turn) (system : System)
    → rank system.words (system.threads thread)
        + 2 * disturbances thread turns (schedule config system turns).1
      ≤ own thread turns
    → ReturnsWithin config system thread turns
unfolding schedule
returns-within config thread [] system enough =
    ([], [], refl, rank-zero system.words _ (omega (arith, enough)))
returns-within config thread (t ∷ turns) system enough =
    elim (Bool-cases (has_returned (system.threads thread))) [
      | inl done ↦ ([], t ∷ turns, refl, done)
      | inr going ↦
          let (before, after, split, done) =
            returns-within config thread turns (turn config t system).0
              (omega (arith, enough, turn-rank config t system thread going)) in
          (t ∷ before, after, ap (λ ts. t ∷ ts) split, done)
    ]

-- In every interleaving, a thread that takes at least ten turns, and two more for each turn in which
-- another thread writes to the probe counter, has returned from its call after some first part of
-- it: the breaker waits for no other thread, and only another's change runs its loop again.
pub schedule-returns :
    (config : CircuitBreakerConfig) (thread : ℕ) (turns : List Turn) (system : System)
    → 10 + 2 * disturbances thread turns (schedule config system turns).1 ≤ own thread turns
    → ReturnsWithin config system thread turns
schedule-returns config thread turns system enough =
    returns-within config thread turns system
      (omega (arith, enough, rank-le-ten system.words (system.threads thread)))
