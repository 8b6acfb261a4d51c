-- ===== src/Resilience/CircuitBreaker/Machine.antt =====
-- The breaker of crates/sdkwork-rpc-resilience/src/circuit_breaker.rs against the three-state machine
-- of the resilience contract.
use sdkwork_rpc_framework.Prelude.{
  ℕ, suc, ◌+◌, ◌-◌, ◌^◌, ◌≤◌, ◌<◌, ◌≡◌, refl, Bool, true, false, List, [], ◌∷◌, arith, ltb, leb,
  if◌then◌else◌, length, All,
}
use sdkwork_rpc_framework.Prelude.Rust.{u32_max}
use sdkwork_rpc_framework.Resilience.CircuitBreaker.{
  CircuitBreaker, CircuitBreakerConfig, CircuitBreakerState, closed, opened, half_open, open_u8,
  half_open_u8, from_u8, new, Answer, allowed, seen, recorded, read_state, allow_request,
  record_success, record_failure,
}

-- What a client can tell of a breaker: how many failures in a row, since when it is open, how many
-- probes are out.
pub data View : Type 0 where
  closed_after : (failures : ℕ) → View
  open_since : (nanos failures : ℕ) → View
  probing : (probes : ℕ) → View

abbrev view_at : CircuitBreakerState → CircuitBreaker → View
view_at closed b = closed_after b.consecutive_failures
view_at opened b = open_since b.opened_at_nanos b.consecutive_failures
view_at half_open b = probing b.half_open_probes

unfoldable pub view : CircuitBreaker → View
unfolding from_u8
view b = view_at (from_u8 b.state) b

-- A method call, with the clock readings that it makes; `inspect` is a call of `state`.
pub data Call : Type 0 where
  inspect : (now : ℕ) → Call
  request : (now : ℕ) → Call
  success : (now : ℕ) → Call
  failure : (now later : ℕ) → Call

unfoldable pub step : CircuitBreaker → Call → CircuitBreaker × Answer
step b (inspect now) = let (b', state) = read_state now b in (b', seen state)
step b (request now) = let (b', granted) = allow_request now b in (b', allowed granted)
step b (success now) = (record_success now b, recorded)
step b (failure now later) = (record_failure now later b, recorded)

unfoldable pub run : CircuitBreaker → List Call → CircuitBreaker
run b [] = b
run b (c ∷ cs) = run (step b c).0 cs

-- The answers to the calls, in order.
unfoldable pub answers : CircuitBreaker → List Call → List Answer
answers b [] = []
answers b (c ∷ cs) = (step b c).1 ∷ answers (step b c).0 cs

-- The machine: after the recovery timeout an open breaker is probing.
unfoldable pub recover : CircuitBreakerConfig → ℕ → View → View
recover c now (open_since t n) =
    if leb c.recovery_timeout (now - t) then probing 0 else open_since t n
recover c now v = v

unfoldable pub ask : CircuitBreakerConfig → View → View × Bool
ask c (closed_after n) = (closed_after n, true)
ask c (open_since t n) = (open_since t n, false)
ask c (probing k) =
    if ltb k c.half_open_max_probes then (probing (k + 1), true) else (probing k, false)

-- A failure of a call that was let through before counts on in an open breaker, and past the
-- threshold puts the recovery off.
unfoldable pub fail : CircuitBreakerConfig → ℕ → View → View
fail c later (closed_after n) =
    if ltb (n + 1) c.failure_threshold then closed_after (n + 1) else open_since later (n + 1)
fail c later (open_since t n) =
    if ltb (n + 1) c.failure_threshold then open_since t (n + 1) else open_since later (n + 1)
fail c later (probing k) = open_since later 0

unfoldable pub state_of : View → CircuitBreakerState
state_of (closed_after n) = closed
state_of (open_since t n) = opened
state_of (probing k) = half_open

unfoldable pub machine_step : CircuitBreakerConfig → View → Call → View × Answer
unfolding recover ask fail state_of
machine_step c v (inspect now) = (recover c now v, seen (state_of (recover c now v)))
machine_step c v (request now) =
    let (v', granted) = ask c (recover c now v) in (v', allowed granted)
machine_step c v (success now) = (closed_after 0, recorded)
machine_step c v (failure now later) = (fail c later (recover c now v), recorded)

unfoldable pub machine_answers : CircuitBreakerConfig → View → List Call → List Answer
machine_answers c v [] = []
machine_answers c v (call ∷ calls) =
    (machine_step c v call).1 ∷ machine_answers c (machine_step c v call).0 calls

-- What the methods keep, with at most `n` failures counted.
pub record IsWell (n : ℕ) (b : CircuitBreaker) : Type 0 where
  pub known : b.state ≤ 2
  pub timed : b.state ≡ open_u8 → 0 < b.opened_at_nanos
  pub settled : b.state ≡ half_open_u8 → b.consecutive_failures ≡ 0
  pub counted : b.consecutive_failures ≤ n
  pub bounded : b.half_open_probes ≤ b.half_open_max_probes
  pub small : b.half_open_max_probes ≤ u32_max

-- The clock of `open` has moved since `created_at`, and its nanoseconds fit 64 bits.
abbrev pub IsClocked : Call → Type 0
IsClocked (failure now later) = (0 < later) × (later < 2 ^ 64)
IsClocked _ = Unit

pub new-IsWell : (c : CircuitBreakerConfig) → c.half_open_max_probes ≤ u32_max → IsWell 0 (new c)
unfolding new
new-IsWell c h = ground arith

pub step-IsWell :
    (n : ℕ) (b : CircuitBreaker) (c : Call)
    → IsWell n b
    → IsClocked c
    → n < u32_max
    → IsWell (suc n) (step b c).0
unfolding step read_state allow_request record_success record_failure
step-IsWell n b (inspect now) w k h = ground arith
step-IsWell n b (request now) w k h = ground arith
step-IsWell n b (success now) w k h = ground arith
step-IsWell n b (failure now later) w k h = ground arith

pub step-config : (b : CircuitBreaker) (c : Call) → (step b c).0.config ≡ b.config
unfolding step read_state allow_request record_success record_failure
step-config b (inspect now) = ground arith
step-config b (request now) = ground arith
step-config b (success now) = ground arith
step-config b (failure now later) = ground arith

-- One call answers and moves as the machine does.
pub step-machine_step :
    (n : ℕ) (b : CircuitBreaker) (c : Call)
    → IsWell n b
    → IsClocked c
    → n < u32_max
    → (view (step b c).0 ≡ (machine_step b.config (view b) c).0)
      × ((step b c).1 ≡ (machine_step b.config (view b) c).1)
unfolding step read_state allow_request record_success record_failure view machine_step
step-machine_step n b (inspect now) w k h = ground arith
step-machine_step n b (request now) w k h = ground arith
step-machine_step n b (success now) w k h = ground arith
step-machine_step n b (failure now later) w k h = ground arith

answers-eq :
    (n : ℕ) (b : CircuitBreaker) (cs : List Call)
    → IsWell n b
    → All IsClocked cs
    → n + length cs ≤ u32_max
    → answers b cs ≡ machine_answers b.config (view b) cs
unfolding answers machine_answers
answers-eq n b [] w k h = refl
answers-eq n b (c ∷ cs) w (k, ks) h = ground (
  arith,
  step-config b c,
  step-machine_step n b c w k (omega arith),
  answers-eq (suc n) (step b c).0 cs (step-IsWell n b c w k (omega arith)) ks,
)

-- From `new` on, whatever the calls and their clock readings, the breaker gives the machine's
-- answers, if each opening sees a positive clock of 64 bits, the probe limit is a `u32`, and the
-- calls are fewer than 2 ^ 32.
pub answers-machine_answers :
    (c : CircuitBreakerConfig) (cs : List Call)
    → c.half_open_max_probes ≤ u32_max
    → All IsClocked cs
    → length cs ≤ u32_max
    → answers (new c) cs ≡ machine_answers c (closed_after 0) cs
unfolding new view
answers-machine_answers c cs h k l = answers-eq 0 (new c) cs (new-IsWell c h) k (omega arith)
