-- ===== src/Discovery/Renew.antt =====
-- crates/sdkwork-rpc-discovery/src/lifecycle.rs: the loop that renews the lease, one round at a time.
-- The random sample `random_range(0..=base)` is the argument `draw`, a value for each upper end.
pub mod Failures
pub mod Lease
use sdkwork_rpc_framework.Prelude.{
  ℕ, ◌+◌, ◌^◌, min, Bool, true, false, List, [], ◌∷◌, if◌then◌else◌, leb, ◌==◌,
}
use sdkwork_rpc_framework.Prelude.Rust.{
  Duration, from_secs, from_millis, as_millis, u64_max, saturating_add_u32, saturating_mul_duration,
}

pub record RenewLoopConfig : Type 0 where
  pub initial_backoff : Duration
  pub max_backoff : Duration
  pub max_consecutive_failures : ℕ

abbrev pub default_renew_config : RenewLoopConfig
default_renew_config = record {
  initial_backoff = from_secs 1;
  max_backoff = from_secs 10;
  max_consecutive_failures = 3;
}

unfoldable pub renew_backoff : (ℕ → ℕ) → ℕ → Duration → Duration → Duration
renew_backoff draw failures initial max_backoff =
    let exponent = min failures 16 in
    let base = min (saturating_mul_duration initial (2 ^ exponent)) max_backoff in
    if base == 0 then initial else from_millis (draw (min (as_millis base) u64_max))

-- The time that the loop sleeps before it renews.
unfoldable pub sleep_time : (ℕ → ℕ) → RenewLoopConfig → Duration → ℕ → Duration
unfolding renew_backoff
sleep_time draw config renew_interval failures =
    if failures == 0
    then renew_interval
    else renew_backoff draw failures config.initial_backoff config.max_backoff

-- What the loop reports after a renewal, and the failures that it counts from there.
pub data Report : Type 0 where
  renewed recovered backing_off lease_lost : Report

unfoldable pub after_renewal : RenewLoopConfig → ℕ → Bool → ℕ × Report
after_renewal config failures true = (0, if failures == 0 then renewed else recovered)
after_renewal config failures false =
    let failed = saturating_add_u32 failures 1 in
    (failed, if leb config.max_consecutive_failures failed then lease_lost else backing_off)

-- A round's random source, and whether its renewal succeeds.
pub record Round : Type 0 where
  pub draw : ℕ → ℕ
  pub renews : Bool

-- The rounds of the loop from a count of failures on: the sleeps and the reports, in their order,
-- and the count that it ends with.
unfoldable pub renew_loop :
    RenewLoopConfig → Duration → ℕ → List Round → ℕ × List (Duration × Report)
unfolding sleep_time after_renewal
renew_loop config renew_interval failures [] = (failures, [])
renew_loop config renew_interval failures (round ∷ rounds) =
    let slept = sleep_time round.draw config renew_interval failures in
    let (failed, report) = after_renewal config failures round.renews in
    let (last, rest) = renew_loop config renew_interval failed rounds in
    (last, (slept, report) ∷ rest)

-- The loop with the default configuration.
abbrev pub spawn_renew_loop : Duration → List Round → ℕ × List (Duration × Report)
spawn_renew_loop renew_interval rounds = renew_loop default_renew_config renew_interval 0 rounds
