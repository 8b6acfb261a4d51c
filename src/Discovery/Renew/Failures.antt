-- ===== src/Discovery/Renew/Failures.antt =====
-- How crates/sdkwork-rpc-discovery/src/lifecycle.rs counts and reports failed renewals.
use sdkwork_rpc_framework.Prelude.{
  ℕ, zero, suc, if◌then◌else◌, ◌+◌, ◌-◌, ◌≤◌, min, ◌≡◌, refl, ap, ◌∙◌, true, false, List, [], ◌∷◌,
  ◌++◌, map, All, length, replicate, drop, arith, leb,
}
use sdkwork_rpc_framework.Prelude.Rust.{Duration, u32_max}
use sdkwork_rpc_framework.Discovery.Renew.{
  RenewLoopConfig, Round, Report, backing_off, lease_lost, after_renewal, renew_loop,
}

abbrev pub AllFail : List Round → Type 0
AllFail rounds = All (λ round. round.renews ≡ false) rounds

abbrev pub reports_of : ℕ × List (Duration × Report) → List Report
reports_of run = map (λ entry. entry.1) run.1

-- A warning for each failure below the limit, and an alert for each from there.
abbrev pub warnings_then_alerts : ℕ → ℕ → List Report
warnings_then_alerts below n =
    replicate (min n below) backing_off ++ replicate (n - below) lease_lost

alert-step :
    (below n : ℕ)
    → warnings_then_alerts below (suc n)
      ≡ (if leb below 0 then lease_lost else backing_off) ∷ warnings_then_alerts (below - 1) n
alert-step zero n = ground arith
alert-step (suc b) n =
    let smaller : min (suc n) (suc b) ≡ suc (min n b) = omega arith in
    let fewer : suc n - suc b ≡ n - b = omega arith in
    let less : suc b - 1 ≡ b = omega arith in
    let positive : leb (suc b) 0 ≡ false = ground arith in rw (smaller, fewer, less, positive) refl

renew_loop-failing :
    (config : RenewLoopConfig) (renew_interval : Duration) (failures : ℕ) (rounds : List Round)
    → AllFail rounds
    → failures + length rounds ≤ u32_max
    → ((renew_loop config renew_interval failures rounds).0 ≡ failures + length rounds)
      × (reports_of (renew_loop config renew_interval failures rounds)
          ≡ warnings_then_alerts (config.max_consecutive_failures - 1 - failures) (length rounds))
unfolding renew_loop after_renewal
renew_loop-failing config renew_interval failures [] all small = (omega arith, ground arith)
renew_loop-failing config renew_interval failures (round ∷ rounds) all small =
    let limit = config.max_consecutive_failures in
    let failed : min (failures + 1) u32_max ≡ failures + 1 = omega arith in
    let below : limit - 1 - failures - 1 ≡ limit - 1 - (failures + 1) = omega arith in
    let report = if leb limit (failures + 1) then lease_lost else backing_off in
    let alert : leb (limit - 1 - failures) 0 ≡ leb limit (failures + 1) = ground arith in
    let (count, reports) =
      renew_loop-failing config renew_interval (failures + 1) rounds all.1 (omega arith) in
    rw (all.0, alert-step (limit - 1 - failures) (length rounds), alert, below, failed)
      (count ∙ omega arith, ap (λ rest. report ∷ rest) reports)

-- A run of the loop is a run of its first rounds, and of the others from the count that they leave.
renew_loop-append :
    (config : RenewLoopConfig) (renew_interval : Duration) (failures : ℕ) (xs ys : List Round)
    → let first = renew_loop config renew_interval failures xs in
      let second = renew_loop config renew_interval first.0 ys in
      renew_loop config renew_interval failures (xs ++ ys) ≡ (second.0, first.1 ++ second.1)
unfolding renew_loop
renew_loop-append config renew_interval failures [] ys = refl
renew_loop-append config renew_interval failures (round ∷ xs) ys =
    let (failed, report) = after_renewal config failures round.renews in
    rw (renew_loop-append config renew_interval failed xs ys) refl

drop-reports :
    (earlier later : List (Duration × Report)) (entry : Duration × Report)
    → drop (suc (length earlier)) (map (λ e. e.1) (earlier ++ entry ∷ later)) ≡ map (λ e. e.1) later
drop-reports [] later entry = refl
drop-reports (e ∷ earlier) later entry = drop-reports earlier later entry

-- Whatever happened before a renewal that succeeds, `n` failures in a row after it, `n` a 32-bit number, are counted
-- as `n`, and are reported by a warning for each below the configured limit and by an alert that
-- the lease is likely lost for each from the limit on.
pub renew_loop-failures :
    (config : RenewLoopConfig) (renew_interval : Duration) (failures : ℕ) (before : List Round)
    (success : Round) (rounds : List Round)
    → success.renews ≡ true
    → AllFail rounds
    → length rounds ≤ u32_max
    → let earlier = renew_loop config renew_interval failures before in
      let all = renew_loop config renew_interval failures (before ++ success ∷ rounds) in
      (all.0 ≡ length rounds)
      × (drop (suc (length earlier.1)) (reports_of all)
          ≡ warnings_then_alerts (config.max_consecutive_failures - 1) (length rounds))
unfolding renew_loop after_renewal
renew_loop-failures config renew_interval failures before success rounds up all small =
    let earlier = renew_loop config renew_interval failures before in
    let (count, reports) = renew_loop-failing config renew_interval 0 rounds all (omega arith) in
    let limit : config.max_consecutive_failures - 1 - 0 ≡ config.max_consecutive_failures - 1 =
      omega arith in
    rw (renew_loop-append config renew_interval failures before (success ∷ rounds), up)
      (count ∙ omega arith, drop-reports earlier.1 _ _ ∙ rw limit at reports)
