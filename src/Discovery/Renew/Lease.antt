-- ===== src/Discovery/Renew/Lease.antt =====
-- The time that the renew loop of crates/sdkwork-rpc-discovery/src/lifecycle.rs lets pass.
use sdkwork_rpc_framework.Prelude.{ℕ, ◌+◌, ◌≤◌, ◌≡◌, false, List, [], ◌∷◌, All, arith}
use sdkwork_rpc_framework.Prelude.Rust.{Duration, from_secs}
use sdkwork_rpc_framework.Resilience.Backoff.{IsDraw}
use sdkwork_rpc_framework.Discovery.Registration.{renew_interval_of}
use sdkwork_rpc_framework.Discovery.Renew.{
  default_renew_config, Round, Report, renew_backoff, sleep_time, after_renewal, renew_loop,
}

-- The time slept in a run of the loop.
abbrev pub slept : List (Duration × Report) → Duration
slept [] = 0
slept (entry ∷ entries) = entry.0 + slept entries

-- With the default configuration, a lease of at least 21 seconds outlasts the sleeps from a renewal
-- up to the fourth attempt after it, where the three before that one failed, whatever the random
-- samples are within their ranges; the time that the attempts themselves take is not counted.
pub four-attempts-within-lease :
    (lease_ttl_seconds : ℕ) (first second third fourth : Round)
    → 21 ≤ lease_ttl_seconds
    → All (λ round. IsDraw round.draw) (first ∷ second ∷ third ∷ fourth ∷ [])
    → All (λ round. round.renews ≡ false) (first ∷ second ∷ third ∷ [])
    → slept
        (renew_loop default_renew_config
          (renew_interval_of lease_ttl_seconds)
          0
          (first ∷ second ∷ third ∷ fourth ∷ [])).1
      ≤ from_secs lease_ttl_seconds
unfolding renew_loop sleep_time after_renewal renew_backoff
four-attempts-within-lease ttl first second third fourth long draws fail =
    rw (fail.0, fail.1.0, fail.1.1.0)
      (omega (arith, draws.1.0 2_000, draws.1.1.0 4_000, draws.1.1.1.0 8_000))
