-- ===== src/Tests/Balance.antt =====
-- Three endpoints, one of them down: the theorems on crates/sdkwork-rpc-client/src/load_balance.rs.
use sdkwork_rpc_framework.Prelude.{◌≡◌, ◌≢◌, true, false, some, List, [], ◌∷◌, arith}
use sdkwork_rpc_framework.Client.Resolver.{ResolvedEndpoint}
use sdkwork_rpc_framework.Client.LoadBalance.{
  round_robin, weighted, RoundRobinCursor, candidates, total_weight, pick_endpoint,
}
use sdkwork_rpc_framework.Client.LoadBalance.Choice.{IsChoice, pick_endpoint-IsChoice}
use sdkwork_rpc_framework.Client.LoadBalance.Rotation.{
  picks, slots, round_robin-rotate, weighted-rotate,
}

abbrev one : ResolvedEndpoint
one = record { endpoint = "http://127.0.0.1:1"; weight = 1; healthy = true }

abbrev two : ResolvedEndpoint
two = record { endpoint = "http://127.0.0.1:2"; weight = 2; healthy = true }

abbrev down : ResolvedEndpoint
down = record { endpoint = "http://127.0.0.1:3"; weight = 9; healthy = false }

abbrev snapshot : List ResolvedEndpoint
snapshot = one ∷ down ∷ two ∷ []

abbrev at_one : RoundRobinCursor
at_one = record { next = 1 }

some_endpoint : snapshot ≢ []
some_endpoint h = absurd (cc)

round_robin-rotate_example : picks 2 snapshot round_robin at_one ≡ some two ∷ some one ∷ []
unfolding candidates
round_robin-rotate_example = round_robin-rotate snapshot at_one some_endpoint (omega arith)

weighted-rotate_example : picks 3 snapshot weighted at_one ≡ some two ∷ some two ∷ some one ∷ []
unfolding total_weight candidates slots
weighted-rotate_example = weighted-rotate snapshot at_one some_endpoint (omega arith)

pick_endpoint-IsChoice_example :
    (e : ResolvedEndpoint) × ((pick_endpoint snapshot weighted at_one).1 ≡ some e)
    × IsChoice snapshot e
pick_endpoint-IsChoice_example = pick_endpoint-IsChoice snapshot weighted at_one some_endpoint
