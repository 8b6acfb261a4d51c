-- ===== src/Client/LoadBalance.antt =====
-- crates/sdkwork-rpc-client/src/load_balance.rs. The cursor that a pick moves comes back with the
-- picked endpoint. `usize` has 64 bits.
pub mod Choice
pub mod Cycle
pub mod Rotation
use sdkwork_rpc_framework.Prelude.{
  ℕ, ◌+◌, ◌%◌, max, Bool, Option, none, some, List, [], ◌∷◌, ltb, ◌==◌, if◌then◌else◌, length,
  get_elem?, filter,
}
use sdkwork_rpc_framework.Prelude.Rust.{saturating_add_u64}
use sdkwork_rpc_framework.Client.Resolver.{ResolvedEndpoint}

pub data LoadBalanceAlgorithm : Type 0 where
  pick_first round_robin weighted : LoadBalanceAlgorithm

pub record RoundRobinCursor : Type 0 where
  pub next : ℕ

unfoldable pub advance : RoundRobinCursor → RoundRobinCursor
advance cursor = record { next = saturating_add_u64 cursor.next 1 }

abbrev first : List ResolvedEndpoint → Option ResolvedEndpoint
first [] = none
first (e ∷ es) = some e

abbrev last : List ResolvedEndpoint → Option ResolvedEndpoint
last [] = none
last (e ∷ []) = some e
last (e ∷ d ∷ es) = last (d ∷ es)

preferred : List ResolvedEndpoint → List ResolvedEndpoint → List ResolvedEndpoint
preferred [] endpoints = endpoints
preferred (e ∷ es) endpoints = e ∷ es

-- The healthy endpoints, or all of them where none is healthy.
unfoldable pub candidates : List ResolvedEndpoint → List ResolvedEndpoint
unfolding preferred
candidates endpoints = preferred (filter (λ e. e.healthy) endpoints) endpoints

abbrev pub weight_of : ResolvedEndpoint → ℕ
weight_of e = max e.weight 1

unfoldable pub total_weight : List ResolvedEndpoint → ℕ
total_weight [] = 0
total_weight (e ∷ es) = weight_of e + total_weight es

-- The loop of `pick_weighted`; `none` where it falls through.
unfoldable pub find_slot : ℕ → ℕ → List ResolvedEndpoint → Option ResolvedEndpoint
find_slot slot accumulated [] = none
find_slot slot accumulated (e ∷ es) =
    let accumulated' = accumulated + weight_of e in
    let rest = find_slot slot accumulated' es in if ltb slot accumulated' then some e else rest

abbrev or_else : Option ResolvedEndpoint → Option ResolvedEndpoint → Option ResolvedEndpoint
or_else none other = other
or_else (some e) other = some e

unfoldable pub pick_weighted :
    List ResolvedEndpoint → RoundRobinCursor → RoundRobinCursor × Option ResolvedEndpoint
unfolding total_weight find_slot advance
pick_weighted cs cursor =
    if total_weight cs == 0
    then (cursor, first cs)
    else (advance cursor, or_else (find_slot (cursor.next % total_weight cs) 0 cs) (last cs))

pick_from :
    LoadBalanceAlgorithm
    → List ResolvedEndpoint
    → RoundRobinCursor
    → RoundRobinCursor × Option ResolvedEndpoint
unfolding pick_weighted
pick_from pick_first cs cursor = (cursor, first cs)
pick_from round_robin cs cursor = (advance cursor, get_elem? cs (cursor.next % length cs))
pick_from weighted cs cursor = pick_weighted cs cursor

unfoldable pub pick_endpoint :
    List ResolvedEndpoint
    → LoadBalanceAlgorithm
    → RoundRobinCursor
    → RoundRobinCursor × Option ResolvedEndpoint
unfolding pick_from candidates
pick_endpoint [] algorithm cursor = (cursor, none)
pick_endpoint (e ∷ es) algorithm cursor = pick_from algorithm (candidates (e ∷ es)) cursor
