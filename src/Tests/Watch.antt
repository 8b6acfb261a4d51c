-- ===== src/Tests/Watch.antt =====
-- One service with two instances, watched: the theorems on
-- crates/sdkwork-rpc-client/src/watching_discovery_resolver.rs at a short history.
use Prim.Native.String.{len}
use text.Mathlib.Text.{◌==◌ as str_eq}
use sdkwork_rpc_framework.Prelude.{
  ℕ, String, ◌≡◌, refl, true, false, Option, some, List, [], ◌∷◌, ◌==◌, is_empty,
}
use sdkwork_rpc_framework.Prelude.Map.{lookup, insert}
use sdkwork_rpc_framework.External.{TextUtils, DiscoveryProto}
use sdkwork_rpc_framework.Core.Error.{ok}
use sdkwork_rpc_framework.Client.Resolver.{ResolvedEndpoint}
use sdkwork_rpc_framework.Client.Watch.{
  default_watch_config, CachedEndpoints, WatchingDiscoveryNameResolver, with_watch_config,
  upsert_endpoint, retain_others, resolve,
}
use sdkwork_rpc_framework.Client.Watch.Messages.{
  map_discovered_instance, healthy_endpoints, discover_endpoints, apply_message, run_watch_session,
}
use sdkwork_rpc_framework.Client.Watch.Cache.{AllServable}
use sdkwork_rpc_framework.Client.Watch.History.{Event, watched, asked, history, perform}
use sdkwork_rpc_framework.Client.Watch.Registers.{
  register, after_messages, run_watch_session-register,
}
use sdkwork_rpc_framework.Client.Watch.Answers.{resolve-AllServable}

abbrev pub utils : TextUtils
utils = record { is_blank = λ s. len s == 0; trim = λ s. s }

-- An instance is its address, its weight and its status; a message its revision, its type and its
-- instance. Status 1 serves, 2 is degraded; type 3 is a heartbeat, 2 a deregistration.
abbrev pub tuples : DiscoveryProto
tuples = record {
  InstanceStatus = ℕ;
  is_serving_status = λ s. s == 1;
  is_degraded_status = λ s. s == 2;
  ServiceInstance = String × ℕ × ℕ;
  endpoint = λ i. i.0;
  weight = λ i. i.1;
  status = λ i. some i.2;
  WatchEventType = ℕ;
  unspecified = 0;
  is_heartbeat = λ t. t == 3;
  is_deregistered = λ t. t == 2;
  WatchMessage = Option ℕ × ℕ × Option (String × ℕ × ℕ);
  revision = λ m. m.0;
  event_type = λ m. some m.1;
  instance_of = λ m. m.2;
}

abbrev pub one : String × ℕ × ℕ
one = ("http://127.0.0.1:1", 0, 1)

abbrev pub two : String × ℕ × ℕ
two = ("http://127.0.0.1:2", 5, 2)

abbrev pub up_one : ResolvedEndpoint
up_one = record { endpoint = "http://127.0.0.1:1"; weight = 1; healthy = true }

abbrev pub up_two : ResolvedEndpoint
up_two = record { endpoint = "http://127.0.0.1:2"; weight = 5; healthy = true }

abbrev pub gone_one : Option ℕ × ℕ × Option (String × ℕ × ℕ)
gone_one = (some 9, 2, some one)

abbrev pub came_two : Option ℕ × ℕ × Option (String × ℕ × ℕ)
came_two = (some 8, 1, some two)

abbrev pub start : WatchingDiscoveryNameResolver
start = record { cache = []; last_revision = 0; watch_config = default_watch_config }

-- Both instances are cached.
abbrev filled : WatchingDiscoveryNameResolver
filled = record start {
  cache = ("orders", record { endpoints = up_one ∷ up_two ∷ []; updated_at = 7 }) ∷ [];
}

abbrev pub events : List (Event utils tuples)
events = asked 1 2 "orders" (one ∷ []) ∷ watched 3 "orders" came_two ∷ []

answered :
    (resolve 4 5 "orders"
      (discover_endpoints utils tuples "orders" [])
      (history utils tuples (with_watch_config default_watch_config) events)).1
    ≡ ok (up_one ∷ up_two ∷ [])
unfolding resolve history lookup perform apply_message map_discovered_instance insert
    with_watch_config discover_endpoints healthy_endpoints upsert_endpoint
answered = refl

resolve-AllServable_example :
    AllServable (up_one ∷ up_two ∷ []) × (is_empty (up_one ∷ up_two ∷ []) ≡ false)
resolve-AllServable_example =
    resolve-AllServable utils tuples default_watch_config events 4 5 "orders" []
      (up_one ∷ up_two ∷ []) answered

abbrev left : CachedEndpoints
left = record { endpoints = up_two ∷ []; updated_at = 7 }

removed : lookup "orders" (apply_message utils tuples 9 "orders" gone_one filled).cache ≡ some left
unfolding apply_message lookup retain_others insert
removed = refl

run_watch_session-register_example :
    let r' = run_watch_session utils tuples "orders" ((1, came_two) ∷ (2, gone_one) ∷ []) filled in
    (register utils tuples "http://127.0.0.1:1" "orders" r'
      ≡ after_messages utils tuples "http://127.0.0.1:1"
          ((1, came_two) ∷ (2, gone_one) ∷ [])
          (register utils tuples "http://127.0.0.1:1" "orders" filled))
    × ((other : String)
        → str_eq other "orders" ≡ false
        → lookup other r'.cache ≡ lookup other filled.cache)
run_watch_session-register_example =
    run_watch_session-register utils tuples "http://127.0.0.1:1" "orders"
      ((1, came_two) ∷ (2, gone_one) ∷ []) filled
