-- ===== src/Tests/Session.antt =====
-- Two reconnects, a race and a connection over small stand-ins: the theorems on
-- crates/sdkwork-rpc-client/src/watching_discovery_resolver.rs with the resolver that it wraps.
use sdkwork_rpc_framework.Prelude.Text.{strip_prefix}
use sdkwork_rpc_framework.Discovery.Endpoint.{normalize_http_endpoint}
use Prim.Native.String.{String}
use text.Mathlib.Text.{◌==◌ as str_eq}
use sdkwork_rpc_framework.Prelude.{
  ℕ, ◌≡◌, refl, true, false, Option, none, some, List, [], ◌∷◌, ◌⊎◌, ◌++◌, inl, inr, any, arith,
}
use sdkwork_rpc_framework.Prelude.Rust.{from_secs}
use sdkwork_rpc_framework.Prelude.Map.{lookup}
use sdkwork_rpc_framework.Core.Error.{ok, err, transport}
use sdkwork_rpc_framework.Discovery.Headers.{
  unsigned_registry_read_metadata, apply_metadata_template,
}
use sdkwork_rpc_framework.Client.Discovery.{
  DiscoveryNameResolverConfig, DiscoverInstancesRequest, get_or_init_channel,
}
use sdkwork_rpc_framework.Client.LoadBalance.{round_robin}
use sdkwork_rpc_framework.Client.Transport.{default_channel_config, resolve_and_connect}
use sdkwork_rpc_framework.Client.Watch.{
  default_watch_config, CachedEndpoints, store_result, resolve,
}
use sdkwork_rpc_framework.Client.Watch.Messages.{apply_message, run_watch_session}
use sdkwork_rpc_framework.Client.Watch.Race.{resolve-deregistered}
use sdkwork_rpc_framework.Client.Watch.Session.{
  watch_request, Discovering, Watching, Exchange, Round, run_reconnect_loop,
}
use sdkwork_rpc_framework.Client.Watch.Session.Channels.{expected}
use sdkwork_rpc_framework.Client.Watch.Session.Cursor.{
  run_reconnect_loop-requests, run_reconnect_loop-shared,
}
use sdkwork_rpc_framework.Client.Watch.Session.Connect.{
  after, as_resolver, ConnectsToServable, resolve_and_connect-servable,
}
use sdkwork_rpc_framework.Tests.Instances.{numbered, Metadata}
use sdkwork_rpc_framework.Tests.Outbound.{names}
use sdkwork_rpc_framework.Tests.Registration.{registry, draws}
use sdkwork_rpc_framework.Tests.Watch.{
  utils, tuples, one, up_one, gone_one, came_two, start, events,
}
use sdkwork_rpc_framework.Tests.Wire.{disk, wire}

-- The control plane knows the first instance.
abbrev discover : String → DiscoverInstancesRequest → Metadata → String ⊎ List (String × ℕ × ℕ)
discover channel request metadata = inr (one ∷ [])

abbrev config : DiscoveryNameResolverConfig
config = record {
  discovery_endpoint = "127.0.0.1:19090";
  namespace = "sdkwork";
  environment = "development";
  subject_id = "gateway";
  healthy_only = true;
  protocol = "grpc";
}

abbrev inner : Discovering numbered registry utils tuples discover names
inner = record { config = config; channel = none }

abbrev resolver : Watching numbered registry utils tuples discover names
resolver = record { inner = inner; watched = start }

-- The first stream delivers revisions 8 and 9 and breaks; the second ends cleanly at once.
abbrev broken : Round numbered registry utils tuples discover names
broken = record {
  connect = inr;
  draws = draws;
  jitter = λ base. base;
  watch_service = λ channel request metadata.
      inr (record { messages = (1, came_two) ∷ (2, gone_one) ∷ []; failure = some "reset" });
}

abbrev quiet : Round numbered registry utils tuples discover names
quiet = record broken {
  watch_service = λ channel request metadata. inr (record { messages = []; failure = none });
}

-- The control plane is not there to connect to.
abbrev away : Round numbered registry utils tuples discover names
away = record quiet { connect = λ endpoint. inl "refused" }

abbrev beat : Option ℕ × ℕ × Option (String × ℕ × ℕ)
beat = (some 9, 3, none)

-- What the loop of the service sent.
abbrev sent : List (Exchange numbered registry utils tuples discover names)
sent =
    (run_reconnect_loop numbered registry utils tuples discover names "orders" 0
      (away ∷ broken ∷ quiet ∷ []) resolver).1

abbrev template : Metadata
template =
    apply_metadata_template numbered numbered.empty_metadata
      (unsigned_registry_read_metadata names "gateway" draws)

abbrev asked_first : Exchange numbered registry utils tuples discover names
asked_first = record {
  channel = "http://127.0.0.1:19090";
  request = watch_request config "orders" 0;
  metadata = template;
  answer = inr (record { messages = (1, came_two) ∷ (2, gone_one) ∷ []; failure = some "reset" });
}

abbrev asked_again : Exchange numbered registry utils tuples discover names
asked_again = record {
  channel = "http://127.0.0.1:19090";
  request = watch_request config "orders" 9;
  metadata = template;
  answer = inr (record { messages = []; failure = none });
}

reconnected : sent ≡ (asked_first ∷ []) ++ asked_again ∷ []
unfolding run_reconnect_loop get_or_init_channel normalize_http_endpoint run_watch_session
    strip_prefix apply_message
reconnected = refl

-- The first round cannot connect; the other two share a channel.
run_reconnect_loop-requests_example :
    (asked_again.request ≡ watch_request config "orders" 9)
    × (("http://127.0.0.1:19090" ∷ "http://127.0.0.1:19090" ∷ [])
        ≡ expected numbered registry utils tuples discover names inner none
            (away ∷ broken ∷ quiet ∷ []))
run_reconnect_loop-requests_example =
    run_reconnect_loop-requests numbered registry utils tuples discover names "orders" 0
      (away ∷ broken ∷ quiet ∷ []) resolver (asked_first ∷ []) asked_again [] reconnected

-- A service that nothing was delivered to asks from the revision of another.
abbrev asked_other : Exchange numbered registry utils tuples discover names
asked_other = record asked_again { request = watch_request config "billing" 9 }

shared :
    (run_reconnect_loop numbered registry utils tuples discover names "billing" 0
      (quiet ∷ [])
      (run_reconnect_loop numbered registry utils tuples discover names "orders" 0
        (broken ∷ [])
        resolver).0).1
    ≡ [] ++ asked_other ∷ []
unfolding run_reconnect_loop get_or_init_channel normalize_http_endpoint run_watch_session
    strip_prefix apply_message
shared = refl

run_reconnect_loop-shared_example : asked_other.request.from_revision ≡ 9
unfolding run_reconnect_loop get_or_init_channel
run_reconnect_loop-shared_example =
    run_reconnect_loop-shared numbered registry utils tuples discover names "billing" "orders" 0 0
      (quiet ∷ []) (broken ∷ []) resolver [] asked_other [] shared

-- The first instance deregisters while a resolve waits for an answer that has it.
resolve-deregistered_example :
    ((cached : CachedEndpoints)
      → lookup "orders" (apply_message utils tuples 3 "orders" gone_one start).cache ≡ some cached
      → any (λ e. str_eq e.endpoint "http://127.0.0.1:1") cached.endpoints ≡ false)
    × (resolve 9 9 "orders" (err (transport "down")) (
          run_watch_session utils tuples "orders"
            ((from_secs 8, beat) ∷ [])
            (store_result 4 "orders"
              (ok (up_one ∷ []))
              (apply_message utils tuples 3 "orders" gone_one start)).0)
        ≡ (
          run_watch_session utils tuples "orders"
              ((from_secs 8, beat) ∷ [])
              (store_result 4 "orders"
                (ok (up_one ∷ []))
                (apply_message utils tuples 3 "orders" gone_one start)).0,
          ok (up_one ∷ []),
        ))
resolve-deregistered_example =
    resolve-deregistered utils tuples 3 4 9 9 "orders" gone_one one (up_one ∷ [])
      ((from_secs 8, beat) ∷ []) (err (transport "down")) start refl refl refl refl (refl, tt)
      (omega arith)

resolve_and_connect-servable_example :
    ConnectsToServable numbered registry utils tuples discover names disk wire
      (default_channel_config disk wire utils)
      (as_resolver numbered registry utils tuples discover names inr draws 4 5
        (after numbered registry utils tuples discover names default_watch_config events inner)
        "orders")
      (resolve_and_connect disk wire utils
        (as_resolver numbered registry utils tuples discover names inr draws 4 5
          (after numbered registry utils tuples discover names default_watch_config events inner))
        "orders"
        round_robin
        (record { next = 7 })
        (default_channel_config disk wire utils)).1
resolve_and_connect-servable_example =
    resolve_and_connect-servable numbered registry utils tuples discover names disk wire
      default_watch_config events inner inr draws 4 5 round_robin (record { next = 7 })
      (default_channel_config disk wire utils) "orders"
