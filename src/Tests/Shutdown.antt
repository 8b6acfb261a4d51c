-- ===== src/Tests/Shutdown.antt =====
-- Shutdowns of a server, as its futures end: the theorems on crates/sdkwork-rpc-server/src/lib.rs.
use sdkwork_rpc_framework.Prelude.{
  ℕ, ◌≡◌, refl, ◌⊎◌, inl, inr, Option, none, some, List, [], ◌∷◌, map, take, drop,
}
use sdkwork_rpc_framework.Prelude.Rust.{Duration, from_secs}
use sdkwork_rpc_framework.Core.Bootstrap.{shutdown_stages}
use sdkwork_rpc_framework.Prelude.Checked.{Checked, passed}
use sdkwork_rpc_framework.Server.Error.{ServeError}
use sdkwork_rpc_framework.Server.Serve.{
  Event, bind_ended, serve_ended, deregister_ended, shutdown_signalled, drain_elapsed,
  trigger_shutdown, returned, step, drive, serve_with_renew_task, stage_of,
}
use sdkwork_rpc_framework.Server.Serve.Order.{serve-InOrder, returned-all, transport-leaves-lease}
use sdkwork_rpc_framework.Server.Serve.Return.{serve-returns}

abbrev limit : Option Duration
limit = some (from_secs 30)

-- The drain limit elapses, and the server ends while the instance is deregistered.
abbrev events : List Event
events =
    bind_ended none
    ∷ shutdown_signalled
    ∷ drain_elapsed
    ∷ serve_ended none
    ∷ deregister_ended none
    ∷ []

-- The server fails while it drains.
abbrev failing : List Event
failing = bind_ended none ∷ shutdown_signalled ∷ serve_ended (some "broken pipe") ∷ []

serve-InOrder_example :
    (k : ℕ) × ((map stage_of (serve_with_renew_task limit events).1 ≡ take k shutdown_stages)
      ⊎ (map stage_of (serve_with_renew_task limit events).1 ≡ take k (drop 1 shutdown_stages)))
serve-InOrder_example = serve-InOrder limit events

returned-all_example :
    (map stage_of (serve_with_renew_task limit events).1 ≡ shutdown_stages)
    ⊎ (map stage_of (serve_with_renew_task limit events).1 ≡ drop 1 shutdown_stages)
unfolding drive step
returned-all_example = returned-all limit events (passed tt) refl refl

transport-leaves-lease_example :
    ((serve_with_renew_task limit failing).1 ≡ [])
    ⊎ ((serve_with_renew_task limit failing).1 ≡ trigger_shutdown ∷ [])
unfolding drive step
transport-leaves-lease_example = transport-leaves-lease limit failing "broken pipe" refl

serve-returns_example :
    (result : Checked ServeError (Unit {0})) × ((serve_with_renew_task limit events).0
      ≡ returned result)
serve-returns_example =
    serve-returns (from_secs 30) events none none
      (inl (refl, inl (refl, inl (refl, inr (inl (refl, tt))))))
