-- ===== src/Server/Serve.antt =====
-- crates/sdkwork-rpc-server/src/lib.rs: the serving functions, as machines that their futures drive.
-- An event is the end of a future that the function may await; one that it does not await where it
-- stands changes nothing. An effect is a call whose result is not awaited, or the start of a future.
pub mod Order
pub mod Return
use sdkwork_rpc_framework.Prelude.{
  ℕ, String, Bool, true, false, Option, none, some, List, [], ◌∷◌, ◌++◌,
}
use sdkwork_rpc_framework.Prelude.Rust.{Duration}
use sdkwork_rpc_framework.Core.Bootstrap.{
  stage_start_discovery_renew_loop, stage_drain_rpc_servers, stage_deregister_discovery_instance,
  stage_stop_discovery_renew_loop,
}
use sdkwork_rpc_framework.Prelude.Checked.{Checked, refused, passed}
use sdkwork_rpc_framework.Server.Error.{ServeError, transport, discovery_deregister}

-- The text of the error, where the future failed: of the bind, of the tonic server, of
-- `deregister`.
pub data Event : Type 0 where
  bind_ended serve_ended deregister_ended : (error : Option String) → Event
  shutdown_signalled drain_elapsed : Event

-- `tokio::spawn` of the renew loop, `shutdown_tx.send`, the call of `deregister`, and `abort`.
pub data Effect : Type 0 where
  spawn_renew trigger_shutdown deregister abort_renew : Effect

-- The await at which the function stands, and its result.
pub data Phase : Type 0 where
  binding serving draining deregistering : Phase
  returned : (result : Checked ServeError (Unit {0})) → Phase

-- `TcpListener::bind(bind_addr).await`, mapped and `?`.
abbrev pub on_bind : Event → Phase × List Effect
on_bind (bind_ended none) = (serving, [])
on_bind (bind_ended (some error)) = (returned (refused (transport error)), [])
on_bind _ = (binding, [])

-- `tokio::select!` of the server and the shutdown signal.
abbrev pub on_select : Event → Phase × List Effect
on_select (serve_ended none) = (deregistering, deregister ∷ [])
on_select (serve_ended (some error)) = (returned (refused (transport error)), [])
on_select shutdown_signalled = (draining, trigger_shutdown ∷ [])
on_select _ = (serving, [])

-- The server within `drain_timeout`, or without a limit.
abbrev pub on_drain : Option Duration → Event → Phase × List Effect
on_drain limit (serve_ended none) = (deregistering, deregister ∷ [])
on_drain limit (serve_ended (some error)) = (returned (refused (transport error)), [])
on_drain (some timeout) drain_elapsed = (deregistering, deregister ∷ [])
on_drain limit _ = (draining, [])

-- `discovery_handle.deregister().await`, then `renew_task.abort()` in both cases.
abbrev pub on_deregister : Event → Phase × List Effect
on_deregister (deregister_ended none) = (returned (passed tt), abort_renew ∷ [])
on_deregister (deregister_ended (some error)) =
    (returned (refused (discovery_deregister error)), abort_renew ∷ [])
on_deregister _ = (deregistering, [])

-- `serve_with_discovery_lifecycle_and_renew_task`, from an await to the next.
unfoldable pub step : Option Duration → Phase → Event → Phase × List Effect
step limit binding event = on_bind event
step limit serving event = on_select event
step limit draining event = on_drain limit event
step limit deregistering event = on_deregister event
step limit (returned result) event = (returned result, [])

-- A function's awaits, one after the other, with the effects in their order.
unfoldable pub drive :
    (Phase → Event → Phase × List Effect) → Phase → List Event → Phase × List Effect
drive resume phase [] = (phase, [])
drive resume phase (event ∷ events) =
    let (next, effects) = resume phase event in
    let (last, more) = drive resume next events in (last, effects ++ more)

abbrev pub serve_with_renew_task : Option Duration → List Event → Phase × List Effect
serve_with_renew_task limit events = drive (step limit) binding events

-- It spawns the renew loop, and then serves.
unfoldable pub serve_with_discovery_lifecycle : Option Duration → List Event → Phase × List Effect
serve_with_discovery_lifecycle limit events =
    let (last, effects) = serve_with_renew_task limit events in (last, spawn_renew ∷ effects)

-- `serve_with_graceful_shutdown` hands the signal to the server and awaits the server alone.
abbrev on_serve : Phase → Event → Phase × List Effect
on_serve phase (serve_ended none) = (returned (passed tt), [])
on_serve phase (serve_ended (some error)) = (returned (refused (transport error)), [])
on_serve serving shutdown_signalled = (draining, trigger_shutdown ∷ [])
on_serve phase _ = (phase, [])

unfoldable pub graceful_step : Phase → Event → Phase × List Effect
graceful_step binding event = on_bind event
graceful_step (returned result) event = (returned result, [])
graceful_step phase event = on_serve phase event

abbrev pub serve_with_graceful_shutdown : List Event → Phase × List Effect
serve_with_graceful_shutdown events = drive graceful_step binding events

-- The name in crates/sdkwork-rpc-core/src/bootstrap.rs of the stage that an effect begins.
unfoldable pub stage_of : Effect → String
stage_of spawn_renew = stage_start_discovery_renew_loop
stage_of trigger_shutdown = stage_drain_rpc_servers
stage_of deregister = stage_deregister_discovery_instance
stage_of abort_renew = stage_stop_discovery_renew_loop
