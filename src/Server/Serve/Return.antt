-- ===== src/Server/Serve/Return.antt =====
-- crates/sdkwork-rpc-server/src/lib.rs: a shutdown that is asked for comes to an end.
use sdkwork_rpc_framework.Prelude.{
  String, ◌≡◌, refl, ◌⊎◌, inl, inr, Option, some, List, [], ◌∷◌, arith,
}
use sdkwork_rpc_framework.Prelude.Rust.{Duration}
use sdkwork_rpc_framework.Prelude.Checked.{Checked}
use sdkwork_rpc_framework.Server.Error.{ServeError}
use sdkwork_rpc_framework.Server.Serve.{
  Event, bind_ended, deregister_ended, shutdown_signalled, drain_elapsed, Phase, binding, serving,
  draining, deregistering, returned, step, drive, serve_with_renew_task,
}

-- The first list's events occur in the second, in this order, with any others between them.
abbrev pub Occur : List Event → List Event → Type 0
Occur [] events = Unit
Occur (awaited ∷ rest) [] = ⊥
Occur (awaited ∷ rest) (event ∷ events) =
    ((awaited ≡ event) × Occur rest events) ⊎ Occur (awaited ∷ rest) events

Occur-tail :
    (awaited : Event) (rest events : List Event) → Occur (awaited ∷ rest) events → Occur rest events
Occur-tail awaited rest [] o = elim o [ ]
Occur-tail awaited [] (event ∷ events) o = tt
Occur-tail awaited (next ∷ rest) (event ∷ events) (inl here) = inr here.1
Occur-tail awaited (next ∷ rest) (event ∷ events) (inr later) =
    inr (Occur-tail awaited (next ∷ rest) events later)

-- The events that bring a function with a drain limit from a phase to its end.
abbrev pub to_return : Phase → Option String → Option String → List Event
to_return binding bind_error error =
    bind_ended bind_error ∷ shutdown_signalled ∷ drain_elapsed ∷ deregister_ended error ∷ []
to_return serving bind_error error =
    shutdown_signalled ∷ drain_elapsed ∷ deregister_ended error ∷ []
to_return draining bind_error error = drain_elapsed ∷ deregister_ended error ∷ []
to_return deregistering bind_error error = deregister_ended error ∷ []
to_return (returned result) bind_error error = []

-- Once the awaited event has occurred or been passed over, the events after it still occur.
Occur-next :
    (awaited event : Event) (rest events : List Event)
    → Occur (awaited ∷ rest) (event ∷ events)
    → Occur rest events
Occur-next awaited event rest events (inl here) = here.1
Occur-next awaited event rest events (inr later) = Occur-tail awaited rest events later

step-to_return :
    (timeout : Duration) (phase : Phase) (event : Event) (events : List Event)
    (bind_error error : Option String)
    → Occur (to_return phase bind_error error) (event ∷ events)
    → Occur (to_return (step (some timeout) phase event).0 bind_error error) events
unfolding step
step-to_return timeout (returned result) event events b error o = tt
step-to_return timeout phase event events b error o = ground (
  arith,
  Occur-next (bind_ended b) event (shutdown_signalled ∷ drain_elapsed ∷ deregister_ended error ∷ [])
      events,
  Occur-next shutdown_signalled event (drain_elapsed ∷ deregister_ended error ∷ []) events,
  Occur-next drain_elapsed event (deregister_ended error ∷ []) events,
)

drive-to_return :
    (timeout : Duration) (phase : Phase) (events : List Event) (bind_error error : Option String)
    → Occur (to_return phase bind_error error) events
    → (result : Checked ServeError (Unit {0})) × ((drive (step (some timeout)) phase events).0
        ≡ returned result)
unfolding drive
drive-to_return timeout (returned result) [] b error o = (result, refl)
drive-to_return timeout binding [] b error o = elim o [ ]
drive-to_return timeout serving [] b error o = elim o [ ]
drive-to_return timeout draining [] b error o = elim o [ ]
drive-to_return timeout deregistering [] b error o = elim o [ ]
drive-to_return timeout phase (event ∷ events) b error o =
    drive-to_return timeout (step (some timeout) phase event).0 events b error
      (step-to_return timeout phase event events b error o)

-- With a drain limit, a serving function returns, whatever the server does: once the bind has ended,
-- the shutdown has been signalled, the limit has elapsed after that and the deregistration has ended
-- after that, with or without an error, whatever else ends in between.
pub serve-returns :
    (timeout : Duration) (events : List Event) (bind_error deregister_error : Option String)
    → Occur
        (bind_ended bind_error
          ∷ shutdown_signalled
          ∷ drain_elapsed
          ∷ deregister_ended deregister_error
          ∷ [])
        events
    → (result : Checked ServeError (Unit {0})) × ((serve_with_renew_task (some timeout) events).0
        ≡ returned result)
serve-returns timeout events b error o = drive-to_return timeout binding events b error o
