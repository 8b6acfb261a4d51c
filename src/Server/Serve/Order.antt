-- ===== src/Server/Serve/Order.antt =====
-- crates/sdkwork-rpc-server/src/lib.rs: the order in which a serving function starts its stages.
use mathlib.Core.List.{append_assoc, append-nil}
use sdkwork_rpc_framework.Prelude.{
  ℕ, String, ◌≡◌, refl, subst, ◌⊎◌, inl, inr, Option, Bool, true, false, List, [], ◌∷◌, ◌++◌, map,
  take, drop, arith,
}
use sdkwork_rpc_framework.Prelude.Rust.{Duration}
use sdkwork_rpc_framework.Core.Bootstrap.{shutdown_stages}
use sdkwork_rpc_framework.Prelude.Checked.{Checked, refused, passed}
use sdkwork_rpc_framework.Server.Error.{ServeError, transport, discovery_deregister, signal}
use sdkwork_rpc_framework.Server.Serve.{
  Event, Effect, trigger_shutdown, deregister, abort_renew, Phase, binding, serving, draining,
  deregistering, returned, step, drive, serve_with_renew_task, stage_of,
}

-- What the function has done by the time that it stands in a phase.
abbrev IsDone : Phase → List Effect → Type 0
IsDone binding done = done ≡ []
IsDone serving done = done ≡ []
IsDone draining done = done ≡ trigger_shutdown ∷ []
IsDone deregistering done = (done ≡ deregister ∷ []) ⊎ (done ≡ trigger_shutdown ∷ deregister ∷ [])
IsDone (returned (refused (transport error))) done = (done ≡ []) ⊎ (done ≡ trigger_shutdown ∷ [])
IsDone (returned (refused (signal error))) done = ⊥
IsDone (returned result) done =
    (done ≡ deregister ∷ abort_renew ∷ [])
    ⊎ (done ≡ trigger_shutdown ∷ deregister ∷ abort_renew ∷ [])

step-IsDone :
    (limit : Option Duration) (phase : Phase) (event : Event) (done : List Effect)
    → IsDone phase done
    → IsDone (step limit phase event).0 (done ++ (step limit phase event).1)
unfolding step
step-IsDone limit phase event done d = ground arith

drive-IsDone :
    (limit : Option Duration) (phase : Phase) (events : List Event) (done : List Effect)
    → IsDone phase done
    → IsDone (drive (step limit) phase events).0 (done ++ (drive (step limit) phase events).1)
unfolding drive
drive-IsDone limit phase [] done d = rw append-nil d
drive-IsDone limit phase (event ∷ events) done d =
    let here = step limit phase event in
    rw (← append_assoc)
      (drive-IsDone limit here.0 events (done ++ here.1) (step-IsDone limit phase event done d))

serve-IsDone :
    (limit : Option Duration) (events : List Event)
    → IsDone (serve_with_renew_task limit events).0 (serve_with_renew_task limit events).1
serve-IsDone limit events = drive-IsDone limit binding events [] refl

abbrev IsStages : List String → List Effect → Type 0
IsStages names done = map stage_of done ≡ names

abbrev InOrder : List Effect → Type 0
InOrder done =
    (k : ℕ) × (IsStages (take k shutdown_stages) done
      ⊎ IsStages (take k (drop 1 shutdown_stages)) done)

IsDone-InOrder : (phase : Phase) (done : List Effect) → IsDone phase done → InOrder done
unfolding stage_of
IsDone-InOrder binding done d = (0, inl (ground arith))
IsDone-InOrder serving done d = (0, inl (ground arith))
IsDone-InOrder draining done d = (1, inl (ground arith))
IsDone-InOrder deregistering done (inl d) = (1, inr (ground arith))
IsDone-InOrder deregistering done (inr d) = (2, inl (ground arith))
IsDone-InOrder (returned (refused (transport error))) done (inl d) = (0, inl (ground arith))
IsDone-InOrder (returned (refused (transport error))) done (inr d) = (1, inl (ground arith))
IsDone-InOrder (returned (refused (signal error))) done d = elim d [ ]
IsDone-InOrder (returned (refused (discovery_deregister error))) done (inl d) =
    (2, inr (ground arith))
IsDone-InOrder (returned (refused (discovery_deregister error))) done (inr d) =
    (3, inl (ground arith))
IsDone-InOrder (returned (passed value)) done (inl d) = (2, inr (ground arith))
IsDone-InOrder (returned (passed value)) done (inr d) = (3, inl (ground arith))

-- A serving function starts the shutdown stages in the order of the bootstrap contract, whatever
-- ends when: the stages that it has started by any moment are the first `k` of them, or the first `k`
-- of those after the drain.
pub serve-InOrder :
    (limit : Option Duration) (events : List Event)
    → (k : ℕ) × ((map stage_of (serve_with_renew_task limit events).1 ≡ take k shutdown_stages)
        ⊎ (map stage_of (serve_with_renew_task limit events).1 ≡ take k (drop 1 shutdown_stages)))
serve-InOrder limit events =
    let (last, done) = serve_with_renew_task limit events in
    IsDone-InOrder last done (serve-IsDone limit events)

abbrev is_transport : Checked ServeError (Unit {0}) → Bool
is_transport (refused (transport error)) = true
is_transport _ = false

IsDone-all :
    (result : Checked ServeError (Unit {0})) (done : List Effect)
    → IsDone (returned result) done
    → is_transport result ≡ false
    → IsStages shutdown_stages done ⊎ IsStages (drop 1 shutdown_stages) done
unfolding stage_of
IsDone-all (refused (transport error)) done d t = cc
IsDone-all (refused (signal error)) done d t = elim d [ ]
IsDone-all (refused (discovery_deregister error)) done (inl d) t = inr (ground arith)
IsDone-all (refused (discovery_deregister error)) done (inr d) t = inl (ground arith)
IsDone-all (passed value) done (inl d) t = inr (ground arith)
IsDone-all (passed value) done (inr d) t = inl (ground arith)

returned-IsDone :
    (limit : Option Duration) (events : List Event) (result : Checked ServeError (Unit {0}))
    → (serve_with_renew_task limit events).0 ≡ returned result
    → IsDone (returned result) (serve_with_renew_task limit events).1
returned-IsDone limit events result e =
    subst (λ phase. IsDone phase (serve_with_renew_task limit events).1) e
      (serve-IsDone limit events)

-- A serving function that returns, and not with a transport error, has gone through every
-- shutdown stage in order, or through every stage after the drain, the renew loop stopped last.
pub returned-all :
    (limit : Option Duration) (events : List Event) (result : Checked ServeError (Unit {0}))
    → (serve_with_renew_task limit events).0 ≡ returned result
    → is_transport result ≡ false
    → (map stage_of (serve_with_renew_task limit events).1 ≡ shutdown_stages)
      ⊎ (map stage_of (serve_with_renew_task limit events).1 ≡ drop 1 shutdown_stages)
returned-all limit events result e t =
    IsDone-all result (serve_with_renew_task limit events).1 (returned-IsDone limit events result e)
      t

-- A serving function that returns with a transport error has neither called `deregister` nor stopped the
-- renew loop: it has done nothing, or has only told the server to drain.
pub transport-leaves-lease :
    (limit : Option Duration) (events : List Event) (message : String)
    → (serve_with_renew_task limit events).0 ≡ returned (refused (transport message))
    → ((serve_with_renew_task limit events).1 ≡ [])
      ⊎ ((serve_with_renew_task limit events).1 ≡ trigger_shutdown ∷ [])
transport-leaves-lease limit events message e =
    returned-IsDone limit events (refused (transport message)) e
