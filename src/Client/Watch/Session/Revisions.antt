-- ===== src/Client/Watch/Session/Revisions.antt =====
-- The revisions that the watch sessions of
-- crates/sdkwork-rpc-client/src/watching_discovery_resolver.rs deliver, and the greatest of them.
use Prim.Native.String.{String}
use sdkwork_rpc_framework.Prelude.{
  ℕ, ◌≡◌, refl, sym, ap, ◌∙◌, max, Option, none, some, List, [], ◌∷◌, ◌++◌, ◌⊎◌, inl, inr, arith,
}
use sdkwork_rpc_framework.External.{Tonic, TextUtils, DiscoveryProto, MetadataNames}
use sdkwork_rpc_framework.Discovery.Registry.{Registry}
use sdkwork_rpc_framework.Client.Discovery.{DiscoverInstancesRequest}
use sdkwork_rpc_framework.Client.Watch.{WatchingDiscoveryNameResolver}
use sdkwork_rpc_framework.Client.Watch.Messages.{advance_revision, apply_message, run_watch_session}
use sdkwork_rpc_framework.Client.Watch.Session.{Delivery, Exchange, deliver}

-- The greatest of some numbers and a first one.
abbrev pub greatest : ℕ → List ℕ → ℕ
greatest first [] = first
greatest first (n ∷ ns) = max n (greatest first ns)

max-greatest : (n first : ℕ) (ns : List ℕ) → max n (greatest first ns) ≡ greatest (max n first) ns
max-greatest n first [] = refl
max-greatest n first (m ∷ ns) = omega (arith, max-greatest n first ns)

pub greatest-append :
    (first : ℕ) (ns ms : List ℕ) → greatest first (ns ++ ms) ≡ greatest (greatest first ns) ms
greatest-append first [] ms = refl
greatest-append first (n ∷ ns) ms =
    omega (arith, greatest-append first ns ms, max-greatest n (greatest first ns) ms)

module _ (tonic : Tonic) (registry : Registry tonic) (utils : TextUtils) (proto : DiscoveryProto)
    (discover_instances : registry.Channel
      → DiscoverInstancesRequest
      → tonic.MetadataMap
      → String ⊎ List (proto.ServiceInstance))
    (names : MetadataNames) where
  open registry use {Channel}
  open proto use {WatchMessage}

  abbrev pub Sent : Type 0
  Sent = Exchange tonic registry utils proto discover_instances names

  abbrev pub revision_of : Option ℕ → List ℕ
  revision_of none = []
  revision_of (some n) = n ∷ []

  -- The revisions that messages carry, and those that answers and exchanges delivered.
  abbrev pub message_revisions : List (ℕ × WatchMessage) → List ℕ
  message_revisions [] = []
  message_revisions ((now, message) ∷ rest) =
      revision_of (proto.revision message) ++ message_revisions rest

  abbrev pub answer_revisions : String ⊎ Delivery WatchMessage → List ℕ
  answer_revisions (inl error) = []
  answer_revisions (inr delivery) = message_revisions delivery.messages

  abbrev pub revisions : List Sent → List ℕ
  revisions [] = []
  revisions (x ∷ xs) = answer_revisions x.answer ++ revisions xs

  pub greatest-joined :
      (first middle last : ℕ) (xs ys : List Sent)
      → middle ≡ greatest first (revisions xs)
      → last ≡ greatest middle (revisions ys)
      → last ≡ greatest first (revisions (xs ++ ys))
  greatest-joined first middle last [] ys e e' = e' ∙ ap (λ n. greatest n (revisions ys)) e
  greatest-joined first middle last (x ∷ xs) ys e e' =
      let first' = greatest first (answer_revisions x.answer) in
      greatest-joined first' middle last xs ys
        (e ∙ greatest-append first (answer_revisions x.answer) (revisions xs)) e'
      ∙ sym (greatest-append first (answer_revisions x.answer) (revisions (xs ++ ys)))

  advance_revision-greatest :
      (o : Option ℕ) (last : ℕ)
      → advance_revision utils proto o last ≡ greatest last (revision_of o)
  advance_revision-greatest none last = refl
  advance_revision-greatest (some n) last = ground arith

  run_watch_session-greatest :
      (name : String) (messages : List (ℕ × WatchMessage)) (w : WatchingDiscoveryNameResolver)
      → (run_watch_session utils proto name messages w).last_revision
        ≡ greatest w.last_revision (message_revisions messages)
  unfolding run_watch_session apply_message
  run_watch_session-greatest name [] w = refl
  run_watch_session-greatest name ((now, m) ∷ rest) w =
      let later = run_watch_session-greatest name rest (apply_message utils proto now name m w) in
      later
      ∙ (ap (λ n. greatest n (message_revisions rest))
            (advance_revision-greatest (proto.revision m) w.last_revision)
          ∙ sym (
              greatest-append w.last_revision (revision_of (proto.revision m))
                (message_revisions rest)))

  pub deliver-greatest :
      (name : String) (answer : String ⊎ Delivery WatchMessage) (w : WatchingDiscoveryNameResolver)
      → (deliver tonic registry utils proto discover_instances names name answer w).0.last_revision
        ≡ greatest w.last_revision (answer_revisions answer)
  deliver-greatest name (inl error) w = refl
  deliver-greatest name (inr delivery) w = run_watch_session-greatest name delivery.messages w
