-- ===== src/Client/Watch/Session/Channels.antt =====
-- Over which channel the reconnect loop of
-- crates/sdkwork-rpc-client/src/watching_discovery_resolver.rs asks, where dialling may fail in some rounds.
use Prim.Native.String.{String}
use sdkwork_rpc_framework.Prelude.{
  ℕ, ◌≡◌, refl, ap, ◌∙◌, Option, none, some, List, [], ◌∷◌, ◌++◌, ◌⊎◌, map,
}
use sdkwork_rpc_framework.External.{Tonic, TextUtils, DiscoveryProto, MetadataNames}
use sdkwork_rpc_framework.Core.Error.{Result, ok, err}
use sdkwork_rpc_framework.Discovery.Registry.{Registry}
use sdkwork_rpc_framework.Client.Discovery.{
  DiscoverInstancesRequest, get_or_init_channel, fill, dial, channel_or_dial,
}
use sdkwork_rpc_framework.Client.Watch.{WatchingDiscoveryNameResolver, reconnect_round}
use sdkwork_rpc_framework.Client.Watch.Session.{
  Discovering, Watching, Exchange, Round, over_channel, watch_session, run_reconnect_loop,
}

module _ (tonic : Tonic) (registry : Registry tonic) (utils : TextUtils) (proto : DiscoveryProto)
    (discover_instances : registry.Channel
      → DiscoverInstancesRequest
      → tonic.MetadataMap
      → String ⊎ List (proto.ServiceInstance))
    (names : MetadataNames) where
  open registry use {Channel}

  abbrev Inner : Type 0
  Inner = Discovering tonic registry utils proto discover_instances names

  abbrev Rounds : Type 0
  Rounds = List (Round tonic registry utils proto discover_instances names)

  abbrev Sent : Type 0
  Sent = Exchange tonic registry utils proto discover_instances names

  abbrev State : Type 0
  State = Watching tonic registry utils proto discover_instances names

  abbrev pub channels_of : List Sent → List Channel
  channels_of sent = map (λ (x : Sent). x.channel) sent

  -- One request for every round from here on, over this channel.
  abbrev all_over : Channel → Rounds → List Channel
  all_over channel rounds = map (λ round. channel) rounds

  abbrev from_dial : Result Channel → Rounds → List Channel → List Channel
  from_dial (err error) rounds later = later
  from_dial (ok channel) rounds later = all_over channel rounds

  -- The channels of the requests: none for the rounds before a dial succeeds, and then the one that it gave.
  abbrev pub expected : Inner → Option Channel → Rounds → List Channel
  expected inner (some channel) rounds = all_over channel rounds
  expected inner none [] = []
  expected inner none (round ∷ rounds) =
      from_dial (dial tonic registry utils proto discover_instances round.connect inner)
        (round ∷ rounds) (expected inner none rounds)

  abbrev loop : String → ℕ → Rounds → State → List Sent
  loop name attempt rounds r =
      (run_reconnect_loop tonic registry utils proto discover_instances names name attempt rounds
        r).1

  -- What a round sends, and the rounds after it.
  abbrev onward :
      String
      → ℕ
      → Round tonic registry utils proto discover_instances names
      → Rounds
      → WatchingDiscoveryNameResolver
      → Inner × Result Channel
      → List Sent
  onward name attempt round rounds w outcome =
      let (moved, sent, done) =
        over_channel tonic registry utils proto discover_instances names round name w outcome in
      sent
      ++ loop name (reconnect_round round.jitter moved.watched.watch_config attempt done).0 rounds
          moved

  abbrev Follows : Rounds → Type 0
  Follows rounds =
      (name : String) (attempt : ℕ) (r : State)
      → channels_of (loop name attempt rounds r) ≡ expected r.inner r.inner.channel rounds

  onward-channel :
      (name : String) (attempt : ℕ)
      (round : Round tonic registry utils proto discover_instances names) (rounds : Rounds)
      (w : WatchingDiscoveryNameResolver) (inner : Inner) (channel : Channel)
      → Follows rounds
      → inner.channel ≡ some channel
      → channels_of (onward name attempt round rounds w (inner, ok channel))
        ≡ all_over channel (round ∷ rounds)
  onward-channel name attempt round rounds w inner channel ih filled =
      ap (λ cs. channel ∷ cs) (ih name _ _ ∙ ap (λ cell. expected inner cell rounds) filled)

  onward-fill :
      (name : String) (attempt : ℕ)
      (round : Round tonic registry utils proto discover_instances names) (rounds : Rounds)
      (w : WatchingDiscoveryNameResolver) (inner : Inner) (dialling : Result Channel)
      → Follows rounds
      → inner.channel ≡ none
      → channels_of (
          onward name attempt round rounds w
            (fill tonic registry utils proto discover_instances inner dialling))
        ≡ from_dial dialling (round ∷ rounds) (expected inner none rounds)
  onward-fill name attempt round rounds w inner (err error) ih empty =
      ih name _ _ ∙ ap (λ cell. expected inner cell rounds) empty
  onward-fill name attempt round rounds w inner (ok channel) ih empty =
      onward-channel name attempt round rounds w (record inner { channel = some channel }) channel
        ih refl

  onward-cell :
      (name : String) (attempt : ℕ)
      (round : Round tonic registry utils proto discover_instances names) (rounds : Rounds)
      (w : WatchingDiscoveryNameResolver) (inner : Inner) (cell : Option Channel)
      → Follows rounds
      → inner.channel ≡ cell
      → channels_of (
          onward name attempt round rounds w (
            channel_or_dial tonic registry utils proto discover_instances round.connect inner cell))
        ≡ expected inner cell (round ∷ rounds)
  onward-cell name attempt round rounds w inner none ih held =
      onward-fill name attempt round rounds w inner _ ih held
  onward-cell name attempt round rounds w inner (some channel) ih held =
      onward-channel name attempt round rounds w inner channel ih held

  expected-nil : (inner : Inner) (cell : Option Channel) → [] ≡ expected inner cell []
  expected-nil inner none = refl
  expected-nil inner (some channel) = refl

  pub loop-channels :
      (rounds : Rounds) (name : String) (attempt : ℕ) (r : State)
      → channels_of (loop name attempt rounds r) ≡ expected r.inner r.inner.channel rounds
  unfolding run_reconnect_loop watch_session get_or_init_channel
  loop-channels [] name attempt r = expected-nil r.inner r.inner.channel
  loop-channels (round ∷ rounds) name attempt r =
      onward-cell name attempt round rounds r.watched r.inner r.inner.channel (loop-channels rounds)
        refl
