-- ===== src/Client/Watch/Session/Cursor.antt =====
-- From which revision the reconnect loop of
-- crates/sdkwork-rpc-client/src/watching_discovery_resolver.rs asks, and over which channel.
use Prim.Native.String.{String}
use mathlib.Core.List.{append-nil}
use sdkwork_rpc_framework.Prelude.{
  ℕ, ◌≡◌, refl, ap, subst, ◌∙◌, Option, none, some, List, [], ◌∷◌, ◌++◌, ◌⊎◌,
}
use sdkwork_rpc_framework.External.{Tonic, TextUtils, DiscoveryProto, MetadataNames}
use sdkwork_rpc_framework.Core.Error.{Result, ok, err}
use sdkwork_rpc_framework.Discovery.Registry.{Registry}
use sdkwork_rpc_framework.Client.Discovery.{
  DiscoveryNameResolverConfig, DiscoverInstancesRequest, get_or_init_channel, fill, dial,
  channel_or_dial,
}
use sdkwork_rpc_framework.Client.Watch.{WatchingDiscoveryNameResolver}
use sdkwork_rpc_framework.Client.Watch.Session.{
  watch_request, Delivery, Discovering, Watching, Exchange, Round, Dialling, asking, over_channel,
  watch_session, run_reconnect_loop,
}
use sdkwork_rpc_framework.Client.Watch.Session.Revisions.{
  greatest, greatest-append, answer_revisions as answer_revisions_over, revisions as revisions_over,
  greatest-joined, deliver-greatest,
}
use sdkwork_rpc_framework.Client.Watch.Session.Channels.{channels_of, expected, loop-channels}

module _ (tonic : Tonic) (registry : Registry tonic) (utils : TextUtils) (proto : DiscoveryProto)
    (discover_instances : registry.Channel
      → DiscoverInstancesRequest
      → tonic.MetadataMap
      → String ⊎ List (proto.ServiceInstance))
    (names : MetadataNames) where
  open registry use {Channel}
  open proto use {WatchMessage}

  abbrev Inner : Type 0
  Inner = Discovering tonic registry utils proto discover_instances names

  abbrev Sent : Type 0
  Sent = Exchange tonic registry utils proto discover_instances names

  abbrev answer_revisions : String ⊎ Delivery (proto.WatchMessage) → List ℕ
  answer_revisions answer =
      answer_revisions_over tonic registry utils proto discover_instances names answer

  abbrev revisions : List Sent → List ℕ
  revisions sent = revisions_over tonic registry utils proto discover_instances names sent

  abbrev Rounds : Type 0
  Rounds = List (Round tonic registry utils proto discover_instances names)

  module _ (config : DiscoveryNameResolverConfig) (name : String) where
    abbrev Resumes : ℕ → List Sent → Type 0
    Resumes from [] = Unit {0}
    Resumes from (x ∷ xs) =
        (x.request ≡ watch_request config name from)
        × Resumes (greatest from (answer_revisions x.answer)) xs

    Resumes-append :
        (from : ℕ) (xs ys : List Sent)
        → Resumes from xs
        → Resumes (greatest from (revisions xs)) ys
        → Resumes from (xs ++ ys)
    Resumes-append from [] ys h k = k
    Resumes-append from (x ∷ xs) ys (here, rest) k = (
      here,
      Resumes-append (greatest from (answer_revisions x.answer)) xs ys rest
          (rw (← greatest-append from (answer_revisions x.answer) (revisions xs)) k),
    )

    Resumes-split :
        (from : ℕ) (xs : List Sent) (x : Sent) (ys : List Sent)
        → Resumes from (xs ++ x ∷ ys)
        → x.request ≡ watch_request config name (greatest from (revisions xs))
    Resumes-split from [] x ys (here, rest) = here
    Resumes-split from (y ∷ xs) x ys (here, rest) =
        rw (greatest-append from (answer_revisions y.answer) (revisions xs))
          (Resumes-split (greatest from (answer_revisions y.answer)) xs x ys rest)

  fill-config :
      (inner : Inner) (dialling : Result Channel)
      → (fill tonic registry utils proto discover_instances inner dialling).0.config ≡ inner.config
  fill-config inner (err error) = refl
  fill-config inner (ok channel) = refl

  channel_or_dial-config :
      (connect : Dialling tonic registry utils proto discover_instances names) (inner : Inner)
      (cell : Option Channel)
      → (channel_or_dial tonic registry utils proto discover_instances connect inner cell).0.config
        ≡ inner.config
  channel_or_dial-config connect inner none =
      fill-config inner (dial tonic registry utils proto discover_instances connect inner)
  channel_or_dial-config connect inner (some channel) = refl

  over_channel-Resumes :
      (name : String) (round : Round tonic registry utils proto discover_instances names)
      (w : WatchingDiscoveryNameResolver) (inner : Inner) (outcome : Result Channel)
      → let (moved, sent, done) =
          over_channel tonic registry utils proto discover_instances names round name w
            (inner, outcome) in
        Resumes inner.config name w.last_revision sent
        × (moved.inner ≡ inner)
        × (moved.watched.last_revision ≡ greatest w.last_revision (revisions sent))
  over_channel-Resumes name round w inner (err error) = (tt, refl, refl)
  over_channel-Resumes name round w inner (ok channel) = (
    (refl, tt),
    refl,
    rw
        (append-nil (
          answer_revisions
            (asking tonic registry utils proto discover_instances names round name w inner
              channel).answer))
        (deliver-greatest tonic registry utils proto discover_instances names name _ w),
  )

  reconnecting :
      (name : String) (rounds : Rounds) (attempt : ℕ)
      (r : Watching tonic registry utils proto discover_instances names)
      → let (last, sent, sleeps) =
          run_reconnect_loop tonic registry utils proto discover_instances names name attempt rounds
            r in
        Resumes r.inner.config name r.watched.last_revision sent
        × (last.watched.last_revision ≡ greatest r.watched.last_revision (revisions sent))
  unfolding run_reconnect_loop watch_session get_or_init_channel
  reconnecting name [] attempt r = (tt, refl)
  reconnecting name (round ∷ rounds) attempt r =
      let outcome =
        channel_or_dial tonic registry utils proto discover_instances round.connect r.inner
          r.inner.channel in
      let session =
        over_channel tonic registry utils proto discover_instances names round name r.watched
          outcome in
      let first = r.watched.last_revision in
      let keeps = channel_or_dial-config round.connect r.inner r.inner.channel in
      let (asked, moved, seen) = over_channel-Resumes name round r.watched outcome.0 outcome.1 in
      let (more, reached) = reconnecting name rounds _ session.0 in
      let configured : session.0.inner.config ≡ r.inner.config = ap (λ i. i.config) moved ∙ keeps in
      (
        Resumes-append r.inner.config name first session.1 _
            (subst (λ c. Resumes c name first session.1) keeps asked)
            (rw (configured, seen) at more),
        greatest-joined tonic registry utils proto discover_instances names first _ _ session.1 _
            seen reached,
      )

  -- Every request of a reconnect loop that has the resolver to itself names the watched service in the
  -- configured namespace and environment, and asks from the greatest of the last revision that the
  -- loop found and all that the earlier sessions delivered, however these ended. All go over
  -- one channel, the one that the resolver has or else the first that a dial gives: until a dial succeeds
  -- a round sends nothing, and from then on every round sends one request.
  pub run_reconnect_loop-requests :
      (name : String) (attempt : ℕ)
      (rounds : List (Round tonic registry utils proto discover_instances names))
      (r : Watching tonic registry utils proto discover_instances names) (earlier : List Sent)
      (x : Sent) (later : List Sent)
      → (run_reconnect_loop tonic registry utils proto discover_instances names name attempt rounds
          r).1
        ≡ earlier ++ x ∷ later
      → (x.request
          ≡ watch_request r.inner.config name
              (greatest r.watched.last_revision (revisions earlier)))
        × (channels_of tonic registry utils proto discover_instances names (earlier ++ x ∷ later)
            ≡ expected tonic registry utils proto discover_instances names r.inner r.inner.channel
                rounds)
  run_reconnect_loop-requests name attempt rounds r earlier x later e = (
    Resumes-split r.inner.config name r.watched.last_revision earlier x later
        (rw (← e) (reconnecting name rounds attempt r).0),
    rw (← e)
        (loop-channels tonic registry utils proto discover_instances names rounds name attempt r),
  )

  -- The loops of two services share the revision: after one loop ran, the other's requests ask from
  -- the greatest of all that was delivered to either.
  pub run_reconnect_loop-shared :
      (name other : String) (attempt again : ℕ)
      (rounds rounds' : List (Round tonic registry utils proto discover_instances names))
      (r : Watching tonic registry utils proto discover_instances names) (earlier : List Sent)
      (x : Sent) (later : List Sent)
      → let (moved, sent, sleeps) =
          run_reconnect_loop tonic registry utils proto discover_instances names other again rounds'
            r in
        (run_reconnect_loop tonic registry utils proto discover_instances names name attempt rounds
            moved).1
          ≡ earlier ++ x ∷ later
        → x.request.from_revision ≡ greatest r.watched.last_revision (revisions (sent ++ earlier))
  run_reconnect_loop-shared name other attempt again rounds rounds' r earlier x later e =
      let ran =
        run_reconnect_loop tonic registry utils proto discover_instances names other again rounds'
          r in
      let (asked, channels) =
        run_reconnect_loop-requests name attempt rounds ran.0 earlier x later e in
      let (resumes, reached) = reconnecting other rounds' again r in
      greatest-joined tonic registry utils proto discover_instances names r.watched.last_revision _
        _ ran.1 earlier reached (ap (λ q. q.from_revision) asked)
