-- ===== src/Client/LoadBalance/Choice.antt =====
-- What crates/sdkwork-rpc-client/src/load_balance.rs picks: always an endpoint of the snapshot, and a
-- healthy one where there is any.
use sdkwork_rpc_framework.Prelude.{
  ℕ, ◌+◌, ◌%◌, ◌≤◌, ◌<◌, ◌≡◌, ◌≢◌, refl, inl, inr, true, some, List, [], ◌∷◌, any, arith, ltb,
  subst, sym, any-filter, Among-filter, Among-get_elem?, length, filter, Among, Bool-cases,
}
use sdkwork_rpc_framework.Client.Resolver.{ResolvedEndpoint}
use sdkwork_rpc_framework.Client.LoadBalance.{
  LoadBalanceAlgorithm, pick_first, round_robin, weighted, RoundRobinCursor, preferred, candidates,
  pick_from, weight_of, total_weight, find_slot, pick_endpoint,
}

-- The loop stops within the list while the slot lies below the sum of its weights.
Among-find_slot :
    (slot acc : ℕ) (es : List ResolvedEndpoint)
    → acc ≤ slot
    → slot < acc + total_weight es
    → (e : ResolvedEndpoint) × (find_slot slot acc es ≡ some e) × Among e es
unfolding find_slot total_weight
Among-find_slot slot acc [] h k = absurd (omega arith)
Among-find_slot slot acc (e ∷ es) h k = elim (Bool-cases (ltb slot (acc + weight_of e))) [
  | inl hit ↦ (e, rw hit, inl refl)
  | inr miss ↦
      let (d, q, m) = Among-find_slot slot (acc + weight_of e) es (ground arith) (omega arith) in
      (d, rw miss q, inr m)
]

-- A choice among the candidates of a snapshot.
pub record IsChoice (endpoints : List ResolvedEndpoint) (e : ResolvedEndpoint) : Type 0 where
  pub among : Among e endpoints
  pub prefers : any (λ x. x.healthy) endpoints ≡ true → e.healthy ≡ true

Among-preferred :
    (healthy endpoints : List ResolvedEndpoint) (e : ResolvedEndpoint)
    → filter (λ x. x.healthy) endpoints ≡ healthy
    → Among e (preferred healthy endpoints)
    → IsChoice endpoints e
unfolding preferred
Among-preferred [] endpoints e q m = record {
  among = m;
  prefers = λ some_healthy. cc (any-filter (λ x. x.healthy) endpoints q);
}
Among-preferred (d ∷ ds) endpoints e q m =
    let (among, healthy) = Among-filter (λ x. x.healthy) e endpoints (subst (Among e) (sym q) m) in
    record { among = among; prefers = λ _. healthy }

Among-candidates :
    (endpoints : List ResolvedEndpoint) (e : ResolvedEndpoint)
    → Among e (candidates endpoints)
    → IsChoice endpoints e
unfolding candidates
Among-candidates endpoints e m = Among-preferred _ endpoints e refl m

preferred-length :
    (healthy endpoints : List ResolvedEndpoint)
    → 0 < length endpoints
    → 0 < length (preferred healthy endpoints)
unfolding preferred
preferred-length [] endpoints h = h
preferred-length (d ∷ ds) endpoints h = omega arith

pub total_weight-pos : (es : List ResolvedEndpoint) → 0 < length es → 0 < total_weight es
unfolding total_weight
total_weight-pos [] h = elim h [ ]
total_weight-pos (e ∷ es) h = omega arith

pub candidates-length :
    (endpoints : List ResolvedEndpoint) → 0 < length endpoints → 0 < length (candidates endpoints)
unfolding candidates
candidates-length endpoints h = preferred-length _ endpoints h

pick_from-Among :
    (algorithm : LoadBalanceAlgorithm) (es : List ResolvedEndpoint) (cursor : RoundRobinCursor)
    → 0 < length es
    → (e : ResolvedEndpoint) × ((pick_from algorithm es cursor).1 ≡ some e) × Among e es
unfolding pick_from
pick_from-Among pick_first [] cursor h = elim h [ ]
pick_from-Among pick_first (e ∷ es) cursor h = (e, refl, inl refl)
pick_from-Among round_robin es cursor h = Among-get_elem? es (cursor.next % length es) (omega arith)
pick_from-Among weighted es cursor h =
    let pos = total_weight-pos es h in
    let (e, q, m) =
      Among-find_slot (cursor.next % total_weight es) 0 es (omega arith) (omega arith) in
    (e, ground arith, m)

-- From a snapshot that is not empty every algorithm picks an endpoint of it, wherever the cursor
-- stands, and a healthy one if the snapshot has any.
pub pick_endpoint-IsChoice :
    (endpoints : List ResolvedEndpoint) (algorithm : LoadBalanceAlgorithm)
    (cursor : RoundRobinCursor)
    → endpoints ≢ []
    → (e : ResolvedEndpoint) × ((pick_endpoint endpoints algorithm cursor).1 ≡ some e)
      × IsChoice endpoints e
unfolding pick_endpoint
pick_endpoint-IsChoice [] algorithm cursor h = absurd (h refl)
pick_endpoint-IsChoice (x ∷ xs) algorithm cursor h =
    let (e, q, m) =
      pick_from-Among algorithm (candidates (x ∷ xs)) cursor
        (candidates-length (x ∷ xs) (omega arith)) in
    (e, q, Among-candidates (x ∷ xs) e m)
