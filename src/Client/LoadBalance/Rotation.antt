-- ===== src/Client/LoadBalance/Rotation.antt =====
-- Round robin and weighted picks of crates/sdkwork-rpc-client/src/load_balance.rs over many calls.
use native.Mathlib.Nat.{zero-add}
use native.Mathlib.Decide.{dec_lt}
use sdkwork_rpc_framework.Prelude.{
  ℕ, zero, suc, ◌+◌, ◌-◌, ◌%◌, ◌≤◌, ◌<◌, ◌≡◌, ◌≢◌, refl, sym, ap, ◌∙◌, Option, some, List, [], ◌∷◌,
  ◌++◌, map, arith, length, get_elem?, replicate, length-append, length-replicate, Among-get_elem?,
}
use sdkwork_rpc_framework.Prelude.Rust.{u64_max}
use sdkwork_rpc_framework.Client.Resolver.{ResolvedEndpoint}
use sdkwork_rpc_framework.Client.LoadBalance.{
  LoadBalanceAlgorithm, round_robin, weighted, RoundRobinCursor, candidates, weight_of,
  total_weight, find_slot, pick_weighted, pick_from, pick_endpoint, advance,
}
use sdkwork_rpc_framework.Client.LoadBalance.Choice.{candidates-length, total_weight-pos}
use sdkwork_rpc_framework.Client.LoadBalance.Cycle.{
  cycle, rotate, cycle-rotate, get_elem?-replicate, get_elem?-skip,
}

-- The results of `k` calls in a row over one snapshot.
unfoldable pub picks :
    ℕ
    → List ResolvedEndpoint
    → LoadBalanceAlgorithm
    → RoundRobinCursor
    → List (Option ResolvedEndpoint)
picks zero es algorithm cursor = []
picks (suc k) es algorithm cursor =
    (pick_endpoint es algorithm cursor).1
    ∷ picks k es algorithm (pick_endpoint es algorithm cursor).0

-- An endpoint of weight `w` fills `w` slots, one at least.
unfoldable pub slots : List ResolvedEndpoint → List ResolvedEndpoint
slots [] = []
slots (e ∷ es) = replicate (weight_of e) e ++ slots es

length-slots : (es : List ResolvedEndpoint) → length (slots es) ≡ total_weight es
unfolding slots total_weight
length-slots [] = refl
length-slots (e ∷ es) = omega (
  arith,
  length-append (replicate (weight_of e) e) (slots es),
  length-replicate (weight_of e) e,
  length-slots es,
)

-- The loop reads the list of slots.
find_slot-slots :
    (slot acc : ℕ) (es : List ResolvedEndpoint)
    → find_slot (acc + slot) acc es ≡ get_elem? (slots es) slot
unfolding find_slot slots
find_slot-slots slot acc [] = refl
find_slot-slots slot acc (e ∷ es) = elim (dec_lt slot (weight_of e)) [
  | yes hit ↦ ground (arith, get_elem?-replicate (weight_of e) e (slots es) slot hit)
  | no miss ↦
      let past = slot - weight_of e in
      ground (
        arith,
        find_slot-slots past (acc + weight_of e) es,
        get_elem?-skip (weight_of e) e (slots es) past,
      )
]

candidates-weight :
    (x : ResolvedEndpoint) (xs : List ResolvedEndpoint) → 0 < total_weight (candidates (x ∷ xs))
candidates-weight x xs = total_weight-pos _ (candidates-length (x ∷ xs) (omega arith))

advance_lem :
    (cursor : RoundRobinCursor)
    → cursor.next < u64_max
    → advance cursor ≡ record { next = cursor.next + 1 }
unfolding advance
advance_lem cursor h = ground arith

picks-round_robin :
    (k : ℕ) (x : ResolvedEndpoint) (xs : List ResolvedEndpoint) (cursor : RoundRobinCursor)
    → cursor.next + k ≤ u64_max
    → picks k (x ∷ xs) round_robin cursor ≡ cycle k (candidates (x ∷ xs)) cursor.next
unfolding picks cycle pick_endpoint pick_from
picks-round_robin zero x xs cursor h = refl
picks-round_robin (suc k) x xs cursor h =
    rw (advance_lem cursor (omega arith))
      (rw (picks-round_robin k x xs (record { next = cursor.next + 1 }) (omega arith)))

-- The slot of a weighted pick lies in the list, so the loop does not fall through.
pick_weighted-slots :
    (es : List ResolvedEndpoint) (cursor : RoundRobinCursor)
    → 0 < total_weight es
    → pick_weighted es cursor
      ≡ (advance cursor, get_elem? (slots es) (cursor.next % length (slots es)))
unfolding pick_weighted
pick_weighted-slots es cursor h =
    let slot = cursor.next % total_weight es in
    let (e, q, m) = Among-get_elem? (slots es) slot (omega (arith, length-slots es)) in
    let found : find_slot slot 0 es ≡ some e =
      ap (λ n. find_slot n 0 es) (sym (zero-add slot)) ∙ find_slot-slots slot 0 es ∙ q in
    ground (arith, found, q, length-slots es)

picks-weighted :
    (k : ℕ) (x : ResolvedEndpoint) (xs : List ResolvedEndpoint) (cursor : RoundRobinCursor)
    → cursor.next + k ≤ u64_max
    → picks k (x ∷ xs) weighted cursor ≡ cycle k (slots (candidates (x ∷ xs))) cursor.next
unfolding picks cycle pick_endpoint pick_from
picks-weighted zero x xs cursor h = refl
picks-weighted (suc k) x xs cursor h =
    rw (pick_weighted-slots (candidates (x ∷ xs)) cursor (candidates-weight x xs)) (
      rw (advance_lem cursor (omega arith))
        (rw (picks-weighted k x xs (record { next = cursor.next + 1 }) (omega arith))))

-- Round robin visits every candidate exactly once, in order from where the cursor stands, in as
-- many calls as there are candidates, as long as the cursor stays below `usize::MAX`.
pub round_robin-rotate :
    (es : List ResolvedEndpoint) (cursor : RoundRobinCursor)
    → es ≢ []
    → cursor.next + length (candidates es) ≤ u64_max
    → picks (length (candidates es)) es round_robin cursor
      ≡ map some (rotate (cursor.next % length (candidates es)) (candidates es))
round_robin-rotate [] cursor h k = absurd (h refl)
round_robin-rotate (x ∷ xs) cursor h k =
    picks-round_robin _ x xs cursor k
    ∙ cycle-rotate (candidates (x ∷ xs)) cursor.next (candidates-length (x ∷ xs) (omega arith))

-- Weighted picks visit every candidate exactly as often as its weight (at least once) in as many
-- calls as the weights add up to, as long as the cursor stays below `usize::MAX`.
pub weighted-rotate :
    (es : List ResolvedEndpoint) (cursor : RoundRobinCursor)
    → es ≢ []
    → cursor.next + total_weight (candidates es) ≤ u64_max
    → picks (total_weight (candidates es)) es weighted cursor
      ≡ map some (rotate (cursor.next % total_weight (candidates es)) (slots (candidates es)))
weighted-rotate [] cursor h k = absurd (h refl)
weighted-rotate (x ∷ xs) cursor h k =
    let cs = candidates (x ∷ xs) in
    let around : cycle (length (slots cs)) (slots cs) cursor.next
        ≡ map some (rotate (cursor.next % length (slots cs)) (slots cs)) =
      cycle-rotate (slots cs) cursor.next
        (omega (arith, length-slots cs, candidates-weight x xs)) in
    picks-weighted _ x xs cursor k ∙ (rw (length-slots cs) at around)
