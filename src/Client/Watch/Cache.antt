-- ===== src/Client/Watch/Cache.antt =====
-- What the watch cache of crates/sdkwork-rpc-client/src/watching_discovery_resolver.rs holds, whatever
-- the events, and what `resolve` answers from it.
use text.Mathlib.Text.{◌==◌ as str_eq}
use sdkwork_rpc_framework.Prelude.{
  ℕ, String, ◌<◌, ◌≡◌, refl, sym, ◌∙◌, subst, inl, inr, Bool, true, false, not, some, List, [], ◌∷◌,
  is_empty, if◌then◌else◌, filter, All, Bool-cases, Option-cases,
}
use sdkwork_rpc_framework.Prelude.Map.{Map, lookup, insert, remove, lookup-insert, lookup-remove}
use sdkwork_rpc_framework.Client.Resolver.{ResolvedEndpoint}
use sdkwork_rpc_framework.Client.Watch.{
  CachedEndpoints, upsert_endpoint, retain_others, entry_or_empty, store_or_remove,
}

-- An endpoint that a pick may use.
pub record IsServable (e : ResolvedEndpoint) : Type 0 where
  pub up : e.healthy ≡ true
  pub weighed : 0 < e.weight

abbrev pub AllServable : List ResolvedEndpoint → Type 0
AllServable es = All IsServable es

abbrev pub IsServing : Map CachedEndpoints → Type 0
IsServing cache =
    (name : String) (cached : CachedEndpoints)
    → lookup name cache ≡ some cached
    → AllServable cached.endpoints

pub AllServable-upsert_endpoint :
    (es : List ResolvedEndpoint) (e : ResolvedEndpoint)
    → AllServable es
    → IsServable e
    → AllServable (upsert_endpoint es e)
unfolding upsert_endpoint
AllServable-upsert_endpoint [] e all h = (h, tt)
AllServable-upsert_endpoint (x ∷ xs) e (here, rest) h =
    elim (Bool-cases (str_eq x.endpoint e.endpoint)) [
      | inl same ↦ rw same (h, rest)
      | inr other ↦ rw other (here, AllServable-upsert_endpoint xs e rest h)
    ]

AllServable-filter :
    (p : ResolvedEndpoint → Bool) (es : List ResolvedEndpoint)
    → AllServable es
    → AllServable (filter p es)
AllServable-filter p [] all = tt
AllServable-filter p (x ∷ xs) (here, rest) = elim (Bool-cases (p x)) [
  | inl kept ↦ rw kept (here, AllServable-filter p xs rest)
  | inr dropped ↦ rw dropped (AllServable-filter p xs rest)
]

pub AllServable-if :
    (b : Bool) (e : ResolvedEndpoint) (es : List ResolvedEndpoint)
    → (b ≡ true → IsServable e)
    → AllServable es
    → AllServable (if b then e ∷ es else es)
AllServable-if true e es h all = (h refl, all)
AllServable-if false e es h all = all

pub AllServable-retain_others :
    (uri : String) (es : List ResolvedEndpoint)
    → AllServable es
    → AllServable (retain_others uri es)
unfolding retain_others
AllServable-retain_others uri es all = AllServable-filter (λ x. not (str_eq x.endpoint uri)) es all

pub IsServing-insert :
    (name : String) (cached : CachedEndpoints) (cache : Map CachedEndpoints)
    → IsServing cache
    → AllServable cached.endpoints
    → IsServing (insert name cached cache)
IsServing-insert name cached cache w h key found e = elim (Bool-cases (str_eq key name)) [
  | inl same ↦
      let q : some cached ≡ some found =
        rw same at (sym (lookup-insert key name cached cache) ∙ e) in
      let entry : cached ≡ found = cc q in
      subst (λ (c : CachedEndpoints). AllServable c.endpoints) entry h
  | inr other ↦ w key found (rw other at (sym (lookup-insert key name cached cache) ∙ e))
]

IsServing-remove :
    (name : String) (cache : Map CachedEndpoints) → IsServing cache → IsServing (remove name cache)
IsServing-remove name cache w key found e = elim (Bool-cases (str_eq key name)) [
  | inl same ↦ absurd (cc (lookup-remove key name cache, e, same))
  | inr other ↦ w key found (rw other at (sym (lookup-remove key name cache) ∙ e))
]

pub AllServable-entry :
    (now : ℕ) (name : String) (cache : Map CachedEndpoints)
    → IsServing cache
    → AllServable (entry_or_empty now (lookup name cache)).endpoints
AllServable-entry now name cache w = elim (Option-cases (lookup name cache)) [
  | inl e ↦ rw e tt
  | inr (cached, e) ↦ rw e (w name cached e)
]

pub IsServing-store_or_remove :
    (name : String) (cached : CachedEndpoints) (cache : Map CachedEndpoints)
    → IsServing cache
    → AllServable cached.endpoints
    → IsServing (store_or_remove name cached cache)
IsServing-store_or_remove name cached cache w h = elim (Bool-cases (is_empty cached.endpoints)) [
  | inl gone ↦ rw gone (IsServing-remove name cache w)
  | inr left ↦ rw left (IsServing-insert name cached cache w h)
]
