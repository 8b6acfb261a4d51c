-- ===== src/Client/Resolver.antt =====
-- crates/sdkwork-rpc-client/src/resolver.rs: endpoints and the resolvers that need no network.
use sdkwork_rpc_framework.Prelude.{ℕ, String, Bool, true, List, [], ◌∷◌}
use sdkwork_rpc_framework.Core.Error.{Result, ok, err}

pub record ResolvedEndpoint : Type 0 where
  pub endpoint : String
  pub weight : ℕ
  pub healthy : Bool

-- An implementation of the trait `NameResolver`.
abbrev pub NameResolver : Type 0
NameResolver = String → Result (List ResolvedEndpoint)

pub record StaticNameResolver : Type 0 where
  pub endpoints : List ResolvedEndpoint

abbrev pub single : String → StaticNameResolver
single endpoint = record {
  endpoints = record { endpoint = endpoint; weight = 100; healthy = true } ∷ [];
}

unfoldable pub resolve_static : StaticNameResolver → NameResolver
resolve_static resolver service_name = ok resolver.endpoints

pub record CompositeNameResolver : Type 0 where
  pub primary : NameResolver
  pub fallback : StaticNameResolver

-- The fallback answers where the primary fails or finds nothing.
fall_back :
    Result (List ResolvedEndpoint) → Result (List ResolvedEndpoint) → Result (List ResolvedEndpoint)
fall_back (ok (e ∷ es)) other = ok (e ∷ es)
fall_back (ok []) other = other
fall_back (err e) other = other

unfoldable pub resolve_composite : CompositeNameResolver → NameResolver
unfolding fall_back resolve_static
resolve_composite resolver service_name =
    fall_back (resolver.primary service_name) (resolve_static resolver.fallback service_name)
