-- ===== src/Core/ResolverProfile.antt =====
-- crates/sdkwork-rpc-core/src/profile.rs: how a client resolves names.
use Prim.Native.Char.{code}
use Prim.Native.String.{String, [], ◌∷◌}
use sdkwork_rpc_framework.Prelude.Text.{trim, lowercase}
use sdkwork_rpc_framework.Prelude.{Bool, true, false, ◌&&◌, Option, none, some, ◌==◌, if◌then◌else◌}

pub data ResolverProfile : Type 0 where
  static static_composite discovery composite : ResolverProfile

-- `value.to_ascii_lowercase() == text`.
unfoldable pub lowercase_eq : String → String → Bool
lowercase_eq [] [] = true
lowercase_eq [] (d ∷ text) = false
lowercase_eq (c ∷ value) [] = false
lowercase_eq (c ∷ value) (d ∷ text) = lowercase (code c) == code d && lowercase_eq value text

unfoldable pub parse : String → Option ResolverProfile
parse value =
    let text = trim value in
    if lowercase_eq text "static"
    then some static
    else if lowercase_eq text "static-composite"
    then some static_composite
    else if lowercase_eq text "discovery"
    then some discovery
    else if lowercase_eq text "composite"
    then some composite
    else none
