-- ===== src/Core/Surface.antt =====
-- crates/sdkwork-rpc-core/src/surface.rs: the vocabulary of surfaces.
use text.Mathlib.Text.{◌==◌ as str_eq}
use text.Mathlib.TextEquality.{eq_iff}
use Prim.Native.String.{◌++◌}
use sdkwork_rpc_framework.Prelude.{
  String, ◌≡◌, ◌↔◌, refl, ◌⊎◌, inl, inr, Option, none, some, arith, if◌then◌else◌,
}
use sdkwork_rpc_framework.Prelude.Text.{trim}

pub data RpcSurface : Type 0 where
  app backend internal common : RpcSurface

unfoldable pub as_str : RpcSurface → String
as_str app = "app"
as_str backend = "backend"
as_str internal = "internal"
as_str common = "common"

unfoldable pub parse : String → Option RpcSurface
parse value =
    let text = trim value in
    if str_eq text "app"
    then some app
    else if str_eq text "backend"
    then some backend
    else if str_eq text "internal"
    then some internal
    else if str_eq text "common"
    then some common
    else none

or_message : String → Option RpcSurface → String ⊎ RpcSurface
or_message value none =
    inl (("rpc_surface must be one of app, backend, internal, common (got " ++ value) ++ ")")
or_message value (some surface) = inr surface

unfoldable pub validate_rpc_surface : String → String ⊎ RpcSurface
unfolding or_message
validate_rpc_surface value = or_message value (parse value)

parse-eq-some : (value : String) (s : RpcSurface) → parse value ≡ some s → trim value ≡ as_str s
unfolding parse as_str
parse-eq-some value s e = ground (
  arith,
  eq_iff (trim value) "app",
  eq_iff (trim value) "backend",
  eq_iff (trim value) "internal",
  eq_iff (trim value) "common",
)

parse-as_str : (value : String) (s : RpcSurface) → trim value ≡ as_str s → parse value ≡ some s
unfolding parse as_str
parse-as_str value app e = rw e refl
parse-as_str value backend e = rw e refl
parse-as_str value internal e = rw e refl
parse-as_str value common e = rw e refl

-- A text is accepted as a surface exactly when, without white space around it, it is that surface's
-- name.
validate_rpc_surface_iff :
    (value : String) (s : RpcSurface)
    → (validate_rpc_surface value ≡ inr s) ↔ (trim value ≡ as_str s)
unfolding validate_rpc_surface
validate_rpc_surface_iff value s =
    (λ e. ground (arith, parse-eq-some value s), λ e. rw (parse-as_str value s e) refl)
