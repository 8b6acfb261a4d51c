-- ===== src/Core/Profile.antt =====
-- crates/sdkwork-rpc-core/src/profile.rs: the two vocabularies of profiles.
use text.Mathlib.Text.{◌==◌ as str_eq}
use text.Mathlib.TextEquality.{eq_iff}
use sdkwork_rpc_framework.Prelude.{
  String, ◌≡◌, ◌↔◌, refl, Bool, true, false, Option, none, some, arith, if◌then◌else◌,
}
use sdkwork_rpc_framework.Prelude.Text.{trim}

pub data ResilienceProfile : Type 0 where
  rpc_default rpc_read_only rpc_idempotent_write : ResilienceProfile
  rpc_critical_write rpc_stream rpc_local_dev : ResilienceProfile

unfoldable pub as_str : ResilienceProfile → String
as_str rpc_default = "rpc-default"
as_str rpc_read_only = "rpc-read-only"
as_str rpc_idempotent_write = "rpc-idempotent-write"
as_str rpc_critical_write = "rpc-critical-write"
as_str rpc_stream = "rpc-stream"
as_str rpc_local_dev = "rpc-local-dev"

unfoldable pub is_production_safe : ResilienceProfile → Bool
is_production_safe rpc_local_dev = false
is_production_safe _ = true

unfoldable pub parse : String → Option ResilienceProfile
parse value =
    let text = trim value in
    if str_eq text "rpc-default"
    then some rpc_default
    else if str_eq text "rpc-read-only"
    then some rpc_read_only
    else if str_eq text "rpc-idempotent-write"
    then some rpc_idempotent_write
    else if str_eq text "rpc-critical-write"
    then some rpc_critical_write
    else if str_eq text "rpc-stream"
    then some rpc_stream
    else if str_eq text "rpc-local-dev"
    then some rpc_local_dev
    else none

parse-eq-some :
    (value : String) (p : ResilienceProfile) → parse value ≡ some p → trim value ≡ as_str p
unfolding parse as_str
parse-eq-some value p e = ground (
  arith,
  eq_iff (trim value) "rpc-default",
  eq_iff (trim value) "rpc-read-only",
  eq_iff (trim value) "rpc-idempotent-write",
  eq_iff (trim value) "rpc-critical-write",
  eq_iff (trim value) "rpc-stream",
  eq_iff (trim value) "rpc-local-dev",
)

parse-as_str :
    (value : String) (p : ResilienceProfile) → trim value ≡ as_str p → parse value ≡ some p
unfolding parse as_str
parse-as_str value rpc_default e = rw e refl
parse-as_str value rpc_read_only e = rw e refl
parse-as_str value rpc_idempotent_write e = rw e refl
parse-as_str value rpc_critical_write e = rw e refl
parse-as_str value rpc_stream e = rw e refl
parse-as_str value rpc_local_dev e = rw e refl

-- A text is parsed as a resilience profile exactly when, without white space around it, it is that
-- profile's name.
parse_iff :
    (value : String) (p : ResilienceProfile) → (parse value ≡ some p) ↔ (trim value ≡ as_str p)
parse_iff value p = (parse-eq-some value p, parse-as_str value p)
