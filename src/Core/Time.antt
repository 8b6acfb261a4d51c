-- ===== src/Core/Time.antt =====
-- crates/sdkwork-rpc-core/src/caller_context.rs: `unix_seconds`.
use sdkwork_rpc_framework.Prelude.{leb, if◌then◌else◌}
use sdkwork_rpc_framework.Prelude.Rust.{as_secs}
use sdkwork_rpc_framework.Prelude.Int.{ℤ, pos, negsuc, i64_max}
use sdkwork_rpc_framework.Core.Error.{Result, ok, err, validation}

-- The nanoseconds since the Unix epoch, negative before it.
abbrev pub SystemTime : Type 0
SystemTime = ℤ

unfoldable pub unix_seconds : SystemTime → Result ℤ
unix_seconds (pos nanos) =
    if leb (as_secs nanos) i64_max
    then ok (pos (as_secs nanos))
    else err (validation "system clock is outside supported rpc caller context range")
unix_seconds (negsuc nanos) =
    err (validation "system clock precedes the Unix epoch while issuing rpc caller context")
