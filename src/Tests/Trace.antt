-- ===== src/Tests/Trace.antt =====
-- A trace header: the theorem on crates/sdkwork-rpc-discovery/src/rpc_metadata.rs at one call's draws.
use Prim.Native.String.{String, ◌++◌}
use sdkwork_rpc_framework.Prelude.{◌+◌, ◌*◌, ◌/◌, ◌≡◌, true, arith}
use sdkwork_rpc_framework.Prelude.Text.{byte_len}
use sdkwork_rpc_framework.Core.Identifier.{all_bytes}
use sdkwork_rpc_framework.Discovery.Headers.{Draws, build_traceparent}
use sdkwork_rpc_framework.Discovery.Headers.Traceparent.{
  is_lower_hex, hex_value, build_traceparent-parent,
}

abbrev draws : Draws
draws = record {
  request_id = "request-1";
  trace_id = "4bf92f3577b34da6a3ce929d0e0e4736";
  parent = 254;
}

build_traceparent-parent_example :
    (parent_id : String) × (build_traceparent draws
      ≡ (("00-" ++ draws.trace_id) ++ ("-" ++ parent_id)) ++ "-01")
    × (byte_len parent_id ≡ 16)
    × (all_bytes is_lower_hex parent_id ≡ true)
    × (hex_value 0 parent_id ≡ 254 / 2 * 2 + 1)
build_traceparent-parent_example = build_traceparent-parent draws (omega arith)
