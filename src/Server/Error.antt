-- ===== src/Server/Error.antt =====
-- crates/sdkwork-rpc-server/src/lib.rs: the error of the server's functions, and its text.
use Prim.Native.String.{◌++◌}
use sdkwork_rpc_framework.Prelude.{String, ◌⊎◌, inl, inr}
use sdkwork_rpc_framework.Prelude.Checked.{Checked, refused, passed}

pub data ServeError : Type 0 where
  transport discovery_deregister signal : (message : String) → ServeError

-- `Display`.
unfoldable pub display : ServeError → String
display (transport message) = "rpc server transport error: " ++ message
display (discovery_deregister message) = "rpc server discovery deregister error: " ++ message
display (signal message) = "rpc server signal handler error: " ++ message

-- `wait_for_ctrl_c`, by what the signal handler answers.
abbrev pub wait_for_ctrl_c : String ⊎ Unit {0} → Checked ServeError (Unit {0})
wait_for_ctrl_c (inl error) = refused (signal error)
wait_for_ctrl_c (inr done) = passed tt
