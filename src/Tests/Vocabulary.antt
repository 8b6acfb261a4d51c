-- ===== src/Tests/Vocabulary.antt =====
-- Names with white space around them: the theorem on crates/sdkwork-rpc-core/src/profile.rs.
use sdkwork_rpc_framework.Core.ResolverProfile.{discovery, parse as parse_resolver, lowercase_eq}
use sdkwork_rpc_framework.Prelude.{◌≡◌, refl, some}
use sdkwork_rpc_framework.Prelude.Text.{trim}

parse_discovery : parse_resolver " Discovery " ≡ some discovery
unfolding parse_resolver lowercase_eq trim
parse_discovery = refl
