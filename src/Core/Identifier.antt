-- ===== src/Core/Identifier.antt =====
-- crates/sdkwork-rpc-core/src/service_identity.rs: `validate_identifier`, `validate_trust_domain`.
use Prim.Native.Char.{code}
use Prim.Native.String.{String, [], ◌∷◌, ◌++◌}
use sdkwork_rpc_framework.Prelude.Text.{byte_len}
use sdkwork_rpc_framework.Prelude.{
  ℕ, ◌≤◌, ◌<◌, ◌≡◌, Bool, true, not, ◌&&◌, ◌||◌, leb, ltb, ◌==◌, if◌then◌else◌, arith,
}
use sdkwork_rpc_framework.Core.Error.{Result, ok, err, validation, configuration}

-- `is_ascii_alphanumeric`.
abbrev pub is_alphanumeric : ℕ → Bool
is_alphanumeric c = leb b'a' c && leb c b'z' || leb b'A' c && leb c b'Z' || leb b'0' c && leb c b'9'

abbrev pub is_identifier_byte : ℕ → Bool
is_identifier_byte c = is_alphanumeric c || c == b'-' || c == b'_' || c == b'.' || c == b':'

abbrev is_domain_byte : ℕ → Bool
is_domain_byte c = is_alphanumeric c || c == b'-' || c == b'.'

-- `bytes().all(p)` for a `p` of ASCII bytes: a character beyond ASCII has only bytes that fail.
unfoldable pub all_bytes : (ℕ → Bool) → String → Bool
all_bytes p [] = true
all_bytes p (c ∷ s) = p (code c) && all_bytes p s

unfoldable pub validate_identifier : String → String → Result (Unit {0})
validate_identifier field value =
    if byte_len value == 0 || ltb 128 (byte_len value)
    then err (validation (field ++ " must contain 1 to 128 characters"))
    else if not (all_bytes is_identifier_byte value)
    then err (validation (field ++ " contains unsupported characters"))
    else ok tt

unfoldable pub validate_trust_domain : String → Result (Unit {0})
validate_trust_domain trust_domain =
    if byte_len trust_domain == 0 || ltb 253 (byte_len trust_domain)
    then err (configuration "SPIFFE trust_domain must contain 1 to 253 characters")
    else if not (all_bytes is_domain_byte trust_domain)
    then err (configuration "SPIFFE trust_domain contains unsupported characters")
    else ok tt

-- An identifier of the framework, as a predicate of its text.
pub record IsIdentifier (value : String) : Type 0 where
  pub nonempty : 0 < byte_len value
  pub short : byte_len value ≤ 128
  pub allowed : all_bytes is_identifier_byte value ≡ true

pub validate_identifier-IsIdentifier :
    (field value : String) → validate_identifier field value ≡ ok tt → IsIdentifier value
unfolding validate_identifier
validate_identifier-IsIdentifier field value e = ground arith

pub IsIdentifier-validate_identifier :
    (field value : String) → IsIdentifier value → validate_identifier field value ≡ ok tt
unfolding validate_identifier
IsIdentifier-validate_identifier field value h = ground arith
