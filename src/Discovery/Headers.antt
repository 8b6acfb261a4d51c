-- ===== src/Discovery/Headers.antt =====
-- crates/sdkwork-rpc-discovery/src/rpc_metadata.rs: the metadata of a call to the registry. The texts of
-- `Uuid::new_v4` and the number of the random generator are arguments.
pub mod Traceparent
use Prim.Native.String.{String, ◌++◌}
use sdkwork_rpc_framework.Prelude.{
  ℕ, zero, suc, ◌+◌, ◌/◌, ◌%◌, Option, none, some, List, [], ◌∷◌, if◌then◌else◌, ◌==◌, get_elem?,
}
use sdkwork_rpc_framework.External.{Tonic, MetadataNames}

abbrev pub hex_digits : List String
hex_digits =
    "0" ∷ "1" ∷ "2" ∷ "3" ∷ "4" ∷ "5" ∷ "6" ∷ "7" ∷ "8" ∷ "9" ∷ "a" ∷ "b" ∷ "c" ∷ "d" ∷ "e" ∷ "f"
    ∷ []

abbrev pub digit_or_zero : Option String → String
digit_or_zero none = "0"
digit_or_zero (some digit) = digit

-- The last `width` hexadecimal digits of a number, with zeros in front.
unfoldable pub hex_fixed : ℕ → ℕ → String
hex_fixed zero n = ""
hex_fixed (suc width) n = hex_fixed width (n / 16) ++ digit_or_zero (get_elem? hex_digits (n % 16))

-- `n | 1`.
abbrev pub with_low_bit : ℕ → ℕ
with_low_bit n = if n % 2 == 0 then n + 1 else n

-- What one call draws: `Uuid::new_v4` for the request, a simple one for the trace, and a `u64`.
pub record Draws : Type 0 where
  pub request_id : String
  pub trace_id : String
  pub parent : ℕ

-- `{:016x}` of a `u64` is its last 16 digits.
unfoldable pub build_traceparent : Draws → String
build_traceparent draws =
    (("00-" ++ draws.trace_id) ++ ("-" ++ hex_fixed 16 (with_low_bit draws.parent))) ++ "-01"

-- An implementation of the trait `SubjectTokenProvider`, by its answer.
pub record SubjectTokenProvider : Type 0 where
  pub subject_token : String

pub record UnsignedLocalSubject : Type 0 where
  pub subject_id : String

abbrev pub as_provider : UnsignedLocalSubject → SubjectTokenProvider
as_provider subject = record { subject_token = subject.subject_id }

unfoldable pub registry_metadata :
    MetadataNames → SubjectTokenProvider → String → Draws → List (String × String)
unfolding build_traceparent
registry_metadata names provider permission draws =
    ("x-sdkwork-subject-id", provider.subject_token)
    ∷ ("x-sdkwork-registry-permissions", permission)
    ∷ (names.request_id, draws.request_id)
    ∷ (names.traceparent, build_traceparent draws)
    ∷ []

abbrev pub registry_read_metadata :
    MetadataNames → SubjectTokenProvider → Draws → List (String × String)
registry_read_metadata names provider draws = registry_metadata names provider "read" draws

abbrev pub registry_write_metadata :
    MetadataNames → SubjectTokenProvider → Draws → List (String × String)
registry_write_metadata names provider draws = registry_metadata names provider "write" draws

abbrev pub unsigned_registry_read_metadata : MetadataNames → String → Draws → List (String × String)
unsigned_registry_read_metadata names subject_id draws =
    registry_read_metadata names (as_provider (record { subject_id = subject_id })) draws

abbrev pub unsigned_registry_write_metadata :
    MetadataNames → String → Draws → List (String × String)
unsigned_registry_write_metadata names subject_id draws =
    registry_write_metadata names (as_provider (record { subject_id = subject_id })) draws

module _ (tonic : Tonic) where
  open tonic use {MetadataMap, MetadataValue, insert, value_of_str, is_key}

  abbrev insert_value : MetadataMap → String → Option MetadataValue → MetadataMap
  insert_value metadata key none = metadata
  insert_value metadata key (some value) =
      if is_key key then insert metadata key value else metadata

  unfoldable pub insert_ascii : MetadataMap → String → String → MetadataMap
  insert_ascii metadata key value = insert_value metadata key (value_of_str value)

  unfoldable pub apply_metadata_template : MetadataMap → List (String × String) → MetadataMap
  apply_metadata_template target [] = target
  apply_metadata_template target (entry ∷ template) =
      apply_metadata_template (insert_ascii target entry.0 entry.1) template
