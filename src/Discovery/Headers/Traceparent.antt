-- ===== src/Discovery/Headers/Traceparent.antt =====
-- The parent id of crates/sdkwork-rpc-discovery/src/rpc_metadata.rs: sixteen digits that read as a number.
use Prim.Native.Char.{code}
use Prim.Native.String.{String, [], ◌∷◌, ◌++◌}
use text.Mathlib.TextLemmas.{nil-append, cons-append}
use sdkwork_rpc_framework.Prelude.Text.{byte_len}
use sdkwork_rpc_framework.Prelude.Rust.{u64_max}
use sdkwork_rpc_framework.Prelude.{
  ℕ, zero, suc, ◌+◌, ◌-◌, ◌*◌, ◌/◌, ◌%◌, ◌^◌, ◌≤◌, ◌<◌, ◌≡◌, refl, ◌∙◌, Bool, true, ◌&&◌, ◌||◌, leb,
  if◌then◌else◌, arith, get_elem?,
}
use sdkwork_rpc_framework.Core.Identifier.{all_bytes}
use sdkwork_rpc_framework.Discovery.Headers.{
  hex_digits, digit_or_zero, hex_fixed, with_low_bit, Draws, build_traceparent,
}

-- A lower-case hexadecimal digit, and the number that digits after `n` read as.
abbrev pub is_lower_hex : ℕ → Bool
is_lower_hex c = leb b'0' c && leb c b'9' || leb b'a' c && leb c b'f'

abbrev digit_value : ℕ → ℕ
digit_value c = if leb c b'9' then c - b'0' else c - b'a' + 10

unfoldable pub hex_value : ℕ → String → ℕ
hex_value n [] = n
hex_value n (c ∷ s) = hex_value (n * 16 + digit_value (code c)) s

hex_value-append : (n : ℕ) (s t : String) → hex_value n (s ++ t) ≡ hex_value (hex_value n s) t
unfolding hex_value
hex_value-append n [] t = rw nil-append refl
hex_value-append n (c ∷ s) t = rw cons-append (hex_value-append (n * 16 + digit_value (code c)) s t)

byte_len-append : (s t : String) → byte_len (s ++ t) ≡ byte_len s + byte_len t
unfolding byte_len
byte_len-append [] t = rw nil-append (omega arith)
byte_len-append (c ∷ s) t = rw cons-append (omega (arith, byte_len-append s t))

all_bytes-append :
    (p : ℕ → Bool) (s t : String)
    → all_bytes p s ≡ true
    → all_bytes p t ≡ true
    → all_bytes p (s ++ t) ≡ true
unfolding all_bytes
all_bytes-append p [] t h k = rw nil-append k
all_bytes-append p (c ∷ s) t h k = rw cons-append (ground (arith, all_bytes-append p s t))

-- What a single digit is.
abbrev Reads : ℕ → ℕ → String → Type 0
Reads n d s = (hex_value n s ≡ n * 16 + d) × (byte_len s ≡ 1) × (all_bytes is_lower_hex s ≡ true)

digit-Reads : (n d : ℕ) → d < 16 → Reads n d (digit_or_zero (get_elem? hex_digits d))
unfolding hex_value byte_len all_bytes
digit-Reads n zero h = (omega arith, refl, refl)
digit-Reads n (suc zero) h = (omega arith, refl, refl)
digit-Reads n (suc (suc zero)) h = (omega arith, refl, refl)
digit-Reads n (suc (suc (suc zero))) h = (omega arith, refl, refl)
digit-Reads n (suc (suc (suc (suc zero)))) h = (omega arith, refl, refl)
digit-Reads n (suc (suc (suc (suc (suc zero))))) h = (omega arith, refl, refl)
digit-Reads n (suc (suc (suc (suc (suc (suc zero)))))) h = (omega arith, refl, refl)
digit-Reads n (suc (suc (suc (suc (suc (suc (suc zero))))))) h = (omega arith, refl, refl)
digit-Reads n (suc (suc (suc (suc (suc (suc (suc (suc zero)))))))) h = (omega arith, refl, refl)
digit-Reads n (suc (suc (suc (suc (suc (suc (suc (suc (suc zero))))))))) h =
    (omega arith, refl, refl)
digit-Reads n (suc (suc (suc (suc (suc (suc (suc (suc (suc (suc zero)))))))))) h =
    (omega arith, refl, refl)
digit-Reads n (suc (suc (suc (suc (suc (suc (suc (suc (suc (suc (suc zero))))))))))) h =
    (omega arith, refl, refl)
digit-Reads n (suc (suc (suc (suc (suc (suc (suc (suc (suc (suc (suc (suc zero)))))))))))) h =
    (omega arith, refl, refl)
digit-Reads n (suc (suc (suc (suc (suc (suc (suc (suc (suc (suc (suc (suc (suc zero))))))))))))) h =
    (omega arith, refl, refl)
digit-Reads n
      (suc (suc (suc (suc (suc (suc (suc (suc (suc (suc (suc (suc (suc (suc zero)))))))))))))) h =
    (omega arith, refl, refl)
digit-Reads n
      (suc (suc (suc (suc (suc (suc (suc (suc (suc (suc (suc (suc (suc (suc (suc zero)))))))))))))))
      h =
    (omega arith, refl, refl)
digit-Reads n
      (suc
        (suc (suc (suc (suc (suc (suc (suc (suc (suc (suc (suc (suc (suc (suc (suc d))))))))))))))))
      h =
    absurd (omega arith)

-- What `width` digits are, of a number that they can hold.
hex_fixed-value :
    (width n : ℕ)
    → n < 16 ^ width
    → (hex_value 0 (hex_fixed width n) ≡ n)
      × (byte_len (hex_fixed width n) ≡ width)
      × (all_bytes is_lower_hex (hex_fixed width n) ≡ true)
unfolding hex_fixed hex_value byte_len all_bytes
hex_fixed-value zero n h = (omega arith, refl, refl)
hex_fixed-value (suc width) n h =
    let (value, len, digits) = hex_fixed-value width (n / 16) (omega arith) in
    let (value', len', digits') =
      digit-Reads (hex_value 0 (hex_fixed width (n / 16))) (n % 16) (omega arith) in
    (
      hex_value-append 0 (hex_fixed width (n / 16)) _ ∙ value' ∙ omega (arith, value),
      byte_len-append (hex_fixed width (n / 16)) _ ∙ omega (arith, len, len'),
      all_bytes-append is_lower_hex (hex_fixed width (n / 16)) _ digits digits',
    )

-- The parent id of a traceparent is sixteen lower-case hexadecimal digits, whatever 64-bit number was
-- drawn, and reads as that number with its lowest bit set, so that it is never all zeros.
pub build_traceparent-parent :
    (draws : Draws)
    → draws.parent ≤ u64_max
    → (parent_id : String) × (build_traceparent draws
        ≡ (("00-" ++ draws.trace_id) ++ ("-" ++ parent_id)) ++ "-01")
      × (byte_len parent_id ≡ 16)
      × (all_bytes is_lower_hex parent_id ≡ true)
      × (hex_value 0 parent_id ≡ draws.parent / 2 * 2 + 1)
unfolding build_traceparent
build_traceparent-parent draws h =
    let (value, len, digits) = hex_fixed-value 16 (with_low_bit draws.parent) (ground arith) in
    (hex_fixed 16 (with_low_bit draws.parent), refl, len, digits, value ∙ ground arith)
