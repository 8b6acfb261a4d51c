-- ===== src/Tests/Instances.antt =====
-- Small stand-ins for the crates that the framework calls, and a concrete caller context.
use Prim.Native.Char.{code}
use Prim.Native.String.{String, [], ◌∷◌, len}
use text.Mathlib.Text.{◌==◌ as str_eq}
use text.Mathlib.TextEquality.{eq_iff}
use sdkwork_rpc_framework.Prelude.Text.{eq_ignore_ascii_case, eq_ignore_ascii_case_self}
use sdkwork_rpc_framework.Prelude.{
  ℕ, zero, suc, ◌+◌, ◌≡◌, ◌↔◌, refl, sym, Bool, true, false, ◌&&◌, Option, none, some, List, arith,
  ◌==◌, if◌then◌else◌,
}
use sdkwork_rpc_framework.External.{Tonic, Codec}

abbrev pub Metadata : Type 0
Metadata = String → Option String

abbrev pub put : Metadata → String → String → Metadata
put m k v j = if str_eq k j then some v else m j

pub put_self : (m : Metadata) (k v : String) → put m k v k ≡ some v
put_self m k v = rw ((eq_iff k k).1 refl) refl

pub put_ne : (m : Metadata) (k j v : String) → eq_ignore_ascii_case k j ≡ false → put m k v j ≡ m j
put_ne m k j v h = ground (arith, eq_iff k j, eq_ignore_ascii_case_self k)

pub num_eq_iff : (a b : ℕ) → ((a == b) ≡ true) ↔ (a ≡ b)
num_eq_iff a b = (λ h. ground arith, λ h. ground arith)

-- Codes are gRPC's numbers, a metadata value is its text.
abbrev pub numbered : Tonic
numbered = record {
  Code = ℕ;
  code_eq = ◌==◌;
  code_eq_iff = num_eq_iff;
  unavailable = 14;
  resource_exhausted = 8;
  unauthenticated = 16;
  failed_precondition = 9;
  invalid_argument = 3;
  not_found = 5;
  unavailable-ne-resource_exhausted = omega arith;
  MetadataMap = Metadata;
  MetadataValue = String;
  empty_metadata = λ k. none;
  get = λ m k. m k;
  insert = put;
  get-insert_self = put_self;
  get-insert_ne = put_ne;
  value_of_str = some;
  to_str = some;
  to_str-value_of_str = λ s v h. sym h;
  is_key = λ k. true;
  Status = ℕ × Metadata;
  status = λ c message. (c, λ k. none);
  code = λ s. s.0;
  metadata = λ s. s.1;
  code-status = λ c message. refl;
}

-- A number is that many letters a and a b.
unary : ℕ → String → String
unary zero s = "b" ∷ s
unary (suc n) s = "a" ∷ unary n s

unfoldable pub encode : List ℕ → String
unfolding unary
encode List.[] = ""
encode (List.◌∷◌ n ns) = unary n (encode ns)

prepend : ℕ → Option (List ℕ) → Option (List ℕ)
prepend n none = none
prepend n (some ns) = some (List.◌∷◌ n ns)

unfoldable pub decode : ℕ → String → Option (List ℕ)
unfolding prepend
decode n [] = some List.[]
decode n (c ∷ s) =
    let closed = prepend n (decode 0 s) in
    let open_ = decode (n + 1) s in if code c == 98 then closed else open_

decode-unary : (n m : ℕ) (s : String) → decode n (unary m s) ≡ prepend (n + m) (decode 0 s)
unfolding decode unary
decode-unary n zero s = ground arith
decode-unary n (suc m) s = ground (arith, decode-unary (n + 1) m s)

pub decode-encode : (ns : List ℕ) → decode 0 (encode ns) ≡ some ns
unfolding encode decode
decode-encode List.[] = refl
decode-encode (List.◌∷◌ n ns) = rw (decode-unary 0 n (encode ns), decode-encode ns) (ground arith)

unfoldable pub same_numbers : List ℕ → List ℕ → Bool
same_numbers List.[] List.[] = true
same_numbers List.[] (List.◌∷◌ y ys) = false
same_numbers (List.◌∷◌ x xs) List.[] = false
same_numbers (List.◌∷◌ x xs) (List.◌∷◌ y ys) = x == y && same_numbers xs ys

pub same_numbers_self : (xs : List ℕ) → same_numbers xs xs ≡ true
unfolding same_numbers
same_numbers_self List.[] = refl
same_numbers_self (List.◌∷◌ x xs) = ground (arith, same_numbers_self xs)

-- A signature is the message's length and the key.
abbrev pub tag : String → List ℕ → List ℕ
tag message key = List.◌∷◌ (len message) key

unfoldable pub lettered : Codec
unfolding encode decode same_numbers
lettered = record {
  base64url_encode = encode;
  base64url_decode = decode 0;
  hmac_sha256_base64url = λ message key. encode (tag message key);
  verify_hmac_sha256_base64url = λ message key signature. same_numbers signature (tag message key);
  sha256_hash = encode;
  base64url_decode-encode = decode-encode;
  signature_bytes = tag;
  base64url_decode-hmac = λ message key. decode-encode (tag message key);
  verify-hmac = λ message key. same_numbers_self (tag message key);
}
