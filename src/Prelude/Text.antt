-- ===== src/Prelude/Text.antt =====
-- Rust's `str` over the native texts: prefixes, numbers, a search for one character.
use Prim.Native.Nat.{ℕ, zero, suc, ◌+◌, ◌-◌, ◌*◌, ◌/◌, ◌%◌}
use Prim.Native.Char.{code}
use Prim.Native.String.{String, [], ◌∷◌, ◌++◌}
use mathlib.Core.Path.{◌≡◌, refl, sym, ◌∙◌}
use mathlib.Core.Logic.{inl, inr}
use mathlib.Core.Bool.{Bool, true, false, ◌&&◌, ◌||◌}
use mathlib.Core.Option.{Option, none, some}
use native.Mathlib.Omega.{arith}
use text.Mathlib.TextEquality.{Char-path}
use text.Mathlib.TextLemmas.{nil-append, cons-append}
use sdkwork_rpc_framework.Prelude.Tests.{ltb, leb, ◌==◌, if◌then◌else◌, Bool-cases, is_some}
use sdkwork_rpc_framework.Prelude.Rust.{u64_max}

none-ne-some : {A : Type 0} {a : A} → none ≡ some a → ⊥
none-ne-some e = cc

-- The bytes of a character in UTF-8, and `s.len()`.
abbrev pub utf8_width : ℕ → ℕ
utf8_width c = if ltb c 128 then 1 else if ltb c 2_048 then 2 else if ltb c 65_536 then 3 else 4

unfoldable pub byte_len : String → ℕ
byte_len [] = 0
byte_len (c ∷ s) = utf8_width (code c) + byte_len s

abbrev pub is_digit : ℕ → Bool
is_digit c = leb b'0' c && leb c b'9'

-- The digits of `str::parse::<u64>`: an overflow is an error where it occurs.
parse_digits : ℕ → String → Option ℕ
parse_digits n [] = some n
parse_digits n (c ∷ s) =
    let next = n * 10 + (code c - b'0') in
    let rest = parse_digits next s in if is_digit (code c) && leb next u64_max then rest else none

nonempty_digits : String → Option ℕ
unfolding parse_digits
nonempty_digits [] = none
nonempty_digits (c ∷ s) = parse_digits 0 (c ∷ s)

-- `text.parse::<u64>().ok()`: one `+` may stand before the digits.
unfoldable pub parse_u64 : String → Option ℕ
unfolding nonempty_digits
parse_u64 [] = none
parse_u64 (c ∷ s) = if code c == b'+' then nonempty_digits s else nonempty_digits (c ∷ s)

-- `s.strip_prefix(p)`.
unfoldable pub strip_prefix : String → String → Option String
strip_prefix [] s = some s
strip_prefix (p ∷ ps) [] = none
strip_prefix (p ∷ ps) (c ∷ s) = if code p == code c then strip_prefix ps s else none

pub strip_prefix-append : (p s : String) → strip_prefix p (p ++ s) ≡ some s
unfolding strip_prefix
strip_prefix-append [] s = rw nil-append
strip_prefix-append (c ∷ p) s = rw cons-append (ground (arith, strip_prefix-append p s))

pub strip_prefix-eq-some : (p u s : String) → strip_prefix p u ≡ some s → u ≡ p ++ s
unfolding strip_prefix
strip_prefix-eq-some [] u s e = let same : u ≡ s = cc in same ∙ sym (nil-append s)
strip_prefix-eq-some (c ∷ p) [] s e = cc
strip_prefix-eq-some (c ∷ p) (d ∷ u) s e = elim (Bool-cases (code c == code d)) [
  | inl same ↦
      let rest = strip_prefix-eq-some p u s (rw same at e) in
      let here : c ≡ d = Char-path c d (ground arith) in rw (cons-append, here, rest)
  | inr differ ↦ absurd (none-ne-some (rw differ at e))
]

-- `s.contains(c)`, and `s.starts_with(p)` by the prefix.
unfoldable pub contains_char : ℕ → String → Bool
contains_char n [] = false
contains_char n (c ∷ s) = code c == n || contains_char n s

abbrev pub starts_with : String → String → Bool
starts_with s p = is_some (strip_prefix p s)

digit : ℕ → String
digit zero = "0"
digit (suc zero) = "1"
digit (suc (suc zero)) = "2"
digit (suc (suc (suc zero))) = "3"
digit (suc (suc (suc (suc zero)))) = "4"
digit (suc (suc (suc (suc (suc zero))))) = "5"
digit (suc (suc (suc (suc (suc (suc zero)))))) = "6"
digit (suc (suc (suc (suc (suc (suc (suc zero))))))) = "7"
digit (suc (suc (suc (suc (suc (suc (suc (suc zero)))))))) = "8"
digit n = "9"

decimal_fuel : ℕ → ℕ → String
unfolding digit
decimal_fuel zero n = ""
decimal_fuel (suc f) n =
    let high = decimal_fuel f (n / 10) in if ltb n 10 then digit n else high ++ digit (n % 10)

-- `format!("{n}")`; every round divides by ten, so `n` rounds and one more are enough.
unfoldable pub decimal : ℕ → String
unfolding decimal_fuel
decimal n = decimal_fuel (suc n) n

-- `char::is_whitespace`: Unicode's White_Space.
abbrev pub is_whitespace : ℕ → Bool
is_whitespace c =
    leb 9 c && leb c 13
    || c == 32
    || c == 133
    || c == 160
    || c == 5_760
    || leb 8_192 c && leb c 8_202
    || c == 8_232
    || c == 8_233
    || c == 8_239
    || c == 8_287
    || c == 12_288

trim_start : String → String
trim_start [] = []
trim_start (c ∷ s) = let rest = trim_start s in if is_whitespace (code c) then rest else c ∷ s

abbrev blank_end : Bool → String → String → String
blank_end true [] text = []
blank_end true (c ∷ s) text = text
blank_end false rest text = text

trim_end : String → String
trim_end [] = []
trim_end (c ∷ s) = blank_end (is_whitespace (code c)) (trim_end s) (c ∷ trim_end s)

-- `s.trim()`.
unfoldable pub trim : String → String
unfolding trim_start trim_end
trim s = trim_end (trim_start s)

abbrev pub is_empty_text : String → Bool
is_empty_text [] = true
is_empty_text (c ∷ s) = false

-- `to_ascii_lowercase` of a character.
abbrev pub lowercase : ℕ → ℕ
lowercase c = if leb b'A' c && leb c b'Z' then c + 32 else c

-- `eq_ignore_ascii_case` of two texts.
unfoldable pub eq_ignore_ascii_case : String → String → Bool
eq_ignore_ascii_case [] [] = true
eq_ignore_ascii_case [] (d ∷ t) = false
eq_ignore_ascii_case (c ∷ s) [] = false
eq_ignore_ascii_case (c ∷ s) (d ∷ t) =
    lowercase (code c) == lowercase (code d) && eq_ignore_ascii_case s t

pub eq_ignore_ascii_case_self : (s : String) → eq_ignore_ascii_case s s ≡ true
unfolding eq_ignore_ascii_case
eq_ignore_ascii_case_self [] = refl
eq_ignore_ascii_case_self (c ∷ s) = ground (arith, eq_ignore_ascii_case_self s)
