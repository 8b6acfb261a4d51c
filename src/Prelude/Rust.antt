-- ===== src/Prelude/Rust.antt =====
-- Rust's machine integers and `std::time::Duration`: a number within its range, with the
-- saturating and checked operations that the source calls.
use Prim.Native.Nat.{ℕ, ◌+◌, ◌-◌, ◌*◌, ◌/◌, ◌^◌, min}
use mathlib.Core.Option.{Option, none, some}
use sdkwork_rpc_framework.Prelude.Tests.{leb, if◌then◌else◌}

abbrev pub u32_max : ℕ
u32_max = 2 ^ 32 - 1

abbrev pub u64_max : ℕ
u64_max = 2 ^ 64 - 1

abbrev pub saturating_add_u32 : ℕ → ℕ → ℕ
saturating_add_u32 a b = min (a + b) u32_max

abbrev pub saturating_add_u64 : ℕ → ℕ → ℕ
saturating_add_u64 a b = min (a + b) u64_max

abbrev pub saturating_mul_u64 : ℕ → ℕ → ℕ
saturating_mul_u64 a b = min (a * b) u64_max

-- `u64::try_from` of a wider unsigned number.
abbrev pub try_u64 : ℕ → Option ℕ
try_u64 n = if leb n u64_max then some n else none

-- A duration is its number of nanoseconds: `u64` seconds and a nanosecond part.
abbrev pub Duration : Type 0
Duration = ℕ

abbrev pub duration_max : Duration
duration_max = u64_max * 1_000_000_000 + 999_999_999

abbrev pub from_secs : ℕ → Duration
from_secs s = s * 1_000_000_000

abbrev pub from_millis : ℕ → Duration
from_millis ms = ms * 1_000_000

abbrev pub as_millis : Duration → ℕ
as_millis d = d / 1_000_000

abbrev pub as_secs : Duration → ℕ
as_secs d = d / 1_000_000_000

abbrev pub saturating_mul_duration : Duration → ℕ → Duration
saturating_mul_duration d n = min (d * n) duration_max
