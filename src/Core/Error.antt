-- ===== src/Core/Error.antt =====
-- crates/sdkwork-rpc-core/src/lib.rs: the framework's error, and its result with `?` as bind.
use sdkwork_rpc_framework.Prelude.{
  String, Bool, true, false, ◌≡◌, refl, Option, none, some, if◌then◌else◌,
}

pub data RpcFrameworkError : Type 0 where
  validation configuration transport discovery : (message : String) → RpcFrameworkError

pub data Result {ℓ} (A : Type ℓ) : Type ℓ where
  err : (error : RpcFrameworkError) → Result A
  ok : (value : A) → Result A

module _ {ℓ κ} {A : Type ℓ} {B : Type κ} where
  infixl 5 ◌>>=◌
  -- `?`, and what the function does with the value.
  abbrev pub ◌>>=◌ : Result A → (A → Result B) → Result B
  err error >>= next = err error
  ok value >>= next = next value

module _ {κ} {B : Type κ} where
  infixl 5 ◌>>◌
  -- `?` on a check.
  abbrev pub ◌>>◌ : Result (Unit {0}) → Result B → Result B
  check >> next = check >>= λ done. next

-- `if !test { return Err(error) }`.
abbrev pub ensure : Bool → RpcFrameworkError → Result (Unit {0})
ensure test error = if test then ok tt else err error

-- `ok_or_else`.
abbrev pub ok_or {ℓ} : {A : Type ℓ} → Option A → RpcFrameworkError → Result A
ok_or none e = err e
ok_or (some a) e = ok a

pub ok_injective {ℓ} : {A : Type ℓ} {a b : A} → ok a ≡ ok b → a ≡ b
ok_injective h = cc

-- Inversion of a step that succeeded.
pub ensure-eq-ok {ℓ} :
    {B : Type ℓ} (t : Bool) (e : RpcFrameworkError) (k : Result B) {b : B}
    → (ensure t e >> k) ≡ ok b
    → (t ≡ true) × (k ≡ ok b)
ensure-eq-ok true e k h = (refl, h)
ensure-eq-ok false e k h = cc

pub ok_or-eq-ok {ℓ} :
    {A : Type ℓ} (o : Option A) (e : RpcFrameworkError) {a : A} → ok_or o e ≡ ok a → o ≡ some a
ok_or-eq-ok none e h = cc
ok_or-eq-ok (some x) e h = cc

-- The same with a continuation, which keeps a chain of inversions small.
module _ {ℓ κ π} {A : Type ℓ} {B : Type κ} {P : Type π} where
  pub of_bind :
      (m : Result A) (f : A → Result B) {b : B}
      → (m >>= f) ≡ ok b
      → ((a : A) → m ≡ ok a → f a ≡ ok b → P)
      → P
  of_bind (ok a) f h k = k a refl h
  of_bind (err e) f h k = absurd (cc)
