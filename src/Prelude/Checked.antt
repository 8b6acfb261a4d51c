-- ===== src/Prelude/Checked.antt =====
-- `Result` with an error type of its own, such as `tonic::Status`, with `?` as bind.
use mathlib.Core.Path.{◌≡◌, refl}

pub data Checked {ℓ} (S : Type 0) (A : Type ℓ) : Type ℓ where
  refused : (status : S) → Checked S A
  passed : (result : A) → Checked S A

module _ {ℓ κ} {S : Type 0} {A : Type ℓ} {B : Type κ} where
  infixl 5 ◌>>=◌
  abbrev pub ◌>>=◌ : Checked S A → (A → Checked S B) → Checked S B
  refused status >>= next = refused status
  passed result >>= next = next result

  -- What a chain that passes says of its first step.
  pub of_passed {π} :
      {P : Type π} (step : Checked S A) (next : A → Checked S B) {b : B}
      → (step >>= next) ≡ passed b
      → ((a : A) → step ≡ passed a → next a ≡ passed b → P)
      → P
  of_passed (refused status) next e k = absurd (cc)
  of_passed (passed a) next e k = k a refl e

pub passed_injective {ℓ} :
    {S : Type 0} {A : Type ℓ} {a b : A} → ◌≡◌ {A = Checked S A} (passed a) (passed b) → a ≡ b
passed_injective e = cc

pub refused-ne-passed {ℓ} :
    {S : Type 0} {A : Type ℓ} {s : S} {a : A} → ◌≡◌ {A = Checked S A} (refused s) (passed a) → ⊥
refused-ne-passed e = cc
