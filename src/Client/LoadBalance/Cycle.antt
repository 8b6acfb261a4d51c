-- ===== src/Client/LoadBalance/Cycle.antt =====
-- Reading a list in a circle, and reading a list of repeated entries: what the rotation of
-- crates/sdkwork-rpc-client/src/load_balance.rs rests on.
use mathlib.Core.Path.{ap₂, ◌≡⟨◌⟩◌, ◌∎}
use mathlib.Core.List.{map-append}
use native.Mathlib.Nat.{zero-add, add-zero, div-add-mod, mod-add-mod, mod-eq_of_lt, suc-add}
use native.Mathlib.Numerals.{add-one}
use sdkwork_rpc_framework.Prelude.{
  ℕ, zero, suc, ◌+◌, ◌-◌, ◌%◌, ◌≤◌, ◌<◌, ◌≡◌, refl, sym, ap, ◌∙◌, Option, some, List, [], ◌∷◌, ◌++◌,
  map, arith, length, get_elem?, take, drop, replicate,
}

wraps : (c n : ℕ) → 0 < n → (c + (n - c % n)) % n ≡ 0
wraps c n h = grind (arith, div-add-mod c n)

mod-next : (c n r : ℕ) → c % n ≡ r → suc r < n → (c + 1) % n ≡ suc r
mod-next c n r e h =
    let small : (r + 1) % n ≡ r + 1 = mod-eq_of_lt (omega arith) in
    sym (mod-add-mod c n 1) ∙ rw e small ∙ add-one r

module _ {A : Type 0} where
  -- `k` reads of a list in a circle, from position `c`.
  unfoldable pub cycle : ℕ → List A → ℕ → List (Option A)
  cycle zero xs c = []
  cycle (suc k) xs c = get_elem? xs (c % length xs) ∷ cycle k xs (c + 1)

  -- The list, read once around from position `r`.
  abbrev pub rotate : ℕ → List A → List A
  rotate r xs = drop r xs ++ take r xs

  take-drop-cons :
      (xs : List A) (r k : ℕ)
      → r < length xs
      → map some (take (suc k) (drop r xs)) ≡ get_elem? xs r ∷ map some (take k (drop (suc r) xs))
  take-drop-cons [] r k h = elim h [ ]
  take-drop-cons (x ∷ xs) zero k h = refl
  take-drop-cons (x ∷ xs) (suc r) k h = take-drop-cons xs r k (omega arith)

  -- Reads that do not pass the end.
  cycle-take :
      (xs : List A) (k c r : ℕ)
      → c % length xs ≡ r
      → r + k ≤ length xs
      → cycle k xs c ≡ map some (take k (drop r xs))
  unfolding cycle
  cycle-take xs zero c r e h = refl
  cycle-take xs (suc zero) c r e h = rw e (sym (take-drop-cons xs r zero (omega arith)))
  cycle-take xs (suc (suc k)) c r e h =
      let next : (c + 1) % length xs ≡ suc r = mod-next c (length xs) r e (omega arith) in
      rw e (
        ap (◌∷◌ (get_elem? xs r)) (cycle-take xs (suc k) (c + 1) (suc r) next (omega arith))
        ∙ sym (take-drop-cons xs r (suc k) (omega arith)))

  cycle-add :
      (j k : ℕ) (xs : List A) (c : ℕ) → cycle (j + k) xs c ≡ cycle j xs c ++ cycle k xs (c + j)
  unfolding cycle
  cycle-add zero k xs c = rw (zero-add, add-zero)
  cycle-add (suc j) k xs c =
      let step : suc j + k ≡ suc (j + k) = omega arith in
      let shift : c + suc j ≡ c + 1 + j = omega arith in rw (step, shift, cycle-add j k xs (c + 1))

  take_all : (xs : List A) (k : ℕ) → length xs ≤ k → take k xs ≡ xs
  take_all [] zero h = refl
  take_all [] (suc k) h = refl
  take_all (x ∷ xs) zero h = absurd (omega arith)
  take_all (x ∷ xs) (suc k) h = ap (◌∷◌ x) (take_all xs k (omega arith))

  length-drop : (n : ℕ) (xs : List A) → length (drop n xs) ≡ length xs - n
  length-drop zero xs = omega arith
  length-drop (suc n) [] = omega arith
  length-drop (suc n) (x ∷ xs) = omega (arith, length-drop n xs)

  -- Once around visits every entry once, in order, from where the cursor stands.
  pub cycle-rotate :
      (xs : List A) (c : ℕ)
      → 0 < length xs
      → cycle (length xs) xs c ≡ map some (rotate (c % length xs) xs)
  cycle-rotate xs c h =
      let r = c % length xs in
      let a = length xs - r in
      let split : length xs ≡ a + r = omega arith in
      let start : (c + a) % length xs ≡ 0 = wraps c (length xs) h in
      cycle (length xs) xs c
      ≡⟨ ap (λ n. cycle n xs c) split ⟩ cycle (a + r) xs c
      ≡⟨ cycle-add a r xs c ⟩ cycle a xs c ++ cycle r xs (c + a)
      ≡⟨ ap₂ ◌++◌ (cycle-take xs a c r refl (omega arith))
          (cycle-take xs r (c + a) zero start (omega arith)) ⟩
        map some (take a (drop r xs)) ++ map some (take r xs)
      ≡⟨ ap (λ ys. map some ys ++ map some (take r xs))
          (take_all (drop r xs) a (omega (arith, length-drop r xs))) ⟩
        map some (drop r xs) ++ map some (take r xs)
      ≡⟨ sym (map-append some (drop r xs) (take r xs)) ⟩ map some (rotate r xs) ∎

module _ {A : Type 0} where
  pub get_elem?-replicate :
      (n : ℕ) (a : A) (ys : List A) (i : ℕ) → i < n → get_elem? (replicate n a ++ ys) i ≡ some a
  get_elem?-replicate zero a ys i h = elim h [ ]
  get_elem?-replicate (suc n) a ys zero h = refl
  get_elem?-replicate (suc n) a ys (suc i) h = get_elem?-replicate n a ys i (omega arith)

  pub get_elem?-skip :
      (n : ℕ) (a : A) (ys : List A) (i : ℕ)
      → get_elem? (replicate n a ++ ys) (n + i) ≡ get_elem? ys i
  get_elem?-skip zero a ys i = rw zero-add
  get_elem?-skip (suc n) a ys i = rw (suc-add n i) (get_elem?-skip n a ys i)
