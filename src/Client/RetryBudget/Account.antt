-- ===== src/Client/RetryBudget/Account.antt =====
-- The retry budget of one service as an account of whole tokens, which the buckets of
-- crates/sdkwork-rpc-client/src/retry_budget.rs keep exactly as long as the clock reads whole seconds.
use native.Mathlib.Nat.{mul-le-mul_left}
use sdkwork_rpc_framework.Prelude.{
  ℕ, ◌+◌, ◌-◌, ◌*◌, ◌≤◌, min, max, Bool, true, false, Option, none, some, List, [], ◌∷◌,
  if◌then◌else◌, leb, All, arith, ◌≡◌, inl, inr, Bool-cases,
}

-- Tokens, and the second of the last refill.
pub record Account : Type 0 where
  pub tokens : ℕ
  pub at : ℕ

abbrev pub account_or_full : ℕ → ℕ → Option Account → Account
account_or_full capacity second none = record { tokens = capacity; at = second }
account_or_full capacity second (some account) = account

-- An account earns `rate` tokens a second, up to its capacity.
abbrev pub earned : ℕ → ℕ → ℕ → Account → ℕ
earned capacity rate second account =
    if leb second account.at
    then account.tokens
    else min (account.tokens + (second - account.at) * rate) capacity

-- One acquisition: a token, where there is one.
unfoldable pub spend : ℕ → ℕ → ℕ → Option Account → Account × Bool
spend capacity rate second found =
    let account = account_or_full capacity second found in
    let tokens = earned capacity rate second account in
    (record { tokens = tokens - 1; at = max account.at second }, leb 1 tokens)

-- The answers to acquisitions at given seconds.
unfoldable pub answers_of : ℕ → ℕ → Option Account → List ℕ → List Bool
answers_of capacity rate found [] = []
answers_of capacity rate found (second ∷ seconds) =
    let (account, granted) = spend capacity rate second found in
    granted ∷ answers_of capacity rate (some account) seconds

abbrev pub one_if : Bool → ℕ
one_if true = 1
one_if false = 0

abbrev pub grants : List Bool → ℕ
grants [] = 0
grants (answer ∷ answers) = one_if answer + grants answers

-- What an account earns by a second leaves no more to be earned by the end.
earned-allowance :
    (capacity rate second end : ℕ) (account : Account)
    → account.at ≤ end
    → second ≤ end
    → earned capacity rate second account + rate * (end - max account.at second)
      ≤ account.tokens + rate * (end - account.at)
earned-allowance capacity rate second end account from until =
    elim (Bool-cases (leb second account.at)) [
      | inl early ↦
          let latest : max account.at second ≡ account.at = ground (arith, early) in
          rw (early, latest) (omega arith)
      | inr late ↦
          let after : account.at ≤ second = ground (arith, late) in
          let latest : max account.at second ≡ second = ground (arith, after) in
          let parts : end - account.at ≡ (second - account.at) + (end - second) = omega arith in
          rw (late, latest, parts) (omega arith)
    ]

spend-allowance :
    (capacity rate second end : ℕ) (account : Account)
    → account.at ≤ end
    → second ≤ end
    → let (next, granted) = spend capacity rate second (some account) in
      one_if granted + (next.tokens + rate * (end - next.at))
      ≤ account.tokens + rate * (end - account.at)
unfolding spend
spend-allowance capacity rate second end account from until =
    let e = earned capacity rate second account in
    let taken : one_if (leb 1 e) + (e - 1) ≡ e = ground arith in
    omega (arith, taken, earned-allowance capacity rate second end account from until)

spend-at :
    (capacity rate second end : ℕ) (account : Account)
    → account.at ≤ end
    → second ≤ end
    → (spend capacity rate second (some account)).0.at ≤ end
unfolding spend
spend-at capacity rate second end account from until = omega arith

grants-account :
    (capacity rate end : ℕ) (account : Account) (seconds : List ℕ)
    → account.at ≤ end
    → All (λ second. second ≤ end) seconds
    → grants (answers_of capacity rate (some account) seconds)
      ≤ account.tokens + rate * (end - account.at)
unfolding answers_of
grants-account capacity rate end account [] from until = omega arith
grants-account capacity rate end account (second ∷ seconds) from until =
    let next = (spend capacity rate second (some account)).0 in
    omega (
      arith,
      spend-allowance capacity rate second end account from until.0,
      grants-account capacity rate end next seconds
          (spend-at capacity rate second end account from until.0) until.1,
    )

All-until :
    (start end : ℕ) (seconds : List ℕ)
    → All (λ second. (start ≤ second) × (second ≤ end)) seconds
    → All (λ second. second ≤ end) seconds
All-until start end [] within = tt
All-until start end (second ∷ seconds) within = (within.0.1, All-until start end seconds within.1)

-- A service that makes its first acquisition at second `start` or later gets at most
-- `capacity + rate * span` of the acquisitions that it makes by second `start + span`.
pub grants-le :
    (capacity rate start span : ℕ) (seconds : List ℕ)
    → All (λ second. (start ≤ second) × (second ≤ start + span)) seconds
    → grants (answers_of capacity rate none seconds) ≤ capacity + rate * span
unfolding answers_of spend
grants-le capacity rate start span [] within = omega arith
grants-le capacity rate start span (second ∷ seconds) within =
    let left : start + span - second ≤ span = omega (arith, within.0.0) in
    omega (
      arith,
      grants-account capacity rate (start + span) (record { tokens = capacity; at = second })
          (second ∷ seconds) within.0.1 (All-until start (start + span) (second ∷ seconds) within),
      mul-le-mul_left rate left,
    )
