-- ===== src/Tests/Budget.antt =====
-- A registry with two services, and doubles that are whole numbers: the theorems on
-- crates/sdkwork-rpc-client/src/retry_budget.rs at a few acquisitions.
use sdkwork_rpc_framework.Prelude.{
  ℕ, ◌+◌, ◌-◌, ◌*◌, ◌/◌, ◌≤◌, ◌<◌, min, ◌≡◌, ◌↔◌, refl, true, none, List, [], ◌∷◌, leb, ltb, arith,
}
use sdkwork_rpc_framework.External.{Doubles, exact_max}
use sdkwork_rpc_framework.Client.RetryBudget.{new}
use sdkwork_rpc_framework.Client.RetryBudget.Account.{answers_of, grants}
use sdkwork_rpc_framework.Client.RetryBudget.Isolation.{
  Call, answers_for, seconds_for, answers_for-eq-account, grants-answers_for,
}

whole_secs : (s : ℕ) → s ≤ exact_max → s * 1_000_000_000 / 1_000_000_000 ≡ s
whole_secs s h = omega arith

ge_whole : (a b : ℕ) → (leb b a ≡ true) ↔ (b ≤ a)
ge_whole a b = ground arith

gt_whole : (a b : ℕ) → (ltb b a ≡ true) ↔ (b < a)
gt_whole a b = ground arith

abbrev whole : Doubles
whole = record {
  F64 = ℕ;
  of_ℕ = λ n. n;
  as_secs_f64 = λ d. d / 1_000_000_000;
  add = ◌+◌;
  sub = ◌-◌;
  mul = ◌*◌;
  min_f64 = min;
  ge = λ a b. leb b a;
  gt = λ a b. ltb b a;
  as_secs_f64-secs = whole_secs;
  add-of = λ a b h. refl;
  sub-of = λ a b h k. refl;
  mul-of = λ a b h k l. refl;
  min-of = λ a b h k. refl;
  ge-of = λ a b h k. ge_whole a b;
  gt-of = λ a b h k. gt_whole a b;
}

-- Two tokens at most, and one each second; a third retry of the orders in second 5 is refused.
abbrev calls : List (Call)
calls =
    record { service_name = "orders"; second = 5 }
    ∷ record { service_name = "orders"; second = 5 }
    ∷ record { service_name = "billing"; second = 5 }
    ∷ record { service_name = "orders"; second = 5 }
    ∷ record { service_name = "orders"; second = 6 }
    ∷ []

answers_for-eq-account_example :
    answers_for whole "orders" (new whole (record { capacity = 2; refill_per_second = 1 })) calls
    ≡ answers_of 2 1 none (seconds_for "orders" calls)
answers_for-eq-account_example =
    answers_for-eq-account whole "orders" 2 1 calls (omega arith) (omega arith)
      (omega arith, (omega arith, (omega arith, (omega arith, (omega arith, tt)))))

grants-answers_for_example :
    grants (
      answers_for whole "orders" (new whole (record { capacity = 2; refill_per_second = 1 })) calls)
    ≤ 2 + 1 * 1
grants-answers_for_example =
    grants-answers_for whole "orders" 2 1 5 1 calls (omega arith) (omega arith) (omega arith) (
      (omega arith, omega arith),
      (
        (omega arith, omega arith),
        (
          (omega arith, omega arith),
          ((omega arith, omega arith), ((omega arith, omega arith), tt)),
        ),
      ),
    )
