-- ===== src/Gap/Budget.antt =====
-- engine/laddering.py: the two sides of a market share one budget.
use polymarket_rewards.Base.{
  ℕ, ◌+◌, ◌-◌, ◌*◌, ◌/◌, ◌≤◌, ◌≡◌, inl, inr, Option, none, some, List, arith, ltb, ◌==◌, tests,
  Bool-cases, sum_of, All,
}
use native.Mathlib.Nat.{div-add-mod}
use polymarket_rewards.Gap.Explain.{GapSettings}
use polymarket_rewards.Gap.Market.{
  Side, Spent, cap_order, cap_side, plan_side, min_size_of, compute_market_single_orders,
}

abbrev pub cost_of : List (ℕ × ℕ) → ℕ
cost_of orders = sum_of (λ o. o.0 * o.1) orders

abbrev pub shares_in : List (ℕ × ℕ) → ℕ
shares_in orders = sum_of (λ o. o.1) orders

-- An order is at least the minimum that earns rewards.
abbrev pub AtLeast : ℕ → List (ℕ × ℕ) → Type 0
AtLeast min_size orders = All (λ o. min_size ≤ o.1 * 1_000_000) orders

mul-le_of_le_div : (d n r : ℕ) → n ≤ r / d → d * n ≤ r
mul-le_of_le_div d n r h = grind (arith, div-add-mod r d)

cap_order_fits :
    (budget max_shares : ℕ) (spent : Spent) (price placed : ℕ)
    → let n = cap_order budget max_shares spent price placed in
      (price * n ≤ budget - spent.usd) × (n ≤ max_shares - spent.shares)
cap_order_fits budget max_shares spent price placed = elim (Bool-cases (price == 0)) [
  | inl free ↦ rw free (grind arith, omega arith)
  | inr paid ↦ rw paid (mul-le_of_le_div price _ (budget - spent.usd) (omega arith), omega arith)
]

-- What one side adds to the spending, and that it stays within the limits.
abbrev pub Fits : ℕ → ℕ → Spent → ℕ → List (ℕ × ℕ) × Spent → Type 0
Fits budget max_shares spent min_size (orders, after) =
    (after.usd ≡ spent.usd + cost_of orders)
    × (after.shares ≡ spent.shares + shares_in orders)
    × (after.usd ≤ budget)
    × (after.shares ≤ max_shares)
    × AtLeast min_size orders

pub cap_side-Fits :
    (budget max_shares : ℕ) (spent : Spent) (min_size : ℕ) (plan : Option (ℕ × ℕ))
    → spent.usd ≤ budget
    → spent.shares ≤ max_shares
    → Fits budget max_shares spent min_size (cap_side budget max_shares spent min_size plan)
unfolding cap_side
cap_side-Fits budget max_shares spent min_size none h k = ground arith
cap_side-Fits budget max_shares spent min_size (some (price, shares)) h k =
    let fits = cap_order_fits budget max_shares spent price shares in
    let n = cap_order budget max_shares spent price shares in
    elim (Bool-cases (ltb (n * 1_000_000) min_size)) [
      | inl short ↦ rw short (omega arith, omega arith, h, k, tt)
      | inr enough ↦
          rw enough (omega arith, omega arith, omega arith, omega arith, (omega tests, tt))
    ]

-- The orders of both sides together cost at most the budget of the market and hold at most its
-- number of shares, and each is at least the minimum size of its side.
pub compute_market_single_orders_fit :
    (a b : Option Side) (budget max_shares : ℕ) (p : GapSettings)
    → let (xs, ys) = compute_market_single_orders a b budget max_shares p in
      (cost_of xs + cost_of ys ≤ budget)
      × (shares_in xs + shares_in ys ≤ max_shares)
      × AtLeast (min_size_of a) xs
      × AtLeast (min_size_of b) ys
unfolding compute_market_single_orders
compute_market_single_orders_fit a b budget max_shares p =
    let start : Spent = record { usd = 0; shares = 0 } in
    let first =
      cap_side-Fits budget max_shares start (min_size_of a) (plan_side p a) (omega arith)
        (omega arith) in
    let (xs, spent) = cap_side budget max_shares start (min_size_of a) (plan_side p a) in
    let second =
      cap_side-Fits budget max_shares spent (min_size_of b) (plan_side p b) first.2 first.3 in
    (omega arith, omega arith, first.4, second.4)
