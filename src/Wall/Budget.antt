-- ===== src/Wall/Budget.antt =====
-- engine/legacy_wall.py: the two sides of a market share one budget.
use polymarket_rewards.Base.{ℕ, ◌+◌, ◌≤◌, Option, arith}
use polymarket_rewards.Gap.{Spent, cap_side}
use polymarket_rewards.Gap.Budget.{cost_of, shares_in, AtLeast, cap_side-Fits}
use polymarket_rewards.Wall.Explain.{
  WallSettings, WallSide, plan_wall_side, wall_min_size, compute_market_legacy_orders,
}

-- The orders of both sides together cost at most the budget of the market and hold at most its
-- number of shares, and each is at least the minimum size of its side.
pub compute_market_legacy_orders_fit :
    (a b : Option WallSide) (budget max_shares : ℕ) (w : WallSettings)
    → let (xs, ys) = compute_market_legacy_orders a b budget max_shares w in
      (cost_of xs + cost_of ys ≤ budget)
      × (shares_in xs + shares_in ys ≤ max_shares)
      × AtLeast (wall_min_size a) xs
      × AtLeast (wall_min_size b) ys
unfolding compute_market_legacy_orders
compute_market_legacy_orders_fit a b budget max_shares w =
    let start : Spent = record { usd = 0; shares = 0 } in
    let first =
      cap_side-Fits budget max_shares start (wall_min_size a) (plan_wall_side w a) (omega arith)
        (omega arith) in
    let (xs, spent) = cap_side budget max_shares start (wall_min_size a) (plan_wall_side w a) in
    let second =
      cap_side-Fits budget max_shares spent (wall_min_size b) (plan_wall_side w b) first.2
        first.3 in
    (omega arith, omega arith, first.4, second.4)
