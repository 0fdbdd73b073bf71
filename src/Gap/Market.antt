-- ===== src/Gap/Market.antt =====
-- engine/laddering.py: `compute_market_single_orders`, `preview_gap_single_market`.
use polymarket_rewards.Base.{
  ℕ, ◌+◌, ◌-◌, ◌*◌, ◌/◌, Option, none, some, List, [], ◌∷◌, ltb, if◌then◌else◌, min, ◌==◌,
}
use polymarket_rewards.Gap.Book.{Bid}
use polymarket_rewards.Gap.Explain.{
  GapSettings, Decision, explain_gap_single_order, plan_gap_single_order,
}

-- One outcome of a market, as the planner is given it.
pub record Side : Type 0 where
  pub bids : List Bid
  pub reward_range_min : ℕ
  pub reward_range_max : ℕ
  pub min_size : ℕ

-- The orders of one side, at most one, and what both sides have spent so far.
pub record Spent : Type 0 where
  pub usd : ℕ
  pub shares : ℕ

-- Dollars are millionths, shares are whole; a price is dollars per share.
abbrev pub cap_order : ℕ → ℕ → Spent → ℕ → ℕ → ℕ
cap_order budget max_shares spent price placed =
    let cap_usd = if price == 0 then 0 else (budget - spent.usd) / price in
    min placed (min cap_usd (max_shares - spent.shares))

-- The body of the loop over the two sides, from the plan on.
unfoldable pub cap_side : ℕ → ℕ → Spent → ℕ → Option (ℕ × ℕ) → List (ℕ × ℕ) × Spent
cap_side budget max_shares spent min_size none = ([], spent)
cap_side budget max_shares spent min_size (some (price, shares)) =
    let placed = cap_order budget max_shares spent price shares in
    if ltb (placed * 1_000_000) min_size then ([], spent) else (
      (price, placed) ∷ [],
      record { usd = spent.usd + price * placed; shares = spent.shares + placed },
    )

unfoldable pub plan_side : GapSettings → Option Side → Option (ℕ × ℕ)
plan_side p none = none
plan_side p (some s) =
    plan_gap_single_order s.bids s.reward_range_min s.reward_range_max s.min_size p

abbrev pub min_size_of : Option Side → ℕ
min_size_of none = 0
min_size_of (some s) = s.min_size

unfoldable pub compute_market_single_orders :
    Option Side → Option Side → ℕ → ℕ → GapSettings → List (ℕ × ℕ) × List (ℕ × ℕ)
compute_market_single_orders side_a side_b budget max_shares p =
    let (a, spent) =
      cap_side budget max_shares (record { usd = 0; shares = 0 }) (min_size_of side_a)
        (plan_side p side_a) in
    let (b, _) = cap_side budget max_shares spent (min_size_of side_b) (plan_side p side_b) in
    (a, b)

abbrev pub preview_side : GapSettings → Option Side → Option Decision
preview_side p none = none
preview_side p (some s) =
    some (explain_gap_single_order s.bids s.reward_range_min s.reward_range_max s.min_size p)

unfoldable pub preview_gap_single_market :
    Option Side → Option Side → GapSettings → Option Decision × Option Decision
preview_gap_single_market side_a side_b p = (preview_side p side_a, preview_side p side_b)
