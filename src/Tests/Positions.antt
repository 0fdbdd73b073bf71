-- ===== src/Tests/Positions.antt =====
-- Examples for engine/take_profit.py.
use polymarket_rewards.Base.{
  ℕ, ◌+◌, ◌-◌, ◌*◌, ◌≤◌, ◌<◌, ◌≡◌, refl, ◌↔◌, true, false, none, some, List, [], ◌∷◌, arith, max,
  sum_of, All,
}
use polymarket_rewards.Base.Sort.{sort_by, insert_by}
use polymarket_rewards.Base.Frac.{Frac}
use polymarket_rewards.Base.Int.{pos, ◌-ℤ◌, ◌+ℤ◌}
use polymarket_rewards.Base.Text.{codes, upper}
use polymarket_rewards.Base.Amount.{abs_diff}
use polymarket_rewards.Cost.{
  Fill, consume, recon_of, cost_sum_of, fill_le, position_lots, position_cost_with_lots, is_buy,
  is_sell, replay, replay_fill, consume_merges,
}
use polymarket_rewards.Cost.Position.{bought_lots, sold, buys, Covered, position_cost_total}
use polymarket_rewards.Cost.Bounds.{BoughtWithin, position_cost_within}
use polymarket_rewards.TakeProfit.{
  whole, SellOrder, remaining_of, is_in_place, keep_one, plan_take_profit, effective_theta_stop,
  ExitAction, market_plan, plan_exit, b0, sum_remaining,
}
use polymarket_rewards.TakeProfit.Safety.{Sound, plan_exit-Sound}
use polymarket_rewards.TakeProfit.Stop.{LossReaches, plan_exit_stop}
use polymarket_rewards.TakeProfit.Resting.{placed}

abbrev first_buy : Fill
first_buy = record {
  side = codes "BUY";
  price = 300_000;
  size = 50_000_000;
  ts = 10;
  trade_id = some (codes "t1");
  fee_rate_bps = 0;
}

abbrev second_buy : Fill
second_buy = record first_buy { price = 400_000; ts = 30; trade_id = some (codes "t3") }

abbrev one_sale : Fill
one_sale = record first_buy {
  side = codes "sell";
  price = 350_000;
  size = 20_000_000;
  ts = 20;
  trade_id = some (codes "t2");
}

abbrev fills : List Fill
fills = second_buy ∷ one_sale ∷ first_buy ∷ []

covered : Covered 0 (sort_by fill_le fills)
unfolding sort_by insert_by sold is_buy is_sell upper buys
covered = (omega arith, (omega arith, (omega arith, tt)))

abbrev net : ℕ
net =
    recon_of (bought_lots (sort_by fill_le fills))
    - (sum_of sold fills + sum_of (λ a. a) (5_000_000 ∷ []))

net_shares : net ≡ 75_000_000
unfolding bought_lots sort_by insert_by sold is_buy is_sell upper buys
net_shares = refl

position_cost_total_example : position_cost_with_lots fills 75_200_000 (5_000_000 ∷ []) ≡ (
  some (record { num = cost_sum_of (position_lots fills (5_000_000 ∷ [])); den = net }),
  position_lots fills (5_000_000 ∷ []),
)
position_cost_total_example =
    position_cost_total fills 75_200_000 (5_000_000 ∷ []) covered (omega arith)
      (rw net_shares (omega arith)) (rw net_shares refl)

abbrev cost : Frac
cost = record { num = 27_500_000_000_000; den = 75_000_000 }

cost_found : (position_cost_with_lots fills 75_200_000 (5_000_000 ∷ [])).0 ≡ some cost
unfolding position_cost_with_lots position_lots sort_by insert_by replay replay_fill is_buy is_sell
    upper consume consume_merges
cost_found = refl

All-within : All (BoughtWithin 300_000 400_000) fills
unfolding is_buy is_sell upper
All-within = ground arith

position_cost_within_example :
    (0 < cost.den)
    × (300_000 * cost.den ≤ cost.num)
    × (cost.num ≤ 400_000 * cost.den)
    × (100 * abs_diff cost.den 75_200_000 ≤ max 100_000_000 75_200_000)
position_cost_within_example =
    position_cost_within 300_000 400_000 fills 75_200_000 (5_000_000 ∷ []) All-within cost_found

plan_exit-Sound_example :
    Sound cost
      (some 400_000)
      (some 420_000)
      10_000
      none
      (plan_exit cost (some 400_000) (some 420_000) 10_000 none 75_000_000 true)
plan_exit-Sound_example =
    plan_exit-Sound cost 10_000 (some 400_000) (some 420_000) none 75_000_000 true (omega arith)
      (omega arith)

-- At zero per cent a bid one millionth under the cost is enough.
plan_exit_stop_example :
    let plan =
      plan_exit
        (whole 300_000)
        (some 299_999)
        none
        10_000
        (effective_theta_stop (some (whole 300_000)) (codes "percent") (some (pos 0)) none)
        50_000_000
        false in
    ((plan.action ≡ ExitAction.market) ↔ LossReaches (whole 300_000) 299_999 0)
    × (LossReaches (whole 300_000) 299_999 0 → plan ≡ market_plan b0 50_000_000)
plan_exit_stop_example =
    plan_exit_stop (whole 300_000) 299_999 none 10_000 (pos 0) none 50_000_000 false (omega arith)
      (omega arith)

abbrev resting : List SellOrder
resting = placed (some (codes "s1")) 372_000 74_500_000 ∷ []

kept :
    plan_take_profit 75_000_000 (some (whole 370_000)) 10_000 resting
    ≡ keep_one (whole 370_000) 75_000_000
unfolding plan_take_profit is_in_place sum_remaining remaining_of ◌-ℤ◌ ◌+ℤ◌
kept = refl
