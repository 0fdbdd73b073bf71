-- ===== src/Tests/Money.antt =====
-- Examples for engine/merge_accounting.py and engine/pnl.py.
use polymarket_rewards.Base.{◌+◌, ◌≤◌, ◌≡◌, ◌↔◌, true, none, List, [], ◌∷◌}
use polymarket_rewards.Base.Sort.{sort_by}
use polymarket_rewards.Base.Text.{codes}
use polymarket_rewards.Cost.{Fill, Lot, fill_le, cost_sum_of, replay}
use polymarket_rewards.Ledger.{held_in, merge_event_pnl_from_lots, realized_pnl_by_day}
use polymarket_rewards.Ledger.Consume.{Accounts, merge_event_pnl_from_lots-Accounts}
use polymarket_rewards.Ledger.Totals.{
  profit_in, loss_in, bought_cost, revenue, realized_pnl_by_day_conserves,
}

abbrev yes_lots : List Lot
yes_lots =
    record { price = 300_000; remaining = 30_000_000; ts = 1; trade_id = none }
    ∷ record { price = 350_000; remaining = 40_000_000; ts = 2; trade_id = none }
    ∷ []

abbrev no_lots : List Lot
no_lots = record { price = 600_000; remaining = 50_000_000; ts = 3; trade_id = none } ∷ []

merge_event_pnl_from_lots-Accounts_example :
    let r = merge_event_pnl_from_lots 50_000_000 yes_lots no_lots 0 in
    ((r.ok ≡ true) ↔ ((50_000_000 ≤ held_in yes_lots) × (50_000_000 ≤ held_in no_lots)))
    × (r.ok ≡ true → Accounts 50_000_000 yes_lots no_lots 0 r)
merge_event_pnl_from_lots-Accounts_example =
    merge_event_pnl_from_lots-Accounts 50_000_000 0 yes_lots no_lots

abbrev day_fills : List Fill
day_fills =
    record {
      side = codes "SELL";
      price = 350_000;
      size = 20_000_000;
      ts = 90_000;
      trade_id = none;
      fee_rate_bps = 0;
    }
    ∷ record {
      side = codes "BUY";
      price = 300_000;
      size = 50_000_000;
      ts = 80_000;
      trade_id = none;
      fee_rate_bps = 0;
    }
    ∷ []

realized_pnl_by_day_conserves_example :
    let out = realized_pnl_by_day day_fills in
    let ordered = sort_by fill_le day_fills in
    profit_in out + bought_cost day_fills
    ≡ loss_in out + revenue [] ordered + cost_sum_of (replay [] ordered)
realized_pnl_by_day_conserves_example = realized_pnl_by_day_conserves day_fills
