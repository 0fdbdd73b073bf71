-- ===== src/Tests/Walls.antt =====
-- Examples for engine/legacy_wall.py and engine/protected_exit.py.
use polymarket_rewards.Base.{
  ℕ, suc, ◌+◌, ◌*◌, ◌≤◌, ◌<◌, ◌≡◌, ◌↔◌, ◌≢◌, refl, true, Option, some, List, [], ◌∷◌, arith, sum_of,
  take,
}
use polymarket_rewards.Base.Text.{codes}
use polymarket_rewards.Base.Sort.{IsSorted}
use polymarket_rewards.Gap.{Bid, bid_ge, has_cliff_below}
use polymarket_rewards.Gap.Budget.{cost_of, shares_in, AtLeast}
use polymarket_rewards.Wall.{
  whole_size, determine_order_price, cumulative_from, next_in_range, spread_ge3_coarse, wall_from,
  next_within, WallSettings, explain_legacy_order, WallSide, wall_min_size,
  compute_market_legacy_orders, finish, with_hit, place_shares, compute_order_size,
}
use polymarket_rewards.Wall.First.{PricedAt, FirstThick, cumulative_order_first, wall_order_first}
use polymarket_rewards.Wall.Agree.{NamesWall, explain_legacy_order-NamesWall}
use polymarket_rewards.Wall.Budget.{compute_market_legacy_orders_fit}
use polymarket_rewards.Quote.{protected_fak_plan, quote_merge_route, merge_quote_of, walk_levels}
use polymarket_rewards.Quote.Sale.{Recovers, protected_fak_plan-Recovers}
use polymarket_rewards.Quote.Merge.{
  IsWorth, quote_merge_route_feasible, Pays, quote_merge_route-Pays,
}

abbrev best : Bid
best = record { price = 480_000; size = 900_000_000 }

abbrev below : List Bid
below =
    record { price = 470_000; size = 6_000_000_000 }
    ∷ record { price = 460_000; size = 100_000_000 }
    ∷ []

fine_price : determine_order_price (best ∷ below) 3 1000 450_000 500_000 2000 6000 ≡ some 460_000
unfolding determine_order_price cumulative_from next_in_range
fine_price = refl

cumulative_order_first_example :
    (k : ℕ) × PricedAt 450_000 500_000 (best ∷ below) 460_000 (suc k)
    × (sum_of whole_size (take k (best ∷ below)) ≤ 6000)
    × (6000 < sum_of whole_size (take (suc k) (best ∷ below)))
cumulative_order_first_example =
    cumulative_order_first (best ∷ below) 3 1000 450_000 500_000 2000 6000 460_000 (omega arith)
      fine_price

coarse_price :
    determine_order_price (best ∷ below) 3 10_000 450_000 500_000 2000 6000 ≡ some 460_000
unfolding determine_order_price spread_ge3_coarse wall_from next_within
coarse_price = refl

wall_order_first_example :
    (k : ℕ) × PricedAt 450_000 500_000 (best ∷ below) 460_000 (suc k)
    × FirstThick 2000 (best ∷ below) k
    × (◌≡◌ {A = ℕ} 3 2 → k ≡ 0)
    × (◌≢◌ {A = ℕ} 3 2 → 480_000 ≤ 460_000 + 3 * 10_000)
wall_order_first_example =
    wall_order_first best below 3 10_000 450_000 500_000 2000 6000 460_000 (omega arith)
      coarse_price

abbrev wall_settings : WallSettings
wall_settings = record {
  order_size_mode = codes "min";
  balance = 500_000_000;
  custom_usd = 0;
  wall_threshold = 2000;
  cumulative_threshold = 6000;
  cliff_probe = 0;
}

placed_order :
    (explain_legacy_order (best ∷ below) 3 10_000 450_000 500_000 100_000_000 wall_settings).order
    ≡ some (460_000, 100)
unfolding explain_legacy_order has_cliff_below finish with_hit place_shares compute_order_size
    determine_order_price spread_ge3_coarse wall_from next_within
placed_order = refl

explain_legacy_order-NamesWall_example :
    NamesWall 450_000 500_000
      (best ∷ below)
      460_000
      (explain_legacy_order (best ∷ below) 3 10_000 450_000 500_000 100_000_000 wall_settings)
explain_legacy_order-NamesWall_example =
    explain_legacy_order-NamesWall (best ∷ below) 3 10_000 450_000 500_000 100_000_000 wall_settings
      460_000 100 placed_order

abbrev wall_side : Option WallSide
wall_side = some (record {
  bids = best ∷ below;
  max_spread = 350;
  tick_size = 10_000;
  reward_range_min = 450_000;
  reward_range_max = 500_000;
  min_size = 100_000_000;
})

compute_market_legacy_orders_fit_example :
    let (xs, ys) = compute_market_legacy_orders wall_side wall_side 60_000_000 500 wall_settings in
    (cost_of xs + cost_of ys ≤ 60_000_000)
    × (shares_in xs + shares_in ys ≤ 500)
    × AtLeast (wall_min_size wall_side) xs
    × AtLeast (wall_min_size wall_side) ys
compute_market_legacy_orders_fit_example =
    compute_market_legacy_orders_fit wall_side wall_side 60_000_000 500 wall_settings

sorted : IsSorted bid_ge (best ∷ below)
sorted = ((refl, (refl, tt)), ((refl, tt), (tt, tt)))

protected_fak_plan-Recovers_example :
    Recovers (best ∷ below) 1_000_000_000 (protected_fak_plan (best ∷ below) 1_000_000_000)
protected_fak_plan-Recovers_example =
    protected_fak_plan-Recovers (best ∷ below) 1_000_000_000 sorted

abbrev asks : List Bid
asks =
    record { price = 450_000; size = 60_000_000 }
    ∷ record { price = 500_000; size = 90_000_000 }
    ∷ []

quote_merge_route_feasible_example :
    ((quote_merge_route asks 100_000_000 40_000_000_000_000 10_000 1_000_000).feasible ≡ true)
    ↔ IsWorth asks 100_000_000 (40_000_000_000_000 + 10_000 * 1_000_000) 1_000_000
quote_merge_route_feasible_example =
    quote_merge_route_feasible asks 100_000_000 40_000_000_000_000 10_000 1_000_000

feasible : (quote_merge_route asks 100_000_000 40_000_000_000_000 10_000 1_000_000).feasible ≡ true
unfolding quote_merge_route merge_quote_of walk_levels
feasible = refl

quote_merge_route-Pays_example :
    Pays 100_000_000
      (40_000_000_000_000 + 10_000 * 1_000_000)
      (quote_merge_route asks 100_000_000 40_000_000_000_000 10_000 1_000_000)
quote_merge_route-Pays_example =
    quote_merge_route-Pays asks 100_000_000 40_000_000_000_000 10_000 1_000_000 feasible
