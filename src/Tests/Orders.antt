-- ===== src/Tests/Orders.antt =====
-- Examples for engine/laddering.py.
use polymarket_rewards.Base.{
  ℕ, ◌+◌, ◌≤◌, ◌≡◌, refl, not, Option, none, some, List, [], ◌∷◌, All, keep, map, ◌==◌,
  if◌then◌else◌,
}
use polymarket_rewards.Base.Sort.{sort_by, insert_by}
use polymarket_rewards.Base.Text.{Text, codes}
use polymarket_rewards.Gap.{
  Bid, has_cliff_below, max_gap_and_split, GapSettings, explain_gap_single_order,
  plan_gap_single_order, Side, min_size_of, compute_market_single_orders, sorted_levels, scan_gaps,
  amount_value, first_row, valid_rows, coeff_of, levels_from, rule_of, coeff_sum, first_eligible,
  mark_chosen, choose, grade,
}
use polymarket_rewards.Gap.Choice.{Explained, explain_gap_single_order-Explained}
use polymarket_rewards.Gap.Placed.{Placed, plan_gap_single_order-Placed}
use polymarket_rewards.Gap.Budget.{cost_of, shares_in, AtLeast, compute_market_single_orders_fit}
use polymarket_rewards.Reconcile.{RestingBuy, reconcile_buy_orders, round4, is_in}
use polymarket_rewards.Reconcile.Kept.{
  Distinct, Parted, ids_of, Fits, HasRival, price_of, reconcile_buy_orders_covers,
}
use polymarket_rewards.Reconcile.Settled.{prices_of, placed, reconcile_buy_orders_settled}

abbrev pub bids : List Bid
bids =
    record { price = 480_000; size = 900_000_000 }
    ∷ record { price = 470_000; size = 4_000_000_000 }
    ∷ record { price = 350_000; size = 2_000_000_000 }
    ∷ []

abbrev pub settings : GapSettings
settings = record {
  amount_value_table = record { upper = some 1_000_000; value = some 10_000_000 } ∷ [];
  gap_wide = 100_000;
  gap_mid = 50_000;
  gap_high_coeff_sum_min = 1_000_000;
  rule1_min_coeff = 1_500_000;
  rule2_min_coeff = 2_000_000;
  rule3_min_coeff = 3_000_000;
  cliff_probe = 0;
  shares = some 120;
  rule2_high_coeff_sum_min = 0;
  rule3_high_coeff_sum_min = 0;
  gap_veto = 200_000;
}

explain_gap_single_order-Explained_example :
    Explained settings 450_000 500_000 100_000_000 bids
      (explain_gap_single_order bids 450_000 500_000 100_000_000 settings)
explain_gap_single_order-Explained_example =
    explain_gap_single_order-Explained bids 450_000 500_000 100_000_000 settings

planned : plan_gap_single_order bids 450_000 500_000 100_000_000 settings ≡ some (470_000, 120)
unfolding plan_gap_single_order explain_gap_single_order has_cliff_below sorted_levels sort_by
    insert_by max_gap_and_split scan_gaps amount_value first_row valid_rows coeff_of levels_from
    rule_of coeff_sum first_eligible mark_chosen choose grade
planned = refl

plan_gap_single_order-Placed_example : Placed bids 450_000 500_000 100_000_000 settings 470_000 120
plan_gap_single_order-Placed_example =
    plan_gap_single_order-Placed bids 450_000 500_000 100_000_000 settings 470_000 120 planned

abbrev side : Option Side
side = some (record {
  bids = bids;
  reward_range_min = 450_000;
  reward_range_max = 500_000;
  min_size = 100_000_000;
})

compute_market_single_orders_fit_example :
    let (xs, ys) = compute_market_single_orders side side 100_000_000 1000 settings in
    (cost_of xs + cost_of ys ≤ 100_000_000)
    × (shares_in xs + shares_in ys ≤ 1000)
    × AtLeast (min_size_of side) xs
    × AtLeast (min_size_of side) ys
compute_market_single_orders_fit_example =
    compute_market_single_orders_fit side side 100_000_000 1000 settings

abbrev resting : List RestingBuy
resting =
    record {
      id = some (codes "o1");
      price = some 470_000;
      original_size = some 120_000_000;
      size = none;
      size_matched = some 500_000;
    }
    ∷ record {
      id = some (codes "o2");
      price = some 460_000;
      original_size = some 120_000_000;
      size = none;
      size_matched = none;
    }
    ∷ []

reconcile_buy_orders_covers_example :
    let (cancel_ids, to_place) = reconcile_buy_orders ((470_000, 120) ∷ []) resting 10_000 in
    (stays goes : List RestingBuy) × Parted resting stays goes
    × (cancel_ids ≡ ids_of goes)
    × All (Fits ((470_000, 120) ∷ []) 10_000) stays
    × Distinct (map price_of stays)
    × All (HasRival ((470_000, 120) ∷ []) 10_000 (map price_of stays)) goes
    × (to_place ≡ keep (λ o. not (is_in (round4 o.0) (map price_of stays))) ((470_000, 120) ∷ []))
reconcile_buy_orders_covers_example =
    reconcile_buy_orders_covers ((470_000, 120) ∷ []) resting 10_000

apart : Distinct (prices_of ((470_000, 120) ∷ (480_000, 120) ∷ []))
unfolding round4
apart = (refl, (refl, tt))

abbrev given_id : ℕ × ℕ → Option Text
given_id (price, size) = if price == 470_000 then some (codes "o1") else some (codes "o2")

reconcile_buy_orders_settled_example :
    reconcile_buy_orders
      ((470_000, 120) ∷ (480_000, 120) ∷ [])
      (map (placed given_id) ((470_000, 120) ∷ (480_000, 120) ∷ []))
      10_000
    ≡ ([], [])
reconcile_buy_orders_settled_example =
    reconcile_buy_orders_settled given_id ((470_000, 120) ∷ (480_000, 120) ∷ []) 10_000 apart
