-- ===== src/Tests/Settings.antt =====
-- Examples for engine/tiers.py and engine/liquidation.py.
use polymarket_rewards.Base.{ℕ, ◌≡◌, refl, Option, none, some, List, [], ◌∷◌, map, sum_of, All}
use polymarket_rewards.Base.Sort.{IsSorted, sort_by, insert_by}
use polymarket_rewards.Base.Int.{pos, negsuc}
use polymarket_rewards.Base.Text.{codes}
use polymarket_rewards.Tiers.{RawTier, validate_size_tiers}
use polymarket_rewards.Tiers.Unique.{AllFit, Passes, Finds, validate_size_tiers-Passes}
use polymarket_rewards.Liquidation.{Candidate, plan_liquidation, ordered, sorted_tier, tier_of}
use polymarket_rewards.Liquidation.Order.{sells_before, plan_liquidation_order}

abbrev raw_tier : RawTier
raw_tier = record {
  size = some (pos 100_000_000);
  shares = some (pos 120_000_000);
  enabled = none;
  coeffs = some (pos 1_500_000) ∷ [];
  amount_value_table = some [];
}

abbrev raw : List (Option RawTier)
raw = some raw_tier ∷ some (record raw_tier { size = some (pos 50_000_000) }) ∷ []

validate_size_tiers-Passes_example :
    Passes (λ tiers. AllFit [] tiers × All (Finds tiers) tiers) (validate_size_tiers (some raw))
validate_size_tiers-Passes_example = validate_size_tiers-Passes (some raw)

abbrev candidates : List Candidate
candidates =
    record {
      asset_id = codes "a";
      size = 500_000_000;
      daily_reward = some 90_000_000;
      loss = some (pos 3);
    }
    ∷ record {
      asset_id = codes "b";
      size = 500_000_000;
      daily_reward = some 1_000_000;
      loss = none;
    }
    ∷ record { asset_id = codes "c"; size = 5_000_000; daily_reward = none; loss = some (negsuc 0) }
    ∷ []

sold_in_order :
    plan_liquidation candidates 5_000_000 20_000_000 ≡ codes "b" ∷ codes "c" ∷ codes "a" ∷ []
unfolding plan_liquidation ordered sorted_tier tier_of sort_by insert_by
sold_in_order = refl

plan_liquidation_order_example :
    (sold : List Candidate) × (plan_liquidation candidates 5_000_000 20_000_000
      ≡ map (λ c. c.asset_id) sold)
    × ((f : Candidate → ℕ) → sum_of f sold ≡ sum_of f candidates)
    × IsSorted (sells_before 5_000_000 20_000_000) sold
plan_liquidation_order_example = plan_liquidation_order candidates 5_000_000 20_000_000
