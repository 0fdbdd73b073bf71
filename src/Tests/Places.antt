-- ===== src/Tests/Places.antt =====
-- Examples for the placement round of engine/manager.py.
use polymarket_rewards.Base.{
  ℕ, ◌*◌, ◌≤◌, ◌≡◌, refl, true, false, none, some, List, [], ◌∷◌, max, length, any, sum_of,
}
use polymarket_rewards.Base.Text.{Text, codes}
use polymarket_rewards.Place.{
  Position, sum_at, has_text, Held, held_side_info, Candidate, PlaceTemplate, Exchange, Round,
  open_markets, place_round,
}
use polymarket_rewards.Place.Sums.{on_market, holds, held_side_info-sums}
use polymarket_rewards.Place.Accepted.{accepted, AllOpen}
use polymarket_rewards.Place.Limits.{place_round_limits}
use polymarket_rewards.Tests.Orders.{bids}

abbrev market : Text
market = codes "0xm1"

abbrev yes_token : Text
yes_token = codes "71"

abbrev no_token : Text
no_token = codes "72"

abbrev pub template : PlaceTemplate
template = record {
  size_tiers =
      record {
        size = 100;
        enabled = true;
        shares = 120;
        coeffs = 1_500_000 ∷ 2_000_000 ∷ 3_000_000 ∷ 1_000_000 ∷ 0 ∷ 0 ∷ [];
        amount_value_table = record { upper = some 1_000_000; value = some 10_000_000 } ∷ [];
      }
      ∷ [];
  gap_wide = 100_000;
  gap_mid = 50_000;
  cliff_probe = 0;
  gap_veto = 0;
  max_exposure_usd = 250_000_000;
  max_exposure_shares = 500;
  max_concurrent_markets = 1;
  placement_mode = codes "gap_single";
  legacy_wall_threshold = 2000;
  legacy_cumulative_threshold = 6000;
  order_size_mode = codes "min";
  order_size_custom_usd = 0;
}

abbrev positions : List Position
positions =
    record { asset = no_token; condition_id = market; size = 20_000_000; cur_price = 400_000 } ∷ []

abbrev exchange : Exchange
exchange = record {
  open_orders = some [];
  positions = some positions;
  blacklist = [];
  template = template;
  in_cooldown = λ m. false;
  uma_status = λ m. none;
  get_orderbook = λ token. some (record {
    bids = bids;
    asks = record { price = 500_000; size = 900_000_000 } ∷ [];
    tick_size = 10_000;
  });
  get_balance = λ m. some 200_000_000;
  cancel_orders = λ ids. true;
  place_limit_buy = λ token price shares. true;
}

abbrev candidate : Text → Candidate
candidate token = record {
  market_id = market;
  token_id = token;
  rewards_max_spread = 300;
  rewards_min_size = 100_000_000;
}

abbrev both : List Candidate
both = candidate yes_token ∷ candidate no_token ∷ []

abbrev held : Held
held = record {
  assets = no_token ∷ [];
  value_by_market = (market, 8_000_000_000_000) ∷ [];
  shares_by_market = (market, 20_000_000) ∷ [];
}

abbrev round : Round
round = place_round exchange both (some 2) true [] held

place_round_limits_example :
    ((k : ℕ) → some 2 ≡ some k → length (accepted exchange round.sent) ≤ max 1 k)
    × AllOpen round.markets_with_open (accepted exchange round.sent)
    × (length round.markets_with_open ≤ max (length (open_markets [] [])) 1)
place_round_limits_example = place_round_limits exchange both (some 2) true [] held

held_side_info-sums_example :
    (sum_at market (held_side_info positions).shares_by_market
      ≡ sum_of (on_market (λ q. q.size) market) positions)
    × (sum_at market (held_side_info positions).value_by_market
        ≡ sum_of (on_market (λ q. q.size * q.cur_price) market) positions)
    × (has_text market (held_side_info positions).assets ≡ any (holds market) positions)
held_side_info-sums_example = held_side_info-sums market positions refl
