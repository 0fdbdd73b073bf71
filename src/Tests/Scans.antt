-- ===== src/Tests/Scans.antt =====
-- Examples for the filters of engine/scanner.py.
use polymarket_rewards.Base.{
  ◌≡◌, refl, ap, subst, false, true, none, some, List, [], ◌∷◌, All, Option, Bool,
}
use polymarket_rewards.Base.Text.{Text, codes}
use polymarket_rewards.Base.Int.{pos}
use polymarket_rewards.Place.{Candidate}
use polymarket_rewards.Scan.{
  ScanBook, ScanMarket, ScanTemplate, book_spread, max_price_of, min_price_of, filter_for_template,
}
use polymarket_rewards.Scan.Eligible.{IsEligible, IsRefreshed, filter_for_template-IsEligible}
use polymarket_rewards.Tests.Orders.{bids}
use polymarket_rewards.Tests.Places.{template}

abbrev book : ScanBook
book = record {
  bids = bids;
  asks = record { price = 500_000; size = 900_000_000 } ∷ [];
  spread = some 20_000;
}

abbrev market : ScanMarket
market = record {
  condition_id = codes "0xm1";
  tags = codes "sports" ∷ [];
  rates = 150_000_000 ∷ [];
  market_reward = none;
  settlement_days = some (pos 9);
  age_hours = none;
  rewards_max_spread = some 400;
  rewards_min_size = 100_000_000;
  tokens = record { token_id = codes "71"; price = some 480_000 } ∷ [];
  books = λ token. some book;
}

abbrev scan_template : ScanTemplate
scan_template = record {
  min_reward = 100_000_000;
  min_price = 100_000;
  max_price = 900_000;
  min_settlement_days = some (pos 2);
  max_settlement_days = none;
  included_categories = codes "sports" ∷ [];
  include_other = false;
  size_tiers = template.size_tiers;
  skip_new_markets = true;
  new_market_hours = 24_000_000;
  skip_new_categories = codes "sports" ∷ [];
  skip_new_other = false;
  max_spread = 30_000;
}

abbrev never : Text → Bool
never m = false

market-IsRefreshed : IsRefreshed market
unfolding book_spread max_price_of min_price_of
market-IsRefreshed token b same =
    subst (λ (o : ScanBook). o.spread ≡ book_spread o.bids o.asks)
      (ap (λ (o : Option ScanBook). elim o [ none ↦ book | some c ↦ c ]) same) refl

abbrev eligible : List Candidate
eligible = filter_for_template never scan_template (market ∷ [])

filter_for_template-IsEligible_example : All (IsEligible never scan_template (market ∷ [])) eligible
filter_for_template-IsEligible_example =
    filter_for_template-IsEligible never scan_template (market ∷ []) (market-IsRefreshed, tt)
