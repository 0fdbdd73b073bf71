-- ===== src/Tests/Fills.antt =====
-- Examples for engine/fills.py.
use polymarket_rewards.Base.{none, some, List, [], ◌∷◌}
use polymarket_rewards.Base.Text.{Text, codes}
use polymarket_rewards.Fills.{MakerOrder, Trade}

abbrev pub funder : Text
funder = codes "0xAbC1"

abbrev our_order : MakerOrder
our_order = record {
  maker_address = some (codes "0xabc1");
  side = some (codes "buy");
  order_id = some (codes "o1");
  asset_id = some (codes "71");
  price = some 300_000;
  matched_amount = some 50_000_000;
  fee_rate_bps = none;
}

abbrev trade : Trade
trade = record {
  id = some (codes "t1");
  market = some (codes "m1");
  match_time = some 10;
  maker_orders = our_order ∷ record our_order { maker_address = some (codes "0xff") } ∷ [];
  trader_side = some (codes "MAKER");
  asset_id = some (codes "72");
  side = some (codes "SELL");
  price = some 700_000;
  size = some 60_000_000;
  fee_rate_bps = none;
}

abbrev pub trades : List Trade
trades = trade ∷ []
