-- ===== src/Tests/Rechecks.antt =====
-- Examples for the recheck of resting orders in engine/monitor.py.
use polymarket_rewards.Base.{true, none, some, List, [], ◌∷◌, map, keep}
use polymarket_rewards.Base.Text.{codes}
use polymarket_rewards.Gap.{Bid}
use polymarket_rewards.Place.{OpenOrder}
use polymarket_rewards.Monitor.{MonitorSettings, Prepared, Sources, Tick, check_prepared}
use polymarket_rewards.Monitor.Cancelled.{
  is_against, id_of, Follows, books_read, rewards_read, check_prepared-Follows,
}
use polymarket_rewards.Tests.Orders.{bids, settings}

abbrev monitor_settings : MonitorSettings
monitor_settings = record {
  max_spread = some 30_000;
  min_reward = 100_000_000;
  min_price = 100_000;
  max_price = 900_000;
  cliff_probe = 0;
  gap_veto = 200_000;
}

abbrev ask : Bid
ask = record { price = 500_000; size = 900_000_000 }

abbrev first_bid : Bid
first_bid = record { price = 480_000; size = 900_000_000 }

abbrev more_bids : List Bid
more_bids =
    record { price = 470_000; size = 4_000_000_000 }
    ∷ record { price = 350_000; size = 2_000_000_000 }
    ∷ []

abbrev pub order : OpenOrder
order = record {
  market = codes "0xm1";
  asset_id = codes "71";
  side = codes "BUY";
  order = record {
    id = some (codes "o1");
    price = some 440_000;
    original_size = some 120_000_000;
    size = none;
    size_matched = some 0;
  };
}

abbrev prepared : Prepared
prepared = record {
  blacklist = codes "0xm2" ∷ [];
  settings = monitor_settings;
  rewards_cache_ttl = 60;
}

abbrev sources : Sources
sources = record {
  open_orders = some (order ∷ []);
  prepared = some prepared;
  time = λ m. 1000;
  get_rewards_for_market = λ m.
      some (record { rewards_max_spread = some 400; rewards_config = some 150_000_000 ∷ [] } ∷ []);
  get_orderbooks =
      λ tokens. some (λ token. some (record { bids = bids; asks = ask ∷ []; tick_size = 10_000 }));
  cancel_order = λ id. true;
}

abbrev before : Tick
before = record { cancels = []; updates = []; statuses = []; cache = [] }

check_prepared-Follows_example :
    Follows 100_000_000
      (map id_of (
        keep
          (is_against prepared
            (books_read sources prepared (order ∷ []))
            (rewards_read sources prepared (order ∷ []) []))
          (order ∷ [])))
      before
      (check_prepared sources prepared (order ∷ []) before)
check_prepared-Follows_example = check_prepared-Follows sources prepared (order ∷ []) before

abbrev after : Tick
after = check_prepared sources prepared (order ∷ []) before
