-- ===== src/Tests/Selling.antt =====
-- Examples for the sale of positions in engine/monitor.py.
use polymarket_rewards.Base.{false, true, none, some, List, [], ◌∷◌}
use polymarket_rewards.Base.Int.{pos}
use polymarket_rewards.Base.Text.{codes}
use polymarket_rewards.Place.{Position, Book}
use polymarket_rewards.Sales.{
  ListedOrder, ExitSettings, Desk, Sales, exit_position, LowSources, LowState, check_low_balance,
}
use polymarket_rewards.Sales.Sound.{Exits}
use polymarket_rewards.Tests.Events.{start}
use polymarket_rewards.Tests.Exits.{market}
use polymarket_rewards.Tests.Orders.{bids}
use polymarket_rewards.Tests.Fills.{funder, trades}

abbrev book : Book
book = record {
  bids = bids;
  asks = record { price = 500_000; size = 900_000_000 } ∷ [];
  tick_size = 10_000;
}

abbrev desk : Desk
desk = record {
  funder = some funder;
  get_trades = λ m. some trades;
  get_orderbook = λ asset. some book;
  merge_events = [];
  exit_router = some market;
  cancel_orders = λ ids. true;
  place_limit_sell = λ asset price size. true;
  place_market_sell = λ asset size. some none;
  record_trade = λ trade. true;
}

abbrev exit_settings : ExitSettings
exit_settings = record {
  stop_mode = codes "percent";
  stop_percent = some (pos 20_000_000);
  stop_cents = some (pos 5_000_000);
  is_market = false;
}

abbrev orders : List ListedOrder
orders =
    record {
      asset_id = codes "71";
      side = codes "SELL";
      order = record {
        id = some (codes "s1");
        price = some 450_000;
        original_size = some 50_000_000;
        size_matched = some 0;
      };
    }
    ∷ []

abbrev held : Position
held = record {
  asset = codes "71";
  condition_id = codes "m1";
  size = 50_000_000;
  cur_price = 480_000;
}

abbrev empty : Sales
empty = record { sent = []; cancelled = []; trades = []; rows = []; router = start }

abbrev exited : Sales
exited = exit_position desk exit_settings orders false held empty

abbrev low_sources : LowSources
low_sources = record {
  desk = desk;
  settings = record {
    low_balance_threshold = 4_000_000;
    low_reward_threshold = 30_000_000;
    small_position_shares = 20_000_000;
    is_next_order = false;
    liquidate_target = 10_000_000;
  };
  now = 1000;
  later = 1002;
  get_balance = some 3_000_000;
  min_order_cost = none;
  positions = some (held ∷ []);
  open_orders = some orders;
  daily_reward = λ m. some 20_000_000;
}

abbrev low_state : LowState
low_state = record { sales = empty; just_dumped = []; cooldown_until = 900 }

abbrev low_after : LowState
low_after = check_low_balance low_sources low_state
