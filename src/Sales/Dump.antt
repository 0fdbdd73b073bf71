-- ===== src/Sales/Dump.antt =====
-- engine/monitor.py: `_market_dump` and `_resolution_dump`. The result is the price of the sale, and
-- `none` where the sale or the record of its trade raised.
use polymarket_rewards.Base.{
  ℕ, Option, none, some, List, [], ◌∷◌, ◌++◌, ◌==◌, if◌then◌else◌, is_empty,
}
use polymarket_rewards.Base.Frac.{Frac}
use polymarket_rewards.Base.Text.{Text}
use polymarket_rewards.TakeProfit.{Receipt, whole, market_fill_price}
use polymarket_rewards.Place.{Position}
use polymarket_rewards.Sales.World.{
  ListedOrder, Desk, cancel_sells, market_sell, no_bid, dump_failed, dumped, StopTrade, Sales, call,
  row, own_sells, sell_ids_of,
}

-- The ids count as cancelled where the cancellation went through.
unfoldable pub clear_sells : Desk → List (Option Text) → Sales → Sales
clear_sells d ids s =
    let sent = call (cancel_sells ids) s in
    if is_empty ids
    then s
    else if d.cancel_orders ids
    then record sent { cancelled = s.cancelled ++ ids }
    else sent

abbrev pub stop_trade : Position → Frac → Frac → StopTrade
stop_trade pos fill cost = record {
  market = pos.condition_id;
  price = fill;
  size = pos.size;
  cost = cost;
}

abbrev pub keep_trade : StopTrade → Sales → Sales
keep_trade trade s = record s { trades = s.trades ++ trade ∷ [] }

-- A trade is recorded where the cost is known. An exception of the record leaves the function; it is
-- caught in the loops of `check_low_balance` and `check_exit`, which go on as if nothing was sold.
abbrev pub record_dump : Desk → Position → Frac → Option Frac → Sales → Option Frac × Sales
record_dump d pos fill none s = (some fill, row pos.condition_id dumped s)
record_dump d pos fill (some cost) s =
    let trade = stop_trade pos fill cost in
    if cost.num == 0
    then (some fill, row pos.condition_id dumped s)
    else if d.record_trade trade
    then (some fill, row pos.condition_id dumped (keep_trade trade s))
    else (none, s)

-- What follows the market order.
abbrev pub after_dump :
    Desk → Position → ℕ → Option Frac → Option (Option Receipt) → Sales → Option Frac × Sales
after_dump d pos best_bid cost none s = (none, row pos.condition_id dump_failed s)
after_dump d pos best_bid cost (some resp) s =
    record_dump d pos (market_fill_price resp (some best_bid) (whole pos.cur_price)) cost s

unfoldable pub market_dump :
    Desk → List ListedOrder → Position → ℕ → Option Frac → Sales → Option Frac × Sales
unfolding clear_sells market_fill_price
market_dump d orders pos best_bid cost s =
    let cleared = clear_sells d (sell_ids_of (own_sells pos.asset orders s)) s in
    after_dump d pos best_bid cost (d.place_market_sell pos.asset pos.size)
      (call (market_sell pos.asset pos.size) cleared)

unfoldable pub resolution_dump :
    Desk → List ListedOrder → Position → Option ℕ → Option Frac → Sales → Sales
unfolding market_dump
resolution_dump d orders pos none cost s = row pos.condition_id no_bid s
resolution_dump d orders pos (some best_bid) cost s =
    if best_bid == 0
    then row pos.condition_id no_bid s
    else (market_dump d orders pos best_bid cost s).1
