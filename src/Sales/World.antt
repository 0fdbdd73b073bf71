-- ===== src/Sales/World.antt =====
-- engine/monitor.py: what the sale of a position is given, and `_cost_lots`, `_merge_events_for` and
-- `_sell_book`. What the exchange answers is a record of functions, where `none` and `false` are
-- exceptions. The caches of a tick are left out: an entry is what was read earlier in the tick.
use polymarket_rewards.Base.{
  ℕ, Bool, ◌&&◌, ◌||◌, not, Option, none, some, List, [], ◌∷◌, ◌++◌, ltb, leb, ◌==◌, any, keep, map,
}
use polymarket_rewards.Base.Sort.{sort_by}
use polymarket_rewards.Base.Frac.{Frac}
use polymarket_rewards.Base.Int.{ℤ}
use polymarket_rewards.Base.Text.{Text, codes, text_eq, opt_eq}
use polymarket_rewards.Fills.{Trade, extract_fills}
use polymarket_rewards.Cost.{Lot, position_cost_with_lots}
use polymarket_rewards.Gap.{Bid, bid_ge}
use polymarket_rewards.TakeProfit.{SellOrder, Receipt}
use polymarket_rewards.Merges.{Event, confirmed, status_eq, Answers, RouterState}
use polymarket_rewards.Place.{Book, ask_order}

pub record ListedOrder : Type 0 where
  pub asset_id : Text
  pub side : Text
  pub order : SellOrder

-- `is_market` is `take_profit_mode == "market"`; a setting that is no number is `none`.
pub record ExitSettings : Type 0 where
  pub stop_mode : Text
  pub stop_percent : Option ℤ
  pub stop_cents : Option ℤ
  pub is_market : Bool

-- A row of the trades, as `record_trade` writes it; its profit is (price - cost) * size.
pub record StopTrade : Type 0 where
  pub market : Text
  pub price : Frac
  pub size : ℕ
  pub cost : Frac

-- A market sale answers with a receipt, which may lack its amounts. `exit_router` is the router's own
-- record of answers, `none` where there is no router.
pub record Desk : Type 0 where
  pub funder : Option Text
  pub get_trades : Text → Option (List Trade)
  pub get_orderbook : Text → Option Book
  pub merge_events : List Event
  pub exit_router : Option Answers
  pub cancel_orders : List (Option Text) → Bool
  pub place_limit_sell : Text → Frac → ℕ → Bool
  pub place_market_sell : Text → ℕ → Option (Option Receipt)
  pub record_trade : StopTrade → Bool

pub data SaleCall : Type 0 where
  cancel_sells : (ids : List (Option Text)) → SaleCall
  rest_sell : (asset : Text) (price : Frac) (size : ℕ) → SaleCall
  market_sell : (asset : Text) (size : ℕ) → SaleCall

-- What the rows of the status table say.
pub data SaleStatus : Type 0 where
  no_cost empty_book sell_kept rest_failed rested market_failed market_sold no_bid dump_failed
        dumped :
      SaleStatus

-- `sent` is what the monitor sends by itself; `router` is the state of the router, with its own calls.
-- `cancelled` is `_cancelled_sell_ids`.
pub record Sales : Type 0 where
  pub sent : List SaleCall
  pub cancelled : List (Option Text)
  pub trades : List StopTrade
  pub rows : List (Text × SaleStatus)
  pub router : RouterState

abbrev pub call : SaleCall → Sales → Sales
call c s = record s { sent = s.sent ++ c ∷ [] }

abbrev pub row : Text → SaleStatus → Sales → Sales
row market status s = record s { rows = s.rows ++ (market, status) ∷ [] }

-- The resting sells of the token on the snapshot, less those that this tick has cancelled.
abbrev pub is_own_sell : Text → List (Option Text) → ListedOrder → Bool
is_own_sell asset cancelled o =
    text_eq o.asset_id asset
    && (text_eq o.side (codes "SELL") && not (any (λ id. opt_eq id o.order.id) cancelled))

abbrev pub own_sells : Text → List ListedOrder → Sales → List SellOrder
own_sells asset orders s = map (λ o. o.order) (keep (is_own_sell asset s.cancelled) orders)

abbrev pub sell_ids_of : List SellOrder → List (Option Text)
sell_ids_of sells = map (λ o. o.id) sells

abbrev time_of : Event → ℕ
time_of e = elim e.confirmed_at [ none ↦ 0 | some ts ↦ ts ]

-- The confirmed merges of the market, of every wallet, in the order of their confirmation.
unfoldable pub merge_events_for : Text → List Event → List Event
unfolding sort_by
merge_events_for market rows =
    sort_by (λ a b. ltb (time_of a) (time_of b) || ((time_of a == time_of b) && leb a.id b.id))
      (keep (λ e. status_eq e.status confirmed && text_eq e.condition_id market) rows)

abbrev pub cost_of_trades : Desk → Text → ℕ → Text → Option (List Trade) → Option Frac × List Lot
cost_of_trades d asset size market none = (none, [])
cost_of_trades d asset size market (some trades) =
    position_cost_with_lots (extract_fills trades d.funder asset) size
      (map (λ e. e.amount) (merge_events_for market d.merge_events))

unfoldable pub cost_lots : Desk → Text → ℕ → Text → Option Frac × List Lot
unfolding position_cost_with_lots extract_fills merge_events_for
cost_lots d asset size market = cost_of_trades d asset size market (d.get_trades market)

abbrev pub best_price : List Bid → Option ℕ
best_price [] = none
best_price (b ∷ bids) = some b.price

-- The tick, the best bid and the best ask.
pub record SellSide : Type 0 where
  pub tick : ℕ
  pub best_bid : Option ℕ
  pub best_ask : Option ℕ

abbrev pub sell_side : Option Book → SellSide
sell_side none = record { tick = 10_000; best_bid = none; best_ask = none }
sell_side (some ob) = record {
  tick = ob.tick_size;
  best_bid = best_price (sort_by bid_ge ob.bids);
  best_ask = best_price (sort_by ask_order ob.asks);
}

unfoldable pub sell_book : Desk → Text → SellSide
unfolding sort_by
sell_book d asset = sell_side (d.get_orderbook asset)
