-- ===== src/Fills/Defs.antt =====
-- engine/fills.py: `select_new_buy_fills`, `extract_fills`, `extract_buy_fills`. A field that the
-- trade lacks is `none`; amounts are millionths.
use polymarket_rewards.Base.{
  ℕ, Bool, ◌&&◌, not, Option, List, [], ◌∷◌, ◌++◌, map, leb, if◌then◌else◌, any, keep, or_zero,
}
use polymarket_rewards.Base.Sort.{sort_by}
use polymarket_rewards.Base.Text.{Text, codes, text_eq, opt_eq, or_blank, lower, upper}
use polymarket_rewards.Cost.{Fill}

pub record MakerOrder : Type 0 where
  pub maker_address : Option Text
  pub side : Option Text
  pub order_id : Option Text
  pub asset_id : Option Text
  pub price : Option ℕ
  pub matched_amount : Option ℕ
  pub fee_rate_bps : Option ℕ

pub record Trade : Type 0 where
  pub id : Option Text
  pub market : Option Text
  pub match_time : Option ℕ
  pub maker_orders : List MakerOrder
  pub trader_side : Option Text
  pub asset_id : Option Text
  pub side : Option Text
  pub price : Option ℕ
  pub size : Option ℕ
  pub fee_rate_bps : Option ℕ

pub record BuyEvent : Type 0 where
  pub trade_id : Option Text
  pub order_id : Option Text
  pub asset_id : Text
  pub price : ℕ
  pub size : ℕ
  pub market : Text
  pub ts : ℕ

-- `(trade_id, order_id)`
abbrev pub Key : Type 0
Key = Option Text × Option Text

abbrev pub key_eq : Key → Key → Bool
key_eq a b = opt_eq a.0 b.0 && opt_eq a.1 b.1

abbrev pub contains : Key → List Key → Bool
contains k keys = any (key_eq k) keys

-- `(funder or "").lower()`
unfoldable pub fold_funder : Option Text → Text
unfolding lower
fold_funder funder = lower (or_blank funder)

unfoldable pub is_ours : Text → MakerOrder → Bool
unfolding lower
is_ours f mo = text_eq (lower (or_blank mo.maker_address)) f

unfoldable pub side_is : Text → Option Text → Bool
unfolding upper
side_is word side = text_eq (upper (or_blank side)) word

-- The three `continue`s of the inner loop, negated.
unfoldable pub is_new_buy : Text → List Key → Option Text → MakerOrder → Bool
unfolding is_ours side_is
is_new_buy f seen_keys trade_id mo =
    is_ours f mo
    && (side_is (codes "BUY") mo.side && not (contains (trade_id, mo.order_id) seen_keys))

abbrev pub event_of : Trade → MakerOrder → BuyEvent
event_of tr mo = record {
  trade_id = tr.id;
  order_id = mo.order_id;
  asset_id = or_blank mo.asset_id;
  price = or_zero mo.price;
  size = or_zero mo.matched_amount;
  market = or_blank tr.market;
  ts = or_zero tr.match_time;
}

-- Both loops, over the trades and over the maker orders of each.
unfoldable pub collect_events : Text → List Key → List Trade → List BuyEvent
unfolding is_new_buy
collect_events f seen_keys [] = []
collect_events f seen_keys (tr ∷ trades) =
    map (event_of tr) (keep (is_new_buy f seen_keys tr.id) tr.maker_orders)
    ++ collect_events f seen_keys trades

abbrev pub event_le : BuyEvent → BuyEvent → Bool
event_le a b = leb a.ts b.ts

unfoldable pub select_new_buy_fills : List Trade → Option Text → List Key → List BuyEvent
unfolding fold_funder collect_events sort_by
select_new_buy_fills trades funder seen_keys =
    sort_by event_le (collect_events (fold_funder funder) seen_keys trades)

abbrev pub maker_fill : Trade → MakerOrder → Fill
maker_fill tr mo = record {
  side = upper (or_blank mo.side);
  price = or_zero mo.price;
  size = or_zero mo.matched_amount;
  ts = or_zero tr.match_time;
  trade_id = tr.id;
  fee_rate_bps = or_zero mo.fee_rate_bps;
}

abbrev pub taker_fill : Trade → Fill
taker_fill tr = record {
  side = upper (or_blank tr.side);
  price = or_zero tr.price;
  size = or_zero tr.size;
  ts = or_zero tr.match_time;
  trade_id = tr.id;
  fee_rate_bps = or_zero tr.fee_rate_bps;
}

unfoldable pub is_ours_on : Text → Text → MakerOrder → Bool
unfolding is_ours
is_ours_on f a mo = is_ours f mo && text_eq (or_blank mo.asset_id) a

-- `we_are_maker`, when the inner loop has ended.
unfoldable pub we_are_maker : Text → Trade → Bool
unfolding is_ours
we_are_maker f tr = any (is_ours f) tr.maker_orders

unfoldable pub is_taker_on : Text → Text → Trade → Bool
unfolding we_are_maker side_is
is_taker_on f a tr =
    not (we_are_maker f tr)
    && (side_is (codes "TAKER") tr.trader_side && text_eq (or_blank tr.asset_id) a)

unfoldable pub fills_of_trade : Text → Text → Trade → List Fill
unfolding is_ours_on is_taker_on upper
fills_of_trade f a tr =
    map (maker_fill tr) (keep (is_ours_on f a) tr.maker_orders)
    ++ (if is_taker_on f a tr then taker_fill tr ∷ [] else [])

unfoldable pub collect_fills : Text → Text → List Trade → List Fill
unfolding fills_of_trade
collect_fills f a [] = []
collect_fills f a (tr ∷ trades) = fills_of_trade f a tr ++ collect_fills f a trades

unfoldable pub extract_fills : List Trade → Option Text → Text → List Fill
unfolding fold_funder collect_fills
extract_fills trades funder asset_id = collect_fills (fold_funder funder) asset_id trades

-- The entries lose the keys `side` and `fee_rate_bps`; their other fields stay.
pub record BuyFill : Type 0 where
  pub price : ℕ
  pub size : ℕ
  pub ts : ℕ
  pub trade_id : Option Text

abbrev pub buy_view : Fill → BuyFill
buy_view f = record { price = f.price; size = f.size; ts = f.ts; trade_id = f.trade_id }

unfoldable pub extract_buy_fills : List Trade → Option Text → Text → List BuyFill
unfolding extract_fills
extract_buy_fills trades funder asset_id =
    map buy_view (keep (λ f. text_eq f.side (codes "BUY")) (extract_fills trades funder asset_id))
