-- ===== src/Monitor/Recheck.antt =====
-- engine/monitor.py: `_prefetch`, `_check_compliance` and `check_sell_orders`. What the exchange and the
-- database answer is a record of functions, where `none` and `false` are exceptions.
use polymarket_rewards.Base.{
  ℕ, Bool, ◌&&◌, not, Option, none, some, List, [], ◌∷◌, ◌++◌, ltb, ◌==◌, if◌then◌else◌, or_zero,
  is_empty,
}
use polymarket_rewards.Base.Text.{Text, codes, text_eq}
use polymarket_rewards.Place.{OpenOrder, Book, has_text, add_text}
use polymarket_rewards.Monitor.Rewards.{RewardItem, MarketRewards, Cached, market_rewards}
use polymarket_rewards.Monitor.Judge.{
  MonitorSettings, Verdict, resting_sale, part_filled, blacklisted, reward_dropped, is_cancel,
  judge,
}

-- The settings are read together with the blacklist and the time for which rewards are kept.
pub record Prepared : Type 0 where
  pub blacklist : List Text
  pub settings : MonitorSettings
  pub rewards_cache_ttl : ℕ

pub record Sources : Type 0 where
  pub open_orders : Option (List OpenOrder)
  pub prepared : Option Prepared
  pub time : Text → ℕ
  pub get_rewards_for_market : Text → Option (List RewardItem)
  pub get_orderbooks : List Text → Option (Text → Option Book)
  pub cancel_order : Option Text → Bool

-- What a tick leaves: the cancellations that were sent, the rewards that were written back to the
-- candidates, the rows of the status table, and the cache.
pub record Tick : Type 0 where
  pub cancels : List (Option Text)
  pub updates : List (Text × ℕ)
  pub statuses : List (Text × Verdict)
  pub cache : List Cached

-- `_status_add`, with what the row says.
abbrev pub status_add : Text → Verdict → Tick → Tick
status_add market v s = record s { statuses = s.statuses ++ (market, v) ∷ [] }

abbrev pub is_resting_buy : OpenOrder → Bool
is_resting_buy o = text_eq o.side (codes "BUY") && (or_zero o.order.size_matched == 0)

abbrev pub is_pending : List Text → OpenOrder → Bool
is_pending blacklist o = is_resting_buy o && not (has_text o.market blacklist)

abbrev pub add_named : Text → List Text → List Text
add_named t ts = if is_empty t then ts else add_text t ts

-- The tokens and the markets of the orders that are judged, each once.
unfoldable pub pending_keys : List Text → List OpenOrder → List Text × List Text
pending_keys blacklist [] = ([], [])
pending_keys blacklist (o ∷ orders) =
    let (tokens, markets) = pending_keys blacklist orders in
    if is_pending blacklist o
    then (add_named o.asset_id tokens, add_named o.market markets)
    else (tokens, markets)

-- `rewards.get(cid, (None, None))`
unfoldable pub rewards_at : List (Text × MarketRewards) → Text → MarketRewards
rewards_at [] market = (none, none)
rewards_at (e ∷ table) market = if text_eq e.0 market then e.1 else rewards_at table market

unfoldable pub fetch_rewards :
    Sources → ℕ → List Text → List Cached → List (Text × MarketRewards) × List Cached
unfolding market_rewards
fetch_rewards x ttl [] cache = ([], cache)
fetch_rewards x ttl (market ∷ markets) cache =
    let (pair, kept) =
      market_rewards market (x.time market) ttl (x.get_rewards_for_market market) cache in
    let (table, last) = fetch_rewards x ttl markets kept in ((market, pair) ∷ table, last)

-- Only the tokens that were asked for have a book.
abbrev pub books_at : Option (Text → Option Book) → List Text → Text → Option Book
books_at none tokens token = none
books_at (some books) tokens token = if has_text token tokens then books token else none

-- The rate is written back where the reward has dropped.
abbrev pub update_of : Text → Verdict → MarketRewards → List (Text × ℕ)
update_of market reward_dropped (spread, some rate) = (market, rate) ∷ []
update_of market v rewards = []

-- The verdict is carried out; where the cancellation fails nothing else is done.
unfoldable pub carry_out : Sources → OpenOrder → MarketRewards → Verdict → Tick → Tick
carry_out x o rewards v s =
    let sent = record s { cancels = s.cancels ++ o.order.id ∷ [] } in
    if not (is_cancel v)
    then status_add o.market v s
    else if x.cancel_order o.order.id
    then status_add o.market v (record sent { updates = s.updates ++ update_of o.market v rewards })
    else sent

-- An order whose book could not be read is passed over without a row.
unfoldable pub check_compliance :
    Sources → Prepared → (Text → Option Book) → (Text → MarketRewards) → OpenOrder → Tick → Tick
unfolding carry_out judge
check_compliance x p books rewards o s =
    let v = judge p.settings (or_zero o.order.price) (books o.asset_id) (rewards o.market) in
    if has_text o.market p.blacklist
    then carry_out x o (none, none) blacklisted s
    else elim (books o.asset_id) [ none ↦ s | some ob ↦ carry_out x o (rewards o.market) v s ]

-- One pass of the loop of `check_sell_orders`.
unfoldable pub check_order :
    Sources → Prepared → (Text → Option Book) → (Text → MarketRewards) → OpenOrder → Tick → Tick
unfolding check_compliance
check_order x p books rewards o s =
    if not (text_eq o.side (codes "BUY"))
    then status_add o.market resting_sale s
    else if ltb 0 (or_zero o.order.size_matched)
    then status_add o.market part_filled s
    else check_compliance x p books rewards o s

unfoldable pub check_orders :
    Sources
    → Prepared
    → (Text → Option Book)
    → (Text → MarketRewards)
    → List OpenOrder
    → Tick
    → Tick
unfolding check_order
check_orders x p books rewards [] s = s
check_orders x p books rewards (o ∷ orders) s =
    check_orders x p books rewards orders (check_order x p books rewards o s)

-- The tick, once the orders and the settings have been read: rewards first, then books.
unfoldable pub check_prepared : Sources → Prepared → List OpenOrder → Tick → Tick
unfolding check_orders pending_keys fetch_rewards rewards_at
check_prepared x p orders s =
    let (tokens, markets) = pending_keys p.blacklist orders in
    let (table, cache) = fetch_rewards x p.rewards_cache_ttl markets s.cache in
    check_orders x p (books_at (x.get_orderbooks tokens) tokens) (rewards_at table) orders
      (record s { cache = cache })

unfoldable pub check_sell_orders : Sources → Tick → Tick
unfolding check_prepared
check_sell_orders x s = elim x.open_orders [
  | none ↦ s
  | some orders ↦ elim x.prepared [ none ↦ s | some p ↦ check_prepared x p orders s ]
]
