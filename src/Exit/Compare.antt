-- ===== src/Exit/Compare.antt =====
-- engine/exit_router.py: what the router looks up about a position, and the choice between selling it at
-- once and buying its other half. Whether the exchange accepts a sale at once changes nothing but
-- texts and the log.
use polymarket_rewards.Base.{
  ℕ, Bool, true, false, ◌&&◌, not, Option, none, some, List, [], ◌∷◌, ltb, if◌then◌else◌, is_empty,
  or_zero,
}
use polymarket_rewards.Base.Frac.{Frac}
use polymarket_rewards.Base.Sort.{sort_by}
use polymarket_rewards.Base.Text.{Text, text_eq}
use polymarket_rewards.Cost.{Lot}
use polymarket_rewards.Gap.{Bid, bid_ge}
use polymarket_rewards.TakeProfit.{effective_theta_stop, is_stopped}
use polymarket_rewards.Quote.{FakPlan, MergeQuote, quote_direct_exit, quote_merge_route}
use polymarket_rewards.Merges.{
  Table, fok_merge, create_merge_event, Holding, PoolRow, OrderBook, Answers, FokAnswer, rejected,
  network_error, answered, fak_call, RouterState, calling, cancel_sells, start_fok_merge,
}

-- The first other position of the market that is not empty.
unfoldable pub pair_for : Text → Text → List Holding → Option (Text × ℕ)
pair_for condition_id asset [] = none
pair_for condition_id asset (p ∷ ps) =
    if text_eq p.condition_id condition_id && (not (text_eq p.asset asset) && ltb 0 p.size)
    then some (p.asset, p.size)
    else pair_for condition_id asset ps

unfoldable pub pool_complement : Text → Text → List PoolRow → Option Text
pool_complement condition_id asset [] = none
pool_complement condition_id asset (r ∷ rows) =
    if text_eq r.market_id condition_id && not (text_eq r.token_id asset)
    then some r.token_id
    else pool_complement condition_id asset rows

abbrev pub pair_or_pool : Option (Text × ℕ) → Option Text → Option Text
pair_or_pool none token = token
pair_or_pool (some pair) token = some pair.0

unfoldable pub complement_token : Answers → Text → Text → Option Text
unfolding pair_for pool_complement
complement_token env condition_id asset =
    pair_or_pool (pair_for condition_id asset env.positions)
      (pool_complement condition_id asset env.eligible_markets)

abbrev pub earlier : ℕ → Option ℕ → Option ℕ
earlier t none = some t
earlier t (some ts) = if ltb t ts then some t else some ts

-- The loop of `_oldest_lot_ts`, with the oldest time so far.
unfoldable pub oldest_from : Option ℕ → List Lot → Option ℕ
oldest_from ts [] = ts
oldest_from ts (l ∷ lots) = oldest_from (if ltb 0 l.ts then earlier l.ts ts else ts) lots

unfoldable pub oldest_lot_ts : List Lot → Option ℕ
unfolding oldest_from
oldest_lot_ts lots = oldest_from none lots

unfoldable pub stop_hit : Answers → Frac → Option ℕ → Bool
unfolding effective_theta_stop
stop_hit env cost best_bid = is_stopped cost best_bid (
    effective_theta_stop (some cost) env.template.stop_loss_mode env.template.stop_loss_percent
      env.template.theta_stop_cents)

unfoldable pub protected_fak : Text → ℕ → ℕ → RouterState → RouterState
protected_fak asset worst size s = calling (fak_call asset worst size) (cancel_sells asset s)

-- Whether `_start_fok_merge` returns: all but a rejected order goes through to the caller.
abbrev pub fok_returns : Option (ℕ × Table) → FokAnswer → Bool
fok_returns none answer = true
fok_returns (some reserved) rejected = true
fok_returns (some reserved) network_error = false
fok_returns (some reserved) (answered status order_id) = true

-- Whether the position is handled, and the state.
unfoldable pub fok_route : Answers → Text → Text → Text → ℕ → ℕ → RouterState → Bool × RouterState
fok_route env condition_id asset complement size worst s =
    let lots = (env.cost_lots asset size condition_id).1 in
    (
      fok_returns
          (create_merge_event env.db_now env.wallet condition_id fok_merge size asset complement 0 0
            s.table)
          (env.place_fok_buy complement worst size),
      start_fok_merge env condition_id asset complement size worst lots s,
    )

abbrev pub ask_le : Bid → Bid → Bool
ask_le a b = not (ltb b.price a.price)

-- The quote of the other half has been tried; `none` is a missing token or book.
unfoldable pub choose_route :
    Answers
    → Text
    → Text
    → ℕ
    → FakPlan
    → Option (Text × MergeQuote)
    → RouterState
    → Bool × RouterState
choose_route env condition_id asset size direct none s =
    (true, protected_fak asset direct.worst_price size s)
choose_route env condition_id asset size direct (some (complement, quote)) s =
    if quote.feasible
    then fok_route env condition_id asset complement size (or_zero quote.fok_worst_price) s
    else (true, protected_fak asset direct.worst_price size s)

abbrev pub quote_book : Answers → ℕ → FakPlan → Text → Option OrderBook → Option (Text × MergeQuote)
quote_book env size direct complement none = none
quote_book env size direct complement (some book) = some (
  complement,
  quote_merge_route (sort_by ask_le book.asks) size direct.expected_recovery
      env.template.merge_min_advantage_usd env.template.merge_min_shares,
)

abbrev pub quote_complement : Answers → ℕ → FakPlan → Option Text → Option (Text × MergeQuote)
quote_complement env size direct none = none
quote_complement env size direct (some complement) =
    if is_empty complement
    then none
    else quote_book env size direct complement (env.get_orderbook complement)

unfoldable pub merge_option : Answers → Text → Text → ℕ → FakPlan → Option (Text × MergeQuote)
merge_option env condition_id asset size direct =
    if env.template.merge_enabled && env.relayer_ok
    then quote_complement env size direct (complement_token env condition_id asset)
    else none

-- The direct sale has been quoted; `none` is a book without bids.
unfoldable pub compare_with :
    Answers → Text → Text → ℕ → Option FakPlan → RouterState → Bool × RouterState
compare_with env condition_id asset size none s = (true, s)
compare_with env condition_id asset size (some direct) s =
    choose_route env condition_id asset size direct
      (merge_option env condition_id asset size direct) s

abbrev pub direct_quote : ℕ → Option OrderBook → Option FakPlan
direct_quote size none = none
direct_quote size (some book) = quote_direct_exit (sort_by bid_ge book.bids) size

unfoldable pub route_compare : Answers → Text → Text → ℕ → RouterState → Bool × RouterState
unfolding compare_with
route_compare env condition_id asset size s =
    compare_with env condition_id asset size (direct_quote size (env.get_orderbook asset)) s
