-- ===== src/Sales/Selling.antt =====
-- engine/monitor.py: `_exit_position`, and the loop of `check_exit`.
use polymarket_rewards.Base.{
  ℕ, Bool, true, false, ◌&&◌, not, Option, none, some, List, [], ◌∷◌, ◌==◌, if◌then◌else◌, is_empty,
  map,
}
use polymarket_rewards.Base.Frac.{Frac, ltb_frac}
use polymarket_rewards.Base.Text.{Text, or_blank}
use polymarket_rewards.TakeProfit.{
  Receipt, whole, ceil_to_tick, SellOrder, SellPlan, noop, keep_one, replace, plan_take_profit,
  effective_theta_stop, Tier, b0, a_market, a, b_park, no_book, ExitAction, ExitPlan, plan_exit,
  market_fill_price,
}
use polymarket_rewards.Merges.{Answers, Holding, OpenOrder, RouterState}
use polymarket_rewards.Exit.{route_position}
use polymarket_rewards.Place.{Position, has_text, in_resolution}
use polymarket_rewards.Sales.World.{
  ListedOrder, ExitSettings, Desk, cancel_sells, rest_sell, market_sell, no_cost, empty_book,
  sell_kept, rest_failed, rested, market_failed, market_sold, Sales, call, row, own_sells,
  sell_ids_of, cost_lots, SellSide, sell_book,
}
use polymarket_rewards.Sales.Dump.{stop_trade, keep_trade, resolution_dump}

-- The floor under a resting price.
abbrev pub clamp : Option Frac → Frac → Option Frac
clamp none floor = none
clamp (some want) floor = some (if ltb_frac want floor then floor else want)

abbrev pub cancel_old : List (Option Text) → Sales → Sales
cancel_old ids s = if is_empty ids then s else call (cancel_sells ids) s

-- A failed cancellation leaves it at that.
unfoldable pub carry_plan : Desk → Position → SellPlan → Sales → Sales
carry_plan d pos noop s = row pos.condition_id sell_kept s
carry_plan d pos (keep_one price size) s = row pos.condition_id sell_kept s
carry_plan d pos (replace price size ids) s =
    let cleared = cancel_old ids s in
    let asked = call (rest_sell pos.asset price size) cleared in
    if not (is_empty ids) && not (d.cancel_orders ids)
    then cleared
    else if d.place_limit_sell pos.asset price size
    then row pos.condition_id rested asked
    else row pos.condition_id rest_failed asked

abbrev pub is_stop : Tier → Bool
is_stop b0 = true
is_stop a_market = false
is_stop a = false
is_stop b_park = false
is_stop no_book = false

-- What follows the market order; an exception of the record leaves the function.
abbrev pub after_market :
    Desk → Position → Option ℕ → Frac → Tier → Option (Option Receipt) → Sales → Sales
after_market d pos best_bid cost tier none s = row pos.condition_id market_failed s
after_market d pos best_bid cost tier (some resp) s =
    let trade = stop_trade pos (market_fill_price resp best_bid (whole pos.cur_price)) cost in
    if not (is_stop tier)
    then row pos.condition_id market_sold s
    else if d.record_trade trade
    then row pos.condition_id market_sold (keep_trade trade s)
    else s

-- The sale goes on where the cancellation fails.
unfoldable pub sell_now :
    Desk → Position → Option ℕ → Frac → Tier → List (Option Text) → Sales → Sales
unfolding market_fill_price
sell_now d pos best_bid cost tier ids s =
    after_market d pos best_bid cost tier (d.place_market_sell pos.asset pos.size)
      (call (market_sell pos.asset pos.size) (cancel_old ids s))

-- The plan is carried out.
unfoldable pub carry_exit :
    Desk → Position → SellSide → Frac → List SellOrder → ExitPlan → Sales → Sales
unfolding carry_plan sell_now plan_take_profit ceil_to_tick
carry_exit d pos book cost sells plan s = elim plan.action [
  | ExitAction.noop ↦ row pos.condition_id empty_book s
  | ExitAction.rest ↦
      carry_plan d pos
        (plan_take_profit pos.size (clamp plan.price (ceil_to_tick cost book.tick)) book.tick sells)
        s
  | ExitAction.market ↦ sell_now d pos book.best_bid cost plan.tier (sell_ids_of sells) s
]

-- From the test of the cost on.
unfoldable pub exit_costed :
    Desk → ExitSettings → List ListedOrder → Position → SellSide → Option Frac → Sales → Sales
unfolding carry_exit plan_exit effective_theta_stop
exit_costed d t orders pos book none s = row pos.condition_id no_cost s
exit_costed d t orders pos book (some cost) s =
    let theta = effective_theta_stop (some cost) t.stop_mode t.stop_percent t.stop_cents in
    let plan = plan_exit cost book.best_bid book.best_ask book.tick theta pos.size t.is_market in
    if cost.num == 0
    then row pos.condition_id no_cost s
    else carry_exit d pos book cost (own_sells pos.asset orders s) plan s

-- The snapshot of the open orders, and the position, as the router reads them.
abbrev pub router_orders : List ListedOrder → List OpenOrder
router_orders orders =
    map (λ o. record { id = or_blank o.order.id; asset_id = o.asset_id; side = o.side }) orders

abbrev pub holding_of : Position → Holding
holding_of pos = record { condition_id = pos.condition_id; asset = pos.asset; size = pos.size }

-- Whether the router, where there is one, has handled the position, and its state.
unfoldable pub ask_router :
    Option Answers → List ListedOrder → Position → RouterState → Bool × RouterState
unfolding route_position
ask_router none orders pos r = (false, r)
ask_router (some env) orders pos r = route_position env (router_orders orders) (holding_of pos) r

unfoldable pub exit_position :
    Desk
    → ExitSettings
    → List ListedOrder
    → (in_resolution_market : Bool) → Position
    → Sales
    → Sales
unfolding exit_costed resolution_dump cost_lots sell_book ask_router
exit_position d t orders in_resolution_market pos s =
    let cost = (cost_lots d pos.asset pos.size pos.condition_id).0 in
    let book = sell_book d pos.asset in
    let asked = ask_router d.exit_router orders pos s.router in
    let routed = record s { router = asked.1 } in
    if pos.size == 0
    then s
    else if in_resolution_market
    then resolution_dump d orders pos book.best_bid cost s
    else if asked.0
    then routed
    else exit_costed d t orders pos book cost routed

-- The loop of `check_exit`; the tokens that low balance has sold in this tick are passed over.
unfoldable pub exit_all :
    Desk
    → ExitSettings
    → List ListedOrder
    → (uma_status : Text → Option Text) → (just_dumped : List Text) → List Position
    → Sales
    → Sales
unfolding exit_position in_resolution
exit_all d t orders uma_status just_dumped [] s = s
exit_all d t orders uma_status just_dumped (pos ∷ positions) s =
    exit_all d t orders uma_status just_dumped positions (
      if has_text pos.asset just_dumped
      then s
      else exit_position d t orders (in_resolution (uma_status pos.condition_id)) pos s)
