-- ===== src/Exit/Defs.antt =====
-- engine/exit_router.py: the route of one position, from the checks to the sale. A route reads the
-- clock once.
use polymarket_rewards.Base.{
  ℕ, ◌+◌, Bool, true, false, ◌&&◌, ◌||◌, not, Option, none, some, List, [], ◌∷◌, ltb, ◌==◌,
  if◌then◌else◌, is_empty,
}
use polymarket_rewards.Base.Frac.{Frac}
use polymarket_rewards.Base.Text.{Text}
use polymarket_rewards.Cost.{Lot}
use polymarket_rewards.Quote.{maker_sell_price}
use polymarket_rewards.Merges.{
  Event, get_active_merge_event, Holding, Answers, maker_call, OpenOrder, Managed, RouterState,
  calling, drop_managed, managed_of, cancel_sells, order_open, pair_merge_route,
}
use polymarket_rewards.Exit.Compare.{pair_for, oldest_lot_ts, stop_hit, route_compare}

-- The resting sale has been sent; `none` is a refusal or an error.
unfoldable pub after_maker : Answers → Text → ℕ → ℕ → Option Text → RouterState → RouterState
after_maker env asset price size none s = s
after_maker env asset price size (some order_id) s = if is_empty order_id then s else record s {
  managed_sells =
      record {
        asset_id = asset;
        order_id = order_id;
        price = price;
        size = size;
        placed_at = env.now;
      }
      ∷ drop_managed asset s.managed_sells;
}

unfoldable pub place_maker : Answers → Text → ℕ → Option ℕ → RouterState → RouterState
place_maker env asset size none s = s
place_maker env asset size (some price) s =
    after_maker env asset price size (env.place_limit_sell asset price size)
      (calling (maker_call asset price size) (cancel_sells asset s))

-- `managed and self._order_open(managed["order_id"])`
abbrev pub is_resting : Option Managed → List OpenOrder → Bool
is_resting none orders = false
is_resting (some m) orders = order_open m.order_id orders

-- Without a time the wait starts with the tick.
abbrev pub wait_start : ℕ → Option ℕ → ℕ
wait_start now none = now
wait_start now (some oldest) = oldest

-- `remaining <= 0`
unfoldable pub is_due : Answers → List Lot → Bool
unfolding oldest_lot_ts
is_due env lots =
    not (ltb env.now (wait_start env.now (oldest_lot_ts lots) + env.template.exit_maker_wait_sec))

unfoldable pub give_up_maker : Text → RouterState → RouterState
give_up_maker asset s =
    let cleared = cancel_sells asset s in
    record cleared { managed_sells = drop_managed asset cleared.managed_sells }

-- Whether the managed sale is still open has been looked up.
unfoldable pub maker_step :
    Answers
    → Text
    → Text
    → ℕ
    → List Lot
    → Option ℕ
    → (resting : Bool) → RouterState
    → Bool × RouterState
maker_step env condition_id asset size lots best_ask true s =
    if is_due env lots
    then route_compare env condition_id asset size (give_up_maker asset s)
    else (true, s)
maker_step env condition_id asset size lots best_ask false s =
    if is_due env lots
    then route_compare env condition_id asset size s
    else (true, place_maker env asset size (maker_sell_price [] best_ask) s)

unfoldable pub maker_route :
    Answers → Text → Text → ℕ → List Lot → Option ℕ → RouterState → Bool × RouterState
unfolding maker_step
maker_route env condition_id asset size lots best_ask s =
    maker_step env condition_id asset size lots best_ask
      (is_resting (managed_of asset s.managed_sells) s.open_orders) s

-- What is left after the pair: the stop, no waiting, or the resting sale.
unfoldable pub route_single :
    Answers → Text → Text → ℕ → Frac → List Lot → RouterState → Bool × RouterState
route_single env condition_id asset size cost lots s =
    let book = env.sell_book asset in
    if stop_hit env cost book.best_bid || (env.template.exit_maker_wait_sec == 0)
    then route_compare env condition_id asset size s
    else maker_route env condition_id asset size lots book.best_ask s

abbrev pub or_else : Bool × RouterState → (RouterState → Bool × RouterState) → Bool × RouterState
or_else r next = if r.0 then r else next r.1

-- The other side has been looked for.
unfoldable pub route_pair :
    Answers
    → Text
    → Text
    → ℕ
    → Frac
    → List Lot
    → Option (Text × ℕ)
    → RouterState
    → Bool × RouterState
route_pair env condition_id asset size cost lots none s =
    route_single env condition_id asset size cost lots s
route_pair env condition_id asset size cost lots (some (other, other_size)) s =
    or_else
      (pair_merge_route env condition_id asset other size other_size lots
        (env.cost_lots other other_size condition_id).1 s)
      (route_single env condition_id asset size cost lots)

-- The cost has been looked up.
unfoldable pub route_cost :
    Answers → Text → Text → ℕ → Option Frac → List Lot → RouterState → Bool × RouterState
route_cost env condition_id asset size none lots s = (false, s)
route_cost env condition_id asset size (some cost) lots s =
    let other =
      if env.template.merge_enabled then pair_for condition_id asset env.positions else none in
    if cost.num == 0 then (false, s) else route_pair env condition_id asset size cost lots other s

unfoldable pub route_idle :
    Answers → Text → Text → ℕ → Option Event → RouterState → Bool × RouterState
route_idle env condition_id asset size (some active) s = (true, s)
route_idle env condition_id asset size none s =
    let (cost, lots) = env.cost_lots asset size condition_id in
    route_cost env condition_id asset size cost lots s

-- `_route_position`: whether the position is handled, and the state.
unfoldable pub route_held : Answers → Holding → RouterState → Bool × RouterState
unfolding route_idle
route_held env p s =
    let is_off = (env.template.exit_maker_wait_sec == 0) && not env.template.merge_enabled in
    if (p.size == 0) || is_empty p.condition_id || is_off
    then (false, s)
    else route_idle env p.condition_id p.asset p.size
        (get_active_merge_event env.wallet p.condition_id s.table.rows) s

abbrev pub with_orders : List OpenOrder → RouterState → RouterState
with_orders orders s = if is_empty orders then s else record s { open_orders = orders }

-- `route_position`: the open orders of the tick are looked at again for each position.
-- The database does not raise here; in the code an exception anywhere gives `False`.
unfoldable pub route_position :
    Answers → List OpenOrder → Holding → RouterState → Bool × RouterState
unfolding route_held
route_position env orders p s = route_held env p (with_orders orders s)
