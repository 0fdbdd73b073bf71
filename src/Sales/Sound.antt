-- ===== src/Sales/Sound.antt =====
-- engine/monitor.py: `_exit_position` asks the router, and what it sells by itself is the whole position, not
-- below its cost but for the stop or in resolution.
use polymarket_rewards.Base.{
  ℕ, ◌<◌, ◌≡◌, ◌⊎◌, Bool, true, false, ◌||◌, Option, some, List, ◌==◌, if◌then◌else◌,
}
use polymarket_rewards.Base.Frac.{Frac}
use polymarket_rewards.Base.Text.{Text}
use polymarket_rewards.TakeProfit.{effective_theta_stop}
use polymarket_rewards.TakeProfit.Safety.{CoversCost, MaySellAt}
use polymarket_rewards.Place.{Position}
use polymarket_rewards.Sales.{
  ListedOrder, ExitSettings, Desk, Sales, own_sells, sell_ids_of, cost_lots, ask_router, SellSide,
  sell_book,
}
use polymarket_rewards.Sales.Sends.{Sends}

-- A price covers the cost, which is known.
abbrev pub IsPrice : Option Frac → ℕ → Frac → Type 0
IsPrice cost tick p = (c : Frac) × (cost ≡ some c) × CoversCost c tick p

-- There is a bid, and the market is in resolution, or the bid is above the cost or at the stop.
abbrev pub MaySell : ExitSettings → Option Frac → Option ℕ → (in_resolution_market : Bool) → Type 0
MaySell t cost best_bid in_resolution_market =
    (bid : ℕ) × (best_bid ≡ some bid)
    × (((in_resolution_market ≡ true) × (0 < bid))
        ⊎ ((c : Frac) × (cost ≡ some c)
            × MaySellAt c (effective_theta_stop (some c) t.stop_mode t.stop_percent t.stop_cents)
                bid))

module _ (d : Desk) (t : ExitSettings) (orders : List ListedOrder) (pos : Position)
    (s : Sales) where
  abbrev ids : List (Option Text)
  ids = sell_ids_of (own_sells pos.asset orders s)

  abbrev Done : Option Frac → SellSide → Bool → Sales → Type 0
  Done cost book resolving after =
      Sends pos ids (IsPrice cost book.tick) (MaySell t cost book.best_bid resolving) s after

-- Whether the router has handled the position, and the state it leaves; it is asked for a position with a
-- size on a market that is not in resolution.
abbrev pub routed_first : Desk → List ListedOrder → Bool → Position → Sales → Bool × Sales
routed_first d orders in_resolution_market pos s =
    let asked = ask_router d.exit_router orders pos s.router in
    if (pos.size == 0) || in_resolution_market
    then (false, s)
    else (asked.0, record s { router = asked.1 })

abbrev pub Exits :
    Desk → ExitSettings → List ListedOrder → Bool → Position → Bool × Sales → Sales → Type 0
Exits d t orders in_resolution_market pos (handled, begun) after =
    let cost = (cost_lots d pos.asset pos.size pos.condition_id).0 in
    let book = sell_book d pos.asset in
    Sends pos (sell_ids_of (own_sells pos.asset orders begun)) (IsPrice cost book.tick)
      (MaySell t cost book.best_bid in_resolution_market) begun after
    × (handled ≡ true → after ≡ begun)
