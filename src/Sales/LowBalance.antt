-- ===== src/Sales/LowBalance.antt =====
-- engine/monitor.py: `check_low_balance`. The estimate counts millionths of a millionth of a dollar.
use polymarket_rewards.Base.{
  ℕ, ◌+◌, ◌*◌, ◌/◌, Bool, true, false, Option, none, some, List, [], ◌∷◌, ◌++◌, map, ltb, leb, ◌==◌,
  if◌then◌else◌,
}
use polymarket_rewards.Base.Frac.{Frac}
use polymarket_rewards.Base.Int.{ℤ, sub_ℕ}
use polymarket_rewards.Base.Text.{Text, text_eq}
use polymarket_rewards.Liquidation.{Candidate, plan_liquidation}
use polymarket_rewards.Place.{Position}
use polymarket_rewards.Sales.World.{ListedOrder, Desk, Sales, cost_lots, sell_book}
use polymarket_rewards.Sales.Dump.{market_dump}

-- `is_next_order` is `liquidate_target_mode == "next_order"`.
pub record LowSettings : Type 0 where
  pub low_balance_threshold : ℕ
  pub low_reward_threshold : ℕ
  pub small_position_shares : ℕ
  pub is_next_order : Bool
  pub liquidate_target : ℕ

-- What the exchange, the database and the clock answer; `later` is the time at the end.
pub record LowSources : Type 0 where
  pub desk : Desk
  pub settings : LowSettings
  pub now : ℕ
  pub later : ℕ
  pub get_balance : Option ℕ
  pub min_order_cost : Option ℕ
  pub positions : Option (List Position)
  pub open_orders : Option (List ListedOrder)
  pub daily_reward : Text → Option ℕ

-- `just_dumped` is `_just_dumped`, and `cooldown_until` is `_liquidate_cooldown_until`.
pub record LowState : Type 0 where
  pub sales : Sales
  pub just_dumped : List Text
  pub cooldown_until : ℕ

-- An entry of `meta`.
pub record Meta : Type 0 where
  pub position : Position
  pub best_bid : Option ℕ
  pub cost : Frac

-- `x or n`
abbrev pub or_default : ℕ → ℕ → ℕ
or_default n x = if x == 0 then n else x

abbrev pub next_order_cost : ℕ → Option ℕ → ℕ
next_order_cost threshold none = threshold
next_order_cost threshold (some moc) = or_default threshold moc

unfoldable pub target_of : LowSettings → Option ℕ → ℕ
target_of t moc =
    if t.is_next_order
    then next_order_cost t.low_balance_threshold moc
    else or_default 4_000_000 t.liquidate_target

abbrev pub meta_with : Desk → Position → Option Frac → List Meta
meta_with d pos none = []
meta_with d pos (some cost) =
    record { position = pos; best_bid = (sell_book d pos.asset).best_bid; cost = cost } ∷ []

-- The positions that have a size and a known cost.
unfoldable pub metas_of : Desk → List Position → List Meta
unfolding cost_lots sell_book
metas_of d [] = []
metas_of d (pos ∷ positions) =
    let rest = metas_of d positions in
    if pos.size == 0
    then rest
    else meta_with d pos (cost_lots d pos.asset pos.size pos.condition_id).0 ++ rest

-- (cost - bid) * size, where the cost of the whole position is rounded down.
abbrev pub loss_of : Meta → Option ℕ → Option ℤ
loss_of m none = none
loss_of m (some bid) =
    some (sub_ℕ (m.cost.num * m.position.size / m.cost.den) (bid * m.position.size))

abbrev pub candidate_of : LowSources → Meta → Candidate
candidate_of x m = record {
  asset_id = m.position.asset;
  size = m.position.size;
  daily_reward = x.daily_reward m.position.condition_id;
  loss = loss_of m m.best_bid;
}

-- A later entry of a token replaces an earlier one.
unfoldable pub meta_at : Text → List Meta → Option Meta
meta_at asset [] = none
meta_at asset (m ∷ metas) =
    let later = meta_at asset metas in
    elim later [ some n ↦ some n | none ↦ if text_eq m.position.asset asset then some m else none ]

-- The tokens in the order in which they are to be sold.
unfoldable pub sale_order : LowSources → List Meta → List Text
unfolding plan_liquidation
sale_order x metas =
    plan_liquidation (map (candidate_of x) metas)
      (or_default 30_000_000 x.settings.low_reward_threshold)
      (or_default 20_000_000 x.settings.small_position_shares)

-- The running values of the loop.
pub record Run : Type 0 where
  pub sales : Sales
  pub just_dumped : List Text
  pub est : ℕ
  pub dumped_any : Bool

abbrev pub after_sale : Text → ℕ → Option Frac × Sales → Run → Run
after_sale asset proceeds (none, sales) r = record r { sales = sales }
after_sale asset proceeds (some fill, sales) r = record {
  sales = sales;
  just_dumped = r.just_dumped ++ asset ∷ [];
  est = r.est + proceeds;
  dumped_any = true;
}

abbrev pub sell_at : Desk → List ListedOrder → Text → Meta → Option ℕ → Run → Run
sell_at d orders asset m none r = r
sell_at d orders asset m (some bid) r =
    if bid == 0
    then r
    else after_sale asset (bid * m.position.size)
        (market_dump d orders m.position bid (some m.cost) r.sales) r

abbrev pub sell_found : Desk → List ListedOrder → Text → Option Meta → Run → Run
sell_found d orders asset none r = r
sell_found d orders asset (some m) r = sell_at d orders asset m m.best_bid r

-- The loop, which stops where the estimate has reached the target.
unfoldable pub sell_until : Desk → List ListedOrder → List Meta → ℕ → List Text → Run → Run
unfolding market_dump meta_at
sell_until d orders metas target [] r = r
sell_until d orders metas target (asset ∷ assets) r =
    let next =
      sell_until d orders metas target assets (sell_found d orders asset (meta_at asset metas) r) in
    if leb target r.est then r else next

abbrev pub first_run : ℕ → LowState → Run
first_run balance s = record {
  sales = s.sales;
  just_dumped = s.just_dumped;
  est = balance * 1_000_000;
  dumped_any = false;
}

-- `LIQUIDATE_COOLDOWN_SEC`
abbrev pub cooldown_sec : ℕ
cooldown_sec = 60

unfoldable pub liquidate :
    LowSources → ℕ → ℕ → List Position → List ListedOrder → LowState → LowState
unfolding sell_until metas_of sale_order
liquidate x balance target positions orders s =
    let metas = metas_of x.desk positions in
    let r =
      sell_until x.desk orders metas (target * 1_000_000) (sale_order x metas)
        (first_run balance s) in
    record {
      sales = r.sales;
      just_dumped = r.just_dumped;
      cooldown_until = if r.dumped_any then x.later + cooldown_sec else s.cooldown_until;
    }

abbrev pub with_book :
    LowSources → ℕ → ℕ → Option (List Position) → Option (List ListedOrder) → LowState → LowState
with_book x balance target none orders s = s
with_book x balance target (some positions) none s = s
with_book x balance target (some positions) (some orders) s =
    liquidate x balance target positions orders s

-- The balance has been read.
abbrev pub with_balance : LowSources → Option ℕ → LowState → LowState
with_balance x none s = s
with_balance x (some balance) s =
    let target = target_of x.settings x.min_order_cost in
    if leb x.settings.low_balance_threshold balance
    then s
    else if leb target balance
    then s
    else with_book x balance target x.positions x.open_orders s

unfoldable pub check_low_balance : LowSources → LowState → LowState
unfolding liquidate target_of
check_low_balance x s =
    if x.settings.low_balance_threshold == 0
    then s
    else if ltb x.now s.cooldown_until
    then s
    else with_balance x x.get_balance s
