-- ===== src/Ledger/Pnl.antt =====
-- engine/pnl.py: profits, fees, rewards and rebates by day. A fee is `bps * price * size`, so it
-- counts ten-thousandths of the unit of a profit.
use polymarket_rewards.Base.{
  ℕ, ◌+◌, ◌-◌, ◌*◌, Bool, ◌&&◌, ◌||◌, not, Option, none, some, List, [], ◌∷◌, ◌++◌, min, ◌==◌,
  if◌then◌else◌, keep, is_empty, or_zero, map,
}
use polymarket_rewards.Base.Sort.{sort_by}
use polymarket_rewards.Base.Text.{Text, codes, text_eq, or_blank, upper}
use polymarket_rewards.Base.Int.{ℤ, pos, negsuc, ◌+ℤ◌, diff_times}
use polymarket_rewards.Cost.{Fill, Lot, is_buy, is_sell, lot_of, fill_le}
use polymarket_rewards.Fills.{Trade, fold_funder, is_ours, side_is, we_are_maker}
use polymarket_rewards.Ledger.Defs.{add_at, beijing_day}

unfoldable pub fee_from_fill : Fill → ℕ
fee_from_fill f = if f.fee_rate_bps == 0 then 0 else f.fee_rate_bps * (f.price * f.size)

pub record DayPnl : Type 0 where
  pub sell_profit : ℕ
  pub loss : ℕ
  pub fee : ℕ

abbrev pub zero_day : DayPnl
zero_day = record { sell_profit = 0; loss = 0; fee = 0 }

abbrev pub Days : Type 0
Days = List (ℕ × DayPnl)

-- The loop over the lots of a sale, with `realized` so far: what it has realized, and the lots left.
unfoldable pub sell_loop : ℕ → ℕ → ℤ → List Lot → ℤ × List Lot
sell_loop price qty realized [] = (realized, [])
sell_loop price qty realized (lot ∷ lots) =
    let used = min lot.remaining qty in
    let earned = realized +ℤ diff_times price lot.price used in
    let next = sell_loop price (qty - used) earned lots in
    if qty == 0
    then (realized, lot ∷ lots)
    else if (lot.remaining - used) == 0
    then next
    else (earned, record lot { remaining = lot.remaining - used } ∷ lots)

unfoldable pub add_fee : Days → Fill → Days
add_fee out f =
    let fee = fee_from_fill f in
    if fee == 0
    then out
    else add_at zero_day (λ d. record d { fee = d.fee + fee }) (beijing_day f.ts) out

unfoldable pub add_realized : ℕ → ℤ → Days → Days
add_realized day (pos n) out =
    add_at zero_day (λ d. record d { sell_profit = d.sell_profit + n }) day out
add_realized day (negsuc n) out =
    add_at zero_day (λ d. record d { loss = d.loss + (n + 1) }) day out

unfoldable pub sell_fill : Days → List Lot → Fill → Days × List Lot
sell_fill out [] f = (out, [])
sell_fill out (lot ∷ lots) f =
    let (realized, left) = sell_loop f.price f.size (pos 0) (lot ∷ lots) in
    (add_realized (beijing_day f.ts) realized out, left)

-- The body of `for f in ordered`.
unfoldable pub pnl_fill : Days × List Lot → Fill → Days × List Lot
pnl_fill (out, lots) f =
    let out_with_fee = add_fee out f in
    if f.size == 0
    then (out_with_fee, lots)
    else if is_buy f
    then (out_with_fee, lots ++ lot_of f ∷ [])
    else if is_sell f
    then sell_fill out_with_fee lots f
    else (out_with_fee, lots)

unfoldable pub pnl_fills : Days × List Lot → List Fill → Days × List Lot
pnl_fills state [] = state
pnl_fills state (f ∷ fs) = pnl_fills (pnl_fill state f) fs

abbrev pub is_busy : ℕ × DayPnl → Bool
is_busy e = not (e.1.sell_profit == 0) || (not (e.1.loss == 0) || not (e.1.fee == 0))

unfoldable pub realized_pnl_by_day : List Fill → Days
realized_pnl_by_day fills = keep is_busy (pnl_fills ([], []) (sort_by fill_le fills)).0

-- An entry of `/activity`; a missing amount or time reads as zero.
pub record Activity : Type 0 where
  pub kind : Text
  pub usdc_size : ℕ
  pub timestamp : ℕ

pub record DayIncome : Type 0 where
  pub reward : Option ℕ
  pub rebate : Option ℕ

abbrev pub no_income : DayIncome
no_income = record { reward = none; rebate = none }

-- The loop of `reward_rebate_by_day`. The day before day 0 is day 0: times lie after 1970.
unfoldable pub income_into : List (ℕ × DayIncome) → List Activity → List (ℕ × DayIncome)
income_into out [] = out
income_into out (a ∷ activity) =
    income_into
      (if text_eq (upper a.kind) (codes "REWARD")
        then add_at no_income (λ d. record d { reward = some (or_zero d.reward + a.usdc_size) })
            (beijing_day a.timestamp - 1) out
        else if text_eq (upper a.kind) (codes "MAKER_REBATE")
        then add_at no_income (λ d. record d { rebate = some (or_zero d.rebate + a.usdc_size) })
            (beijing_day a.timestamp) out
        else out)
      activity

unfoldable pub reward_rebate_by_day : List Activity → List (ℕ × DayIncome)
reward_rebate_by_day activity = income_into [] activity

-- The loop of `our_traded_assets`, then `discard("")`; a set is a list that may repeat.
unfoldable pub assets_of_trade : Text → Trade → List Text
assets_of_trade f tr =
    map (λ mo. or_blank mo.asset_id) (keep (is_ours f) tr.maker_orders)
    ++ (if not (we_are_maker f tr) && side_is (codes "TAKER") tr.trader_side
        then or_blank tr.asset_id ∷ []
        else [])

unfoldable pub collect_assets : Text → List Trade → List Text
collect_assets f [] = []
collect_assets f (tr ∷ trades) = assets_of_trade f tr ++ collect_assets f trades

unfoldable pub our_traded_assets : List Trade → Option Text → List Text
our_traded_assets trades funder =
    keep (λ a. not (is_empty a)) (collect_assets (fold_funder funder) trades)
