-- ===== src/TakeProfit/Defs.antt =====
-- engine/take_profit.py: `ceil_to_tick`, `plan_take_profit`, `effective_theta_stop`,
-- `market_fill_price`, `plan_exit`. Prices are millionths of a dollar; a cost is a fraction of them.
use polymarket_rewards.Base.{
  ℕ, ◌+◌, ◌*◌, ◌/◌, ◌%◌, Bool, true, false, ◌&&◌, ◌||◌, Option, none, some, List, [], ◌∷◌, map, max,
  ltb, leb, ◌==◌, if◌then◌else◌, or_zero,
}
use polymarket_rewards.Base.Frac.{Frac, leb_frac, ltb_frac, add_frac}
use polymarket_rewards.Base.Int.{ℤ, pos, pos_part, neg_part, sub_ℕ, ◌+ℤ◌}
use polymarket_rewards.Base.Text.{Text, codes, text_eq}
use polymarket_rewards.Base.Amount.{abs_diff, round_div}

abbrev pub whole : ℕ → Frac
whole n = record { num = n; den = 1 }

-- `math.ceil(n / d)`
unfoldable pub ceil_div : ℕ → ℕ → ℕ
ceil_div n d = if (n % d) == 0 then n / d else n / d + 1

-- The number of ticks, for `units` = n / d.
unfoldable pub tick_units : ℕ → ℕ → ℕ
unfolding round_div ceil_div
tick_units n d =
    if ltb (10_000 * abs_diff n (round_div n d * d)) d then round_div n d else ceil_div n d

unfoldable pub ceil_to_tick : Frac → ℕ → Frac
unfolding tick_units
ceil_to_tick price tick =
    if tick == 0 then price else whole (tick_units price.num (price.den * tick) * tick)

-- A resting sell order of ours.
pub record SellOrder : Type 0 where
  pub id : Option Text
  pub price : Option ℕ
  pub original_size : Option ℕ
  pub size_matched : Option ℕ

unfoldable pub remaining_of : SellOrder → ℤ
remaining_of o = sub_ℕ (or_zero o.original_size) (or_zero o.size_matched)

-- `abs(a - b) < tick / 2`
abbrev pub price_matches : ℕ → Frac → ℕ → Bool
price_matches a b tick = ltb (2 * abs_diff (a * b.den) b.num) (tick * b.den)

-- `abs(a - b) <= max(1.0, 0.01 * b)`
abbrev pub size_matches : ℤ → ℕ → Bool
size_matches a b = leb (100 * abs_diff (pos_part a) (b + neg_part a)) (max 100_000_000 b)

pub data SellPlan : Type 0 where
  noop : SellPlan
  keep_one : (price : Frac) (size : ℕ) → SellPlan
  replace : (price : Frac) (size : ℕ) (cancel_ids : List (Option Text)) → SellPlan

unfoldable pub sum_remaining : List SellOrder → ℤ
unfolding remaining_of ◌+ℤ◌
sum_remaining [] = pos 0
sum_remaining (o ∷ os) = remaining_of o +ℤ sum_remaining os

-- `len(existing_sells) == 1 and ...`
unfoldable pub is_in_place : List SellOrder → Frac → ℕ → ℕ → Bool
unfolding sum_remaining
is_in_place [] want tick size = false
is_in_place (o ∷ []) want tick size =
    price_matches (or_zero o.price) want tick && size_matches (sum_remaining (o ∷ [])) size
is_in_place (o ∷ o' ∷ os) want tick size = false

unfoldable pub plan_take_profit : ℕ → Option Frac → ℕ → List SellOrder → SellPlan
plan_take_profit size none tick existing_sells = noop
plan_take_profit size (some want) tick existing_sells =
    if (size == 0) || ((want.num == 0) || (tick == 0))
    then noop
    else if is_in_place existing_sells want tick size
    then keep_one want size
    else replace want size (map (λ o. o.id) existing_sells)

-- `max(0.0, float(cents) / 100.0)`; the settings are signed millionths, `none` is no number.
abbrev pub fixed_theta : ℤ → Frac
fixed_theta cents = record { num = pos_part cents; den = 100 }

-- The handler of the outer `except`.
abbrev pub fallback_theta : Option ℤ → Frac
fallback_theta none = whole 50_000
fallback_theta (some cents) = fixed_theta cents

abbrev pub percent_theta : Option Frac → Option ℤ → Option ℤ → Frac
percent_theta (some cost) (some percent) cents = record {
  num = cost.num * pos_part percent;
  den = cost.den * 100_000_000;
}
percent_theta none percent cents = fallback_theta cents
percent_theta (some cost) none cents = fallback_theta cents

unfoldable pub effective_theta_stop : Option Frac → Text → Option ℤ → Option ℤ → Option Frac
effective_theta_stop cost mode percent cents =
    if text_eq mode (codes "off")
    then none
    else if text_eq mode (codes "fixed")
    then some (fallback_theta cents)
    else some (percent_theta cost percent cents)

-- The fields of the answer to a market order; `none` is missing or no number.
pub record Receipt : Type 0 where
  pub making_amount : Option ℕ
  pub taking_amount : Option ℕ

abbrev pub book_price : Option ℕ → Frac → Frac
book_price none cur = cur
book_price (some bid) cur = if bid == 0 then cur else whole bid

unfoldable pub market_fill_price : Option Receipt → Option ℕ → Frac → Frac
market_fill_price none best_bid cur = book_price best_bid cur
market_fill_price (some resp) best_bid cur =
    let making = or_zero resp.making_amount in
    let taking = or_zero resp.taking_amount in
    if ltb 0 making && (ltb 0 taking && leb taking making)
    then record { num = taking * 1_000_000; den = making }
    else book_price best_bid cur

pub data Tier : Type 0 where
  a_market a b0 b_park no_book : Tier

pub data ExitAction : Type 0 where
  rest market noop : ExitAction

pub record ExitPlan : Type 0 where
  pub tier : Tier
  pub action : ExitAction
  pub price : Option Frac
  pub size : ℕ

abbrev pub market_plan : Tier → ℕ → ExitPlan
market_plan t size = record { tier = t; action = ExitAction.market; price = none; size = size }

abbrev pub rest_plan : Tier → Frac → ℕ → ExitPlan
rest_plan t p size = record { tier = t; action = ExitAction.rest; price = some p; size = size }

-- `best_bid is None and (best_ask is None or best_ask <= 0)`
abbrev pub is_dead_book : Option ℕ → Option ℕ → Bool
is_dead_book none none = true
is_dead_book none (some ask) = ask == 0
is_dead_book (some bid) best_ask = false

-- `theta_stop is not None and best_bid is not None and (cost - best_bid) >= theta_stop`
abbrev pub is_stopped : Frac → Option ℕ → Option Frac → Bool
is_stopped cost none theta_stop = false
is_stopped cost (some bid) none = false
is_stopped cost (some bid) (some theta) = leb_frac (add_frac (whole bid) theta) cost

-- What both modes end with: the stop, the dead book, or parking at the cost.
unfoldable pub plan_loss : Frac → Option ℕ → Option ℕ → ℕ → Option Frac → ℕ → ExitPlan
plan_loss cost best_bid best_ask tick theta_stop size =
    if is_stopped cost best_bid theta_stop
    then market_plan b0 size
    else if is_dead_book best_bid best_ask
    then record { tier = no_book; action = ExitAction.noop; price = none; size = 0 }
    else rest_plan b_park (ceil_to_tick cost tick) size

-- `max(best_ask, cost_floor)`, or the floor where there is no ask.
unfoldable pub ask_or_floor : Option ℕ → Frac → Frac
ask_or_floor none cost_floor = cost_floor
ask_or_floor (some ask) cost_floor =
    if ask == 0
    then cost_floor
    else if ltb_frac (whole ask) cost_floor
    then cost_floor
    else whole ask

-- `best_bid is not None and cost < best_bid`, and the same with `<=`.
abbrev pub is_above : Option ℕ → Frac → Bool
is_above none cost = false
is_above (some bid) cost = ltb_frac cost (whole bid)

abbrev pub is_at_or_above : Option ℕ → Frac → Bool
is_at_or_above none cost = false
is_at_or_above (some bid) cost = leb_frac cost (whole bid)

-- `is_market` is `take_profit_mode == "market"`.
unfoldable pub plan_exit :
    Frac → Option ℕ → Option ℕ → ℕ → Option Frac → ℕ → (is_market : Bool) → ExitPlan
unfolding plan_loss ask_or_floor
plan_exit cost best_bid best_ask tick theta_stop size true =
    if is_above best_bid cost
    then market_plan a_market size
    else plan_loss cost best_bid best_ask tick theta_stop size
plan_exit cost best_bid best_ask tick theta_stop size false =
    if is_at_or_above best_bid cost
    then rest_plan a (ask_or_floor best_ask (ceil_to_tick cost tick)) size
    else plan_loss cost best_bid best_ask tick theta_stop size
