-- ===== src/TakeProfit/Resting.antt =====
-- engine/take_profit.py: `plan_take_profit` brings the sells of a position to one order and stays.
use polymarket_rewards.Base.{
  ℕ, ◌*◌, ◌<◌, ◌≡◌, refl, true, false, Option, none, some, arith, tests, List, [], ◌∷◌, map,
  &&-true, or_zero,
}
use polymarket_rewards.Base.Frac.{Frac}
use polymarket_rewards.Base.Int.{ℤ, pos, ◌+ℤ◌}
use polymarket_rewards.Base.Text.{Text}
use polymarket_rewards.Base.Amount.{abs_diff}
use polymarket_rewards.TakeProfit.Defs.{
  whole, SellOrder, remaining_of, price_matches, size_matches, keep_one, replace, sum_remaining,
  is_in_place, plan_take_profit,
}

-- The order that carries out a plan to sell `size` at `price`.
abbrev pub placed : Option Text → ℕ → ℕ → SellOrder
placed id price size = record {
  id = id;
  price = some price;
  original_size = some size;
  size_matched = none;
}

placed-is_in_place :
    (id : Option Text) (price size tick : ℕ)
    → 0 < tick
    → is_in_place (placed id price size ∷ []) (whole price) tick size ≡ true
unfolding is_in_place
placed-is_in_place id price size tick h = ground arith

-- A position of a positive size with a whole positive price and a positive tick is settled in one
-- round: where the one order in place does not stand, every sell is cancelled and one is placed,
-- and with that order the next round keeps it.
pub plan_take_profit_settles :
    (size price tick : ℕ) (sells : List SellOrder) (id : Option Text)
    → 0 < size
    → 0 < price
    → 0 < tick
    → ((is_in_place sells (whole price) tick size ≡ false)
        → plan_take_profit size (some (whole price)) tick sells
          ≡ replace (whole price) size (map (λ o. o.id) sells))
      × (plan_take_profit size (some (whole price)) tick (placed id price size ∷ [])
          ≡ keep_one (whole price) size)
unfolding plan_take_profit
plan_take_profit_settles size price tick sells id h k l =
    let stays = placed-is_in_place id price size tick l in (λ other. ground arith, ground arith)

keep_one-is_in_place :
    (size tick : ℕ) (want : Frac) (sells : List SellOrder)
    → plan_take_profit size (some want) tick sells ≡ keep_one want size
    → is_in_place sells want tick size ≡ true
unfolding plan_take_profit
keep_one-is_in_place size tick want sells e = ground arith

add-zero_ℤ : (a : ℤ) → a +ℤ pos 0 ≡ a
unfolding ◌+ℤ◌
add-zero_ℤ a = ground arith

sum_remaining_one : (o : SellOrder) → sum_remaining (o ∷ []) ≡ remaining_of o
unfolding sum_remaining
sum_remaining_one o = add-zero_ℤ (remaining_of o)

one_in_place :
    (size tick : ℕ) (want : Frac) (o : SellOrder)
    → is_in_place (o ∷ []) want tick size ≡ true
    → (price_matches (or_zero o.price) want tick ≡ true)
      × (size_matches (remaining_of o) size ≡ true)
unfolding is_in_place
one_in_place size tick want o e =
    let b =
      &&-true (price_matches (or_zero o.price) want tick)
        (size_matches (sum_remaining (o ∷ [])) size) e in
    (b.0, rw (sum_remaining_one o) at b.1)

-- An order is kept only where it is the one sell, its price is within half a tick of the wanted
-- one, and its unfilled amount is within one share or one per cent of the position.
pub keep_one_sound :
    (size tick : ℕ) (want : Frac) (sells : List SellOrder)
    → plan_take_profit size (some want) tick sells ≡ keep_one want size
    → (o : SellOrder) × (sells ≡ o ∷ [])
      × (2 * abs_diff (or_zero o.price * want.den) want.num < tick * want.den)
      × (size_matches (remaining_of o) size ≡ true)
keep_one_sound size tick want [] e =
    absurd (unfold is_in_place in cc (keep_one-is_in_place size tick want [] e))
keep_one_sound size tick want (o ∷ []) e =
    let b = one_in_place size tick want o (keep_one-is_in_place size tick want (o ∷ []) e) in
    (o, refl, omega (tests, b.0), b.1)
keep_one_sound size tick want (o ∷ o' ∷ os) e =
    absurd (unfold is_in_place in cc (keep_one-is_in_place size tick want (o ∷ o' ∷ os) e))
