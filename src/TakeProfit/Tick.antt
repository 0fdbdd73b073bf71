-- ===== src/TakeProfit/Tick.antt =====
-- engine/take_profit.py: `ceil_to_tick` against the price that it rounds.
use polymarket_rewards.Base.{
  ℕ, ◌+◌, ◌*◌, ◌%◌, ◌≤◌, ◌<◌, ◌≡◌, refl, arith, ltb, ◌==◌, if◌then◌else◌, Bool-cases, inl, inr,
  tests,
}
use native.Mathlib.Nat.{mod-lt, div-add-mod', mul-mod_left}
use polymarket_rewards.Base.Frac.{Frac}
use polymarket_rewards.Base.Amount.{abs_diff, round_div}
use polymarket_rewards.TakeProfit.Defs.{ceil_div, tick_units, ceil_to_tick, whole}

-- `ceil` reaches the quotient and stays within one unit of it.
pub ceil_div_bounds : (n d : ℕ) → 0 < d → (n ≤ ceil_div n d * d) × (ceil_div n d * d < n + d)
unfolding ceil_div
ceil_div_bounds n d h = elim (Bool-cases ((n % d) == 0)) [
  | inl exact ↦ rw exact (grind (arith, div-add-mod' n d))
  | inr more ↦ rw more (grind (arith, div-add-mod' n d, mod-lt n h))
]

near_or_up_bounds :
    (n d m c : ℕ)
    → 0 < d
    → (n ≤ c * d) × (c * d < n + d)
    → let u = if ltb (10_000 * abs_diff n (m * d)) d then m else c in
      (10_000 * n < 10_000 * (u * d) + d) × (u * d < n + d)
near_or_up_bounds n d m c h k = elim (Bool-cases (ltb (10_000 * abs_diff n (m * d)) d)) [
  | inl near ↦ rw near (omega tests)
  | inr far ↦ rw far (omega arith)
]

-- The units never fall short by a ten-thousandth, and never exceed by a whole unit.
pub tick_units_bounds :
    (n d : ℕ)
    → 0 < d
    → (10_000 * n < 10_000 * (tick_units n d * d) + d) × (tick_units n d * d < n + d)
unfolding tick_units
tick_units_bounds n d h =
    near_or_up_bounds n d (round_div n d) (ceil_div n d) h (ceil_div_bounds n d h)

pub ceil_to_tick-eq :
    (price : Frac) (tick : ℕ)
    → 0 < tick
    → ceil_to_tick price tick ≡ whole (tick_units price.num (price.den * tick) * tick)
unfolding ceil_to_tick
ceil_to_tick-eq price tick k = ground arith

-- On a positive tick the price that is chosen is a whole number of ticks; it is below the cost by
-- less than a ten-thousandth of a tick, and above it by less than a tick.
pub ceil_to_tick_bounds :
    (price : Frac) (tick : ℕ)
    → 0 < price.den
    → 0 < tick
    → let p = ceil_to_tick price tick in
      (p.den ≡ 1)
      × (p.num % tick ≡ 0)
      × (10_000 * price.num < 10_000 * (p.num * price.den) + price.den * tick)
      × (p.num * price.den < price.num + price.den * tick)
ceil_to_tick_bounds price tick h k =
    let d : 0 < price.den * tick = grind arith in
    let b = tick_units_bounds price.num (price.den * tick) d in
    rw (ceil_to_tick-eq price tick k)
      (refl, mul-mod_left (tick_units price.num (price.den * tick)) tick, grind arith, grind arith)
