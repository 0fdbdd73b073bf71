-- ===== src/TakeProfit/Stop.antt =====
-- engine/take_profit.py: the stop threshold and the sale at a loss that it allows.
use polymarket_rewards.Base.{
  ℕ, ◌+◌, ◌*◌, ◌≤◌, ◌<◌, ◌≡◌, ◌≢◌, ◌↔◌, refl, inl, inr, Bool, true, false, Option, none, some,
  arith, leb, leb→le, le→leb, Bool-cases,
}
use native.Mathlib.Nat.{le_of_mul-le-mul_right, mul-le-mul_right}
use polymarket_rewards.Base.Frac.{Frac}
use polymarket_rewards.Base.Int.{ℤ, pos_part}
use polymarket_rewards.Base.Text.{codes}
use polymarket_rewards.TakeProfit.Defs.{
  ExitAction, is_stopped, is_above, is_at_or_above, market_plan, plan_loss, plan_exit, b0,
  effective_theta_stop,
}

-- `cost - bid >= cost * percent / 100`, multiplied out.
abbrev pub LossReaches : Frac → ℕ → ℕ → Type 0
LossReaches cost bid percent =
    bid * cost.den * 100_000_000 + cost.num * percent ≤ cost.num * 100_000_000

times_den :
    (cn cd bid p : ℕ)
    → ((bid * (cd * 100_000_000) + cn * p * 1) * cd ≡ (bid * cd * 100_000_000 + cn * p) * cd)
      × (cn * (1 * (cd * 100_000_000)) ≡ cn * 100_000_000 * cd)
times_den cn cd bid p = (omega arith, omega arith)

scaled_stop :
    (cn cd bid p : ℕ)
    → 0 < cd
    → (leb ((bid * (cd * 100_000_000) + cn * p * 1) * cd) (cn * (1 * (cd * 100_000_000))) ≡ true)
      ↔ (bid * cd * 100_000_000 + cn * p ≤ cn * 100_000_000)
scaled_stop cn cd bid p h =
    let e = times_den cn cd bid p in
    rw (e.0, e.1)
      (
        λ reached. le_of_mul-le-mul_right (leb→le _ _ reached) h,
        λ reached. le→leb _ _ (mul-le-mul_right cd reached),
      )

percent_stop :
    (cost : Frac) (bid : ℕ) (percent : ℤ) (cents : Option ℤ)
    → 0 < cost.den
    → (is_stopped cost
          (some bid)
          (effective_theta_stop (some cost) (codes "percent") (some percent) cents)
        ≡ true)
      ↔ LossReaches cost bid (pos_part percent)
unfolding effective_theta_stop
percent_stop cost bid percent cents h = scaled_stop cost.num cost.den bid (pos_part percent) h

-- The position is dumped exactly when the stop is hit, and then the whole of it is.
plan_loss_dump :
    (cost : Frac) (bid : ℕ) (best_ask : Option ℕ) (tick : ℕ) (theta : Option Frac) (size : ℕ)
    → (((plan_loss cost (some bid) best_ask tick theta size).action ≡ ExitAction.market)
        ↔ (is_stopped cost (some bid) theta ≡ true))
      × (is_stopped cost (some bid) theta ≡ true
          → plan_loss cost (some bid) best_ask tick theta size ≡ market_plan b0 size)
unfolding plan_loss
plan_loss_dump cost bid best_ask tick theta size =
    elim (Bool-cases (is_stopped cost (some bid) theta)) [
      | inl hit ↦ rw hit ((λ _. refl, λ _. refl), λ _. refl)
      | inr miss ↦ rw miss ((λ e. cc, λ e. cc), λ e. cc)
    ]

-- Below the cost, the tier is decided by the stop, in both modes.
plan_exit_tier :
    (cost : Frac) (bid : ℕ) (best_ask : Option ℕ) (tick : ℕ) (theta : Option Frac) (size : ℕ)
    (is_market : Bool)
    → bid * cost.den < cost.num
    → plan_exit cost (some bid) best_ask tick theta size is_market
      ≡ plan_loss cost (some bid) best_ask tick theta size
unfolding plan_exit
plan_exit_tier cost bid best_ask tick theta size true h =
    let e : is_above (some bid) cost ≡ false = ground arith in rw e
plan_exit_tier cost bid best_ask tick theta size false h =
    let e : is_at_or_above (some bid) cost ≡ false = ground arith in rw e

-- With the stop in per cent and the bid below the cost, in both modes: the plan sells at the market
-- exactly when the loss per share has reached that percentage of the cost, and it is then the stop's
-- sale of the whole position.
pub plan_exit_stop :
    (cost : Frac) (bid : ℕ) (best_ask : Option ℕ) (tick : ℕ) (percent : ℤ) (cents : Option ℤ)
    (size : ℕ) (is_market : Bool)
    → 0 < cost.den
    → bid * cost.den < cost.num
    → let plan =
        plan_exit cost
          (some bid)
          best_ask
          tick
          (effective_theta_stop (some cost) (codes "percent") (some percent) cents)
          size
          is_market in
      ((plan.action ≡ ExitAction.market) ↔ LossReaches cost bid (pos_part percent))
      × (LossReaches cost bid (pos_part percent) → plan ≡ market_plan b0 size)
plan_exit_stop cost bid best_ask tick percent cents size is_market h k =
    let theta = effective_theta_stop (some cost) (codes "percent") (some percent) cents in
    let (t, whole) = plan_loss_dump cost bid best_ask tick theta size in
    let s = percent_stop cost bid percent cents h in
    rw (plan_exit_tier cost bid best_ask tick theta size is_market k)
      ((λ e. s.0 (t.0 e), λ r. t.1 (s.1 r)), λ r. whole (s.1 r))

-- With a stop percentage of zero or less, in both modes, every position whose bid is below its
-- cost is dumped at the market, however small the loss.
pub plan_exit_zero_stop :
    (cost : Frac) (bid : ℕ) (best_ask : Option ℕ) (tick : ℕ) (percent : ℤ) (cents : Option ℤ)
    (size : ℕ) (is_market : Bool)
    → 0 < cost.den
    → bid * cost.den < cost.num
    → pos_part percent ≡ 0
    → plan_exit cost
        (some bid)
        best_ask
        tick
        (effective_theta_stop (some cost) (codes "percent") (some percent) cents)
        size
        is_market
      ≡ market_plan b0 size
plan_exit_zero_stop cost bid best_ask tick percent cents size is_market h k z =
    (plan_exit_stop cost bid best_ask tick percent cents size is_market h k).1 (rw z (omega arith))

-- With the stop off, no position is dumped at a loss.
pub plan_exit_off :
    (cost : Frac) (best_bid best_ask : Option ℕ) (tick : ℕ) (percent cents : Option ℤ) (size : ℕ)
    (is_market : Bool)
    → (plan_exit cost best_bid best_ask tick
        (effective_theta_stop (some cost) (codes "off") percent cents)
        size
        is_market).tier
      ≢ b0
unfolding plan_exit effective_theta_stop
plan_exit_off cost none best_ask tick percent cents size true = ground arith
plan_exit_off cost none best_ask tick percent cents size false = ground arith
plan_exit_off cost (some bid) best_ask tick percent cents size true = ground arith
plan_exit_off cost (some bid) best_ask tick percent cents size false = ground arith
