-- ===== src/TakeProfit/Safety.antt =====
-- engine/take_profit.py: `plan_exit` never sells below the cost, but for the stop.
use polymarket_rewards.Base.{
  ℕ, ◌+◌, ◌*◌, ◌≤◌, ◌<◌, ◌≡◌, refl, ap, ◌⊎◌, inl, inr, Bool, true, false, Option, none, some, arith,
  ◌==◌, tests, Bool-cases, ==_iff,
}
use polymarket_rewards.Base.Frac.{Frac, ltb_frac}
use polymarket_rewards.TakeProfit.Defs.{
  ceil_to_tick, whole, ExitPlan, ExitAction, is_stopped, is_above, is_at_or_above, plan_loss,
  ask_or_floor, plan_exit,
}
use polymarket_rewards.TakeProfit.Tick.{ceil_to_tick_bounds}

-- A resting price is whole, and below the cost by less than a ten-thousandth of a tick.
abbrev pub CoversCost : Frac → ℕ → Frac → Type 0
CoversCost cost tick p =
    (p.den ≡ 1) × (10_000 * cost.num < 10_000 * (p.num * cost.den) + cost.den * tick)

-- The bid is above the cost, or the loss against it has reached the stop.
abbrev pub MaySellAt : Frac → Option Frac → ℕ → Type 0
MaySellAt cost theta_stop bid =
    (cost.num < bid * cost.den)
    ⊎ ((t : Frac) × (theta_stop ≡ some t) × ((bid * t.den + t.num) * cost.den ≤ cost.num * t.den))

-- What each action of a plan promises.
abbrev pub Sound : Frac → Option ℕ → Option ℕ → ℕ → Option Frac → ExitPlan → Type 0
Sound cost best_bid best_ask tick theta_stop plan = elim plan.action [
  | ExitAction.rest ↦ (p : Frac) × (plan.price ≡ some p) × CoversCost cost tick p
  | ExitAction.market ↦ (bid : ℕ) × (best_bid ≡ some bid) × MaySellAt cost theta_stop bid
  | ExitAction.noop ↦ (best_bid ≡ none) × ((best_ask ≡ none) ⊎ (best_ask ≡ some 0))
]

ask-CoversCost :
    (cost : Frac) (tick ask : ℕ) (f : Frac)
    → f.num ≤ ask * f.den
    → CoversCost cost tick f
    → CoversCost cost tick (whole ask)
ask-CoversCost cost tick ask f h (one, covers) =
    let scaled : f.num ≤ ask * 1 = rw one at h in
    let above : f.num ≤ ask = omega arith in (refl, grind arith)

ask_or_floor-CoversCost :
    (cost : Frac) (tick : ℕ) (ask : Option ℕ) (f : Frac)
    → CoversCost cost tick f
    → CoversCost cost tick (ask_or_floor ask f)
unfolding ask_or_floor
ask_or_floor-CoversCost cost tick none f h = h
ask_or_floor-CoversCost cost tick (some n) f h = elim (Bool-cases (n == 0)) [
  | inl dead ↦ rw dead h
  | inr live ↦ elim (Bool-cases (ltb_frac (whole n) f)) [
    | inl low ↦ rw (live, low) h
    | inr high ↦ rw (live, high) (ask-CoversCost cost tick n f (omega tests) h)
  ]
]

module _ (cost : Frac) (tick : ℕ) (den_pos : 0 < cost.den) (tick_pos : 0 < tick) where
  pub floor-CoversCost : CoversCost cost tick (ceil_to_tick cost tick)
  floor-CoversCost = let b = ceil_to_tick_bounds cost tick den_pos tick_pos in (b.0, b.2)

  plan_loss-Sound :
      (best_bid best_ask : Option ℕ) (theta_stop : Option Frac) (size : ℕ)
      → Sound cost best_bid best_ask tick theta_stop
          (plan_loss cost best_bid best_ask tick theta_stop size)
  unfolding plan_loss
  plan_loss-Sound none none theta_stop size = (refl, inl refl)
  plan_loss-Sound none (some ask) theta_stop size = elim (Bool-cases (ask == 0)) [
    | inl dead ↦ rw dead (refl, inr (ap some ((==_iff ask 0).0 dead)))
    | inr live ↦ rw live (ceil_to_tick cost tick, refl, floor-CoversCost)
  ]
  plan_loss-Sound (some bid) best_ask none size = (ceil_to_tick cost tick, refl, floor-CoversCost)
  plan_loss-Sound (some bid) best_ask (some t) size =
      elim (Bool-cases (is_stopped cost (some bid) (some t))) [
        | inl hit ↦ rw hit (bid, refl, inr (t, refl, omega tests))
        | inr miss ↦ rw miss (ceil_to_tick cost tick, refl, floor-CoversCost)
      ]

-- With a positive tick, in both modes: a plan to rest asks a whole price that is below the cost by
-- less than a ten-thousandth of a tick; a plan to sell at the market has a bid that is above the
-- cost, or a loss against it that has reached the stop; and no plan is made only where nobody bids
-- and nobody asks.
pub plan_exit-Sound :
    (cost : Frac) (tick : ℕ) (best_bid best_ask : Option ℕ) (theta_stop : Option Frac) (size : ℕ)
    (is_market : Bool)
    → 0 < cost.den
    → 0 < tick
    → Sound cost best_bid best_ask tick theta_stop
        (plan_exit cost best_bid best_ask tick theta_stop size is_market)
unfolding plan_exit
plan_exit-Sound cost tick none best_ask theta_stop size true h k =
    plan_loss-Sound cost tick h k none best_ask theta_stop size
plan_exit-Sound cost tick none best_ask theta_stop size false h k =
    plan_loss-Sound cost tick h k none best_ask theta_stop size
plan_exit-Sound cost tick (some bid) best_ask theta_stop size true h k =
    elim (Bool-cases (is_above (some bid) cost)) [
      | inl gain ↦ rw gain (bid, refl, inl (omega tests))
      | inr loss ↦ rw loss (plan_loss-Sound cost tick h k (some bid) best_ask theta_stop size)
    ]
plan_exit-Sound cost tick (some bid) best_ask theta_stop size false h k =
    elim (Bool-cases (is_at_or_above (some bid) cost)) [
      | inl gain ↦ rw gain (
        ask_or_floor best_ask (ceil_to_tick cost tick),
        refl,
        ask_or_floor-CoversCost cost tick best_ask _ (floor-CoversCost cost tick h k),
      )
      | inr loss ↦ rw loss (plan_loss-Sound cost tick h k (some bid) best_ask theta_stop size)
    ]
