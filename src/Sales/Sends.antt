-- ===== src/Sales/Sends.antt =====
-- engine/monitor.py: what one call of `_exit_position` may send to the exchange.
use polymarket_rewards.Base.{
  ℕ, ◌<◌, ◌≡◌, refl, sym, ap, ◌∙◌, subst, inl, inr, Bool, true, false, ◌&&◌, ◌||◌, not, Option,
  none, some, List, [], ◌∷◌, ◌++◌, arith, ◌==◌, Bool-cases, if◌then◌else◌, if_intro, is_empty,
  &&-true,
}
use polymarket_rewards.Base.Frac.{Frac}
use polymarket_rewards.Base.Text.{Text}
use polymarket_rewards.Base.Amount.{within_tolerance}
use polymarket_rewards.Cost.{Fill, position_cost_with_lots, position_lots, recon_of, cost_sum_of}
use polymarket_rewards.TakeProfit.{
  SellOrder, SellPlan, noop, keep_one, replace, is_in_place, plan_take_profit,
}
use polymarket_rewards.Place.{Position}
use polymarket_rewards.Sales.{
  Desk, SaleCall, cancel_sells, rest_sell, market_sell, sell_kept, rested, rest_failed, Sales, call,
  row, sell_ids_of, cancel_old, carry_plan,
}
use mathlib.Core.List.{append-nil, append_assoc}

-- The call, after the cancellation of the resting sells where there are any.
abbrev pub after_cancel : List (Option Text) → SaleCall → List SaleCall
after_cancel ids c = if is_empty ids then c ∷ [] else cancel_sells ids ∷ c ∷ []

-- What a call may send for a position: nothing, only the cancellation, or one sale of the whole
-- position, at a price that is fine or at the market where that may be.
pub data Outcome (pos : Position) (ids : List (Option Text)) (IsPrice : Frac → Type 0)
    (May : Type 0) : List SaleCall → Type 0 where
  nothing : Outcome pos ids IsPrice May []
  not_cancelled : Outcome pos ids IsPrice May (cancel_sells ids ∷ [])
  resting :
      (p : Frac)
      → IsPrice p
      → Outcome pos ids IsPrice May (after_cancel ids (rest_sell pos.asset p pos.size))
  selling : May → Outcome pos ids IsPrice May (after_cancel ids (market_sell pos.asset pos.size))

abbrev pub Sends : Position → List (Option Text) → (Frac → Type 0) → Type 0 → Sales → Sales → Type 0
Sends pos ids IsPrice May s after =
    (new : List SaleCall) × (after.sent ≡ s.sent ++ new)
    × (after.router ≡ s.router)
    × Outcome pos ids IsPrice May new

not-true : (b : Bool) → not b ≡ true → b ≡ false
not-true true e = cc
not-true false e = refl

pub positive : (n : ℕ) → (n == 0) ≡ false → 0 < n
positive n e = ground arith

-- A cost that is returned has a positive denominator.
pub cost-den :
    (fills : List Fill) (size : ℕ) (merges : List ℕ) (c : Frac)
    → (position_cost_with_lots fills size merges).0 ≡ some c
    → 0 < c.den
unfolding position_cost_with_lots
cost-den fills size merges c e = elim (Bool-cases ((size == 0) || is_empty fills)) [
  | inl blank ↦ absurd (let no : none ≡ some c = rw blank at e in cc)
  | inr held ↦ elim (Bool-cases (recon_of (position_lots fills merges) == 0)) [
    | inl gone ↦ absurd (let no : none ≡ some c = rw (held, gone) at e in cc)
    | inr left ↦ elim (Bool-cases (within_tolerance (recon_of (position_lots fills merges)) size)) [
      | inr off ↦ absurd (let no : none ≡ some c = rw (held, left, off) at e in cc)
      | inl near ↦
          let lots = position_lots fills merges in
          let same : some (record { num = cost_sum_of lots; den = recon_of lots }) ≡ some c =
            rw (held, left, near) at e in
          let dens : recon_of lots ≡ c.den =
            ap (λ (o : Option Frac). elim o [ none ↦ 0 | some f ↦ f.den ]) same in
          let some_left = positive (recon_of lots) left in omega arith
    ]
  ]
]

-- The plan for the resting sells asks the price that is wanted for the size, or leaves them.
abbrev pub IsWanted : ℕ → Option Frac → List SellOrder → SellPlan → Type 0
IsWanted size want sells noop = Unit
IsWanted size want sells (keep_one p n) = Unit
IsWanted size want sells (replace p n old) =
    (want ≡ some p) × (n ≡ size) × (old ≡ sell_ids_of sells)

pub plan_take_profit-IsWanted :
    (size : ℕ) (want : Option Frac) (tick : ℕ) (sells : List SellOrder)
    → IsWanted size want sells (plan_take_profit size want tick sells)
unfolding plan_take_profit
plan_take_profit-IsWanted size none tick sells = tt
plan_take_profit-IsWanted size (some w) tick sells =
    if_intro (IsWanted size (some w) sells) ((size == 0) || ((w.num == 0) || (tick == 0))) noop
      (if is_in_place sells w tick size
        then keep_one w size
        else replace w size (sell_ids_of sells))
      (λ e. tt)
      (λ e.
        if_intro (IsWanted size (some w) sells) (is_in_place sells w tick size) (keep_one w size)
          (replace w size (sell_ids_of sells)) (λ f. tt) (λ f. (refl, refl, refl)))

module _ (d : Desk) (pos : Position) (ids : List (Option Text)) (IsPrice : Frac → Type 0)
    (May : Type 0) where
  pub quiet :
      (s after : Sales)
      → after.sent ≡ s.sent
      → after.router ≡ s.router
      → Sends pos ids IsPrice May s after
  quiet s after same router = ([], same ∙ sym (append-nil s.sent), router, nothing)

  pub call_after :
      (c : SaleCall) (s : Sales)
      → ((call c (cancel_old ids s)).sent ≡ s.sent ++ after_cancel ids c)
        × ((call c (cancel_old ids s)).router ≡ s.router)
  call_after c s = elim (Bool-cases (is_empty ids)) [
    | inl none_left ↦ rw none_left (refl, refl)
    | inr some_left ↦ rw some_left (append_assoc s.sent (cancel_sells ids ∷ []) (c ∷ []), refl)
  ]

  only_cancelled :
      (s : Sales) → is_empty ids ≡ false → Sends pos ids IsPrice May s (cancel_old ids s)
  only_cancelled s e = (cancel_sells ids ∷ [], rw e refl, rw e refl, not_cancelled)

  -- What a plan for the resting sells may be.
  abbrev pub IsPlan : SellPlan → Type 0
  IsPlan noop = Unit
  IsPlan (keep_one p n) = Unit
  IsPlan (replace p n old) = IsPrice p × (n ≡ pos.size) × (old ≡ ids)

  carry_replace :
      (p : Frac) (s : Sales)
      → IsPrice p
      → Sends pos ids IsPrice May s (carry_plan d pos (replace p pos.size ids) s)
  unfolding carry_plan
  carry_replace p s fine =
      let asked = call (rest_sell pos.asset p pos.size) (cancel_old ids s) in
      let sale : Sends pos ids IsPrice May s asked = (
        after_cancel ids (rest_sell pos.asset p pos.size),
        (call_after (rest_sell pos.asset p pos.size) s).0,
        (call_after (rest_sell pos.asset p pos.size) s).1,
        resting p fine,
      ) in
      let done =
        if d.place_limit_sell pos.asset p pos.size
        then row pos.condition_id rested asked
        else row pos.condition_id rest_failed asked in
      if_intro (Sends pos ids IsPrice May s) (not (is_empty ids) && not (d.cancel_orders ids))
        (cancel_old ids s) done
        (λ failed. only_cancelled s (not-true (is_empty ids) (&&-true _ _ failed).0))
        (λ went.
          if_intro (Sends pos ids IsPrice May s) (d.place_limit_sell pos.asset p pos.size)
            (row pos.condition_id rested asked) (row pos.condition_id rest_failed asked) (λ e. sale)
            (λ e. sale))

  pub carry_plan-Sends :
      (plan : SellPlan) (s : Sales)
      → IsPlan plan
      → Sends pos ids IsPrice May s (carry_plan d pos plan s)
  unfolding carry_plan
  carry_plan-Sends noop s fine = quiet s (row pos.condition_id sell_kept s) refl refl
  carry_plan-Sends (keep_one p n) s fine = quiet s (row pos.condition_id sell_kept s) refl refl
  carry_plan-Sends (replace p n old) s (fine, size, same) =
      subst (λ (m : ℕ). Sends pos ids IsPrice May s (carry_plan d pos (replace p m old) s))
        (sym size)
        (subst
          (λ (is : List (Option Text)).
            Sends pos ids IsPrice May s (carry_plan d pos (replace p pos.size is) s))
          (sym same) (carry_replace p s fine))
