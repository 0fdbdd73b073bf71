-- ===== src/Ledger/Daily.antt =====
-- engine/merge_accounting.py and engine/pnl.py: each day holds the sum of what belongs to it.
use polymarket_rewards.Base.{
  ℕ, ◌+◌, ◌-◌, ◌≡◌, refl, sym, ap, ◌∙◌, inl, inr, Bool, true, false, some, List, [], ◌∷◌, arith,
  ◌==◌, ==_iff, if◌then◌else◌, Bool-cases, or_zero,
}
use polymarket_rewards.Base.Text.{codes, text_eq, upper, text_eq→≡}
use polymarket_rewards.Base.Int.{ℤ, pos, ◌+ℤ◌, eq_of_parts, +ℤ_parts}
use polymarket_rewards.Ledger.Defs.{
  add_at, beijing_day, MergeEvent, merge_pnl_into, merge_pnl_by_day,
}
use polymarket_rewards.Ledger.Pnl.{
  Activity, DayIncome, no_income, income_into, reward_rebate_by_day,
}

-- `out.get(day, start)`
abbrev pub value_at {ℓ} : {A : Type ℓ} → A → ℕ → List (ℕ × A) → A
value_at start day [] = start
value_at start day (e ∷ out) = if e.0 == day then e.1 else value_at start day out

==_refl : (n : ℕ) → (n == n) ≡ true
==_refl n = ground arith

value_at-add_at_same {ℓ} :
    {A : Type ℓ} (start : A) (change : A → A) (day : ℕ) (out : List (ℕ × A))
    → value_at start day (add_at start change day out) ≡ change (value_at start day out)
value_at-add_at_same start change day [] = rw (==_refl day) refl
value_at-add_at_same start change day (e ∷ out) = elim (Bool-cases (e.0 == day)) [
  | inl here ↦ rw (here, ==_refl day) refl
  | inr there ↦ rw (there, there) (value_at-add_at_same start change day out)
]

value_at-add_at_other {ℓ} :
    {A : Type ℓ} (start : A) (change : A → A) (d day : ℕ) (out : List (ℕ × A))
    → (d == day) ≡ false
    → value_at start day (add_at start change d out) ≡ value_at start day out
value_at-add_at_other start change d day [] h = rw h refl
value_at-add_at_other start change d day (e ∷ out) h = elim (Bool-cases (e.0 == d)) [
  | inl here ↦ let same : e.0 ≡ d = (==_iff e.0 d).0 here in rw (here, same, h) refl
  | inr there ↦
      rw there
        (ap (λ v. if e.0 == day then e.1 else v) (value_at-add_at_other start change d day out h))
]

-- The sum of the profits of the day's merges, in the order of the events.
abbrev pub merges_on : ℕ → List MergeEvent → ℤ
merges_on day [] = pos 0
merges_on day (ev ∷ events) =
    if beijing_day ev.confirmed_at == day
    then ev.realized_pnl +ℤ merges_on day events
    else merges_on day events

+ℤ_assoc : (a b c : ℤ) → (a +ℤ b) +ℤ c ≡ a +ℤ (b +ℤ c)
+ℤ_assoc a b c =
    eq_of_parts _ _
      (omega (arith, +ℤ_parts a b, +ℤ_parts (a +ℤ b) c, +ℤ_parts b c, +ℤ_parts a (b +ℤ c)))

+ℤ_zero : (a : ℤ) → a +ℤ pos 0 ≡ a
+ℤ_zero a = eq_of_parts _ _ (omega (arith, +ℤ_parts a (pos 0)))

zero_plus : (a : ℤ) → pos 0 +ℤ a ≡ a
zero_plus a = eq_of_parts _ _ (omega (arith, +ℤ_parts (pos 0) a))

merge_pnl_into_day :
    (day : ℕ) (out : List (ℕ × ℤ)) (events : List MergeEvent)
    → value_at (pos 0) day (merge_pnl_into out events)
      ≡ value_at (pos 0) day out +ℤ merges_on day events
unfolding merge_pnl_into
merge_pnl_into_day day out [] = sym (+ℤ_zero _)
merge_pnl_into_day day out (ev ∷ events) =
    let d = beijing_day ev.confirmed_at in
    let change : ℤ → ℤ = λ x. x +ℤ ev.realized_pnl in
    let rest = merge_pnl_into_day day (add_at (pos 0) change d out) events in
    elim (Bool-cases (d == day)) [
      | inl today ↦
          let same : d ≡ day = (==_iff d day).0 today in
          let now =
            ap (λ k. value_at (pos 0) day (add_at (pos 0) change k out)) same
            ∙ value_at-add_at_same (pos 0) change day out in
          rw today (rest ∙ ap (λ v. v +ℤ merges_on day events) now ∙ +ℤ_assoc _ _ _)
      | inr other ↦
          let now = value_at-add_at_other (pos 0) change d day out other in
          rw other (rest ∙ ap (λ v. v +ℤ merges_on day events) now)
    ]

-- On every day, the ledger's merge profit is the sum of the profits of the merges confirmed on it.
pub merge_pnl_by_day_sums :
    (events : List MergeEvent) (day : ℕ)
    → value_at (pos 0) day (merge_pnl_by_day events) ≡ merges_on day events
unfolding merge_pnl_by_day
merge_pnl_by_day_sums events day = merge_pnl_into_day day [] events ∙ zero_plus _

-- What the day has earned: a reward belongs to the day before its payment.
abbrev pub rewards_on : ℕ → List Activity → ℕ
rewards_on day [] = 0
rewards_on day (a ∷ activity) =
    (if text_eq (upper a.kind) (codes "REWARD")
      then if (beijing_day a.timestamp - 1) == day then a.usdc_size else 0
      else 0)
    + rewards_on day activity

abbrev pub rebates_on : ℕ → List Activity → ℕ
rebates_on day [] = 0
rebates_on day (a ∷ activity) =
    (if text_eq (upper a.kind) (codes "MAKER_REBATE")
      then if beijing_day a.timestamp == day then a.usdc_size else 0
      else 0)
    + rebates_on day activity

abbrev pub income_on : ℕ → List (ℕ × DayIncome) → ℕ × ℕ
income_on day out =
    (or_zero (value_at no_income day out).reward, or_zero (value_at no_income day out).rebate)

-- REWARD and MAKER_REBATE are different words.
not_both :
    (t : List ℕ) → text_eq t (codes "REWARD") ≡ true → text_eq t (codes "MAKER_REBATE") ≡ false
not_both t h = rw (text_eq→≡ t (codes "REWARD") h) refl

income_day-add_at :
    (change : DayIncome → DayIncome) (x y d day : ℕ) (out : List (ℕ × DayIncome))
    → ((v : DayIncome) → or_zero (change v).reward ≡ or_zero v.reward + x)
    → ((v : DayIncome) → or_zero (change v).rebate ≡ or_zero v.rebate + y)
    → let before = income_on day out in
      let after = income_on day (add_at no_income change d out) in
      (after.0 ≡ before.0 + (if d == day then x else 0))
      × (after.1 ≡ before.1 + (if d == day then y else 0))
income_day-add_at change x y d day out h k = elim (Bool-cases (d == day)) [
  | inl today ↦
      let same : d ≡ day = (==_iff d day).0 today in
      let now =
        ap (λ n. value_at no_income day (add_at no_income change n out)) same
        ∙ value_at-add_at_same no_income change day out in
      rw (today, now) (h _, k _)
  | inr other ↦
      rw (other, value_at-add_at_other no_income change d day out other) (omega arith, omega arith)
]

if_zero : (b : Bool) → ◌≡◌ {A = ℕ} (if b then 0 else 0) 0
if_zero true = refl
if_zero false = refl

income_into_day :
    (day : ℕ) (out : List (ℕ × DayIncome)) (activity : List Activity)
    → let before = income_on day out in
      let after = income_on day (income_into out activity) in
      (after.0 ≡ before.0 + rewards_on day activity)
      × (after.1 ≡ before.1 + rebates_on day activity)
unfolding income_into
income_into_day day out [] = (omega arith, omega arith)
income_into_day day out (a ∷ activity) =
    let n = a.usdc_size in
    let d = beijing_day a.timestamp in
    elim (Bool-cases (text_eq (upper a.kind) (codes "REWARD"))) [
      | inl reward ↦
          let change : DayIncome → DayIncome =
            λ v. record v { reward = some (or_zero v.reward + n) } in
          let (p, q) =
            income_day-add_at change n 0 (d - 1) day out (λ v. refl) (λ v. omega arith) in
          let (r, s) = income_into_day day (add_at no_income change (d - 1) out) activity in
          rw (reward, not_both (upper a.kind) reward)
            (omega arith, omega (arith, if_zero ((d - 1) == day)))
      | inr no_reward ↦ elim (Bool-cases (text_eq (upper a.kind) (codes "MAKER_REBATE"))) [
        | inl rebate ↦
            let change : DayIncome → DayIncome =
              λ v. record v { rebate = some (or_zero v.rebate + n) } in
            let (p, q) = income_day-add_at change 0 n d day out (λ v. omega arith) (λ v. refl) in
            let (r, s) = income_into_day day (add_at no_income change d out) activity in
            rw (no_reward, rebate) (omega (arith, if_zero (d == day)), omega arith)
        | inr neither ↦
            let (r, s) = income_into_day day out activity in
            rw (no_reward, neither) (omega arith, omega arith)
      ]
    ]

-- On every day, the ledger's reward is the sum of the rewards paid on the next day, and its rebate the
-- sum of the rebates paid on it.
pub reward_rebate_by_day_sums :
    (activity : List Activity) (day : ℕ)
    → let income = income_on day (reward_rebate_by_day activity) in
      (income.0 ≡ rewards_on day activity) × (income.1 ≡ rebates_on day activity)
unfolding reward_rebate_by_day
reward_rebate_by_day_sums activity day =
    let (r, s) = income_into_day day [] activity in (omega arith, omega arith)
