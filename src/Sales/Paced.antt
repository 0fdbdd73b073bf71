-- ===== src/Sales/Paced.antt =====
-- engine/monitor.py: `check_low_balance` sells only while the estimate is below the target.
use polymarket_rewards.Base.{
  ℕ, ◌+◌, ◌*◌, ◌≤◌, ◌<◌, ◌≡◌, ◌⊎◌, some, List, ◌++◌, if◌then◌else◌, is_empty,
}
use polymarket_rewards.Base.Text.{Text}
use polymarket_rewards.Place.{Position}
use polymarket_rewards.Sales.{
  SaleCall, LowSources, LowState, target_of, metas_of, sale_order, cooldown_sec,
}
use polymarket_rewards.Sales.Pace.{IsPaced}

-- Nothing has changed.
abbrev Untouched : LowState → LowState → Type 0
Untouched s after =
    (after.sales ≡ s.sales)
    × (after.just_dumped ≡ s.just_dumped)
    × (after.cooldown_until ≡ s.cooldown_until)

-- The check was on, not cooling down, and the balance was below the threshold and the target; and the
-- sales were paced, in the order of the plan, and have begun a cooldown where there was one.
abbrev Liquidated : LowSources → LowState → LowState → Type 0
Liquidated x s after =
    (balance : ℕ) × (positions : List Position) × (x.get_balance ≡ some balance)
    × (x.positions ≡ some positions)
    × (s.cooldown_until ≤ x.now)
    × (balance < x.settings.low_balance_threshold)
    × (balance < target_of x.settings x.min_order_cost)
    × (let metas = metas_of x.desk positions in
        (sold : List Text) × (calls : List SaleCall) × (last : ℕ) × (after.just_dumped
          ≡ s.just_dumped ++ sold)
        × (after.sales.sent ≡ s.sales.sent ++ calls)
        × IsPaced x.desk (target_of x.settings x.min_order_cost * 1_000_000) metas
            (balance * 1_000_000) (sale_order x metas) sold calls last
        × (after.cooldown_until
            ≡ (if is_empty sold then s.cooldown_until else x.later + cooldown_sec)))

abbrev pub Checked : LowSources → LowState → LowState → Type 0
Checked x s after = Untouched s after ⊎ Liquidated x s after

module _ (x : LowSources) (s : LowState) (hot : s.cooldown_until ≤ x.now) where
  abbrev target : ℕ
  target = target_of x.settings x.min_order_cost
