-- ===== src/Reconcile/Defs.antt =====
-- engine/laddering.py: `reconcile_buy_orders`. A planned order is a price and a whole number of
-- shares; the amounts of a resting order are millionths of a share.
use polymarket_rewards.Base.{
  ℕ, ◌+◌, ◌*◌, Bool, false, ◌&&◌, not, Option, none, some, List, [], ◌∷◌, ◌++◌, max, leb, ◌==◌,
  if◌then◌else◌, any, keep, or_zero,
}
use polymarket_rewards.Base.Int.{ℤ, pos_part, neg_part, sub_ℕ}
use polymarket_rewards.Base.Text.{Text}
use polymarket_rewards.Base.Amount.{abs_diff, round_div}

pub record RestingBuy : Type 0 where
  pub id : Option Text
  pub price : Option ℕ
  pub original_size : Option ℕ
  pub size : Option ℕ
  pub size_matched : Option ℕ

-- `round(p, 4)` on millionths.
unfoldable pub round4 : ℕ → ℕ
unfolding round_div
round4 p = round_div p 100 * 100

-- The dictionary `target`: of two entries with one key the later one counts.
unfoldable pub target_at : ℕ → List (ℕ × ℕ) → Option ℕ
target_at op [] = none
target_at op ((p, s) ∷ ladder) =
    let later = target_at op ladder in
    elim later [ some t ↦ some t | none ↦ if round4 p == op then some s else none ]

-- `o.get("original_size", o.get("size", 0)) or 0`
abbrev pub original_of : RestingBuy → ℕ
original_of o = elim o.original_size [ some n ↦ n | none ↦ or_zero o.size ]

abbrev pub unfilled : RestingBuy → ℤ
unfilled o = sub_ℕ (original_of o) (or_zero o.size_matched)

-- `abs(remaining - tgt) <= max(1.0, size_tolerance_pct * tgt)`
abbrev pub near_target : ℕ → ℤ → ℕ → Bool
near_target pct remaining tgt =
    leb (abs_diff (pos_part remaining) (tgt * 1_000_000 + neg_part remaining))
      (max 1_000_000 (pct * tgt))

abbrev pub is_in : ℕ → List ℕ → Bool
is_in op prices = any (λ p. p == op) prices

-- The test of the loop: the price is a target that no order has been kept for, and the amount fits.
unfoldable pub is_kept : List (ℕ × ℕ) → ℕ → List ℕ → RestingBuy → Bool
is_kept ladder pct kept o = elim (target_at (round4 (or_zero o.price)) ladder) [
  | none ↦ false
  | some tgt ↦ not (is_in (round4 (or_zero o.price)) kept) && near_target pct (unfilled o) tgt
]

abbrev pub id_list : Option Text → List Text
id_list none = []
id_list (some id) = id ∷ []

-- The loop: the ids to cancel, and the set `keep`.
unfoldable pub reconcile_loop : List (ℕ × ℕ) → ℕ → List ℕ → List RestingBuy → List Text × List ℕ
reconcile_loop ladder pct kept [] = ([], kept)
reconcile_loop ladder pct kept (o ∷ orders) =
    let stays = is_kept ladder pct kept o in
    let (ids, kept') =
      reconcile_loop ladder pct (if stays then round4 (or_zero o.price) ∷ kept else kept) orders in
    (if stays then ids else id_list o.id ++ ids, kept')

unfoldable pub reconcile_buy_orders : List (ℕ × ℕ) → List RestingBuy → ℕ → List Text × List (ℕ × ℕ)
reconcile_buy_orders ladder resting_buys size_tolerance_pct =
    let (cancel_ids, kept) = reconcile_loop ladder size_tolerance_pct [] resting_buys in
    (cancel_ids, keep (λ o. not (is_in (round4 o.0) kept)) ladder)
