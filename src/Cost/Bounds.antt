-- ===== src/Cost/Bounds.antt =====
-- engine/take_profit.py: what a cost that is returned says.
use polymarket_rewards.Base.{
  ℕ, ◌-◌, ◌*◌, ◌≤◌, ◌<◌, ◌≡◌, true, List, [], ◌∷◌, arith, All, All-append, some, max,
}
use polymarket_rewards.Base.Sort.{sort_by, All-sort_by}
use polymarket_rewards.Base.Frac.{Frac}
use polymarket_rewards.Base.Amount.{abs_diff}
use polymarket_rewards.Cost.Defs.{
  Fill, Lot, is_buy, lot_of, consume, replay_fill, replay, consume_merges, recon_of, cost_sum_of,
  fill_le, position_lots, position_cost_with_lots,
}

module _ (lo hi : ℕ) where
  abbrev pub PriceWithin : Lot → Type 0
  PriceWithin l = (lo ≤ l.price) × (l.price ≤ hi)

  -- Every purchase in the history was made at a price in the range.
  abbrev pub BoughtWithin : Fill → Type 0
  BoughtWithin f = is_buy f ≡ true → (lo ≤ f.price) × (f.price ≤ hi)

  All-consume : (q : ℕ) (ls : List Lot) → All PriceWithin ls → All PriceWithin (consume q ls)
  unfolding consume
  All-consume q [] h = tt
  All-consume q (l ∷ ls) h = ground (arith, All-consume (q - l.remaining) ls h.1)

  All-replay_fill :
      (ls : List Lot) (f : Fill)
      → All PriceWithin ls
      → BoughtWithin f
      → All PriceWithin (replay_fill ls f)
  unfolding replay_fill
  All-replay_fill ls f h k =
      ground (arith, All-consume f.size ls h, All-append PriceWithin ls (lot_of f ∷ []) h)

  All-replay :
      (ls : List Lot) (fs : List Fill)
      → All PriceWithin ls
      → All BoughtWithin fs
      → All PriceWithin (replay ls fs)
  unfolding replay
  All-replay ls [] h k = h
  All-replay ls (f ∷ fs) h k = All-replay (replay_fill ls f) fs (All-replay_fill ls f h k.0) k.1

  All-consume_merges :
      (ls : List Lot) (events : List ℕ)
      → All PriceWithin ls
      → All PriceWithin (consume_merges ls events)
  unfolding consume_merges
  All-consume_merges ls [] h = h
  All-consume_merges ls (a ∷ events) h =
      All-consume_merges (consume a ls) events (All-consume a ls h)

  cost_sum_within :
      (ls : List Lot)
      → All PriceWithin ls
      → (lo * recon_of ls ≤ cost_sum_of ls) × (cost_sum_of ls ≤ hi * recon_of ls)
  cost_sum_within [] h = omega arith
  cost_sum_within (l ∷ ls) h = grind (arith, cost_sum_within ls h.1)

  All-position_lots :
      (fills : List Fill) (merges : List ℕ)
      → All BoughtWithin fills
      → All PriceWithin (position_lots fills merges)
  unfolding position_lots
  All-position_lots fills merges h =
      All-consume_merges _ merges
        (All-replay [] (sort_by fill_le fills) tt (All-sort_by fill_le BoughtWithin fills h))

-- A cost that is returned is a weighted average: it lies between the lowest and the highest price
-- of the purchases, over a positive number of shares that agrees with the reported size within
-- one share or one per cent.
pub position_cost_within :
    (lo hi : ℕ) (fills : List Fill) (size : ℕ) (merges : List ℕ) {cost : Frac}
    → All (BoughtWithin lo hi) fills
    → (position_cost_with_lots fills size merges).0 ≡ some cost
    → (0 < cost.den)
      × (lo * cost.den ≤ cost.num)
      × (cost.num ≤ hi * cost.den)
      × (100 * abs_diff cost.den size ≤ max 100_000_000 size)
unfolding position_cost_with_lots
position_cost_within lo hi fills size merges h e = ground (
  arith,
  cost_sum_within lo hi (position_lots fills merges) (All-position_lots lo hi fills merges h),
)
