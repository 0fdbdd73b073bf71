-- ===== src/Gap/Book.antt =====
-- engine/laddering.py: the buy side of the book (`amount_value`, `has_cliff_below`,
-- `_sorted_levels`, `_max_gap_and_split`, `max_gap_cents`). Prices, sizes and settings in cents are
-- all millionths (a cent is 10 000 millionths of a dollar), so a price gap needs no rounding.
use polymarket_rewards.Base.{
  ℕ, ◌+◌, ◌-◌, Bool, false, ◌&&◌, ◌||◌, not, Option, none, some, List, [], ◌∷◌, ltb, leb, ◌==◌,
  if◌then◌else◌, any, is_empty, length,
}
use polymarket_rewards.Base.Sort.{sort_by}

-- A row of the orderbook, its texts read as numbers.
pub record Bid : Type 0 where
  pub price : ℕ
  pub size : ℕ

-- A row of the table; `none` is a missing key or no number, and the row is skipped.
pub record TableRow : Type 0 where
  pub upper : Option ℕ
  pub value : Option ℕ

unfoldable pub valid_rows : List TableRow → List (ℕ × ℕ)
valid_rows [] = []
valid_rows (r ∷ rows) = elim r.upper [
  | none ↦ valid_rows rows
  | some u ↦ elim r.value [ none ↦ valid_rows rows | some v ↦ (u, v) ∷ valid_rows rows ]
]

abbrev pub row_le : ℕ × ℕ → ℕ × ℕ → Bool
row_le a b = leb a.0 b.0

unfoldable pub first_row : ℕ → List (ℕ × ℕ) → Option ℕ
first_row price [] = none
first_row price ((upper, value) ∷ rows) =
    if leb price upper then some value else first_row price rows

unfoldable pub amount_value : ℕ → List TableRow → Option ℕ
unfolding valid_rows first_row sort_by
amount_value price table = first_row price (sort_by row_le (valid_rows table))

-- The generator under `any`.
abbrev pub in_band : ℕ → ℕ → Bid → Bool
in_band reward_range_min probe b =
    leb reward_range_min (b.price + probe) && ltb b.price reward_range_min

unfoldable pub has_cliff_below : List Bid → ℕ → ℕ → Bool
has_cliff_below bids reward_range_min cliff_probe =
    if (cliff_probe == 0) || is_empty bids
    then false
    else not (any (in_band reward_range_min cliff_probe) bids)

-- `reverse=True` keeps the order of equal prices.
abbrev pub bid_ge : Bid → Bid → Bool
bid_ge a b = leb b.price a.price

unfoldable pub sorted_levels : List Bid → List Bid
unfolding sort_by
sorted_levels bids = sort_by bid_ge bids

-- The loop over adjacent pairs; `i` is the index of `prev`.
unfoldable pub scan_gaps : ℕ → ℕ → ℕ → ℕ → List Bid → ℕ × ℕ
scan_gaps i max_gap split_idx prev [] = (max_gap, split_idx)
scan_gaps i max_gap split_idx prev (b ∷ bids) =
    let gap = prev - b.price in
    scan_gaps (i + 1) (if ltb max_gap gap then gap else max_gap)
      (if ltb max_gap gap then i else split_idx) b.price bids

-- For an empty book the source's index is -1; it is never used, and is 0 here.
unfoldable pub max_gap_and_split : List Bid → ℕ × ℕ
unfolding scan_gaps
max_gap_and_split [] = (0, 0)
max_gap_and_split (b ∷ bids) = scan_gaps 0 0 (length bids) b.price bids

unfoldable pub max_gap_cents : List Bid → ℕ
unfolding max_gap_and_split sorted_levels
max_gap_cents bids = (max_gap_and_split (sorted_levels bids)).0
