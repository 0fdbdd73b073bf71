-- ===== src/Wall/Pricing.antt =====
-- engine/legacy_wall.py: `determine_order_price` and its three ways; engine/order_sizing.py:
-- `compute_order_size`. Prices and sizes are millionths, thresholds whole shares, and
-- `max_spread` is a whole number of cents. A subtracted bound is moved to the other side.
use polymarket_rewards.Base.{
  ℕ, ◌+◌, ◌*◌, ◌/◌, Bool, ◌&&◌, ◌||◌, not, Option, none, some, List, [], ◌∷◌, ltb, leb, ◌==◌,
  if◌then◌else◌, min,
}
use polymarket_rewards.Base.Text.{Text, codes, text_eq}
use polymarket_rewards.Gap.{Bid, in_range_of}

-- `int(float(bid["size"]))`
abbrev pub whole_size : Bid → ℕ
whole_size b = b.size / 1_000_000

-- The level below the wall, where it exists and lies in the reward range.
unfoldable pub next_in_range : ℕ → ℕ → List Bid → Option ℕ
next_in_range lo hi [] = none
next_in_range lo hi (b ∷ bids) = if in_range_of lo hi b then some b.price else none

-- `_cumulative`, from the amount that has been added up.
unfoldable pub cumulative_from : ℕ → ℕ → ℕ → ℕ → List Bid → Option ℕ
unfolding next_in_range
cumulative_from lo hi threshold cumulative [] = none
cumulative_from lo hi threshold cumulative (b ∷ bids) =
    let rest = cumulative_from lo hi threshold (cumulative + whole_size b) bids in
    if ltb threshold (cumulative + whole_size b) then next_in_range lo hi bids else rest

unfoldable pub spread2_coarse : ℕ → ℕ → ℕ → List Bid → Option ℕ
unfolding next_in_range
spread2_coarse lo hi wall_threshold [] = none
spread2_coarse lo hi wall_threshold (b ∷ bids) =
    if leb (whole_size b) wall_threshold then none else next_in_range lo hi bids

-- `price >= best - max_spread * tick_size`, for `depth` the product.
abbrev pub within_depth : ℕ → ℕ → ℕ → Bool
within_depth best depth price = leb best (price + depth)

unfoldable pub next_within : ℕ → ℕ → ℕ → ℕ → List Bid → Option ℕ
next_within lo hi best depth [] = none
next_within lo hi best depth (b ∷ bids) =
    if within_depth best depth b.price && in_range_of lo hi b then some b.price else none

-- The loop of `_spread_ge3_coarse`.
unfoldable pub wall_from : ℕ → ℕ → ℕ → ℕ → ℕ → List Bid → Option ℕ
unfolding next_within
wall_from lo hi wall_threshold best depth [] = none
wall_from lo hi wall_threshold best depth (b ∷ bids) =
    let rest = wall_from lo hi wall_threshold best depth bids in
    if not (within_depth best depth b.price)
    then none
    else if ltb wall_threshold (whole_size b)
    then next_within lo hi best depth bids
    else rest

unfoldable pub spread_ge3_coarse : ℕ → ℕ → ℕ → ℕ → ℕ → List Bid → Option ℕ
spread_ge3_coarse max_spread tick lo hi wall_threshold [] = none
spread_ge3_coarse max_spread tick lo hi wall_threshold (b ∷ bids) =
    wall_from lo hi wall_threshold b.price (max_spread * tick) (b ∷ bids)

-- A tick under a cent.
abbrev pub is_fine_tick : ℕ → Bool
is_fine_tick tick = ltb tick 10_000

unfoldable pub determine_order_price : List Bid → ℕ → ℕ → ℕ → ℕ → ℕ → ℕ → Option ℕ
determine_order_price bids max_spread tick lo hi wall_threshold cumulative_threshold =
    if is_fine_tick tick
    then cumulative_from lo hi cumulative_threshold 0 bids
    else if max_spread == 2
    then spread2_coarse lo hi wall_threshold bids
    else spread_ge3_coarse max_spread tick lo hi wall_threshold bids

-- Money is millionths of a dollar, `min_size` whole shares.
unfoldable pub compute_order_size : Text → ℕ → ℕ → ℕ → ℕ → Option ℕ
compute_order_size mode price balance min_size custom_usd =
    let budget = if text_eq mode (codes "balance") then balance else min custom_usd balance in
    if price == 0
    then none
    else if not (text_eq mode (codes "custom") || text_eq mode (codes "balance"))
    then some min_size
    else if ltb (budget / price) min_size
    then none
    else some (budget / price)
