-- ===== src/Wall/Explain.antt =====
-- engine/legacy_wall.py: `explain_legacy_order`, `compute_market_legacy_orders`.
use polymarket_rewards.Base.{
  ℕ, ◌+◌, ◌*◌, ◌/◌, Bool, true, false, ◌||◌, Option, none, some, List, [], ◌∷◌, ltb, ◌==◌,
  if◌then◌else◌, is_empty, take,
}
use polymarket_rewards.Base.Text.{Text}
use polymarket_rewards.Gap.{Bid, has_cliff_below, cap_side}
use polymarket_rewards.Wall.Pricing.{
  within_depth, is_fine_tick, determine_order_price, compute_order_size,
}

pub record WallLevel : Type 0 where
  pub price : ℕ
  pub size : ℕ
  pub cum : ℕ

pub data Rule : Type 0 where
  wall cumulative : Rule

-- The texts of `skip_reason`, without their wording.
pub data WallSkip : Type 0 where
  no_book cliff_below none_over next_unplaceable too_few_shares : WallSkip

pub record WallDecision : Type 0 where
  pub rule : Option Rule
  pub threshold : Option ℕ
  -- the index, the size and the running total of the level that was hit
  pub hit : Option (ℕ × ℕ × ℕ)
  -- the price and the number of shares, where `action` is `place`
  pub order : Option (ℕ × ℕ)
  pub levels : List WallLevel
  pub skip_reason : Option WallSkip
  pub cliff : Bool

abbrev pub undecided : WallDecision
undecided = record {
  rule = none;
  threshold = none;
  hit = none;
  order = none;
  levels = [];
  skip_reason = none;
  cliff = false;
}

unfoldable pub levels_from : ℕ → List Bid → List WallLevel
levels_from running [] = []
levels_from running (b ∷ bids) =
    let total = running + b.size / 1_000_000 in
    record { price = b.price; size = b.size; cum = total } ∷ levels_from total bids

-- The loop that stops at the first level below the bound.
unfoldable pub take_within : ℕ → ℕ → List WallLevel → List WallLevel
take_within best depth [] = []
take_within best depth (lv ∷ levels) =
    let rest = take_within best depth levels in
    if within_depth best depth lv.price then lv ∷ rest else []

unfoldable pub scan_coarse : ℕ → ℕ → List WallLevel → List WallLevel
unfolding take_within
scan_coarse max_spread tick [] = []
scan_coarse max_spread tick (lv ∷ levels) = take_within lv.price (max_spread * tick) (lv ∷ levels)

-- The levels that the pricing has looked at.
unfoldable pub scanned : ℕ → ℕ → List WallLevel → List WallLevel
scanned max_spread tick levels =
    if is_fine_tick tick
    then levels
    else if max_spread == 2
    then take 1 levels
    else scan_coarse max_spread tick levels

abbrev pub is_hit : Bool → ℕ → ℕ → WallLevel → Bool
is_hit fine wall_threshold cumulative_threshold lv =
    if fine then ltb cumulative_threshold lv.cum else ltb wall_threshold (lv.size / 1_000_000)

unfoldable pub first_hit : (WallLevel → Bool) → ℕ → List WallLevel → Option (ℕ × ℕ × ℕ)
first_hit test i [] = none
first_hit test i (lv ∷ levels) =
    if test lv then some (i, lv.size, lv.cum) else first_hit test (i + 1) levels

-- The settings of the mode.
pub record WallSettings : Type 0 where
  pub order_size_mode : Text
  pub balance : ℕ
  pub custom_usd : ℕ
  pub wall_threshold : ℕ
  pub cumulative_threshold : ℕ
  pub cliff_probe : ℕ

-- `compute_order_size` has given the number of shares, or none.
unfoldable pub place_shares : ℕ → WallDecision → Option ℕ → WallDecision
place_shares price d none = record d { skip_reason = some too_few_shares }
place_shares price d (some shares) = record d { order = some (price, shares) }

-- From the price on.
unfoldable pub finish : WallSettings → ℕ → WallDecision → Option ℕ → WallDecision
finish w min_size d none = record d {
  skip_reason = elim d.hit [ none ↦ some none_over | some h ↦ some next_unplaceable ];
}
finish w min_size d (some price) =
    place_shares price d
      (compute_order_size w.order_size_mode price w.balance (min_size / 1_000_000) w.custom_usd)

-- The fields that are set before the price is looked at.
unfoldable pub with_hit : List Bid → ℕ → ℕ → WallSettings → WallDecision
with_hit bids max_spread tick w =
    let fine = is_fine_tick tick in
    record undecided {
      rule = some (if fine then cumulative else wall);
      threshold = some (if fine then w.cumulative_threshold else w.wall_threshold);
      hit =
          first_hit (is_hit fine w.wall_threshold w.cumulative_threshold) 0
            (scanned max_spread tick (levels_from 0 bids));
      levels = levels_from 0 bids;
    }

unfoldable pub explain_legacy_order : List Bid → ℕ → ℕ → ℕ → ℕ → ℕ → WallSettings → WallDecision
explain_legacy_order bids max_spread tick lo hi min_size w =
    if is_empty bids || (min_size == 0)
    then record undecided { skip_reason = some no_book }
    else if has_cliff_below bids lo w.cliff_probe
    then record undecided {
      levels = levels_from 0 bids;
      skip_reason = some cliff_below;
      cliff = true;
    }
    else finish w min_size (with_hit bids max_spread tick w)
        (determine_order_price bids max_spread tick lo hi w.wall_threshold w.cumulative_threshold)

pub record WallSide : Type 0 where
  pub bids : List Bid
  -- in hundredths of a cent: `int(side["max_spread"])` drops the fraction
  pub max_spread : ℕ
  pub tick_size : ℕ
  pub reward_range_min : ℕ
  pub reward_range_max : ℕ
  pub min_size : ℕ

unfoldable pub plan_wall_side : WallSettings → Option WallSide → Option (ℕ × ℕ)
plan_wall_side w none = none
plan_wall_side w (some s) =
    (explain_legacy_order s.bids (s.max_spread / 100) s.tick_size s.reward_range_min
      s.reward_range_max s.min_size w).order

abbrev pub wall_min_size : Option WallSide → ℕ
wall_min_size none = 0
wall_min_size (some s) = s.min_size

unfoldable pub compute_market_legacy_orders :
    Option WallSide → Option WallSide → ℕ → ℕ → WallSettings → List (ℕ × ℕ) × List (ℕ × ℕ)
compute_market_legacy_orders side_a side_b budget max_shares w =
    let (a, spent) =
      cap_side budget max_shares (record { usd = 0; shares = 0 }) (wall_min_size side_a)
        (plan_wall_side w side_a) in
    let (b, _) =
      cap_side budget max_shares spent (wall_min_size side_b) (plan_wall_side w side_b) in
    (a, b)
