-- ===== src/Place/Market.antt =====
-- engine/manager.py: the part of `place_orders` that serves one market.
use polymarket_rewards.Base.{
  ℕ, ◌+◌, ◌-◌, ◌*◌, ◌/◌, Bool, true, false, ◌&&◌, ◌||◌, not, Option, none, some, List, [], ◌∷◌,
  ◌++◌, min, leb, ltb, ◌==◌, if◌then◌else◌, or_zero, get_elem?,
}
use polymarket_rewards.Base.Sort.{sort_by}
use polymarket_rewards.Base.Text.{Text, codes, text_eq}
use polymarket_rewards.TakeProfit.{ceil_div}
use polymarket_rewards.Gap.{Bid, bid_ge, GapSettings, Side, compute_market_single_orders}
use polymarket_rewards.Wall.{WallSettings, WallSide, compute_market_legacy_orders}
use polymarket_rewards.Tiers.{TierConf}
use polymarket_rewards.Place.Holdings.{Held, sum_at, has_text, add_text, reward_price_range}
use polymarket_rewards.Place.World.{Candidate, Book, PlaceTemplate, Exchange, buy, Round, sending}

-- An entry of `sides`.
pub record MarketSide : Type 0 where
  pub token_id : Text
  pub tick_size : ℕ
  pub min_size : ℕ
  pub bids : List Bid
  pub reward_range_min : ℕ
  pub reward_range_max : ℕ
  pub max_spread : ℕ

abbrev pub ask_order : Bid → Bid → Bool
ask_order a b = not (ltb b.price a.price)

abbrev pub whole_shares : ℕ → ℕ
whole_shares n = n / 1_000_000

-- The book has been sorted; a side without bids or asks is passed over.
unfoldable pub side_of : Candidate → ℕ → List Bid → List Bid → List MarketSide
side_of e tick [] asks = []
side_of e tick (b ∷ bids) [] = []
side_of e tick (b ∷ bids) (a ∷ asks) =
    let (rmin, rmax) = reward_price_range ((b.price + a.price) / 2) e.rewards_max_spread in
    record {
      token_id = e.token_id;
      tick_size = if tick == 0 then 10_000 else tick;
      min_size = whole_shares e.rewards_min_size * 1_000_000;
      bids = b ∷ bids;
      reward_range_min = rmin;
      reward_range_max = rmax;
      max_spread = e.rewards_max_spread;
    }
    ∷ []

abbrev pub side_of_book : Candidate → Option Book → List MarketSide
side_of_book e none = []
side_of_book e (some ob) =
    side_of e ob.tick_size (sort_by bid_ge ob.bids) (sort_by ask_order ob.asks)

unfoldable pub sides_of : Exchange → List Candidate → List MarketSide
unfolding side_of
sides_of x [] = []
sides_of x (e ∷ es) = side_of_book e (x.get_orderbook e.token_id) ++ sides_of x es

abbrev pub coeff_at : List ℕ → ℕ → ℕ
coeff_at coeffs i = or_zero (get_elem? coeffs i)

-- The settings of the tier; its coefficients stand in the order of `_TIER_COEFF_KEYS`.
abbrev pub gap_settings : PlaceTemplate → TierConf → GapSettings
gap_settings t tier = record {
  amount_value_table = tier.amount_value_table;
  gap_wide = t.gap_wide;
  gap_mid = t.gap_mid;
  gap_high_coeff_sum_min = coeff_at tier.coeffs 3;
  rule1_min_coeff = coeff_at tier.coeffs 0;
  rule2_min_coeff = coeff_at tier.coeffs 1;
  rule3_min_coeff = coeff_at tier.coeffs 2;
  cliff_probe = t.cliff_probe;
  shares = if tier.shares == 0 then none else some tier.shares;
  rule2_high_coeff_sum_min = coeff_at tier.coeffs 4;
  rule3_high_coeff_sum_min = coeff_at tier.coeffs 5;
  gap_veto = t.gap_veto;
}

abbrev pub wall_settings : PlaceTemplate → ℕ → WallSettings
wall_settings t balance = record {
  order_size_mode = t.order_size_mode;
  balance = balance;
  custom_usd = t.order_size_custom_usd;
  wall_threshold = t.legacy_wall_threshold;
  cumulative_threshold = t.legacy_cumulative_threshold;
  cliff_probe = t.cliff_probe;
}

-- `None if side["token_id"] in held_assets else side`
abbrev pub free_side : List Text → Option MarketSide → Option MarketSide
free_side held none = none
free_side held (some s) = if has_text s.token_id held then none else some s

abbrev pub gap_side : Option MarketSide → Option Side
gap_side none = none
gap_side (some s) = some (record {
  bids = s.bids;
  reward_range_min = s.reward_range_min;
  reward_range_max = s.reward_range_max;
  min_size = s.min_size;
})

abbrev pub wall_side : Option MarketSide → Option WallSide
wall_side none = none
wall_side (some s) = some (record {
  bids = s.bids;
  max_spread = s.max_spread;
  tick_size = s.tick_size;
  reward_range_min = s.reward_range_min;
  reward_range_max = s.reward_range_max;
  min_size = s.min_size;
})

-- What is left of the market's budget: its limit and the balance, less the value that is held.
pub record Budget : Type 0 where
  pub usd : ℕ
  pub shares : ℕ
  pub is_ok : Bool

unfoldable pub budget_of : PlaceTemplate → Held → Text → ℕ → Budget
unfolding sum_at ceil_div
budget_of t held mid balance =
    let value = sum_at mid held.value_by_market in
    let most = min balance t.max_exposure_usd in
    let shares = t.max_exposure_shares - whole_shares (sum_at mid held.shares_by_market) in
    record {
      usd = most - ceil_div value 1_000_000;
      shares = shares;
      is_ok = ltb value (most * 1_000_000) && ltb 0 shares;
    }

abbrev pub is_wall : PlaceTemplate → Bool
is_wall t = text_eq t.placement_mode (codes "legacy_wall")

-- The planned orders of both sides.
unfoldable pub ladders_of :
    PlaceTemplate
    → TierConf
    → ℕ
    → Budget
    → Option MarketSide
    → Option MarketSide
    → List (ℕ × ℕ) × List (ℕ × ℕ)
unfolding compute_market_single_orders compute_market_legacy_orders
ladders_of t tier balance b ca cb =
    if is_wall t
    then compute_market_legacy_orders (wall_side ca) (wall_side cb) b.usd b.shares
        (wall_settings t balance)
    else compute_market_single_orders (gap_side ca) (gap_side cb) b.usd b.shares
        (gap_settings t tier)

-- Where the size follows the balance, orders that are off by a tenth may stay.
abbrev pub tolerance : PlaceTemplate → ℕ
tolerance t =
    if is_wall t
      && (text_eq t.order_size_mode (codes "balance") || text_eq t.order_size_mode (codes "custom"))
    then 100_000
    else 10_000

abbrev pub is_reached : Option ℕ → ℕ → Bool
is_reached none placed = false
is_reached (some limit) placed = leb limit placed

-- The loop over `to_place`.
unfoldable pub place_all : Exchange → Option ℕ → Text → Text → List (ℕ × ℕ) → Round → Round
place_all x limit mid token [] r = r
place_all x limit mid token (o ∷ orders) r =
    let tried = sending (buy mid token o.0 o.1) r in
    let bought = record tried {
      placed = r.placed + 1;
      markets_with_open = add_text mid r.markets_with_open;
    } in
    let failed = place_all x limit mid token orders tried in
    let rest = place_all x limit mid token orders bought in
    if not (x.place_limit_buy token o.0 o.1)
    then failed
    else if is_reached limit (r.placed + 1)
    then record bought { stopped = true }
    else rest
