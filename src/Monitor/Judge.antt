-- ===== src/Monitor/Judge.antt =====
-- engine/monitor.py: what `_check_compliance` decides of a resting buy order whose book has been read.
use polymarket_rewards.Base.{
  ℕ, ◌+◌, ◌/◌, Bool, true, false, ◌&&◌, ◌||◌, not, Option, none, some, List, [], ◌∷◌, ltb, leb,
  if◌then◌else◌,
}
use polymarket_rewards.Base.Sort.{sort_by}
use polymarket_rewards.Gap.{Bid, bid_ge, has_cliff_below, max_gap_cents}
use polymarket_rewards.Place.{Book, ask_order, reward_price_range}
use polymarket_rewards.Monitor.Rewards.{MarketRewards}

-- The prices are millionths of a dollar; a threshold for the spread that is missing is `none`.
pub record MonitorSettings : Type 0 where
  pub max_spread : Option ℕ
  pub min_reward : ℕ
  pub min_price : ℕ
  pub max_price : ℕ
  pub cliff_probe : ℕ
  pub gap_veto : ℕ

-- What is done with an order; the order of the checks.
pub data Verdict : Type 0 where
  resting_sale part_filled blacklisted no_book spread_too_wide reward_dropped empty_book
        no_max_spread price_out_of_band out_of_range cliff gap_too_wide kept :
      Verdict

abbrev pub is_cancel : Verdict → Bool
is_cancel blacklisted = true
is_cancel spread_too_wide = true
is_cancel reward_dropped = true
is_cancel price_out_of_band = true
is_cancel out_of_range = true
is_cancel cliff = true
is_cancel gap_too_wide = true
is_cancel resting_sale = false
is_cancel part_filled = false
is_cancel no_book = false
is_cancel empty_book = false
is_cancel no_max_spread = false
is_cancel kept = false

-- The spread is read off the best bid and the best ask; a crossed book is under every threshold.
abbrev pub recheck_resting_buy : List Bid → List Bid → Option ℕ → Bool
recheck_resting_buy (b ∷ bids) (a ∷ asks) (some most) = leb (b.price + most) a.price
recheck_resting_buy (b ∷ bids) (a ∷ asks) none = false
recheck_resting_buy (b ∷ bids) [] most = false
recheck_resting_buy [] asks most = false

abbrev pub is_dropped_to : Option ℕ → ℕ → Bool
is_dropped_to none least = false
is_dropped_to (some rate) least = ltb rate least

-- From the price band on.
unfoldable pub judge_range : MonitorSettings → ℕ → List Bid → ℕ × ℕ → Verdict
judge_range t price bids (rmin, rmax) =
    if ltb price t.min_price || ltb t.max_price price
    then price_out_of_band
    else if not (leb rmin price && leb price rmax)
    then out_of_range
    else if has_cliff_below bids rmin t.cliff_probe
    then cliff
    else if ltb 0 t.gap_veto && ltb t.gap_veto (max_gap_cents bids)
    then gap_too_wide
    else kept

-- From the check for an empty book on.
unfoldable pub judge_book : MonitorSettings → ℕ → List Bid → List Bid → Option ℕ → Verdict
unfolding judge_range reward_price_range
judge_book t price [] asks max_spread = empty_book
judge_book t price (b ∷ bids) [] max_spread = empty_book
judge_book t price (b ∷ bids) (a ∷ asks) none = no_max_spread
judge_book t price (b ∷ bids) (a ∷ asks) (some cents) =
    judge_range t price (b ∷ bids) (reward_price_range ((b.price + a.price) / 2) cents)

-- The book has been sorted.
unfoldable pub judge_sorted : MonitorSettings → ℕ → List Bid → List Bid → MarketRewards → Verdict
unfolding judge_book
judge_sorted t price bids asks rewards =
    if recheck_resting_buy bids asks t.max_spread
    then spread_too_wide
    else if is_dropped_to rewards.1 t.min_reward
    then reward_dropped
    else judge_book t price bids asks rewards.0

unfoldable pub judge : MonitorSettings → ℕ → Option Book → MarketRewards → Verdict
unfolding judge_sorted
judge t price none rewards = no_book
judge t price (some ob) rewards =
    judge_sorted t price (sort_by bid_ge ob.bids) (sort_by ask_order ob.asks) rewards
