-- ===== src/Place/World.antt =====
-- engine/manager.py: what a round of `place_orders` is given and what it does. The answers of the
-- exchange and of the database are a record of functions, where `none` and `false` are exceptions;
-- what is sent is kept in order. The log of actions and its reasons are left out.
use polymarket_rewards.Base.{ℕ, Bool, Option, List, [], ◌∷◌, ◌++◌}
use polymarket_rewards.Base.Text.{Text}
use polymarket_rewards.Gap.{Bid}
use polymarket_rewards.Tiers.{TierConf}
use polymarket_rewards.Reconcile.{RestingBuy}
use polymarket_rewards.Place.Holdings.{Position}

-- One token of a market that passed the filter. The spread is in hundredths of a cent, the size in
-- millionths of a share.
pub record Candidate : Type 0 where
  pub market_id : Text
  pub token_id : Text
  pub rewards_max_spread : ℕ
  pub rewards_min_size : ℕ

pub record OpenOrder : Type 0 where
  pub market : Text
  pub asset_id : Text
  pub side : Text
  pub order : RestingBuy

pub record Book : Type 0 where
  pub bids : List Bid
  pub asks : List Bid
  pub tick_size : ℕ

pub record PlaceTemplate : Type 0 where
  pub size_tiers : List TierConf
  pub gap_wide : ℕ
  pub gap_mid : ℕ
  pub cliff_probe : ℕ
  pub gap_veto : ℕ
  pub max_exposure_usd : ℕ
  pub max_exposure_shares : ℕ
  pub max_concurrent_markets : ℕ
  pub placement_mode : Text
  pub legacy_wall_threshold : ℕ
  pub legacy_cumulative_threshold : ℕ
  pub order_size_mode : Text
  pub order_size_custom_usd : ℕ

-- The balance is read once for each market.
pub record Exchange : Type 0 where
  pub open_orders : Option (List OpenOrder)
  pub positions : Option (List Position)
  pub blacklist : List Text
  pub template : PlaceTemplate
  pub in_cooldown : Text → Bool
  pub uma_status : Text → Option Text
  pub get_orderbook : Text → Option Book
  pub get_balance : Text → Option ℕ
  pub cancel_orders : List Text → Bool
  pub place_limit_buy : Text → ℕ → ℕ → Bool

-- What is sent for a market: a cancellation, and a purchase of a token at a price for whole shares.
pub data Sent : Type 0 where
  cancel : (market : Text) (ids : List Text) → Sent
  buy : (market token : Text) (price shares : ℕ) → Sent

pub record Round : Type 0 where
  pub placed : ℕ
  pub markets_with_open : List Text
  pub sent : List Sent
  -- the limit is reached, and the function has returned
  pub stopped : Bool

abbrev pub sending : Sent → Round → Round
sending x r = record r { sent = r.sent ++ x ∷ [] }
