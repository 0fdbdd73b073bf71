-- ===== src/Monitor/Rewards.antt =====
-- engine/rewards.py; engine/monitor.py: `_market_rewards`, the rewards of a market behind a cache.
use polymarket_rewards.Base.{
  ℕ, ◌+◌, Bool, Option, none, some, List, [], ◌∷◌, ltb, if◌then◌else◌, is_empty,
}
use polymarket_rewards.Base.Text.{Text, text_eq}

-- An item of the answer. A field that is missing or no number is `none`. The spread is in hundredths of
-- a cent, the rates are in millionths of a dollar.
pub record RewardItem : Type 0 where
  pub rewards_max_spread : Option ℕ
  pub rewards_config : List (Option ℕ)

unfoldable pub extract_max_spread : List RewardItem → Option ℕ
extract_max_spread [] = none
extract_max_spread (it ∷ items) = elim it.rewards_max_spread [
  | some v ↦ some v
  | none ↦ extract_max_spread items
]

-- `total` where `found`, else `none`.
abbrev pub add_rate : Option ℕ → Option ℕ → Option ℕ
add_rate none total = total
add_rate (some v) none = some v
add_rate (some v) (some total) = some (total + v)

unfoldable pub add_rates : List (Option ℕ) → Option ℕ → Option ℕ
add_rates [] total = total
add_rates (v ∷ config) total = add_rates config (add_rate v total)

unfoldable pub rate_from : List RewardItem → Option ℕ → Option ℕ
unfolding add_rates
rate_from [] total = total
rate_from (it ∷ items) total = rate_from items (add_rates it.rewards_config total)

unfoldable pub extract_daily_rate : List RewardItem → Option ℕ
unfolding rate_from
extract_daily_rate items = rate_from items none

-- The greatest spread and the daily rate.
abbrev pub MarketRewards : Type 0
MarketRewards = Option ℕ × Option ℕ

-- An entry of `_rewards_cache`: the market, what was read, and when.
pub record Cached : Type 0 where
  pub market : Text
  pub rewards : MarketRewards
  pub time : ℕ

-- The dictionary's entry of a market, the newest first.
unfoldable pub cached_of : Text → List Cached → Option Cached
cached_of market [] = none
cached_of market (c ∷ cache) = if text_eq c.market market then some c else cached_of market cache

abbrev pub is_fresh : ℕ → ℕ → Cached → Bool
is_fresh now ttl hit = ltb now (hit.time + ttl)

-- What has been read is kept where it has a spread.
abbrev pub remember : Text → ℕ → MarketRewards → List Cached → List Cached
remember market now (none, rate) cache = cache
remember market now (some spread, rate) cache =
    record { market = market; rewards = (some spread, rate); time = now } ∷ cache

abbrev pub read_rewards :
    Text → ℕ → Option (List RewardItem) → List Cached → MarketRewards × List Cached
read_rewards market now none cache = ((none, none), cache)
read_rewards market now (some items) cache =
    let pair : MarketRewards = (extract_max_spread items, extract_daily_rate items) in
    (pair, remember market now pair cache)

abbrev pub ask_unless :
    Option Cached
    → ℕ
    → ℕ
    → Text
    → Option (List RewardItem)
    → List Cached
    → MarketRewards × List Cached
ask_unless none now ttl market answer cache = read_rewards market now answer cache
ask_unless (some hit) now ttl market answer cache =
    if is_fresh now ttl hit then (hit.rewards, cache) else read_rewards market now answer cache

-- The answer is what the exchange would say if it were asked, `none` for an error.
unfoldable pub market_rewards :
    Text
    → (now ttl : ℕ) → (answer : Option (List RewardItem)) → List Cached
    → MarketRewards × List Cached
unfolding cached_of extract_max_spread extract_daily_rate
market_rewards market now ttl answer cache =
    if is_empty market
    then ((none, none), cache)
    else ask_unless (cached_of market cache) now ttl market answer cache
