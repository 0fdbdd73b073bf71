-- ===== src/Scan/Filter.antt =====
-- engine/scanner.py: `prefilter_for_template`, `book_eligible` and `filter_for_template`; engine/categories.py:
-- `market_in_categories`. The dates of a market have been read: the days to its settlement, and its age.
use polymarket_rewards.Base.{
  ℕ, ◌+◌, ◌-◌, ◌*◌, Bool, true, false, ◌&&◌, ◌||◌, not, Option, none, some, List, [], ◌∷◌, ◌++◌,
  any, keep, leb, ltb, ◌==◌, if◌then◌else◌, is_empty, max, min, or_zero, sum_of,
}
use polymarket_rewards.Base.Sort.{sort_by}
use polymarket_rewards.Base.Int.{ℤ, pos_part, neg_part}
use polymarket_rewards.Base.Text.{Text}
use polymarket_rewards.Gap.{Bid, bid_ge}
use polymarket_rewards.Tiers.{TierConf, enabled_sizes}
use polymarket_rewards.Place.{Candidate, ask_order, has_text, whole_shares}

pub record ScanToken : Type 0 where
  pub token_id : Text
  pub price : Option ℕ

-- A refreshed book with its spread; `none` is the code's -1.
pub record ScanBook : Type 0 where
  pub bids : List Bid
  pub asks : List Bid
  pub spread : Option ℕ

-- `rates` are the daily rates of `rewards_config`; `books` is `_orderbooks`. The days and the age, in
-- millionths of an hour, are `none` where the date cannot be read.
pub record ScanMarket : Type 0 where
  pub condition_id : Text
  pub tags : List Text
  pub rates : List ℕ
  pub market_reward : Option ℕ
  pub settlement_days : Option ℤ
  pub age_hours : Option ℤ
  pub rewards_max_spread : Option ℕ
  pub rewards_min_size : ℕ
  pub tokens : List ScanToken
  pub books : Text → Option ScanBook

pub record ScanTemplate : Type 0 where
  pub min_reward : ℕ
  pub min_price : ℕ
  pub max_price : ℕ
  pub min_settlement_days : Option ℤ
  pub max_settlement_days : Option ℤ
  pub included_categories : List Text
  pub include_other : Bool
  pub size_tiers : List TierConf
  pub skip_new_markets : Bool
  pub new_market_hours : ℕ
  pub skip_new_categories : List Text
  pub skip_new_other : Bool
  pub max_spread : ℕ

unfoldable pub max_price_of : List Bid → ℕ
max_price_of [] = 0
max_price_of (b ∷ bids) = max b.price (max_price_of bids)

unfoldable pub min_price_of : ℕ → List Bid → ℕ
min_price_of first [] = first
min_price_of first (a ∷ asks) = min_price_of (min first a.price) asks

-- A crossed book has the spread 0.
unfoldable pub book_spread : List Bid → List Bid → Option ℕ
unfolding max_price_of min_price_of
book_spread [] asks = none
book_spread (b ∷ bids) [] = none
book_spread (b ∷ bids) (a ∷ asks) = some (min_price_of a.price asks - max_price_of (b ∷ bids))

unfoldable pub market_in_categories : List Text → List Text → (include_untagged : Bool) → Bool
market_in_categories tags slugs include_untagged =
    any (λ s. has_text s tags) slugs || (include_untagged && is_empty tags)

abbrev pub batch_rate : ScanMarket → ℕ
batch_rate m = sum_of (λ (r : ℕ). r) m.rates

abbrev pub reward_of : ScanMarket → ℕ
reward_of m = elim m.market_reward [ none ↦ batch_rate m | some r ↦ r ]

abbrev pub is_before : ℤ → ℤ → Bool
is_before a b = ltb (pos_part a + neg_part b) (pos_part b + neg_part a)

abbrev pub is_too_soon : Option ℤ → ℤ → Bool
is_too_soon none d = false
is_too_soon (some least) d = is_before d least

abbrev pub is_too_late : Option ℤ → ℤ → Bool
is_too_late none d = false
is_too_late (some most) d = is_before most d

-- A market whose day cannot be read stays.
abbrev pub in_settlement_window : ScanTemplate → Option ℤ → Bool
in_settlement_window t none = true
in_settlement_window t (some d) =
    not (is_too_soon t.min_settlement_days d) && not (is_too_late t.max_settlement_days d)

abbrev pub is_younger : Option ℤ → ℕ → Bool
is_younger none hours = false
is_younger (some age) hours = ltb (pos_part age) (hours + neg_part age)

-- The protected categories count where they are traded.
abbrev pub is_too_new : ScanTemplate → ScanMarket → Bool
is_too_new t m =
    t.skip_new_markets
    && (ltb 0 t.new_market_hours
        && (market_in_categories m.tags
              (keep (λ c. has_text c t.included_categories) t.skip_new_categories)
              (t.skip_new_other && t.include_other)
            && is_younger m.age_hours t.new_market_hours))

abbrev pub price_of : ScanToken → ℕ
price_of k = or_zero k.price

abbrev pub in_price_band : ScanTemplate → ℕ → Bool
in_price_band t price = leb t.min_price price && leb price t.max_price

abbrev pub tokens_in_band : ScanTemplate → ScanMarket → List ScanToken
tokens_in_band t m = keep (λ k. in_price_band t (price_of k)) m.tokens

-- The tests of the loop, in their order; each `continue` is negated.
unfoldable pub is_survivor : (in_cooldown : Text → Bool) → ScanTemplate → ScanMarket → Bool
unfolding market_in_categories enabled_sizes
is_survivor in_cooldown t m =
    market_in_categories m.tags t.included_categories t.include_other
    && (not (ltb (batch_rate m) t.min_reward || ltb (reward_of m) t.min_reward)
        && (in_settlement_window t m.settlement_days
            && (not (is_too_new t m)
                && (not (in_cooldown m.condition_id)
                    && (any (λ n. n == whole_shares m.rewards_min_size) (enabled_sizes t.size_tiers)
                        && any (λ k. in_price_band t (price_of k)) m.tokens)))))

unfoldable pub prefilter_for_template :
    (in_cooldown : Text → Bool) → ScanTemplate → List ScanMarket → List ScanMarket
unfolding is_survivor
prefilter_for_template in_cooldown t pool = keep (is_survivor in_cooldown t) pool

-- The size is a whole number of shares; the spread is 2 cents where it is missing.
abbrev pub candidate_from : ScanMarket → ScanToken → Candidate
candidate_from m k = record {
  market_id = m.condition_id;
  token_id = k.token_id;
  rewards_max_spread = elim m.rewards_max_spread [ none ↦ 200 | some cents ↦ cents ];
  rewards_min_size = whole_shares m.rewards_min_size * 1_000_000;
}

-- `spread_val < 0 or spread_val * 100 >= max_spread_cents`
abbrev pub is_wide : Option ℕ → ℕ → Bool
is_wide none most = true
is_wide (some spread) most = leb most spread

-- The book has been sorted.
unfoldable pub sorted_eligible :
    ScanTemplate → ScanMarket → ScanToken → List Bid → List Bid → List Candidate
sorted_eligible t m k [] asks = []
sorted_eligible t m k (b ∷ bids) [] = []
sorted_eligible t m k (b ∷ bids) (a ∷ asks) =
    if ltb b.price t.min_price || ltb t.max_price b.price then [] else candidate_from m k ∷ []

unfoldable pub token_eligible :
    ScanTemplate → ScanMarket → ScanToken → Option ScanBook → List Candidate
unfolding sorted_eligible
token_eligible t m k none = []
token_eligible t m k (some book) =
    if is_wide book.spread t.max_spread
    then []
    else sorted_eligible t m k (sort_by bid_ge book.bids) (sort_by ask_order book.asks)

unfoldable pub tokens_eligible : ScanTemplate → ScanMarket → List ScanToken → List Candidate
unfolding token_eligible
tokens_eligible t m [] = []
tokens_eligible t m (k ∷ tokens) =
    token_eligible t m k (m.books k.token_id) ++ tokens_eligible t m tokens

unfoldable pub book_eligible : ScanTemplate → ScanMarket → List Candidate
unfolding tokens_eligible
book_eligible t m = tokens_eligible t m (tokens_in_band t m)

unfoldable pub all_eligible : ScanTemplate → List ScanMarket → List Candidate
unfolding book_eligible
all_eligible t [] = []
all_eligible t (m ∷ markets) = book_eligible t m ++ all_eligible t markets

unfoldable pub filter_for_template :
    (in_cooldown : Text → Bool) → ScanTemplate → List ScanMarket → List Candidate
unfolding all_eligible prefilter_for_template
filter_for_template in_cooldown t pool = all_eligible t (prefilter_for_template in_cooldown t pool)
