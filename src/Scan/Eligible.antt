-- ===== src/Scan/Eligible.antt =====
-- engine/scanner.py, engine/manager.py and engine/monitor.py: what is true of an eligible entry.
use polymarket_rewards.Base.{
  ℕ, ◌≤◌, ◌<◌, ◌≡◌, refl, sym, ◌∙◌, inl, inr, Bool, true, false, ◌&&◌, ◌||◌, not, Option, none,
  some, List, [], ◌∷◌, ltb, ◌==◌, not-leb→lt, not-ltb→le, Bool-cases, if_intro, any, keep, All,
  Within, All-Within, All-append, All-keep, &&-true,
}
use polymarket_rewards.Base.Sort.{sort_by}
use polymarket_rewards.Base.Text.{Text}
use polymarket_rewards.Gap.{Bid, bid_ge}
use polymarket_rewards.Tiers.{TierConf, tier_for, enabled_sizes}
use polymarket_rewards.Place.{Candidate, ask_order, whole_shares}
use polymarket_rewards.Monitor.{recheck_resting_buy}
use polymarket_rewards.Scan.Filter.{
  ScanToken, ScanBook, ScanMarket, ScanTemplate, book_spread, reward_of, in_settlement_window,
  is_too_new, market_in_categories, batch_rate, in_price_band, price_of, tokens_in_band,
  is_survivor, prefilter_for_template, candidate_from, is_wide, sorted_eligible, token_eligible,
  tokens_eligible, book_eligible, all_eligible, filter_for_template,
}
use polymarket_rewards.Scan.Spread.{book_spread_kept}

or-false : (a b : Bool) → (a || b) ≡ false → (a ≡ false) × (b ≡ false)
or-false true b h = absurd (cc)
or-false false b h = (refl, h)

not-true : (b : Bool) → not b ≡ true → b ≡ false
not-true true e = cc
not-true false e = refl

later-true : (a b : Bool) → (a || b) ≡ true → a ≡ false → b ≡ true
later-true true b e f = absurd (cc)
later-true false b e f = e

sizes_first :
    (t : TierConf) (tiers : List TierConf) (size : ℕ)
    → any (λ n. n == size) (enabled_sizes (t ∷ tiers))
      ≡ ((t.enabled && (t.size == size)) || any (λ n. n == size) (enabled_sizes tiers))
unfolding enabled_sizes
sizes_first t tiers size = elim (Bool-cases t.enabled) [
  | inl on ↦ rw on refl
  | inr off ↦ rw off refl
]

-- A size that an enabled tier has is found.
enabled-tier_for :
    (tiers : List TierConf) (size : ℕ)
    → any (λ n. n == size) (enabled_sizes tiers) ≡ true
    → (tier : TierConf) × (tier_for tiers size ≡ some tier)
unfolding enabled_sizes tier_for
enabled-tier_for [] size e = absurd (cc)
enabled-tier_for (t ∷ tiers) size e =
    if_intro (λ (o : Option TierConf). (tier : TierConf) × (o ≡ some tier))
      (t.enabled && (t.size == size)) (some t) (tier_for tiers size) (λ mine. (t, refl))
      (λ other.
        enabled-tier_for tiers size
          (later-true (t.enabled && (t.size == size)) _ (sym (sizes_first t tiers size) ∙ e) other))

-- What has been checked of a market.
abbrev pub IsWanted : (Text → Bool) → ScanTemplate → ScanMarket → Type 0
IsWanted in_cooldown t m =
    (market_in_categories m.tags t.included_categories t.include_other ≡ true)
    × (t.min_reward ≤ batch_rate m)
    × (t.min_reward ≤ reward_of m)
    × (in_settlement_window t m.settlement_days ≡ true)
    × (is_too_new t m ≡ false)
    × (in_cooldown m.condition_id ≡ false)
    × ((tier : TierConf) × (tier_for t.size_tiers (whole_shares m.rewards_min_size) ≡ some tier))

is_survivor-IsWanted :
    (in_cooldown : Text → Bool) (t : ScanTemplate) (m : ScanMarket)
    → is_survivor in_cooldown t m ≡ true
    → IsWanted in_cooldown t m
unfolding is_survivor
is_survivor-IsWanted in_cooldown t m e =
    let (wanted, e1) = &&-true _ _ e in
    let (pays, e2) = &&-true _ _ e1 in
    let (window, e3) = &&-true _ _ e2 in
    let (old, e4) = &&-true _ _ e3 in
    let (warm, e5) = &&-true _ _ e4 in
    let (sized, priced) = &&-true _ _ e5 in
    let (batch, reward) = or-false _ _ (not-true _ pays) in
    (
      wanted,
      not-ltb→le (batch_rate m) t.min_reward batch,
      not-ltb→le (reward_of m) t.min_reward reward,
      window,
      not-true _ old,
      not-true _ warm,
      enabled-tier_for t.size_tiers (whole_shares m.rewards_min_size) sized,
    )

-- The entry is of a market of the pool, which is wanted, and of one of its tokens, whose price is in the
-- band; the token's book has bids and asks, with the best bid in the band and a spread under the
-- threshold.
abbrev pub IsEligible : (Text → Bool) → ScanTemplate → List ScanMarket → Candidate → Type 0
IsEligible in_cooldown t pool c =
    (m : ScanMarket) × (k : ScanToken) × (book : ScanBook) × (c ≡ candidate_from m k)
    × Within m pool
    × Within k m.tokens
    × IsWanted in_cooldown t m
    × (in_price_band t (price_of k) ≡ true)
    × (m.books k.token_id ≡ some book)
    × ((b : Bid) × (bids : List Bid) × (a : Bid) × (asks : List Bid) × (sort_by bid_ge book.bids
          ≡ b ∷ bids)
        × (sort_by ask_order book.asks ≡ a ∷ asks)
        × (t.min_price ≤ b.price)
        × (b.price ≤ t.max_price))
    × ((spread : ℕ) × (book_spread book.bids book.asks ≡ some spread) × (spread < t.max_spread))
    × (recheck_resting_buy (sort_by bid_ge book.bids) (sort_by ask_order book.asks)
          (some t.max_spread)
        ≡ false)

-- The spreads of the market's books have been taken from them.
abbrev pub IsRefreshed : ScanMarket → Type 0
IsRefreshed m =
    (token : Text) (book : ScanBook)
    → m.books token ≡ some book
    → book.spread ≡ book_spread book.bids book.asks

module _ (in_cooldown : Text → Bool) (t : ScanTemplate) (pool : List ScanMarket) where
  abbrev Entries : List Candidate → Type 0
  Entries cs = All (IsEligible in_cooldown t pool) cs

  -- The spread is under the threshold, and so the recheck keeps an order.
  abbrev Narrow : List Bid → List Bid → Type 0
  Narrow bids asks =
      ((spread : ℕ) × (book_spread bids asks ≡ some spread) × (spread < t.max_spread))
      × (recheck_resting_buy (sort_by bid_ge bids) (sort_by ask_order asks) (some t.max_spread)
          ≡ false)

  narrow :
      (spread : Option ℕ) (bids asks : List Bid)
      → spread ≡ book_spread bids asks
      → is_wide spread t.max_spread ≡ false
      → Narrow bids asks
  narrow none bids asks same e = absurd (cc)
  narrow (some spread) bids asks same e =
      let small = not-leb→lt t.max_spread spread e in
      ((spread, sym same, small), book_spread_kept bids asks spread t.max_spread (sym same) small)

  module _ (m : ScanMarket) (pooled : Within m pool) (wanted : IsWanted in_cooldown t m)
      (refreshed : IsRefreshed m) where
    sorted_eligible-Entries :
        (k : ScanToken) (own : Within k m.tokens) (book : ScanBook) (bids asks : List Bid)
        → in_price_band t (price_of k) ≡ true
        → m.books k.token_id ≡ some book
        → Narrow book.bids book.asks
        → sort_by bid_ge book.bids ≡ bids
        → sort_by ask_order book.asks ≡ asks
        → Entries (sorted_eligible t m k bids asks)
    unfolding sorted_eligible
    sorted_eligible-Entries k own book [] asks band found small bs as' = tt
    sorted_eligible-Entries k own book (b ∷ bids) [] band found small bs as' = tt
    sorted_eligible-Entries k own book (b ∷ bids) (a ∷ asks) band found small bs as' =
        if_intro Entries (ltb b.price t.min_price || ltb t.max_price b.price) []
          (candidate_from m k ∷ []) (λ out. tt)
          (λ inside.
            let (above, below) = or-false _ _ inside in
            (
              (
                m,
                k,
                book,
                refl,
                pooled,
                own,
                wanted,
                band,
                found,
                (
                  b,
                  bids,
                  a,
                  asks,
                  bs,
                  as',
                  not-ltb→le b.price t.min_price above,
                  not-ltb→le t.max_price b.price below,
                ),
                small.0,
                small.1,
              ),
              tt,
            ))

    token_eligible-Entries :
        (k : ScanToken) (own : Within k m.tokens) (found : Option ScanBook)
        → in_price_band t (price_of k) ≡ true
        → m.books k.token_id ≡ found
        → Entries (token_eligible t m k found)
    unfolding token_eligible
    token_eligible-Entries k own none band found = tt
    token_eligible-Entries k own (some book) band found =
        if_intro Entries (is_wide book.spread t.max_spread) []
          (sorted_eligible t m k (sort_by bid_ge book.bids) (sort_by ask_order book.asks))
          (λ wide. tt)
          (λ fits.
            sorted_eligible-Entries k own book (sort_by bid_ge book.bids)
              (sort_by ask_order book.asks) band found
              (narrow book.spread book.bids book.asks (refreshed k.token_id book found) fits) refl
              refl)

    tokens_eligible-Entries :
        (tokens : List ScanToken)
        → All (λ (k : ScanToken). in_price_band t (price_of k) ≡ true) tokens
        → All (λ (k : ScanToken). Within k m.tokens) tokens
        → Entries (tokens_eligible t m tokens)
    unfolding tokens_eligible
    tokens_eligible-Entries [] band own = tt
    tokens_eligible-Entries (k ∷ tokens) band own =
        All-append (IsEligible in_cooldown t pool) (token_eligible t m k (m.books k.token_id))
          (tokens_eligible t m tokens)
          (token_eligible-Entries k own.0 (m.books k.token_id) band.0 refl)
          (tokens_eligible-Entries tokens band.1 own.1)

  keep-true {ℓ} :
      {A : Type ℓ} (p : A → Bool) (xs : List A) → All (λ (x : A). p x ≡ true) (keep p xs)
  keep-true p [] = tt
  keep-true p (x ∷ xs) = elim (Bool-cases (p x)) [
    | inl stays ↦ rw stays (stays, keep-true p xs)
    | inr goes ↦ rw goes (keep-true p xs)
  ]

  all_eligible-Entries :
      (markets : List ScanMarket)
      → All (λ (m : ScanMarket). is_survivor in_cooldown t m ≡ true) markets
      → All IsRefreshed markets
      → All (λ (m : ScanMarket). Within m pool) markets
      → Entries (all_eligible t markets)
  unfolding all_eligible book_eligible
  all_eligible-Entries [] wanted refreshed pooled = tt
  all_eligible-Entries (m ∷ markets) wanted refreshed pooled =
      All-append (IsEligible in_cooldown t pool) (tokens_eligible t m (tokens_in_band t m))
        (all_eligible t markets)
        (tokens_eligible-Entries m pooled.0 (is_survivor-IsWanted in_cooldown t m wanted.0)
          refreshed.0 (tokens_in_band t m)
          (keep-true (λ (k : ScanToken). in_price_band t (price_of k)) m.tokens)
          (All-keep (λ (k : ScanToken). Within k m.tokens)
            (λ (k : ScanToken). in_price_band t (price_of k)) m.tokens (All-Within m.tokens)))
        (all_eligible-Entries markets wanted.1 refreshed.1 pooled.1)

-- With refreshed books, every eligible entry is one of the tokens of a market of the pool. The market
-- is in the template's categories, pays the minimum reward by both of its rates, settles in the window,
-- is not too new and not cooling down, and its size has an enabled tier; the price of the token and the
-- best bid are in the price band, and the spread of the book is under the template's, so that the
-- recheck would keep an order on it.
pub filter_for_template-IsEligible :
    (in_cooldown : Text → Bool) (t : ScanTemplate) (pool : List ScanMarket)
    → All IsRefreshed pool
    → All (IsEligible in_cooldown t pool) (filter_for_template in_cooldown t pool)
unfolding filter_for_template prefilter_for_template
filter_for_template-IsEligible in_cooldown t pool refreshed =
    all_eligible-Entries in_cooldown t pool (keep (is_survivor in_cooldown t) pool)
      (keep-true in_cooldown t pool (is_survivor in_cooldown t) pool)
      (All-keep IsRefreshed (is_survivor in_cooldown t) pool refreshed)
      (All-keep (λ (m : ScanMarket). Within m pool) (is_survivor in_cooldown t) pool
        (All-Within pool))
