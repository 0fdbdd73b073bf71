-- ===== src/Wall/First.antt =====
-- engine/legacy_wall.py: the price is one level below the first place where the book is thick.
use polymarket_rewards.Base.{
  ℕ, zero, suc, ◌+◌, ◌*◌, ◌≤◌, ◌<◌, ◌≡◌, refl, inl, inr, true, false, none, some, List, [], ◌∷◌,
  arith, sym, ◌∙◌, ◌≢◌, ltb, leb, ◌==◌, ==_iff, tests, Bool-cases, get_elem?, take, sum_of,
}
use polymarket_rewards.Gap.{Bid}
use polymarket_rewards.Wall.Pricing.{
  whole_size, next_in_range, cumulative_from, spread2_coarse, within_depth, next_within, wall_from,
  spread_ge3_coarse, is_fine_tick, determine_order_price,
}

-- The level at `k` has the price, which lies in the reward range.
abbrev pub PricedAt : ℕ → ℕ → List Bid → ℕ → ℕ → Type 0
PricedAt lo hi bids price k =
    (b : Bid) × (get_elem? bids k ≡ some b) × (b.price ≡ price) × (lo ≤ price) × (price ≤ hi)

pub next_in_range-PricedAt :
    (lo hi : ℕ) (bids : List Bid) (price : ℕ)
    → next_in_range lo hi bids ≡ some price
    → PricedAt lo hi bids price 0
unfolding next_in_range
next_in_range-PricedAt lo hi [] price e = absurd (cc)
next_in_range-PricedAt lo hi (b ∷ bids) price e =
    (b, refl, ground arith, ground arith, ground arith)

-- With more than `cumulative` already added up.
cumulative_from_first :
    (lo hi threshold acc : ℕ) (bids : List Bid) (price : ℕ)
    → acc ≤ threshold
    → cumulative_from lo hi threshold acc bids ≡ some price
    → (k : ℕ) × PricedAt lo hi bids price (suc k)
      × (acc + sum_of whole_size (take k bids) ≤ threshold)
      × (threshold < acc + sum_of whole_size (take (suc k) bids))
unfolding cumulative_from
cumulative_from_first lo hi threshold acc [] price low e = absurd (cc)
cumulative_from_first lo hi threshold acc (b ∷ bids) price low e =
    elim (Bool-cases (ltb threshold (acc + whole_size b))) [
      | inl thick ↦
          (0, next_in_range-PricedAt lo hi bids price (rw thick at e), omega arith, omega tests)
      | inr thin ↦
          let (k, at, below, above) =
            cumulative_from_first lo hi threshold (acc + whole_size b) bids price (omega tests)
              (rw thin at e) in
          (suc k, at, omega arith, omega arith)
    ]

-- The first level thicker than the threshold is at `k`.
abbrev pub FirstThick : ℕ → List Bid → ℕ → Type 0
FirstThick threshold bids k =
    ((b : Bid) × (get_elem? bids k ≡ some b) × (threshold < whole_size b))
    × ((j : ℕ) (c : Bid) → j < k → get_elem? bids j ≡ some c → whole_size c ≤ threshold)

FirstThick-cons :
    (threshold : ℕ) (b : Bid) (bids : List Bid) (k : ℕ)
    → whole_size b ≤ threshold
    → FirstThick threshold bids k
    → FirstThick threshold (b ∷ bids) (suc k)
FirstThick-cons threshold b bids k thin (here, before) = (
  here,
  elim [ zero ↦ λ c lt e. ground (arith, thin) | suc j ↦ λ c lt e. before j c (omega arith) e ],
)

pub none≢some {ℓ} : {A : Type ℓ} {x : A} → none ≡ some x → ⊥
none≢some e = cc

pub next_within-PricedAt :
    (lo hi best depth : ℕ) (bids : List Bid) (price : ℕ)
    → next_within lo hi best depth bids ≡ some price
    → PricedAt lo hi bids price 0 × (best ≤ price + depth)
unfolding next_within
next_within-PricedAt lo hi best depth [] price e = absurd (cc)
next_within-PricedAt lo hi best depth (b ∷ bids) price e =
    ((b, refl, ground arith, ground arith, ground arith), ground arith)

FirstThick-here :
    (threshold : ℕ) (b : Bid) (bids : List Bid)
    → threshold < whole_size b
    → FirstThick threshold (b ∷ bids) 0
FirstThick-here threshold b bids thick = ((b, refl, thick), λ j c lt e. absurd (omega arith))

wall_from_first :
    (lo hi threshold best depth : ℕ) (bids : List Bid) (price : ℕ)
    → wall_from lo hi threshold best depth bids ≡ some price
    → (k : ℕ) × PricedAt lo hi bids price (suc k)
      × FirstThick threshold bids k
      × (best ≤ price + depth)
unfolding wall_from
wall_from_first lo hi threshold best depth [] price e = absurd (cc)
wall_from_first lo hi threshold best depth (b ∷ bids) price e =
    elim (Bool-cases (within_depth best depth b.price)) [
      | inr far ↦ absurd (none≢some (rw far at e))
      | inl near ↦ elim (Bool-cases (ltb threshold (whole_size b))) [
        | inl thick ↦
            let (at, deep) =
              next_within-PricedAt lo hi best depth bids price (rw (near, thick) at e) in
            (0, at, FirstThick-here threshold b bids (omega tests), deep)
        | inr thin ↦
            let (k, at, first, deep) =
              wall_from_first lo hi threshold best depth bids price (rw (near, thin) at e) in
            (suc k, at, FirstThick-cons threshold b bids k (omega tests) first, deep)
      ]
    ]

-- On a market with a fine tick, the order is at the level after the first one at which the whole
-- shares of the book, added up from the top, exceed the threshold, and its price is in the range.
pub cumulative_order_first :
    (bids : List Bid) (max_spread tick lo hi wall_threshold cumulative_threshold price : ℕ)
    → tick < 10_000
    → determine_order_price bids max_spread tick lo hi wall_threshold cumulative_threshold
      ≡ some price
    → (k : ℕ) × PricedAt lo hi bids price (suc k)
      × (sum_of whole_size (take k bids) ≤ cumulative_threshold)
      × (cumulative_threshold < sum_of whole_size (take (suc k) bids))
unfolding determine_order_price
cumulative_order_first bids max_spread tick lo hi wall_threshold cumulative_threshold price fine e =
    let test : is_fine_tick tick ≡ true = omega tests in
    let (k, at, below, above) =
      cumulative_from_first lo hi cumulative_threshold 0 bids price (omega arith) (rw test at e) in
    (k, at, omega arith, omega arith)

spread2_coarse_first :
    (lo hi threshold : ℕ) (bids : List Bid) (price : ℕ)
    → spread2_coarse lo hi threshold bids ≡ some price
    → PricedAt lo hi bids price 1 × FirstThick threshold bids 0
unfolding spread2_coarse
spread2_coarse_first lo hi threshold [] price e = absurd (cc)
spread2_coarse_first lo hi threshold (b ∷ bids) price e =
    elim (Bool-cases (leb (whole_size b) threshold)) [
      | inl thin ↦ absurd (none≢some (rw thin at e))
      | inr thick ↦ (
        next_in_range-PricedAt lo hi bids price (rw thick at e),
        FirstThick-here threshold b bids (omega tests),
      )
    ]

-- On a market with a coarse tick, the order is at the level after the first one whose whole shares
-- exceed the threshold, and its price is in the range; that first thick level is the best bid where
-- the spread is two cents, and elsewhere the price is at most the spread below the best bid.
pub wall_order_first :
    (b : Bid) (bids : List Bid)
    (max_spread tick lo hi wall_threshold cumulative_threshold price : ℕ)
    → 10_000 ≤ tick
    → determine_order_price (b ∷ bids) max_spread tick lo hi wall_threshold cumulative_threshold
      ≡ some price
    → (k : ℕ) × PricedAt lo hi (b ∷ bids) price (suc k)
      × FirstThick wall_threshold (b ∷ bids) k
      × (max_spread ≡ 2 → k ≡ 0)
      × (max_spread ≢ 2 → b.price ≤ price + max_spread * tick)
unfolding determine_order_price spread_ge3_coarse
wall_order_first b bids max_spread tick lo hi wall_threshold cumulative_threshold price coarse e =
    let test : is_fine_tick tick ≡ false = ground arith in
    elim (Bool-cases (max_spread == 2)) [
      | inl two ↦
          let (at, first) =
            spread2_coarse_first lo hi wall_threshold (b ∷ bids) price (rw (test, two) at e) in
          (0, at, first, λ e. refl, λ other. absurd (other ((==_iff max_spread 2).0 two)))
      | inr wide ↦
          let (k, at, first, deep) =
            wall_from_first lo hi wall_threshold b.price (max_spread * tick) (b ∷ bids) price
              (rw (test, wide) at e) in
          (
            k,
            at,
            first,
            λ same.
                absurd (let wrong : true ≡ false = sym ((==_iff max_spread 2).1 same) ∙ wide in cc),
            λ other. deep,
          )
    ]
