-- ===== src/Wall/Agree.antt =====
-- engine/legacy_wall.py: the level that the explanation names is the one the price was taken under.
use polymarket_rewards.Base.{
  ℕ, suc, ◌+◌, ◌*◌, ◌≡◌, refl, sym, ap, ◌∙◌, inl, inr, true, false, ◌||◌, Option, none, some, List,
  [], ◌∷◌, arith, ltb, leb, ◌==◌, tests, Bool-cases, is_empty, take,
}
use polymarket_rewards.Gap.{Bid, has_cliff_below}
use polymarket_rewards.Wall.Pricing.{
  whole_size, cumulative_from, spread2_coarse, within_depth, wall_from, spread_ge3_coarse,
  is_fine_tick, determine_order_price,
}
use polymarket_rewards.Wall.Explain.{
  WallSettings, WallDecision, levels_from, take_within, scan_coarse, scanned, is_hit, first_hit,
  place_shares, finish, with_hit, explain_legacy_order,
}
use polymarket_rewards.Wall.First.{
  PricedAt, none≢some, next_in_range-PricedAt, next_within-PricedAt,
}

-- The hit, counted from `i`, is one level above the price.
abbrev HitAbove : ℕ → ℕ → List Bid → ℕ → ℕ → Option (ℕ × ℕ × ℕ) → Type 0
HitAbove lo hi bids price i hit =
    (k size cum : ℕ) × (hit ≡ some (i + k, size, cum)) × PricedAt lo hi bids price (suc k)

HitAbove-cons :
    (lo hi : ℕ) (b : Bid) (bids : List Bid) (price i : ℕ) (hit : Option (ℕ × ℕ × ℕ))
    → HitAbove lo hi bids price (i + 1) hit
    → HitAbove lo hi (b ∷ bids) price i hit
HitAbove-cons lo hi b bids price i hit (k, size, cum, e, at) =
    (suc k, size, cum, e ∙ ap (λ n. some (n, size, cum)) (omega arith), at)

HitAbove-here :
    (lo hi : ℕ) (b : Bid) (bids : List Bid) (price i size cum : ℕ)
    → PricedAt lo hi bids price 0
    → HitAbove lo hi (b ∷ bids) price i (some (i, size, cum))
HitAbove-here lo hi b bids price i size cum at =
    (0, size, cum, ap (λ n. some (n, size, cum)) (omega arith), at)

cumulative-HitAbove :
    (lo hi wall_threshold threshold acc i : ℕ) (bids : List Bid) (price : ℕ)
    → cumulative_from lo hi threshold acc bids ≡ some price
    → HitAbove lo hi bids price i
        (first_hit (is_hit true wall_threshold threshold) i (levels_from acc bids))
unfolding cumulative_from levels_from first_hit
cumulative-HitAbove lo hi wall_threshold threshold acc i [] price e = absurd (none≢some e)
cumulative-HitAbove lo hi wall_threshold threshold acc i (b ∷ bids) price e =
    elim (Bool-cases (ltb threshold (acc + whole_size b))) [
      | inl thick ↦ rw thick (
          HitAbove-here lo hi b bids price i b.size (acc + whole_size b)
            (next_in_range-PricedAt lo hi bids price (rw thick at e)))
      | inr thin ↦ rw thin (
          HitAbove-cons lo hi b bids price i _ (
            cumulative-HitAbove lo hi wall_threshold threshold (acc + whole_size b) (i + 1) bids
              price (rw thin at e)))
    ]

wall-HitAbove :
    (lo hi threshold cumulative best depth acc i : ℕ) (bids : List Bid) (price : ℕ)
    → wall_from lo hi threshold best depth bids ≡ some price
    → HitAbove lo hi bids price i (
        first_hit
          (is_hit false threshold cumulative)
          i
          (take_within best depth (levels_from acc bids)))
unfolding wall_from levels_from take_within first_hit
wall-HitAbove lo hi threshold cumulative best depth acc i [] price e = absurd (none≢some e)
wall-HitAbove lo hi threshold cumulative best depth acc i (b ∷ bids) price e =
    elim (Bool-cases (within_depth best depth b.price)) [
      | inr far ↦ absurd (none≢some (rw far at e))
      | inl near ↦ elim (Bool-cases (ltb threshold (whole_size b))) [
        | inl thick ↦
            rw (near, thick)
              (HitAbove-here lo hi b bids price i b.size (acc + whole_size b)
                (next_within-PricedAt lo hi best depth bids price (rw (near, thick) at e)).0)
        | inr thin ↦
            rw (near, thin)
              (HitAbove-cons lo hi b bids price i _ (
                wall-HitAbove lo hi threshold cumulative best depth (acc + whole_size b) (i + 1)
                  bids price (rw (near, thin) at e)))
      ]
    ]

spread2-HitAbove :
    (lo hi threshold cumulative : ℕ) (bids : List Bid) (price : ℕ)
    → spread2_coarse lo hi threshold bids ≡ some price
    → HitAbove lo hi bids price 0
        (first_hit (is_hit false threshold cumulative) 0 (take 1 (levels_from 0 bids)))
unfolding spread2_coarse levels_from first_hit
spread2-HitAbove lo hi threshold cumulative [] price e = absurd (none≢some e)
spread2-HitAbove lo hi threshold cumulative (b ∷ bids) price e =
    elim (Bool-cases (leb (whole_size b) threshold)) [
      | inl thin ↦ absurd (none≢some (rw thin at e))
      | inr thick ↦
          let over : ltb threshold (whole_size b) ≡ true = omega tests in
          rw over (
            HitAbove-here lo hi b bids price 0 b.size (0 + whole_size b)
              (next_in_range-PricedAt lo hi bids price (rw thick at e)))
    ]

wide-HitAbove :
    (lo hi threshold cumulative max_spread tick : ℕ) (bids : List Bid) (price : ℕ)
    → spread_ge3_coarse max_spread tick lo hi threshold bids ≡ some price
    → HitAbove lo hi bids price 0 (
        first_hit
          (is_hit false threshold cumulative)
          0
          (scan_coarse max_spread tick (levels_from 0 bids)))
unfolding spread_ge3_coarse scan_coarse levels_from
wide-HitAbove lo hi threshold cumulative max_spread tick [] price e = absurd (none≢some e)
wide-HitAbove lo hi threshold cumulative max_spread tick (b ∷ bids) price e =
    wall-HitAbove lo hi threshold cumulative b.price (max_spread * tick) 0 0 (b ∷ bids) price e

determine-HitAbove :
    (bids : List Bid) (max_spread tick lo hi threshold cumulative price : ℕ)
    → determine_order_price bids max_spread tick lo hi threshold cumulative ≡ some price
    → HitAbove lo hi bids price 0 (
        first_hit
          (is_hit (is_fine_tick tick) threshold cumulative)
          0
          (scanned max_spread tick (levels_from 0 bids)))
unfolding determine_order_price scanned
determine-HitAbove bids max_spread tick lo hi threshold cumulative price e =
    elim (Bool-cases (is_fine_tick tick)) [
      | inl fine ↦
          rw fine (cumulative-HitAbove lo hi threshold cumulative 0 0 bids price (rw fine at e))
      | inr coarse ↦ elim (Bool-cases (max_spread == 2)) [
        | inl two ↦
            rw (coarse, two)
              (spread2-HitAbove lo hi threshold cumulative bids price (rw (coarse, two) at e))
        | inr wide ↦
            rw (coarse, wide)
              (wide-HitAbove lo hi threshold cumulative max_spread tick bids price
                (rw (coarse, wide) at e))
      ]
    ]

place_shares-order :
    (p : ℕ) (d : WallDecision) (sized : Option ℕ) (price shares : ℕ)
    → d.order ≡ none
    → (place_shares p d sized).order ≡ some (price, shares)
    → (p ≡ price) × ((place_shares p d sized).hit ≡ d.hit)
unfolding place_shares
place_shares-order p d none price shares empty e = absurd (none≢some (sym empty ∙ e))
place_shares-order p d (some n) price shares empty e = (cc, refl)

finish-order :
    (w : WallSettings) (min_size : ℕ) (o : Option ℕ) (d : WallDecision) (price shares : ℕ)
    → d.order ≡ none
    → (finish w min_size d o).order ≡ some (price, shares)
    → (o ≡ some price) × ((finish w min_size d o).hit ≡ d.hit)
unfolding finish
finish-order w min_size none d price shares empty e = absurd (none≢some (sym empty ∙ e))
finish-order w min_size (some p) d price shares empty e =
    let (same, hit) = place_shares-order p d _ price shares empty e in (ap some same, hit)

-- The level of the hit is the one right above the level that has the price.
abbrev pub NamesWall : ℕ → ℕ → List Bid → ℕ → WallDecision → Type 0
NamesWall lo hi bids price d =
    (k size cum : ℕ) × (d.hit ≡ some (k, size, cum)) × PricedAt lo hi bids price (suc k)

finish-NamesWall :
    (bids : List Bid) (max_spread tick lo hi min_size : ℕ) (w : WallSettings) (price shares : ℕ)
    → let o =
        determine_order_price bids max_spread tick lo hi w.wall_threshold w.cumulative_threshold in
      let d = finish w min_size (with_hit bids max_spread tick w) o in
      d.order ≡ some (price, shares) → NamesWall lo hi bids price d
unfolding with_hit
finish-NamesWall bids max_spread tick lo hi min_size w price shares e =
    let (priced, same) = finish-order w min_size _ _ price shares refl e in
    let (k, size, cum, hit, at) =
      determine-HitAbove bids max_spread tick lo hi w.wall_threshold w.cumulative_threshold price
        priced in
    (k, size, cum, same ∙ hit ∙ ap (λ n. some (n, size, cum)) (omega arith), at)

-- When the explanation places an order, the level it names as hit is the one right above the level
-- whose price the order has, and that price lies in the reward range.
pub explain_legacy_order-NamesWall :
    (bids : List Bid) (max_spread tick lo hi min_size : ℕ) (w : WallSettings) (price shares : ℕ)
    → (explain_legacy_order bids max_spread tick lo hi min_size w).order ≡ some (price, shares)
    → NamesWall lo hi bids price (explain_legacy_order bids max_spread tick lo hi min_size w)
unfolding explain_legacy_order
explain_legacy_order-NamesWall bids max_spread tick lo hi min_size w price shares e =
    elim (Bool-cases (is_empty bids || (min_size == 0))) [
      | inl nothing ↦ absurd (none≢some (rw nothing at e))
      | inr book ↦ elim (Bool-cases (has_cliff_below bids lo w.cliff_probe)) [
        | inl cliff ↦ absurd (none≢some (rw (book, cliff) at e))
        | inr held ↦
            rw (book, held)
              (finish-NamesWall bids max_spread tick lo hi min_size w price shares
                (rw (book, held) at e))
      ]
    ]
