-- ===== src/Gap/Cliff.antt =====
-- engine/laddering.py: `has_cliff_below` against the band below the reward range.
use polymarket_rewards.Base.{
  ℕ, ◌+◌, ◌≤◌, ◌<◌, ◌≡◌, ◌↔◌, refl, ◌⊎◌, true, false, List, [], ◌∷◌, arith, any, is_empty, All,
}
use polymarket_rewards.Gap.Book.{Bid, in_band, has_cliff_below}

-- The bid is below the band, or in the reward range or above it.
abbrev pub Outside : ℕ → ℕ → Bid → Type 0
Outside lo probe b = (b.price + probe < lo) ⊎ (lo ≤ b.price)

none_in_band :
    (lo probe : ℕ) (bids : List Bid)
    → (any (in_band lo probe) bids ≡ false) ↔ All (Outside lo probe) bids
none_in_band lo probe [] = (λ e. tt, λ h. refl)
none_in_band lo probe (b ∷ bids) =
    let ih = none_in_band lo probe bids in (λ e. ground (arith, ih.0), λ h. ground (arith, ih.1))

-- There is a cliff exactly when the check is on, the book has bids, and none of them lies within
-- the probed distance below the reward range.
pub has_cliff_below_iff :
    (bids : List Bid) (lo probe : ℕ)
    → (has_cliff_below bids lo probe ≡ true)
      ↔ ((0 < probe) × (is_empty bids ≡ false) × All (Outside lo probe) bids)
unfolding has_cliff_below
has_cliff_below_iff bids lo probe =
    let b = none_in_band lo probe bids in (λ e. ground (arith, b.0), λ h. ground (arith, b.1))
