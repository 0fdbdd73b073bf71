-- ===== src/Monitor/Agree.antt =====
-- engine/monitor.py and engine/laddering.py: which orders the recheck leaves alone, and that an order is
-- left alone on the book on which the gap mode has planned it.
use polymarket_rewards.Base.{
  ℕ, ◌+◌, ◌/◌, ◌≤◌, ◌≡◌, refl, ◌⊎◌, inl, inr, Bool, true, false, ◌&&◌, ◌||◌, not, Option, some,
  List, ◌∷◌, arith, ltb, leb, not-ltb→le, leb→le, le→leb, if◌then◌else◌, &&-true,
}
use polymarket_rewards.Gap.{Bid, has_cliff_below, max_gap_cents}
use polymarket_rewards.Place.{reward_price_range}
use polymarket_rewards.Monitor.{
  MonitorSettings, Verdict, spread_too_wide, reward_dropped, price_out_of_band, out_of_range, cliff,
  gap_too_wide, kept, recheck_resting_buy, is_dropped_to, judge_range, judge_book, judge_sorted,
}

-- The price is within both ranges, and the book is supported below the range and has no gap over the
-- limit, where there is one.
abbrev pub IsFine : MonitorSettings → ℕ → List Bid → ℕ × ℕ → Type 0
IsFine t price bids (rmin, rmax) =
    (t.min_price ≤ price)
    × (price ≤ t.max_price)
    × (rmin ≤ price)
    × (price ≤ rmax)
    × (has_cliff_below bids rmin t.cliff_probe ≡ false)
    × ((t.gap_veto ≡ 0) ⊎ (max_gap_cents bids ≤ t.gap_veto))

-- The five tests of `judge_range`, each on what it decides.
abbrev pub first_of : (a b c d : Bool) → Verdict
first_of a b c d =
    if a
    then price_out_of_band
    else if not b
    then out_of_range
    else if c
    then cliff
    else if d
    then gap_too_wide
    else kept

first_of-kept :
    (a b c d : Bool)
    → ((first_of a b c d ≡ kept) → (a ≡ false) × (b ≡ true) × (c ≡ false) × (d ≡ false))
      × ((a ≡ false) → (b ≡ true) → (c ≡ false) → (d ≡ false) → first_of a b c d ≡ kept)
first_of-kept true b c d = (λ e. absurd (cc), λ a' b' c' d'. absurd (cc))
first_of-kept false false c d = (λ e. absurd (cc), λ a' b' c' d'. absurd (cc))
first_of-kept false true true d = (λ e. absurd (cc), λ a' b' c' d'. absurd (cc))
first_of-kept false true false true = (λ e. absurd (cc), λ a' b' c' d'. absurd (cc))
first_of-kept false true false false = (λ e. (refl, refl, refl, refl), λ a' b' c' d'. refl)

le→not-ltb : (a b : ℕ) → b ≤ a → ltb a b ≡ false
le→not-ltb a b h = ground arith

and-false : (a b : Bool) → (a && b) ≡ false → (a ≡ false) ⊎ (b ≡ false)
and-false true b h = inr h
and-false false b h = inl refl

and-false-of : (a b : Bool) → (a ≡ false) ⊎ (b ≡ false) → (a && b) ≡ false
and-false-of true b (inl h) = absurd (cc)
and-false-of true b (inr h) = h
and-false-of false b h = refl

or-false : (a b : Bool) → (a || b) ≡ false → (a ≡ false) × (b ≡ false)
or-false true b h = absurd (cc)
or-false false b h = (refl, h)

within_limit :
    (veto gap : ℕ)
    → (((ltb 0 veto && ltb veto gap) ≡ false) → (veto ≡ 0) ⊎ (gap ≤ veto))
      × ((veto ≡ 0) ⊎ (gap ≤ veto) → (ltb 0 veto && ltb veto gap) ≡ false)
within_limit veto gap = (
  λ h. elim (and-false (ltb 0 veto) (ltb veto gap) h) [
    | inl off ↦ let none_set = not-ltb→le 0 veto off in inl (omega arith)
    | inr small ↦ inr (not-ltb→le veto gap small)
  ],
  λ h. and-false-of (ltb 0 veto) (ltb veto gap) (elim h [
    | inl off ↦ inl (le→not-ltb 0 veto (omega arith))
    | inr small ↦ inr (le→not-ltb veto gap small)
  ]),
)

in_band_of :
    (price low high : ℕ)
    → (((ltb price low || ltb high price) ≡ false) → (low ≤ price) × (price ≤ high))
      × ((low ≤ price) → (price ≤ high) → (ltb price low || ltb high price) ≡ false)
in_band_of price low high = (
  λ h.
      let (above, below) = or-false (ltb price low) (ltb high price) h in
      (not-ltb→le price low above, not-ltb→le high price below),
  λ above below.
      let a = le→not-ltb price low above in let b = le→not-ltb high price below in rw (a, b) refl,
)

judge_range-kept :
    (t : MonitorSettings) (price : ℕ) (bids : List Bid) (range : ℕ × ℕ)
    → ((judge_range t price bids range ≡ kept) → IsFine t price bids range)
      × (IsFine t price bids range → judge_range t price bids range ≡ kept)
unfolding judge_range
judge_range-kept t price bids (rmin, rmax) =
    let band = ltb price t.min_price || ltb t.max_price price in
    let range = leb rmin price && leb price rmax in
    let bare = has_cliff_below bids rmin t.cliff_probe in
    let wide = ltb 0 t.gap_veto && ltb t.gap_veto (max_gap_cents bids) in
    let all = first_of-kept band range bare wide in
    let limit = within_limit t.gap_veto (max_gap_cents bids) in
    let prices = in_band_of price t.min_price t.max_price in
    (
      λ e.
          let (a, b, c, d) = all.0 e in
          let (low, high) = prices.0 a in
          let (above, below) = &&-true (leb rmin price) (leb price rmax) b in
          (low, high, leb→le rmin price above, leb→le price rmax below, c, limit.0 d),
      λ (low, high, above, below, firm, narrow).
          all.1 (prices.1 low high)
            (let a = le→leb rmin price above in let b = le→leb price rmax below in rw (a, b) refl)
            firm (limit.1 narrow),
    )

-- What a book must be for an order on it to be left alone: the spread is under the threshold, the reward
-- does not count as dropped, and the checks of the price and of the bids pass.
abbrev pub LeftAlone : MonitorSettings → ℕ → Bid → List Bid → Bid → List Bid → ℕ → Option ℕ → Type 0
LeftAlone t price b bids a asks cents rate =
    (recheck_resting_buy (b ∷ bids) (a ∷ asks) t.max_spread ≡ false)
    × (is_dropped_to rate t.min_reward ≡ false)
    × IsFine t price (b ∷ bids) (reward_price_range ((b.price + a.price) / 2) cents)

-- Two tests before what is left.
before :
    (a b : Bool) (v : Verdict)
    → (((if a then spread_too_wide else if b then reward_dropped else v) ≡ kept)
        → (a ≡ false) × (b ≡ false) × (v ≡ kept))
      × ((a ≡ false)
          → (b ≡ false)
          → v ≡ kept
          → (if a then spread_too_wide else if b then reward_dropped else v) ≡ kept)
before true b v = (λ e. absurd (cc), λ x y z. absurd (cc))
before false true v = (λ e. absurd (cc), λ x y z. absurd (cc))
before false false v = (λ e. (refl, refl, e), λ x y z. z)

-- With a book that has bids and asks, and a reward spread that has been read, the order is left alone
-- exactly where the spread is under the threshold, the reward is not under the minimum, the price is in
-- the price band and in the reward range, and the bids have no cliff and no gap over the limit.
pub judge_sorted-LeftAlone :
    (t : MonitorSettings) (price : ℕ) (b : Bid) (bids : List Bid) (a : Bid) (asks : List Bid)
    (cents : ℕ) (rate : Option ℕ)
    → let verdict = judge_sorted t price (b ∷ bids) (a ∷ asks) (some cents, rate) in
      (verdict ≡ kept → LeftAlone t price b bids a asks cents rate)
      × (LeftAlone t price b bids a asks cents rate → verdict ≡ kept)
unfolding judge_sorted judge_book
judge_sorted-LeftAlone t price b bids a asks cents rate =
    let range = reward_price_range ((b.price + a.price) / 2) cents in
    let last = judge_range-kept t price (b ∷ bids) range in
    let whole =
      before (recheck_resting_buy (b ∷ bids) (a ∷ asks) t.max_spread)
        (is_dropped_to rate t.min_reward) (judge_range t price (b ∷ bids) range) in
    (λ e. let (x, y, z) = whole.0 e in (x, y, last.0 z), λ (x, y, z). whole.1 x y (last.1 z))
