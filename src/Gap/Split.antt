-- ===== src/Gap/Split.antt =====
-- engine/laddering.py: `_max_gap_and_split` finds the first of the largest gaps.
use polymarket_rewards.Base.{
  ℕ, zero, suc, ◌+◌, ◌-◌, ◌≤◌, ◌<◌, ◌≡◌, refl, sym, ap, ◌∙◌, ◌⊎◌, inl, inr, true, false, List, [],
  ◌∷◌, arith, ltb, if◌then◌else◌, tests, Bool-cases, length,
}
use polymarket_rewards.Gap.Book.{Bid, scan_gaps, max_gap_and_split}

-- The drop from the level at `i` to the next one; 0 where there is no next one.
abbrev pub drop_after : ℕ → List Bid → ℕ → ℕ
drop_after prev [] i = 0
drop_after prev (b ∷ bids) zero = prev - b.price
drop_after prev (b ∷ bids) (suc i) = drop_after b.price bids i

abbrev pub gap_at : List Bid → ℕ → ℕ
gap_at [] i = 0
gap_at (b ∷ bids) i = drop_after b.price bids i

scan_grows :
    (i g s prev : ℕ) (bids : List Bid)
    → (g ≤ (scan_gaps i g s prev bids).0)
      × ((j : ℕ) → drop_after prev bids j ≤ (scan_gaps i g s prev bids).0)
unfolding scan_gaps
scan_grows i g s prev [] = (omega arith, λ j. omega arith)
scan_grows i g s prev (b ∷ bids) =
    let gap = prev - b.price in
    let rest =
      scan_grows (i + 1) (if ltb g gap then gap else g) (if ltb g gap then i else s) b.price bids in
    let seen : (g ≤ (if ltb g gap then gap else g)) × (gap ≤ (if ltb g gap then gap else g)) =
      ground arith in
    (omega arith, elim [ zero ↦ omega arith | suc j ↦ rest.1 j ])

-- The scan keeps what it has, or it ends at the first of the largest gaps.
abbrev Found : ℕ → ℕ → ℕ → ℕ → List Bid → ℕ × ℕ → Type 0
Found i g s prev bids r =
    (r ≡ (g, s))
    ⊎ ((j : ℕ) × (r.1 ≡ i + j)
        × (drop_after prev bids j ≡ r.0)
        × (g < r.0)
        × ((k : ℕ) → k < j → drop_after prev bids k < r.0))

-- What the rest of the scan finds stands one level further on.
Found-later :
    (i g s g' s' prev : ℕ) (b : Bid) (bids : List Bid) (r : ℕ × ℕ) (j : ℕ)
    → g ≤ g'
    → prev - b.price ≤ g'
    → r.1 ≡ i + 1 + j
    → drop_after b.price bids j ≡ r.0
    → g' < r.0
    → ((k : ℕ) → k < j → drop_after b.price bids k < r.0)
    → Found i g s prev (b ∷ bids) r
Found-later i g s g' s' prev b bids r j low gap place drop more first = inr (
  suc j,
  omega arith,
  drop,
  omega arith,
  elim [ zero ↦ λ h. omega arith | suc k ↦ λ h. first k (omega arith) ],
)

Found-wider :
    (i g s prev : ℕ) (b : Bid) (bids : List Bid) (r : ℕ × ℕ)
    → g < prev - b.price
    → Found (i + 1) (prev - b.price) i b.price bids r
    → Found i g s prev (b ∷ bids) r
Found-wider i g s prev b bids r wider (inl same) = inr (
  0,
  ap (λ (q : ℕ × ℕ). q.1) same ∙ omega arith,
  sym (ap (λ (q : ℕ × ℕ). q.0) same),
  omega (arith, ap (λ (q : ℕ × ℕ). q.0) same),
  λ k h. absurd (omega arith),
)
Found-wider i g s prev b bids r wider (inr (j, place, drop, more, first)) =
    Found-later i g s (prev - b.price) i prev b bids r j (omega arith) (omega arith) place drop more
      first

Found-same :
    (i g s prev : ℕ) (b : Bid) (bids : List Bid) (r : ℕ × ℕ)
    → prev - b.price ≤ g
    → Found (i + 1) g s b.price bids r
    → Found i g s prev (b ∷ bids) r
Found-same i g s prev b bids r low (inl same) = inl same
Found-same i g s prev b bids r low (inr (j, place, drop, more, first)) =
    Found-later i g s g s prev b bids r j (omega arith) low place drop more first

scan-wider :
    (i g s prev : ℕ) (b : Bid) (bids : List Bid)
    → ltb g (prev - b.price) ≡ true
    → scan_gaps i g s prev (b ∷ bids) ≡ scan_gaps (i + 1) (prev - b.price) i b.price bids
unfolding scan_gaps
scan-wider i g s prev b bids e = rw e

scan-same :
    (i g s prev : ℕ) (b : Bid) (bids : List Bid)
    → ltb g (prev - b.price) ≡ false
    → scan_gaps i g s prev (b ∷ bids) ≡ scan_gaps (i + 1) g s b.price bids
unfolding scan_gaps
scan-same i g s prev b bids e = rw e

scan-Found : (i g s prev : ℕ) (bids : List Bid) → Found i g s prev bids (scan_gaps i g s prev bids)
scan-Found i g s prev [] = unfold scan_gaps in inl refl
scan-Found i g s prev (b ∷ bids) = elim (Bool-cases (ltb g (prev - b.price))) [
  | inl wider ↦ rw (scan-wider i g s prev b bids wider) (
      Found-wider i g s prev b bids _ (omega tests)
        (scan-Found (i + 1) (prev - b.price) i b.price bids))
  | inr low ↦
      rw (scan-same i g s prev b bids low)
        (Found-same i g s prev b bids _ (omega tests) (scan-Found (i + 1) g s b.price bids))
]

-- The gap that is returned is the largest between neighbours, and, where there is a gap at all,
-- the index is that of the first level above such a gap.
pub max_gap_and_split_first :
    (bids : List Bid)
    → let (max_gap, split_idx) = max_gap_and_split bids in
      ((i : ℕ) → gap_at bids i ≤ max_gap)
      × (0 < max_gap
          → (gap_at bids split_idx ≡ max_gap) × ((k : ℕ) → k < split_idx → gap_at bids k < max_gap))
unfolding max_gap_and_split
max_gap_and_split_first [] = (λ i. omega arith, λ h. absurd (omega arith))
max_gap_and_split_first (b ∷ bids) = (
  (scan_grows 0 0 (length bids) b.price bids).1,
  λ h. elim (scan-Found 0 0 (length bids) b.price bids) [
    | inl same ↦ absurd (omega (arith, ap (λ (r : ℕ × ℕ). r.0) same))
    | inr (j, place, drop, more, first) ↦
        let at_j : (scan_gaps 0 0 (length bids) b.price bids).1 ≡ j = omega arith in
        rw at_j (drop, first)
  ],
)
