-- ===== src/Gap/Placed.antt =====
-- engine/laddering.py: an order that `plan_gap_single_order` places, read off the book.
use polymarket_rewards.Base.{
  ℕ, zero, suc, ◌+◌, ◌*◌, ◌≤◌, ◌<◌, ◌≡◌, refl, sym, ap, subst, ◌∙◌, ◌⊎◌, inl, inr, true, false,
  ◌&&◌, Option, none, some, List, [], ◌∷◌, arith, ltb, leb, tests, Bool-cases, &&-true, get_elem?,
}
use polymarket_rewards.Base.Frac.{ltb_frac, of_micro}
use polymarket_rewards.Gap.Book.{
  Bid, TableRow, amount_value, has_cliff_below, sorted_levels, max_gap_and_split,
}
use polymarket_rewards.Gap.Explain.{
  Level, GapSettings, Decision, in_range_of, coeff_of, level_of, levels_from, rule_of, is_eligible,
  shares_of, explain_gap_single_order, plan_gap_single_order,
}
use polymarket_rewards.Gap.Choice.{
  Explained, empty_handed, out_of_range, above_cliff, vetoed, graded, Graded, high_sum_of, opened,
  explain_gap_single_order-Explained,
}

get_elem?-levels_from :
    (table : List TableRow) (lo hi min_size split_idx idx : ℕ) (bids : List Bid) (k : ℕ)
    {lv : Level}
    → get_elem? (levels_from table lo hi min_size split_idx idx bids) k ≡ some lv
    → (b : Bid) × (get_elem? bids k ≡ some b)
      × (lv ≡ level_of table lo hi min_size split_idx (idx + k) b)
unfolding levels_from
get_elem?-levels_from table lo hi min_size split_idx idx [] k e = absurd (cc)
get_elem?-levels_from table lo hi min_size split_idx idx (b ∷ bids) zero e = (b, refl, ground arith)
get_elem?-levels_from table lo hi min_size split_idx idx (b ∷ bids) (suc k) e =
    let (c, at, same) = get_elem?-levels_from table lo hi min_size split_idx (idx + 1) bids k e in
    (c, at, same ∙ ap (λ i. level_of table lo hi min_size split_idx i c) (omega arith))

-- The table has a positive value for the price, and the size of the level over the minimum size
-- times that value is more than the threshold, multiplied out.
abbrev pub OverThreshold : ℕ → ℕ → Option ℕ → ℕ → Type 0
OverThreshold min_coeff size av min_size =
    (v : ℕ) × (av ≡ some v) × (min_coeff * (min_size * v) < size * 1_000_000 * 1_000_000)

over_threshold :
    (min_coeff size : ℕ) (av : Option ℕ) (min_size : ℕ)
    → ltb_frac (of_micro min_coeff) (coeff_of size av min_size) ≡ true
    → OverThreshold min_coeff size av min_size
unfolding coeff_of
over_threshold min_coeff size none min_size e = absurd (omega tests)
over_threshold min_coeff size (some v) min_size e = elim (Bool-cases (ltb 0 v)) [
  | inl pays ↦ (v, refl, omega (tests, rw pays at e))
  | inr blank ↦ absurd (omega (tests, rw blank at e))
]

-- The book has a level at the price of the order, which lies in the reward range.
abbrev pub StandsAt : List Bid → ℕ → ℕ → ℕ → GapSettings → ℕ → Type 0
StandsAt bids lo hi min_size p price =
    (k : ℕ) × (b : Bid) × (get_elem? (sorted_levels bids) k ≡ some b)
    × (b.price ≡ price)
    × (lo ≤ price)
    × (price ≤ hi)
    × OverThreshold (rule_of p (max_gap_and_split (sorted_levels bids)).0).1 b.size
        (amount_value b.price p.amount_value_table) min_size

eligible-StandsAt :
    (bids : List Bid) (lo hi min_size : ℕ) (p : GapSettings) (price k : ℕ) (lv : Level)
    → get_elem? (opened p lo hi min_size bids).levels k ≡ some lv
    → lv.price ≡ price
    → is_eligible (rule_of p (max_gap_and_split (sorted_levels bids)).0).1 lv ≡ true
    → StandsAt bids lo hi min_size p price
eligible-StandsAt bids lo hi min_size p price k lv at same fits =
    let (max_gap, split_idx) = max_gap_and_split (sorted_levels bids) in
    let (b, here, level) =
      get_elem?-levels_from p.amount_value_table lo hi min_size split_idx 0 (sorted_levels bids) k
        at in
    let priced : b.price ≡ price = sym (ap (λ (l : Level). l.price) level) ∙ same in
    let coeff = coeff_of b.size (amount_value b.price p.amount_value_table) min_size in
    let both : (in_range_of lo hi b && ltb_frac (of_micro (rule_of p max_gap).1) coeff) ≡ true =
      sym (ap (is_eligible (rule_of p max_gap).1) level) ∙ fits in
    let (inside, over) = &&-true _ _ both in
    let (above, below) = &&-true (leb lo b.price) (leb b.price hi) inside in
    (
      k,
      b,
      here,
      priced,
      omega (tests, above),
      omega (tests, below),
      over_threshold (rule_of p max_gap).1 b.size _ min_size over,
    )

-- The checks that an order of `shares` at `price` has passed.
abbrev pub Placed : List Bid → ℕ → ℕ → ℕ → GapSettings → ℕ → ℕ → Type 0
Placed bids lo hi min_size p price shares =
    (0 < min_size)
    × (shares ≡ shares_of p.shares min_size)
    × (has_cliff_below bids lo p.cliff_probe ≡ false)
    × ((p.gap_veto ≡ 0) ⊎ ((max_gap_and_split (sorted_levels bids)).0 ≤ p.gap_veto))
    × StandsAt bids lo hi min_size p price

abbrev OrderedBy : GapSettings → ℕ → ℕ → ℕ → List Bid → Decision → Option (ℕ × ℕ) → Type 0
OrderedBy p lo hi min_size bids d order =
    let (_, split_idx) = max_gap_and_split (sorted_levels bids) in
    let o = opened p lo hi min_size bids in
    let (_, min_coeff, gate_min) = rule_of p o.max_gap in
    Graded p.shares min_size min_coeff gate_min (high_sum_of split_idx o.levels) o.levels order
      d.skip_reason d.chosen_index

order_Placed :
    (bids : List Bid) (lo hi min_size : ℕ) (p : GapSettings) (d : Decision) (price shares : ℕ)
    → Explained p lo hi min_size bids d
    → d.order ≡ some (price, shares)
    → Placed bids lo hi min_size p price shares
order_Placed bids lo hi min_size p d price shares (empty_handed why o r) e = absurd (cc)
order_Placed bids lo hi min_size p d price shares (out_of_range why o r) e = absurd (cc)
order_Placed bids lo hi min_size p d price shares (above_cliff why o r) e = absurd (cc)
order_Placed bids lo hi min_size p d price shares (vetoed on wide o r) e = absurd (cc)
order_Placed bids lo hi min_size p d price shares (graded sized firm narrow g) e =
    let (none_left, open_gate, n, (k, at, ((lv, here, same, fits), first))) =
      subst (OrderedBy p lo hi min_size bids d) e g in
    (sized, n, firm, narrow, eligible-StandsAt bids lo hi min_size p price k lv here same fits)

-- An order on a side has the configured number of shares at the price of a level of the book that
-- lies in the reward range and whose size is over the threshold of the rule for the largest gap;
-- the book has no cliff below the range and its largest gap is within the limit.
pub plan_gap_single_order-Placed :
    (bids : List Bid) (lo hi min_size : ℕ) (p : GapSettings) (price shares : ℕ)
    → plan_gap_single_order bids lo hi min_size p ≡ some (price, shares)
    → Placed bids lo hi min_size p price shares
unfolding plan_gap_single_order
plan_gap_single_order-Placed bids lo hi min_size p price shares e =
    order_Placed bids lo hi min_size p (explain_gap_single_order bids lo hi min_size p) price shares
      (explain_gap_single_order-Explained bids lo hi min_size p) e
