-- ===== src/Gap/Choice.antt =====
-- engine/laddering.py: each decision of `explain_gap_single_order` and what it rests on.
use polymarket_rewards.Base.{
  ℕ, ◌+◌, ◌≤◌, ◌<◌, ◌≡◌, refl, ap, ◌⊎◌, inl, inr, true, false, ◌&&◌, ◌||◌, Option, none, some, List,
  arith, ltb, ◌==◌, if◌then◌else◌, Bool-cases, any, is_empty, take,
}
use polymarket_rewards.Base.Frac.{Frac, ltb_frac, of_micro}
use polymarket_rewards.Gap.Book.{Bid, has_cliff_below, sorted_levels, max_gap_and_split}
use polymarket_rewards.Gap.Explain.{
  Level, GapSettings, SkipReason, Decision, undecided, in_range_of, levels_from, rule_of, coeff_sum,
  first_eligible, mark_chosen, shares_of, choose, grade, explain_gap_single_order, no_level_over,
  gate_closed, no_book, no_bid_in_range, cliff_below, gap_over_limit,
}
use polymarket_rewards.Gap.Eligible.{FirstAt, NoneAt, LoopFound, first_eligible-LoopFound}

-- The sum of the coefficients of the levels down to the largest gap.
abbrev pub high_sum_of : ℕ → List Level → Frac
high_sum_of split_idx levels = coeff_sum (take (split_idx + 1) levels)

-- What a graded decision rests on: the gate is closed, or it is open and no level in the reward
-- range is over the threshold, or it is open and the order is at the first such level.
abbrev pub Graded :
    Option ℕ
    → ℕ
    → (min_coeff gate_min : ℕ) (high_sum : Frac) → List Level
    → Option (ℕ × ℕ)
    → Option SkipReason
    → Option ℕ
    → Type 0
Graded n min_size min_coeff gate_min high_sum levels none reason index =
    ((reason ≡ some gate_closed) × (ltb_frac high_sum (of_micro gate_min) ≡ true))
    ⊎ ((reason ≡ some no_level_over)
        × (ltb_frac high_sum (of_micro gate_min) ≡ false)
        × NoneAt min_coeff levels)
Graded n min_size min_coeff gate_min high_sum levels (some (price, shares)) reason index =
    (reason ≡ none)
    × (ltb_frac high_sum (of_micro gate_min) ≡ false)
    × (shares ≡ shares_of n min_size)
    × ((k : ℕ) × (index ≡ some k) × FirstAt min_coeff levels price k)

choose-none :
    (n : Option ℕ) (min_size min_coeff : ℕ) (d : Decision)
    → first_eligible min_coeff 0 d.levels ≡ none
    → choose n min_size min_coeff d ≡ record d { skip_reason = some no_level_over }
unfolding choose
choose-none n min_size min_coeff d e = rw (e, choose)

choose-some :
    (n : Option ℕ) (min_size min_coeff i price : ℕ) (d : Decision)
    → first_eligible min_coeff 0 d.levels ≡ some (i, price)
    → choose n min_size min_coeff d ≡ record d {
      levels = mark_chosen i d.levels;
      chosen_index = some i;
      order = some (price, shares_of n min_size);
    }
unfolding choose
choose-some n min_size min_coeff i price d e = rw (e, choose)

choose-Graded :
    (n : Option ℕ) (min_size min_coeff gate_min : ℕ) (high_sum : Frac) (d : Decision)
    (r : Option (ℕ × ℕ))
    → d.order ≡ none
    → d.skip_reason ≡ none
    → ltb_frac high_sum (of_micro gate_min) ≡ false
    → first_eligible min_coeff 0 d.levels ≡ r
    → LoopFound min_coeff 0 d.levels r
    → let d' = choose n min_size min_coeff d in
      Graded n min_size min_coeff gate_min high_sum d.levels d'.order d'.skip_reason d'.chosen_index
choose-Graded n min_size min_coeff gate_min high_sum d none o s gate found h =
    rw (choose-none n min_size min_coeff d found) (rw o (inr (refl, gate, h)))
choose-Graded n min_size min_coeff gate_min high_sum d (some (i, price)) o s gate found h =
    rw (choose-some n min_size min_coeff i price d found)
      (s, gate, refl, (h.0, ap some (omega arith), h.2))

-- The same for the whole of the grading, at the rule that the largest gap selects.
abbrev pub GradedBy : GapSettings → ℕ → ℕ → Decision → Decision → Type 0
GradedBy p min_size split_idx d d' =
    let (_, min_coeff, gate_min) = rule_of p d.max_gap in
    Graded p.shares min_size min_coeff gate_min (high_sum_of split_idx d.levels) d.levels d'.order
      d'.skip_reason d'.chosen_index

grade-GradedBy :
    (p : GapSettings) (min_size split_idx : ℕ) (d : Decision)
    → d.order ≡ none
    → d.skip_reason ≡ none
    → GradedBy p min_size split_idx d (grade p min_size split_idx d)
unfolding grade
grade-GradedBy p min_size split_idx d o s =
    elim (Bool-cases
      (ltb_frac (high_sum_of split_idx d.levels) (of_micro (rule_of p d.max_gap).2))) [
        | inl closed ↦ rw closed (rw o (inl (refl, closed)))
        | inr open_gate ↦ rw open_gate (
            choose-Graded p.shares min_size (rule_of p d.max_gap).1 (rule_of p d.max_gap).2
              (high_sum_of split_idx d.levels) _ _ o s open_gate refl
              (first_eligible-LoopFound (rule_of p d.max_gap).1 0 d.levels))
      ]

-- The decision that the grading begins with: the levels of the book and its largest gap.
abbrev pub opened : GapSettings → ℕ → ℕ → ℕ → List Bid → Decision
opened p lo hi min_size bids =
    let levels = sorted_levels bids in
    let (max_gap, split_idx) = max_gap_and_split levels in
    record undecided {
      max_gap = max_gap;
      levels = levels_from p.amount_value_table lo hi min_size split_idx 0 levels;
    }

-- Why a decision is what it is, stage by stage.
pub data Explained (p : GapSettings) (lo hi min_size : ℕ) (bids : List Bid) (d : Decision)
    : Type 0 where
  empty_handed :
      (min_size ≡ 0) ⊎ (is_empty bids ≡ true)
      → d.order ≡ none
      → d.skip_reason ≡ some no_book
      → Explained p lo hi min_size bids d
  out_of_range :
      any (in_range_of lo hi) (sorted_levels bids) ≡ false
      → d.order ≡ none
      → d.skip_reason ≡ some no_bid_in_range
      → Explained p lo hi min_size bids d
  above_cliff :
      has_cliff_below bids lo p.cliff_probe ≡ true
      → d.order ≡ none
      → d.skip_reason ≡ some cliff_below
      → Explained p lo hi min_size bids d
  vetoed :
      0 < p.gap_veto
      → p.gap_veto < (max_gap_and_split (sorted_levels bids)).0
      → d.order ≡ none
      → d.skip_reason ≡ some gap_over_limit
      → Explained p lo hi min_size bids d
  graded :
      0 < min_size
      → has_cliff_below bids lo p.cliff_probe ≡ false
      → (p.gap_veto ≡ 0) ⊎ ((max_gap_and_split (sorted_levels bids)).0 ≤ p.gap_veto)
      → GradedBy p min_size
          (max_gap_and_split (sorted_levels bids)).1
          (opened p lo hi min_size bids)
          d
      → Explained p lo hi min_size bids d

veto_or_graded :
    (bids : List Bid) (lo hi min_size : ℕ) (p : GapSettings)
    → 0 < min_size
    → has_cliff_below bids lo p.cliff_probe ≡ false
    → let (max_gap, split_idx) = max_gap_and_split (sorted_levels bids) in
      let d = opened p lo hi min_size bids in
      Explained p lo hi min_size bids (
        if ltb 0 p.gap_veto && ltb p.gap_veto max_gap
        then record d { skip_reason = some gap_over_limit }
        else grade p min_size split_idx d)
veto_or_graded bids lo hi min_size p sized firm =
    let (max_gap, split_idx) = max_gap_and_split (sorted_levels bids) in
    elim (Bool-cases (ltb 0 p.gap_veto && ltb p.gap_veto max_gap)) [
      | inl wide ↦ rw wide (vetoed (ground arith) (ground arith) refl refl)
      | inr narrow ↦ rw narrow (
          graded sized firm (ground arith)
            (grade-GradedBy p min_size split_idx (opened p lo hi min_size bids) refl refl))
    ]

-- Every decision is explained: a skipped side names the check that failed, and an order stands at
-- the first level that is in the reward range and over the threshold of the rule that the largest
-- gap selects, with the gate of that rule open, no cliff, and the largest gap within its limit.
pub explain_gap_single_order-Explained :
    (bids : List Bid) (lo hi min_size : ℕ) (p : GapSettings)
    → Explained p lo hi min_size bids (explain_gap_single_order bids lo hi min_size p)
unfolding explain_gap_single_order
explain_gap_single_order-Explained bids lo hi min_size p =
    elim (Bool-cases ((min_size == 0) || is_empty bids)) [
      | inl nothing ↦ rw nothing (empty_handed (ground arith) refl refl)
      | inr something ↦
          rw something (elim (Bool-cases (any (in_range_of lo hi) (sorted_levels bids))) [
            | inl inside ↦ rw inside (elim (Bool-cases (has_cliff_below bids lo p.cliff_probe)) [
              | inl edge ↦ rw edge (above_cliff edge refl refl)
              | inr firm ↦ rw firm (veto_or_graded bids lo hi min_size p (ground arith) firm)
            ])
            | inr outside ↦ rw outside (out_of_range outside refl refl)
          ])
    ]
