-- ===== src/Gap/Explain.antt =====
-- engine/laddering.py: `explain_gap_single_order` and `plan_gap_single_order`.
use polymarket_rewards.Base.{
  ℕ, zero, suc, ◌+◌, ◌*◌, ◌/◌, Bool, true, false, ◌&&◌, ◌||◌, not, Option, none, some, List, [],
  ◌∷◌, ltb, leb, ◌==◌, if◌then◌else◌, any, is_empty, take,
}
use polymarket_rewards.Base.Frac.{Frac, zero_frac, add_frac, ltb_frac, of_micro}
use polymarket_rewards.Gap.Book.{
  Bid, TableRow, amount_value, has_cliff_below, sorted_levels, max_gap_and_split,
}

pub record Level : Type 0 where
  pub price : ℕ
  pub size : ℕ
  pub coeff : Frac
  pub in_range : Bool
  pub high_side : Bool
  pub chosen : Bool

-- The settings that the planning functions take; `shares` is `None` for the default.
pub record GapSettings : Type 0 where
  pub amount_value_table : List TableRow
  pub gap_wide : ℕ
  pub gap_mid : ℕ
  pub gap_high_coeff_sum_min : ℕ
  pub rule1_min_coeff : ℕ
  pub rule2_min_coeff : ℕ
  pub rule3_min_coeff : ℕ
  pub cliff_probe : ℕ
  pub shares : Option ℕ
  pub rule2_high_coeff_sum_min : ℕ
  pub rule3_high_coeff_sum_min : ℕ
  pub gap_veto : ℕ

-- The texts of `skip_reason`, without their wording.
pub data SkipReason : Type 0 where
  no_book no_bid_in_range cliff_below gap_over_limit gate_closed no_level_over : SkipReason

pub record Decision : Type 0 where
  pub rule : Option ℕ
  pub max_gap : ℕ
  pub min_coeff : Option ℕ
  pub high_sum : Option Frac
  pub gate_min : Option ℕ
  pub gate_passed : Bool
  pub levels : List Level
  pub chosen_index : Option ℕ
  -- the price and the number of shares of the one order, where `action` is `place`
  pub order : Option (ℕ × ℕ)
  pub skip_reason : Option SkipReason
  pub cliff : Bool

abbrev pub undecided : Decision
undecided = record {
  rule = none;
  max_gap = 0;
  min_coeff = none;
  high_sum = none;
  gate_min = none;
  gate_passed = false;
  levels = [];
  chosen_index = none;
  order = none;
  skip_reason = none;
  cliff = false;
}

abbrev pub in_range_of : ℕ → ℕ → Bid → Bool
in_range_of lo hi b = leb lo b.price && leb b.price hi

-- size / (min_size * av), the three in millionths; 0 where the table has no positive value.
unfoldable pub coeff_of : ℕ → Option ℕ → ℕ → Frac
coeff_of size none min_size = zero_frac
coeff_of size (some av) min_size =
    if ltb 0 av then record { num = size * 1_000_000; den = min_size * av } else zero_frac

-- The level at index `idx`.
abbrev pub level_of : List TableRow → ℕ → ℕ → ℕ → ℕ → ℕ → Bid → Level
level_of table lo hi min_size split_idx idx b = record {
  price = b.price;
  size = b.size;
  coeff = coeff_of b.size (amount_value b.price table) min_size;
  in_range = in_range_of lo hi b;
  high_side = leb idx split_idx;
  chosen = false;
}

unfoldable pub levels_from : List TableRow → ℕ → ℕ → ℕ → ℕ → ℕ → List Bid → List Level
levels_from table lo hi min_size split_idx idx [] = []
levels_from table lo hi min_size split_idx idx (b ∷ bids) =
    level_of table lo hi min_size split_idx idx b
    ∷ levels_from table lo hi min_size split_idx (idx + 1) bids

-- The rule, its coefficient threshold and its gate.
unfoldable pub rule_of : GapSettings → ℕ → ℕ × ℕ × ℕ
rule_of p max_gap =
    if ltb p.gap_wide max_gap
    then (1, p.rule1_min_coeff, p.gap_high_coeff_sum_min)
    else if leb p.gap_mid max_gap
    then (2, p.rule2_min_coeff, p.rule2_high_coeff_sum_min)
    else (3, p.rule3_min_coeff, p.rule3_high_coeff_sum_min)

unfoldable pub coeff_sum : List Level → Frac
coeff_sum [] = zero_frac
coeff_sum (lv ∷ levels) = add_frac lv.coeff (coeff_sum levels)

abbrev pub is_eligible : ℕ → Level → Bool
is_eligible min_coeff lv = lv.in_range && ltb_frac (of_micro min_coeff) lv.coeff

-- The last loop: the index of the first level that may be taken, and its price.
unfoldable pub first_eligible : ℕ → ℕ → List Level → Option (ℕ × ℕ)
first_eligible min_coeff idx [] = none
first_eligible min_coeff idx (lv ∷ levels) =
    if is_eligible min_coeff lv
    then some (idx, lv.price)
    else first_eligible min_coeff (idx + 1) levels

unfoldable pub mark_chosen : ℕ → List Level → List Level
mark_chosen i [] = []
mark_chosen zero (lv ∷ levels) = record lv { chosen = true } ∷ levels
mark_chosen (suc i) (lv ∷ levels) = lv ∷ mark_chosen i levels

-- `int(shares) if shares is not None else int(min_size)`
abbrev pub shares_of : Option ℕ → ℕ → ℕ
shares_of none min_size = min_size / 1_000_000
shares_of (some n) min_size = n

unfoldable pub choose : Option ℕ → ℕ → ℕ → Decision → Decision
choose shares min_size min_coeff d = elim (first_eligible min_coeff 0 d.levels) [
  | none ↦ record d { skip_reason = some no_level_over }
  | some (idx, price) ↦ record d {
    levels = mark_chosen idx d.levels;
    chosen_index = some idx;
    order = some (price, shares_of shares min_size);
  }
]

-- From the grading of the book to the end.
unfoldable pub grade : GapSettings → ℕ → ℕ → Decision → Decision
grade p min_size split_idx d =
    let (rule, min_coeff, gate_min) = rule_of p d.max_gap in
    let high_sum = coeff_sum (take (split_idx + 1) d.levels) in
    let graded = record d {
      rule = some rule;
      min_coeff = some min_coeff;
      high_sum = some high_sum;
      gate_min = some gate_min;
    } in
    if ltb_frac high_sum (of_micro gate_min)
    then record graded { skip_reason = some gate_closed }
    else choose p.shares min_size min_coeff (record graded { gate_passed = true })

unfoldable pub explain_gap_single_order : List Bid → ℕ → ℕ → ℕ → GapSettings → Decision
explain_gap_single_order bids lo hi min_size p =
    let levels = sorted_levels bids in
    let (max_gap, split_idx) = max_gap_and_split levels in
    let d = record undecided {
      max_gap = max_gap;
      levels = levels_from p.amount_value_table lo hi min_size split_idx 0 levels;
    } in
    if (min_size == 0) || is_empty bids
    then record undecided { skip_reason = some no_book }
    else if not (any (in_range_of lo hi) levels)
    then record undecided { skip_reason = some no_bid_in_range }
    else if has_cliff_below bids lo p.cliff_probe
    then record undecided { skip_reason = some cliff_below; cliff = true }
    else if ltb 0 p.gap_veto && ltb p.gap_veto max_gap
    then record d { skip_reason = some gap_over_limit }
    else grade p min_size split_idx d

unfoldable pub plan_gap_single_order : List Bid → ℕ → ℕ → ℕ → GapSettings → Option (ℕ × ℕ)
plan_gap_single_order bids lo hi min_size p = (explain_gap_single_order bids lo hi min_size p).order
