-- ===== src/Quote/Defs.antt =====
-- engine/protected_exit.py. Prices, sizes and settings are millionths; a recovery is a sum of
-- products of a price and a size, so it counts millionths of a millionth. Rows whose price or size
-- does not parse read as zero, and a negative one is not told from it.
use polymarket_rewards.Base.{
  ℕ, ◌+◌, ◌-◌, ◌*◌, Bool, true, false, ◌&&◌, ◌||◌, Option, none, some, List, [], ◌∷◌, min, ltb, leb,
  ◌==◌, if◌then◌else◌, sum_of, is_empty,
}
use polymarket_rewards.Gap.{Bid}

-- The loop over the rows, with `remaining` shares to go; a row is passed over where it is void or
-- its price is refused. The result is `levels`.
unfoldable pub walk_levels : (ℕ → Bool) → ℕ → List Bid → List (ℕ × ℕ)
walk_levels refused remaining [] = []
walk_levels refused remaining (b ∷ rows) =
    let used = min b.size remaining in
    let skipped = walk_levels refused remaining rows in
    let rest = walk_levels refused (remaining - used) rows in
    if (b.price == 0) || ((b.size == 0) || refused b.price)
    then skipped
    else (b.price, used) ∷ (if (remaining - used) == 0 then [] else rest)

-- `worst`: the price of the level that was added last.
abbrev pub last_price : List (ℕ × ℕ) → Option ℕ
last_price [] = none
last_price (l ∷ levels) = if is_empty levels then some l.0 else last_price levels

abbrev pub taken : List (ℕ × ℕ) → ℕ
taken levels = sum_of (λ l. l.1) levels

abbrev pub paid : List (ℕ × ℕ) → ℕ
paid levels = sum_of (λ l. l.0 * l.1) levels

pub record Walk : Type 0 where
  pub levels : List (ℕ × ℕ)
  pub executable : ℕ
  pub worst_price : Option ℕ

abbrev pub none_refused : ℕ → Bool
none_refused price = false

unfoldable pub bid_walk : List Bid → ℕ → Walk
bid_walk bids size =
    if size == 0
    then record { levels = []; executable = 0; worst_price = none }
    else let levels = walk_levels none_refused size bids in
      record { levels = levels; executable = taken levels; worst_price = last_price levels }

pub record FakPlan : Type 0 where
  pub worst_price : ℕ
  pub executable : ℕ
  pub expected_recovery : ℕ
  pub levels : List (ℕ × ℕ)
  pub full : Bool

-- From the walk on.
unfoldable pub fak_plan_of : ℕ → Walk → Option ℕ → Option FakPlan
fak_plan_of size walk none = none
fak_plan_of size walk (some worst) = some (record {
  worst_price = worst;
  executable = walk.executable;
  expected_recovery = paid walk.levels;
  levels = walk.levels;
  full = leb size walk.executable;
})

unfoldable pub protected_fak_plan : List Bid → ℕ → Option FakPlan
protected_fak_plan bids size =
    let walk = bid_walk bids size in fak_plan_of size walk walk.worst_price

unfoldable pub quote_direct_exit : List Bid → ℕ → Option FakPlan
unfolding protected_fak_plan
quote_direct_exit bids size = protected_fak_plan bids size

unfoldable pub maker_sell_price : List Bid → Option ℕ → Option ℕ
maker_sell_price [] none = none
maker_sell_price [] (some best_bid) = if best_bid == 0 then none else some best_bid
maker_sell_price (a ∷ asks) best_bid =
    let rest = maker_sell_price asks best_bid in
    if ltb 0 a.price && ltb a.price 1_000_000 then some a.price else rest

pub data MergeReason : Type 0 where
  no_size below_min_shares direct_better too_shallow fok_pair : MergeReason

pub record MergeQuote : Type 0 where
  pub feasible : Bool
  pub fok_worst_price : Option ℕ
  pub expected_cost : ℕ
  pub expected_recovery : ℕ
  pub levels : List (ℕ × ℕ)
  pub reason : MergeReason

abbrev pub infeasible : MergeReason → MergeQuote
infeasible reason = record {
  feasible = false;
  fok_worst_price = none;
  expected_cost = 0;
  expected_recovery = 0;
  levels = [];
  reason = reason;
}

-- `price > bound` for `bound = 1.0 - (direct + adv) / size`, multiplied by `size`.
abbrev pub is_over : ℕ → ℕ → ℕ → Bool
is_over size direct_and_adv price = ltb (size * 1_000_000) (price * size + direct_and_adv)

-- From the levels on; `merge_recovery_usd` gives a dollar for each pair.
unfoldable pub merge_quote_of : ℕ → List (ℕ × ℕ) → MergeQuote
merge_quote_of size levels =
    if (size - taken levels) == 0
    then record {
      feasible = true;
      fok_worst_price = last_price levels;
      expected_cost = paid levels;
      expected_recovery = size * 1_000_000;
      levels = levels;
      reason = fok_pair;
    }
    else infeasible too_shallow

unfoldable pub quote_merge_route : List Bid → ℕ → ℕ → ℕ → ℕ → MergeQuote
quote_merge_route complement_asks size direct_recovery adv min_shares =
    let direct_and_adv = direct_recovery + adv * 1_000_000 in
    if size == 0
    then infeasible no_size
    else if ltb size min_shares
    then infeasible below_min_shares
    else if leb (size * 1_000_000) direct_and_adv
    then infeasible direct_better
    else merge_quote_of size (walk_levels (is_over size direct_and_adv) size complement_asks)
