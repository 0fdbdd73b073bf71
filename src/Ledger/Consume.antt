-- ===== src/Ledger/Consume.antt =====
-- engine/merge_accounting.py: what a merge takes from the lots.
use polymarket_rewards.Base.{
  ℕ, ◌+◌, ◌-◌, ◌*◌, ◌≤◌, ◌<◌, ◌≡◌, refl, ap, ◌∙◌, ◌↔◌, inl, inr, true, false, Option, none, some,
  List, [], ◌∷◌, arith, min, ltb, ◌==◌, ==_iff, tests, Bool-cases, All,
}
use native.Mathlib.Decide.{dec_lt}
use polymarket_rewards.Base.Int.{pos_part, neg_part, ◌-ℤ◌}
use polymarket_rewards.Cost.{Lot, cost_sum_of}
use polymarket_rewards.Ledger.Defs.{
  held_in, consume_loop, kept_lots, consume_fifo_cost, merge_realized_pnl, MergePnl, merge_pnl_of,
  merge_event_pnl_from_lots,
}

held_in-kept_lots : (lots : List Lot) → held_in (kept_lots lots) ≡ held_in lots
held_in-kept_lots [] = refl
held_in-kept_lots (l ∷ lots) = ground (arith, held_in-kept_lots lots)

cost-kept_lots : (lots : List Lot) → cost_sum_of (kept_lots lots) ≡ cost_sum_of lots
cost-kept_lots [] = refl
cost-kept_lots (l ∷ lots) = elim (Bool-cases (ltb 0 l.remaining)) [
  | inl held ↦ rw held (omega (arith, cost-kept_lots lots))
  | inr void ↦
      let z : l.remaining ≡ 0 = omega tests in rw (void, z) (grind (arith, cost-kept_lots lots))
]

kept_lots-positive : (lots : List Lot) → All (λ l. 0 < l.remaining) (kept_lots lots)
kept_lots-positive [] = tt
kept_lots-positive (l ∷ lots) = ground (arith, kept_lots-positive lots)

-- One turn of the loop that ends it, and one that goes on.
consume_loop-last :
    (need : ℕ) (l : Lot) (lots : List Lot)
    → 0 < l.remaining
    → need ≤ l.remaining
    → consume_loop need (l ∷ lots)
      ≡ (l.price * need, record l { remaining = l.remaining - need } ∷ lots)
unfolding consume_loop
consume_loop-last need l lots held short =
    let a : (l.remaining == 0) ≡ false = ground arith in
    let b : min l.remaining need ≡ need = omega arith in
    let c : ((need - need) == 0) ≡ true = ground arith in rw (a, b, c) refl

consume_loop-void :
    (need : ℕ) (l : Lot) (lots : List Lot)
    → l.remaining ≡ 0
    → consume_loop need (l ∷ lots) ≡ ((consume_loop need lots).0, l ∷ (consume_loop need lots).1)
unfolding consume_loop
consume_loop-void need l lots z = let a : (l.remaining == 0) ≡ true = ground arith in rw a refl

consume_loop-more :
    (need : ℕ) (l : Lot) (lots : List Lot)
    → 0 < l.remaining
    → l.remaining < need
    → let (cost, rest) = consume_loop (need - l.remaining) lots in
      consume_loop need (l ∷ lots)
      ≡ (l.price * l.remaining + cost, record l { remaining = l.remaining - l.remaining } ∷ rest)
unfolding consume_loop
consume_loop-more need l lots held long =
    let a : (l.remaining == 0) ≡ false = ground arith in
    let b : min l.remaining need ≡ l.remaining = omega arith in
    let c : ((need - l.remaining) == 0) ≡ false = ground arith in rw (a, b, c) refl

pub price-add : (p n k : ℕ) → p * n + p * k ≡ p * (n + k)
price-add p n k = grind arith

pub price-split : (p n r : ℕ) → n ≤ r → p * n + p * (r - n) ≡ p * r
price-split p n r h = price-add p n (r - n) ∙ ap (λ x. p * x) (omega arith)

-- Shares and cost are split between what is taken and what is left.
abbrev Splits : ℕ → List Lot → ℕ × List Lot → Type 0
Splits need lots (cost, left) =
    (held_in left + need ≡ held_in lots) × (cost + cost_sum_of left ≡ cost_sum_of lots)

consume_loop-Splits :
    (need : ℕ) (lots : List Lot) → need ≤ held_in lots → Splits need lots (consume_loop need lots)
consume_loop-Splits need [] h = unfold consume_loop in (omega arith, omega arith)
consume_loop-Splits need (l ∷ lots) h = elim (dec_lt 0 l.remaining) [
  | no void ↦
      let z : l.remaining ≡ 0 = omega arith in
      let (shares, cost) = consume_loop-Splits need lots (omega arith) in
      rw (consume_loop-void need l lots z) (omega arith, omega arith)
  | yes held ↦ elim (dec_lt l.remaining need) [
    | yes long ↦
        let (shares, cost) = consume_loop-Splits (need - l.remaining) lots (omega arith) in
        rw (consume_loop-more need l lots held long) (omega arith, grind arith)
    | no short ↦
        rw (consume_loop-last need l lots held (omega arith))
          (omega arith, omega (arith, price-split l.price need l.remaining (omega arith)))
  ]
]

-- The consumption succeeds exactly when the lots hold the quantity; then the cost that is reported and
-- the cost of the lots that remain make up the cost of the lots, their shares and the quantity make up
-- the shares; and where something is taken, no empty lot remains.
abbrev pub Consumed : List Lot → ℕ → Option ℕ × List Lot → Type 0
Consumed lots qty (none, left) = (held_in lots < qty) × (left ≡ lots)
Consumed lots qty (some cost, left) =
    (held_in left + qty ≡ held_in lots)
    × (cost + cost_sum_of left ≡ cost_sum_of lots)
    × (0 < qty → All (λ l. 0 < l.remaining) left)

-- A consumption that fails was of more shares than the lots hold and leaves them; one that succeeds
-- splits the shares and the cost of the lots between the part taken and the part left, which then has
-- no empty lot.
pub consume_fifo_cost-Consumed :
    (lots : List Lot) (qty : ℕ) → Consumed lots qty (consume_fifo_cost lots qty)
unfolding consume_fifo_cost
consume_fifo_cost-Consumed lots qty = elim (Bool-cases (qty == 0)) [
  | inl nothing ↦
      let z = (==_iff qty 0).0 nothing in
      rw nothing (omega arith, omega arith, λ some_shares. absurd (omega arith))
  | inr some_shares ↦ elim (Bool-cases (ltb (held_in lots) qty)) [
    | inl few ↦ rw (some_shares, few) (omega tests, refl)
    | inr enough ↦
        let (shares, cost) = consume_loop-Splits qty lots (omega tests) in
        let left = (consume_loop qty lots).1 in
        rw (some_shares, enough)
          (
            omega (arith, held_in-kept_lots left),
            omega (arith, cost-kept_lots left),
            λ _. kept_lots-positive left,
          )
  ]
]

merge_realized_pnl_parts :
    (amount yes_cost no_cost fees : ℕ)
    → let pnl = merge_realized_pnl amount yes_cost no_cost fees in
      pos_part pnl + (yes_cost + no_cost + fees) ≡ neg_part pnl + amount * 1_000_000
unfolding merge_realized_pnl ◌-ℤ◌
merge_realized_pnl_parts amount yes_cost no_cost fees = ground arith

-- The profit of a merge accounts for its recovery, its costs and its fees.
abbrev pub Accounts : ℕ → List Lot → List Lot → ℕ → MergePnl → Type 0
Accounts amount yes_lots no_lots fees r =
    (pos_part r.realized_pnl + (r.yes_cost + r.no_cost + fees)
      ≡ neg_part r.realized_pnl + amount * 1_000_000)
    × (r.yes_cost + cost_sum_of (consume_fifo_cost yes_lots amount).1 ≡ cost_sum_of yes_lots)
    × (r.no_cost + cost_sum_of (consume_fifo_cost no_lots amount).1 ≡ cost_sum_of no_lots)

merge_pnl_of-Accounts :
    (amount fees : ℕ) (yes_lots no_lots : List Lot) (a b : Option ℕ × List Lot)
    → Consumed yes_lots amount a
    → Consumed no_lots amount b
    → let r = merge_pnl_of amount fees a.0 b.0 in
      ((r.ok ≡ true) ↔ ((amount ≤ held_in yes_lots) × (amount ≤ held_in no_lots)))
      × (r.ok ≡ true
          → (pos_part r.realized_pnl + (r.yes_cost + r.no_cost + fees)
              ≡ neg_part r.realized_pnl + amount * 1_000_000)
            × (r.yes_cost + cost_sum_of a.1 ≡ cost_sum_of yes_lots)
            × (r.no_cost + cost_sum_of b.1 ≡ cost_sum_of no_lots))
merge_pnl_of-Accounts amount fees yes_lots no_lots (none, left) (b, left2) h k =
    (ground arith, λ e. absurd (cc))
merge_pnl_of-Accounts amount fees yes_lots no_lots (some a, left) (none, left2) h k =
    (ground arith, λ e. absurd (cc))
merge_pnl_of-Accounts amount fees yes_lots no_lots (some a, left) (some b, left2) h k =
    (ground arith, λ _. (merge_realized_pnl_parts amount a b fees, h.1, k.1))

-- A merge has a profit exactly when the lots of both sides hold the amount, and then the profit, the
-- costs taken from the two sides and the fees make up a dollar for each pair, where each cost is what
-- the lots of its side have lost.
pub merge_event_pnl_from_lots-Accounts :
    (amount fees : ℕ) (yes_lots no_lots : List Lot)
    → let r = merge_event_pnl_from_lots amount yes_lots no_lots fees in
      ((r.ok ≡ true) ↔ ((amount ≤ held_in yes_lots) × (amount ≤ held_in no_lots)))
      × (r.ok ≡ true → Accounts amount yes_lots no_lots fees r)
unfolding merge_event_pnl_from_lots
merge_event_pnl_from_lots-Accounts amount fees yes_lots no_lots =
    merge_pnl_of-Accounts amount fees yes_lots no_lots _ _
      (consume_fifo_cost-Consumed yes_lots amount) (consume_fifo_cost-Consumed no_lots amount)
