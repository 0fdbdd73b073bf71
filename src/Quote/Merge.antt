-- ===== src/Quote/Merge.antt =====
-- engine/protected_exit.py: when buying the other outcome and merging is chosen.
use polymarket_rewards.Base.{
  ℕ, ◌+◌, ◌-◌, ◌*◌, ◌≤◌, ◌<◌, ◌≡◌, ◌↔◌, inl, inr, true, false, some, List, [], ◌∷◌, arith, ltb, leb,
  ◌==◌, Bool-cases, ==_iff, All, All-intro, subst,
}
use native.Mathlib.Nat.{mul-le-mul_right, le_of_mul-le-mul_right}
use polymarket_rewards.Gap.{Bid}
use polymarket_rewards.Quote.Defs.{
  walk_levels, taken, paid, is_over, MergeQuote, merge_quote_of, quote_merge_route,
}
use polymarket_rewards.Quote.Walk.{depth, walk_levels-depth, walk_levels-All, last_price-All}

-- The conditions of the route, with the recovery of the direct sale and the wanted advantage added.
abbrev pub IsWorth : List Bid → ℕ → ℕ → ℕ → Type 0
IsWorth asks size direct_and_adv min_shares =
    (0 < size)
    × (min_shares ≤ size)
    × (direct_and_adv < size * 1_000_000)
    × (size ≤ depth (is_over size direct_and_adv) asks)

-- The pair is bought exactly when the size is positive and at least the minimum, a dollar a share is
-- more than the direct sale and the advantage, and the asks at or under the bound cover the size.
pub quote_merge_route_feasible :
    (asks : List Bid) (size direct adv min_shares : ℕ)
    → ((quote_merge_route asks size direct adv min_shares).feasible ≡ true)
      ↔ IsWorth asks size (direct + adv * 1_000_000) min_shares
unfolding quote_merge_route merge_quote_of
quote_merge_route_feasible asks size direct adv min_shares =
    let all = walk_levels-depth (is_over size (direct + adv * 1_000_000)) size asks in
    ground (arith, all)

-- At or under the bound.
abbrev IsUnder : ℕ → ℕ → ℕ → Type 0
IsUnder size d price = price * size + d ≤ size * 1_000_000

paid-under :
    (size d : ℕ) (levels : List (ℕ × ℕ))
    → All (λ l. IsUnder size d l.0) levels
    → paid levels * size + d * taken levels ≤ size * 1_000_000 * taken levels
paid-under size d [] h = grind arith
paid-under size d (l ∷ levels) h =
    let rest = paid-under size d levels h.1 in
    let scaled : (l.0 * size + d) * l.1 ≤ size * 1_000_000 * l.1 = mul-le-mul_right l.1 h.0 in
    grind arith

-- The bound for all of the purchase: a positive factor is cancelled.
paid-bound :
    (size d cost : ℕ)
    → 0 < size
    → cost * size + d * size ≤ size * 1_000_000 * size
    → d + cost ≤ size * 1_000_000
paid-bound size d cost some_shares h = le_of_mul-le-mul_right {k = size} (grind arith) some_shares

abbrev pub Pays : ℕ → ℕ → MergeQuote → Type 0
Pays size d q =
    (taken q.levels ≡ size)
    × (d + q.expected_cost ≤ q.expected_recovery)
    × ((worst : ℕ) → q.fok_worst_price ≡ some worst → d + worst * size ≤ q.expected_recovery)

merge_quote_of-Pays :
    (size d : ℕ) (levels : List (ℕ × ℕ))
    → 0 < size
    → taken levels ≤ size
    → All (λ l. IsUnder size d l.0) levels
    → (merge_quote_of size levels).feasible ≡ true
    → Pays size d (merge_quote_of size levels)
unfolding merge_quote_of
merge_quote_of-Pays size d levels some_shares within under good =
    elim (Bool-cases ((size - taken levels) == 0)) [
      | inl all ↦
          let filled : taken levels ≡ size =
            let z = (==_iff (size - taken levels) 0).0 all in omega arith in
          let bounded =
            subst (λ n. paid levels * size + d * n ≤ size * 1_000_000 * n) filled
              (paid-under size d levels under) in
          rw all (
            filled,
            paid-bound size d (paid levels) some_shares bounded,
            λ worst e. omega (arith, last_price-All (IsUnder size d) levels worst under e),
          )
      | inr short ↦ absurd (let bad : false ≡ true = rw short at good in cc)
    ]

-- A quote that is feasible buys exactly the size, and what a dollar a share leaves after the cost of
-- the purchase is at least the direct sale's recovery and the advantage; and the worst price, at
-- which all of it may be bought, is at or under the bound.
pub quote_merge_route-Pays :
    (asks : List Bid) (size direct adv min_shares : ℕ)
    → (quote_merge_route asks size direct adv min_shares).feasible ≡ true
    → Pays size (direct + adv * 1_000_000) (quote_merge_route asks size direct adv min_shares)
unfolding quote_merge_route
quote_merge_route-Pays asks size direct adv min_shares good =
    let d = direct + adv * 1_000_000 in
    let worth = (quote_merge_route_feasible asks size direct adv min_shares).0 good in
    let a : (size == 0) ≡ false = ground arith in
    let b : ltb size min_shares ≡ false = ground arith in
    let c : leb (size * 1_000_000) d ≡ false = ground arith in
    let levels = walk_levels (is_over size d) size asks in
    let all = walk_levels-depth (is_over size d) size asks in
    let under : All (λ l. IsUnder size d l.0) levels =
      walk_levels-All (IsUnder size d) (is_over size d) size asks
        (All-intro _ (λ r h. ground arith) asks) in
    rw (a, b, c)
      (merge_quote_of-Pays size d levels worth.0 (omega arith) under (rw (a, b, c) at good))
