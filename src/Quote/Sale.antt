-- ===== src/Quote/Sale.antt =====
-- engine/protected_exit.py: what the protected sale promises, and the price of a resting sale.
use polymarket_rewards.Base.{
  ℕ, ◌*◌, ◌≤◌, ◌<◌, ◌≡◌, refl, sym, ap, ◌∙◌, ◌⊎◌, ◌↔◌, inl, inr, Bool, true, false, ◌&&◌, Option,
  none, some, List, [], ◌∷◌, arith, min, ltb, leb, ◌==◌, ==_iff, Bool-cases,
}
use polymarket_rewards.Base.Sort.{IsSorted}
use polymarket_rewards.Gap.{Bid, bid_ge}
use polymarket_rewards.Quote.Defs.{
  walk_levels, last_price, taken, none_refused, bid_walk, FakPlan, fak_plan_of, protected_fak_plan,
  maker_sell_price,
}
use polymarket_rewards.Quote.Walk.{
  depth, walk_levels-depth, last_price-lowest, last_price-none, paid-All,
}

-- What a sale of `size` shares into the book is planned to do.
abbrev pub Recovers : List Bid → ℕ → Option FakPlan → Type 0
Recovers bids size none = min size (depth none_refused bids) ≡ 0
Recovers bids size (some plan) =
    (plan.executable ≡ min size (depth none_refused bids))
    × (plan.worst_price * plan.executable ≤ plan.expected_recovery)
    × (plan.full ≡ leb size (depth none_refused bids))

leb-min : (a b : ℕ) → leb a (min a b) ≡ leb a b
leb-min a b = ground arith

fak_plan_of-Recovers :
    (bids : List Bid) (size : ℕ) (o : Option ℕ)
    → let levels = walk_levels none_refused size bids in
      IsSorted bid_ge bids
      → last_price levels ≡ o
      → Recovers bids size (
          fak_plan_of size
            (record { levels = levels; executable = taken levels; worst_price = o })
            o)
unfolding fak_plan_of
fak_plan_of-Recovers bids size none sorted e =
    sym (walk_levels-depth none_refused size bids) ∙ last_price-none _ e
fak_plan_of-Recovers bids size (some worst) sorted e =
    let all : taken (walk_levels none_refused size bids) ≡ min size (depth none_refused bids) =
      walk_levels-depth none_refused size bids in
    (
      all,
      paid-All worst _ (last_price-lowest none_refused size bids worst sorted e),
      rw all (leb-min size (depth none_refused bids)),
    )

-- On bids from the best price down, the plan sells as many shares as the book has rows for, up to
-- the size; it recovers at least its worst price for each of them; it says that it is full exactly
-- when the book covers the size; and there is no plan only when nothing can be sold.
pub protected_fak_plan-Recovers :
    (bids : List Bid) (size : ℕ)
    → IsSorted bid_ge bids
    → Recovers bids size (protected_fak_plan bids size)
unfolding protected_fak_plan bid_walk fak_plan_of
protected_fak_plan-Recovers bids size sorted = elim (Bool-cases (size == 0)) [
  | inl nothing ↦ rw nothing (let z = (==_iff size 0).0 nothing in omega arith)
  | inr some_shares ↦ rw some_shares (fak_plan_of-Recovers bids size _ sorted refl)
]

abbrev pub is_price : ℕ → Bool
is_price p = ltb 0 p && ltb p 1_000_000

-- The first ask with a price between nothing and a dollar gives the price, and only where there is
-- none does the best bid.
abbrev pub FirstPrice : List Bid → Option ℕ → ℕ → Type 0
FirstPrice [] best_bid price = (best_bid ≡ some price) × (0 < price)
FirstPrice (a ∷ asks) best_bid price =
    ((is_price a.price ≡ true) × (a.price ≡ price))
    ⊎ ((is_price a.price ≡ false) × FirstPrice asks best_bid price)

-- A resting sale has a price exactly when the book or the best bid gives one, and it is the price of
-- the first ask strictly between nothing and a dollar, else the best bid.
pub maker_sell_price_first :
    (asks : List Bid) (best_bid : Option ℕ) (price : ℕ)
    → (maker_sell_price asks best_bid ≡ some price) ↔ FirstPrice asks best_bid price
unfolding maker_sell_price
maker_sell_price_first [] none price = ground arith
maker_sell_price_first [] (some b) price = ground arith
maker_sell_price_first (a ∷ asks) best_bid price =
    let (to, back) = maker_sell_price_first asks best_bid price in
    elim (Bool-cases (is_price a.price)) [
      | inl good ↦ rw good (
        (λ e. inl (refl, cc)),
        (λ q. elim q [ inl (_, e) ↦ ap some e | inr (e, _) ↦ absurd (cc) ]),
      )
      | inr bad ↦ rw bad (
        (λ e. inr (refl, to e)),
        (λ q. elim q [ inl (e, _) ↦ absurd (cc) | inr (_, h) ↦ back h ]),
      )
    ]
