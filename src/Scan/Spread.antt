-- ===== src/Scan/Spread.antt =====
-- engine/scanner.py: the spread of a refreshed book is that of its best bid and best ask.
use polymarket_rewards.Base.{
  ℕ, ◌-◌, ◌<◌, ◌≡◌, refl, sym, ap, ◌∙◌, false, Option, none, some, List, [], ◌∷◌, arith, min, max,
  is_empty,
}
use polymarket_rewards.Base.Sort.{sort_by, insert_by}
use polymarket_rewards.Gap.{Bid, bid_ge}
use polymarket_rewards.Place.{ask_order}
use polymarket_rewards.Monitor.{recheck_resting_buy}
use polymarket_rewards.Scan.Filter.{max_price_of, min_price_of, book_spread}

-- The price at the front.
abbrev pub front : List Bid → ℕ
front [] = 0
front (b ∷ bids) = b.price

front-insert_bid :
    (b : Bid) (bids : List Bid) → front (insert_by bid_ge b bids) ≡ max b.price (front bids)
unfolding insert_by
front-insert_bid b [] = ground arith
front-insert_bid b (c ∷ bids) = ground arith

front-sort_bids : (bids : List Bid) → front (sort_by bid_ge bids) ≡ max_price_of bids
unfolding sort_by max_price_of
front-sort_bids [] = refl
front-sort_bids (b ∷ bids) =
    front-insert_bid b (sort_by bid_ge bids) ∙ ap (max b.price) (front-sort_bids bids)

front-insert_one : (a : Bid) → front (insert_by ask_order a []) ≡ a.price
unfolding insert_by
front-insert_one a = refl

min_assoc : (a b c : ℕ) → min (min a b) c ≡ min a (min b c)
min_assoc a b c = ground arith

front-insert_ask :
    (a : Bid) (asks : List Bid)
    → is_empty asks ≡ false
    → front (insert_by ask_order a asks) ≡ min a.price (front asks)
unfolding insert_by
front-insert_ask a [] e = absurd (cc)
front-insert_ask a (c ∷ asks) e = ground arith

insert_not_empty : (a : Bid) (asks : List Bid) → is_empty (insert_by ask_order a asks) ≡ false
unfolding insert_by
insert_not_empty a [] = refl
insert_not_empty a (c ∷ asks) = ground arith

min_price_of-min :
    (n m : ℕ) (asks : List Bid) → min_price_of (min n m) asks ≡ min n (min_price_of m asks)
unfolding min_price_of
min_price_of-min n m [] = refl
min_price_of-min n m (a ∷ asks) =
    ap (λ (k : ℕ). min_price_of k asks) (min_assoc n m a.price)
    ∙ min_price_of-min n (min m a.price) asks

front-sort_asks :
    (a : Bid) (asks : List Bid) → front (sort_by ask_order (a ∷ asks)) ≡ min_price_of a.price asks
unfolding sort_by min_price_of
front-sort_asks a [] = front-insert_one a
front-sort_asks a (c ∷ asks) =
    front-insert_ask a (sort_by ask_order (c ∷ asks)) (insert_not_empty c (sort_by ask_order asks))
    ∙ ap (min a.price) (front-sort_asks c asks)
    ∙ sym (min_price_of-min a.price c.price asks)

by_fronts :
    (xs ys : List Bid) (most : ℕ)
    → front ys - front xs < most
    → recheck_resting_buy xs ys (some most) ≡ false
by_fronts [] ys most small = refl
by_fronts (x ∷ xs) [] most small = refl
by_fronts (x ∷ xs) (y ∷ ys) most small = ground arith

-- Where the spread of a book is under the threshold, the recheck keeps an order on it for the spread.
pub book_spread_kept :
    (bids asks : List Bid) (spread most : ℕ)
    → book_spread bids asks ≡ some spread
    → spread < most
    → recheck_resting_buy (sort_by bid_ge bids) (sort_by ask_order asks) (some most) ≡ false
unfolding book_spread
book_spread_kept [] asks spread most e small = absurd (cc)
book_spread_kept (b ∷ bids) [] spread most e small = absurd (cc)
book_spread_kept (b ∷ bids) (a ∷ asks) spread most e small =
    let low = front-sort_asks a asks in
    let high = front-sort_bids (b ∷ bids) in
    let same : min_price_of a.price asks - max_price_of (b ∷ bids) ≡ spread =
      ap (λ (o : Option ℕ). elim o [ none ↦ 0 | some n ↦ n ]) e in
    by_fronts (sort_by bid_ge (b ∷ bids)) (sort_by ask_order (a ∷ asks)) most (omega arith)
