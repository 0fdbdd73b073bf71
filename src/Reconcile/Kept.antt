-- ===== src/Reconcile/Kept.antt =====
-- engine/laddering.py: one resting order is kept for a planned price, the others are cancelled, and
-- the plan is then in place.
use polymarket_rewards.Base.{
  ℕ, ◌+◌, ◌*◌, ◌≤◌, ◌≡◌, refl, sym, ap, ◌∙◌, inl, inr, Bool, true, false, ◌&&◌, ◌||◌, not, some,
  List, [], ◌∷◌, ◌++◌, ◌==◌, map, max, arith, keep, leb→le, le→leb, or_zero, Bool-cases,
  Option-cases, All,
}
use polymarket_rewards.Base.Amount.{abs_diff}
use polymarket_rewards.Base.Int.{pos_part, neg_part}
use polymarket_rewards.Base.Text.{Text}
use polymarket_rewards.Reconcile.Defs.{
  RestingBuy, round4, target_at, unfilled, near_target, is_in, is_kept, id_list, reconcile_loop,
  reconcile_buy_orders,
}

abbrev pub Distinct : List ℕ → Type 0
Distinct [] = Unit
Distinct (p ∷ ps) = (is_in p ps ≡ false) × Distinct ps

-- The price as it is compared, to four places.
abbrev pub price_of : RestingBuy → ℕ
price_of o = round4 (or_zero o.price)

-- The resting orders are parted in two, each in the order of the list.
pub data Parted : List RestingBuy → List RestingBuy → List RestingBuy → Type 0 where
  all_parted : Parted [] [] []
  stay :
      {o : RestingBuy} {orders stays goes : List RestingBuy}
      → Parted orders stays goes
      → Parted (o ∷ orders) (o ∷ stays) goes
  go :
      {o : RestingBuy} {orders stays goes : List RestingBuy}
      → Parted orders stays goes
      → Parted (o ∷ orders) stays (o ∷ goes)

-- The ids of the orders, of those that have one.
abbrev pub ids_of : List RestingBuy → List Text
ids_of [] = []
ids_of (o ∷ orders) = id_list o.id ++ ids_of orders

-- The plan has an order at the price, and what is unfilled of the resting one is within a share, or
-- within the tolerated percentage, of it.
abbrev pub Fits : List (ℕ × ℕ) → ℕ → RestingBuy → Type 0
Fits ladder pct o =
    (tgt : ℕ) × (target_at (price_of o) ladder ≡ some tgt)
    × (abs_diff (pos_part (unfilled o)) (tgt * 1_000_000 + neg_part (unfilled o))
        ≤ max 1_000_000 (pct * tgt))

-- If the order fits, its price is among the prices.
abbrev pub HasRival : List (ℕ × ℕ) → ℕ → List ℕ → RestingBuy → Type 0
HasRival ladder pct prices o = Fits ladder pct o → is_in (price_of o) prices ≡ true

pub loop-kept :
    (ladder : List (ℕ × ℕ)) (pct : ℕ) (kept : List ℕ) (o : RestingBuy) (orders : List RestingBuy)
    → is_kept ladder pct kept o ≡ true
    → reconcile_loop ladder pct kept (o ∷ orders)
      ≡ reconcile_loop ladder pct (round4 (or_zero o.price) ∷ kept) orders
unfolding reconcile_loop
loop-kept ladder pct kept o orders e = rw (e, reconcile_loop)

loop-cancelled :
    (ladder : List (ℕ × ℕ)) (pct : ℕ) (kept : List ℕ) (o : RestingBuy) (orders : List RestingBuy)
    → is_kept ladder pct kept o ≡ false
    → reconcile_loop ladder pct kept (o ∷ orders) ≡ (
      id_list o.id ++ (reconcile_loop ladder pct kept orders).0,
      (reconcile_loop ladder pct kept orders).1,
    )
unfolding reconcile_loop
loop-cancelled ladder pct kept o orders e = rw (e, reconcile_loop)

both_true : (a b : Bool) → (not a && b) ≡ true → (a ≡ false) × (b ≡ true)
both_true true b e = absurd (cc)
both_true false b e = (refl, e)

first_true : (a b : Bool) → (not a && b) ≡ false → b ≡ true → a ≡ true
first_true true b e h = refl
first_true false b e h = absurd (cc)

or-true : (a b : Bool) → b ≡ true → (a || b) ≡ true
or-true true b h = refl
or-true false b h = h

or_off : (a : Bool) → (a || false) ≡ a
or_off true = refl
or_off false = refl

rivals_of :
    (ladder : List (ℕ × ℕ)) (pct : ℕ) (xs ys : List ℕ) (goes : List RestingBuy)
    → ((op : ℕ) → is_in op xs ≡ is_in op ys)
    → All (HasRival ladder pct xs) goes
    → All (HasRival ladder pct ys) goes
rivals_of ladder pct xs ys [] same h = tt
rivals_of ladder pct xs ys (o ∷ goes) same (here, h) =
    (λ fits. sym (same (price_of o)) ∙ here fits, rivals_of ladder pct xs ys goes same h)

is_kept-true :
    (ladder : List (ℕ × ℕ)) (pct : ℕ) (kept : List ℕ) (o : RestingBuy)
    → is_kept ladder pct kept o ≡ true
    → (is_in (price_of o) kept ≡ false) × Fits ladder pct o
unfolding is_kept
is_kept-true ladder pct kept o e = elim (Option-cases (target_at (price_of o) ladder)) [
  | inl none_planned ↦ absurd (cc (rw (none_planned, is_kept) at e))
  | inr (tgt, planned) ↦
      let (new, near) =
        both_true (is_in (price_of o) kept) (near_target pct (unfilled o) tgt)
          (rw (planned, is_kept) at e) in
      (new, (tgt, planned, leb→le _ _ near))
]

is_kept-false :
    (ladder : List (ℕ × ℕ)) (pct : ℕ) (kept : List ℕ) (o : RestingBuy)
    → is_kept ladder pct kept o ≡ false
    → HasRival ladder pct kept o
unfolding is_kept
is_kept-false ladder pct kept o e (tgt, planned, near) =
    first_true (is_in (price_of o) kept) (near_target pct (unfilled o) tgt)
      (rw (planned, is_kept) at e) (le→leb _ _ near)

-- The prices that are kept in the end are those kept before and those of the orders that stay.
abbrev Adds : List ℕ → List RestingBuy → List ℕ → Type 0
Adds kept stays kept' = (op : ℕ) → is_in op kept' ≡ (is_in op (map price_of stays) || is_in op kept)

abbrev Apart : List ℕ → List ℕ → Type 0
Apart kept prices = All (λ (p : ℕ). is_in p kept ≡ false) prices

abbrev Outcome : List (ℕ × ℕ) → ℕ → List ℕ → List RestingBuy → List Text × List ℕ → Type 0
Outcome ladder pct kept orders (ids, kept') =
    (stays goes : List RestingBuy) × Parted orders stays goes
    × (ids ≡ ids_of goes)
    × All (Fits ladder pct) stays
    × Distinct (map price_of stays)
    × Apart kept (map price_of stays)
    × All (HasRival ladder pct kept') goes
    × Adds kept stays kept'

-- What is apart from a longer list is apart from the shorter one, and has not its first price.
Apart-tail :
    (p : ℕ) (kept prices : List ℕ)
    → Apart (p ∷ kept) prices
    → Apart kept prices × (is_in p prices ≡ false)
Apart-tail p kept [] a = (tt, refl)
Apart-tail p kept (q ∷ prices) (here, a) =
    let (rest, new) = Apart-tail p kept prices a in ((ground arith, rest), ground arith)

stays_added : (a b c : Bool) → (a || (b || c)) ≡ ((b || a) || c)
stays_added true true c = refl
stays_added true false c = refl
stays_added false true c = refl
stays_added false false c = refl

later_rival :
    (ladder : List (ℕ × ℕ)) (pct : ℕ) (kept : List ℕ) (stays : List RestingBuy) (kept' : List ℕ)
    (o : RestingBuy)
    → Adds kept stays kept'
    → HasRival ladder pct kept o
    → HasRival ladder pct kept' o
later_rival ladder pct kept stays kept' o adds rival fits =
    adds (price_of o) ∙ or-true (is_in (price_of o) (map price_of stays)) _ (rival fits)

reconcile_loop-Outcome :
    (ladder : List (ℕ × ℕ)) (pct : ℕ) (kept : List ℕ) (orders : List RestingBuy)
    → Outcome ladder pct kept orders (reconcile_loop ladder pct kept orders)
reconcile_loop-Outcome ladder pct kept [] =
    unfold reconcile_loop in ([], [], all_parted, refl, tt, tt, tt, tt, λ op. refl)
reconcile_loop-Outcome ladder pct kept (o ∷ orders) =
    elim (Bool-cases (is_kept ladder pct kept o)) [
      | inl stays ↦
          let (fresh, fits) = is_kept-true ladder pct kept o stays in
          let (ss, gs, parted, ids, all_fit, distinct, apart, rivals, adds) =
            reconcile_loop-Outcome ladder pct (price_of o ∷ kept) orders in
          let (apart_kept, new) = Apart-tail (price_of o) kept (map price_of ss) apart in
          rw (loop-kept ladder pct kept o orders stays) (
            o ∷ ss,
            gs,
            stay parted,
            ids,
            (fits, all_fit),
            (new, distinct),
            (fresh, apart_kept),
            rivals,
            λ op.
                adds op
                ∙ stays_added (is_in op (map price_of ss)) (price_of o == op) (is_in op kept),
          )
      | inr goes ↦
          let (ss, gs, parted, ids, all_fit, distinct, apart, rivals, adds) =
            reconcile_loop-Outcome ladder pct kept orders in
          rw (loop-cancelled ladder pct kept o orders goes) (
            ss,
            o ∷ gs,
            go parted,
            ap (λ xs. id_list o.id ++ xs) ids,
            all_fit,
            distinct,
            apart,
            (
              later_rival ladder pct kept ss _ o adds (is_kept-false ladder pct kept o goes),
              rivals,
            ),
            adds,
          )
    ]

same_kept :
    (ladder : List (ℕ × ℕ)) (xs ys : List ℕ)
    → ((op : ℕ) → is_in op xs ≡ is_in op ys)
    → keep (λ o. not (is_in (round4 o.0) xs)) ladder
      ≡ keep (λ o. not (is_in (round4 o.0) ys)) ladder
same_kept [] xs ys same = refl
same_kept (e ∷ ladder) xs ys same = rw (same (round4 e.0), same_kept ladder xs ys same) refl

-- The resting orders are parted into those that stay and those that go. What is cancelled are the ids
-- of those that go, and no others. An order that stays fits a planned order at its price, in
-- what is unfilled of it, and no two that stay have one price; an order that goes fits none, or one with its
-- price stays. What is placed are the planned orders at the prices where none stays.
pub reconcile_buy_orders_covers :
    (ladder : List (ℕ × ℕ)) (resting : List RestingBuy) (pct : ℕ)
    → let (cancel_ids, to_place) = reconcile_buy_orders ladder resting pct in
      (stays goes : List RestingBuy) × Parted resting stays goes
      × (cancel_ids ≡ ids_of goes)
      × All (Fits ladder pct) stays
      × Distinct (map price_of stays)
      × All (HasRival ladder pct (map price_of stays)) goes
      × (to_place ≡ keep (λ o. not (is_in (round4 o.0) (map price_of stays))) ladder)
unfolding reconcile_buy_orders
reconcile_buy_orders_covers ladder resting pct =
    let (ss, gs, parted, ids, fit, distinct, apart, rivals, adds) =
      reconcile_loop-Outcome ladder pct [] resting in
    let kept = (reconcile_loop ladder pct [] resting).1 in
    let same : (op : ℕ) → is_in op kept ≡ is_in op (map price_of ss) =
      λ op. adds op ∙ or_off (is_in op (map price_of ss)) in
    (
      ss,
      gs,
      parted,
      ids,
      fit,
      distinct,
      rivals_of ladder pct kept (map price_of ss) gs same rivals,
      same_kept ladder kept (map price_of ss) same,
    )
