-- ===== src/Fills/Once.antt =====
-- engine/fills.py: a fill that was selected and remembered is never selected again.
use polymarket_rewards.Base.{
  ◌≡◌, refl, ap, ◌∙◌, true, false, ◌||◌, Option, none, some, List, [], ◌∷◌, ◌++◌, map, arith, keep,
  All, All-append, All-keep, Bool,
}
use mathlib.Core.List.{map-append}
use polymarket_rewards.Base.Sort.{insert_by, sort_by, IsSorted, All-sort_by, sort_by-IsSorted}
use polymarket_rewards.Base.Text.{Text, opt_eq, text_eq_refl}
use polymarket_rewards.Fills.Defs.{
  MakerOrder, Trade, BuyEvent, Key, key_eq, contains, fold_funder, is_new_buy, event_of,
  collect_events, event_le, select_new_buy_fills,
}

abbrev pub key_of : BuyEvent → Key
key_of e = (e.trade_id, e.order_id)

opt_eq_refl : (a : Option Text) → opt_eq a a ≡ true
opt_eq_refl none = refl
opt_eq_refl (some t) = text_eq_refl t

pub contains-append :
    (k : Key) (xs ys : List Key) → contains k (xs ++ ys) ≡ (contains k xs || contains k ys)
contains-append k [] ys = refl
contains-append k (x ∷ xs) ys = ground (arith, contains-append k xs ys)

contains-insert_by :
    (k : Key) (e : BuyEvent) (es : List BuyEvent)
    → contains k (map key_of (insert_by event_le e es))
      ≡ (key_eq k (key_of e) || contains k (map key_of es))
unfolding insert_by
contains-insert_by k e [] = refl
contains-insert_by k e (x ∷ es) = ground (arith, contains-insert_by k e es)

contains-sort_by :
    (k : Key) (es : List BuyEvent)
    → contains k (map key_of (sort_by event_le es)) ≡ contains k (map key_of es)
unfolding sort_by
contains-sort_by k [] = refl
contains-sort_by k (e ∷ es) =
    contains-insert_by k e (sort_by event_le es)
    ∙ ap (λ b. key_eq k (key_of e) || b) (contains-sort_by k es)

key_eq_refl : (k : Key) → key_eq k k ≡ true
key_eq_refl (a, b) = ground (arith, opt_eq_refl a, opt_eq_refl b)

module _ (f : Text) (seen : List Key) where
  abbrev new_keys : Trade → List MakerOrder → List Key
  new_keys tr mos = map key_of (map (event_of tr) (keep (is_new_buy f seen tr.id) mos))

  abbrev Remembered : List Key → Trade → MakerOrder → Type 0
  Remembered es tr mo = is_new_buy f seen tr.id mo ≡ true → contains (tr.id, mo.order_id) es ≡ true

  orders-Remembered :
      (es : List Key) (tr : Trade) (mos : List MakerOrder)
      → ((k : Key) → contains k (new_keys tr mos) ≡ true → contains k es ≡ true)
      → All (Remembered es tr) mos
  orders-Remembered es tr [] h = tt
  orders-Remembered es tr (mo ∷ mos) h = (
    λ fresh. h (tr.id, mo.order_id) (ground (arith, fresh, key_eq_refl (tr.id, mo.order_id))),
    orders-Remembered es tr mos (λ k c. h k (ground arith)),
  )

  abbrev AllRemembered : List Key → List Trade → Type 0
  AllRemembered es trades = All (λ tr. All (Remembered es tr) tr.maker_orders) trades

  keys-collect :
      (k : Key) (tr : Trade) (trades : List Trade)
      → contains k (map key_of (collect_events f seen (tr ∷ trades))) ≡ (
          contains k (new_keys tr tr.maker_orders)
          || contains k (map key_of (collect_events f seen trades)))
  unfolding collect_events
  keys-collect k tr trades = rw (map-append, contains-append)

  trades-Remembered :
      (es : List Key) (trades : List Trade)
      → ((k : Key)
          → contains k (map key_of (collect_events f seen trades)) ≡ true
          → contains k es ≡ true)
      → AllRemembered es trades
  trades-Remembered es [] h = tt
  trades-Remembered es (tr ∷ trades) h = (
    orders-Remembered es tr tr.maker_orders (λ k c. h k (rw (keys-collect k tr trades, c))),
    trades-Remembered es trades (λ k c. h k (rw (keys-collect k tr trades, c) (ground arith))),
  )

  module _ (es later : List Key)
      (wider : (k : Key)
        → contains k later ≡ false
        → (contains k seen ≡ false) × (contains k es ≡ false)) where
    none_new_order :
        (tr : Trade) (mo : MakerOrder) → Remembered es tr mo → is_new_buy f later tr.id mo ≡ false
    unfolding is_new_buy
    none_new_order tr mo h = ground (arith, wider (tr.id, mo.order_id))

    keep_none :
        (tr : Trade) (mos : List MakerOrder)
        → All (Remembered es tr) mos
        → keep (is_new_buy f later tr.id) mos ≡ []
    keep_none tr [] h = refl
    keep_none tr (mo ∷ mos) h = rw (none_new_order tr mo h.0) (keep_none tr mos h.1)

    collect_none :
        (trades : List Trade) → AllRemembered es trades → collect_events f later trades ≡ []
    unfolding collect_events
    collect_none [] h = refl
    collect_none (tr ∷ trades) h = rw (keep_none tr tr.maker_orders h.0) (collect_none trades h.1)

keep-unseen :
    (f : Text) (seen : List Key) (tr : Trade) (mos : List MakerOrder)
    → All
        (λ e. contains (key_of e) seen ≡ false)
        (map (event_of tr) (keep (is_new_buy f seen tr.id) mos))
unfolding is_new_buy
keep-unseen f seen tr [] = tt
keep-unseen f seen tr (mo ∷ mos) = ground (arith, keep-unseen f seen tr mos)

collect-unseen :
    (f : Text) (seen : List Key) (trades : List Trade)
    → All (λ e. contains (key_of e) seen ≡ false) (collect_events f seen trades)
unfolding collect_events
collect-unseen f seen [] = tt
collect-unseen f seen (tr ∷ trades) =
    All-append _ (map (event_of tr) (keep (is_new_buy f seen tr.id) tr.maker_orders)) _
      (keep-unseen f seen tr tr.maker_orders) (collect-unseen f seen trades)

-- Sorting moves the events and loses none of their keys.
later_wider :
    (seen : List Key) (es : List BuyEvent) (k : Key)
    → contains k (seen ++ map key_of (sort_by event_le es)) ≡ false
    → (contains k seen ≡ false) × (contains k (map key_of es) ≡ false)
later_wider seen es k e =
    ground (arith, contains-append k seen (map key_of (sort_by event_le es)), contains-sort_by k es)

-- When the keys of the selected fills are remembered, selecting again from the same trades gives
-- no fill: no fill is processed twice.
pub select_new_buy_fills_once :
    (trades : List Trade) (funder : Option Text) (seen : List Key)
    → select_new_buy_fills trades funder
        (seen ++ map key_of (select_new_buy_fills trades funder seen))
      ≡ []
unfolding select_new_buy_fills
select_new_buy_fills_once trades funder seen =
    let f = fold_funder funder in
    let es = collect_events f seen trades in
    let later = seen ++ map key_of (sort_by event_le es) in
    ap (sort_by event_le) (
      collect_none f seen (map key_of es) later (later_wider seen es) trades
        (trades-Remembered f seen (map key_of es) trades (λ k c. c)))

-- When the keys of the selected fills are remembered, selecting from any of these trades gives no fill.
pub select_new_buy_fills_again :
    (p : Trade → Bool) (trades : List Trade) (funder : Option Text) (seen : List Key)
    → select_new_buy_fills
        (keep p trades)
        funder
        (seen ++ map key_of (select_new_buy_fills trades funder seen))
      ≡ []
unfolding select_new_buy_fills
select_new_buy_fills_again p trades funder seen =
    let f = fold_funder funder in
    let es = collect_events f seen trades in
    let later = seen ++ map key_of (sort_by event_le es) in
    ap (sort_by event_le) (
      collect_none f seen (map key_of es) later (later_wider seen es) (keep p trades) (
        All-keep (λ (tr : Trade). All (Remembered f seen (map key_of es) tr) tr.maker_orders) p
          trades (trades-Remembered f seen (map key_of es) trades (λ k c. c))))

-- The events come oldest first, and no event carries a key that was seen.
pub select_new_buy_fills_order :
    (trades : List Trade) (funder : Option Text) (seen : List Key)
    → IsSorted event_le (select_new_buy_fills trades funder seen)
      × All (λ e. contains (key_of e) seen ≡ false) (select_new_buy_fills trades funder seen)
unfolding select_new_buy_fills
select_new_buy_fills_order trades funder seen = (
  sort_by-IsSorted event_le (λ x y h. ground arith) (λ x y z h k. ground arith)
      (collect_events (fold_funder funder) seen trades),
  All-sort_by event_le (λ e. contains (key_of e) seen ≡ false)
      (collect_events (fold_funder funder) seen trades)
      (collect-unseen (fold_funder funder) seen trades),
)
