-- ===== src/Exit/Timing.antt =====
-- engine/exit_router.py: when the router waits with a resting sale, when it sells at once, and when it
-- buys the other half instead.
use polymarket_rewards.Base.{
  ℕ, ◌≤◌, ◌≡◌, refl, inl, inr, Bool, true, false, ◌&&◌, ◌||◌, not, Option, none, some, List, [],
  ◌==◌, if◌then◌else◌, Bool-cases, is_empty,
}
use polymarket_rewards.Base.Frac.{Frac}
use polymarket_rewards.Base.Text.{Text}
use polymarket_rewards.Cost.{Lot}
use polymarket_rewards.Ledger.{pair_amount}
use polymarket_rewards.Quote.{maker_sell_price}
use polymarket_rewards.Quote.Sale.{maker_sell_price_first}
use polymarket_rewards.Merges.{
  Event, get_active_merge_event, Holding, Answers, maker_call, OpenOrder, RouterState, calling,
  cancel_sells, pair_merge_route, merge_call,
}
use polymarket_rewards.Exit.Calls.{
  Added, Added-none, Added-trans, Added-call, cancel_sells-Added, pair_merge_route-Added,
}
use polymarket_rewards.Exit.Compare.{pair_for, route_compare, stop_hit}
use polymarket_rewards.Exit.Defs.{
  after_maker, place_maker, is_due, give_up_maker, maker_step, maker_route, route_single,
  route_pair, route_cost, route_idle, route_held, with_orders, route_position,
}
use polymarket_rewards.Exit.Allowed.{is_waiting, is_early, Allowed, route_compare-Added}

with_orders-calls :
    (orders : List OpenOrder) (s : RouterState) → (with_orders orders s).calls ≡ s.calls
with_orders-calls orders s = elim (Bool-cases (is_empty orders)) [
  | inl none_given ↦ rw none_given refl
  | inr given ↦ rw given refl
]

module _ (env : Answers) (cid asset : Text) (size : ℕ) where
  after_maker-calls :
      (price : ℕ) (answer : Option Text) (s : RouterState)
      → (after_maker env asset price size answer s).calls ≡ s.calls
  unfolding after_maker
  after_maker-calls price none s = refl
  after_maker-calls price (some order_id) s = elim (Bool-cases (is_empty order_id)) [
    | inl missing ↦ rw missing refl
    | inr named ↦ rw named refl
  ]

  place_maker-Added :
      (price : Option ℕ) (s : RouterState)
      → maker_sell_price [] (env.sell_book asset).best_ask ≡ price
      → Added (Allowed env cid asset size true) s (place_maker env asset size price s)
  unfolding place_maker
  place_maker-Added none s priced = Added-none _ s s refl
  place_maker-Added (some price) s priced =
      let P = Allowed env cid asset size true in
      let cleared = cancel_sells asset s in
      let called = calling (maker_call asset price size) cleared in
      let placed =
        after_maker env asset price size (env.place_limit_sell asset price size) called in
      let (ask, pos_price) =
        (maker_sell_price_first [] (env.sell_book asset).best_ask price).0 priced in
      Added-trans P s called placed
        (Added-trans P s cleared called (cancel_sells-Added P (λ ids. tt) asset s)
          (Added-call P (maker_call asset price size) cleared (refl, refl, refl, ask, pos_price)))
        (Added-none P called placed
          (after_maker-calls price (env.place_limit_sell asset price size) called))

  maker_step-Added :
      (lots : List Lot) (resting : Bool) (s : RouterState)
      → Added
          (Allowed env cid asset size (is_waiting env lots))
          s
          (maker_step env cid asset size lots (env.sell_book asset).best_ask resting s).1
  unfolding maker_step give_up_maker is_due
  maker_step-Added lots true s = elim (Bool-cases (is_waiting env lots)) [
    | inr due ↦
        let P = Allowed env cid asset size false in
        let cleared = give_up_maker asset s in
        rw due (
          Added-trans P s cleared (route_compare env cid asset size cleared).1
            (cancel_sells-Added P (λ ids. tt) asset s)
            (route_compare-Added env cid asset size cleared))
    | inl early ↦ rw early (Added-none (Allowed env cid asset size true) s s refl)
  ]
  maker_step-Added lots false s = elim (Bool-cases (is_waiting env lots)) [
    | inr due ↦ rw due (route_compare-Added env cid asset size s)
    | inl early ↦ rw early (place_maker-Added _ s refl)
  ]

  route_single-Added :
      (cost : Frac) (lots : List Lot) (s : RouterState)
      → Added
          (Allowed env cid asset size (is_early env asset cost lots))
          s
          (route_single env cid asset size cost lots s).1
  unfolding route_single maker_route
  route_single-Added cost lots s =
      elim (Bool-cases (
        stop_hit env cost (env.sell_book asset).best_bid
        || (env.template.exit_maker_wait_sec == 0))) [
          | inl now ↦ rw now (route_compare-Added env cid asset size s)
          | inr wait ↦ rw wait (maker_step-Added lots _ s)
        ]

  -- The pair that the route looks for.
  abbrev pair_sought : Option (Text × ℕ)
  pair_sought = if env.template.merge_enabled then pair_for cid asset env.positions else none

  pair_sought-some :
      (pair : Text × ℕ)
      → pair_sought ≡ some pair
      → (env.template.merge_enabled ≡ true) × (pair_for cid asset env.positions ≡ some pair)
  pair_sought-some pair e = elim (Bool-cases env.template.merge_enabled) [
    | inl on ↦ (on, rw on at e)
    | inr off ↦ absurd (cc (rw off at e))
  ]

  merge-Allowed :
      (early : Bool) (other : Text) (other_size id : ℕ)
      → pair_sought ≡ some (other, other_size)
      → env.template.merge_min_shares ≤ pair_amount size other_size
      → env.relayer_ok ≡ true
      → Allowed env cid asset size early (merge_call id cid (pair_amount size other_size))
  unfolding pair_amount
  merge-Allowed early other other_size id sought big able =
      let (on, found) = pair_sought-some (other, other_size) sought in
      (refl, on, able, big, other, other_size, found, refl)

  route_pair-Added :
      (cost : Frac) (lots : List Lot) (other : Option (Text × ℕ)) (s : RouterState)
      → pair_sought ≡ other
      → Added
          (Allowed env cid asset size (is_early env asset cost lots))
          s
          (route_pair env cid asset size cost lots other s).1
  unfolding route_pair
  route_pair-Added cost lots none s sought = route_single-Added cost lots s
  route_pair-Added cost lots (some (other, other_size)) s sought =
      let P = Allowed env cid asset size (is_early env asset cost lots) in
      let other_lots = (env.cost_lots other other_size cid).1 in
      let r = pair_merge_route env cid asset other size other_size lots other_lots s in
      let first : Added P s r.1 =
        pair_merge_route-Added P (λ ids. tt) env cid asset other size other_size lots other_lots s
          (λ id big able.
            merge-Allowed (is_early env asset cost lots) other other_size id sought big able) in
      elim (Bool-cases r.0) [
        | inl handled ↦ rw handled first
        | inr passed ↦ rw passed (
            Added-trans P s r.1 (route_single env cid asset size cost lots r.1).1 first
              (route_single-Added cost lots r.1))
      ]

  route_cost-Added :
      (cost : Frac) (lots : List Lot) (s : RouterState)
      → Added
          (Allowed env cid asset size (is_early env asset cost lots))
          s
          (route_cost env cid asset size (some cost) lots s).1
  unfolding route_cost
  route_cost-Added cost lots s = elim (Bool-cases (cost.num == 0)) [
    | inl free ↦ rw free (Added-none _ s s refl)
    | inr paid ↦ rw paid (route_pair-Added cost lots pair_sought s refl)
  ]

  route_idle-Added :
      (active : Option Event) (cost : Frac) (s : RouterState)
      → (env.cost_lots asset size cid).0 ≡ some cost
      → Added
          (Allowed env cid asset size (is_early env asset cost (env.cost_lots asset size cid).1))
          s
          (route_idle env cid asset size active s).1
  unfolding route_idle
  route_idle-Added (some active) cost s known = Added-none _ s s refl
  route_idle-Added none cost s known =
      rw known (route_cost-Added cost (env.cost_lots asset size cid).1 s)

-- While a position of known cost waits (there is no stop, a wait is set, and it is not over), its route
-- sends nothing but cancellations, a merge, and a resting sale of the whole position at the best ask.
-- A merge is only sent with merging enabled and the relayer there, on the position's own market, where
-- the other half is held too, and for the smaller of the two holdings, which is at least the minimum. Afterwards it sends no resting sale: a sale at once has the worst price
-- of the direct quote as its limit, and the other half is bought only where a dollar a pair, less the
-- cost at the order's own limit, is at least the direct recovery and the wanted advantage.
pub route_position-Allowed :
    (env : Answers) (orders : List OpenOrder) (p : Holding) (cost : Frac) (s : RouterState)
    → (env.cost_lots p.asset p.size p.condition_id).0 ≡ some cost
    → Added
        (Allowed env p.condition_id p.asset p.size
          (is_early env p.asset cost (env.cost_lots p.asset p.size p.condition_id).1))
        s
        (route_position env orders p s).1
unfolding route_position route_held
route_position-Allowed env orders p cost s known =
    let begun = with_orders orders s in
    let P =
      Allowed env p.condition_id p.asset p.size
        (is_early env p.asset cost (env.cost_lots p.asset p.size p.condition_id).1) in
    let same : begun.calls ≡ s.calls = with_orders-calls orders s in
    let is_off =
      (p.size == 0)
      || is_empty p.condition_id
      || ((env.template.exit_maker_wait_sec == 0) && not env.template.merge_enabled) in
    let active = get_active_merge_event env.wallet p.condition_id begun.table.rows in
    let routed = route_idle env p.condition_id p.asset p.size active begun in
    Added-trans P s begun (if is_off then (false, begun) else routed).1 (Added-none P s begun same)
      (elim (Bool-cases is_off) [
        | inl off ↦ rw off (Added-none P begun begun refl)
        | inr on ↦
            rw on (route_idle-Added env p.condition_id p.asset p.size active cost begun known)
      ])
