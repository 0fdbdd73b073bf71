-- ===== src/Exit/Steps.antt =====
-- engine/exit_router.py: a whole tick is a run of the steps that the merge events are studied by.
use polymarket_rewards.Base.{
  ℕ, ◌≡◌, refl, ◌∙◌, inl, inr, Bool, true, false, ◌&&◌, ◌||◌, not, Option, none, some, List, [],
  ◌==◌, Bool-cases, is_empty,
}
use polymarket_rewards.Base.Frac.{Frac}
use polymarket_rewards.Base.Text.{Text}
use polymarket_rewards.Cost.{Lot}
use polymarket_rewards.Quote.{FakPlan, MergeQuote, maker_sell_price}
use polymarket_rewards.Merges.{Event, Holding, Answers, OpenOrder, RouterState, pair_merge_route}
use polymarket_rewards.Merges.Moves.{cancel_sells-table}
use polymarket_rewards.Merges.Steps.{
  pair_step, fok_step, quiet_step, Reaches, here, Reaches-trans, Reaches-Step,
}
use polymarket_rewards.Exit.Compare.{
  protected_fak, fok_route, choose_route, compare_with, merge_option, direct_quote, route_compare,
  stop_hit,
}
use polymarket_rewards.Exit.Defs.{
  after_maker, place_maker, is_due, give_up_maker, maker_step, maker_route, route_single,
  route_pair, route_cost, route_idle, route_held, with_orders, route_position,
}

quiet : (s t : RouterState) → t.table ≡ s.table → Reaches s t
quiet s t same = Reaches-Step s t (quiet_step s t same)

module _ (env : Answers) where
  choose_route-Reaches :
      (cid asset : Text) (size : ℕ) (direct : FakPlan) (option : Option (Text × MergeQuote))
      (s : RouterState)
      → Reaches s (choose_route env cid asset size direct option s).1
  unfolding choose_route protected_fak fok_route
  choose_route-Reaches cid asset size direct none s = quiet s _ (cancel_sells-table asset s)
  choose_route-Reaches cid asset size direct (some (complement, quote)) s =
      elim (Bool-cases quote.feasible) [
        | inl good ↦ rw good (Reaches-Step s _ (fok_step env cid asset complement size _ _ s))
        | inr bad ↦ rw bad (quiet s _ (cancel_sells-table asset s))
      ]

  compare_with-Reaches :
      (cid asset : Text) (size : ℕ) (direct : Option FakPlan) (s : RouterState)
      → Reaches s (compare_with env cid asset size direct s).1
  unfolding compare_with
  compare_with-Reaches cid asset size none s = here s
  compare_with-Reaches cid asset size (some direct) s =
      choose_route-Reaches cid asset size direct (merge_option env cid asset size direct) s

  route_compare-Reaches :
      (cid asset : Text) (size : ℕ) (s : RouterState)
      → Reaches s (route_compare env cid asset size s).1
  unfolding route_compare
  route_compare-Reaches cid asset size s =
      compare_with-Reaches cid asset size (direct_quote size (env.get_orderbook asset)) s

  after_maker-table :
      (asset : Text) (price size : ℕ) (answer : Option Text) (s : RouterState)
      → (after_maker env asset price size answer s).table ≡ s.table
  unfolding after_maker
  after_maker-table asset price size none s = refl
  after_maker-table asset price size (some order_id) s = elim (Bool-cases (is_empty order_id)) [
    | inl missing ↦ rw missing refl
    | inr named ↦ rw named refl
  ]

  place_maker-table :
      (asset : Text) (size : ℕ) (price : Option ℕ) (s : RouterState)
      → (place_maker env asset size price s).table ≡ s.table
  unfolding place_maker
  place_maker-table asset size none s = refl
  place_maker-table asset size (some price) s =
      after_maker-table asset price size _ _ ∙ cancel_sells-table asset s

  maker_route-Reaches :
      (cid asset : Text) (size : ℕ) (lots : List Lot) (best_ask : Option ℕ) (resting : Bool)
      (s : RouterState)
      → Reaches s (maker_step env cid asset size lots best_ask resting s).1
  unfolding maker_step give_up_maker
  maker_route-Reaches cid asset size lots best_ask true s = elim (Bool-cases (is_due env lots)) [
    | inl due ↦ rw due (
        Reaches-trans s _ _ (quiet s (give_up_maker asset s) (cancel_sells-table asset s))
          (route_compare-Reaches cid asset size (give_up_maker asset s)))
    | inr early ↦ rw early (here s)
  ]
  maker_route-Reaches cid asset size lots best_ask false s = elim (Bool-cases (is_due env lots)) [
    | inl due ↦ rw due (route_compare-Reaches cid asset size s)
    | inr early ↦
        rw early (quiet s _ (place_maker-table asset size (maker_sell_price [] best_ask) s))
  ]

  route_single-Reaches :
      (cid asset : Text) (size : ℕ) (cost : Frac) (lots : List Lot) (s : RouterState)
      → Reaches s (route_single env cid asset size cost lots s).1
  unfolding route_single maker_route
  route_single-Reaches cid asset size cost lots s =
      let book = env.sell_book asset in
      elim (Bool-cases
        (stop_hit env cost book.best_bid || (env.template.exit_maker_wait_sec == 0))) [
          | inl now ↦ rw now (route_compare-Reaches cid asset size s)
          | inr wait ↦ rw wait (maker_route-Reaches cid asset size lots book.best_ask _ s)
        ]

  route_pair-Reaches :
      (cid asset : Text) (size : ℕ) (cost : Frac) (lots : List Lot) (other : Option (Text × ℕ))
      (s : RouterState)
      → Reaches s (route_pair env cid asset size cost lots other s).1
  unfolding route_pair
  route_pair-Reaches cid asset size cost lots none s =
      route_single-Reaches cid asset size cost lots s
  route_pair-Reaches cid asset size cost lots (some (other, other_size)) s =
      let other_lots = (env.cost_lots other other_size cid).1 in
      let r = pair_merge_route env cid asset other size other_size lots other_lots s in
      let first =
        Reaches-Step s r.1 (pair_step env cid asset other size other_size lots other_lots s) in
      elim (Bool-cases r.0) [
        | inl handled ↦ rw handled first
        | inr passed ↦
            rw passed
              (Reaches-trans s r.1 _ first (route_single-Reaches cid asset size cost lots r.1))
      ]

  route_cost-Reaches :
      (cid asset : Text) (size : ℕ) (cost : Option Frac) (lots : List Lot) (s : RouterState)
      → Reaches s (route_cost env cid asset size cost lots s).1
  unfolding route_cost
  route_cost-Reaches cid asset size none lots s = here s
  route_cost-Reaches cid asset size (some cost) lots s = elim (Bool-cases (cost.num == 0)) [
    | inl free ↦ rw free (here s)
    | inr paid ↦ rw paid (route_pair-Reaches cid asset size cost lots _ s)
  ]

  route_idle-Reaches :
      (cid asset : Text) (size : ℕ) (active : Option Event) (s : RouterState)
      → Reaches s (route_idle env cid asset size active s).1
  unfolding route_idle
  route_idle-Reaches cid asset size (some active) s = here s
  route_idle-Reaches cid asset size none s =
      let (cost, lots) = env.cost_lots asset size cid in
      route_cost-Reaches cid asset size cost lots s

  route_held-Reaches : (p : Holding) (s : RouterState) → Reaches s (route_held env p s).1
  unfolding route_held
  route_held-Reaches p s =
      elim (Bool-cases (
        (p.size == 0)
        || is_empty p.condition_id
        || ((env.template.exit_maker_wait_sec == 0) && not env.template.merge_enabled))) [
          | inl off ↦ rw off (here s)
          | inr on ↦ rw on (route_idle-Reaches p.condition_id p.asset p.size _ s)
        ]

  with_orders-table :
      (orders : List OpenOrder) (s : RouterState) → (with_orders orders s).table ≡ s.table
  with_orders-table orders s = elim (Bool-cases (is_empty orders)) [
    | inl none_given ↦ rw none_given refl
    | inr given ↦ rw given refl
  ]

  pub route_position-Reaches :
      (orders : List OpenOrder) (p : Holding) (s : RouterState)
      → Reaches s (route_position env orders p s).1
  unfolding route_position
  route_position-Reaches orders p s =
      Reaches-trans s (with_orders orders s) _ (quiet s _ (with_orders-table orders s))
        (route_held-Reaches p (with_orders orders s))
