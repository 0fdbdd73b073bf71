-- ===== src/Place/Rounds.antt =====
-- engine/manager.py: the sides of a market, the market, and the round of `place_orders` over all
-- markets.
use polymarket_rewards.Base.{
  ℕ, Bool, true, false, ◌&&◌, ◌||◌, not, Option, none, some, List, [], ◌∷◌, ◌++◌, leb, keep,
  if◌then◌else◌, is_empty, length, map,
}
use polymarket_rewards.Base.Text.{Text, codes, text_eq}
use polymarket_rewards.Tiers.{TierConf, tier_for}
use polymarket_rewards.Reconcile.{RestingBuy, id_list, reconcile_buy_orders}
use polymarket_rewards.Place.Holdings.{Held, held_side_info, has_text, add_text, in_resolution}
use polymarket_rewards.Place.World.{
  Candidate, OpenOrder, PlaceTemplate, Exchange, cancel, Round, sending,
}
use polymarket_rewards.Place.Market.{
  MarketSide, whole_shares, sides_of, free_side, Budget, budget_of, ladders_of, tolerance,
  place_all,
}

abbrev pub resting_on : Text → List OpenOrder → List RestingBuy
resting_on token orders = map (λ o. o.order) (keep (λ o. text_eq o.asset_id token) orders)

-- What is cancelled and what is placed on a side; `none` where the side is left as it is.
unfoldable pub side_plan :
    PlaceTemplate
    → List Text
    → Budget
    → Text
    → List (ℕ × ℕ)
    → List RestingBuy
    → Option (List Text × List (ℕ × ℕ))
unfolding reconcile_buy_orders
side_plan t held b token ladder resting =
    if has_text token held
    then some (reconcile_buy_orders [] resting 10_000)
    else if b.is_ok
    then some (reconcile_buy_orders ladder resting (tolerance t))
    else none

abbrev pub cancel_first : Text → List Text → Round → Round
cancel_first mid ids r = if is_empty ids then r else sending (cancel mid ids) r

unfoldable pub apply_plan :
    Exchange → Option ℕ → Text → Text → Option (List Text × List (ℕ × ℕ)) → Round → Round
unfolding place_all
apply_plan x limit mid token none r = r
apply_plan x limit mid token (some (ids, to_place)) r =
    place_all x limit mid token to_place (cancel_first mid ids r)

-- One pass of the loop over the two sides; nothing happens after the limit's return.
unfoldable pub side_step :
    Exchange
    → Option ℕ
    → Text
    → List Text
    → List OpenOrder
    → Budget
    → Option MarketSide
    → List (ℕ × ℕ)
    → Round
    → Round
unfolding side_plan apply_plan
side_step x limit mid held buys b none ladder r = r
side_step x limit mid held buys b (some s) ladder r =
    if r.stopped
    then r
    else apply_plan x limit mid s.token_id
        (side_plan x.template held b s.token_id ladder (resting_on s.token_id buys)) r

-- The ladders are empty where the budget is used up.
abbrev pub ladders_or_none :
    PlaceTemplate
    → TierConf
    → ℕ
    → Budget
    → List Text
    → MarketSide
    → Option MarketSide
    → List (ℕ × ℕ) × List (ℕ × ℕ)
ladders_or_none t tier balance b held sa sb =
    if b.is_ok
    then ladders_of t tier balance b (free_side held (some sa)) (free_side held sb)
    else ([], [])

unfoldable pub serve_sides :
    Exchange
    → Option ℕ
    → Text
    → TierConf
    → Held
    → List OpenOrder
    → ℕ
    → MarketSide
    → Option MarketSide
    → Round
    → Round
unfolding side_step budget_of ladders_of
serve_sides x limit mid tier held buys balance sa sb r =
    let b = budget_of x.template held mid balance in
    let (la, lb) = ladders_or_none x.template tier balance b held.assets sa sb in
    side_step x limit mid held.assets buys b sb lb
      (side_step x limit mid held.assets buys b (some sa) la r)

abbrev pub second_of : List MarketSide → Option MarketSide
second_of [] = none
second_of (s ∷ sides) = some s

-- The sides have been read, then the balance.
unfoldable pub serve_market :
    Exchange
    → Option ℕ
    → Text
    → TierConf
    → Held
    → List OpenOrder
    → List MarketSide
    → Option ℕ
    → Round
    → Round
unfolding serve_sides
serve_market x limit mid tier held buys [] balance r = r
serve_market x limit mid tier held buys (sa ∷ sides) none r = r
serve_market x limit mid tier held buys (sa ∷ sides) (some balance) r =
    serve_sides x limit mid tier held buys balance sa (second_of sides) r

abbrev pub is_full : Exchange → Text → Round → Bool
is_full x mid r =
    not (has_text mid r.markets_with_open)
    && leb x.template.max_concurrent_markets (length r.markets_with_open)

-- The tier has been looked up.
unfoldable pub serve_tier :
    Exchange
    → Option ℕ
    → Text
    → List Candidate
    → Held
    → List OpenOrder
    → Option TierConf
    → Round
    → Round
unfolding serve_market sides_of
serve_tier x limit mid entries held buys none r = r
serve_tier x limit mid entries held buys (some tier) r =
    if is_full x mid r
    then r
    else serve_market x limit mid tier held buys (sides_of x entries) (x.get_balance mid) r

-- Blacklisted, in resolution, or cooling down.
abbrev pub is_barred : Exchange → Text → Bool
is_barred x mid =
    has_text mid x.blacklist || (in_resolution (x.uma_status mid) || x.in_cooldown mid)

abbrev pub first_size : List Candidate → ℕ
first_size [] = 0
first_size (e ∷ es) = whole_shares e.rewards_min_size

unfoldable pub market_step :
    Exchange → Option ℕ → Held → List OpenOrder → Text → List Candidate → Round → Round
unfolding serve_tier tier_for in_resolution
market_step x limit held buys mid entries r =
    if r.stopped || is_barred x mid
    then r
    else serve_tier x limit mid entries held buys
        (tier_for x.template.size_tiers (first_size entries)) r

unfoldable pub market_loop :
    Exchange → Option ℕ → Held → List OpenOrder → List (Text × List Candidate) → Round → Round
unfolding market_step
market_loop x limit held buys [] r = r
market_loop x limit held buys (g ∷ groups) r =
    market_loop x limit held buys groups (market_step x limit held buys g.0 g.1 r)

-- `grouped` and `order`: the candidates by market, in the order in which the markets appear.
unfoldable pub add_candidate :
    Candidate → List (Text × List Candidate) → List (Text × List Candidate)
add_candidate e [] = (e.market_id, e ∷ []) ∷ []
add_candidate e (g ∷ groups) =
    if text_eq g.0 e.market_id then (g.0, g.1 ++ e ∷ []) ∷ groups else g ∷ add_candidate e groups

unfoldable pub group_from :
    List (Text × List Candidate) → List Candidate → List (Text × List Candidate)
unfolding add_candidate
group_from groups [] = groups
group_from groups (e ∷ es) = group_from (add_candidate e groups) es

unfoldable pub open_markets : List OpenOrder → List Text → List Text
open_markets [] markets = markets
open_markets (o ∷ orders) markets =
    open_markets orders (if is_empty o.market then markets else add_text o.market markets)

-- A resting buy on a market that has dropped out of the candidates and is not cooling down.
abbrev pub is_dropped : Exchange → List Text → OpenOrder → Bool
is_dropped x eligible o =
    not (is_empty o.market) && (not (has_text o.market eligible) && not (x.in_cooldown o.market))

unfoldable pub ids_of : List OpenOrder → List Text
ids_of [] = []
ids_of (o ∷ orders) = id_list o.order.id ++ ids_of orders

-- The markets that are given up stay counted where the cancellation fails.
unfoldable pub drop_markets : Exchange → List Text → List OpenOrder → Round → Round
unfolding ids_of
drop_markets x eligible buys r =
    let dropped = keep (is_dropped x eligible) buys in
    let ids = ids_of dropped in
    let sent = sending (cancel [] ids) r in
    if is_empty ids
    then r
    else if x.cancel_orders ids
    then record sent {
      markets_with_open =
          keep (λ m. not (has_text m (map (λ o. o.market) dropped))) r.markets_with_open;
    }
    else sent

abbrev pub buys_of : List OpenOrder → List OpenOrder
buys_of orders = keep (λ o. text_eq o.side (codes "BUY")) orders

abbrev pub begin : List OpenOrder → Round
begin buys = record {
  placed = 0;
  markets_with_open = open_markets buys [];
  sent = [];
  stopped = false;
}

-- The round, once the open orders and the positions have been read.
unfoldable pub place_round :
    Exchange → List Candidate → Option ℕ → (cancel_dropouts : Bool) → List OpenOrder → Held → Round
unfolding market_loop group_from drop_markets open_markets
place_round x eligible limit cancel_dropouts buys held =
    let groups = group_from [] eligible in
    let start = begin buys in
    market_loop x limit held buys groups
      (if cancel_dropouts then drop_markets x (map (λ g. g.0) groups) buys start else start)

-- Where the open orders or the positions cannot be read the round does nothing.
abbrev pub idle : Round
idle = record { placed = 0; markets_with_open = []; sent = []; stopped = true }

unfoldable pub place_orders :
    Exchange → List Candidate → Option ℕ → (cancel_dropouts : Bool) → Round
unfolding place_round held_side_info
place_orders x eligible limit cancel_dropouts = elim x.open_orders [
  | none ↦ idle
  | some orders ↦ elim x.positions [
    | none ↦ idle
    | some positions ↦
        place_round x eligible limit cancel_dropouts (buys_of orders) (held_side_info positions)
  ]
]
