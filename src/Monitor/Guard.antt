-- ===== src/Monitor/Guard.antt =====
-- engine/monitor.py: `check_resolution`, the cancellation of the buys on markets in resolution. The answers
-- are a record of functions, where `none` and `false` are exceptions; a status that cannot be read is
-- `none` too.
use polymarket_rewards.Base.{Bool, Option, none, some, List, [], ◌∷◌, ◌++◌, if◌then◌else◌, is_empty}
use polymarket_rewards.Base.Text.{Text, codes, text_eq}
use polymarket_rewards.Place.{OpenOrder, in_resolution}

pub record GuardSources : Type 0 where
  pub open_orders : Option (List OpenOrder)
  pub uma_status : Text → Option Text
  pub cancel_orders : List (Option Text) → Bool

-- Markets with the ids of orders on them.
abbrev pub Requests : Type 0
Requests = List (Text × List (Option Text))

-- The requests that were sent, and the rows of the status table: whether each went through.
pub record GuardState : Type 0 where
  pub requests : Requests
  pub rows : List (Text × Bool)

-- `buys_by_cid.setdefault(cid, []).append(o)`
unfoldable pub add_buy : Text → Option Text → Requests → Requests
add_buy market id [] = (market, id ∷ []) ∷ []
add_buy market id (g ∷ groups) =
    if text_eq g.0 market then (g.0, g.1 ++ id ∷ []) ∷ groups else g ∷ add_buy market id groups

abbrev pub add_order : OpenOrder → Requests → Requests
add_order o groups =
    if text_eq o.side (codes "BUY")
    then if is_empty o.market then groups else add_buy o.market o.order.id groups
    else groups

unfoldable pub buys_by_market : List OpenOrder → Requests → Requests
unfolding add_buy
buys_by_market [] groups = groups
buys_by_market (o ∷ orders) groups = buys_by_market orders (add_order o groups)

abbrev pub guard_market : GuardSources → Text × List (Option Text) → GuardState → GuardState
guard_market x g s =
    if in_resolution (x.uma_status g.0)
    then record {
      requests = s.requests ++ g ∷ [];
      rows = s.rows ++ (g.0, x.cancel_orders g.1) ∷ [];
    }
    else s

unfoldable pub guard_all : GuardSources → Requests → GuardState → GuardState
unfolding in_resolution
guard_all x [] s = s
guard_all x (g ∷ groups) s = guard_all x groups (guard_market x g s)

unfoldable pub check_resolution : GuardSources → GuardState → GuardState
unfolding guard_all buys_by_market
check_resolution x s = elim x.open_orders [
  | none ↦ s
  | some orders ↦ guard_all x (buys_by_market orders []) s
]
