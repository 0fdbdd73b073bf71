-- ===== src/Exit/Tick.antt =====
-- engine/exit_router.py: the start of a tick, `reconcile_pending`, and the positions after it. The
-- sizes that the router saw last serve the log of actions only and are left out.
use polymarket_rewards.Base.{List, [], ◌∷◌, ◌++◌, keep}
use polymarket_rewards.Merges.{
  ready, submitted, Event, list_merge_events, Holding, Answers, OpenOrder, RouterState, order_open,
  reconcile_event,
}
use polymarket_rewards.Exit.Defs.{route_position}

-- A managed sale that is not open any more is forgotten: it was filled or cancelled.
unfoldable pub reconcile_managed_sells : RouterState → RouterState
reconcile_managed_sells s = record s {
  managed_sells = keep (λ m. order_open m.order_id s.open_orders) s.managed_sells;
}

unfoldable pub reconcile_all : Answers → List Event → RouterState → RouterState
reconcile_all env [] s = s
reconcile_all env (ev ∷ active) s = reconcile_all env active (reconcile_event env ev s)

-- The open events, read before any is reconciled: at most a hundred of each status, newest first.
unfoldable pub open_events : Answers → RouterState → List Event
unfolding list_merge_events
open_events env s =
    list_merge_events env.wallet ready 100 s.table.rows
    ++ list_merge_events env.wallet submitted 100 s.table.rows

unfoldable pub reconcile_events : Answers → RouterState → RouterState
unfolding reconcile_all open_events
reconcile_events env s = reconcile_all env (open_events env s) s

unfoldable pub reconcile_pending : Answers → List OpenOrder → RouterState → RouterState
unfolding reconcile_managed_sells reconcile_events
reconcile_pending env orders s =
    reconcile_events env (reconcile_managed_sells (record s { open_orders = orders }))

-- The positions in turn; the answer whether each was handled goes to the monitor.
unfoldable pub route_all : Answers → List OpenOrder → List Holding → RouterState → RouterState
unfolding route_position
route_all env orders [] s = s
route_all env orders (p ∷ ps) s = route_all env orders ps (route_position env orders p s).1

-- `routed` are the positions that the monitor hands over, in its order.
unfoldable pub tick : Answers → List OpenOrder → List Holding → RouterState → RouterState
unfolding reconcile_pending route_all
tick env orders routed s = route_all env orders routed (reconcile_pending env orders s)

-- A tick's world, the open orders and the positions that the monitor hands over.
pub record TickInput : Type 0 where
  pub env : Answers
  pub orders : List OpenOrder
  pub routed : List Holding

unfoldable pub run : List TickInput → RouterState → RouterState
unfolding tick
run [] s = s
run (i ∷ ticks) s = run ticks (tick i.env i.orders i.routed s)
