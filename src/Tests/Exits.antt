-- ===== src/Tests/Exits.antt =====
-- Examples for the routes and ticks of engine/exit_router.py.
use polymarket_rewards.Base.{ℕ, ◌≡◌, refl, none, some, List, [], ◌∷◌, ◌++◌, arith}
use polymarket_rewards.Base.Text.{codes}
use polymarket_rewards.Cost.{Lot}
use polymarket_rewards.Ledger.{pair_amount}
use polymarket_rewards.TakeProfit.{whole}
use polymarket_rewards.Merges.{
  pair_balance_ok, Answers, FokAnswer, Holding, RouterState, fok_call, reconcile_event,
  start_fok_merge,
}
use polymarket_rewards.Merges.Invariant.{OneActive}
use polymarket_rewards.Merges.Keys.{IsKeyed}
use polymarket_rewards.Exit.{TickInput, run, route_position}
use polymarket_rewards.Exit.Refines.{run-OneActive}
use polymarket_rewards.Exit.Calls.{Added}
use polymarket_rewards.Exit.Allowed.{is_early, Allowed}
use polymarket_rewards.Exit.Timing.{route_position-Allowed}
use polymarket_rewards.Exit.Twice.{reserved, lost_answer_sends_twice}
use polymarket_rewards.Tests.Events.{world, start, one_active}

-- Fifty shares of `y`, bought at forty cents.
abbrev held_y : Holding
held_y = record { condition_id = codes "m2"; asset = codes "y"; size = 50_000_000 }

abbrev bought : Lot
bought = record { price = 400_000; remaining = 50_000_000; ts = 980; trade_id = none }

-- The other half is for sale at fifty cents, and the bid for ours is thirty cents.
abbrev pub market : Answers
market = record world {
  positions = held_y ∷ [];
  eligible_markets = record { market_id = codes "m2"; token_id = codes "n" } ∷ [];
  cost_lots = λ asset size cid. (some (whole 400_000), bought ∷ []);
  sell_book = λ asset. record { best_bid = some 300_000; best_ask = some 420_000 };
  get_orderbook = λ asset. some (record {
    bids = record { price = 300_000; size = 90_000_000 } ∷ [];
    asks = record { price = 500_000; size = 90_000_000 } ∷ [];
  });
  place_fok_buy = λ token price size. FokAnswer.network_error;
}

abbrev late : Answers
late = record market { now = 2000 }

abbrev fresh : RouterState
fresh = record start { table = record { rows = [] } }

keyed : IsKeyed start.table.rows
keyed = omega arith

abbrev two_ticks : List TickInput
two_ticks =
    record { env = market; orders = []; routed = held_y ∷ [] }
    ∷ record { env = late; orders = []; routed = held_y ∷ [] }
    ∷ []

run-OneActive_example :
    IsKeyed (run two_ticks start).table.rows × OneActive (run two_ticks start).table.rows
run-OneActive_example = run-OneActive two_ticks start keyed one_active

route_position-Allowed_example :
    Added
      (Allowed market
        (codes "m2")
        (codes "y")
        50_000_000
        (is_early market (codes "y") (whole 400_000) (bought ∷ [])))
      fresh
      (route_position market [] held_y fresh).1
route_position-Allowed_example = route_position-Allowed market [] held_y (whole 400_000) fresh refl

lost_answer_sends_twice_example :
    let s1 =
      start_fok_merge late (codes "m2") (codes "y") (codes "n") 50_000_000 500_000 [] fresh in
    let s2 =
      reconcile_event late
        (reserved (codes "m2") (codes "y") (codes "n") 50_000_000 500_000 [] late fresh)
        s1 in
    (id : ℕ) × ((start_fok_merge late
        (codes "m2")
        (codes "y")
        (codes "n")
        50_000_000
        500_000
        []
        s2).calls
      ≡ ([] ++ fok_call 1 (codes "n") 500_000 50_000_000 ∷ [])
        ++ fok_call id (codes "n") 500_000 50_000_000 ∷ [])
unfolding pair_balance_ok pair_amount
lost_answer_sends_twice_example =
    lost_answer_sends_twice (codes "m2") (codes "y") (codes "n") 50_000_000 500_000 [] late late
      late fresh refl refl refl refl
