-- ===== src/Tests/Guards.antt =====
-- Examples for the resolution guard of engine/monitor.py.
use polymarket_rewards.Base.{◌≡◌, refl, true, ◌&&◌, ◌||◌, some, [], ◌∷◌, any}
use polymarket_rewards.Base.Text.{codes}
use polymarket_rewards.Place.{in_resolution}
use polymarket_rewards.Monitor.{GuardSources, GuardState, check_resolution}
use polymarket_rewards.Monitor.Resolved.{asks_for, is_buy_on, check_resolution-asks}
use polymarket_rewards.Tests.Rechecks.{order}

abbrev sources : GuardSources
sources = record {
  open_orders = some (order ∷ []);
  uma_status = λ m. some (codes "proposed");
  cancel_orders = λ ids. true;
}

abbrev nothing_asked : GuardState
nothing_asked = record { requests = []; rows = [] }

check_resolution-asks_example :
    asks_for (codes "0xm1") (some (codes "o1")) (check_resolution sources nothing_asked).requests
    ≡ (asks_for (codes "0xm1") (some (codes "o1")) []
        || (in_resolution (some (codes "proposed"))
            && any (is_buy_on (codes "0xm1") (some (codes "o1"))) (order ∷ [])))
check_resolution-asks_example =
    check_resolution-asks sources (order ∷ []) nothing_asked (codes "0xm1") (some (codes "o1")) refl
      refl

abbrev after : GuardState
after = check_resolution sources nothing_asked
