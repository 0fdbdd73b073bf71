-- ===== src/Tests/Events.antt =====
-- Examples for the merge events of models/database.py and engine/exit_router.py.
use polymarket_rewards.Base.{◌≡◌, refl, true, none, some, [], ◌∷◌, arith}
use polymarket_rewards.Base.Text.{codes}
use polymarket_rewards.Merges.{
  submitted, confirmed, fok_merge, Event, get_merge_event, get_active_merge_event, Answers,
  FokAnswer, Template, RouterState, reconcile_event, pair_merge_route, start_fok_merge, new_event,
}
use polymarket_rewards.Merges.Moves.{Current, Result}
use polymarket_rewards.Merges.Reconcile.{reconcile_event-Result}
use polymarket_rewards.Merges.Invariant.{OneActive}
use polymarket_rewards.Merges.Steps.{reconcile_step, Reaches, here, after}
use polymarket_rewards.Merges.Safety.{Reaches-settled, active_market_untouched}

abbrev pub settings : Template
settings = record {
  exit_maker_wait_sec = 60;
  merge_enabled = true;
  merge_min_shares = 1_000_000;
  merge_min_advantage_usd = 10_000;
  merge_confirm_timeout_sec = 120;
  stop_loss_mode = codes "off";
  stop_loss_percent = none;
  theta_stop_cents = none;
}

-- The relayer has executed the transaction.
abbrev pub world : Answers
world = record {
  now = 1000;
  db_now = 1000;
  wallet = codes "w";
  template = settings;
  relayer_ok = true;
  positions = [];
  eligible_markets = [];
  cost_lots = λ asset size cid. (none, []);
  sell_book = λ asset. record { best_bid = none; best_ask = none };
  get_orderbook = λ asset. none;
  get_order = λ id. none;
  merge_positions = λ cid amount. some (codes "tx1");
  transaction_state = λ tx. some (codes "STATE_MINED");
  place_fok_buy = λ token price size. FokAnswer.rejected;
  place_limit_sell = λ token price size. none;
}

abbrev pub sent : Event
sent =
    record (new_event 1 900 (codes "w") (codes "m") fok_merge 50_000_000 (codes "y") (codes "n") 7
      0) { status = submitted; relayer_tx_id = codes "tx1" }

abbrev pub done_before : Event
done_before = record sent { id = 2; condition_id = codes "k"; status = confirmed }

abbrev pub start : RouterState
start = record {
  table = record { rows = sent ∷ done_before ∷ [] };
  poll_after = [];
  open_orders = [];
  managed_sells = [];
  calls = [];
}

read_back : Current sent start
unfolding get_merge_event
read_back = refl

reconcile_event-Result_example :
    Result sent (sent ∷ done_before ∷ []) (reconcile_event world sent start).table.rows
reconcile_event-Result_example = reconcile_event-Result world sent start read_back

path : Reaches start (reconcile_event world sent start)
path =
    after start start (reconcile_event world sent start) (here start)
      (reconcile_step world sent start read_back)

pub one_active : OneActive (sent ∷ done_before ∷ [])
one_active wallet cid = ground arith

settled_row : get_merge_event 2 (sent ∷ done_before ∷ []) ≡ some done_before
unfolding get_merge_event
settled_row = refl

Reaches-settled_example :
    get_merge_event 2 (reconcile_event world sent start).table.rows ≡ some done_before
Reaches-settled_example =
    Reaches-settled start (reconcile_event world sent start) 2 done_before path settled_row refl

busy : get_active_merge_event (codes "w") (codes "m") (sent ∷ done_before ∷ []) ≡ some sent
unfolding get_active_merge_event
busy = refl

active_market_untouched_example :
    ((pair_merge_route world (codes "m") (codes "y") (codes "n") 9_000_000 9_000_000 [] [] start).1
      ≡ start)
    × (start_fok_merge world (codes "m") (codes "y") (codes "n") 9_000_000 480_000 [] start ≡ start)
active_market_untouched_example =
    active_market_untouched world (codes "m") (codes "y") (codes "n") 9_000_000 9_000_000 480_000 []
      [] start sent busy
