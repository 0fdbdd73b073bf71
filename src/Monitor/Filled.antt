-- ===== src/Monitor/Filled.antt =====
-- engine/monitor.py: `init_watermark`, `_prime_seen_keys`, `check_buy_orders` and `_handle_fill`. What the
-- exchange answers is a record of functions, where `none` and `false` are exceptions.
use polymarket_rewards.Base.{
  ℕ, Bool, true, false, ◌&&◌, not, Option, none, some, List, [], ◌∷◌, ◌++◌, max, ◌==◌, any,
  if◌then◌else◌, is_empty,
}
use polymarket_rewards.Base.Text.{Text, opt_eq}
use polymarket_rewards.Fills.{Trade, BuyEvent, Key, select_new_buy_fills}

-- All trades, those that the exchange returns for a time, and the ids of the open orders.
pub record FillSources : Type 0 where
  pub all_trades : Option (List Trade)
  pub get_trades : (after : Option ℕ) → Option (List Trade)
  pub open_ids : Option (List (Option Text))
  pub cancel_order : Text → Bool

-- `_seen_fill_keys`, `_after_ts` and `_prime_pending`; the markets that were put to cool down, and the
-- orders whose cancellation was sent.
pub record FillState : Type 0 where
  pub seen_keys : List Key
  pub after_ts : ℕ
  pub prime_pending : Bool
  pub cooldowns : List Text
  pub cancels : List Text

-- What both loops end with for a fill.
abbrev pub remember_fill : BuyEvent → FillState → FillState
remember_fill ev s = record s {
  seen_keys = s.seen_keys ++ (ev.trade_id, ev.order_id) ∷ [];
  after_ts = max s.after_ts ev.ts;
}

unfoldable pub remember_all : List BuyEvent → FillState → FillState
remember_all [] s = s
remember_all (ev ∷ fills) s = remember_all fills (remember_fill ev s)

-- Whether it worked, and the state.
abbrev pub prime_with : Option Text → Option (List Trade) → FillState → Bool × FillState
prime_with funder none s = (false, s)
prime_with funder (some trades) s = (
  true,
  record (remember_all (select_new_buy_fills trades funder []) s) { prime_pending = false },
)

unfoldable pub prime_seen_keys : FillSources → Option Text → FillState → Bool × FillState
unfolding remember_all select_new_buy_fills
prime_seen_keys x funder s = prime_with funder x.all_trades s

-- `max(times) if times else 0.0`
unfoldable pub latest : List ℕ → ℕ
latest [] = 0
latest (t ∷ times) = max t (latest times)

abbrev pub or_pending : Bool × FillState → FillState
or_pending (primed, s) = if primed then s else record s { prime_pending = true }

-- The times are those of the recorded trades and actions.
unfoldable pub init_watermark : FillSources → Option Text → (times : List ℕ) → FillState → FillState
unfolding prime_seen_keys latest
init_watermark x funder times s =
    or_pending (prime_seen_keys x funder (record s { after_ts = latest times }))

abbrev pub has_order : Option Text → List (Option Text) → Bool
has_order id ids = any (opt_eq id) ids

-- `order_id and order_id in open_ids and order_id not in cancelled_orders`
abbrev pub is_rest_open : Option Text → List (Option Text) → List (Option Text) → Bool
is_rest_open none open_ids cancelled = false
is_rest_open (some id) open_ids cancelled =
    not (is_empty id) && (has_order (some id) open_ids && not (has_order (some id) cancelled))

-- The cancelled orders of this tick, and the state.
abbrev pub cancel_rest :
    FillSources → Option Text → List (Option Text) → FillState → List (Option Text) × FillState
cancel_rest x none cancelled s = (cancelled, s)
cancel_rest x (some id) cancelled s = (
  (if x.cancel_order id then some id ∷ cancelled else cancelled),
  record s { cancels = s.cancels ++ id ∷ [] },
)

unfoldable pub handle_fill :
    FillSources
    → BuyEvent
    → List (Option Text)
    → List (Option Text)
    → FillState
    → List (Option Text) × FillState
handle_fill x ev cancelled open_ids s =
    let cooled = record s { cooldowns = s.cooldowns ++ ev.market ∷ [] } in
    if ev.size == 0
    then (cancelled, s)
    else if is_rest_open ev.order_id open_ids cancelled
    then cancel_rest x ev.order_id cancelled cooled
    else (cancelled, cooled)

-- The loop over the fills.
unfoldable pub handle_all :
    FillSources → List (Option Text) → List BuyEvent → List (Option Text) → FillState → FillState
unfolding handle_fill
handle_all x open_ids [] cancelled s = s
handle_all x open_ids (ev ∷ fills) cancelled s =
    let handled = handle_fill x ev cancelled open_ids s in
    handle_all x open_ids fills handled.0 (remember_fill ev handled.1)

abbrev pub ids_or_none : Option (List (Option Text)) → List (Option Text)
ids_or_none none = []
ids_or_none (some ids) = ids

abbrev pub handle_trades : FillSources → Option Text → Option (List Trade) → FillState → FillState
handle_trades x funder none s = s
handle_trades x funder (some trades) s =
    handle_all x (ids_or_none x.open_ids) (select_new_buy_fills trades funder s.seen_keys) [] s

-- The watermark is passed where it is not 0.
abbrev pub after_of : ℕ → Option ℕ
after_of ts = if ts == 0 then none else some ts

abbrev pub step_primed : FillSources → Option Text → Bool × FillState → FillState
step_primed x funder (primed, s) =
    if primed then handle_trades x funder (x.get_trades (after_of s.after_ts)) s else s

unfoldable pub check_buy_orders : FillSources → Option Text → FillState → FillState
unfolding handle_all prime_seen_keys
check_buy_orders x funder s =
    step_primed x funder (if s.prime_pending then prime_seen_keys x funder s else (true, s))
