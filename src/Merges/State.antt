-- ===== src/Merges/State.antt =====
-- engine/exit_router.py: the state of the router and the world that it runs in. The answers of the
-- exchange, of the relayer and of the database are a record of functions, one for each tick; every
-- call that sends or cancels something is kept in the state, in order. Status texts for the screen
-- and the log of actions are left out.
use polymarket_rewards.Base.{
  ℕ, Bool, ◌&&◌, not, Option, none, some, List, [], ◌∷◌, ◌++◌, ◌==◌, if◌then◌else◌, is_empty, any,
  keep,
}
use polymarket_rewards.Base.Frac.{Frac}
use polymarket_rewards.Base.Int.{ℤ}
use polymarket_rewards.Base.Text.{Text, codes, text_eq}
use polymarket_rewards.Cost.{Lot}
use polymarket_rewards.Gap.{Bid}
use polymarket_rewards.Merges.Store.{Event, Table, update_merge_event}

pub record OrderState : Type 0 where
  pub status : Text
  pub size_matched : ℕ

pub data FokAnswer : Type 0 where
  rejected network_error : FokAnswer
  answered : Text → Text → FokAnswer

-- A position; its size reads as 0 where it is no number.
pub record Holding : Type 0 where
  pub condition_id : Text
  pub asset : Text
  pub size : ℕ

-- A row of the candidate pool, `eligible_markets`.
pub record PoolRow : Type 0 where
  pub market_id : Text
  pub token_id : Text

pub record SellBook : Type 0 where
  pub best_bid : Option ℕ
  pub best_ask : Option ℕ

pub record OrderBook : Type 0 where
  pub bids : List Bid
  pub asks : List Bid

-- The template of the wallet. Times are seconds, money and shares millionths.
pub record Template : Type 0 where
  pub exit_maker_wait_sec : ℕ
  pub merge_enabled : Bool
  pub merge_min_shares : ℕ
  pub merge_min_advantage_usd : ℕ
  pub merge_confirm_timeout_sec : ℕ
  pub stop_loss_mode : Text
  pub stop_loss_percent : Option ℤ
  pub theta_stop_cents : Option ℤ

-- The world at one tick. `none` is an exception; an empty text is a missing field.
pub record Answers : Type 0 where
  pub now : ℕ
  pub db_now : ℕ
  pub wallet : Text
  pub template : Template
  pub relayer_ok : Bool
  pub positions : List Holding
  pub eligible_markets : List PoolRow
  pub cost_lots : Text → ℕ → Text → Option Frac × List Lot
  pub sell_book : Text → SellBook
  pub get_orderbook : Text → Option OrderBook
  pub get_order : Text → Option OrderState
  pub merge_positions : Text → ℕ → Option Text
  pub transaction_state : Text → Option Text
  pub place_fok_buy : Text → ℕ → ℕ → FokAnswer
  pub place_limit_sell : Text → ℕ → ℕ → Option Text

-- A cancellation; a resting sale, a sale at once and a fill-or-kill purchase, each of a token at a
-- price for a size; a merge. The last two carry the event that they were reserved by.
pub data Call : Type 0 where
  cancel_call : List Text → Call
  maker_call fak_call : Text → ℕ → ℕ → Call
  fok_call : ℕ → Text → ℕ → ℕ → Call
  merge_call : ℕ → Text → ℕ → Call

-- An order that is open on the exchange.
pub record OpenOrder : Type 0 where
  pub id : Text
  pub asset_id : Text
  pub side : Text

-- The resting sale that the router keeps for a token.
pub record Managed : Type 0 where
  pub asset_id : Text
  pub order_id : Text
  pub price : ℕ
  pub size : ℕ
  pub placed_at : ℕ

pub record RouterState : Type 0 where
  pub table : Table
  pub poll_after : List (ℕ × ℕ)
  pub open_orders : List OpenOrder
  pub managed_sells : List Managed
  pub calls : List Call

abbrev pub poll_time : ℕ → List (ℕ × ℕ) → ℕ
poll_time id [] = 0
poll_time id (p ∷ times) = if p.0 == id then p.1 else poll_time id times

abbrev pub set_poll : ℕ → ℕ → RouterState → RouterState
set_poll id time s = record s { poll_after = (id, time) ∷ s.poll_after }

abbrev pub update : Answers → ℕ → (Event → Event) → RouterState → RouterState
update env id change s = record s { table = update_merge_event env.db_now id change s.table }

abbrev pub calling : Call → RouterState → RouterState
calling c s = record s { calls = s.calls ++ c ∷ [] }

abbrev pub is_sell_of : Text → OpenOrder → Bool
is_sell_of asset o = text_eq o.asset_id asset && text_eq o.side (codes "SELL")

abbrev pub sell_ids : Text → List OpenOrder → List Text
sell_ids asset [] = []
sell_ids asset (o ∷ os) =
    let rest = sell_ids asset os in
    if is_sell_of asset o && not (is_empty o.id) then o.id ∷ rest else rest

-- `self._managed_sells.pop(asset_id, None)`
unfoldable pub drop_managed : Text → List Managed → List Managed
drop_managed asset managed = keep (λ m. not (text_eq m.asset_id asset)) managed

unfoldable pub managed_of : Text → List Managed → Option Managed
managed_of asset [] = none
managed_of asset (m ∷ managed) =
    if text_eq m.asset_id asset then some m else managed_of asset managed

-- All open sales of the token are cancelled and forgotten, whether the exchange accepts the
-- cancellation or not.
unfoldable pub cancel_sells : Text → RouterState → RouterState
cancel_sells asset s =
    let ids = sell_ids asset s.open_orders in
    if is_empty ids then s else record s {
      open_orders = keep (λ o. not (is_sell_of asset o)) s.open_orders;
      managed_sells = drop_managed asset s.managed_sells;
      calls = s.calls ++ cancel_call ids ∷ [];
    }

unfoldable pub order_open : Text → List OpenOrder → Bool
order_open id orders = any (λ o. text_eq o.id id) orders
