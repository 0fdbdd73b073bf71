-- ===== src/Cost/Defs.antt =====
-- engine/take_profit.py: the FIFO replay of fills and merges, and the weighted cost.
use polymarket_rewards.Base.{
  ℕ, ◌-◌, ◌*◌, Bool, ◌||◌, not, Option, none, some, List, [], ◌∷◌, ◌++◌, min, leb, ◌==◌,
  if◌then◌else◌, is_empty, sum_of,
}
use polymarket_rewards.Base.Sort.{sort_by}
use polymarket_rewards.Base.Frac.{Frac}
use polymarket_rewards.Base.Text.{Text, codes, text_eq, upper}
use polymarket_rewards.Base.Amount.{within_tolerance}

-- One of our fills on a token, as `extract_fills` returns it.
pub record Fill : Type 0 where
  pub side : Text
  pub price : ℕ
  pub size : ℕ
  pub ts : ℕ
  pub trade_id : Option Text
  pub fee_rate_bps : ℕ

pub record Lot : Type 0 where
  pub price : ℕ
  pub remaining : ℕ
  pub ts : ℕ
  pub trade_id : Option Text

unfoldable pub is_buy : Fill → Bool
unfolding upper
is_buy f = text_eq (upper f.side) (codes "BUY")

unfoldable pub is_sell : Fill → Bool
unfolding upper
is_sell f = text_eq (upper f.side) (codes "SELL")

abbrev pub lot_of : Fill → Lot
lot_of f = record { price = f.price; remaining = f.size; ts = f.ts; trade_id = f.trade_id }

-- `while qty > 1e-9 and lots`: the first lot is used up and popped, or it takes all of `qty`, and
-- then the loop's test fails.
unfoldable pub consume : ℕ → List Lot → List Lot
consume qty [] = []
consume qty (lot ∷ lots) =
    let used = min lot.remaining qty in
    let rest = consume (qty - used) lots in
    if qty == 0
    then lot ∷ lots
    else if (lot.remaining - used) == 0
    then rest
    else record lot { remaining = lot.remaining - used } ∷ lots

-- The body of `for f in ordered`.
unfoldable pub replay_fill : List Lot → Fill → List Lot
unfolding is_buy is_sell consume
replay_fill lots f =
    if f.size == 0
    then lots
    else if is_buy f
    then lots ++ lot_of f ∷ []
    else if is_sell f
    then consume f.size lots
    else lots

unfoldable pub replay : List Lot → List Fill → List Lot
unfolding replay_fill
replay lots [] = lots
replay lots (f ∷ fs) = replay (replay_fill lots f) fs

-- `for ev in merge_events`: the amounts of the confirmed merges, oldest first.
unfoldable pub consume_merges : List Lot → List ℕ → List Lot
unfolding consume
consume_merges lots [] = lots
consume_merges lots (amount ∷ events) = consume_merges (consume amount lots) events

abbrev pub recon_of : List Lot → ℕ
recon_of lots = sum_of (λ l. l.remaining) lots

abbrev pub cost_sum_of : List Lot → ℕ
cost_sum_of lots = sum_of (λ l. l.price * l.remaining) lots

abbrev pub fill_le : Fill → Fill → Bool
fill_le f g = leb f.ts g.ts

-- The queue that is left when all fills and merges are replayed.
unfoldable pub position_lots : List Fill → List ℕ → List Lot
unfolding replay consume_merges sort_by
position_lots fills merges = consume_merges (replay [] (sort_by fill_le fills)) merges

-- `(None, [])` where the cost cannot be trusted; a result lot's `take` is the lot's `remaining`.
unfoldable pub position_cost_with_lots : List Fill → ℕ → List ℕ → Option Frac × List Lot
unfolding position_lots
position_cost_with_lots fills size merges =
    if (size == 0) || is_empty fills
    then (none, [])
    else let lots = position_lots fills merges in
      if recon_of lots == 0
      then (none, [])
      else if not (within_tolerance (recon_of lots) size)
      then (none, [])
      else (some (record { num = cost_sum_of lots; den = recon_of lots }), lots)
