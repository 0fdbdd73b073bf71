-- ===== src/Ledger/Defs.antt =====
-- engine/merge_accounting.py, engine/merge.py, engine/pnl.py. Prices and shares are millionths,
-- a cost is a sum of products of the two, so it counts millionths of a millionth, as does a profit.
-- The text of a day is its number, counted from 1970-01-01 in UTC+8.
use polymarket_rewards.Base.{
  ℕ, ◌+◌, ◌-◌, ◌*◌, ◌/◌, ◌%◌, Bool, true, false, Option, none, some, List, [], ◌∷◌, min, ltb, ◌==◌,
  if◌then◌else◌, sum_of, keep,
}
use polymarket_rewards.Base.Int.{ℤ, pos, ◌+ℤ◌, ◌-ℤ◌}
use polymarket_rewards.Cost.{Lot}

abbrev pub held_in : List Lot → ℕ
held_in lots = sum_of (λ l. l.remaining) lots

-- The loop of `consume_fifo_cost`, with `need` shares to go: the cost, and the lots as they are left.
unfoldable pub consume_loop : ℕ → List Lot → ℕ × List Lot
consume_loop need [] = (0, [])
consume_loop need (lot ∷ lots) =
    let used = min lot.remaining need in
    let (cost, rest) = consume_loop (need - used) lots in
    let (cost_if_void, rest_if_void) = consume_loop need lots in
    if lot.remaining == 0
    then (cost_if_void, lot ∷ rest_if_void)
    else let cut = record lot { remaining = lot.remaining - used } in
      if (need - used) == 0
      then (lot.price * used, cut ∷ lots)
      else (lot.price * used + cost, cut ∷ rest)

abbrev pub kept_lots : List Lot → List Lot
kept_lots lots = keep (λ l. ltb 0 l.remaining) lots

-- The cost, where the lots cover the quantity, and the lots that remain.
-- The code shortens the entries of the caller's list in place; here they are returned, and the shortened
-- entries in the tick's cache are not modelled.
unfoldable pub consume_fifo_cost : List Lot → ℕ → Option ℕ × List Lot
consume_fifo_cost lots qty =
    if qty == 0
    then (some 0, lots)
    else if ltb (held_in lots) qty
    then (none, lots)
    else let (cost, left) = consume_loop qty lots in (some cost, kept_lots left)

-- `merge_recovery_usd`: a dollar for each pair.
abbrev pub merge_recovery_usd : ℕ → ℕ
merge_recovery_usd amount = amount * 1_000_000

unfoldable pub merge_realized_pnl : ℕ → ℕ → ℕ → ℕ → ℤ
merge_realized_pnl amount yes_cost no_cost fees =
    pos (merge_recovery_usd amount) -ℤ pos yes_cost -ℤ pos no_cost -ℤ pos fees

pub record MergePnl : Type 0 where
  pub realized_pnl : ℤ
  pub yes_cost : ℕ
  pub no_cost : ℕ
  pub ok : Bool

abbrev pub merge_pnl_of : ℕ → ℕ → Option ℕ → Option ℕ → MergePnl
merge_pnl_of amount fees (some yes_cost) (some no_cost) = record {
  realized_pnl = merge_realized_pnl amount yes_cost no_cost fees;
  yes_cost = yes_cost;
  no_cost = no_cost;
  ok = true;
}
merge_pnl_of amount fees (some yes_cost) none = record {
  realized_pnl = pos 0;
  yes_cost = 0;
  no_cost = 0;
  ok = false;
}
merge_pnl_of amount fees none no_cost = record {
  realized_pnl = pos 0;
  yes_cost = 0;
  no_cost = 0;
  ok = false;
}

unfoldable pub merge_event_pnl_from_lots : ℕ → List Lot → List Lot → ℕ → MergePnl
merge_event_pnl_from_lots amount yes_lots no_lots fees =
    merge_pnl_of amount fees (consume_fifo_cost yes_lots amount).0
      (consume_fifo_cost no_lots amount).0

unfoldable pub pair_amount : ℕ → ℕ → ℕ
pair_amount yes_size no_size = min yes_size no_size

-- `beijing_day`, on whole seconds since the epoch.
unfoldable pub beijing_day : ℕ → ℕ
beijing_day ts = (ts + 28_800) / 86_400

unfoldable pub beijing_hour : ℕ → ℕ
beijing_hour ts = (ts + 28_800) % 86_400 / 3600

-- A dictionary from days, in the order of insertion.
abbrev pub add_at {ℓ} : {A : Type ℓ} → A → (A → A) → ℕ → List (ℕ × A) → List (ℕ × A)
add_at start change day [] = (day, change start) ∷ []
add_at start change day (e ∷ days) =
    if e.0 == day then (day, change e.1) ∷ days else e ∷ add_at start change day days

pub record MergeEvent : Type 0 where
  pub confirmed_at : ℕ
  pub realized_pnl : ℤ

unfoldable pub merge_pnl_into : List (ℕ × ℤ) → List MergeEvent → List (ℕ × ℤ)
merge_pnl_into out [] = out
merge_pnl_into out (ev ∷ events) =
    merge_pnl_into (add_at (pos 0) (λ x. x +ℤ ev.realized_pnl) (beijing_day ev.confirmed_at) out)
      events

unfoldable pub merge_pnl_by_day : List MergeEvent → List (ℕ × ℤ)
unfolding merge_pnl_into
merge_pnl_by_day events = merge_pnl_into [] events
