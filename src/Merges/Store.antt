-- ===== src/Merges/Store.antt =====
-- models/database.py: the table `merge_events`. A row is found by its primary key; an update writes
-- the fields that its caller changes. Error texts are not kept.
use polymarket_rewards.Base.{
  ℕ, suc, Bool, true, false, ◌&&◌, ◌||◌, Option, none, some, List, [], ◌∷◌, ◌++◌, leb, ltb, ◌==◌,
  if◌then◌else◌, any, keep, length, take, max,
}
use polymarket_rewards.Base.Sort.{sort_by}
use polymarket_rewards.Base.Text.{Text, text_eq}
use polymarket_rewards.Base.Int.{ℤ, pos}

pub data Status : Type 0 where
  ready submitted confirmed failed : Status

pub data Route : Type 0 where
  pair fok_merge : Route

pub data ComplementStatus : Type 0 where
  blank matched delayed submit_failed merged_submitted : ComplementStatus

-- Amounts and `recovered_usd` count millionths, costs and the profit millionths of a millionth.
pub record Event : Type 0 where
  pub id : ℕ
  pub wallet : Text
  pub condition_id : Text
  pub yes_token_id : Text
  pub no_token_id : Text
  pub route : Route
  pub amount : ℕ
  pub yes_cost : ℕ
  pub no_cost : ℕ
  pub complement_order_id : Text
  pub complement_status : ComplementStatus
  pub recovered_usd : ℕ
  pub realized_pnl : ℤ
  pub relayer_tx_id : Text
  pub status : Status
  pub created_at : ℕ
  pub updated_at : ℕ
  pub confirmed_at : Option ℕ

abbrev pub status_eq : Status → Status → Bool
status_eq ready ready = true
status_eq submitted submitted = true
status_eq confirmed confirmed = true
status_eq failed failed = true
status_eq _ _ = false

-- `MERGE_ACTIVE_STATUSES`
abbrev pub is_active : Status → Bool
is_active ready = true
is_active submitted = true
is_active confirmed = false
is_active failed = false

-- A row of the partial unique index.
abbrev pub is_active_on : Text → Text → Event → Bool
is_active_on wallet condition_id e =
    is_active e.status && (text_eq e.wallet wallet && text_eq e.condition_id condition_id)

-- The table, in the order of insertion.
pub record Table : Type 0 where
  pub rows : List Event

-- AUTOINCREMENT: one more than the greatest id so far, as no row is ever deleted.
abbrev pub next_id : List Event → ℕ
next_id [] = 1
next_id (e ∷ rows) = max (suc e.id) (next_id rows)

abbrev pub new_event : ℕ → ℕ → Text → Text → Route → ℕ → Text → Text → ℕ → ℕ → Event
new_event id clock wallet condition_id route amount yes_token no_token yes_cost no_cost = record {
  id = id;
  wallet = wallet;
  condition_id = condition_id;
  yes_token_id = yes_token;
  no_token_id = no_token;
  route = route;
  amount = amount;
  yes_cost = yes_cost;
  no_cost = no_cost;
  complement_order_id = [];
  complement_status = blank;
  recovered_usd = 0;
  realized_pnl = pos 0;
  relayer_tx_id = [];
  status = ready;
  created_at = clock;
  updated_at = clock;
  confirmed_at = none;
}

-- The new row's id, or none for the IntegrityError of the index; no caller gives a complement order.
unfoldable pub create_merge_event :
    ℕ → Text → Text → Route → ℕ → Text → Text → ℕ → ℕ → Table → Option (ℕ × Table)
create_merge_event clock wallet condition_id route amount yes_token no_token yes_cost no_cost t =
    let id = next_id t.rows in
    let new =
      new_event id clock wallet condition_id route amount yes_token no_token yes_cost no_cost in
    if any (is_active_on wallet condition_id) t.rows
    then none
    else some (id, record { rows = t.rows ++ new ∷ [] })

unfoldable pub get_merge_event : ℕ → List Event → Option Event
get_merge_event id [] = none
get_merge_event id (e ∷ rows) = if e.id == id then some e else get_merge_event id rows

abbrev pub later_or : Option Event → Option Event → Option Event
later_or none earlier = earlier
later_or (some later) earlier = some later

-- The last row that is active on the market, since ids grow.
unfoldable pub get_active_merge_event : Text → Text → List Event → Option Event
get_active_merge_event wallet condition_id [] = none
get_active_merge_event wallet condition_id (e ∷ rows) =
    later_or (get_active_merge_event wallet condition_id rows)
      (if is_active_on wallet condition_id e then some e else none)

unfoldable pub update_row : ℕ → (Event → Event) → List Event → List Event
update_row id change [] = []
update_row id change (e ∷ rows) =
    if e.id == id then change e ∷ rows else e ∷ update_row id change rows

-- Every update refreshes `updated_at`.
unfoldable pub update_merge_event : ℕ → ℕ → (Event → Event) → Table → Table
update_merge_event clock id change t = record t {
  rows = update_row id (λ e. record (change e) { updated_at = clock }) t.rows;
}

abbrev pub newer_first : Event → Event → Bool
newer_first a b = ltb b.created_at a.created_at || ((a.created_at == b.created_at) && leb b.id a.id)

-- `list_merge_events` with a wallet and one status, from the first page.
unfoldable pub list_merge_events : Text → Status → ℕ → List Event → List Event
list_merge_events wallet status limit rows =
    take limit
      (sort_by newer_first (keep (λ e. text_eq e.wallet wallet && status_eq e.status status) rows))

unfoldable pub count_active_merge_events : Text → List Event → ℕ
count_active_merge_events wallet rows =
    length (keep (λ e. is_active e.status && text_eq e.wallet wallet) rows)

abbrev confirmed_time : Event → ℕ
confirmed_time e = elim e.confirmed_at [ none ↦ 0 | some ts ↦ ts ]

unfoldable pub get_confirmed_merge_events : Text → List Event → List Event
get_confirmed_merge_events wallet rows =
    sort_by
      (λ a b.
        ltb (confirmed_time a) (confirmed_time b)
        || ((confirmed_time a == confirmed_time b) && leb a.id b.id))
      (keep (λ e. text_eq e.wallet wallet && status_eq e.status confirmed) rows)
