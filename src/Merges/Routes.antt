-- ===== src/Merges/Routes.antt =====
-- engine/exit_router.py: the two routes that reserve a merge event, for a pair that is held and for one
-- whose other half is bought by a fill-or-kill order.
use polymarket_rewards.Base.{
  ℕ, Bool, true, false, ◌||◌, not, Option, none, some, List, ltb, if◌then◌else◌, is_empty, or_zero,
}
use polymarket_rewards.Base.Text.{Text, codes, text_eq, lower}
use polymarket_rewards.Cost.{Lot}
use polymarket_rewards.Ledger.{consume_fifo_cost, pair_amount}
use polymarket_rewards.Merges.Store.{pair, fok_merge, matched, delayed, Table, create_merge_event}
use polymarket_rewards.Merges.State.{
  Answers, FokAnswer, rejected, network_error, answered, fok_call, RouterState, update, calling,
}
use polymarket_rewards.Merges.Router.{fail_event, submit_merge}

abbrev pub fifo_cost : List Lot → ℕ → ℕ
fifo_cost lots qty = or_zero (consume_fifo_cost lots qty).0

-- The reservation has been tried.
unfoldable pub after_pair :
    Answers → Text → Text → Text → ℕ → Option (ℕ × Table) → RouterState → Bool × RouterState
after_pair env condition_id asset other q none s = (true, s)
after_pair env condition_id asset other q (some (id, table)) s =
    (true, submit_merge env id condition_id asset other q (record s { table = table }))

-- Whether the route has handled the position, and the state.
unfoldable pub pair_merge_route :
    Answers → Text → Text → Text → ℕ → ℕ → List Lot → List Lot → RouterState → Bool × RouterState
pair_merge_route env condition_id asset other size other_size lots other_lots s =
    let q = pair_amount size other_size in
    if ltb q env.template.merge_min_shares || not env.relayer_ok
    then (false, s)
    else after_pair env condition_id asset other q
        (create_merge_event env.db_now env.wallet condition_id pair q asset other (fifo_cost lots q)
          (fifo_cost other_lots q) s.table)
        s

-- What the answer's status says of the order.
unfoldable pub note_fok : Answers → ℕ → Text → RouterState → RouterState
note_fok env id status s =
    if text_eq (lower status) (codes "matched")
    then update env id (λ e. record e { complement_status = matched }) s
    else if text_eq (lower status) (codes "delayed")
    then update env id (λ e. record e { complement_status = delayed }) s
    else fail_event env id s

-- The exchange has answered the FOK order; a network error leaves the reservation.
unfoldable pub after_fok : Answers → ℕ → FokAnswer → RouterState → RouterState
after_fok env id rejected s = fail_event env id s
after_fok env id network_error s = s
after_fok env id (answered status order_id) s = note_fok env id status (
    if is_empty order_id
    then s
    else update env id (λ e. record e { complement_order_id = order_id }) s)

-- The reservation has been tried; the order is sent after it.
unfoldable pub send_fok : Answers → Text → ℕ → ℕ → Option (ℕ × Table) → RouterState → RouterState
send_fok env complement worst size none s = s
send_fok env complement worst size (some (id, table)) s =
    after_fok env id (env.place_fok_buy complement worst size)
      (calling (fok_call id complement worst size) (record s { table = table }))

unfoldable pub start_fok_merge :
    Answers → Text → Text → Text → ℕ → ℕ → List Lot → RouterState → RouterState
start_fok_merge env condition_id asset complement size worst lots s =
    send_fok env complement worst size
      (create_merge_event env.db_now env.wallet condition_id fok_merge size asset complement
        (fifo_cost lots size) 0 s.table)
      s
