-- ===== src/Merges/Router.antt =====
-- engine/exit_router.py: what the router does with a merge event that is open.
use polymarket_rewards.Base.{
  ℕ, ◌+◌, Bool, true, false, ◌&&◌, ◌||◌, not, Option, none, some, List, [], ◌∷◌, ltb, leb, ◌==◌,
  if◌then◌else◌, is_empty,
}
use polymarket_rewards.Base.Text.{Text, codes, text_eq, lower}
use polymarket_rewards.Ledger.{merge_realized_pnl, pair_amount}
use polymarket_rewards.Merges.Store.{
  Status, ready, submitted, confirmed, failed, status_eq, Route, pair, fok_merge, matched, delayed,
  submit_failed, merged_submitted, Event, get_merge_event,
}
use polymarket_rewards.Merges.State.{
  OrderState, Holding, Answers, merge_call, RouterState, poll_time, set_poll, update, calling,
  cancel_sells,
}

-- `x in text`
unfoldable pub starts_with : Text → Text → Bool
starts_with [] t = true
starts_with (c ∷ word) [] = false
starts_with (c ∷ word) (d ∷ t) = (c == d) && starts_with word t

unfoldable pub has_word : Text → Text → Bool
has_word word [] = is_empty word
has_word word (c ∷ t) = starts_with word (c ∷ t) || has_word word t

unfoldable pub is_tx_done : Text → Bool
is_tx_done state =
    text_eq state (codes "STATE_EXECUTED")
    || (text_eq state (codes "STATE_MINED") || text_eq state (codes "STATE_CONFIRMED"))

unfoldable pub is_tx_failed : Text → Bool
is_tx_failed state = text_eq state (codes "STATE_FAILED")

-- The loop over the positions: the last one that passes gives the size.
unfoldable pub last_size : (Holding → Bool) → List Holding → ℕ → ℕ
last_size wanted [] size = size
last_size wanted (p ∷ ps) size = last_size wanted ps (if wanted p then p.size else size)

unfoldable pub pair_balance_ok : Answers → Event → Bool
unfolding last_size
pair_balance_ok env ev =
    let is_yes : Holding → Bool =
      λ p. text_eq p.condition_id ev.condition_id && text_eq p.asset ev.yes_token_id in
    let is_no : Holding → Bool = λ p.
      text_eq p.condition_id ev.condition_id
      && (not (text_eq p.asset ev.yes_token_id) && text_eq p.asset ev.no_token_id) in
    not (is_empty ev.yes_token_id || is_empty ev.no_token_id)
    && leb ev.amount
        (pair_amount (last_size is_yes env.positions 0) (last_size is_no env.positions 0))

-- The row has been read. A removed polling time reads as 0.
unfoldable pub fail_row : Answers → ℕ → Option Event → RouterState → RouterState
fail_row env id none s = s
fail_row env id (some cur) s =
    if status_eq cur.status failed
    then s
    else set_poll id 0 (update env id (λ e. record e { status = failed }) s)

unfoldable pub fail_event : Answers → ℕ → RouterState → RouterState
fail_event env id s = fail_row env id (get_merge_event id s.table.rows) s

abbrev pub confirm : ℕ → Event → Event → Event
confirm now cur e = record e {
  status = confirmed;
  recovered_usd = cur.amount;
  realized_pnl = merge_realized_pnl cur.amount cur.yes_cost cur.no_cost 0;
  confirmed_at = some now;
}

unfoldable pub finalize_row : Answers → ℕ → Option Event → RouterState → RouterState
finalize_row env id none s = s
finalize_row env id (some cur) s =
    if status_eq cur.status confirmed then s else update env id (confirm env.now cur) s

unfoldable pub finalize_confirmed : Answers → ℕ → RouterState → RouterState
finalize_confirmed env id s = finalize_row env id (get_merge_event id s.table.rows) s

-- The relayer has answered: an exception, no transaction, or a transaction.
unfoldable pub after_submit : Answers → ℕ → Option Text → RouterState → RouterState
after_submit env id none s =
    set_poll id (env.now + 120)
      (update env id (λ e. record e { complement_status = submit_failed }) s)
after_submit env id (some tx) s =
    if is_empty tx
    then fail_event env id s
    else set_poll id (env.now + 30) (
        update env id
          (λ e. record e {
            status = submitted;
            relayer_tx_id = tx;
            complement_status = merged_submitted;
          })
          s)

-- The sales of both tokens are cancelled first.
unfoldable pub submit_merge : Answers → ℕ → Text → Text → Text → ℕ → RouterState → RouterState
unfolding cancel_sells
submit_merge env id condition_id yes_token no_token amount s =
    after_submit env id (env.merge_positions condition_id amount) (
      calling (merge_call id condition_id amount)
        (cancel_sells no_token (cancel_sells yes_token s)))

abbrev pub submit_event : Answers → Event → RouterState → RouterState
submit_event env ev s =
    submit_merge env ev.id ev.condition_id ev.yes_token_id ev.no_token_id ev.amount s

-- A READY event whose pair is there is submitted, else it fails.
abbrev pub submit_or_fail : Answers → Event → RouterState → RouterState
submit_or_fail env ev s =
    if pair_balance_ok env ev then submit_event env ev s else fail_event env ev.id s

abbrev pub is_dead_order : Text → Bool
is_dead_order status =
    has_word (codes "cancel") status
    || (has_word (codes "unmatch") status || has_word (codes "expire") status)

-- The order query has answered, with the status in lower case.
unfoldable pub after_order : Answers → Event → Option OrderState → RouterState → RouterState
after_order env ev none s = s
after_order env ev (some o) s =
    let status = lower o.status in
    let filled = leb ev.amount o.size_matched in
    if (filled || (has_word (codes "match") status || has_word (codes "fill") status))
      && (filled || pair_balance_ok env ev)
    then submit_event env ev (update env ev.id (λ e. record e { complement_status = matched }) s)
    else if is_dead_order status
    then submit_or_fail env ev s
    else update env ev.id (λ e. record e { complement_status = delayed }) s

unfoldable pub reconcile_fok_order : Answers → Event → RouterState → RouterState
reconcile_fok_order env ev s =
    if ltb env.now (poll_time ev.id s.poll_after)
    then s
    else after_order env ev (env.get_order ev.complement_order_id) (set_poll ev.id (env.now + 30) s)

-- The transaction query has answered.
unfoldable pub after_state : Answers → Event → Option Text → RouterState → RouterState
after_state env ev none s = set_poll ev.id (env.now + 120) s
after_state env ev (some state) s =
    if is_tx_done state
    then finalize_confirmed env ev.id s
    else if is_tx_failed state
    then (if pair_balance_ok env ev then fail_event env ev.id s else finalize_confirmed env ev.id s)
    else if ltb (ev.updated_at + env.template.merge_confirm_timeout_sec) env.now
    then (if pair_balance_ok env ev
        then set_poll ev.id (env.now + 300) s
        else finalize_confirmed env ev.id s)
    else set_poll ev.id (env.now + 30) s

unfoldable pub poll_merge : Answers → Event → RouterState → RouterState
poll_merge env ev s =
    if ltb env.now (poll_time ev.id s.poll_after)
    then s
    else if is_empty ev.relayer_tx_id
    then set_poll ev.id (env.now + 30) s
    else after_state env ev (env.transaction_state ev.relayer_tx_id) s

unfoldable pub reconcile_ready : Answers → Event → Route → RouterState → RouterState
reconcile_ready env ev pair s = submit_or_fail env ev s
reconcile_ready env ev fok_merge s =
    if is_empty ev.complement_order_id
    then submit_or_fail env ev s
    else reconcile_fok_order env ev s

unfoldable pub reconcile_status : Answers → Event → Status → RouterState → RouterState
reconcile_status env ev ready s = reconcile_ready env ev ev.route s
reconcile_status env ev submitted s = poll_merge env ev s
reconcile_status env ev confirmed s = s
reconcile_status env ev failed s = s

unfoldable pub reconcile_event : Answers → Event → RouterState → RouterState
reconcile_event env ev s = reconcile_status env ev ev.status s
