-- ===== src/Merges/Reconcile.antt =====
-- engine/exit_router.py: reconciling an event moves its own row, and only as its life allows.
use polymarket_rewards.Base.{
  ◌+◌, ◌≡◌, refl, ap, inl, inr, ◌&&◌, ◌||◌, Option, none, some, ltb, leb, Bool-cases, is_empty,
}
use polymarket_rewards.Base.Text.{Text, codes, lower}
use polymarket_rewards.Merges.Store.{
  Status, ready, submitted, confirmed, failed, is_active, Route, pair, fok_merge, matched, delayed,
  Event,
}
use polymarket_rewards.Merges.State.{OrderState, Answers, RouterState, poll_time}
use polymarket_rewards.Merges.Router.{
  is_tx_done, is_tx_failed, pair_balance_ok, has_word, is_dead_order, after_order,
  reconcile_fok_order, after_state, poll_merge, reconcile_ready, reconcile_status, reconcile_event,
}
use polymarket_rewards.Merges.Moves.{
  Current, Result, fail_event-Result, finalize-Result, submit_merge-Result, submit_or_fail-Result,
  noted-Result,
}

after_order-Result :
    (env : Answers) (ev : Event) (answer : Option OrderState) (s : RouterState)
    → Current ev s
    → ev.status ≡ ready
    → Result ev s.table.rows (after_order env ev answer s).table.rows
unfolding after_order
after_order-Result env ev none s g now = inl refl
after_order-Result env ev (some o) s g now =
    let status = lower o.status in
    let filled = leb ev.amount o.size_matched in
    elim (Bool-cases (
      (filled || (has_word (codes "match") status || has_word (codes "fill") status))
      && (filled || pair_balance_ok env ev))) [
        | inl done ↦ rw done (
            noted-Result env ev (λ e. record e { complement_status = matched }) s _ g
              (ap is_active now) (refl, refl, refl, refl, refl, refl) refl
              (λ h.
                submit_merge-Result env _ ev.condition_id ev.yes_token_id ev.no_token_id ev.amount _
                  h now))
        | inr not_yet ↦ elim (Bool-cases (is_dead_order status)) [
          | inl dead ↦ rw (not_yet, dead) (submit_or_fail-Result env ev s g now)
          | inr alive ↦
              rw (not_yet, alive)
                (noted-Result env ev (λ e. record e { complement_status = delayed }) s _ g
                  (ap is_active now) (refl, refl, refl, refl, refl, refl) refl (λ h. inl refl))
        ]
      ]

after_state-Result :
    (env : Answers) (ev : Event) (answer : Option Text) (s : RouterState)
    → Current ev s
    → ev.status ≡ submitted
    → Result ev s.table.rows (after_state env ev answer s).table.rows
unfolding after_state
after_state-Result env ev none s g now = inl refl
after_state-Result env ev (some state) s g now = elim (Bool-cases (is_tx_done state)) [
  | inl done ↦ rw done (finalize-Result env ev s g now)
  | inr open_tx ↦ elim (Bool-cases (is_tx_failed state)) [
    | inl bad ↦ elim (Bool-cases (pair_balance_ok env ev)) [
      | inl whole ↦ rw (open_tx, bad, whole) (fail_event-Result env ev s g (ap is_active now))
      | inr burnt ↦ rw (open_tx, bad, burnt) (finalize-Result env ev s g now)
    ]
    | inr unknown ↦
        elim (Bool-cases (ltb (ev.updated_at + env.template.merge_confirm_timeout_sec) env.now)) [
          | inr early ↦ rw (open_tx, unknown, early) (inl refl)
          | inl late ↦ elim (Bool-cases (pair_balance_ok env ev)) [
            | inl whole ↦ rw (open_tx, unknown, late, whole) (inl refl)
            | inr burnt ↦ rw (open_tx, unknown, late, burnt) (finalize-Result env ev s g now)
          ]
        ]
  ]
]

poll_merge-Result :
    (env : Answers) (ev : Event) (s : RouterState)
    → Current ev s
    → ev.status ≡ submitted
    → Result ev s.table.rows (poll_merge env ev s).table.rows
unfolding poll_merge
poll_merge-Result env ev s g now = elim (Bool-cases (ltb env.now (poll_time ev.id s.poll_after))) [
  | inl wait ↦ rw wait (inl refl)
  | inr due ↦ elim (Bool-cases (is_empty ev.relayer_tx_id)) [
    | inl missing ↦ rw (due, missing) (inl refl)
    | inr named ↦ rw (due, named) (after_state-Result env ev _ s g now)
  ]
]

reconcile_fok_order-Result :
    (env : Answers) (ev : Event) (s : RouterState)
    → Current ev s
    → ev.status ≡ ready
    → Result ev s.table.rows (reconcile_fok_order env ev s).table.rows
unfolding reconcile_fok_order
reconcile_fok_order-Result env ev s g now =
    elim (Bool-cases (ltb env.now (poll_time ev.id s.poll_after))) [
      | inl wait ↦ rw wait (inl refl)
      | inr due ↦ rw due (after_order-Result env ev _ _ g now)
    ]

reconcile_ready-Result :
    (env : Answers) (ev : Event) (route : Route) (s : RouterState)
    → Current ev s
    → ev.status ≡ ready
    → Result ev s.table.rows (reconcile_ready env ev route s).table.rows
unfolding reconcile_ready
reconcile_ready-Result env ev pair s g now = submit_or_fail-Result env ev s g now
reconcile_ready-Result env ev fok_merge s g now =
    elim (Bool-cases (is_empty ev.complement_order_id)) [
      | inl unsent ↦ rw unsent (submit_or_fail-Result env ev s g now)
      | inr sent ↦ rw sent (reconcile_fok_order-Result env ev s g now)
    ]

reconcile_status-Result :
    (env : Answers) (ev : Event) (status : Status) (s : RouterState)
    → Current ev s
    → ev.status ≡ status
    → Result ev s.table.rows (reconcile_status env ev status s).table.rows
unfolding reconcile_status
reconcile_status-Result env ev ready s g now = reconcile_ready-Result env ev ev.route s g now
reconcile_status-Result env ev submitted s g now = poll_merge-Result env ev s g now
reconcile_status-Result env ev confirmed s g now = inl refl
reconcile_status-Result env ev failed s g now = inl refl

-- Reconciling an event leaves the table as it is or moves the row of that event alone: an active row
-- takes a note, a ready one is submitted, a submitted one is confirmed with the recovery and the
-- profit of its own amount and costs, or an active one fails. What it was reserved for stays.
pub reconcile_event-Result :
    (env : Answers) (ev : Event) (s : RouterState)
    → Current ev s
    → Result ev s.table.rows (reconcile_event env ev s).table.rows
unfolding reconcile_event
reconcile_event-Result env ev s g = reconcile_status-Result env ev ev.status s g refl
