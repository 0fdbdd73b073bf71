-- ===== src/Merges/Steps.antt =====
-- engine/exit_router.py: the steps of the router over any number of ticks, and what each does to the
-- table of the merge events.
use polymarket_rewards.Base.{
  ℕ, ◌≡◌, refl, ap, inl, inr, ◌||◌, not, List, ltb, Bool-cases, any, is_empty,
}
use polymarket_rewards.Base.Text.{Text, codes, text_eq, lower}
use polymarket_rewards.Cost.{Lot}
use polymarket_rewards.Ledger.{pair_amount}
use polymarket_rewards.Merges.Store.{
  ready, is_active, is_active_on, pair, fok_merge, matched, delayed, Event, new_event, next_id,
  create_merge_event,
}
use polymarket_rewards.Merges.State.{
  Answers, FokAnswer, rejected, network_error, answered, RouterState,
}
use polymarket_rewards.Merges.Router.{reconcile_event}
use polymarket_rewards.Merges.Routes.{
  fifo_cost, after_pair, pair_merge_route, after_fok, note_fok, send_fok, start_fok_merge,
}
use polymarket_rewards.Merges.Moves.{
  Current, Result, fail_event-Result, submit_merge-Result, noted-Result,
}
use polymarket_rewards.Merges.Create.{new-Current, Reserves}

-- One step: a route is taken for a position, or an event of the table is reconciled, each in a world
-- of its own, or something is done that leaves the events alone, such as a sale.
pub data Step : RouterState → RouterState → Type 0 where
  pair_step :
      (env : Answers) (cid asset other : Text) (size other_size : ℕ) (lots other_lots : List Lot)
      (s : RouterState)
      → Step s (pair_merge_route env cid asset other size other_size lots other_lots s).1
  fok_step :
      (env : Answers) (cid asset complement : Text) (size worst : ℕ) (lots : List Lot)
      (s : RouterState)
      → Step s (start_fok_merge env cid asset complement size worst lots s)
  reconcile_step :
      (env : Answers) (ev : Event) (s : RouterState)
      → Current ev s
      → Step s (reconcile_event env ev s)
  quiet_step : (s t : RouterState) → t.table ≡ s.table → Step s t

pub data Reaches : RouterState → RouterState → Type 0 where
  here : (s : RouterState) → Reaches s s
  after : (s t u : RouterState) → Reaches s t → Step t u → Reaches s u

pub pair_merge_route-Reserves :
    (env : Answers) (cid asset other : Text) (size other_size : ℕ) (lots other_lots : List Lot)
    (s : RouterState)
    → Reserves s.table.rows
        (pair_merge_route env cid asset other size other_size lots other_lots s).1.table.rows
unfolding pair_merge_route after_pair create_merge_event
pair_merge_route-Reserves env cid asset other size other_size lots other_lots s =
    let q = pair_amount size other_size in
    let new =
      new_event (next_id s.table.rows) env.db_now env.wallet cid pair q asset other
        (fifo_cost lots q) (fifo_cost other_lots q) in
    elim (Bool-cases (ltb q env.template.merge_min_shares || not env.relayer_ok)) [
      | inl small ↦ rw small (inl refl)
      | inr enough ↦ elim (Bool-cases (any (is_active_on env.wallet cid) s.table.rows)) [
        | inl busy ↦ rw (enough, busy) (inl refl)
        | inr free ↦
            rw (enough, free)
              (inr (
                new,
                refl,
                free,
                submit_merge-Result env new cid asset other q _ (new-Current s.table.rows new refl)
                    refl,
              ))
      ]
    ]

note_fok-Result :
    (env : Answers) (ev : Event) (status : Text) (s : RouterState)
    → Current ev s
    → ev.status ≡ ready
    → Result ev s.table.rows (note_fok env ev.id status s).table.rows
unfolding note_fok
note_fok-Result env ev status s g now =
    elim (Bool-cases (text_eq (lower status) (codes "matched"))) [
      | inl full ↦ rw full (
          noted-Result env ev (λ e. record e { complement_status = matched }) s _ g
            (ap is_active now) (refl, refl, refl, refl, refl, refl) refl (λ h. inl refl))
      | inr not_full ↦ elim (Bool-cases (text_eq (lower status) (codes "delayed"))) [
        | inl late ↦
            rw (not_full, late)
              (noted-Result env ev (λ e. record e { complement_status = delayed }) s _ g
                (ap is_active now) (refl, refl, refl, refl, refl, refl) refl (λ h. inl refl))
        | inr odd ↦ rw (not_full, odd) (fail_event-Result env ev s g (ap is_active now))
      ]
    ]

after_fok-Result :
    (env : Answers) (ev : Event) (answer : FokAnswer) (s : RouterState)
    → Current ev s
    → ev.status ≡ ready
    → Result ev s.table.rows (after_fok env ev.id answer s).table.rows
unfolding after_fok
after_fok-Result env ev rejected s g now = fail_event-Result env ev s g (ap is_active now)
after_fok-Result env ev network_error s g now = inl refl
after_fok-Result env ev (answered status order_id) s g now = elim (Bool-cases (is_empty order_id)) [
  | inl unnamed ↦ rw unnamed (note_fok-Result env ev status s g now)
  | inr named ↦ rw named (
      noted-Result env ev (λ e. record e { complement_order_id = order_id }) s _ g
        (ap is_active now) (refl, refl, refl, refl, refl, refl) refl
        (λ h. note_fok-Result env _ status _ h now))
]

pub start_fok_merge-Reserves :
    (env : Answers) (cid asset complement : Text) (size worst : ℕ) (lots : List Lot)
    (s : RouterState)
    → Reserves s.table.rows (start_fok_merge env cid asset complement size worst lots s).table.rows
unfolding start_fok_merge send_fok create_merge_event
start_fok_merge-Reserves env cid asset complement size worst lots s =
    let new =
      new_event (next_id s.table.rows) env.db_now env.wallet cid fok_merge size asset complement
        (fifo_cost lots size) 0 in
    elim (Bool-cases (any (is_active_on env.wallet cid) s.table.rows)) [
      | inl busy ↦ rw busy (inl refl)
      | inr free ↦ rw free (
          inr (
            new,
            refl,
            free,
            after_fok-Result env new _ _ (new-Current s.table.rows new refl) refl,
          ))
    ]

pub Reaches-trans : (s t u : RouterState) → Reaches s t → Reaches t u → Reaches s u
Reaches-trans s _ _ p (here t) = p
Reaches-trans s t _ p (after _ m u q step) = after s m u (Reaches-trans s t m p q) step

pub Reaches-Step : (s t : RouterState) → Step s t → Reaches s t
Reaches-Step s t step = after s s t (here s) step
