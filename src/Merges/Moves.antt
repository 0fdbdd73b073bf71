-- ===== src/Merges/Moves.antt =====
-- engine/exit_router.py: how one step moves the row of a merge event.
use polymarket_rewards.Base.{
  ℕ, ◌≡◌, refl, sym, ap, ◌∙◌, subst, ◌⊎◌, inl, inr, true, false, Option, none, some, List,
  Bool-cases, is_empty,
}
use polymarket_rewards.Base.Text.{Text}
use polymarket_rewards.Ledger.{merge_realized_pnl}
use polymarket_rewards.Merges.Store.{
  Status, ready, submitted, confirmed, failed, status_eq, is_active, submit_failed,
  merged_submitted, Event, Table, get_merge_event, update_merge_event,
}
use polymarket_rewards.Merges.State.{
  Answers, merge_call, RouterState, update, calling, sell_ids, cancel_sells,
}
use polymarket_rewards.Merges.Router.{
  pair_balance_ok, fail_row, fail_event, confirm, finalize_row, finalize_confirmed, after_submit,
  submit_merge, submit_or_fail,
}
use polymarket_rewards.Merges.Rows.{put, update_row-put, get-put, put-put}

-- What a row keeps for all of its life.
abbrev pub SameTerms : Event → Event → Type 0
SameTerms a b =
    (b.id ≡ a.id)
    × (b.wallet ≡ a.wallet)
    × (b.condition_id ≡ a.condition_id)
    × (b.amount ≡ a.amount)
    × (b.yes_cost ≡ a.yes_cost)
    × (b.no_cost ≡ a.no_cost)

-- The moves of a row: a note on an active row, a submission, a confirmation, a failure.
pub data Moves (a b : Event) : Type 0 where
  notes : SameTerms a b → is_active a.status ≡ true → b.status ≡ a.status → Moves a b
  submits : SameTerms a b → a.status ≡ ready → b.status ≡ submitted → Moves a b
  confirms :
      SameTerms a b
      → a.status ≡ submitted
      → b.status ≡ confirmed
      → b.recovered_usd ≡ a.amount
      → b.realized_pnl ≡ merge_realized_pnl a.amount a.yes_cost a.no_cost 0
      → Moves a b
  fails : SameTerms a b → is_active a.status ≡ true → b.status ≡ failed → Moves a b

-- The table has not changed, or one row has moved.
abbrev pub Result : Event → List Event → List Event → Type 0
Result ev before after =
    (after ≡ before) ⊎ ((e : Event) × (after ≡ put ev.id e before) × Moves ev e)

-- The row that is read.
abbrev pub Current : Event → RouterState → Type 0
Current ev s = get_merge_event ev.id s.table.rows ≡ some ev

update-put :
    (env : Answers) (ev : Event) (change : Event → Event) (s : RouterState)
    → Current ev s
    → (update env ev.id change s).table.rows
      ≡ put ev.id (record (change ev) { updated_at = env.db_now }) s.table.rows
unfolding update_merge_event
update-put env ev change s g =
    update_row-put ev.id (λ e. record (change e) { updated_at = env.db_now }) s.table.rows ev g

active-not_failed : (st : Status) → is_active st ≡ true → status_eq st failed ≡ false
active-not_failed ready h = refl
active-not_failed submitted h = refl
active-not_failed confirmed h = cc
active-not_failed failed h = cc

pub fail_event-Result :
    (env : Answers) (ev : Event) (s : RouterState)
    → Current ev s
    → is_active ev.status ≡ true
    → Result ev s.table.rows (fail_event env ev.id s).table.rows
unfolding fail_event fail_row
fail_event-Result env ev s g active =
    let e : Event = record ev { status = failed; updated_at = env.db_now } in
    inr (
      e,
      rw (g, active-not_failed ev.status active)
          (update-put env ev (λ x. record x { status = failed }) s g),
      fails (refl, refl, refl, refl, refl, refl) active refl,
    )

pub finalize-Result :
    (env : Answers) (ev : Event) (s : RouterState)
    → Current ev s
    → ev.status ≡ submitted
    → Result ev s.table.rows (finalize_confirmed env ev.id s).table.rows
unfolding finalize_confirmed finalize_row
finalize-Result env ev s g now =
    let e : Event = record (confirm env.now ev ev) { updated_at = env.db_now } in
    let open_row : status_eq ev.status confirmed ≡ false = ap (λ st. status_eq st confirmed) now in
    inr (
      e,
      rw (g, open_row) (update-put env ev (confirm env.now ev) s g),
      confirms (refl, refl, refl, refl, refl, refl) now refl refl refl,
    )

-- Cancelling sales leaves the events alone.
pub cancel_sells-table : (asset : Text) (s : RouterState) → (cancel_sells asset s).table ≡ s.table
unfolding cancel_sells
cancel_sells-table asset s = elim (Bool-cases (is_empty (sell_ids asset s.open_orders))) [
  | inl idle ↦ rw idle refl
  | inr busy ↦ rw busy refl
]

after_submit-Result :
    (env : Answers) (ev : Event) (answer : Option Text) (s : RouterState)
    → Current ev s
    → ev.status ≡ ready
    → Result ev s.table.rows (after_submit env ev.id answer s).table.rows
unfolding after_submit
after_submit-Result env ev none s g now = inr (
  record ev { complement_status = submit_failed; updated_at = env.db_now },
  update-put env ev (λ e. record e { complement_status = submit_failed }) s g,
  notes (refl, refl, refl, refl, refl, refl) (ap is_active now) refl,
)
after_submit-Result env ev (some tx) s g now = elim (Bool-cases (is_empty tx)) [
  | inl missing ↦ rw missing (fail_event-Result env ev s g (ap is_active now))
  | inr named ↦
      let change : Event → Event = λ e. record e {
        status = submitted;
        relayer_tx_id = tx;
        complement_status = merged_submitted;
      } in
      rw named (
        inr (
          record (change ev) { updated_at = env.db_now },
          update-put env ev change s g,
          submits (refl, refl, refl, refl, refl, refl) now refl,
        ))
]

pub submit_merge-Result :
    (env : Answers) (ev : Event) (cid yes_token no_token : Text) (amount : ℕ) (s : RouterState)
    → Current ev s
    → ev.status ≡ ready
    → Result ev s.table.rows (submit_merge env ev.id cid yes_token no_token amount s).table.rows
unfolding submit_merge
submit_merge-Result env ev cid yes_token no_token amount s g now =
    let before = cancel_sells no_token (cancel_sells yes_token s) in
    let kept : before.table ≡ s.table =
      cancel_sells-table no_token (cancel_sells yes_token s) ∙ cancel_sells-table yes_token s in
    subst
      (λ (rows : List Event).
        Result ev rows (submit_merge env ev.id cid yes_token no_token amount s).table.rows)
      (ap (λ (t : Table). t.rows) kept)
      (after_submit-Result env ev (env.merge_positions cid amount)
        (calling (merge_call ev.id cid amount) before)
        (ap (λ (t : Table). get_merge_event ev.id t.rows) kept ∙ g) now)

pub submit_or_fail-Result :
    (env : Answers) (ev : Event) (s : RouterState)
    → Current ev s
    → ev.status ≡ ready
    → Result ev s.table.rows (submit_or_fail env ev s).table.rows
submit_or_fail-Result env ev s g now = elim (Bool-cases (pair_balance_ok env ev)) [
  | inl whole ↦
      rw whole (
        submit_merge-Result env ev ev.condition_id ev.yes_token_id ev.no_token_id ev.amount s g now)
  | inr broken ↦ rw broken (fail_event-Result env ev s g (ap is_active now))
]

SameTerms-trans : (a b c : Event) → SameTerms a b → SameTerms b c → SameTerms a c
SameTerms-trans a b c h k = (k.0 ∙ h.0, k.1 ∙ h.1, k.2 ∙ h.2, k.3 ∙ h.3, k.4 ∙ h.4, k.5 ∙ h.5)

-- A note before a move is part of the move.
Moves-note : (a b c : Event) → SameTerms a b → b.status ≡ a.status → Moves b c → Moves a c
Moves-note a b c same status (notes s active st) =
    notes (SameTerms-trans a b c same s) (ap is_active (sym status) ∙ active) (st ∙ status)
Moves-note a b c same status (submits s from to) =
    submits (SameTerms-trans a b c same s) (sym status ∙ from) to
Moves-note a b c same status (confirms s from to paid earned) =
    confirms (SameTerms-trans a b c same s) (sym status ∙ from) to (paid ∙ same.3)
      (earned ∙ rw (same.3, same.4, same.5) refl)
Moves-note a b c same status (fails s active to) =
    fails (SameTerms-trans a b c same s) (ap is_active (sym status) ∙ active) to

-- A note is written and then a step taken.
pub noted-Result :
    (env : Answers) (ev : Event) (change : Event → Event) (s : RouterState) (after : List Event)
    → Current ev s
    → is_active ev.status ≡ true
    → let noted = update env ev.id change s in
      let ev2 : Event = record (change ev) { updated_at = env.db_now } in
      SameTerms ev ev2
      → ev2.status ≡ ev.status
      → (Current ev2 noted → Result ev2 noted.table.rows after)
      → Result ev s.table.rows after
noted-Result env ev change s after g active same status step =
    let ev2 : Event = record (change ev) { updated_at = env.db_now } in
    let written = update-put env ev change s g in
    let here : get_merge_event ev.id (update env ev.id change s).table.rows ≡ some ev2 =
      ap (get_merge_event ev.id) written ∙ get-put ev.id ev2 s.table.rows ev g same.0 in
    let now =
      subst (λ n. get_merge_event n (update env ev.id change s).table.rows ≡ some ev2) (sym same.0)
        here in
    elim (step now) [
      | inl quiet ↦ inr (ev2, quiet ∙ written, notes same active status)
      | inr (e, moved, m) ↦ inr (
        e,
        subst (λ n. after ≡ put n e (update env ev.id change s).table.rows) same.0 moved
            ∙ ap (put ev.id e) written
            ∙ put-put ev.id ev2 e s.table.rows same.0,
        Moves-note ev ev2 e same status m,
      )
    ]
