-- ===== src/Exit/Twice.antt =====
-- engine/exit_router.py: an order whose answer is lost is taken for an order that was not sent.
use polymarket_rewards.Base.{
  ℕ, ◌≤◌, ◌≡◌, refl, sym, ap, ◌∙◌, subst, inl, inr, Bool, true, false, some, List, [], ◌∷◌, ◌++◌,
  arith, ◌==◌, ==_iff, Bool-cases, any,
}
use polymarket_rewards.Base.Text.{Text}
use polymarket_rewards.Cost.{Lot}
use polymarket_rewards.Merges.{
  failed, fok_merge, Event, is_active_on, new_event, next_id, create_merge_event, update_row,
  update_merge_event, get_merge_event, Answers, network_error, fok_call, RouterState,
  pair_balance_ok, fail_row, fail_event, reconcile_ready, reconcile_status, reconcile_event,
  fifo_cost, after_fok, send_fok, start_fok_merge,
}
use polymarket_rewards.Merges.Rows.{put, update_row-put}
use polymarket_rewards.Merges.Create.{new-Current}
use polymarket_rewards.Exit.Calls.{after_fok-calls}

put-last :
    (id : ℕ) (e : Event) (rows : List Event) (new : Event)
    → next_id rows ≤ id
    → new.id ≡ id
    → put id e (rows ++ new ∷ []) ≡ rows ++ e ∷ []
unfolding update_row
put-last id e [] new above mine =
    let here : (new.id == id) ≡ true = (==_iff new.id id).1 mine in rw here
put-last id e (r ∷ rows) new above mine =
    let apart : (r.id == id) ≡ false = ground arith in
    rw apart (ap (λ rs. r ∷ rs) (put-last id e rows new (omega arith) mine))

any-last :
    (p : Event → Bool) (rows : List Event) (e : Event)
    → any p rows ≡ false
    → p e ≡ false
    → any p (rows ++ e ∷ []) ≡ false
any-last p [] e h k = rw k refl
any-last p (r ∷ rows) e h k = elim (Bool-cases (p r)) [
  | inl yes_row ↦ absurd (let wrong : true ≡ false = rw yes_row at h in cc)
  | inr other ↦ rw other (any-last p rows e (rw other at h) k)
]

module _ (cid asset complement : Text) (size worst : ℕ) (lots : List Lot) where
  -- The row that the route reserves.
  abbrev pub reserved : Answers → RouterState → Event
  reserved env s =
      new_event (next_id s.table.rows) env.db_now env.wallet cid fok_merge size asset complement
        (fifo_cost lots size) 0

  sent_once :
      (env : Answers) (s : RouterState)
      → any (is_active_on env.wallet cid) s.table.rows ≡ false
      → (start_fok_merge env cid asset complement size worst lots s).calls
        ≡ s.calls ++ fok_call (next_id s.table.rows) complement worst size ∷ []
  unfolding start_fok_merge send_fok create_merge_event
  sent_once env s free =
      rw free
        (after_fok-calls env (next_id s.table.rows) (env.place_fok_buy complement worst size) _)

  lost_rows :
      (env : Answers) (s : RouterState)
      → any (is_active_on env.wallet cid) s.table.rows ≡ false
      → env.place_fok_buy complement worst size ≡ network_error
      → (start_fok_merge env cid asset complement size worst lots s).table.rows
        ≡ s.table.rows ++ reserved env s ∷ []
  unfolding start_fok_merge send_fok create_merge_event after_fok
  lost_rows env s free lost = rw (free, lost) refl

  abbrev failed_row : Answers → Answers → RouterState → Event
  failed_row env env2 s = record (reserved env s) { status = failed; updated_at = env2.db_now }

  failed_rows :
      (env env2 : Answers) (s t : RouterState)
      → t.table.rows ≡ s.table.rows ++ reserved env s ∷ []
      → pair_balance_ok env2 (reserved env s) ≡ false
      → ((reconcile_event env2 (reserved env s) t).table.rows
          ≡ s.table.rows ++ failed_row env env2 s ∷ [])
        × ((reconcile_event env2 (reserved env s) t).calls ≡ t.calls)
  unfolding reconcile_event reconcile_status reconcile_ready fail_event fail_row update_merge_event
  failed_rows env env2 s t rows broken =
      let ev = reserved env s in
      let here : get_merge_event ev.id t.table.rows ≡ some ev =
        ap (get_merge_event ev.id) rows ∙ new-Current s.table.rows ev refl in
      let change : Event → Event = λ e. record e { status = failed; updated_at = env2.db_now } in
      rw (broken, here)
        (
          update_row-put ev.id change t.table.rows ev here
              ∙ ap (put ev.id (failed_row env env2 s)) rows
              ∙ put-last ev.id (failed_row env env2 s) s.table.rows ev (omega arith) refl,
          refl,
        )

  -- The market has no active event. The FOK order is sent and its answer lost. The next tick does not
  -- see the pair yet, as when the order is delayed, and fails the reservation. Then the route sends a
  -- second order for the same shares, whatever has become of the first.
  pub lost_answer_sends_twice :
      (env env2 env3 : Answers) (s : RouterState)
      → any (is_active_on env.wallet cid) s.table.rows ≡ false
      → env.place_fok_buy complement worst size ≡ network_error
      → pair_balance_ok env2 (reserved env s) ≡ false
      → env3.wallet ≡ env.wallet
      → let s1 = start_fok_merge env cid asset complement size worst lots s in
        let s2 = reconcile_event env2 (reserved env s) s1 in
        (id : ℕ) × ((start_fok_merge env3 cid asset complement size worst lots s2).calls
          ≡ (s.calls ++ fok_call (next_id s.table.rows) complement worst size ∷ [])
            ++ fok_call id complement worst size ∷ [])
  lost_answer_sends_twice env env2 env3 s free lost broken owner =
      let s1 = start_fok_merge env cid asset complement size worst lots s in
      let s2 = reconcile_event env2 (reserved env s) s1 in
      let (rows, calls) = failed_rows env env2 s s1 (lost_rows env s free lost) broken in
      let free2 : any (is_active_on env3.wallet cid) s2.table.rows ≡ false =
        subst (λ w. any (is_active_on w cid) s2.table.rows ≡ false) (sym owner)
          (ap (any (is_active_on env.wallet cid)) rows
            ∙ any-last (is_active_on env.wallet cid) s.table.rows (failed_row env env2 s) free
                refl) in
      (
        next_id s2.table.rows,
        sent_once env3 s2 free2
            ∙ ap (λ cs. cs ++ fok_call (next_id s2.table.rows) complement worst size ∷ [])
                (calls ∙ sent_once env s free),
      )
