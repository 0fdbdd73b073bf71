-- ===== src/Merges/Safety.antt =====
-- engine/exit_router.py: what the steps of the router never do, whatever their order and worlds.
use polymarket_rewards.Base.{
  ℕ, ◌≡◌, refl, ap, sym, subst, ◌∙◌, inl, inr, true, false, ◌||◌, not, Option, none, some, List, [],
  ◌∷◌, ltb, Bool-cases, any,
}
use polymarket_rewards.Base.Text.{Text}
use polymarket_rewards.Cost.{Lot}
use polymarket_rewards.Ledger.{pair_amount}
use polymarket_rewards.Merges.Store.{
  is_active, is_active_on, Event, Table, create_merge_event, get_merge_event, later_or,
  get_active_merge_event,
}
use polymarket_rewards.Merges.State.{Answers, RouterState}
use polymarket_rewards.Merges.Routes.{after_pair, pair_merge_route, send_fok, start_fok_merge}
use polymarket_rewards.Merges.Reconcile.{reconcile_event-Result}
use polymarket_rewards.Merges.Steps.{
  Step, pair_step, fok_step, reconcile_step, quiet_step, Reaches, here, after,
  pair_merge_route-Reserves, start_fok_merge-Reserves,
}
use polymarket_rewards.Merges.Invariant.{OneActive, Result-OneActive, Result-settled}
use polymarket_rewards.Merges.Create.{Reserves-OneActive, Reserves-settled}

Step-OneActive : (s t : RouterState) → Step s t → OneActive s.table.rows → OneActive t.table.rows
Step-OneActive _ _ (pair_step env cid asset other size other_size lots other_lots s) one =
    Reserves-OneActive _ _
      (pair_merge_route-Reserves env cid asset other size other_size lots other_lots s) one
Step-OneActive _ _ (fok_step env cid asset complement size worst lots s) one =
    Reserves-OneActive _ _ (start_fok_merge-Reserves env cid asset complement size worst lots s) one
Step-OneActive _ _ (reconcile_step env ev s g) one =
    Result-OneActive ev _ _ g (reconcile_event-Result env ev s g) one
Step-OneActive _ _ (quiet_step s t same) one =
    subst (λ (table : Table). OneActive table.rows) (sym same) one

-- Whatever steps the router takes, in any order and in whatever worlds, a wallet never has two active
-- merge events on one market, if it did not start with two.
pub Reaches-OneActive :
    (s t : RouterState) → Reaches s t → OneActive s.table.rows → OneActive t.table.rows
Reaches-OneActive _ _ (here s) one = one
Reaches-OneActive _ _ (after s m t path step) one =
    Step-OneActive m t step (Reaches-OneActive s m path one)

Step-settled :
    (s t : RouterState) (id : ℕ) (old : Event)
    → Step s t
    → get_merge_event id s.table.rows ≡ some old
    → is_active old.status ≡ false
    → get_merge_event id t.table.rows ≡ some old
Step-settled _ _ id old (pair_step env cid asset other size other_size lots other_lots s) g
      settled =
    Reserves-settled _ _ id old
      (pair_merge_route-Reserves env cid asset other size other_size lots other_lots s) g settled
Step-settled _ _ id old (fok_step env cid asset complement size worst lots s) g settled =
    Reserves-settled _ _ id old
      (start_fok_merge-Reserves env cid asset complement size worst lots s) g settled
Step-settled _ _ id old (reconcile_step env ev s current) g settled =
    Result-settled ev _ _ id old current (reconcile_event-Result env ev s current) g settled
Step-settled _ _ id old (quiet_step s t same) g settled =
    ap (λ (table : Table). get_merge_event id table.rows) same ∙ g

-- An event that is confirmed or has failed keeps its row as it is, its profit included, through any
-- further steps: a merge is accounted for once.
pub Reaches-settled :
    (s t : RouterState) (id : ℕ) (old : Event)
    → Reaches s t
    → get_merge_event id s.table.rows ≡ some old
    → is_active old.status ≡ false
    → get_merge_event id t.table.rows ≡ some old
Reaches-settled _ _ id old (here s) g settled = g
Reaches-settled _ _ id old (after s m t path step) g settled =
    Step-settled m t id old step (Reaches-settled s m id old path g settled) settled

later_or-none : (o : Option Event) (ev : Event) → later_or o none ≡ some ev → o ≡ some ev
later_or-none none ev e = e
later_or-none (some later) ev e = e

active-any :
    (wallet cid : Text) (rows : List Event) (ev : Event)
    → get_active_merge_event wallet cid rows ≡ some ev
    → any (is_active_on wallet cid) rows ≡ true
unfolding get_active_merge_event
active-any wallet cid [] ev g = cc
active-any wallet cid (e ∷ rows) ev g = elim (Bool-cases (is_active_on wallet cid e)) [
  | inl active ↦ rw active refl
  | inr quiet ↦ rw quiet (active-any wallet cid rows ev (later_or-none _ _ (rw quiet at g)))
]

-- While a wallet has an active event on a market, neither route reserves, orders or submits anything
-- more there: the state stays as it is.
pub active_market_untouched :
    (env : Answers) (cid asset other : Text) (size other_size worst : ℕ)
    (lots other_lots : List Lot) (s : RouterState) (ev : Event)
    → get_active_merge_event env.wallet cid s.table.rows ≡ some ev
    → ((pair_merge_route env cid asset other size other_size lots other_lots s).1 ≡ s)
      × (start_fok_merge env cid asset other size worst lots s ≡ s)
unfolding pair_merge_route after_pair start_fok_merge send_fok create_merge_event
active_market_untouched env cid asset other size other_size worst lots other_lots s ev g =
    let busy = active-any env.wallet cid s.table.rows ev g in
    let q = pair_amount size other_size in
    elim (Bool-cases (ltb q env.template.merge_min_shares || not env.relayer_ok)) [
      | inl small ↦ rw (small, busy) (refl, refl)
      | inr enough ↦ rw (enough, busy) (refl, refl)
    ]
