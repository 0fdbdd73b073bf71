-- ===== src/Exit/Refines.antt =====
-- engine/exit_router.py: a whole tick is a run of the steps of Merges.Steps, and so is any number of
-- ticks.
use polymarket_rewards.Base.{
  ℕ, ◌≡◌, ◌≢◌, refl, sym, ap, ◌∙◌, inl, inr, true, false, some, List, [], ◌∷◌, ◌++◌, ◌==◌, ==_iff,
  ◌&&◌, Bool-cases, All, All-append, &&-true,
}
use polymarket_rewards.Base.Text.{text_eq}
use polymarket_rewards.Merges.{
  Status, ready, submitted, confirmed, failed, status_eq, Event, get_merge_event, Holding, Answers,
  OpenOrder, RouterState, reconcile_event,
}
use polymarket_rewards.Merges.Rows.{get-put_other}
use polymarket_rewards.Merges.Moves.{Result}
use polymarket_rewards.Merges.Invariant.{OneActive, Moves-SameTerms}
use polymarket_rewards.Merges.Reconcile.{reconcile_event-Result}
use polymarket_rewards.Merges.Steps.{
  reconcile_step, quiet_step, Reaches, here, Reaches-trans, Reaches-Step,
}
use polymarket_rewards.Merges.Safety.{Reaches-OneActive}
use polymarket_rewards.Merges.Keys.{IsKeyed, Reaches-IsKeyed}
use polymarket_rewards.Merges.Pages.{AllFound, Apart, list_merge_events-Apart}
use polymarket_rewards.Exit.Defs.{route_position}
use polymarket_rewards.Exit.Steps.{route_position-Reaches}
use polymarket_rewards.Exit.Tick.{
  reconcile_managed_sells, reconcile_all, open_events, reconcile_events, reconcile_pending,
  route_all, tick, TickInput, run,
}

Result-other :
    (ev : Event) (rows later : List Event) (id : ℕ)
    → Result ev rows later
    → (ev.id == id) ≡ false
    → get_merge_event id later ≡ get_merge_event id rows
Result-other ev rows later id (inl same) apart = ap (get_merge_event id) same
Result-other ev rows later id (inr (e, moved, m)) apart =
    ap (get_merge_event id) moved ∙ get-put_other ev.id id e rows (Moves-SameTerms ev e m).0 apart

-- The other rows that have been read are still the current ones.
still_found :
    (ev : Event) (rows later read : List Event)
    → Result ev rows later
    → All (λ x. (ev.id == x.id) ≡ false) read
    → AllFound rows read
    → AllFound later read
still_found ev rows later [] r apart found = tt
still_found ev rows later (x ∷ read) r apart found = (
  Result-other ev rows later x.id r apart.0 ∙ found.0,
  still_found ev rows later read r apart.1 found.1,
)

reconcile_all-Reaches :
    (env : Answers) (active : List Event) (s : RouterState)
    → AllFound s.table.rows active
    → Apart active
    → Reaches s (reconcile_all env active s)
unfolding reconcile_all
reconcile_all-Reaches env [] s found apart = here s
reconcile_all-Reaches env (ev ∷ active) s found apart =
    let t = reconcile_event env ev s in
    Reaches-trans s t _ (Reaches-Step s t (reconcile_step env ev s found.0)) (
      reconcile_all-Reaches env active t
        (still_found ev s.table.rows t.table.rows active (reconcile_event-Result env ev s found.0)
          apart.0 found.1)
        apart.1)

ready-not_submitted : (st : Status) → status_eq st ready ≡ true → status_eq st submitted ≢ true
ready-not_submitted ready h k = cc
ready-not_submitted submitted h k = cc
ready-not_submitted confirmed h k = cc
ready-not_submitted failed h k = cc

-- One row has one status.
two_statuses :
    (rows : List Event) (x y : Event)
    → get_merge_event x.id rows ≡ some x
    → get_merge_event y.id rows ≡ some y
    → status_eq x.status ready ≡ true
    → status_eq y.status submitted ≡ true
    → (x.id == y.id) ≡ false
two_statuses rows x y fx fy is_ready is_submitted = elim (Bool-cases (x.id == y.id)) [
  | inr apart ↦ apart
  | inl same ↦
      let ids : x.id ≡ y.id = (==_iff x.id y.id).0 same in
      let both : some x ≡ some y = sym fx ∙ ap (λ n. get_merge_event n rows) ids ∙ fy in
      let one : x ≡ y = cc in
      absurd (
        ready-not_submitted y.status
          (ap (λ (e : Event). status_eq e.status ready) (sym one) ∙ is_ready) is_submitted)
]

append-Apart :
    (xs ys : List Event)
    → All (λ x. All (λ y. (x.id == y.id) ≡ false) ys) xs
    → Apart xs
    → Apart ys
    → Apart (xs ++ ys)
append-Apart [] ys cross hx hy = hy
append-Apart (x ∷ xs) ys cross hx hy = (
  All-append (λ y. (x.id == y.id) ≡ false) xs ys hx.0 cross.0,
  append-Apart xs ys cross.1 hx.1 hy,
)

-- The answers of one query against those of the other.
cross_one :
    (rows : List Event) (x : Event) (ys : List Event) (wallet : List ℕ)
    → get_merge_event x.id rows ≡ some x
    → status_eq x.status ready ≡ true
    → AllFound rows ys
    → All (λ e. (text_eq e.wallet wallet && status_eq e.status submitted) ≡ true) ys
    → All (λ y. (x.id == y.id) ≡ false) ys
cross_one rows x [] wallet fx is_ready found asked = tt
cross_one rows x (y ∷ ys) wallet fx is_ready found asked = (
  two_statuses rows x y fx found.0 is_ready (&&-true (text_eq y.wallet wallet) _ asked.0).1,
  cross_one rows x ys wallet fx is_ready found.1 asked.1,
)

cross_rows :
    (rows xs ys : List Event) (wallet : List ℕ)
    → AllFound rows xs
    → All (λ e. (text_eq e.wallet wallet && status_eq e.status ready) ≡ true) xs
    → AllFound rows ys
    → All (λ e. (text_eq e.wallet wallet && status_eq e.status submitted) ≡ true) ys
    → All (λ x. All (λ y. (x.id == y.id) ≡ false) ys) xs
cross_rows rows [] ys wallet fx ax fy ay = tt
cross_rows rows (x ∷ xs) ys wallet fx ax fy ay = (
  cross_one rows x ys wallet fx.0 (&&-true (text_eq x.wallet wallet) _ ax.0).1 fy ay,
  cross_rows rows xs ys wallet fx.1 ax.1 fy ay,
)

reconcile_events-Reaches :
    (env : Answers) (s : RouterState) → IsKeyed s.table.rows → Reaches s (reconcile_events env s)
unfolding reconcile_events open_events
reconcile_events-Reaches env s keyed =
    let rows = s.table.rows in
    let (fr, ar, qr) = list_merge_events-Apart env.wallet ready 100 rows keyed in
    let (fs, as_, qs) = list_merge_events-Apart env.wallet submitted 100 rows keyed in
    reconcile_all-Reaches env (open_events env s) s
      (All-append (λ r. get_merge_event r.id rows ≡ some r) _ _ fr fs)
      (append-Apart _ _ (cross_rows rows _ _ env.wallet fr qr fs qs) ar as_)

route_all-Reaches :
    (env : Answers) (orders : List OpenOrder) (routed : List Holding) (s : RouterState)
    → Reaches s (route_all env orders routed s)
unfolding route_all
route_all-Reaches env orders [] s = here s
route_all-Reaches env orders (p ∷ routed) s =
    let t = (route_position env orders p s).1 in
    Reaches-trans s t _ (route_position-Reaches env orders p s)
      (route_all-Reaches env orders routed t)

-- A tick of the router, the reconciliation of all open events and the routes of any positions, is a run
-- of the router's steps, where the rows of the table have growing ids: each event is reconciled as it
-- stands in the table at its turn.
tick-Reaches :
    (env : Answers) (orders : List OpenOrder) (routed : List Holding) (s : RouterState)
    → IsKeyed s.table.rows
    → Reaches s (tick env orders routed s)
unfolding tick reconcile_pending reconcile_managed_sells
tick-Reaches env orders routed s keyed =
    let begun = reconcile_managed_sells (record s { open_orders = orders }) in
    let done = reconcile_events env begun in
    Reaches-trans s done _
      (Reaches-trans s begun done (Reaches-Step s begun (quiet_step s begun refl))
        (reconcile_events-Reaches env begun keyed))
      (route_all-Reaches env orders routed done)

run-Reaches :
    (ticks : List TickInput) (s : RouterState) → IsKeyed s.table.rows → Reaches s (run ticks s)
unfolding run
run-Reaches [] s keyed = here s
run-Reaches (i ∷ ticks) s keyed =
    let t = tick i.env i.orders i.routed s in
    let first = tick-Reaches i.env i.orders i.routed s keyed in
    Reaches-trans s t _ first (run-Reaches ticks t (Reaches-IsKeyed s t first keyed))

-- After any number of ticks, each in a world of its own, the ids of the events still grow and no wallet
-- has two active events on one market, if it was so before.
pub run-OneActive :
    (ticks : List TickInput) (s : RouterState)
    → IsKeyed s.table.rows
    → OneActive s.table.rows
    → IsKeyed (run ticks s).table.rows × OneActive (run ticks s).table.rows
run-OneActive ticks s keyed one =
    let path = run-Reaches ticks s keyed in
    (Reaches-IsKeyed s (run ticks s) path keyed, Reaches-OneActive s (run ticks s) path one)
