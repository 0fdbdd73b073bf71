-- ===== src/Merges/Keys.antt =====
-- models/database.py: the primary keys of the table `merge_events` grow from row to row, so a row that
-- is read is the one that its key finds. engine/exit_router.py keeps that.
use polymarket_rewards.Base.{
  ℕ, ◌≤◌, ◌<◌, ◌≡◌, sym, ◌∙◌, subst, inl, inr, List, [], ◌∷◌, ◌++◌, arith, ◌==◌, ==_iff, Bool-cases,
}
use polymarket_rewards.Merges.Store.{Event, Table, next_id, update_row}
use polymarket_rewards.Merges.Rows.{put}
use polymarket_rewards.Merges.Moves.{Result}
use polymarket_rewards.Merges.Invariant.{Moves-SameTerms}
use polymarket_rewards.Merges.Create.{Reserves}
use polymarket_rewards.Merges.State.{RouterState}
use polymarket_rewards.Merges.Reconcile.{reconcile_event-Result}
use polymarket_rewards.Merges.Steps.{
  Step, pair_step, fok_step, reconcile_step, quiet_step, Reaches, here, after,
  pair_merge_route-Reserves, start_fok_merge-Reserves,
}

-- All ids are above `n`, and each is above the one before.
abbrev pub Above : ℕ → List Event → Type 0
Above n [] = Unit
Above n (e ∷ rows) = (n < e.id) × Above e.id rows

abbrev pub IsKeyed : List Event → Type 0
IsKeyed rows = Above 0 rows

put-Above :
    (n id : ℕ) (e : Event) (rows : List Event) → e.id ≡ id → Above n rows → Above n (put id e rows)
unfolding update_row
put-Above n id e [] mine h = tt
put-Above n id e (r ∷ rows) mine h = elim (Bool-cases (r.id == id)) [
  | inl found ↦
      let same : e.id ≡ r.id = mine ∙ sym ((==_iff r.id id).0 found) in
      rw found (subst (λ k. (n < k) × Above k rows) (sym same) h)
  | inr there ↦ rw there (h.0, put-Above r.id id e rows mine h.1)
]

append-Above :
    (n : ℕ) (rows : List Event) (new : Event)
    → Above n rows
    → n < new.id
    → next_id rows ≤ new.id
    → Above n (rows ++ new ∷ [])
append-Above n [] new h above fresh = (above, tt)
append-Above n (r ∷ rows) new h above fresh =
    (h.0, append-Above r.id rows new h.1 (omega arith) (omega arith))

next_id-pos : (rows : List Event) → 0 < next_id rows
next_id-pos [] = omega arith
next_id-pos (r ∷ rows) = omega (arith, next_id-pos rows)

Result-IsKeyed :
    (ev : Event) (rows later : List Event) → Result ev rows later → IsKeyed rows → IsKeyed later
Result-IsKeyed ev rows later (inl quiet) h = subst IsKeyed (sym quiet) h
Result-IsKeyed ev rows later (inr (e, moved, m)) h =
    subst IsKeyed (sym moved) (put-Above 0 ev.id e rows (Moves-SameTerms ev e m).0 h)

Reserves-IsKeyed : (rows later : List Event) → Reserves rows later → IsKeyed rows → IsKeyed later
Reserves-IsKeyed rows later (inl same) h = subst IsKeyed (sym same) h
Reserves-IsKeyed rows later (inr (new, mine, quiet, r)) h =
    Result-IsKeyed new _ later r
      (append-Above 0 rows new h (omega (arith, next_id-pos rows)) (omega arith))

pub Step-IsKeyed : (s t : RouterState) → Step s t → IsKeyed s.table.rows → IsKeyed t.table.rows
Step-IsKeyed _ _ (pair_step env cid asset other size other_size lots other_lots s) h =
    Reserves-IsKeyed _ _
      (pair_merge_route-Reserves env cid asset other size other_size lots other_lots s) h
Step-IsKeyed _ _ (fok_step env cid asset complement size worst lots s) h =
    Reserves-IsKeyed _ _ (start_fok_merge-Reserves env cid asset complement size worst lots s) h
Step-IsKeyed _ _ (reconcile_step env ev s g) h =
    Result-IsKeyed ev _ _ (reconcile_event-Result env ev s g) h
Step-IsKeyed _ _ (quiet_step s t same) h = subst (λ (t : Table). IsKeyed t.rows) (sym same) h

pub Reaches-IsKeyed :
    (s t : RouterState) → Reaches s t → IsKeyed s.table.rows → IsKeyed t.table.rows
Reaches-IsKeyed _ _ (here s) h = h
Reaches-IsKeyed _ _ (after s m t path step) h = Step-IsKeyed m t step (Reaches-IsKeyed s m path h)
