-- ===== src/Merges/Create.antt =====
-- models/database.py: a reservation adds one row, under a new id, where the market has no active one.
use polymarket_rewards.Base.{
  ℕ, ◌≤◌, ◌<◌, ◌≡◌, refl, sym, ap, ◌∙◌, subst, ◌⊎◌, inl, inr, true, false, some, List, [], ◌∷◌,
  ◌++◌, arith, ◌==◌, ==_iff, if◌then◌else◌, Bool-cases, any, sum_of-append, &&-true,
}
use polymarket_rewards.Base.Text.{text_eq, text_eq→≡}
use polymarket_rewards.Merges.Store.{is_active, is_active_on, Event, next_id, get_merge_event}
use polymarket_rewards.Merges.Rows.{active_count, get-append}
use polymarket_rewards.Merges.Moves.{Result}
use polymarket_rewards.Merges.Invariant.{OneActive, Result-OneActive, Result-settled, count-none}

-- No row has the new id yet.
get-above :
    (id : ℕ) (rows : List Event) (new : Event)
    → next_id rows ≤ id
    → new.id ≡ id
    → get_merge_event id (rows ++ new ∷ []) ≡ some new
unfolding get_merge_event
get-above id [] new above mine =
    let e : (new.id == id) ≡ true = (==_iff new.id id).1 mine in rw e refl
get-above id (r ∷ rows) new above mine =
    let apart : (r.id == id) ≡ false = ground arith in
    rw apart (get-above id rows new (omega arith) mine)

-- The new row is the current one of its id.
pub new-Current :
    (rows : List Event) (new : Event)
    → new.id ≡ next_id rows
    → get_merge_event new.id (rows ++ new ∷ []) ≡ some new
new-Current rows new mine =
    subst (λ n. get_merge_event n (rows ++ new ∷ []) ≡ some new) (sym mine)
      (get-above (next_id rows) rows new (omega arith) mine)

-- A row that is found has a smaller id.
found-below :
    (id : ℕ) (rows : List Event) (old : Event)
    → get_merge_event id rows ≡ some old
    → id < next_id rows
unfolding get_merge_event
found-below id [] old g = cc
found-below id (r ∷ rows) old g = elim (Bool-cases (r.id == id)) [
  | inl here ↦ let same : r.id ≡ id = (==_iff r.id id).0 here in omega arith
  | inr there ↦ omega (arith, found-below id rows old (rw there at g))
]

grown-OneActive :
    (rows : List Event) (new : Event)
    → any (is_active_on new.wallet new.condition_id) rows ≡ false
    → OneActive rows
    → OneActive (rows ++ new ∷ [])
grown-OneActive rows new quiet one wallet cid =
    let sum = sum_of-append (λ e. if is_active_on wallet cid e then 1 else 0) rows (new ∷ []) in
    elim (Bool-cases (is_active_on wallet cid new)) [
      | inl active ↦
          let (_, here) = &&-true (is_active new.status) _ active in
          let (w, c) = &&-true (text_eq new.wallet wallet) _ here in
          let zero_before : active_count wallet cid rows ≡ 0 =
            subst (λ t. active_count t cid rows ≡ 0) (text_eq→≡ new.wallet wallet w)
              (subst (λ t. active_count new.wallet t rows ≡ 0) (text_eq→≡ new.condition_id cid c)
                (count-none new.wallet new.condition_id rows quiet)) in
          let one_more : active_count wallet cid (new ∷ []) ≡ 1 = rw active refl in omega arith
      | inr other ↦
          let no_more : active_count wallet cid (new ∷ []) ≡ 0 = rw other refl in
          let before = one wallet cid in omega arith
    ]

-- What a route does to the table: nothing, or one reservation whose new row then moves on.
abbrev pub Reserves : List Event → List Event → Type 0
Reserves rows after =
    (after ≡ rows)
    ⊎ ((new : Event) × (new.id ≡ next_id rows)
        × (any (is_active_on new.wallet new.condition_id) rows ≡ false)
        × Result new (rows ++ new ∷ []) after)

pub Reserves-OneActive :
    (rows after : List Event) → Reserves rows after → OneActive rows → OneActive after
Reserves-OneActive rows after (inl same) one = subst OneActive (sym same) one
Reserves-OneActive rows after (inr (new, mine, quiet, r)) one =
    Result-OneActive new (rows ++ new ∷ []) after
      (subst (λ n. get_merge_event n (rows ++ new ∷ []) ≡ some new) (sym mine)
        (get-above (next_id rows) rows new (omega arith) mine))
      r (grown-OneActive rows new quiet one)

pub Reserves-settled :
    (rows after : List Event) (id : ℕ) (old : Event)
    → Reserves rows after
    → get_merge_event id rows ≡ some old
    → is_active old.status ≡ false
    → get_merge_event id after ≡ some old
Reserves-settled rows after id old (inl same) g settled = ap (get_merge_event id) same ∙ g
Reserves-settled rows after id old (inr (new, mine, quiet, r)) g settled =
    Result-settled new (rows ++ new ∷ []) after id old
      (subst (λ n. get_merge_event n (rows ++ new ∷ []) ≡ some new) (sym mine)
        (get-above (next_id rows) rows new (omega arith) mine))
      r (get-append id rows (new ∷ []) old g) settled
