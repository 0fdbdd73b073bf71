-- ===== src/Merges/Invariant.antt =====
-- models/database.py and engine/exit_router.py: what every reservation and every move keeps.
use polymarket_rewards.Base.{
  ℕ, ◌≤◌, ◌≡◌, refl, sym, ap, ◌∙◌, subst, inl, inr, true, false, some, List, [], ◌∷◌, arith, ◌==◌,
  ==_iff, Bool-cases, any, &&-true,
}
use polymarket_rewards.Base.Text.{Text}
use polymarket_rewards.Merges.Store.{is_active, is_active_on, Event, get_merge_event}
use polymarket_rewards.Merges.Rows.{active_count, active_count-put, get-put_other}
use polymarket_rewards.Merges.Moves.{SameTerms, Moves, notes, submits, confirms, fails, Result}

-- The unique index holds.
abbrev pub OneActive : List Event → Type 0
OneActive rows = (wallet cid : Text) → active_count wallet cid rows ≤ 1

pub Moves-active : (a b : Event) → Moves a b → is_active b.status ≡ true → is_active a.status ≡ true
Moves-active a b (notes s active st) h = active
Moves-active a b (submits s from to) h = ap is_active from
Moves-active a b (confirms s from to paid earned) h = ap is_active from
Moves-active a b (fails s active to) h = active

-- A move starts at an active row.
pub Moves-from_active : (a b : Event) → Moves a b → is_active a.status ≡ true
Moves-from_active a b (notes s active st) = active
Moves-from_active a b (submits s from to) = ap is_active from
Moves-from_active a b (confirms s from to paid earned) = ap is_active from
Moves-from_active a b (fails s active to) = active

pub Moves-SameTerms : (a b : Event) → Moves a b → SameTerms a b
Moves-SameTerms a b (notes s active st) = s
Moves-SameTerms a b (submits s from to) = s
Moves-SameTerms a b (confirms s from to paid earned) = s
Moves-SameTerms a b (fails s active to) = s

Moves-is_active_on :
    (wallet cid : Text) (a b : Event)
    → Moves a b
    → is_active_on wallet cid b ≡ true
    → is_active_on wallet cid a ≡ true
Moves-is_active_on wallet cid a b m h =
    let (active, here) = &&-true (is_active b.status) _ h in
    let same = Moves-SameTerms a b m in rw (Moves-active a b m active, sym same.1, sym same.2) here

pub Result-OneActive :
    (ev : Event) (rows after : List Event)
    → get_merge_event ev.id rows ≡ some ev
    → Result ev rows after
    → OneActive rows
    → OneActive after
Result-OneActive ev rows after g (inl quiet) one wallet cid =
    subst (λ rs. active_count wallet cid rs ≤ 1) (sym quiet) (one wallet cid)
Result-OneActive ev rows after g (inr (e, moved, m)) one wallet cid =
    let fewer =
      active_count-put wallet cid ev.id e rows ev g (Moves-is_active_on wallet cid ev e m) in
    let before = one wallet cid in
    subst (λ rs. active_count wallet cid rs ≤ 1) (sym moved) (omega arith)

-- A row that is not active is not touched by a move of another row or of its own.
pub Result-settled :
    (ev : Event) (rows after : List Event) (id : ℕ) (old : Event)
    → get_merge_event ev.id rows ≡ some ev
    → Result ev rows after
    → get_merge_event id rows ≡ some old
    → is_active old.status ≡ false
    → get_merge_event id after ≡ some old
Result-settled ev rows after id old g (inl quiet) h settled = ap (get_merge_event id) quiet ∙ h
Result-settled ev rows after id old g (inr (e, moved, m)) h settled =
    elim (Bool-cases (ev.id == id)) [
      | inl mine ↦
          let same : ev.id ≡ id = (==_iff ev.id id).0 mine in
          let both : some ev ≡ some old = sym g ∙ ap (λ n. get_merge_event n rows) same ∙ h in
          let is_old : ev ≡ old = cc in
          let active : is_active old.status ≡ true =
            ap (λ x. is_active x.status) (sym is_old) ∙ Moves-from_active ev e m in
          absurd (cc)
      | inr other ↦
          ap (get_merge_event id) moved
          ∙ get-put_other ev.id id e rows (Moves-SameTerms ev e m).0 other
          ∙ h
    ]

pub count-none :
    (wallet cid : Text) (rows : List Event)
    → any (is_active_on wallet cid) rows ≡ false
    → active_count wallet cid rows ≡ 0
count-none wallet cid [] h = refl
count-none wallet cid (e ∷ rows) h = elim (Bool-cases (is_active_on wallet cid e)) [
  | inl active ↦ let bad : true ≡ false = rw active at h in absurd (cc)
  | inr quiet ↦ rw quiet (omega (arith, count-none wallet cid rows (rw quiet at h)))
]
