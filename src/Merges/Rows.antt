-- ===== src/Merges/Rows.antt =====
-- models/database.py: reading and writing rows of the table `merge_events`.
use polymarket_rewards.Base.{
  ℕ, ◌+◌, ◌≤◌, ◌≡◌, refl, ap, ◌∙◌, inl, inr, Bool, true, false, some, List, [], ◌∷◌, ◌++◌, arith,
  ◌==◌, ==_iff, if◌then◌else◌, Bool-cases, sum_of,
}
use polymarket_rewards.Base.Text.{Text}
use polymarket_rewards.Merges.Store.{Event, is_active_on, get_merge_event, update_row}

-- The row `id` is `e` from now on.
abbrev pub put : ℕ → Event → List Event → List Event
put id e rows = update_row id (λ _. e) rows

pub update_row-put :
    (id : ℕ) (change : Event → Event) (rows : List Event) (ev : Event)
    → get_merge_event id rows ≡ some ev
    → update_row id change rows ≡ put id (change ev) rows
unfolding update_row get_merge_event
update_row-put id change [] ev g = cc
update_row-put id change (e ∷ rows) ev g = elim (Bool-cases (e.id == id)) [
  | inl here ↦
      let same : some e ≡ some ev = rw here at g in rw here (ap (λ x. change x ∷ rows) (cc))
  | inr there ↦ rw there (ap (λ rs. e ∷ rs) (update_row-put id change rows ev (rw there at g)))
]

pub get-put :
    (id : ℕ) (e : Event) (rows : List Event) (ev : Event)
    → get_merge_event id rows ≡ some ev
    → e.id ≡ id
    → get_merge_event id (put id e rows) ≡ some e
unfolding update_row get_merge_event
get-put id e [] ev g same = cc
get-put id e (r ∷ rows) ev g same = elim (Bool-cases (r.id == id)) [
  | inl here ↦ let mine : (e.id == id) ≡ true = (==_iff e.id id).1 same in rw (here, mine) refl
  | inr there ↦ rw (there, there) (get-put id e rows ev (rw there at g) same)
]

pub get-put_other :
    (id other : ℕ) (e : Event) (rows : List Event)
    → e.id ≡ id
    → (id == other) ≡ false
    → get_merge_event other (put id e rows) ≡ get_merge_event other rows
unfolding update_row get_merge_event
get-put_other id other e [] same apart = refl
get-put_other id other e (r ∷ rows) same apart = elim (Bool-cases (r.id == id)) [
  | inl here ↦
      let mine : r.id ≡ id = (==_iff r.id id).0 here in
      let away : (r.id == other) ≡ false = ap (λ n. n == other) mine ∙ apart in
      let away2 : (e.id == other) ≡ false = ap (λ n. n == other) same ∙ apart in
      rw (here, away, away2) refl
  | inr there ↦
      rw there
        (ap (λ o. if r.id == other then some r else o) (get-put_other id other e rows same apart))
]

pub put-put :
    (id : ℕ) (e f : Event) (rows : List Event)
    → e.id ≡ id
    → put id f (put id e rows) ≡ put id f rows
unfolding update_row
put-put id e f [] same = refl
put-put id e f (r ∷ rows) same = elim (Bool-cases (r.id == id)) [
  | inl here ↦ let mine : (e.id == id) ≡ true = (==_iff e.id id).1 same in rw (here, mine) refl
  | inr there ↦ rw (there, there) (ap (λ rs. r ∷ rs) (put-put id e f rows same))
]

pub get-append :
    (id : ℕ) (rows new : List Event) (ev : Event)
    → get_merge_event id rows ≡ some ev
    → get_merge_event id (rows ++ new) ≡ some ev
unfolding get_merge_event
get-append id [] new ev g = cc
get-append id (r ∷ rows) new ev g = elim (Bool-cases (r.id == id)) [
  | inl here ↦ rw here (rw here at g)
  | inr there ↦ rw there (get-append id rows new ev (rw there at g))
]

-- How many rows are active on a market.
abbrev pub active_count : Text → Text → List Event → ℕ
active_count wallet cid rows = sum_of (λ e. if is_active_on wallet cid e then 1 else 0) rows

if_le :
    (a b : Bool) (n : ℕ)
    → (a ≡ true → b ≡ true)
    → (if a then 1 else 0) + n ≤ (if b then 1 else 0) + n
if_le true b n h = rw (h refl) (omega arith)
if_le false b n h = omega arith

pub active_count-put :
    (wallet cid : Text) (id : ℕ) (e : Event) (rows : List Event) (ev : Event)
    → get_merge_event id rows ≡ some ev
    → (is_active_on wallet cid e ≡ true → is_active_on wallet cid ev ≡ true)
    → active_count wallet cid (put id e rows) ≤ active_count wallet cid rows
unfolding update_row get_merge_event
active_count-put wallet cid id e [] ev g h = cc
active_count-put wallet cid id e (r ∷ rows) ev g h = elim (Bool-cases (r.id == id)) [
  | inl here ↦
      let same : some r ≡ some ev = rw here at g in
      let mine : r ≡ ev = cc in
      rw (here, mine) (if_le (is_active_on wallet cid e) (is_active_on wallet cid ev) _ h)
  | inr there ↦ rw there (omega (arith, active_count-put wallet cid id e rows ev (rw there at g) h))
]
