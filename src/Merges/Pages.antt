-- ===== src/Merges/Pages.antt =====
-- models/database.py: what a page of the table `merge_events` holds: rows that their keys find, none
-- twice.
use polymarket_rewards.Base.{
  ℕ, ◌<◌, ◌≡◌, refl, inl, inr, Bool, true, false, some, List, [], ◌∷◌, arith, ◌==◌, ==_iff,
  Bool-cases, All, All-map, All-keep, keep, take, zero, suc, ◌&&◌,
}
use polymarket_rewards.Base.Sort.{insert_by, sort_by, All-insert_by, All-sort_by}
use polymarket_rewards.Base.Text.{Text, text_eq}
use polymarket_rewards.Merges.Store.{
  Status, status_eq, Event, get_merge_event, newer_first, list_merge_events,
}
use polymarket_rewards.Merges.Keys.{Above, IsKeyed}

-- Every row of the list is the one that its key finds in `rows`.
abbrev pub AllFound : List Event → List Event → Type 0
AllFound rows read = All (λ r. get_merge_event r.id rows ≡ some r) read

Above-All : (n : ℕ) (rows : List Event) → Above n rows → All (λ r. n < r.id) rows
Above-All n [] h = tt
Above-All n (r ∷ rows) h = (
  h.0,
  All-map (λ x. r.id < x.id) (λ x. n < x.id) rows (λ x k. omega arith) (Above-All r.id rows h.1),
)

skip :
    (r x : Event) (rows : List Event)
    → r.id < x.id
    → get_merge_event x.id rows ≡ some x
    → get_merge_event x.id (r ∷ rows) ≡ some x
unfolding get_merge_event
skip r x rows less g = let apart : (r.id == x.id) ≡ false = ground arith in rw apart g

skip_rows :
    (r : Event) (rows read : List Event)
    → All (λ x. r.id < x.id) read
    → AllFound rows read
    → AllFound (r ∷ rows) read
skip_rows r rows [] h g = tt
skip_rows r rows (x ∷ read) h g = (skip r x rows h.0 g.0, skip_rows r rows read h.1 g.1)

pub IsKeyed-found : (n : ℕ) (rows : List Event) → Above n rows → AllFound rows rows
unfolding get_merge_event
IsKeyed-found n [] h = tt
IsKeyed-found n (r ∷ rows) h =
    let mine : (r.id == r.id) ≡ true = (==_iff r.id r.id).1 refl in
    (rw mine refl, skip_rows r rows rows (Above-All r.id rows h.1) (IsKeyed-found r.id rows h.1))

-- No id stands twice.
abbrev pub Apart : List Event → Type 0
Apart [] = Unit
Apart (r ∷ rows) = All (λ x. (r.id == x.id) ≡ false) rows × Apart rows

pub IsKeyed-Apart : (n : ℕ) (rows : List Event) → Above n rows → Apart rows
IsKeyed-Apart n [] h = tt
IsKeyed-Apart n (r ∷ rows) h = (
  All-map (λ x. r.id < x.id) (λ x. (r.id == x.id) ≡ false) rows (λ x k. ground arith)
      (Above-All r.id rows h.1),
  IsKeyed-Apart r.id rows h.1,
)

All-take {κ} : (P : Event → Type κ) (n : ℕ) (rows : List Event) → All P rows → All P (take n rows)
All-take P zero rows h = tt
All-take P (suc n) [] h = tt
All-take P (suc n) (r ∷ rows) h = (h.0, All-take P n rows h.1)

apart_sym :
    (x : Event) (rows : List Event)
    → All (λ y. (x.id == y.id) ≡ false) rows
    → All (λ y. (y.id == x.id) ≡ false) rows
apart_sym x rows h =
    All-map (λ y. (x.id == y.id) ≡ false) (λ y. (y.id == x.id) ≡ false) rows (λ y k. ground arith) h

insert-Apart :
    (le : Event → Event → Bool) (x : Event) (rows : List Event)
    → All (λ y. (x.id == y.id) ≡ false) rows
    → Apart rows
    → Apart (insert_by le x rows)
unfolding insert_by
insert-Apart le x [] h k = (tt, tt)
insert-Apart le x (y ∷ rows) h k = elim (Bool-cases (le x y)) [
  | inl before ↦ rw before (h, k)
  | inr behind ↦ rw behind (
    All-insert_by le (λ z. (y.id == z.id) ≡ false) x rows (apart_sym x (y ∷ rows) h).0 k.0,
    insert-Apart le x rows h.1 k.1,
  )
]

sort-Apart : (le : Event → Event → Bool) (rows : List Event) → Apart rows → Apart (sort_by le rows)
unfolding sort_by
sort-Apart le [] h = tt
sort-Apart le (x ∷ rows) h =
    insert-Apart le x (sort_by le rows) (All-sort_by le (λ y. (x.id == y.id) ≡ false) rows h.0)
      (sort-Apart le rows h.1)

keep-Apart : (p : Event → Bool) (rows : List Event) → Apart rows → Apart (keep p rows)
keep-Apart p [] h = tt
keep-Apart p (x ∷ rows) h = elim (Bool-cases (p x)) [
  | inl kept ↦ rw kept (All-keep (λ y. (x.id == y.id) ≡ false) p rows h.0, keep-Apart p rows h.1)
  | inr gone ↦ rw gone (keep-Apart p rows h.1)
]

take-Apart : (n : ℕ) (rows : List Event) → Apart rows → Apart (take n rows)
take-Apart zero rows h = tt
take-Apart (suc n) [] h = tt
take-Apart (suc n) (x ∷ rows) h =
    (All-take (λ y. (x.id == y.id) ≡ false) n rows h.0, take-Apart n rows h.1)

keep-All : (p : Event → Bool) (rows : List Event) → All (λ e. p e ≡ true) (keep p rows)
keep-All p [] = tt
keep-All p (x ∷ rows) = elim (Bool-cases (p x)) [
  | inl kept ↦ rw kept (kept, keep-All p rows)
  | inr gone ↦ rw gone (keep-All p rows)
]

-- A page of the table has rows that their keys find, of the status that was asked for, none twice.
pub list_merge_events-Apart :
    (wallet : Text) (status : Status) (limit : ℕ) (rows : List Event)
    → IsKeyed rows
    → AllFound rows (list_merge_events wallet status limit rows)
      × Apart (list_merge_events wallet status limit rows)
      × All
          (λ e. (text_eq e.wallet wallet && status_eq e.status status) ≡ true)
          (list_merge_events wallet status limit rows)
unfolding list_merge_events
list_merge_events-Apart wallet status limit rows h =
    let asked : Event → Bool = λ e. text_eq e.wallet wallet && status_eq e.status status in
    let found : Event → Type 0 = λ r. get_merge_event r.id rows ≡ some r in
    let passes : Event → Type 0 = λ e. asked e ≡ true in
    (
      All-take found limit _
          (All-sort_by newer_first found _ (All-keep found asked rows (IsKeyed-found 0 rows h))),
      take-Apart limit _
          (sort-Apart newer_first _ (keep-Apart asked rows (IsKeyed-Apart 0 rows h))),
      All-take passes limit _ (All-sort_by newer_first passes _ (keep-All asked rows)),
    )
