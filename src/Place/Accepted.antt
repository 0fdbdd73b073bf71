-- ===== src/Place/Accepted.antt =====
-- engine/manager.py: the purchases of a round that the exchange accepts, and the counts that follow them.
use polymarket_rewards.Base.{
  ℕ, ◌+◌, ◌≡◌, refl, ap, inl, inr, Bool, true, false, ◌||◌, List, [], ◌∷◌, ◌++◌, arith, Bool-cases,
  length, All, All-append, if◌then◌else◌,
}
use polymarket_rewards.Base.Text.{Text, text_eq, text_eq_refl}
use polymarket_rewards.Place.Holdings.{has_text, add_text}
use polymarket_rewards.Place.World.{Exchange, Sent, cancel, buy, Round, sending}
use mathlib.Core.List.{append-nil}

-- The markets of the purchases that were accepted, one entry for each purchase.
abbrev pub accepted : Exchange → List Sent → List Text
accepted x [] = []
accepted x (cancel market ids ∷ sent) = accepted x sent
accepted x (buy market token price shares ∷ sent) =
    let rest = accepted x sent in
    if x.place_limit_buy token price shares then market ∷ rest else rest

accepted-append :
    (x : Exchange) (xs ys : List Sent) → accepted x (xs ++ ys) ≡ accepted x xs ++ accepted x ys
accepted-append x [] ys = refl
accepted-append x (cancel market ids ∷ xs) ys = accepted-append x xs ys
accepted-append x (buy market token price shares ∷ xs) ys =
    elim (Bool-cases (x.place_limit_buy token price shares)) [
      | inl taken ↦ rw taken (ap (λ ms. market ∷ ms) (accepted-append x xs ys))
      | inr refused ↦ rw refused (accepted-append x xs ys)
    ]

length-append {ℓ} : {A : Type ℓ} (xs ys : List A) → length (xs ++ ys) ≡ length xs + length ys
length-append [] ys = omega arith
length-append (a ∷ xs) ys = omega (arith, length-append xs ys)

-- All the markets count as open.
abbrev pub AllOpen : List Text → List Text → Type 0
AllOpen open_ones ms = All (λ (m : Text). has_text m open_ones ≡ true) ms

or_later : (a b : Bool) → b ≡ true → (a || b) ≡ true
or_later true b h = refl
or_later false b h = h

has_text-add :
    (m new : Text) (ts : List Text) → has_text m ts ≡ true → has_text m (add_text new ts) ≡ true
has_text-add m new ts h = elim (Bool-cases (has_text new ts)) [
  | inl old ↦ rw old h
  | inr fresh ↦ rw fresh (or_later (text_eq new m) (has_text m ts) h)
]

pub has_text-own : (new : Text) (ts : List Text) → has_text new (add_text new ts) ≡ true
has_text-own new ts = elim (Bool-cases (has_text new ts)) [
  | inl old ↦ rw old old
  | inr fresh ↦ let mine = text_eq_refl new in rw (fresh, mine) refl
]

AllOpen-add : (new : Text) (ts ms : List Text) → AllOpen ts ms → AllOpen (add_text new ts) ms
AllOpen-add new ts [] h = tt
AllOpen-add new ts (m ∷ ms) (here, h) = (has_text-add m new ts here, AllOpen-add new ts ms h)

-- As many purchases were accepted as are counted, all of them on markets that count as open.
abbrev pub Counted : Exchange → Round → Type 0
Counted x r =
    (length (accepted x r.sent) ≡ r.placed) × AllOpen r.markets_with_open (accepted x r.sent)

module _ (x : Exchange) (r : Round) (h : Counted x r) where
  pub Counted-cancel : (mid : Text) (ids : List Text) → Counted x (sending (cancel mid ids) r)
  Counted-cancel mid ids = rw (accepted-append x r.sent (cancel mid ids ∷ []), append-nil) h

  module _ (mid token : Text) (price shares : ℕ) where
    accepted-buy :
        (taken : Bool)
        → x.place_limit_buy token price shares ≡ taken
        → accepted x (r.sent ++ buy mid token price shares ∷ [])
          ≡ accepted x r.sent ++ (if taken then mid ∷ [] else [])
    accepted-buy taken e = rw (accepted-append x r.sent (buy mid token price shares ∷ []), e) refl

    pub Counted-refused :
        x.place_limit_buy token price shares ≡ false
        → Counted x (sending (buy mid token price shares) r)
    Counted-refused e = rw (accepted-buy false e, append-nil) h

    pub Counted-accepted :
        (off : Bool)
        → x.place_limit_buy token price shares ≡ true
        → Counted x (record (sending (buy mid token price shares) r) {
          placed = r.placed + 1;
          markets_with_open = add_text mid r.markets_with_open;
          stopped = off;
        })
    Counted-accepted off e =
        let ms = accepted x r.sent in
        let open_ones = add_text mid r.markets_with_open in
        rw (accepted-buy true e) (
          omega (arith, length-append ms (mid ∷ []), h.0),
          All-append (λ (m : Text). has_text m open_ones ≡ true) ms (mid ∷ [])
              (AllOpen-add mid r.markets_with_open ms h.1)
              (has_text-own mid r.markets_with_open, tt),
        )
