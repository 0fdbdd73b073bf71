-- ===== src/Ledger/Assets.antt =====
-- engine/pnl.py: the ledger looks at every token that we have traded.
use polymarket_rewards.Base.{
  ◌≡◌, refl, sym, ◌∙◌, inl, inr, Bool, true, false, ◌&&◌, ◌||◌, not, Option, List, [], ◌∷◌, ◌++◌,
  map, arith, if◌then◌else◌, Bool-cases, &&-true, keep, is_empty, any,
}
use polymarket_rewards.Base.Text.{Text, codes, text_eq, text_eq→≡, text_eq_refl, or_blank}
use polymarket_rewards.Fills.{
  MakerOrder, Trade, fold_funder, is_ours, side_is, we_are_maker, maker_fill, taker_fill,
  is_ours_on, is_taker_on, fills_of_trade, collect_fills, extract_fills,
}
use polymarket_rewards.Ledger.Pnl.{assets_of_trade, collect_assets, our_traded_assets}

any-append {ℓ} :
    {A : Type ℓ} (p : A → Bool) (xs ys : List A) → any p (xs ++ ys) ≡ any p xs || any p ys
any-append p [] ys = refl
any-append p (x ∷ xs) ys = ground (arith, any-append p xs ys)

any-keep {ℓ} :
    {A : Type ℓ} (p q : A → Bool) (xs : List A)
    → ((x : A) → p x ≡ true → q x ≡ true)
    → any p (keep q xs) ≡ any p xs
any-keep p q [] h = refl
any-keep p q (x ∷ xs) h = ground (arith, any-keep p q xs h, h x)

abbrev pub is_member : Text → List Text → Bool
is_member a assets = any (text_eq a) assets

||-true : (a b : Bool) → b ≡ true → (a || b) ≡ true
||-true true b h = refl
||-true false b h = h

member-left : (a : Text) (xs ys : List Text) → is_member a xs ≡ true → is_member a (xs ++ ys) ≡ true
member-left a xs ys h = any-append (text_eq a) xs ys ∙ rw h refl

member-right :
    (a : Text) (xs ys : List Text) → is_member a ys ≡ true → is_member a (xs ++ ys) ≡ true
member-right a xs ys h = any-append (text_eq a) xs ys ∙ ||-true (is_member a xs) _ h

is_empty-append {ℓ} :
    {A : Type ℓ} (xs ys : List A) → is_empty (xs ++ ys) ≡ is_empty xs && is_empty ys
is_empty-append [] ys = refl
is_empty-append (x ∷ xs) ys = refl

-- The maker orders of one trade.
maker_member :
    (f a : Text) (tr : Trade) (orders : List MakerOrder)
    → is_empty (map (maker_fill tr) (keep (is_ours_on f a) orders)) ≡ false
    → is_member a (map (λ mo. or_blank mo.asset_id) (keep (is_ours f) orders)) ≡ true
unfolding is_ours_on
maker_member f a tr [] h = cc
maker_member f a tr (mo ∷ orders) h = elim (Bool-cases (is_ours f mo)) [
  | inl ours ↦ elim (Bool-cases (text_eq (or_blank mo.asset_id) a)) [
    | inl here ↦
        let same : or_blank mo.asset_id ≡ a = text_eq→≡ _ a here in
        rw (ours, same, text_eq_refl a) refl
    | inr there ↦ rw ours (||-true _ _ (maker_member f a tr orders (rw (ours, there) at h)))
  ]
  | inr theirs ↦ rw theirs (maker_member f a tr orders (rw theirs at h))
]

taker_member :
    (f a : Text) (tr : Trade)
    → is_empty (if is_taker_on f a tr then taker_fill tr ∷ [] else []) ≡ false
    → is_member a (
        if not (we_are_maker f tr) && side_is (codes "TAKER") tr.trader_side
        then or_blank tr.asset_id ∷ []
        else [])
      ≡ true
unfolding is_taker_on
taker_member f a tr h = elim (Bool-cases (is_taker_on f a tr)) [
  | inr other ↦ let bad : true ≡ false = rw other at h in cc
  | inl ours ↦
      let (taker, rest) = &&-true (not (we_are_maker f tr)) _ ours in
      let (side, here) = &&-true (side_is (codes "TAKER") tr.trader_side) _ rest in
      let same : or_blank tr.asset_id ≡ a = text_eq→≡ _ a here in
      rw (taker, side, same, text_eq_refl a) refl
]

trade_member :
    (f a : Text) (tr : Trade)
    → is_empty (fills_of_trade f a tr) ≡ false
    → is_member a (assets_of_trade f tr) ≡ true
unfolding fills_of_trade assets_of_trade
trade_member f a tr h =
    let ours = map (maker_fill tr) (keep (is_ours_on f a) tr.maker_orders) in
    let assets = map (λ mo. or_blank mo.asset_id) (keep (is_ours f) tr.maker_orders) in
    elim (Bool-cases (is_empty ours)) [
      | inr some_maker ↦ member-left a assets _ (maker_member f a tr tr.maker_orders some_maker)
      | inl no_maker ↦
          member-right a assets _ (taker_member f a tr (rw (is_empty-append ours _, no_maker) at h))
    ]

collect_member :
    (f a : Text) (trades : List Trade)
    → is_empty (collect_fills f a trades) ≡ false
    → is_member a (collect_assets f trades) ≡ true
unfolding collect_fills collect_assets
collect_member f a [] h = cc
collect_member f a (tr ∷ trades) h = elim (Bool-cases (is_empty (fills_of_trade f a tr))) [
  | inr now ↦ member-left a (assets_of_trade f tr) _ (trade_member f a tr now)
  | inl later ↦
      member-right a (assets_of_trade f tr) _
        (collect_member f a trades (rw (is_empty-append (fills_of_trade f a tr) _, later) at h))
]

-- A token on which one of our fills is found is one of the tokens that the ledger looks at.
pub our_traded_assets_complete :
    (trades : List Trade) (funder : Option Text) (a : Text)
    → is_empty a ≡ false
    → is_empty (extract_fills trades funder a) ≡ false
    → is_member a (our_traded_assets trades funder) ≡ true
unfolding extract_fills our_traded_assets
our_traded_assets_complete trades funder a named h =
    any-keep (text_eq a) (λ x. not (is_empty x)) _ (λ x e. rw (sym (text_eq→≡ a x e), named) refl)
    ∙ collect_member (fold_funder funder) a trades h
