-- ===== src/Fills/Sides.antt =====
-- engine/fills.py: a trade counts for us as maker or as taker, never as both.
use polymarket_rewards.Base.{
  ◌≡◌, refl, ◌⊎◌, inl, inr, true, false, some, List, [], ◌∷◌, map, arith, any, keep, Bool-cases,
}
use mathlib.Core.List.{append-nil}
use polymarket_rewards.Base.Text.{Text, lower, lower_twice}
use polymarket_rewards.Fills.Defs.{
  MakerOrder, Trade, maker_fill, taker_fill, is_ours, is_ours_on, we_are_maker, is_taker_on,
  fills_of_trade, extract_fills, select_new_buy_fills, Key,
}

keep-none_ours :
    (f a : Text) (mos : List MakerOrder)
    → any (is_ours f) mos ≡ false
    → keep (is_ours_on f a) mos ≡ []
unfolding is_ours_on
keep-none_ours f a [] h = refl
keep-none_ours f a (mo ∷ mos) h = ground (arith, keep-none_ours f a mos)

no_maker : (f a : Text) (tr : Trade) → is_taker_on f a tr ≡ true → we_are_maker f tr ≡ false
unfolding is_taker_on
no_maker f a tr h = ground arith

-- One trade gives our maker fills on the token, and then one of the orders was ours or there is no
-- fill; or it gives the taker fill alone, and then none of its maker orders was ours.
pub trade_one_role :
    (f a : Text) (tr : Trade)
    → (fills_of_trade f a tr ≡ map (maker_fill tr) (keep (is_ours_on f a) tr.maker_orders))
      ⊎ ((fills_of_trade f a tr ≡ taker_fill tr ∷ []) × (we_are_maker f tr ≡ false))
unfolding fills_of_trade
trade_one_role f a tr = elim (Bool-cases (is_taker_on f a tr)) [
  | inl taker ↦ inr (
    rw (keep-none_ours f a tr.maker_orders (no_maker f a tr taker), taker),
    no_maker f a tr taker,
  )
  | inr other ↦ inl (rw other (append-nil _))
]

-- The letter case of our own address does not matter, in either extraction.
pub funder_case :
    (trades : List Trade) (funder asset_id : Text) (seen : List Key)
    → (extract_fills trades (some (lower funder)) asset_id
        ≡ extract_fills trades (some funder) asset_id)
      × (select_new_buy_fills trades (some (lower funder)) seen
          ≡ select_new_buy_fills trades (some funder) seen)
unfolding extract_fills select_new_buy_fills
funder_case trades funder asset_id seen = rw (lower_twice funder) (refl, refl)
