-- ===== src/Sales/Dumped.antt =====
-- engine/monitor.py: what `_market_dump` sends, and when it counts as a sale.
use polymarket_rewards.Base.{
  ℕ, ◌≡◌, refl, ◌∙◌, ◌⊎◌, inl, inr, false, Option, none, some, List, [], ◌∷◌, ◌++◌, ◌==◌,
  Bool-cases, if_intro, is_empty,
}
use polymarket_rewards.Base.Frac.{Frac}
use polymarket_rewards.Base.Text.{Text}
use polymarket_rewards.TakeProfit.{Receipt, whole, market_fill_price}
use polymarket_rewards.Place.{Position}
use polymarket_rewards.Sales.{
  ListedOrder, Desk, SaleCall, cancel_sells, market_sell, Sales, call, own_sells, sell_ids_of,
  clear_sells, stop_trade, record_dump, after_dump, market_dump,
}
use polymarket_rewards.Sales.Sends.{after_cancel}
use mathlib.Core.List.{append_assoc}

-- The sale has raised, or the record of its trade has.
abbrev pub Refused : Desk → Position → ℕ → Frac → Type 0
Refused d pos bid cost =
    (d.place_market_sell pos.asset pos.size ≡ none)
    ⊎ ((resp : Option Receipt) × (d.place_market_sell pos.asset pos.size ≡ some resp)
        × (d.record_trade
              (stop_trade pos (market_fill_price resp (some bid) (whole pos.cur_price)) cost)
            ≡ false))

-- The sale was answered.
abbrev pub Answered : Desk → Position → Type 0
Answered d pos = (resp : Option Receipt) × (d.place_market_sell pos.asset pos.size ≡ some resp)

module _ (d : Desk) (orders : List ListedOrder) (pos : Position) (s : Sales) where
  abbrev ids : List (Option Text)
  ids = sell_ids_of (own_sells pos.asset orders s)

  -- The calls and the router's state.
  abbrev Adds : List SaleCall → Sales → Sales → Type 0
  Adds calls r after = (after.sent ≡ r.sent ++ calls) × (after.router ≡ r.router)

  pub clear_sells-Adds : (c : SaleCall) → Adds (after_cancel ids c) s (call c (clear_sells d ids s))
  unfolding clear_sells
  clear_sells-Adds c = elim (Bool-cases (is_empty ids)) [
    | inl none_left ↦ rw none_left (refl, refl)
    | inr some_left ↦ elim (Bool-cases (d.cancel_orders ids)) [
      | inl went ↦ rw (some_left, went) (append_assoc s.sent (cancel_sells ids ∷ []) (c ∷ []), refl)
      | inr failed ↦
          rw (some_left, failed) (append_assoc s.sent (cancel_sells ids ∷ []) (c ∷ []), refl)
    ]
  ]

  abbrev Same : Sales → Option Frac × Sales → Type 0
  Same r answer = (answer.1.sent ≡ r.sent) × (answer.1.router ≡ r.router)

  record_dump-Same :
      (fill : Frac) (cost : Option Frac) (r : Sales) → Same r (record_dump d pos fill cost r)
  record_dump-Same fill none r = (refl, refl)
  record_dump-Same fill (some c) r =
      if_intro (Same r) (c.num == 0) _ _ (λ e. (refl, refl))
        (λ e.
          if_intro (Same r) (d.record_trade (stop_trade pos fill c)) _ _ (λ f. (refl, refl))
            (λ f. (refl, refl)))

  after_dump-Same :
      (bid : ℕ) (cost : Option Frac) (answer : Option (Option Receipt)) (r : Sales)
      → Same r (after_dump d pos bid cost answer r)
  after_dump-Same bid cost none r = (refl, refl)
  after_dump-Same bid cost (some resp) r =
      record_dump-Same (market_fill_price resp (some bid) (whole pos.cur_price)) cost r

  -- The resting sells are cancelled, where there are any, and then the whole position is sold.
  pub market_dump-Adds :
      (bid : ℕ) (cost : Option Frac)
      → Adds
          (after_cancel ids (market_sell pos.asset pos.size))
          s
          (market_dump d orders pos bid cost s).1
  unfolding market_dump
  market_dump-Adds bid cost =
      let sale = market_sell pos.asset pos.size in
      let asked = call sale (clear_sells d ids s) in
      let (sent, router) =
        after_dump-Same bid cost (d.place_market_sell pos.asset pos.size) asked in
      let (first, kept) = clear_sells-Adds sale in (sent ∙ first, router ∙ kept)

  abbrev Counts : ℕ → Frac → Option Frac × Sales → Type 0
  Counts bid cost answer =
      ((answer.0 ≡ none) × Refused d pos bid cost)
      ⊎ ((fill : Frac) × (answer.0 ≡ some fill) × Answered d pos)

  after_dump-Counts :
      (bid : ℕ) (cost : Frac) (answer : Option (Option Receipt)) (r : Sales)
      → d.place_market_sell pos.asset pos.size ≡ answer
      → Counts bid cost (after_dump d pos bid (some cost) answer r)
  after_dump-Counts bid cost none r e = inl (refl, inl e)
  after_dump-Counts bid cost (some resp) r e =
      let fill = market_fill_price resp (some bid) (whole pos.cur_price) in
      let trade = stop_trade pos fill cost in
      if_intro (Counts bid cost) (cost.num == 0) _ _ (λ f. inr (fill, refl, (resp, e)))
        (λ f.
          if_intro (Counts bid cost) (d.record_trade trade) _ _ (λ g. inr (fill, refl, (resp, e)))
            (λ g. inl (refl, inr (resp, e, g))))

  -- It counts as a sale unless the sale or its record has raised.
  pub market_dump-Counts :
      (bid : ℕ) (cost : Frac) → Counts bid cost (market_dump d orders pos bid (some cost) s)
  unfolding market_dump
  market_dump-Counts bid cost =
      after_dump-Counts bid cost (d.place_market_sell pos.asset pos.size)
        (call (market_sell pos.asset pos.size) (clear_sells d ids s)) refl
