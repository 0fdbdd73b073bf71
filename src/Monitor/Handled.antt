-- ===== src/Monitor/Handled.antt =====
-- engine/monitor.py: what `check_buy_orders` does for the fills of a tick.
use polymarket_rewards.Base.{
  ℕ, ◌≤◌, ◌≡◌, refl, sym, ap, ◌∙◌, inl, inr, Bool, true, false, not, Option, none, some, List, [],
  ◌∷◌, ◌++◌, arith, max, ◌==◌, Bool-cases, if◌then◌else◌, if_intro, is_empty, map, keep, All,
  All-append, &&-true,
}
use polymarket_rewards.Base.Text.{Text}
use polymarket_rewards.Fills.{Trade, BuyEvent, select_new_buy_fills}
use polymarket_rewards.Fills.Once.{key_of}
use polymarket_rewards.Monitor.{
  FillSources, FillState, remember_fill, has_order, is_rest_open, cancel_rest, handle_fill,
  handle_all, ids_or_none, handle_trades,
}
use mathlib.Core.List.{append-nil, append_assoc}

abbrev pub market_of : BuyEvent → Text
market_of ev = ev.market

abbrev pub has_size : BuyEvent → Bool
has_size ev = not (ev.size == 0)

-- The order has an id, which is among those of the open orders.
abbrev pub IsOpen : List (Option Text) → Text → Type 0
IsOpen open_ids id = (is_empty id ≡ false) × (has_order (some id) open_ids ≡ true)

-- The fills are remembered, the markets of those with a size cool down, only open orders are cancelled,
-- and the watermark does not go back.
abbrev pub Handles : List (Option Text) → List BuyEvent → FillState → FillState → Type 0
Handles open_ids fills s after =
    (after.seen_keys ≡ s.seen_keys ++ map key_of fills)
    × (after.cooldowns ≡ s.cooldowns ++ map market_of (keep has_size fills))
    × ((new : List Text) × (after.cancels ≡ s.cancels ++ new) × All (IsOpen open_ids) new)
    × (s.after_ts ≤ after.after_ts)

not-true : (b : Bool) → not b ≡ true → b ≡ false
not-true true e = cc
not-true false e = refl

rest-IsOpen :
    (id : Text) (open_ids cancelled : List (Option Text))
    → is_rest_open (some id) open_ids cancelled ≡ true
    → IsOpen open_ids id
rest-IsOpen id open_ids cancelled e =
    let (named, others) = &&-true (not (is_empty id)) _ e in
    let (here, fresh) = &&-true (has_order (some id) open_ids) _ others in
    (not-true (is_empty id) named, here)

max_left : (a b : ℕ) → a ≤ max a b
max_left a b = ground arith

sized_first :
    (ev : BuyEvent) (fills : List BuyEvent)
    → map market_of (keep has_size (ev ∷ [])) ++ map market_of (keep has_size fills)
      ≡ map market_of (keep has_size (ev ∷ fills))
sized_first ev fills = elim (Bool-cases (ev.size == 0)) [
  | inl empty ↦ rw empty refl
  | inr sized ↦ rw sized refl
]

module _ (x : FillSources) (open_ids : List (Option Text)) where
  -- What the handling of one fill leaves.
  abbrev Handled : BuyEvent → FillState → FillState → Type 0
  Handled ev s after =
      (after.seen_keys ≡ s.seen_keys)
      × (after.cooldowns ≡ s.cooldowns ++ map market_of (keep has_size (ev ∷ [])))
      × ((new : List Text) × (after.cancels ≡ s.cancels ++ new) × All (IsOpen open_ids) new)
      × (after.after_ts ≡ s.after_ts)

  cancel_rest-Handled :
      (ev : BuyEvent) (id : Option Text) (cancelled : List (Option Text)) (s cooled : FillState)
      → cooled.seen_keys ≡ s.seen_keys
      → cooled.cooldowns ≡ s.cooldowns ++ map market_of (keep has_size (ev ∷ []))
      → cooled.cancels ≡ s.cancels
      → cooled.after_ts ≡ s.after_ts
      → is_rest_open id open_ids cancelled ≡ true
      → Handled ev s (cancel_rest x id cancelled cooled).1
  cancel_rest-Handled ev none cancelled s cooled keys cool same ts e = absurd (cc)
  cancel_rest-Handled ev (some id) cancelled s cooled keys cool same ts e = (
    keys,
    cool,
    (id ∷ [], ap (λ l. l ++ id ∷ []) same, (rest-IsOpen id open_ids cancelled e, tt)),
    ts,
  )

  handle_fill-Handled :
      (ev : BuyEvent) (cancelled : List (Option Text)) (s : FillState)
      → Handled ev s (handle_fill x ev cancelled open_ids s).1
  unfolding handle_fill
  handle_fill-Handled ev cancelled s =
      let cooled : FillState = record s { cooldowns = s.cooldowns ++ ev.market ∷ [] } in
      let rested = cancel_rest x ev.order_id cancelled cooled in
      let Fine : List (Option Text) × FillState → Type 0 = λ q. Handled ev s q.1 in
      if_intro Fine (ev.size == 0) (cancelled, s)
        (if is_rest_open ev.order_id open_ids cancelled then rested else (cancelled, cooled))
        (λ empty. (
          refl,
          rw empty (sym (append-nil s.cooldowns)),
          ([], sym (append-nil s.cancels), tt),
          refl,
        ))
        (λ sized.
          if_intro Fine (is_rest_open ev.order_id open_ids cancelled) rested (cancelled, cooled)
            (λ rests.
              cancel_rest-Handled ev ev.order_id cancelled s cooled refl (rw sized refl) refl refl
                rests)
            (λ gone. (refl, rw sized refl, ([], sym (append-nil s.cancels), tt), refl)))

  Handled-then :
      (ev : BuyEvent) (fills : List BuyEvent) (s next last : FillState)
      → Handled ev s next
      → Handles open_ids fills (remember_fill ev next) last
      → Handles open_ids (ev ∷ fills) s last
  Handled-then ev fills s next last (keys, cool, (new, same, fine), ts)
        (keys', cool', (new', same', fine'), ts') =
      (
        keys'
            ∙ ap (λ l. (l ++ key_of ev ∷ []) ++ map key_of fills) keys
            ∙ append_assoc s.seen_keys (key_of ev ∷ []) (map key_of fills),
        cool'
            ∙ ap (λ l. l ++ map market_of (keep has_size fills)) cool
            ∙ append_assoc s.cooldowns (map market_of (keep has_size (ev ∷ [])))
                (map market_of (keep has_size fills))
            ∙ ap (λ l. s.cooldowns ++ l) (sized_first ev fills),
        (
          new ++ new',
          same' ∙ ap (λ l. l ++ new') same ∙ append_assoc s.cancels new new',
          All-append (IsOpen open_ids) new new' fine fine',
        ),
        omega (arith, ts, ts', max_left next.after_ts ev.ts),
      )

  handle_all-Handles :
      (fills : List BuyEvent) (cancelled : List (Option Text)) (s : FillState)
      → Handles open_ids fills s (handle_all x open_ids fills cancelled s)
  unfolding handle_all
  handle_all-Handles [] cancelled s = (
    sym (append-nil s.seen_keys),
    sym (append-nil s.cooldowns),
    ([], sym (append-nil s.cancels), tt),
    omega arith,
  )
  handle_all-Handles (ev ∷ fills) cancelled s =
      let handled = handle_fill x ev cancelled open_ids s in
      Handled-then ev fills s handled.1
        (handle_all x open_ids fills handled.0 (remember_fill ev handled.1))
        (handle_fill-Handled ev cancelled s)
        (handle_all-Handles fills handled.0 (remember_fill ev handled.1))

-- For the trades that a tick has read, the new fills are all remembered, the markets of those with a
-- size are put to cool down, in their order, the watermark does not go back, and a cancellation is
-- sent only for an order that is among the open ones, and for none where these could not be read.
pub handle_trades-Handles :
    (x : FillSources) (funder : Option Text) (trades : List Trade) (s : FillState)
    → Handles
        (ids_or_none x.open_ids)
        (select_new_buy_fills trades funder s.seen_keys)
        s
        (handle_trades x funder (some trades) s)
handle_trades-Handles x funder trades s =
    handle_all-Handles x (ids_or_none x.open_ids) (select_new_buy_fills trades funder s.seen_keys)
      [] s
