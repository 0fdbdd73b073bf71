-- ===== src/Place/Sends.antt =====
-- engine/manager.py: what a side sends: for which token, and for how much.
use polymarket_rewards.Base.{
  ℕ, ◌+◌, ◌*◌, ◌≤◌, ◌≡◌, refl, ap, ◌∙◌, inl, inr, Bool, true, false, not, Option, none, some, List,
  [], ◌∷◌, ◌++◌, arith, if_intro, Bool-cases, All, All-append, All-keep, sum_of, sum_of-append,
  keep, is_empty,
}
use polymarket_rewards.Base.Text.{Text}
use polymarket_rewards.Gap.Budget.{cost_of, shares_in}
use polymarket_rewards.Reconcile.{RestingBuy, round4, is_in, reconcile_loop, reconcile_buy_orders}
use polymarket_rewards.Place.Holdings.{has_text, add_text}
use polymarket_rewards.Place.World.{OpenOrder, Exchange, Sent, cancel, buy, Round, sending}
use polymarket_rewards.Place.Market.{MarketSide, Budget, is_reached, place_all, tolerance}
use polymarket_rewards.Place.Rounds.{resting_on, side_plan, cancel_first, apply_plan, side_step}
use mathlib.Core.List.{append-nil, append_assoc}

abbrev pub buy_cost : Sent → ℕ
buy_cost (cancel m ids) = 0
buy_cost (buy m token price shares) = price * shares

abbrev pub buy_shares : Sent → ℕ
buy_shares (cancel m ids) = 0
buy_shares (buy m token price shares) = shares

-- A cancellation, or a purchase on the market of a token that is not held, where what is bought of the
-- token is among the orders that are planned for it.
abbrev pub IsProper : List Text → Text → (Text → ℕ × ℕ → Type 0) → Sent → Type 0
IsProper held mid planned (cancel m ids) = m ≡ mid
IsProper held mid planned (buy m token price shares) =
    (m ≡ mid) × (has_text token held ≡ false) × planned token (price, shares)

-- What has been sent since, and that it costs and buys at most so much.
abbrev pub Sends : List Text → Text → (Text → ℕ × ℕ → Type 0) → ℕ → ℕ → Round → Round → Type 0
Sends held mid planned usd shares r after =
    (new : List Sent) × (after.sent ≡ r.sent ++ new)
    × All (IsProper held mid planned) new
    × (sum_of buy_cost new ≤ usd)
    × (sum_of buy_shares new ≤ shares)

module _ (held : List Text) (mid : Text) (planned : Text → ℕ × ℕ → Type 0) where
  pub Sends-none :
      (usd shares : ℕ) (r after : Round)
      → after.sent ≡ r.sent
      → Sends held mid planned usd shares r after
  Sends-none usd shares r after same = ([], rw append-nil same, tt, omega arith, omega arith)

  pub Sends-then :
      (usd shares usd' shares' : ℕ) (r s t : Round)
      → Sends held mid planned usd shares r s
      → Sends held mid planned usd' shares' s t
      → Sends held mid planned (usd + usd') (shares + shares') r t
  Sends-then usd shares usd' shares' r s t (xs, ex, px, cx, nx) (ys, ey, py, cy, ny) =
      let costs = sum_of-append buy_cost xs ys in
      let amounts = sum_of-append buy_shares xs ys in
      (
        xs ++ ys,
        ey ∙ ap (λ l. l ++ ys) ex ∙ append_assoc r.sent xs ys,
        All-append (IsProper held mid planned) xs ys px py,
        omega arith,
        omega arith,
      )

  Sends-within :
      (usd shares usd' shares' : ℕ) (r after : Round)
      → usd ≤ usd'
      → shares ≤ shares'
      → Sends held mid planned usd shares r after
      → Sends held mid planned usd' shares' r after
  Sends-within usd shares usd' shares' r after hu hs (xs, ex, px, cx, nx) =
      (xs, ex, px, omega arith, omega arith)

  place_all-Sends :
      (x : Exchange) (limit : Option ℕ) (token : Text) (orders : List (ℕ × ℕ)) (r : Round)
      → has_text token held ≡ false
      → All (λ (o : ℕ × ℕ). planned token o) orders
      → Sends held mid planned
          (cost_of orders)
          (shares_in orders)
          r
          (place_all x limit mid token orders r)
  unfolding place_all
  place_all-Sends x limit token [] r free p = Sends-none 0 0 r r refl
  place_all-Sends x limit token (o ∷ orders) r free p =
      let call = buy mid token o.0 o.1 in
      let tried = sending call r in
      let bought = record tried {
        placed = r.placed + 1;
        markets_with_open = add_text mid r.markets_with_open;
      } in
      let one : Sends held mid planned (o.0 * o.1) o.1 r tried =
        (call ∷ [], refl, ((refl, free, p.0), tt), omega arith, omega arith) in
      let again : (next : Round)
          → next.sent ≡ tried.sent
          → Sends held mid planned (o.0 * o.1 + cost_of orders) (o.1 + shares_in orders) r
              (place_all x limit mid token orders next) =
        λ next same.
          Sends-then (o.0 * o.1) o.1 (cost_of orders) (shares_in orders) r next
            (place_all x limit mid token orders next)
            (call ∷ [], same, ((refl, free, p.0), tt), omega arith, omega arith)
            (place_all-Sends x limit token orders next free p.1) in
      elim (Bool-cases (x.place_limit_buy token o.0 o.1)) [
        | inr failed ↦ rw failed (again tried refl)
        | inl done ↦ elim (Bool-cases (is_reached limit (r.placed + 1))) [
          | inr more ↦ rw (done, more) (again bought refl)
          | inl last ↦
              rw (done, last)
                (Sends-within (o.0 * o.1) o.1 _ _ r (record bought { stopped = true }) (omega arith)
                  (omega arith) one)
        ]
      ]

  cancel_first-Sends :
      (ids : List Text) (r : Round) → Sends held mid planned 0 0 r (cancel_first mid ids r)
  cancel_first-Sends ids r = elim (Bool-cases (is_empty ids)) [
    | inl nothing ↦ rw nothing (Sends-none 0 0 r r refl)
    | inr some_ids ↦ rw some_ids (cancel mid ids ∷ [], refl, (refl, tt), omega arith, omega arith)
  ]

  apply_plan-Sends :
      (x : Exchange) (limit : Option ℕ) (token : Text) (ids : List Text) (orders : List (ℕ × ℕ))
      (r : Round)
      → has_text token held ≡ false
      → All (λ (o : ℕ × ℕ). planned token o) orders
      → Sends held mid planned
          (cost_of orders)
          (shares_in orders)
          r
          (apply_plan x limit mid token (some (ids, orders)) r)
  unfolding apply_plan
  apply_plan-Sends x limit token ids orders r free p =
      let first = cancel_first mid ids r in
      let after = place_all x limit mid token orders first in
      Sends-within (0 + cost_of orders) (0 + shares_in orders) (cost_of orders) (shares_in orders) r
        after (omega arith) (omega arith)
        (Sends-then 0 0 (cost_of orders) (shares_in orders) r first after (cancel_first-Sends ids r)
          (place_all-Sends x limit token orders first free p))

  -- No more is placed than was planned.
  sum-keep :
      (f : ℕ × ℕ → ℕ) (p : ℕ × ℕ → Bool) (orders : List (ℕ × ℕ))
      → sum_of f (keep p orders) ≤ sum_of f orders
  sum-keep f p [] = omega arith
  sum-keep f p (o ∷ orders) = elim (Bool-cases (p o)) [
    | inl kept ↦ rw kept (omega (arith, sum-keep f p orders))
    | inr gone ↦ rw gone (omega (arith, sum-keep f p orders))
  ]

  planned-Sends :
      (x : Exchange) (limit : Option ℕ) (b : Budget) (token : Text) (ladder : List (ℕ × ℕ))
      (resting : List RestingBuy) (r : Round)
      → All (λ (o : ℕ × ℕ). planned token o) ladder
      → Sends held mid planned
          (cost_of ladder)
          (shares_in ladder)
          r
          (apply_plan x limit mid token (side_plan x.template held b token ladder resting) r)
  unfolding side_plan reconcile_buy_orders apply_plan place_all
  planned-Sends x limit b token ladder resting r p = elim (Bool-cases (has_text token held)) [
    | inl paused ↦
        let ids = (reconcile_loop [] 10_000 [] resting).0 in
        rw paused (
          Sends-within 0 0 (cost_of ladder) (shares_in ladder) r (cancel_first mid ids r)
            (omega arith) (omega arith) (cancel_first-Sends ids r))
    | inr free ↦ elim (Bool-cases b.is_ok) [
      | inr spent ↦ rw (free, spent) (Sends-none (cost_of ladder) (shares_in ladder) r r refl)
      | inl able ↦
          let loop = reconcile_loop ladder (tolerance x.template) [] resting in
          let rest : ℕ × ℕ → Bool = λ o. not (is_in (round4 o.0) loop.1) in
          rw (free, able)
            (Sends-within (cost_of (keep rest ladder)) (shares_in (keep rest ladder))
              (cost_of ladder) (shares_in ladder) r
              (apply_plan x limit mid token (some (loop.0, keep rest ladder)) r)
              (sum-keep (λ o. o.0 * o.1) rest ladder) (sum-keep (λ o. o.1) rest ladder)
              (apply_plan-Sends x limit token loop.0 (keep rest ladder) r free
                (All-keep (λ (o : ℕ × ℕ). planned token o) rest ladder p)))
    ]
  ]

  pub side_step-Sends :
      (x : Exchange) (limit : Option ℕ) (buys : List OpenOrder) (b : Budget) (s : Option MarketSide)
      (ladder : List (ℕ × ℕ)) (r : Round)
      → ((t : MarketSide) → s ≡ some t → All (λ (o : ℕ × ℕ). planned t.token_id o) ladder)
      → Sends held mid planned
          (cost_of ladder)
          (shares_in ladder)
          r
          (side_step x limit mid held buys b s ladder r)
  unfolding side_step
  side_step-Sends x limit buys b none ladder r p = Sends-none _ _ r r refl
  side_step-Sends x limit buys b (some s) ladder r p =
      let resting = resting_on s.token_id buys in
      let plan = side_plan x.template held b s.token_id ladder resting in
      if_intro (Sends held mid planned (cost_of ladder) (shares_in ladder) r) r.stopped r
        (apply_plan x limit mid s.token_id plan r) (λ off. Sends-none _ _ r r refl)
        (λ on. planned-Sends x limit b s.token_id ladder resting r (p s refl))
