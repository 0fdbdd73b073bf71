-- ===== src/Place/Room.antt =====
-- engine/manager.py: what serving the markets keeps of the limits on orders and on open markets.
use polymarket_rewards.Base.{
  ℕ, ◌+◌, ◌≤◌, ◌<◌, ◌≡◌, refl, sym, ◌∙◌, subst, ◌⊎◌, inl, inr, Bool, true, false, ◌||◌, Option,
  none, some, List, [], ◌∷◌, arith, not-leb→lt, max, if_intro, Bool-cases, length, is_empty,
}
use polymarket_rewards.Base.Text.{Text, text_eq_refl}
use polymarket_rewards.Tiers.{TierConf, tier_for}
use polymarket_rewards.Place.Holdings.{Held, has_text, add_text}
use polymarket_rewards.Place.World.{Candidate, OpenOrder, Exchange, buy, Round, sending}
use polymarket_rewards.Place.Accepted.{Counted, Counted-cancel, Counted-refused, Counted-accepted}
use polymarket_rewards.Place.Market.{MarketSide, sides_of, Budget, budget_of, is_reached, place_all}
use polymarket_rewards.Place.Rounds.{
  resting_on, side_plan, cancel_first, apply_plan, side_step, ladders_or_none, serve_sides,
  second_of, serve_market, is_full, serve_tier, is_barred, first_size, market_step, market_loop,
}

-- At most the limit has been placed, and less where the round goes on. A limit of 0 counts as 1, since
-- it is looked at after an order is placed.
abbrev pub Limited : Option ℕ → (placed : ℕ) → (stopped : Bool) → Type 0
Limited none placed stopped = Unit
Limited (some k) placed stopped = (placed ≤ max 1 k) × (stopped ≡ false → placed < max 1 k)

module _ (x : Exchange) (limit : Option ℕ) (most : ℕ)
    (enough : x.template.max_concurrent_markets ≤ most) where
  -- The market is open already, or there is room for one more.
  abbrev Room : Text → Round → Type 0
  Room mid r =
      (length r.markets_with_open ≤ most)
      × ((has_text mid r.markets_with_open ≡ true)
          ⊎ (length r.markets_with_open < x.template.max_concurrent_markets))

  abbrev Keeps : Text → Round → Type 0
  Keeps mid r = Limited limit r.placed r.stopped × Room mid r × Counted x r

  add_text-Room :
      (mid : Text) (ts : List Text)
      → (length ts ≤ most)
        × ((has_text mid ts ≡ true) ⊎ (length ts < x.template.max_concurrent_markets))
      → (length (add_text mid ts) ≤ most) × (has_text mid (add_text mid ts) ≡ true)
  add_text-Room mid ts (within, room) = elim (Bool-cases (has_text mid ts)) [
    | inl old ↦ rw old (within, old)
    | inr new ↦
        let more : length ts < x.template.max_concurrent_markets = elim room [
          | inl here ↦ absurd (let wrong : true ≡ false = sym here ∙ new in cc)
          | inr less ↦ less
        ] in
        let mine = text_eq_refl mid in rw (new, mine) (omega arith, refl)
  ]

  placed-Limited :
      (limit' : Option ℕ) (placed : ℕ)
      → Limited limit' placed false
      → is_reached limit' (placed + 1) ≡ false
      → Limited limit' (placed + 1) false
  placed-Limited none placed h more = tt
  placed-Limited (some k) placed h more =
      let before = h.1 refl in
      let under = not-leb→lt k (placed + 1) more in (omega arith, λ e. omega arith)

  stopped-Limited :
      (limit' : Option ℕ) (placed : ℕ)
      → Limited limit' placed false
      → Limited limit' (placed + 1) true
  stopped-Limited none placed h = tt
  stopped-Limited (some k) placed h =
      let before = h.1 refl in (omega arith, λ e. absurd (let wrong : true ≡ false = e in cc))

  place_all-Keeps :
      (mid token : Text) (orders : List (ℕ × ℕ)) (r : Round)
      → r.stopped ≡ false
      → Keeps mid r
      → Keeps mid (place_all x limit mid token orders r)
  unfolding place_all
  place_all-Keeps mid token [] r on h = h
  place_all-Keeps mid token (o ∷ orders) r on h =
      let tried = sending (buy mid token o.0 o.1) r in
      let ts = add_text mid r.markets_with_open in
      let (within, here) = add_text-Room mid r.markets_with_open h.1 in
      let counted = Counted-accepted x r h.2 mid token o.0 o.1 in
      let going = subst (Limited limit r.placed) on h.0 in
      elim (Bool-cases (x.place_limit_buy token o.0 o.1)) [
        | inr failed ↦ rw failed (
            place_all-Keeps mid token orders tried on
              (h.0, h.1, Counted-refused x r h.2 mid token o.0 o.1 failed))
        | inl bought ↦ elim (Bool-cases (is_reached limit (r.placed + 1))) [
          | inl last ↦
              rw (bought, last)
                (stopped-Limited limit r.placed going, (within, inl here), counted true bought)
          | inr more ↦
              let next = record tried { placed = r.placed + 1; markets_with_open = ts } in
              rw (bought, more)
                (place_all-Keeps mid token orders next on (
                  subst (Limited limit (r.placed + 1)) (sym on)
                      (placed-Limited limit r.placed going more),
                  (within, inl here),
                  counted r.stopped bought,
                ))
        ]
      ]

  cancel_first-Keeps :
      (mid : Text) (ids : List Text) (r : Round) → Keeps mid r → Keeps mid (cancel_first mid ids r)
  cancel_first-Keeps mid ids r h = elim (Bool-cases (is_empty ids)) [
    | inl nothing ↦ rw nothing h
    | inr some_ids ↦ rw some_ids (h.0, h.1, Counted-cancel x r h.2 mid ids)
  ]

  cancel_first-stopped :
      (mid : Text) (ids : List Text) (r : Round) → (cancel_first mid ids r).stopped ≡ r.stopped
  cancel_first-stopped mid ids r = elim (Bool-cases (is_empty ids)) [
    | inl nothing ↦ rw nothing refl
    | inr some_ids ↦ rw some_ids refl
  ]

  apply_plan-Keeps :
      (mid token : Text) (plan : Option (List Text × List (ℕ × ℕ))) (r : Round)
      → r.stopped ≡ false
      → Keeps mid r
      → Keeps mid (apply_plan x limit mid token plan r)
  unfolding apply_plan
  apply_plan-Keeps mid token none r on h = h
  apply_plan-Keeps mid token (some (ids, to_place)) r on h =
      place_all-Keeps mid token to_place (cancel_first mid ids r)
        (cancel_first-stopped mid ids r ∙ on) (cancel_first-Keeps mid ids r h)

  side_step-Keeps :
      (mid : Text) (held : List Text) (buys : List OpenOrder) (b : Budget) (s : Option MarketSide)
      (ladder : List (ℕ × ℕ)) (r : Round)
      → Keeps mid r
      → Keeps mid (side_step x limit mid held buys b s ladder r)
  unfolding side_step
  side_step-Keeps mid held buys b none ladder r h = h
  side_step-Keeps mid held buys b (some s) ladder r h =
      let plan = side_plan x.template held b s.token_id ladder (resting_on s.token_id buys) in
      if_intro (Keeps mid) r.stopped r (apply_plan x limit mid s.token_id plan r) (λ off. h)
        (λ on. apply_plan-Keeps mid s.token_id plan r on h)

  serve_market-Keeps :
      (mid : Text) (tier : TierConf) (held : Held) (buys : List OpenOrder) (sides : List MarketSide)
      (balance : Option ℕ) (r : Round)
      → Keeps mid r
      → Keeps mid (serve_market x limit mid tier held buys sides balance r)
  unfolding serve_market serve_sides
  serve_market-Keeps mid tier held buys [] balance r h = h
  serve_market-Keeps mid tier held buys (sa ∷ sides) none r h = h
  serve_market-Keeps mid tier held buys (sa ∷ sides) (some balance) r h =
      let b = budget_of x.template held mid balance in
      let ladders = ladders_or_none x.template tier balance b held.assets sa (second_of sides) in
      side_step-Keeps mid held.assets buys b (second_of sides) ladders.1 _
        (side_step-Keeps mid held.assets buys b (some sa) ladders.0 r h)

  -- What holds between two markets.
  abbrev pub Between : Round → Type 0
  Between r = Limited limit r.placed r.stopped × (length r.markets_with_open ≤ most) × Counted x r

  room_of :
      (mid : Text) (r : Round)
      → is_full x mid r ≡ false
      → (has_text mid r.markets_with_open ≡ true)
        ⊎ (length r.markets_with_open < x.template.max_concurrent_markets)
  room_of mid r free = elim (Bool-cases (has_text mid r.markets_with_open)) [
    | inl old ↦ inl old
    | inr new ↦ inr (not-leb→lt _ _ (rw new at free))
  ]

  serve_tier-Between :
      (mid : Text) (entries : List Candidate) (held : Held) (buys : List OpenOrder)
      (tier : Option TierConf) (r : Round)
      → Between r
      → Between (serve_tier x limit mid entries held buys tier r)
  unfolding serve_tier
  serve_tier-Between mid entries held buys none r h = h
  serve_tier-Between mid entries held buys (some tier) r h = elim (Bool-cases (is_full x mid r)) [
    | inl full ↦ rw full h
    | inr free ↦
        let done =
          serve_market-Keeps mid tier held buys (sides_of x entries) (x.get_balance mid) r
            (h.0, (h.1, room_of mid r free), h.2) in
        rw free (done.0, done.1.0, done.2)
  ]

  market_step-Between :
      (held : Held) (buys : List OpenOrder) (mid : Text) (entries : List Candidate) (r : Round)
      → Between r
      → Between (market_step x limit held buys mid entries r)
  unfolding market_step
  market_step-Between held buys mid entries r h =
      let tier = tier_for x.template.size_tiers (first_size entries) in
      if_intro Between (r.stopped || is_barred x mid) r
        (serve_tier x limit mid entries held buys tier r) (λ off. h)
        (λ on. serve_tier-Between mid entries held buys tier r h)

  pub market_loop-Between :
      (held : Held) (buys : List OpenOrder) (groups : List (Text × List Candidate)) (r : Round)
      → Between r
      → Between (market_loop x limit held buys groups r)
  unfolding market_loop
  market_loop-Between held buys [] r h = h
  market_loop-Between held buys (g ∷ groups) r h =
      market_loop-Between held buys groups (market_step x limit held buys g.0 g.1 r)
        (market_step-Between held buys g.0 g.1 r h)
