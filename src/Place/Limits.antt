-- ===== src/Place/Limits.antt =====
-- engine/manager.py: a round keeps to the number of orders and to the number of markets.
use polymarket_rewards.Base.{
  ℕ, ◌≤◌, ◌≡◌, refl, subst, inl, inr, Bool, false, not, Option, none, some, List, [], ◌∷◌, arith,
  max, if◌then◌else◌, Bool-cases, length, keep, is_empty, map,
}
use polymarket_rewards.Base.Text.{Text}
use polymarket_rewards.Place.Holdings.{Held, has_text}
use polymarket_rewards.Place.World.{Candidate, OpenOrder, Exchange, Round}
use polymarket_rewards.Place.Rounds.{
  group_from, open_markets, is_dropped, ids_of, drop_markets, begin, market_loop, place_round,
}
use polymarket_rewards.Place.Accepted.{accepted, AllOpen, Counted}
use polymarket_rewards.Place.Room.{Limited, Between, market_loop-Between}

length-keep {ℓ} : {A : Type ℓ} (p : A → Bool) (xs : List A) → length (keep p xs) ≤ length xs
length-keep p [] = omega arith
length-keep p (a ∷ xs) = elim (Bool-cases (p a)) [
  | inl kept ↦ rw kept (omega (arith, length-keep p xs))
  | inr gone ↦ rw gone (omega (arith, length-keep p xs))
]

drop_markets-open :
    (x : Exchange) (eligible : List Text) (buys : List OpenOrder) (r : Round)
    → let after = drop_markets x eligible buys r in
      (after.placed ≡ r.placed)
      × (length after.markets_with_open ≤ length r.markets_with_open)
      × (r.sent ≡ [] → accepted x after.sent ≡ [])
unfolding drop_markets
drop_markets-open x eligible buys r =
    let dropped = keep (is_dropped x eligible) buys in
    let ids = ids_of dropped in
    let gone = map (λ o. o.market) dropped in
    elim (Bool-cases (is_empty ids)) [
      | inl nothing ↦ rw nothing (refl, omega arith, λ e. rw e refl)
      | inr some_ids ↦ elim (Bool-cases (x.cancel_orders ids)) [
        | inl sent ↦
            rw (some_ids, sent)
              (refl, length-keep (λ m. not (has_text m gone)) r.markets_with_open, λ e. rw e refl)
        | inr failed ↦ rw (some_ids, failed) (refl, omega arith, λ e. rw e refl)
      ]
    ]

start_limit : (limit : Option ℕ) (placed : ℕ) → placed ≡ 0 → (off : Bool) → Limited limit placed off
start_limit none placed h off = tt
start_limit (some k) placed h off = (omega arith, λ e. omega arith)

limit_of :
    (limit : Option ℕ) (k : ℕ) (placed : ℕ) (off : Bool)
    → limit ≡ some k
    → Limited limit placed off
    → placed ≤ max 1 k
limit_of none k placed off e h = absurd (cc)
limit_of (some n) k placed off e h = subst (λ (m : ℕ). placed ≤ max 1 m) (cc) h.0

nothing-Counted : (x : Exchange) (r : Round) → r.placed ≡ 0 → accepted x r.sent ≡ [] → Counted x r
nothing-Counted x r zero_placed none_taken = rw (zero_placed, none_taken) (refl, tt)

counted_limit :
    (ms : List Text) (placed k : ℕ) → length ms ≡ placed → placed ≤ max 1 k → length ms ≤ max 1 k
counted_limit ms placed k same h = omega arith

-- In a round with a limit the exchange accepts at most that many purchases, or one for a limit of 0.
-- Each accepted purchase is on a market that counts as having an open buy order, and those are at most
-- as many as at the start, or as the template allows.
pub place_round_limits :
    (x : Exchange) (eligible : List Candidate) (limit : Option ℕ) (cancel_dropouts : Bool)
    (buys : List OpenOrder) (held : Held)
    → let after = place_round x eligible limit cancel_dropouts buys held in
      ((k : ℕ) → limit ≡ some k → length (accepted x after.sent) ≤ max 1 k)
      × AllOpen after.markets_with_open (accepted x after.sent)
      × (length after.markets_with_open
          ≤ max (length (open_markets buys [])) x.template.max_concurrent_markets)
unfolding place_round
place_round_limits x eligible limit cancel_dropouts buys held =
    let groups = group_from [] eligible in
    let most = max (length (open_markets buys [])) x.template.max_concurrent_markets in
    let dropped = drop_markets x (map (λ g. g.0) groups) buys (begin buys) in
    let start = if cancel_dropouts then dropped else begin buys in
    let opened : Between x limit most (omega arith) start = elim (Bool-cases cancel_dropouts) [
      | inl yes_drop ↦
          let (count, fewer, quiet) =
            drop_markets-open x (map (λ g. g.0) groups) buys (begin buys) in
          rw yes_drop (
            start_limit limit dropped.placed count dropped.stopped,
            omega arith,
            nothing-Counted x dropped count (quiet refl),
          )
      | inr stay ↦ rw stay (start_limit limit 0 refl false, omega arith, (refl, tt))
    ] in
    let after = market_loop x limit held buys groups start in
    let (limited, few, counted) =
      market_loop-Between x limit most (omega arith) held buys groups start opened in
    (
      λ k e.
          counted_limit (accepted x after.sent) after.placed k counted.0
            (limit_of limit k after.placed after.stopped e limited),
      counted.1,
      few,
    )
