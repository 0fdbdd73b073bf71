-- ===== src/Exit/Allowed.antt =====
-- engine/exit_router.py: what may be sent for a position, before its wait is over and after, and that
-- a sale at once and the purchase of the other half keep to it.
use polymarket_rewards.Base.{
  ltb, ℕ, ◌+◌, ◌*◌, ◌≤◌, ◌<◌, ◌≡◌, refl, subst, inl, inr, Bool, true, false, ◌&&◌, ◌||◌, not,
  Option, none, some, List, arith, min, ◌==◌, Bool-cases, is_empty, or_zero,
}
use polymarket_rewards.Base.Frac.{Frac}
use polymarket_rewards.Base.Sort.{sort_by}
use polymarket_rewards.Base.Text.{Text}
use polymarket_rewards.Cost.{Lot}
use polymarket_rewards.Gap.{Bid}
use polymarket_rewards.Quote.{FakPlan, MergeQuote, merge_quote_of, quote_merge_route}
use polymarket_rewards.Quote.Merge.{quote_merge_route-Pays}
use polymarket_rewards.Merges.{
  OrderBook, Answers, Call, cancel_call, maker_call, fak_call, fok_call, merge_call, RouterState,
  calling, cancel_sells,
}
use polymarket_rewards.Exit.Calls.{
  Added, Added-none, Added-trans, Added-call, cancel_sells-Added, start_fok_merge-Added,
}
use polymarket_rewards.Exit.Compare.{
  pair_for, oldest_lot_ts, complement_token, protected_fak, fok_route, ask_le, choose_route,
  compare_with, merge_option, quote_complement, quote_book, direct_quote, route_compare, stop_hit,
}
use polymarket_rewards.Exit.Defs.{wait_start}

-- The time since the oldest purchase is still under the wait.
abbrev pub is_waiting : Answers → List Lot → Bool
is_waiting env lots =
    ltb env.now (wait_start env.now (oldest_lot_ts lots) + env.template.exit_maker_wait_sec)

-- The router still waits: no stop, a wait that is configured, and not over.
abbrev pub is_early : Answers → Text → Frac → List Lot → Bool
is_early env asset cost lots =
    not
      (stop_hit env cost (env.sell_book asset).best_bid || (env.template.exit_maker_wait_sec == 0))
    && is_waiting env lots

-- What may be sent for a position.
abbrev pub Allowed : Answers → Text → Text → ℕ → (early : Bool) → Call → Type 0
Allowed env cid asset size early (cancel_call ids) = Unit
Allowed env cid asset size early (merge_call id c n) =
    (c ≡ cid)
    × (env.template.merge_enabled ≡ true)
    × (env.relayer_ok ≡ true)
    × (env.template.merge_min_shares ≤ n)
    × (other : Text) × (other_size : ℕ) × (pair_for cid asset env.positions
        ≡ some (other, other_size))
    × (n ≡ min size other_size)
Allowed env cid asset size early (maker_call a p n) =
    (early ≡ true) × (a ≡ asset) × (n ≡ size) × ((env.sell_book asset).best_ask ≡ some p) × (0 < p)
Allowed env cid asset size early (fak_call a p n) =
    (early ≡ false)
    × (a ≡ asset)
    × (n ≡ size)
    × (direct : FakPlan) × (direct_quote size (env.get_orderbook asset) ≡ some direct)
    × (direct.worst_price ≡ p)
Allowed env cid asset size early (fok_call id a p n) =
    (early ≡ false)
    × (n ≡ size)
    × (complement_token env cid asset ≡ some a)
    × (direct : FakPlan) × (direct_quote size (env.get_orderbook asset) ≡ some direct)
    × (direct.expected_recovery + env.template.merge_min_advantage_usd * 1_000_000 + p * size
        ≤ size * 1_000_000)

feasible_recovery :
    (asks : List Bid) (size direct adv min_shares : ℕ)
    → (quote_merge_route asks size direct adv min_shares).feasible ≡ true
    → (quote_merge_route asks size direct adv min_shares).expected_recovery ≡ size * 1_000_000
unfolding quote_merge_route merge_quote_of
feasible_recovery asks size direct adv min_shares good = ground arith

worst_pays :
    (size d recovery : ℕ) (worst : Option ℕ)
    → d ≤ recovery
    → ((w : ℕ) → worst ≡ some w → d + w * size ≤ recovery)
    → d + or_zero worst * size ≤ recovery
worst_pays size d recovery none h k = omega arith
worst_pays size d recovery (some w) h k = k w refl

feasible_pays :
    (asks : List Bid) (size direct adv min_shares : ℕ)
    → let q = quote_merge_route asks size direct adv min_shares in
      q.feasible ≡ true
      → direct + adv * 1_000_000 + or_zero q.fok_worst_price * size ≤ size * 1_000_000
feasible_pays asks size direct adv min_shares good =
    let q = quote_merge_route asks size direct adv min_shares in
    let (_, total, worst) = quote_merge_route-Pays asks size direct adv min_shares good in
    subst (λ r. direct + adv * 1_000_000 + or_zero q.fok_worst_price * size ≤ r)
      (feasible_recovery asks size direct adv min_shares good)
      (worst_pays size (direct + adv * 1_000_000) q.expected_recovery q.fok_worst_price
        (omega arith) worst)

module _ (env : Answers) (cid asset : Text) (size : ℕ) where
  -- A quote for the other half: of its token, and one that pays where it is feasible.
  abbrev Offers : FakPlan → Option (Text × MergeQuote) → Type 0
  Offers direct none = Unit
  Offers direct (some (complement, q)) =
      (complement_token env cid asset ≡ some complement)
      × (q.feasible ≡ true
          → direct.expected_recovery
              + env.template.merge_min_advantage_usd * 1_000_000
              + or_zero q.fok_worst_price * size
            ≤ size * 1_000_000)

  quote_book-Offers :
      (direct : FakPlan) (complement : Text) (book : Option OrderBook)
      → complement_token env cid asset ≡ some complement
      → Offers direct (quote_book env size direct complement book)
  quote_book-Offers direct complement none token = tt
  quote_book-Offers direct complement (some book) token = (
    token,
    feasible_pays (sort_by ask_le book.asks) size direct.expected_recovery
        env.template.merge_min_advantage_usd env.template.merge_min_shares,
  )

  quote_complement-Offers :
      (direct : FakPlan) (token : Option Text)
      → complement_token env cid asset ≡ token
      → Offers direct (quote_complement env size direct token)
  quote_complement-Offers direct none found = tt
  quote_complement-Offers direct (some complement) found = elim (Bool-cases (is_empty complement)) [
    | inl blank ↦ rw blank tt
    | inr named ↦
        rw named (quote_book-Offers direct complement (env.get_orderbook complement) found)
  ]

  merge_option-Offers : (direct : FakPlan) → Offers direct (merge_option env cid asset size direct)
  unfolding merge_option
  merge_option-Offers direct = elim (Bool-cases (env.template.merge_enabled && env.relayer_ok)) [
    | inl able ↦ rw able (quote_complement-Offers direct _ refl)
    | inr unable ↦ rw unable tt
  ]

  protected_fak-Added :
      (direct : FakPlan) (s : RouterState)
      → direct_quote size (env.get_orderbook asset) ≡ some direct
      → Added (Allowed env cid asset size false) s (protected_fak asset direct.worst_price size s)
  unfolding protected_fak
  protected_fak-Added direct s quoted =
      let P = Allowed env cid asset size false in
      let cleared = cancel_sells asset s in
      let sale = fak_call asset direct.worst_price size in
      Added-trans P s cleared (calling sale cleared) (cancel_sells-Added P (λ ids. tt) asset s)
        (Added-call P sale cleared (refl, refl, refl, direct, quoted, refl))

  choose_route-Added :
      (direct : FakPlan) (option : Option (Text × MergeQuote)) (s : RouterState)
      → direct_quote size (env.get_orderbook asset) ≡ some direct
      → Offers direct option
      → Added
          (Allowed env cid asset size false)
          s
          (choose_route env cid asset size direct option s).1
  unfolding choose_route fok_route
  choose_route-Added direct none s quoted offer = protected_fak-Added direct s quoted
  choose_route-Added direct (some (complement, q)) s quoted offer =
      let P = Allowed env cid asset size false in
      elim (Bool-cases q.feasible) [
        | inl good ↦ rw good (
            start_fok_merge-Added P (λ ids. tt) env cid asset complement size
              (or_zero q.fok_worst_price) (env.cost_lots asset size cid).1
              (λ id. (refl, refl, offer.0, direct, quoted, offer.1 good)) s)
        | inr bad ↦ rw bad (protected_fak-Added direct s quoted)
      ]

  compare_with-Added :
      (direct : Option FakPlan) (s : RouterState)
      → direct_quote size (env.get_orderbook asset) ≡ direct
      → Added (Allowed env cid asset size false) s (compare_with env cid asset size direct s).1
  unfolding compare_with
  compare_with-Added none s quoted = Added-none _ s s refl
  compare_with-Added (some direct) s quoted =
      choose_route-Added direct (merge_option env cid asset size direct) s quoted
        (merge_option-Offers direct)

  pub route_compare-Added :
      (s : RouterState)
      → Added (Allowed env cid asset size false) s (route_compare env cid asset size s).1
  unfolding route_compare
  route_compare-Added s = compare_with-Added (direct_quote size (env.get_orderbook asset)) s refl
