-- ===== src/Monitor/Cancelled.antt =====
-- engine/monitor.py: which cancellations and which updates a tick sends.
use polymarket_rewards.Base.{
  ℕ, ◌<◌, ◌≡◌, refl, sym, ap, ◌∙◌, subst, ◌⊎◌, inl, inr, Bool, true, false, ◌&&◌, ◌||◌, Option,
  none, some, List, [], ◌∷◌, ◌++◌, arith, ltb, ◌==◌, tests, Bool-cases, if◌then◌else◌, or_zero, map,
  keep, All, All-append,
}
use polymarket_rewards.Base.Sort.{sort_by}
use polymarket_rewards.Gap.{Bid, bid_ge}
use polymarket_rewards.Base.Text.{Text, codes, text_eq}
use polymarket_rewards.Place.{OpenOrder, Book, ask_order, has_text}
use polymarket_rewards.Monitor.{
  MarketRewards, MonitorSettings, Verdict, resting_sale, part_filled, blacklisted, reward_dropped,
  no_book, spread_too_wide, empty_book, no_max_spread, price_out_of_band, out_of_range, cliff,
  gap_too_wide, kept, judge_range, is_cancel, is_dropped_to, judge, judge_sorted, judge_book,
  Prepared, Sources, Tick, status_add, is_resting_buy, update_of, carry_out, check_compliance,
  check_order, check_orders, check_prepared, pending_keys, books_at, rewards_at, fetch_rewards,
  Cached,
}
use polymarket_rewards.Monitor.Agree.{first_of}
use mathlib.Core.List.{append-nil, append_assoc}

-- A resting buy of which nothing is matched, and which the blacklist or the judgement is against.
abbrev pub is_against : Prepared → (Text → Option Book) → (Text → MarketRewards) → OpenOrder → Bool
is_against p books rewards o =
    is_resting_buy o
    && (has_text o.market p.blacklist
        || is_cancel
            (judge p.settings (or_zero o.order.price) (books o.asset_id) (rewards o.market)))

abbrev pub id_of : OpenOrder → Option Text
id_of o = o.order.id

-- What was sent and written back since: a cancellation where there is one, and updates of rates that
-- are under the minimum.
abbrev pub Follows : ℕ → List (Option Text) → Tick → Tick → Type 0
Follows least ids s after =
    (after.cancels ≡ s.cancels ++ ids)
    × ((new : List (Text × ℕ)) × (after.updates ≡ s.updates ++ new)
        × All (λ (u : Text × ℕ). u.1 < least) new)

not_dropped : (a b c d : Bool) → first_of a b c d ≡ reward_dropped → ⊥
not_dropped true b c d e = cc
not_dropped false false c d e = cc
not_dropped false true true d e = cc
not_dropped false true false true e = cc
not_dropped false true false false e = cc

judge_book_not_dropped :
    (t : MonitorSettings) (price : ℕ) (bids asks : List Bid) (cents : Option ℕ)
    → judge_book t price bids asks cents ≡ reward_dropped
    → ⊥
unfolding judge_book judge_range
judge_book_not_dropped t price [] asks cents e = cc
judge_book_not_dropped t price (b ∷ bids) [] cents e = cc
judge_book_not_dropped t price (b ∷ bids) (a ∷ asks) none e = cc
judge_book_not_dropped t price (b ∷ bids) (a ∷ asks) (some cents) e = not_dropped _ _ _ _ e

dropped_by :
    (a b : Bool) (v : Verdict)
    → (if a then spread_too_wide else if b then reward_dropped else v) ≡ reward_dropped
    → (v ≡ reward_dropped → ⊥)
    → b ≡ true
dropped_by true b v e h = absurd (cc)
dropped_by false true v e h = refl
dropped_by false false v e h = absurd (h e)

zero_cases : (n : ℕ) → ((n == 0) ≡ true × ltb 0 n ≡ false) ⊎ ((n == 0) ≡ false × ltb 0 n ≡ true)
zero_cases n = ground arith

module _ (x : Sources) (p : Prepared) (books : Text → Option Book)
    (rewards : Text → MarketRewards) where
  abbrev pub least : ℕ
  least = p.settings.min_reward

  quiet :
      (s after : Tick)
      → after.cancels ≡ s.cancels
      → after.updates ≡ s.updates
      → Follows least [] s after
  quiet s after c u = (c ∙ sym (append-nil s.cancels), ([], u ∙ sym (append-nil s.updates), tt))

  -- The one update of a verdict.
  update_under :
      (market : Text) (v : Verdict) (pair : MarketRewards)
      → (v ≡ reward_dropped → is_dropped_to pair.1 least ≡ true)
      → All (λ (u : Text × ℕ). u.1 < least) (update_of market v pair)
  update_under market reward_dropped (spread, none) low = tt
  update_under market reward_dropped (spread, some rate) low =
      let under = low refl in (omega (tests, under), tt)
  update_under market resting_sale pair low = tt
  update_under market part_filled pair low = tt
  update_under market blacklisted pair low = tt
  update_under market no_book pair low = tt
  update_under market spread_too_wide pair low = tt
  update_under market empty_book pair low = tt
  update_under market no_max_spread pair low = tt
  update_under market price_out_of_band pair low = tt
  update_under market out_of_range pair low = tt
  update_under market cliff pair low = tt
  update_under market gap_too_wide pair low = tt
  update_under market kept pair low = tt

  carry_out-Follows :
      (o : OpenOrder) (pair : MarketRewards) (v : Verdict) (s : Tick)
      → (v ≡ reward_dropped → is_dropped_to pair.1 least ≡ true)
      → Follows least (if is_cancel v then o.order.id ∷ [] else []) s (carry_out x o pair v s)
  unfolding carry_out
  carry_out-Follows o pair v s low = elim (Bool-cases (is_cancel v)) [
    | inr stays ↦ rw stays (quiet s (status_add o.market v s) refl refl)
    | inl goes ↦ elim (Bool-cases (x.cancel_order o.order.id)) [
      | inr failed ↦ rw (goes, failed) (refl, ([], sym (append-nil s.updates), tt))
      | inl sent ↦
          rw (goes, sent)
            (refl, (update_of o.market v pair, refl, update_under o.market v pair low))
    ]
  ]

  judge_dropped :
      (price : ℕ) (book : Option Book) (pair : MarketRewards)
      → judge p.settings price book pair ≡ reward_dropped
      → is_dropped_to pair.1 least ≡ true
  unfolding judge judge_sorted
  judge_dropped price none pair e = absurd (cc)
  judge_dropped price (some ob) pair e = dropped_by _ _ _ e (
      judge_book_not_dropped p.settings price (sort_by bid_ge ob.bids) (sort_by ask_order ob.asks)
        pair.0)

  with_book :
      (o : OpenOrder) (s : Tick) (book : Option Book)
      → let v = judge p.settings (or_zero o.order.price) book (rewards o.market) in
        Follows least
          (if is_cancel v then o.order.id ∷ [] else [])
          s
          (elim book [ none ↦ s | some ob ↦ carry_out x o (rewards o.market) v s ])
  unfolding judge
  with_book o s none = quiet s s refl refl
  with_book o s (some ob) =
      let v = judge p.settings (or_zero o.order.price) (some ob) (rewards o.market) in
      carry_out-Follows o (rewards o.market) v s
        (judge_dropped (or_zero o.order.price) (some ob) (rewards o.market))

  check_compliance-Follows :
      (o : OpenOrder) (s : Tick)
      → let v = judge p.settings (or_zero o.order.price) (books o.asset_id) (rewards o.market) in
        Follows least
          (if has_text o.market p.blacklist || is_cancel v then o.order.id ∷ [] else [])
          s
          (check_compliance x p books rewards o s)
  unfolding check_compliance
  check_compliance-Follows o s = elim (Bool-cases (has_text o.market p.blacklist)) [
    | inl barred ↦ rw barred (carry_out-Follows o (none, none) blacklisted s (λ e. absurd (cc)))
    | inr open_market ↦ rw open_market (with_book o s (books o.asset_id))
  ]

  check_order-Follows :
      (o : OpenOrder) (s : Tick)
      → Follows least
          (if is_against p books rewards o then o.order.id ∷ [] else [])
          s
          (check_order x p books rewards o s)
  unfolding check_order
  check_order-Follows o s = elim (Bool-cases (text_eq o.side (codes "BUY"))) [
    | inr sale ↦ rw sale (quiet s (status_add o.market resting_sale s) refl refl)
    | inl buys ↦ elim (zero_cases (or_zero o.order.size_matched)) [
      | inr (part, matched) ↦
          rw (buys, part, matched) (quiet s (status_add o.market part_filled s) refl refl)
      | inl (whole, unmatched) ↦ rw (buys, whole, unmatched) (check_compliance-Follows o s)
    ]
  ]

  Follows-then :
      (ids more : List (Option Text)) (r s t : Tick)
      → Follows least ids r s
      → Follows least more s t
      → Follows least (ids ++ more) r t
  Follows-then ids more r s t (c, (new, u, low)) (c', (new', u', low')) = (
    c' ∙ ap (λ l. l ++ more) c ∙ append_assoc r.cancels ids more,
    (
      new ++ new',
      u' ∙ ap (λ l. l ++ new') u ∙ append_assoc r.updates new new',
      All-append (λ (v : Text × ℕ). v.1 < least) new new' low low',
    ),
  )

  -- The list begins with the order where the test holds.
  first_kept :
      (o : OpenOrder) (orders : List OpenOrder)
      → let against = is_against p books rewards in
        (if against o then o.order.id ∷ [] else []) ++ map id_of (keep against orders)
        ≡ map id_of (keep against (o ∷ orders))
  first_kept o orders = elim (Bool-cases (is_against p books rewards o)) [
    | inl goes ↦ rw goes refl
    | inr stays ↦ rw stays refl
  ]

  pub check_orders-Follows :
      (orders : List OpenOrder) (s : Tick)
      → Follows least
          (map id_of (keep (is_against p books rewards) orders))
          s
          (check_orders x p books rewards orders s)
  unfolding check_orders
  check_orders-Follows [] s = quiet s s refl refl
  check_orders-Follows (o ∷ orders) s =
      let next = check_order x p books rewards o s in
      let last = check_orders x p books rewards orders next in
      subst (λ ids. Follows least ids s last) (first_kept o orders)
        (Follows-then _ _ s next last (check_order-Follows o s) (check_orders-Follows orders next))

-- The books and the rewards that a tick reads for its orders.
abbrev pub books_read : Sources → Prepared → List OpenOrder → Text → Option Book
books_read x p orders =
    let tokens = (pending_keys p.blacklist orders).0 in books_at (x.get_orderbooks tokens) tokens

abbrev pub rewards_read : Sources → Prepared → List OpenOrder → List Cached → Text → MarketRewards
rewards_read x p orders cache =
    rewards_at (fetch_rewards x p.rewards_cache_ttl (pending_keys p.blacklist orders).1 cache).0

-- A tick sends a cancellation for each of the open orders that is a buy of which nothing is matched, and
-- whose market is blacklisted or which is judged to be cancelled on the books and rewards that were read,
-- for no other one, and in their order. It writes back only rates that are under the minimum.
pub check_prepared-Follows :
    (x : Sources) (p : Prepared) (orders : List OpenOrder) (s : Tick)
    → Follows p.settings.min_reward
        (map id_of
          (keep (is_against p (books_read x p orders) (rewards_read x p orders s.cache)) orders))
        s
        (check_prepared x p orders s)
unfolding check_prepared
check_prepared-Follows x p orders s =
    check_orders-Follows x p (books_read x p orders) (rewards_read x p orders s.cache) orders
      (record s {
        cache = (fetch_rewards x p.rewards_cache_ttl (pending_keys p.blacklist orders).1 s.cache).1;
      })
