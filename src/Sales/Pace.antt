-- ===== src/Sales/Pace.antt =====
-- engine/monitor.py: the loop of `check_low_balance`, one token after another.
use polymarket_rewards.Base.{
  ℕ, ◌+◌, ◌*◌, ◌≤◌, ◌<◌, ◌≡◌, refl, sym, ap, ◌∙◌, subst, ◌⊎◌, inl, inr, Bool, true, false, ◌||◌,
  not, Option, none, some, List, [], ◌∷◌, ◌++◌, leb, leb→le, ==_iff, or_zero, not-leb→lt, ◌==◌,
  if_intro, is_empty,
}
use polymarket_rewards.Base.Frac.{Frac}
use polymarket_rewards.Base.Text.{Text}
use polymarket_rewards.Sales.{
  ListedOrder, Desk, SaleCall, market_sell, own_sells, sell_ids_of, Sales, market_dump, Meta,
  meta_at, Run, after_sale, sell_at, sell_found, sell_until,
}
use polymarket_rewards.Sales.Sends.{after_cancel, positive}
use polymarket_rewards.Sales.Dumped.{Refused, Answered, market_dump-Adds, market_dump-Counts}
use mathlib.Core.List.{append-nil, append_assoc}

-- A token that has a known cost, with a bid.
abbrev pub IsOffer : List Meta → Text → Meta → ℕ → Type 0
IsOffer metas asset m bid = (meta_at asset metas ≡ some m) × (m.best_bid ≡ some bid) × (0 < bid)

-- The bid for a token, 0 where there is none.
abbrev pub bid_of : Option Meta → ℕ
bid_of none = 0
bid_of (some m) = or_zero m.best_bid

-- The cancellation of resting sells, where there are any, and the sale of the whole position.
abbrev pub sale_calls : Meta → List (Option Text) → List SaleCall
sale_calls m ids = after_cancel ids (market_sell m.position.asset m.position.size)

-- From an estimate, along the order of the tokens: the tokens that are sold, what is sent, and the
-- estimate at the end. Every sale begins with an estimate below the target, and each token before the
-- target is reached is put up for sale where it has a bid.
pub data IsPaced (d : Desk) (target : ℕ) (metas : List Meta)
    : ℕ → List Text → List Text → List SaleCall → ℕ → Type 0 where
  done : {est : ℕ} → IsPaced d target metas est [] [] [] est
  reached :
      {est : ℕ} {order : List Text} → target ≤ est → IsPaced d target metas est order [] [] est
  passed :
      {est last : ℕ} {asset : Text} {order sold : List Text} {calls : List SaleCall}
      → est < target
      → bid_of (meta_at asset metas) ≡ 0
      → IsPaced d target metas est order sold calls last
      → IsPaced d target metas est (asset ∷ order) sold calls last
  fails :
      {est last : ℕ} {asset : Text} {order sold : List Text} {calls : List SaleCall} (m : Meta)
      (bid : ℕ) (ids : List (Option Text))
      → est < target
      → IsOffer metas asset m bid
      → Refused d m.position bid m.cost
      → IsPaced d target metas est order sold calls last
      → IsPaced d target metas est (asset ∷ order) sold (sale_calls m ids ++ calls) last
  sells :
      {est last : ℕ} {asset : Text} {order sold : List Text} {calls : List SaleCall} (m : Meta)
      (bid : ℕ) (ids : List (Option Text))
      → est < target
      → IsOffer metas asset m bid
      → Answered d m.position
      → IsPaced d target metas (est + bid * m.position.size) order sold calls last
      → IsPaced d target metas est (asset ∷ order) (asset ∷ sold) (sale_calls m ids ++ calls) last

module _ (d : Desk) (orders : List ListedOrder) (metas : List Meta) (target : ℕ) where
  -- Nothing is counted.
  abbrev Same : Run → Run → Type 0
  Same r next =
      (next.just_dumped ≡ r.just_dumped) × (next.est ≡ r.est) × (next.dumped_any ≡ r.dumped_any)

  -- What one token adds: nothing without a bid, or a sale that fails, or one that counts at its bid.
  abbrev Skipped : Text → Run → Run → Type 0
  Skipped asset r next =
      (bid_of (meta_at asset metas) ≡ 0) × Same r next × (next.sales.sent ≡ r.sales.sent)

  abbrev Failed : Text → Run → Run → Type 0
  Failed asset r next =
      (m : Meta) × (bid : ℕ) × (ids : List (Option Text)) × IsOffer metas asset m bid
      × Refused d m.position bid m.cost
      × Same r next
      × (next.sales.sent ≡ r.sales.sent ++ sale_calls m ids)

  abbrev Sold : Text → Run → Run → Type 0
  Sold asset r next =
      (m : Meta) × (bid : ℕ) × (ids : List (Option Text)) × IsOffer metas asset m bid
      × Answered d m.position
      × (next.just_dumped ≡ r.just_dumped ++ asset ∷ [])
      × (next.est ≡ r.est + bid * m.position.size)
      × (next.dumped_any ≡ true)
      × (next.sales.sent ≡ r.sales.sent ++ sale_calls m ids)

  abbrev Step : Text → Run → Run → Type 0
  Step asset r next = Skipped asset r next ⊎ (Failed asset r next ⊎ Sold asset r next)

  after_sale_case :
      (asset : Text) (m : Meta) (bid : ℕ) (ids : List (Option Text)) (answer : Option Frac × Sales)
      (r : Run)
      → IsOffer metas asset m bid
      → ((answer.0 ≡ none) × Refused d m.position bid m.cost)
        ⊎ ((fill : Frac) × (answer.0 ≡ some fill) × Answered d m.position)
      → answer.1.sent ≡ r.sales.sent ++ sale_calls m ids
      → Failed asset r (after_sale asset (bid * m.position.size) answer r)
        ⊎ Sold asset r (after_sale asset (bid * m.position.size) answer r)
  after_sale_case asset m bid ids (none, sales) r offer (inl (gone, refused)) sent =
      inl (m, bid, ids, offer, refused, (refl, refl, refl), sent)
  after_sale_case asset m bid ids (none, sales) r offer (inr (fill, e, answered)) sent = absurd (cc)
  after_sale_case asset m bid ids (some fill, sales) r offer (inl (gone, refused)) sent =
      absurd (cc)
  after_sale_case asset m bid ids (some fill, sales) r offer (inr (paid, e, answered)) sent =
      inr (m, bid, ids, offer, answered, refl, refl, refl, sent)

  no_bid_at :
      (asset : Text) (m : Meta) (best_bid : Option ℕ)
      → meta_at asset metas ≡ some m
      → m.best_bid ≡ best_bid
      → or_zero best_bid ≡ 0
      → bid_of (meta_at asset metas) ≡ 0
  no_bid_at asset m best_bid found bids zero_bid =
      ap bid_of found ∙ ap (λ (o : Option ℕ). or_zero o) bids ∙ zero_bid

  sell_at_case :
      (asset : Text) (m : Meta) (best_bid : Option ℕ) (r : Run)
      → meta_at asset metas ≡ some m
      → m.best_bid ≡ best_bid
      → Step asset r (sell_at d orders asset m best_bid r)
  sell_at_case asset m none r found bids =
      inl (no_bid_at asset m none found bids refl, (refl, refl, refl), refl)
  sell_at_case asset m (some bid) r found bids =
      let answer = market_dump d orders m.position bid (some m.cost) r.sales in
      let ids = sell_ids_of (own_sells m.position.asset orders r.sales) in
      if_intro (λ (q : Run). Step asset r q) (bid == 0) r
        (after_sale asset (bid * m.position.size) answer r)
        (λ e.
          inl (
            no_bid_at asset m (some bid) found bids ((==_iff bid 0).0 e),
            (refl, refl, refl),
            refl,
          ))
        (λ e. inr (
          after_sale_case asset m bid ids answer r (found, bids, positive bid e)
            (market_dump-Counts d orders m.position r.sales bid m.cost)
            (market_dump-Adds d orders m.position r.sales bid (some m.cost)).0))

  sell_found_case :
      (asset : Text) (found : Option Meta) (r : Run)
      → meta_at asset metas ≡ found
      → Step asset r (sell_found d orders asset found r)
  sell_found_case asset none r e = inl (ap bid_of e, (refl, refl, refl), refl)
  sell_found_case asset (some m) r e = sell_at_case asset m m.best_bid r e refl

  -- What the loop has added.
  abbrev Loops : List Text → Run → Run → Type 0
  Loops order r after =
      (sold : List Text) × (calls : List SaleCall) × (after.just_dumped ≡ r.just_dumped ++ sold)
      × (after.sales.sent ≡ r.sales.sent ++ calls)
      × IsPaced d target metas r.est order sold calls after.est
      × (after.dumped_any ≡ (r.dumped_any || not (is_empty sold)))

  or-false : (b : Bool) → b ≡ (b || false)
  or-false true = refl
  or-false false = refl

  or-true : (b : Bool) → true ≡ (b || true)
  or-true true = refl
  or-true false = refl

  sent_then :
      (first mine calls : List SaleCall) (next last : Run)
      → next.sales.sent ≡ first ++ mine
      → last.sales.sent ≡ next.sales.sent ++ calls
      → last.sales.sent ≡ first ++ (mine ++ calls)
  sent_then first mine calls next last e f =
      f ∙ ap (λ l. l ++ calls) e ∙ append_assoc first mine calls

  Loops-then :
      (asset : Text) (order : List Text) (r next last : Run)
      → r.est < target
      → Step asset r next
      → Loops order next last
      → Loops (asset ∷ order) r last
  Loops-then asset order r next last below (inl (none_bid, (dumped, est, any_yet), same))
        (sold, calls, added, sent, paced, flag) =
      (
        sold,
        calls,
        added ∙ ap (λ l. l ++ sold) dumped,
        sent ∙ ap (λ l. l ++ calls) same,
        passed below none_bid
            (subst (λ (e : ℕ). IsPaced d target metas e order sold calls last.est) est paced),
        flag ∙ ap (λ b. b || not (is_empty sold)) any_yet,
      )
  Loops-then asset order r next last below
        (inr (inl (m, bid, ids, offer, refused, (dumped, est, any_yet), mine)))
        (sold, calls, added, sent, paced, flag) =
      (
        sold,
        sale_calls m ids ++ calls,
        added ∙ ap (λ l. l ++ sold) dumped,
        sent_then r.sales.sent (sale_calls m ids) calls next last mine sent,
        fails m bid ids below offer refused
            (subst (λ (e : ℕ). IsPaced d target metas e order sold calls last.est) est paced),
        flag ∙ ap (λ b. b || not (is_empty sold)) any_yet,
      )
  Loops-then asset order r next last below
        (inr (inr (m, bid, ids, offer, answered, dumped, est, any_now, mine)))
        (sold, calls, added, sent, paced, flag) =
      (
        asset ∷ sold,
        sale_calls m ids ++ calls,
        added ∙ ap (λ l. l ++ sold) dumped ∙ append_assoc r.just_dumped (asset ∷ []) sold,
        sent_then r.sales.sent (sale_calls m ids) calls next last mine sent,
        sells m bid ids below offer answered
            (subst (λ (e : ℕ). IsPaced d target metas e order sold calls last.est) est paced),
        flag ∙ ap (λ b. b || not (is_empty sold)) any_now ∙ or-true r.dumped_any,
      )

  -- The loop ends, for one of its two reasons.
  stays :
      (order : List Text) (r : Run)
      → IsPaced d target metas r.est order [] [] r.est
      → Loops order r r
  stays order r ended = (
    [],
    [],
    sym (append-nil r.just_dumped),
    sym (append-nil r.sales.sent),
    ended,
    or-false r.dumped_any,
  )

  pub sell_until-Loops :
      (order : List Text) (r : Run) → Loops order r (sell_until d orders metas target order r)
  unfolding sell_until
  sell_until-Loops [] r = stays [] r done
  sell_until-Loops (asset ∷ order) r =
      let next = sell_found d orders asset (meta_at asset metas) r in
      let last = sell_until d orders metas target order next in
      if_intro (Loops (asset ∷ order) r) (leb target r.est) r last
        (λ e. stays (asset ∷ order) r (reached (leb→le target r.est e)))
        (λ e.
          Loops-then asset order r next last (not-leb→lt target r.est e)
            (sell_found_case asset (meta_at asset metas) r refl) (sell_until-Loops order next))
