-- ===== src/Monitor/Resolved.antt =====
-- engine/monitor.py: which orders `check_resolution` asks to cancel.
use polymarket_rewards.Base.{
  ◌≡◌, refl, sym, ap, ◌∙◌, inl, inr, Bool, true, false, ◌&&◌, ◌||◌, Option, some, List, [], ◌∷◌,
  ◌++◌, any, Bool-cases, if◌then◌else◌, if_intro, is_empty,
}
use polymarket_rewards.Base.Text.{Text, codes, text_eq, text_eq→≡, opt_eq}
use polymarket_rewards.Place.{OpenOrder, in_resolution}
use polymarket_rewards.Place.Sums.{empty_apart}
use polymarket_rewards.Monitor.{
  GuardSources, Requests, GuardState, add_buy, add_order, buys_by_market, guard_market, guard_all,
  check_resolution,
}

-- A request names the market and the order.
abbrev pub names : Text → Option Text → Text × List (Option Text) → Bool
names market id g = text_eq g.0 market && any (λ i. opt_eq i id) g.1

abbrev pub asks_for : Text → Option Text → Requests → Bool
asks_for market id requests = any (names market id) requests

-- The order is a buy on the market with the id.
abbrev pub is_buy_on : Text → Option Text → OpenOrder → Bool
is_buy_on market id o =
    text_eq o.side (codes "BUY") && (text_eq o.market market && opt_eq o.order.id id)

or_assoc : (a b c : Bool) → (a || (b || c)) ≡ ((a || b) || c)
or_assoc true b c = refl
or_assoc false b c = refl

any-append {ℓ} :
    {A : Type ℓ} (p : A → Bool) (xs ys : List A) → any p (xs ++ ys) ≡ (any p xs || any p ys)
any-append p [] ys = refl
any-append p (x ∷ xs) ys =
    ap (λ b. p x || b) (any-append p xs ys) ∙ or_assoc (p x) (any p xs) (any p ys)

or-false-first : (a b : Bool) → (((a && false) || false) || b) ≡ b
or-false-first true b = refl
or-false-first false b = refl

joins : (a b c r : Bool) → ((a && (b || (c || false))) || r) ≡ (((a && b) || r) || (a && c))
joins true true c r = refl
joins true false true true = refl
joins true false true false = refl
joins true false false true = refl
joins true false false false = refl
joins false b c true = refl
joins false b c false = refl

-- The group of the market takes the order, or a new one does.
asks_for-add_buy :
    (market : Text) (id : Option Text) (m : Text) (i : Option Text) (groups : Requests)
    → asks_for market id (add_buy m i groups)
      ≡ (asks_for market id groups || (text_eq m market && opt_eq i id))
unfolding add_buy
asks_for-add_buy market id m i [] =
    joins (text_eq m market) false (opt_eq i id) false ∙ or-false-first _ _
asks_for-add_buy market id m i ((n, ids) ∷ groups) = elim (Bool-cases (text_eq n m)) [
  | inl mine ↦ rw mine (
      ap (λ (b : Bool). (text_eq n market && b) || asks_for market id groups)
        (any-append (λ j. opt_eq j id) ids (i ∷ []))
      ∙ joins (text_eq n market) (any (λ j. opt_eq j id) ids) (opt_eq i id)
          (asks_for market id groups)
      ∙ ap
          (λ (t : Text).
            names market id (n, ids)
            || asks_for market id groups
            || (text_eq t market && opt_eq i id))
          (text_eq→≡ n m mine))
  | inr other ↦ rw other (
      ap (λ (b : Bool). names market id (n, ids) || b) (asks_for-add_buy market id m i groups)
      ∙ or_assoc (names market id (n, ids)) (asks_for market id groups)
          (text_eq m market && opt_eq i id))
]

or-none : (a : Bool) → a ≡ (a || false)
or-none true = refl
or-none false = refl

or-nothing : (a b c d : Bool) → d ≡ false → a ≡ (a || (b && (d && c)))
or-nothing true b c d e = refl
or-nothing false true c d e = rw e refl
or-nothing false false c d e = refl

or-no_buy : (a b c : Bool) → b ≡ false → a ≡ (a || (b && c))
or-no_buy true b c e = refl
or-no_buy false b c e = rw e refl

or-nothing_left : (a r : Bool) → a ≡ (a || (r && false))
or-nothing_left true r = refl
or-nothing_left false true = refl
or-nothing_left false false = refl

or-last : (a b : Bool) → (a || (b || false)) ≡ (a || (true && b))
or-last true b = refl
or-last false true = refl
or-last false false = refl

or-no_status : (a r b : Bool) → r ≡ false → a ≡ (a || (r && b))
or-no_status true r b e = refl
or-no_status false r b e = rw e refl

and-none : (a b : Bool) → (a && false) ≡ (b && false)
and-none true true = refl
and-none true false = refl
and-none false true = refl
and-none false false = refl

collects : (a r b c : Bool) → ((a || (r && b)) || (r && c)) ≡ (a || (r && (b || c)))
collects true r b c = refl
collects false true b c = refl
collects false false b c = refl

module _ (market : Text) (named : is_empty market ≡ false) (id : Option Text) where
  same_status :
      (x : GuardSources) (g : Text × List (Option Text))
      → (in_resolution (x.uma_status g.0) && names market id g)
        ≡ (in_resolution (x.uma_status market) && names market id g)
  same_status x (m, ids) = elim (Bool-cases (text_eq m market)) [
    | inl mine ↦
        ap (λ (t : Text). in_resolution (x.uma_status t) && names market id (m, ids))
          (text_eq→≡ m market mine)
    | inr other ↦
        rw other (and-none (in_resolution (x.uma_status m)) (in_resolution (x.uma_status market)))
  ]

  add_order-asks :
      (o : OpenOrder) (groups : Requests)
      → asks_for market id (add_order o groups)
        ≡ (asks_for market id groups || is_buy_on market id o)
  add_order-asks o groups =
      if_intro
        (λ (gs : Requests).
          asks_for market id gs ≡ (asks_for market id groups || is_buy_on market id o))
        (text_eq o.side (codes "BUY"))
        (if is_empty o.market then groups else add_buy o.market o.order.id groups) groups
        (λ buys.
          if_intro
            (λ (gs : Requests).
              asks_for market id gs ≡ (asks_for market id groups || is_buy_on market id o))
            (is_empty o.market) groups (add_buy o.market o.order.id groups)
            (λ blank.
              let apart : text_eq o.market market ≡ false =
                empty_apart o.market blank market named in
              or-nothing (asks_for market id groups) (text_eq o.side (codes "BUY"))
                (opt_eq o.order.id id) (text_eq o.market market) apart)
            (λ some_market.
              asks_for-add_buy market id o.market o.order.id groups
              ∙ ap
                  (λ (b : Bool).
                    asks_for market id groups
                    || (b && (text_eq o.market market && opt_eq o.order.id id)))
                  (sym buys)))
        (λ sale.
          or-no_buy (asks_for market id groups) (text_eq o.side (codes "BUY"))
            (text_eq o.market market && opt_eq o.order.id id) sale)

  buys_by_market-asks :
      (orders : List OpenOrder) (groups : Requests)
      → asks_for market id (buys_by_market orders groups)
        ≡ (asks_for market id groups || any (is_buy_on market id) orders)
  unfolding buys_by_market
  buys_by_market-asks [] groups = or-none (asks_for market id groups)
  buys_by_market-asks (o ∷ orders) groups =
      buys_by_market-asks orders (add_order o groups)
      ∙ ap (λ (b : Bool). b || any (is_buy_on market id) orders) (add_order-asks o groups)
      ∙ sym (
          or_assoc (asks_for market id groups) (is_buy_on market id o)
            (any (is_buy_on market id) orders))

  guard_market-asks :
      (x : GuardSources) (g : Text × List (Option Text)) (s : GuardState)
      → asks_for market id (guard_market x g s).requests ≡ (
          asks_for market id s.requests
          || (in_resolution (x.uma_status market) && names market id g))
  guard_market-asks x g s =
      let asked : GuardState = record {
        requests = s.requests ++ g ∷ [];
        rows = s.rows ++ (g.0, x.cancel_orders g.1) ∷ [];
      } in
      let mine = names market id g in
      let before = asks_for market id s.requests in
      let swap = same_status x g in
      if_intro
        (λ (q : GuardState).
          asks_for market id q.requests ≡ (before || (in_resolution (x.uma_status market) && mine)))
        (in_resolution (x.uma_status g.0)) asked s
        (λ on.
          any-append (names market id) s.requests (g ∷ [])
          ∙ or-last before mine
          ∙ ap (λ (b : Bool). before || (b && mine)) (sym on)
          ∙ ap (λ (b : Bool). before || b) swap)
        (λ off.
          or-no_status before (in_resolution (x.uma_status g.0)) mine off
          ∙ ap (λ (b : Bool). before || b) swap)

  guard_all-asks :
      (x : GuardSources) (groups : Requests) (s : GuardState)
      → let resolving = in_resolution (x.uma_status market) in
        asks_for market id (guard_all x groups s).requests
        ≡ (asks_for market id s.requests || (resolving && asks_for market id groups))
  unfolding guard_all
  guard_all-asks x [] s =
      or-nothing_left (asks_for market id s.requests) (in_resolution (x.uma_status market))
  guard_all-asks x (g ∷ groups) s =
      let r = in_resolution (x.uma_status market) in
      guard_all-asks x groups (guard_market x g s)
      ∙ ap (λ (b : Bool). b || (r && asks_for market id groups)) (guard_market-asks x g s)
      ∙ collects (asks_for market id s.requests) r (names market id g) (asks_for market id groups)

-- For a named market and an order id, a check of the resolutions asks to cancel the order exactly where
-- the market is in resolution and one of the open orders is a buy on it with that id; where the open
-- orders could not be read it asks for nothing more.
pub check_resolution-asks :
    (x : GuardSources) (orders : List OpenOrder) (s : GuardState) (market : Text) (id : Option Text)
    → is_empty market ≡ false
    → x.open_orders ≡ some orders
    → asks_for market id (check_resolution x s).requests ≡ (
        asks_for market id s.requests
        || (in_resolution (x.uma_status market) && any (is_buy_on market id) orders))
unfolding check_resolution
check_resolution-asks x orders s market id named read =
    let r = in_resolution (x.uma_status market) in
    rw read (
      guard_all-asks market named id x (buys_by_market orders []) s
      ∙ ap (λ (b : Bool). asks_for market id s.requests || (r && b))
          (buys_by_market-asks market named id orders []))
