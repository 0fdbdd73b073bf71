-- ===== src/Reconcile/Settled.antt =====
-- engine/laddering.py: a plan that is in place is left alone.
use polymarket_rewards.Base.{
  ℕ, ◌*◌, ◌≡◌, refl, ap, ◌∙◌, true, false, not, Option, none, some, List, [], ◌∷◌, map, arith, keep,
  All,
}
use polymarket_rewards.Base.Text.{Text}
use polymarket_rewards.Reconcile.Defs.{
  RestingBuy, round4, target_at, is_in, is_kept, reconcile_loop, reconcile_buy_orders,
}
use polymarket_rewards.Reconcile.Kept.{Distinct, loop-kept}

abbrev pub prices_of : List (ℕ × ℕ) → List ℕ
prices_of ladder = map (λ o. round4 o.0) ladder

-- The resting order of a planned one, with the id the exchange gave it; nothing of it is filled.
abbrev pub placed : (id_of : ℕ × ℕ → Option Text) → ℕ × ℕ → RestingBuy
placed id_of (p, s) = record {
  id = id_of (p, s);
  price = some p;
  original_size = some (s * 1_000_000);
  size = none;
  size_matched = none;
}

target_at-none :
    (op : ℕ) (ladder : List (ℕ × ℕ))
    → is_in op (prices_of ladder) ≡ false
    → target_at op ladder ≡ none
unfolding target_at
target_at-none op [] h = refl
target_at-none op ((p, s) ∷ ladder) h = rw (target_at-none op ladder (ground arith)) (ground arith)

abbrev Targets : List (ℕ × ℕ) → ℕ × ℕ → Type 0
Targets ladder e = target_at (round4 e.0) ladder ≡ some e.1

Targets-cons :
    (e : ℕ × ℕ) (ladder es : List (ℕ × ℕ)) → All (Targets ladder) es → All (Targets (e ∷ ladder)) es
unfolding target_at
Targets-cons e ladder [] h = tt
Targets-cons e ladder (x ∷ es) (here, h) = (rw here, Targets-cons e ladder es h)

own_head :
    (p s : ℕ) (ladder : List (ℕ × ℕ))
    → is_in (round4 p) (prices_of ladder) ≡ false
    → Targets ((p, s) ∷ ladder) (p, s)
unfolding target_at
own_head p s ladder new = rw (target_at-none (round4 p) ladder new) (ground arith)

own-Targets : (ladder : List (ℕ × ℕ)) → Distinct (prices_of ladder) → All (Targets ladder) ladder
own-Targets [] d = tt
own-Targets ((p, s) ∷ ladder) (new, d) =
    (own_head p s ladder new, Targets-cons (p, s) ladder ladder (own-Targets ladder d))

-- The prices that are kept when the placed orders are gone through.
abbrev stacked : List (ℕ × ℕ) → List ℕ → List ℕ
stacked [] kept = kept
stacked (e ∷ es) kept = stacked es (round4 e.0 ∷ kept)

placed-is_kept :
    (id_of : ℕ × ℕ → Option Text) (ladder : List (ℕ × ℕ)) (pct : ℕ) (kept : List ℕ) (p s : ℕ)
    → target_at (round4 p) ladder ≡ some s
    → is_in (round4 p) kept ≡ false
    → is_kept ladder pct kept (placed id_of (p, s)) ≡ true
unfolding is_kept
placed-is_kept id_of ladder pct kept p s planned new = rw (planned, is_kept) (rw new (ground arith))

-- No price of the list is among the kept ones.
abbrev Apart : List (ℕ × ℕ) → List ℕ → Type 0
Apart es kept = All (λ e. is_in (round4 e.0) kept ≡ false) es

Apart-cons :
    (es : List (ℕ × ℕ)) (op : ℕ) (kept : List ℕ)
    → is_in op (prices_of es) ≡ false
    → Apart es kept
    → Apart es (op ∷ kept)
Apart-cons [] op kept new h = tt
Apart-cons (e ∷ es) op kept new (here, h) = (ground arith, Apart-cons es op kept (ground arith) h)

loop-placed :
    (id_of : ℕ × ℕ → Option Text) (ladder : List (ℕ × ℕ)) (pct : ℕ) (kept : List ℕ)
    (es : List (ℕ × ℕ))
    → All (Targets ladder) es
    → Distinct (prices_of es)
    → Apart es kept
    → reconcile_loop ladder pct kept (map (placed id_of) es) ≡ ([], stacked es kept)
loop-placed id_of ladder pct kept [] t d a = unfold reconcile_loop in refl
loop-placed id_of ladder pct kept ((p, s) ∷ es) (here, t) (new, d) (apart, a) =
    loop-kept ladder pct kept (placed id_of (p, s)) (map (placed id_of) es)
      (placed-is_kept id_of ladder pct kept p s here apart)
    ∙ loop-placed id_of ladder pct (round4 p ∷ kept) es t d (Apart-cons es (round4 p) kept new a)

nothing_kept : (es : List (ℕ × ℕ)) → Apart es []
nothing_kept [] = tt
nothing_kept (e ∷ es) = (refl, nothing_kept es)

stacked-keeps :
    (op : ℕ) (es : List (ℕ × ℕ)) (kept : List ℕ)
    → is_in op kept ≡ true
    → is_in op (stacked es kept) ≡ true
stacked-keeps op [] kept h = h
stacked-keeps op (e ∷ es) kept h = stacked-keeps op es (round4 e.0 ∷ kept) (ground arith)

nothing_left :
    (es : List (ℕ × ℕ)) (kept all : List ℕ)
    → ((op : ℕ) → is_in op (stacked es kept) ≡ true → is_in op all ≡ true)
    → keep (λ o. not (is_in (round4 o.0) all)) es ≡ []
nothing_left [] kept all h = refl
nothing_left (e ∷ es) kept all h =
    let here = h (round4 e.0) (stacked-keeps (round4 e.0) es (round4 e.0 ∷ kept) (ground arith)) in
    rw here (nothing_left es (round4 e.0 ∷ kept) all h)

-- When the orders of a plan with distinct prices rest unfilled, under any ids, the next round cancels nothing and
-- places nothing, whatever the tolerance: the bot does not lose its place in the queue.
pub reconcile_buy_orders_settled :
    (id_of : ℕ × ℕ → Option Text) (ladder : List (ℕ × ℕ)) (pct : ℕ)
    → Distinct (prices_of ladder)
    → reconcile_buy_orders ladder (map (placed id_of) ladder) pct ≡ ([], [])
unfolding reconcile_buy_orders
reconcile_buy_orders_settled id_of ladder pct d =
    rw (loop-placed id_of ladder pct [] ladder (own-Targets ladder d) d (nothing_kept ladder))
      (ap (λ xs. ([], xs)) (nothing_left ladder [] (stacked ladder []) (λ op h. h)))
