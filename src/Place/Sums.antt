-- ===== src/Place/Sums.antt =====
-- engine/positions.py: the sums by market are the sums over the positions, and the held tokens are
-- those of the positions that are not empty.
use polymarket_rewards.Base.{
  ℕ, ◌+◌, ◌*◌, ◌≡◌, refl, sym, ap, ◌∙◌, subst, inl, inr, Bool, true, false, ◌&&◌, ◌||◌, not, List,
  [], ◌∷◌, arith, ◌==◌, ==_iff, if◌then◌else◌, Bool-cases, any, sum_of, is_empty,
}
use polymarket_rewards.Base.Text.{Text, text_eq, text_eq_refl, text_eq→≡}
use polymarket_rewards.Place.Holdings.{
  Position, sum_at, add_sum, has_text, add_text, Held, hold, hold_all, held_side_info,
}

abbrev when : Bool → ℕ → ℕ
when b n = if b then n else 0

eq_sym : (s t : Text) → text_eq s t ≡ true → text_eq t s ≡ true
eq_sym s t e = subst (λ x. text_eq x s ≡ true) (text_eq→≡ s t e) (text_eq_refl s)

-- Where one text equals the first and not the second, the two differ.
eq_apart : (s t u : Text) → text_eq s t ≡ true → text_eq s u ≡ false → text_eq u t ≡ false
eq_apart s t u e d = elim (Bool-cases (text_eq u t)) [
  | inr apart ↦ apart
  | inl same ↦
      let us : u ≡ s = text_eq→≡ u t same ∙ sym (text_eq→≡ s t e) in
      let again : text_eq s u ≡ true = subst (λ x. text_eq s x ≡ true) (sym us) (text_eq_refl s) in
      absurd (let wrong : true ≡ false = sym again ∙ d in cc)
]

sum_at-add_sum :
    (cid key : Text) (n : ℕ) (sums : List (Text × ℕ))
    → sum_at cid (add_sum key n sums) ≡ sum_at cid sums + when (text_eq key cid) n
unfolding sum_at add_sum
sum_at-add_sum cid key n [] = elim (Bool-cases (text_eq key cid)) [
  | inl here ↦ rw here (omega arith)
  | inr there ↦ rw there refl
]
sum_at-add_sum cid key n ((k, m) ∷ sums) = elim (Bool-cases (text_eq k key)) [
  | inl mine ↦
      let same : k ≡ key = text_eq→≡ k key mine in
      subst
        (λ x.
          sum_at cid (add_sum key n ((k, m) ∷ sums))
          ≡ sum_at cid ((k, m) ∷ sums) + when (text_eq x cid) n)
        same
        (elim (Bool-cases (text_eq k cid)) [
          | inl here ↦ rw (mine, here) refl
          | inr there ↦ rw (mine, there) (omega arith)
        ])
  | inr other ↦ elim (Bool-cases (text_eq k cid)) [
    | inl here ↦
        let apart : text_eq key cid ≡ false = eq_apart k cid key here other in
        rw (other, here, apart) (omega arith)
    | inr there ↦ rw (other, there) (sum_at-add_sum cid key n sums)
  ]
]

has_text-add_text :
    (a t : Text) (ts : List Text) → has_text a (add_text t ts) ≡ (text_eq t a || has_text a ts)
has_text-add_text a t ts = elim (Bool-cases (has_text t ts)) [
  | inr new ↦ rw new refl
  | inl old ↦ elim (Bool-cases (text_eq t a)) [
    | inr other ↦ rw (old, other) refl
    | inl mine ↦ rw (old, mine) (subst (λ x. has_text x ts ≡ true) (text_eq→≡ t a mine) old)
  ]
]

-- The amount of a position on the market, and whether it holds the token.
abbrev pub on_market : (Position → ℕ) → Text → Position → ℕ
on_market amount cid p = if text_eq p.condition_id cid then amount p else 0

abbrev pub holds : Text → Position → Bool
holds asset p = not (p.size == 0) && text_eq p.asset asset

pub empty_apart :
    (t : Text) → is_empty t ≡ true → (a : Text) → is_empty a ≡ false → text_eq t a ≡ false
empty_apart [] e [] d = cc
empty_apart [] e (c ∷ a) d = refl
empty_apart (c ∷ t) e a d = absurd (cc)

market_sum :
    (cid key : Text) (n : ℕ) (sums : List (Text × ℕ))
    → is_empty cid ≡ false
    → sum_at cid (if is_empty key then sums else add_sum key n sums)
      ≡ sum_at cid sums + when (text_eq key cid) n
market_sum cid key n sums named = elim (Bool-cases (is_empty key)) [
  | inl blank ↦
      let apart : text_eq key cid ≡ false = empty_apart key blank cid named in
      rw (blank, apart) (omega arith)
  | inr some_key ↦ rw some_key (sum_at-add_sum cid key n sums)
]

asset_added :
    (a t : Text) (ts : List Text)
    → is_empty a ≡ false
    → has_text a (if is_empty t then ts else add_text t ts) ≡ (text_eq t a || has_text a ts)
asset_added a t ts named = elim (Bool-cases (is_empty t)) [
  | inl blank ↦
      let apart : text_eq t a ≡ false = empty_apart t blank a named in rw (blank, apart) refl
  | inr some_token ↦ rw some_token (has_text-add_text a t ts)
]

-- What one position adds.
abbrev Adds : Text → Position → Held → Held → Type 0
Adds t p h after =
    (sum_at t after.shares_by_market ≡ sum_at t h.shares_by_market + on_market (λ q. q.size) t p)
    × (sum_at t after.value_by_market
        ≡ sum_at t h.value_by_market + on_market (λ q. q.size * q.cur_price) t p)
    × (has_text t after.assets ≡ (holds t p || has_text t h.assets))

nothing : (b : Bool) (n m : ℕ) → n ≡ 0 → m ≡ m + when b n
nothing true n m e = omega arith
nothing false n m e = omega arith

no_value : (n : ℕ) → 0 * n ≡ 0
no_value n = omega arith

hold-Adds : (t : Text) (p : Position) (h : Held) → is_empty t ≡ false → Adds t p h (hold p h)
unfolding hold
hold-Adds t p h named = elim (Bool-cases (p.size == 0)) [
  | inl empty ↦
      let zero_size : p.size ≡ 0 = (==_iff p.size 0).0 empty in
      let zero_value : p.size * p.cur_price ≡ 0 =
        ap (λ n. n * p.cur_price) zero_size ∙ no_value p.cur_price in
      rw empty (
        nothing (text_eq p.condition_id t) p.size (sum_at t h.shares_by_market) zero_size,
        nothing (text_eq p.condition_id t) (p.size * p.cur_price) (sum_at t h.value_by_market)
            zero_value,
        refl,
      )
  | inr some_size ↦ rw some_size (
    market_sum t p.condition_id p.size h.shares_by_market named,
    market_sum t p.condition_id (p.size * p.cur_price) h.value_by_market named,
    asset_added t p.asset h.assets named,
  )
]

or_swap : (a b c : Bool) → (b || (a || c)) ≡ ((a || b) || c)
or_swap true true c = refl
or_swap true false c = refl
or_swap false true c = refl
or_swap false false c = refl

or_false : (b : Bool) → (b || false) ≡ b
or_false true = refl
or_false false = refl

hold_all-sums :
    (t : Text) (ps : List Position) (h : Held)
    → is_empty t ≡ false
    → let after = hold_all ps h in
      (sum_at t after.shares_by_market
        ≡ sum_at t h.shares_by_market + sum_of (on_market (λ q. q.size) t) ps)
      × (sum_at t after.value_by_market
          ≡ sum_at t h.value_by_market + sum_of (on_market (λ q. q.size * q.cur_price) t) ps)
      × (has_text t after.assets ≡ (any (holds t) ps || has_text t h.assets))
unfolding hold_all
hold_all-sums t [] h named = (omega arith, omega arith, refl)
hold_all-sums t (p ∷ ps) h named =
    let one = hold-Adds t p h named in
    let rest = hold_all-sums t ps (hold p h) named in
    (
      omega (arith, one.0, rest.0),
      omega (arith, one.1, rest.1),
      rest.2
          ∙ ap (λ b. any (holds t) ps || b) one.2
          ∙ or_swap (holds t p) (any (holds t) ps) (has_text t h.assets),
    )

-- For every market the shares and the value are the sums of the sizes, and of the sizes times the
-- current prices, of its positions; and a token counts as held exactly where a position of it has a
-- size. A market or token without a name is left out.
pub held_side_info-sums :
    (t : Text) (ps : List Position)
    → is_empty t ≡ false
    → let held = held_side_info ps in
      (sum_at t held.shares_by_market ≡ sum_of (on_market (λ q. q.size) t) ps)
      × (sum_at t held.value_by_market ≡ sum_of (on_market (λ q. q.size * q.cur_price) t) ps)
      × (has_text t held.assets ≡ any (holds t) ps)
unfolding held_side_info sum_at
held_side_info-sums t ps named =
    let start : Held = record { assets = []; value_by_market = []; shares_by_market = [] } in
    let sums = hold_all-sums t ps start named in
    (omega (arith, sums.0), omega (arith, sums.1), sums.2 ∙ or_false (any (holds t) ps))
