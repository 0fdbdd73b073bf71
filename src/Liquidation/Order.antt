-- ===== src/Liquidation/Order.antt =====
-- engine/liquidation.py: the plan sells each candidate once, tier by tier and by loss in a tier.
use polymarket_rewards.Base.{
  ℕ, ◌+◌, ◌≤◌, ◌<◌, ◌≡◌, refl, sym, ◌∙◌, ◌⊎◌, inl, inr, Bool, true, false, ◌&&◌, ◌||◌, Option, none,
  some, List, [], ◌∷◌, ◌++◌, map, arith, ltb, ◌==◌, ==_iff, tests, lt→ltb, Bool-cases, keep, sum_of,
  sum_of-append, All, All-map, All-append,
}
use polymarket_rewards.Base.Sort.{sort_by, IsSorted, All-sort_by, sum_of-sort_by, sort_by-IsSorted}
use polymarket_rewards.Base.Int.{ℤ}
use polymarket_rewards.Liquidation.Defs.{
  Candidate, tier_of, loss_key_le, loss_le, on_tier, sorted_tier, ordered, plan_liquidation,
}

-- The earlier tier, or the smaller loss in the same tier.
abbrev pub sells_before : ℕ → ℕ → Candidate → Candidate → Bool
sells_before low small a b =
    ltb (tier_of low small a) (tier_of low small b)
    || ((tier_of low small a == tier_of low small b) && loss_le a b)

loss_key_le_total : (a b : Option ℤ) → loss_key_le a b ≡ false → loss_key_le b a ≡ true
loss_key_le_total none none h = cc
loss_key_le_total none (some b) h = refl
loss_key_le_total (some a) none h = cc
loss_key_le_total (some a) (some b) h = omega tests

loss_le_total : (a b : Candidate) → loss_le a b ≡ false → loss_le b a ≡ true
loss_le_total a b h = loss_key_le_total a.loss b.loss h

loss_key_le_trans :
    (a b c : Option ℤ) → loss_key_le a b ≡ true → loss_key_le b c ≡ true → loss_key_le a c ≡ true
loss_key_le_trans none none none h k = refl
loss_key_le_trans none none (some c) h k = cc
loss_key_le_trans none (some b) c h k = absurd (cc)
loss_key_le_trans (some a) b none h k = refl
loss_key_le_trans (some a) none (some c) h k = absurd (cc)
loss_key_le_trans (some a) (some b) (some c) h k = omega tests

loss_le_trans : (a b c : Candidate) → loss_le a b ≡ true → loss_le b c ≡ true → loss_le a c ≡ true
loss_le_trans a b c h k = loss_key_le_trans a.loss b.loss c.loss h k

All-on_tier :
    (low small k : ℕ) (cs : List Candidate)
    → All (λ c. tier_of low small c ≡ k) (keep (on_tier low small k) cs)
All-on_tier low small k [] = tt
All-on_tier low small k (c ∷ cs) = elim (Bool-cases (on_tier low small k c)) [
  | inl on ↦ rw on ((==_iff (tier_of low small c) k).0 on, All-on_tier low small k cs)
  | inr off ↦ rw off (All-on_tier low small k cs)
]

sorted_tier-on :
    (low small k : ℕ) (cs : List Candidate)
    → All (λ c. tier_of low small c ≡ k) (sorted_tier low small k cs)
unfolding sorted_tier
sorted_tier-on low small k cs =
    All-sort_by loss_le (λ c. tier_of low small c ≡ k) _ (All-on_tier low small k cs)

||-true_right : (a : Bool) → (a || true) ≡ true
||-true_right true = refl
||-true_right false = refl

same_tier_before :
    (low small k : ℕ) (a b : Candidate)
    → tier_of low small a ≡ k
    → tier_of low small b ≡ k
    → loss_le a b ≡ true
    → sells_before low small a b ≡ true
same_tier_before low small k a b h i le =
    let same : tier_of low small a ≡ tier_of low small b = h ∙ sym i in
    let eq : (tier_of low small a == tier_of low small b) ≡ true = (==_iff _ _).1 same in
    rw (eq, le) (||-true_right (ltb (tier_of low small a) (tier_of low small b)))

before-All :
    (low small k : ℕ) (c : Candidate) (cs : List Candidate)
    → tier_of low small c ≡ k
    → All (λ d. tier_of low small d ≡ k) cs
    → All (λ d. loss_le c d ≡ true) cs
    → All (λ d. sells_before low small c d ≡ true) cs
before-All low small k c [] h i le = tt
before-All low small k c (d ∷ cs) h i le =
    (same_tier_before low small k c d h i.0 le.0, before-All low small k c cs h i.1 le.1)

-- A list of one tier that is sorted by loss is in the order of sale.
one_tier-IsSorted :
    (low small k : ℕ) (cs : List Candidate)
    → All (λ c. tier_of low small c ≡ k) cs
    → IsSorted loss_le cs
    → IsSorted (sells_before low small) cs
one_tier-IsSorted low small k [] h s = tt
one_tier-IsSorted low small k (c ∷ cs) h s =
    (before-All low small k c cs h.0 h.1 s.0, one_tier-IsSorted low small k cs h.1 s.1)

IsSorted-append :
    (le : Candidate → Candidate → Bool) (xs ys : List Candidate)
    → IsSorted le xs
    → IsSorted le ys
    → All (λ x. All (λ y. le x y ≡ true) ys) xs
    → IsSorted le (xs ++ ys)
IsSorted-append le [] ys s t h = t
IsSorted-append le (x ∷ xs) ys s t h =
    (All-append (λ y. le x y ≡ true) xs ys s.0 h.0, IsSorted-append le xs ys s.1 t h.1)

||-true_left : (a b : Bool) → a ≡ true → (a || b) ≡ true
||-true_left a b h = rw h refl

-- Every candidate of one list is on an earlier tier than every one of the other.
earlier_tier :
    (low small k : ℕ) (xs ys : List Candidate)
    → All (λ c. tier_of low small c ≤ k) xs
    → All (λ c. k < tier_of low small c) ys
    → All (λ x. All (λ y. sells_before low small x y ≡ true) ys) xs
earlier_tier low small k xs ys h i =
    All-map _ _ xs
      (λ x below.
        All-map _ _ ys
          (λ y above.
            ||-true_left _ _ (lt→ltb (tier_of low small x) (tier_of low small y) (omega arith)))
          i)
      h

tier-IsSorted :
    (low small k : ℕ) (cs : List Candidate)
    → IsSorted (sells_before low small) (sorted_tier low small k cs)
tier-IsSorted low small k cs =
    one_tier-IsSorted low small k (sorted_tier low small k cs) (sorted_tier-on low small k cs)
      (unfold sorted_tier in sort_by-IsSorted loss_le loss_le_total loss_le_trans _)

-- The plan sells by tier, and within a tier by loss, where unknown losses come last.
ordered-IsSorted :
    (low small : ℕ) (cs : List Candidate) → IsSorted (sells_before low small) (ordered low small cs)
unfolding ordered
ordered-IsSorted low small cs =
    let one = sorted_tier low small 1 cs in
    let two = sorted_tier low small 2 cs in
    let three = sorted_tier low small 3 cs in
    let at_one =
      All-map _ (λ c. tier_of low small c ≤ 1) one (λ c e. omega arith)
        (sorted_tier-on low small 1 cs) in
    let at_two = sorted_tier-on low small 2 cs in
    let at_three = sorted_tier-on low small 3 cs in
    let rest =
      IsSorted-append (sells_before low small) two three (tier-IsSorted low small 2 cs)
        (tier-IsSorted low small 3 cs)
        (earlier_tier low small 2 two three (All-map _ _ two (λ c e. omega arith) at_two)
          (All-map _ _ three (λ c e. omega arith) at_three)) in
    IsSorted-append (sells_before low small) one (two ++ three) (tier-IsSorted low small 1 cs) rest
      (earlier_tier low small 1 one (two ++ three) at_one (
        All-append (λ c. 1 < tier_of low small c) two three
          (All-map _ _ two (λ c e. omega arith) at_two)
          (All-map _ _ three (λ c e. omega arith) at_three)))

tier_of-cases :
    (low small : ℕ) (c : Candidate)
    → (tier_of low small c ≡ 1) ⊎ ((tier_of low small c ≡ 2) ⊎ (tier_of low small c ≡ 3))
unfolding tier_of
tier_of-cases low small c = ground arith

-- Each candidate is on one of the three tiers.
three_tiers :
    (f : Candidate → ℕ) (low small : ℕ) (cs : List Candidate)
    → sum_of f (keep (on_tier low small 1) cs)
        + (sum_of f (keep (on_tier low small 2) cs) + sum_of f (keep (on_tier low small 3) cs))
      ≡ sum_of f cs
three_tiers f low small [] = refl
three_tiers f low small (c ∷ cs) =
    let rest = three_tiers f low small cs in
    elim (tier_of-cases low small c) [
      | inl one ↦ rw one (omega arith)
      | inr (inl two) ↦ rw two (omega arith)
      | inr (inr three) ↦ rw three (omega arith)
    ]

sum_of-ordered :
    (f : Candidate → ℕ) (low small : ℕ) (cs : List Candidate)
    → sum_of f (ordered low small cs) ≡ sum_of f cs
unfolding ordered sorted_tier
sum_of-ordered f low small cs =
    let one = sort_by loss_le (keep (on_tier low small 1) cs) in
    let two = sort_by loss_le (keep (on_tier low small 2) cs) in
    let three = sort_by loss_le (keep (on_tier low small 3) cs) in
    let whole : sum_of f (ordered low small cs) ≡ sum_of f (one ++ (two ++ three)) = refl in
    omega (
      arith,
      sum_of-append f one (two ++ three),
      sum_of-append f two three,
      sum_of-sort_by loss_le f (keep (on_tier low small 1) cs),
      sum_of-sort_by loss_le f (keep (on_tier low small 2) cs),
      sum_of-sort_by loss_le f (keep (on_tier low small 3) cs),
      three_tiers f low small cs,
    )

-- The plan is the asset ids of a rearrangement of the candidates (every measure of candidates adds up
-- to the same), in which each stands before those of a later tier and, in its tier, before those of a
-- greater loss, an unknown loss being the greatest.
pub plan_liquidation_order :
    (candidates : List Candidate) (low small : ℕ)
    → (sold : List Candidate) × (plan_liquidation candidates low small ≡ map (λ c. c.asset_id) sold)
      × ((f : Candidate → ℕ) → sum_of f sold ≡ sum_of f candidates)
      × IsSorted (sells_before low small) sold
unfolding plan_liquidation
plan_liquidation_order candidates low small = (
  ordered low small candidates,
  refl,
  (λ f. sum_of-ordered f low small candidates),
  ordered-IsSorted low small candidates,
)
