-- ===== src/Tiers/Unique.antt =====
-- engine/tiers.py: a checked setting has each size once, and the lookup finds each enabled tier.
use polymarket_rewards.Base.{
  ℕ, ◌≤◌, ◌<◌, ◌≡◌, refl, inl, inr, Bool, true, false, ◌&&◌, ◌||◌, Option, none, some, List, [],
  ◌∷◌, arith, ltb, ◌==◌, ==_iff, tests, Bool-cases, All,
}
use polymarket_rewards.Base.Int.{ℤ, pos, negsuc}
use polymarket_rewards.Tiers.Defs.{
  RawTier, TierConf, Checked, ok, error, bind_checked, check_coeffs, check_table, check_rest,
  is_size_in, check_numbers, check_tier, check_tiers, validate_size_tiers, tier_for,
}

-- A tier may stand after those with the sizes that were seen.
abbrev pub Fits : List ℕ → TierConf → Type 0
Fits seen t = (0 < t.size) × (t.size ≤ t.shares) × (is_size_in t.size seen ≡ false)

abbrev pub AllFit : List ℕ → List TierConf → Type 0
AllFit seen [] = Unit
AllFit seen (t ∷ tiers) = Fits seen t × AllFit (t.size ∷ seen) tiers

-- Whatever passes a check has the property.
abbrev pub Passes {ℓ} : {A : Type ℓ} → (A → Type 0) → Checked A → Type 0
Passes P (ok a) = P a
Passes P (error e) = Unit

Passes-bind {ℓ κ} :
    {A : Type ℓ} {B : Type κ} (P : A → Type 0) (Q : B → Type 0) (c : Checked A) (f : A → Checked B)
    → Passes P c
    → ((a : A) → P a → Passes Q (f a))
    → Passes Q (bind_checked c f)
Passes-bind P Q (ok a) f h k = k a h
Passes-bind P Q (error e) f h k = tt

Passes-any {ℓ} : {A : Type ℓ} (c : Checked A) → Passes (λ a. Unit) c
Passes-any (ok a) = tt
Passes-any (error e) = tt

Passes-map {ℓ} :
    {A : Type ℓ} (P Q : A → Type 0) (c : Checked A)
    → ((a : A) → P a → Q a)
    → Passes P c
    → Passes Q c
Passes-map P Q (ok a) f h = f a h
Passes-map P Q (error e) f h = tt

||-false : (a b : Bool) → (a || b) ≡ false → b ≡ false
||-false true b h = cc
||-false false b h = h

||-false_left : (a b : Bool) → (a || b) ≡ false → a ≡ false
||-false_left true b h = cc
||-false_left false b h = refl

&&-false : (a : Bool) → (a && false) ≡ false
&&-false true = refl
&&-false false = refl

check_rest-Passes :
    (seen : List ℕ) (t : RawTier) (size shares : ℕ)
    → 0 < size
    → size ≤ shares
    → is_size_in size seen ≡ false
    → Passes (Fits seen) (check_rest t size shares)
unfolding check_rest
check_rest-Passes seen t size shares h k new =
    Passes-bind (λ _. Unit) (Fits seen) (check_coeffs t.coeffs) _ (Passes-any _)
      (λ coeffs _.
        Passes-bind (λ _. Unit) (Fits seen) (check_table t.amount_value_table) _ (Passes-any _)
          (λ table _. (h, k, new)))

check_numbers-Passes :
    (seen : List ℕ) (t : RawTier) (size shares : Option ℤ)
    → Passes (Fits seen) (check_numbers seen t size shares)
unfolding check_numbers
check_numbers-Passes seen t none shares = tt
check_numbers-Passes seen t (some size) none = tt
check_numbers-Passes seen t (some (negsuc n)) (some shares) = tt
check_numbers-Passes seen t (some (pos size)) (some (negsuc m)) = elim (Bool-cases (size == 0)) [
  | inl zero_size ↦ rw zero_size tt
  | inr some_size ↦ elim (Bool-cases (is_size_in size seen)) [
    | inl old ↦ rw (some_size, old) tt
    | inr new ↦ rw (some_size, new) tt
  ]
]
check_numbers-Passes seen t (some (pos size)) (some (pos shares)) = elim (Bool-cases (size == 0)) [
  | inl zero_size ↦ rw zero_size tt
  | inr some_size ↦ elim (Bool-cases (is_size_in size seen)) [
    | inl old ↦ rw (some_size, old) tt
    | inr new ↦ elim (Bool-cases (ltb shares size)) [
      | inl few ↦ rw (some_size, new, few) tt
      | inr enough ↦
          rw (some_size, new, enough)
            (check_rest-Passes seen t size shares (ground arith) (omega tests) new)
    ]
  ]
]

check_tier-Passes : (seen : List ℕ) (t : Option RawTier) → Passes (Fits seen) (check_tier seen t)
unfolding check_tier
check_tier-Passes seen none = tt
check_tier-Passes seen (some t) = check_numbers-Passes seen t _ _

check_tiers-Passes :
    (seen : List ℕ) (raw : List (Option RawTier)) → Passes (AllFit seen) (check_tiers seen raw)
unfolding check_tiers
check_tiers-Passes seen [] = tt
check_tiers-Passes seen (t ∷ raw) =
    Passes-bind (Fits seen) (AllFit seen) (check_tier seen t) _ (check_tier-Passes seen t)
      (λ tier fits.
        Passes-bind (AllFit (tier.size ∷ seen)) (AllFit seen) (check_tiers (tier.size ∷ seen) raw) _
          (check_tiers-Passes (tier.size ∷ seen) raw) (λ rest all. (fits, all)))

abbrev pub Finds : List TierConf → TierConf → Type 0
Finds tiers t = t.enabled ≡ true → tier_for tiers t.size ≡ some t

-- A size that was seen is no size of the tiers that follow.
AllFit-apart :
    (m : ℕ) (seen : List ℕ) (tiers : List TierConf)
    → ((n : ℕ) → is_size_in n seen ≡ false → (m == n) ≡ false)
    → AllFit seen tiers
    → All (λ u. (m == u.size) ≡ false) tiers
AllFit-apart m seen [] out h = tt
AllFit-apart m seen (t ∷ tiers) out h = (
  out t.size h.0.2,
  AllFit-apart m (t.size ∷ seen) tiers (λ n absent. out n (||-false (t.size == n) _ absent)) h.1,
)

Finds-later :
    (t : TierConf) (tiers us : List TierConf)
    → All (λ u. (t.size == u.size) ≡ false) us
    → All (Finds tiers) us
    → All (Finds (t ∷ tiers)) us
unfolding tier_for
Finds-later t tiers [] apart h = tt
Finds-later t tiers (u ∷ us) apart h =
    ((λ e. rw (apart.0, &&-false t.enabled) (h.0 e)), Finds-later t tiers us apart.1 h.1)

Finds-All : (seen : List ℕ) (tiers : List TierConf) → AllFit seen tiers → All (Finds tiers) tiers
unfolding tier_for
Finds-All seen [] h = tt
Finds-All seen (t ∷ tiers) h = (
  (λ e. let same : (t.size == t.size) ≡ true = (==_iff t.size t.size).1 refl in rw (e, same) refl),
  Finds-later t tiers tiers
      (AllFit-apart t.size (t.size ∷ seen) tiers (λ n absent. ||-false_left (t.size == n) _ absent)
        h.1)
      (Finds-All (t.size ∷ seen) tiers h.1),
)

-- In a setting that passes the check every tier has a positive size, at least as many shares, and a
-- size that no earlier tier has; and looking up the size of an enabled tier gives that tier.
pub validate_size_tiers-Passes :
    (raw : Option (List (Option RawTier)))
    → Passes (λ tiers. AllFit [] tiers × All (Finds tiers) tiers) (validate_size_tiers raw)
unfolding validate_size_tiers
validate_size_tiers-Passes none = tt
validate_size_tiers-Passes (some raw) =
    Passes-map (AllFit []) _ (check_tiers [] raw) (λ tiers h. (h, Finds-All [] tiers h))
      (check_tiers-Passes [] raw)
