-- ===== src/Gap/Eligible.antt =====
-- engine/laddering.py: the loop that takes the first level whose coefficient is over the threshold.
use polymarket_rewards.Base.{
  ℕ, zero, suc, ◌+◌, ◌<◌, ◌≡◌, refl, inl, inr, true, false, Option, none, some, List, [], ◌∷◌,
  arith, Bool-cases, get_elem?,
}
use polymarket_rewards.Gap.Explain.{Level, is_eligible, first_eligible}

-- The level at `k` may be taken, and none above it.
abbrev pub FirstAt : ℕ → List Level → ℕ → ℕ → Type 0
FirstAt min_coeff levels price k =
    ((lv : Level) × (get_elem? levels k ≡ some lv)
      × (lv.price ≡ price)
      × (is_eligible min_coeff lv ≡ true))
    × ((j : ℕ) (lv : Level)
        → j < k
        → get_elem? levels j ≡ some lv
        → is_eligible min_coeff lv ≡ false)

first_eligible-taken :
    (min_coeff idx : ℕ) (lv : Level) (levels : List Level)
    → is_eligible min_coeff lv ≡ true
    → first_eligible min_coeff idx (lv ∷ levels) ≡ some (idx, lv.price)
unfolding first_eligible
first_eligible-taken min_coeff idx lv levels e = rw e

first_eligible-passed :
    (min_coeff idx : ℕ) (lv : Level) (levels : List Level)
    → is_eligible min_coeff lv ≡ false
    → first_eligible min_coeff idx (lv ∷ levels) ≡ first_eligible min_coeff (idx + 1) levels
unfolding first_eligible
first_eligible-passed min_coeff idx lv levels e = rw e

abbrev pub NoneAt : ℕ → List Level → Type 0
NoneAt min_coeff levels =
    (j : ℕ) (lv : Level) → get_elem? levels j ≡ some lv → is_eligible min_coeff lv ≡ false

-- What the last loop has found.
abbrev pub LoopFound : ℕ → ℕ → List Level → Option (ℕ × ℕ) → Type 0
LoopFound min_coeff idx levels none = NoneAt min_coeff levels
LoopFound min_coeff idx levels (some (i, price)) =
    (k : ℕ) × (i ≡ idx + k) × FirstAt min_coeff levels price k

LoopFound-cons :
    (min_coeff idx : ℕ) (lv : Level) (levels : List Level) (r : Option (ℕ × ℕ))
    → is_eligible min_coeff lv ≡ false
    → LoopFound min_coeff (idx + 1) levels r
    → LoopFound min_coeff idx (lv ∷ levels) r
LoopFound-cons min_coeff idx lv levels none passed h = elim [
  | zero ↦ λ l e. ground (arith, passed)
  | suc j ↦ h j
]
LoopFound-cons min_coeff idx lv levels (some (i, price)) passed (k, at, (here, first)) = (
  suc k,
  omega arith,
  (
    here,
    elim [ zero ↦ λ l lt e. ground (arith, passed) | suc j ↦ λ l lt e. first j l (omega arith) e ],
  ),
)

pub first_eligible-LoopFound :
    (min_coeff idx : ℕ) (levels : List Level)
    → LoopFound min_coeff idx levels (first_eligible min_coeff idx levels)
first_eligible-LoopFound min_coeff idx [] = unfold first_eligible in λ j lv e. absurd (cc)
first_eligible-LoopFound min_coeff idx (lv ∷ levels) =
    elim (Bool-cases (is_eligible min_coeff lv)) [
      | inl taken ↦
          rw (first_eligible-taken min_coeff idx lv levels taken)
            (0, omega arith, ((lv, refl, refl, taken), λ j l lt e. absurd (omega arith)))
      | inr passed ↦ rw (first_eligible-passed min_coeff idx lv levels passed) (
          LoopFound-cons min_coeff idx lv levels _ passed
            (first_eligible-LoopFound min_coeff (idx + 1) levels))
    ]
