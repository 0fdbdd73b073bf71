-- ===== src/Quote/Walk.antt =====
-- engine/protected_exit.py: the loop over the rows of a book takes what the book has, up to the size.
use polymarket_rewards.Base.{
  ℕ, ◌-◌, ◌*◌, ◌≤◌, ◌≡◌, refl, inl, inr, Bool, false, ◌||◌, none, some, List, [], ◌∷◌, arith, min,
  ◌==◌, if◌then◌else◌, Bool-cases, sum_of, All, All-map, leb→le, subst,
}
use polymarket_rewards.Base.Sort.{IsSorted}
use polymarket_rewards.Gap.{Bid, bid_ge}
use polymarket_rewards.Quote.Defs.{walk_levels, last_price, taken, paid}

abbrev pub is_void : (ℕ → Bool) → Bid → Bool
is_void refused b = (b.price == 0) || ((b.size == 0) || refused b.price)

-- The shares of the rows that are not passed over.
abbrev pub depth : (ℕ → Bool) → List Bid → ℕ
depth refused rows = sum_of (λ b. if is_void refused b then 0 else b.size) rows

walk_levels-zero : (refused : ℕ → Bool) (rows : List Bid) → taken (walk_levels refused 0 rows) ≡ 0
unfolding walk_levels
walk_levels-zero refused [] = refl
walk_levels-zero refused (b ∷ rows) = ground (arith, walk_levels-zero refused rows)

pub walk_levels-depth :
    (refused : ℕ → Bool) (remaining : ℕ) (rows : List Bid)
    → taken (walk_levels refused remaining rows) ≡ min remaining (depth refused rows)
unfolding walk_levels
walk_levels-depth refused remaining [] = omega arith
walk_levels-depth refused remaining (b ∷ rows) = elim (Bool-cases (is_void refused b)) [
  | inl void ↦ rw void (omega (arith, walk_levels-depth refused remaining rows))
  | inr held ↦ elim (Bool-cases ((remaining - min b.size remaining) == 0)) [
    | inl done ↦ rw (held, done) (ground arith)
    | inr more ↦
        rw (held, more)
          (omega (arith, walk_levels-depth refused (remaining - min b.size remaining) rows))
  ]
]

-- What holds of the rows' prices holds of the levels' prices, and no level has a refused price.
pub walk_levels-All :
    (P : ℕ → Type 0) (refused : ℕ → Bool) (remaining : ℕ) (rows : List Bid)
    → All (λ b. is_void refused b ≡ false → P b.price) rows
    → All (λ l. P l.0) (walk_levels refused remaining rows)
unfolding walk_levels
walk_levels-All P refused remaining [] h = tt
walk_levels-All P refused remaining (b ∷ rows) h = elim (Bool-cases (is_void refused b)) [
  | inl void ↦ rw void (walk_levels-All P refused remaining rows h.1)
  | inr held ↦ elim (Bool-cases ((remaining - min b.size remaining) == 0)) [
    | inl done ↦ rw (held, done) (h.0 held, tt)
    | inr more ↦
        rw (held, more)
          (h.0 held, walk_levels-All P refused (remaining - min b.size remaining) rows h.1)
  ]
]

pub last_price-All :
    (P : ℕ → Type 0) (levels : List (ℕ × ℕ)) (worst : ℕ)
    → All (λ l. P l.0) levels
    → last_price levels ≡ some worst
    → P worst
last_price-All P [] worst h e = absurd (cc)
last_price-All P (l ∷ []) worst h e = subst P (cc) h.0
last_price-All P (l ∷ m ∷ levels) worst h e = last_price-All P (m ∷ levels) worst h.1 e

pub last_price-some :
    (l : ℕ × ℕ) (levels : List (ℕ × ℕ)) → (w : ℕ) × (last_price (l ∷ levels) ≡ some w)
last_price-some l [] = (l.0, refl)
last_price-some l (m ∷ levels) = last_price-some m levels

pub last_price-none : (levels : List (ℕ × ℕ)) → last_price levels ≡ none → taken levels ≡ 0
last_price-none [] e = refl
last_price-none (l ∷ levels) e = let (w, q) = last_price-some l levels in absurd (cc)

lowest-cons :
    (l : ℕ × ℕ) (rest : List (ℕ × ℕ)) (worst : ℕ)
    → All (λ m. m.0 ≤ l.0) rest
    → (last_price rest ≡ some worst → All (λ m. worst ≤ m.0) rest)
    → last_price (l ∷ rest) ≡ some worst
    → All (λ m. worst ≤ m.0) (l ∷ rest)
lowest-cons l [] worst below h e = (ground arith, tt)
lowest-cons l (m ∷ rest) worst below h e =
    (last_price-All (λ p. p ≤ l.0) (m ∷ rest) worst below e, h e)

-- The last price is the worst one, where the rows stand from the best price down.
pub last_price-lowest :
    (refused : ℕ → Bool) (remaining : ℕ) (rows : List Bid) (worst : ℕ)
    → IsSorted bid_ge rows
    → last_price (walk_levels refused remaining rows) ≡ some worst
    → All (λ l. worst ≤ l.0) (walk_levels refused remaining rows)
unfolding walk_levels
last_price-lowest refused remaining [] worst sorted e = tt
last_price-lowest refused remaining (b ∷ rows) worst sorted e =
    elim (Bool-cases (is_void refused b)) [
      | inl void ↦ rw void (last_price-lowest refused remaining rows worst sorted.1 (rw void at e))
      | inr held ↦ elim (Bool-cases ((remaining - min b.size remaining) == 0)) [
        | inl done ↦
            rw (held, done)
              (lowest-cons (b.price, min b.size remaining) [] worst tt (λ _. tt)
                (rw (held, done) at e))
        | inr more ↦
            rw (held, more)
              (lowest-cons (b.price, min b.size remaining)
                (walk_levels refused (remaining - min b.size remaining) rows) worst
                (walk_levels-All (λ p. p ≤ b.price) refused _ rows
                  (All-map _ _ rows (λ c below _. leb→le _ _ below) sorted.0))
                (last_price-lowest refused (remaining - min b.size remaining) rows worst sorted.1)
                (rw (held, more) at e))
      ]
    ]

pub paid-All :
    (worst : ℕ) (levels : List (ℕ × ℕ))
    → All (λ l. worst ≤ l.0) levels
    → worst * taken levels ≤ paid levels
paid-All worst [] h = grind arith
paid-All worst (l ∷ levels) h = grind (arith, paid-All worst levels h.1)
