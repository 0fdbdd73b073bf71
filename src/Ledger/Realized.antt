-- ===== src/Ledger/Realized.antt =====
-- engine/pnl.py: the profits and losses of all days account for what was bought, sold and is left.
use polymarket_rewards.Base.{
  ℕ, ◌+◌, ◌-◌, ◌*◌, ◌≡◌, refl, ap, inl, inr, List, [], ◌∷◌, arith, min, ◌==◌, ==_iff, Bool-cases,
  sum_of,
}
use polymarket_rewards.Base.Int.{ℤ, pos_part, neg_part, ◌+ℤ◌, +ℤ_parts, diff_times, sub_ℕ_parts}
use polymarket_rewards.Cost.{Lot, consume, recon_of, cost_sum_of}
use polymarket_rewards.Ledger.Consume.{price-add, price-split}
use polymarket_rewards.Ledger.Defs.{add_at}
use polymarket_rewards.Ledger.Pnl.{sell_loop}

-- A change of one day changes the sum over the days by as much.
pub sum_of-add_at {ℓ} :
    {A : Type ℓ} (g : A → ℕ) (start : A) (change : A → A) (n day : ℕ) (out : List (ℕ × A))
    → g start ≡ 0
    → ((x : A) → g (change x) ≡ g x + n)
    → sum_of (λ e. g e.1) (add_at start change day out) ≡ sum_of (λ e. g e.1) out + n
sum_of-add_at g start change n day [] z h = omega (arith, h start)
sum_of-add_at g start change n day (e ∷ out) z h = elim (Bool-cases (e.0 == day)) [
  | inl here ↦ rw here (omega (arith, h e.1))
  | inr there ↦ rw there (omega (arith, sum_of-add_at g start change n day out z h))
]

-- A sale leaves the same lots as the replay that reconstructs a position's cost.
pub sell_loop-consume :
    (price qty : ℕ) (acc : ℤ) (lots : List Lot)
    → (sell_loop price qty acc lots).1 ≡ consume qty lots
unfolding sell_loop consume
sell_loop-consume price qty acc [] = refl
sell_loop-consume price qty acc (l ∷ lots) =
    let next =
      sell_loop-consume price (qty - min l.remaining qty)
        (acc +ℤ diff_times price l.price (min l.remaining qty)) lots in
    elim (Bool-cases (qty == 0)) [
      | inl done ↦ rw done refl
      | inr more ↦ elim (Bool-cases ((l.remaining - min l.remaining qty) == 0)) [
        | inl popped ↦ rw (more, popped) next
        | inr cut ↦ rw (more, cut) refl
      ]
    ]

earned_parts :
    (acc : ℤ) (price paid used : ℕ)
    → let earned = acc +ℤ diff_times price paid used in
      pos_part earned + neg_part acc + paid * used ≡ neg_part earned + pos_part acc + price * used
earned_parts acc price paid used =
    omega
      (arith, +ℤ_parts acc (diff_times price paid used), sub_ℕ_parts (price * used) (paid * used))

-- What a sale realizes makes up its revenue and the cost that it takes from the lots.
abbrev pub Realizes : ℕ → ℕ → ℤ → List Lot → ℤ × List Lot → Type 0
Realizes price qty acc lots (realized, left) =
    pos_part realized + neg_part acc + cost_sum_of lots + price * recon_of left
    ≡ neg_part realized + pos_part acc + cost_sum_of left + price * recon_of lots

pub sell_loop-Realizes :
    (price qty : ℕ) (acc : ℤ) (lots : List Lot)
    → Realizes price qty acc lots (sell_loop price qty acc lots)
unfolding sell_loop
sell_loop-Realizes price qty acc [] = omega arith
sell_loop-Realizes price qty acc (l ∷ lots) =
    let used = min l.remaining qty in
    let earned = acc +ℤ diff_times price l.price used in
    let parts = earned_parts acc price l.price used in
    let next = sell_loop-Realizes price (qty - used) earned lots in
    let bought = price-split l.price used l.remaining (omega arith) in
    let sold = price-split price used l.remaining (omega arith) in
    elim (Bool-cases (qty == 0)) [
      | inl done ↦ rw done (omega arith)
      | inr more ↦ elim (Bool-cases ((l.remaining - used) == 0)) [
        | inl popped ↦
            let all : used ≡ l.remaining =
              let z = (==_iff (l.remaining - used) 0).0 popped in omega arith in
            let paid = ap (λ u. l.price * u) all in
            let earns = ap (λ u. price * u) all in
            let a = price-add price l.remaining (recon_of lots) in rw (more, popped) (omega arith)
        | inr cut ↦
            let a = price-add price l.remaining (recon_of lots) in
            let b = price-add price (l.remaining - used) (recon_of lots) in
            rw (more, cut) (omega arith)
      ]
    ]
