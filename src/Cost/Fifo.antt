-- ===== src/Cost/Fifo.antt =====
-- engine/take_profit.py: the FIFO queue. Consuming in parts is consuming the sum, and a purchase
-- that comes later does not change what an earlier sale takes.
use polymarket_rewards.Base.{
  ℕ, ◌+◌, ◌-◌, ◌≤◌, ◌≡◌, refl, ap, inl, inr, List, [], ◌∷◌, ◌++◌, arith, ◌==◌, Bool-cases, ◌<◌, min,
}
use native.Mathlib.Decide.{dec_lt}
use polymarket_rewards.Cost.Defs.{Lot, consume, recon_of}

pub consume-zero : (ls : List Lot) → consume 0 ls ≡ ls
unfolding consume
consume-zero [] = refl
consume-zero (l ∷ ls) = ground arith

-- The shares that are left are what was held, less what was taken.
pub recon-consume : (q : ℕ) (ls : List Lot) → recon_of (consume q ls) ≡ recon_of ls - q
unfolding consume
recon-consume q [] = omega arith
recon-consume q (l ∷ ls) = ground (arith, recon-consume (q - l.remaining) ls)

-- One turn of the loop: the first lot is popped, or it is cut.
pub consume-pop :
    (q : ℕ) (l : Lot) (ls : List Lot)
    → 0 < q
    → l.remaining ≤ q
    → consume q (l ∷ ls) ≡ consume (q - l.remaining) ls
unfolding consume
consume-pop q l ls h k =
    let e : min l.remaining q ≡ l.remaining = omega arith in rw e (ground arith)

pub consume-cut :
    (q : ℕ) (l : Lot) (ls : List Lot)
    → q < l.remaining
    → consume q (l ∷ ls) ≡ record l { remaining = l.remaining - q } ∷ ls
unfolding consume
consume-cut q l ls h =
    let e : min l.remaining q ≡ q = omega arith in
    rw e (elim (Bool-cases (q == 0)) [ inl z ↦ ground arith | inr nz ↦ ground arith ])

abbrev cut : Lot → ℕ → Lot
cut l q = record l { remaining = l.remaining - q }

consume-consume-cut :
    (a b : ℕ) (l : Lot) (ls : List Lot)
    → a < l.remaining
    → consume b (cut l a ∷ ls) ≡ consume (a + b) (l ∷ ls)
consume-consume-cut a b l ls h = elim (dec_lt b (l.remaining - a)) [
  | yes short ↦
      rw (consume-cut b (cut l a) ls short, consume-cut (a + b) l ls (omega arith)) (ground arith)
  | no long ↦
      rw
        (
          consume-pop b (cut l a) ls (omega arith) (omega arith),
          consume-pop (a + b) l ls (omega arith) (omega arith),
        )
        (ap (λ q. consume q ls) (omega arith))
]

-- Taking `a` and then `b` is taking `a + b`: a sale may be filled in parts.
pub consume-consume : (a b : ℕ) (ls : List Lot) → consume b (consume a ls) ≡ consume (a + b) ls
consume-consume a b [] = unfold consume in refl
consume-consume a b (l ∷ ls) = elim (dec_lt a l.remaining) [
  | yes short ↦ rw (consume-cut a l ls short) (consume-consume-cut a b l ls short)
  | no long ↦ elim (dec_lt 0 a) [
    | yes some_taken ↦
        rw
          (
            consume-pop a l ls some_taken (omega arith),
            consume-pop (a + b) l ls (omega arith) (omega arith),
            consume-consume (a - l.remaining) b ls,
          )
          (ap (λ q. consume q ls) (omega arith))
    | no nothing ↦
        let e : a ≡ 0 = omega arith in
        rw (e, consume-zero (l ∷ ls)) (ap (λ q. consume q (l ∷ ls)) (omega arith))
  ]
]

-- A purchase behind the shares that are taken is not touched.
pub consume-append :
    (q : ℕ) (ls ms : List Lot) → q ≤ recon_of ls → consume q (ls ++ ms) ≡ consume q ls ++ ms
unfolding consume
consume-append q [] ms h = let e : q ≡ 0 = omega arith in rw e (consume-zero ms)
consume-append q (l ∷ ls) ms h = ground (arith, consume-append (q - l.remaining) ls ms)
