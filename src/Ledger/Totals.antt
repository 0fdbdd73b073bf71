-- ===== src/Ledger/Totals.antt =====
-- engine/pnl.py: the profits and losses of all days account for what was bought, sold and is left.
use polymarket_rewards.Base.{
  ℕ, ◌+◌, ◌-◌, ◌*◌, ◌≤◌, ◌≡◌, refl, ap, ◌∙◌, inl, inr, List, [], ◌∷◌, ◌++◌, arith, ◌==◌, ==_iff,
  if◌then◌else◌, Bool-cases, sum_of, keep, sum_of-append,
}
use polymarket_rewards.Base.Int.{ℤ, pos, negsuc, pos_part, neg_part}
use polymarket_rewards.Base.Sort.{sort_by, sum_of-sort_by}
use polymarket_rewards.Cost.{
  Fill, Lot, is_buy, is_sell, lot_of, consume, replay_fill, replay, recon_of, cost_sum_of, fill_le,
}
use polymarket_rewards.Cost.Fifo.{recon-consume}
use polymarket_rewards.Ledger.Consume.{price-split}
use polymarket_rewards.Ledger.Defs.{beijing_day}
use polymarket_rewards.Ledger.Pnl.{
  DayPnl, zero_day, Days, sell_loop, add_fee, add_realized, sell_fill, pnl_fill, pnl_fills, is_busy,
  realized_pnl_by_day, fee_from_fill,
}
use polymarket_rewards.Ledger.Realized.{sum_of-add_at, sell_loop-consume, sell_loop-Realizes}

abbrev pub profit_in : Days → ℕ
profit_in out = sum_of (λ e. e.1.sell_profit) out

abbrev pub loss_in : Days → ℕ
loss_in out = sum_of (λ e. e.1.loss) out

abbrev cost_if_buy : Fill → ℕ
cost_if_buy f = if is_buy f then f.price * f.size else 0

-- What the purchases have cost, in any order.
abbrev pub bought_cost : List Fill → ℕ
bought_cost fills = sum_of cost_if_buy fills

-- What the sales have brought: each sells the shares by which it makes the queue shorter.
abbrev pub revenue : List Lot → List Fill → ℕ
revenue lots [] = 0
revenue lots (f ∷ fs) =
    f.price * (recon_of lots - recon_of (replay_fill lots f)) + revenue (replay_fill lots f) fs

add_fee_same :
    (out : Days) (f : Fill)
    → (profit_in (add_fee out f) ≡ profit_in out) × (loss_in (add_fee out f) ≡ loss_in out)
unfolding add_fee
add_fee_same out f = elim (Bool-cases (fee_from_fill f == 0)) [
  | inl free ↦ rw free (refl, refl)
  | inr paid ↦
      let p =
        sum_of-add_at (λ d. d.sell_profit) zero_day
          (λ d. record d { fee = d.fee + fee_from_fill f }) 0 (beijing_day f.ts) out refl
          (λ d. omega arith) in
      let l =
        sum_of-add_at (λ d. d.loss) zero_day (λ d. record d { fee = d.fee + fee_from_fill f }) 0
          (beijing_day f.ts) out refl (λ d. omega arith) in
      rw paid (omega arith, omega arith)
]

add_realized_parts :
    (day : ℕ) (r : ℤ) (out : Days)
    → profit_in (add_realized day r out) + neg_part r + loss_in out
      ≡ loss_in (add_realized day r out) + pos_part r + profit_in out
unfolding add_realized
add_realized_parts day (pos n) out =
    let change : DayPnl → DayPnl = λ d. record d { sell_profit = d.sell_profit + n } in
    let p = sum_of-add_at (λ d. d.sell_profit) zero_day change n day out refl (λ d. refl) in
    let l = sum_of-add_at (λ d. d.loss) zero_day change 0 day out refl (λ d. omega arith) in
    omega arith
add_realized_parts day (negsuc n) out =
    let change : DayPnl → DayPnl = λ d. record d { loss = d.loss + (n + 1) } in
    let p = sum_of-add_at (λ d. d.sell_profit) zero_day change 0 day out refl (λ d. omega arith) in
    let l = sum_of-add_at (λ d. d.loss) zero_day change (n + 1) day out refl (λ d. refl) in
    omega arith

-- What one fill adds: profits and purchases on one side, losses, revenue and lots on the other.
abbrev Adds : Fill → Days → List Lot → Days × List Lot → Type 0
Adds f out lots (out2, lots2) =
    (lots2 ≡ replay_fill lots f)
    × (profit_in out2 + loss_in out + cost_sum_of lots + cost_if_buy f
        ≡ profit_in out
          + loss_in out2
          + cost_sum_of lots2
          + f.price * (recon_of lots - recon_of lots2))

sell_fill-Adds :
    (out : Days) (lots : List Lot) (f : Fill)
    → let (out2, lots2) = sell_fill out lots f in
      (lots2 ≡ consume f.size lots)
      × (profit_in out2 + loss_in out + cost_sum_of lots
          ≡ profit_in out
            + loss_in out2
            + cost_sum_of lots2
            + f.price * (recon_of lots - recon_of lots2))
unfolding sell_fill consume
sell_fill-Adds out [] f = (refl, grind arith)
sell_fill-Adds out (l ∷ lots) f =
    let queue = l ∷ lots in
    let (r, left) = sell_loop f.price f.size (pos 0) queue in
    let same : left ≡ consume f.size queue = sell_loop-consume f.price f.size (pos 0) queue in
    let fewer : recon_of left ≡ recon_of queue - f.size =
      ap recon_of same ∙ recon-consume f.size queue in
    let parts = add_realized_parts (beijing_day f.ts) r out in
    let realizes = sell_loop-Realizes f.price f.size (pos 0) queue in
    let sold = price-split f.price (recon_of left) (recon_of queue) (omega arith) in
    (same, omega arith)

times-sub_zero : (p a b : ℕ) → a ≤ b → p * (a - b) ≡ 0
times-sub_zero p a b h = let z : a - b ≡ 0 = omega arith in rw z (grind arith)

cost_if_buy-void : (f : Fill) → f.size ≡ 0 → cost_if_buy f ≡ 0
cost_if_buy-void f z = elim (Bool-cases (is_buy f)) [
  | inl buy ↦ rw (buy, z) (grind arith)
  | inr other ↦ rw other refl
]

pnl_fill-Adds : (out : Days) (lots : List Lot) (f : Fill) → Adds f out lots (pnl_fill (out, lots) f)
unfolding pnl_fill replay_fill
pnl_fill-Adds out lots f =
    let (p, l) = add_fee_same out f in
    let none_sold = times-sub_zero f.price (recon_of lots) (recon_of lots) (omega arith) in
    elim (Bool-cases (f.size == 0)) [
      | inl void ↦
          let free = cost_if_buy-void f ((==_iff f.size 0).0 void) in rw void (refl, omega arith)
      | inr some_shares ↦ elim (Bool-cases (is_buy f)) [
        | inl buy ↦
            let one = lot_of f ∷ [] in
            let cost = sum_of-append (λ l. l.price * l.remaining) lots one in
            let longer = sum_of-append (λ l. l.remaining) lots one in
            let none_cut =
              times-sub_zero f.price (recon_of lots) (recon_of (lots ++ one)) (omega arith) in
            rw (some_shares, buy) (refl, omega arith)
        | inr not_buy ↦ elim (Bool-cases (is_sell f)) [
          | inl sell ↦
              let (left, sold) = sell_fill-Adds (add_fee out f) lots f in
              rw (some_shares, not_buy, sell) (left, omega arith)
          | inr other ↦ rw (some_shares, not_buy, other) (refl, omega arith)
        ]
      ]
    ]

pnl_fills-adds :
    (out : Days) (lots : List Lot) (fills : List Fill)
    → let (out2, lots2) = pnl_fills (out, lots) fills in
      (lots2 ≡ replay lots fills)
      × (profit_in out2 + loss_in out + cost_sum_of lots + bought_cost fills
          ≡ profit_in out + loss_in out2 + cost_sum_of lots2 + revenue lots fills)
unfolding pnl_fills replay
pnl_fills-adds out lots [] = (refl, omega arith)
pnl_fills-adds out lots (f ∷ fills) =
    let (same, one) = pnl_fill-Adds out lots f in
    let (out1, lots1) = pnl_fill (out, lots) f in
    let (rest, sums) = pnl_fills-adds out1 lots1 fills in
    let left : revenue lots1 fills ≡ revenue (replay_fill lots f) fills =
      ap (λ ls. revenue ls fills) same in
    let cut : f.price * (recon_of lots - recon_of lots1)
        ≡ f.price * (recon_of lots - recon_of (replay_fill lots f)) =
      ap (λ ls. f.price * (recon_of lots - recon_of ls)) same in
    (rest ∙ ap (λ ls. replay ls fills) same, omega arith)

profit_in-is_busy : (out : Days) → profit_in (keep is_busy out) ≡ profit_in out
profit_in-is_busy [] = refl
profit_in-is_busy (e ∷ out) = ground (arith, profit_in-is_busy out)

loss_in-is_busy : (out : Days) → loss_in (keep is_busy out) ≡ loss_in out
loss_in-is_busy [] = refl
loss_in-is_busy (e ∷ out) = ground (arith, loss_in-is_busy out)

-- Over all days, the sale profits and the cost of all purchases make up the losses, the revenue of
-- all sales and the cost of the lots that the position-cost replay of the same fills has left.
pub realized_pnl_by_day_conserves :
    (fills : List Fill)
    → let out = realized_pnl_by_day fills in
      let ordered = sort_by fill_le fills in
      profit_in out + bought_cost fills
      ≡ loss_in out + revenue [] ordered + cost_sum_of (replay [] ordered)
unfolding realized_pnl_by_day
realized_pnl_by_day_conserves fills =
    let ordered = sort_by fill_le fills in
    let (left, sums) = pnl_fills-adds [] [] ordered in
    let all = (pnl_fills ([], []) ordered).0 in
    omega (
      arith,
      ap cost_sum_of left,
      profit_in-is_busy all,
      loss_in-is_busy all,
      sum_of-sort_by fill_le cost_if_buy fills,
    )
