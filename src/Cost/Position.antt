-- ===== src/Cost/Position.antt =====
-- engine/take_profit.py: a replayed history without overselling is the list of all purchases with
-- the shares sold and merged taken off its front.
use polymarket_rewards.Base.{
  ℕ, ◌+◌, ◌-◌, ◌≤◌, ◌<◌, ◌≡◌, refl, sym, ap, ◌∙◌, true, false, List, [], ◌∷◌, ◌++◌, arith, ◌==◌,
  if◌then◌else◌, sum_of, sum_of-append, some, is_empty,
}
use mathlib.Core.List.{append_assoc, append-nil}
use polymarket_rewards.Base.Sort.{sort_by, sum_of-sort_by}
use polymarket_rewards.Base.Amount.{within_tolerance}
use polymarket_rewards.Cost.Defs.{
  Fill, Lot, is_buy, is_sell, lot_of, consume, replay_fill, replay, consume_merges, recon_of,
  cost_sum_of, fill_le, position_lots, position_cost_with_lots,
}
use polymarket_rewards.Cost.Fifo.{consume-zero, recon-consume, consume-consume, consume-append}

-- What a fill adds to the queue, and the shares that it takes off.
unfoldable pub buys : Fill → List Lot
buys f = if f.size == 0 then [] else if is_buy f then lot_of f ∷ [] else []

unfoldable pub sold : Fill → ℕ
sold f = if is_buy f then 0 else if is_sell f then f.size else 0

unfoldable pub bought_lots : List Fill → List Lot
unfolding buys
bought_lots [] = []
bought_lots (f ∷ fs) = buys f ++ bought_lots fs

-- No sale is larger than what is held when it happens.
abbrev pub Covered : ℕ → List Fill → Type 0
Covered held [] = Unit
Covered held (f ∷ fs) = (sold f ≤ held) × Covered (held - sold f + recon_of (buys f)) fs

pub replay_fill-eq : (ls : List Lot) (f : Fill) → replay_fill ls f ≡ consume (sold f) ls ++ buys f
unfolding replay_fill buys sold
replay_fill-eq ls f = ground (arith, consume-zero ls, append-nil ls, append-nil (consume f.size ls))

replay-cons :
    (ls : List Lot) (f : Fill) (fs : List Fill) → replay ls (f ∷ fs) ≡ replay (replay_fill ls f) fs
unfolding replay
replay-cons ls f fs = refl

bought_lots-cons : (f : Fill) (fs : List Fill) → bought_lots (f ∷ fs) ≡ buys f ++ bought_lots fs
unfolding bought_lots
bought_lots-cons f fs = refl

regroup :
    (s t : ℕ) (ls ms ns : List Lot)
    → s ≤ recon_of ls
    → consume t ((consume s ls ++ ms) ++ ns) ≡ consume (s + t) (ls ++ (ms ++ ns))
regroup s t ls ms ns h =
    ap (consume t) (append_assoc (consume s ls) ms ns ∙ sym (consume-append s ls (ms ++ ns) h))
    ∙ consume-consume s t (ls ++ (ms ++ ns))

pub replay-eq :
    (ls : List Lot) (fs : List Fill)
    → Covered (recon_of ls) fs
    → replay ls fs ≡ consume (sum_of sold fs) (ls ++ bought_lots fs)
replay-eq ls [] h = unfold replay bought_lots in rw (append-nil ls) (sym (consume-zero ls))
replay-eq ls (f ∷ fs) h =
    let kept = consume (sold f) ls in
    let held : recon_of (kept ++ buys f) ≡ recon_of ls - sold f + recon_of (buys f) =
      omega (arith, sum_of-append (λ l. l.remaining) kept (buys f), recon-consume (sold f) ls) in
    let later : replay (kept ++ buys f) fs
        ≡ consume (sum_of sold fs) ((kept ++ buys f) ++ bought_lots fs) =
      replay-eq (kept ++ buys f) fs (rw held h.1) in
    replay-cons ls f fs
    ∙ ap (λ xs. replay xs fs) (replay_fill-eq ls f)
    ∙ later
    ∙ regroup (sold f) (sum_of sold fs) ls (buys f) (bought_lots fs) h.0
    ∙ ap (λ xs. consume (sum_of sold (f ∷ fs)) (ls ++ xs)) (sym (bought_lots-cons f fs))

pub consume_merges-eq :
    (ls : List Lot) (events : List ℕ)
    → consume_merges ls events ≡ consume (sum_of (λ a. a) events) ls
unfolding consume_merges
consume_merges-eq ls [] = sym (consume-zero ls)
consume_merges-eq ls (a ∷ events) =
    consume_merges-eq (consume a ls) events ∙ consume-consume a (sum_of (λ n. n) events) ls

pub position_lots-eq-consume :
    (fills : List Fill) (merges : List ℕ)
    → Covered 0 (sort_by fill_le fills)
    → position_lots fills merges
      ≡ consume (sum_of sold fills + sum_of (λ a. a) merges) (bought_lots (sort_by fill_le fills))
unfolding position_lots
position_lots-eq-consume fills merges h =
    let ordered = sort_by fill_le fills in
    consume_merges-eq (replay [] ordered) merges
    ∙ ap (consume (sum_of (λ a. a) merges)) (replay-eq [] ordered h)
    ∙ consume-consume (sum_of sold ordered) (sum_of (λ a. a) merges) (bought_lots ordered)
    ∙ ap (λ n. consume (n + sum_of (λ a. a) merges) (bought_lots ordered))
        (sum_of-sort_by fill_le sold fills)

recon-position_lots :
    (fills : List Fill) (merges : List ℕ)
    → Covered 0 (sort_by fill_le fills)
    → recon_of (position_lots fills merges)
      ≡ recon_of (bought_lots (sort_by fill_le fills))
        - (sum_of sold fills + sum_of (λ a. a) merges)
recon-position_lots fills merges h =
    ap recon_of (position_lots-eq-consume fills merges h) ∙ recon-consume _ _

cost_of_net :
    (fills : List Fill) (size : ℕ) (merges : List ℕ) (net : ℕ)
    → recon_of (position_lots fills merges) ≡ net
    → is_empty fills ≡ false
    → 0 < size
    → 0 < net
    → within_tolerance net size ≡ true
    → position_cost_with_lots fills size merges ≡ (
      some (record { num = cost_sum_of (position_lots fills merges); den = net }),
      position_lots fills merges,
    )
unfolding position_cost_with_lots
cost_of_net fills size merges net e filled sized held close = ground arith

nothing_bought : recon_of (bought_lots (sort_by fill_le [])) ≡ 0
unfolding sort_by bought_lots
nothing_bought = refl

-- Where no sale is larger than what is held, and the shares bought less those sold and merged are
-- at least one millionth and agree with the reported size within one share or one per cent, a
-- cost is returned: the average price of exactly that number of shares.
pub position_cost_total :
    (fills : List Fill) (size : ℕ) (merges : List ℕ)
    → Covered 0 (sort_by fill_le fills)
    → let net =
        recon_of (bought_lots (sort_by fill_le fills))
        - (sum_of sold fills + sum_of (λ a. a) merges) in
      0 < size
      → 0 < net
      → within_tolerance net size ≡ true
      → position_cost_with_lots fills size merges ≡ (
        some (record { num = cost_sum_of (position_lots fills merges); den = net }),
        position_lots fills merges,
      )
position_cost_total [] size merges h sized held close = absurd (omega (arith, nothing_bought))
position_cost_total (f ∷ fills) size merges h sized held close =
    cost_of_net (f ∷ fills) size merges _ (recon-position_lots (f ∷ fills) merges h) refl sized held
      close
