-- ===== src/Place/Planned.antt =====
-- engine/manager.py: the sides of a market come from its entries, and their plans.
use polymarket_rewards.Base.{
  ℕ, ◌≡◌, refl, ◌⊎◌, Option, none, some, List, [], ◌∷◌, All, Within, All-append,
}
use polymarket_rewards.Base.Sort.{sort_by}
use polymarket_rewards.Base.Text.{Text}
use polymarket_rewards.Gap.{Bid, bid_ge}
use polymarket_rewards.Tiers.{TierConf, tier_for}
use polymarket_rewards.Place.Holdings.{Held}
use polymarket_rewards.Place.World.{Candidate, Book, Exchange}
use polymarket_rewards.Place.Market.{
  MarketSide, ask_order, side_of, side_of_book, sides_of, budget_of,
}
use polymarket_rewards.Place.Rounds.{ladders_or_none, second_of, first_size}

-- The side is made from the book of the token of one of the market's entries.
abbrev pub IsOffered : Exchange → List Candidate → MarketSide → Type 0
IsOffered x entries s =
    (e : Candidate) × Within e entries
    × (e.token_id ≡ s.token_id)
    × (side_of_book e (x.get_orderbook e.token_id) ≡ s ∷ [])

-- The order is one of those that are planned for the token: with the tier and the balance of the market,
-- it is in the first plan for the token of the first side, and in the second for that of the second.
abbrev pub IsPlannedFor : Exchange → Held → Text → List Candidate → Text → ℕ × ℕ → Type 0
IsPlannedFor x held mid entries token order =
    (tier : TierConf) × (balance : ℕ) × (sa : MarketSide) × (sides : List MarketSide) × (tier_for
        x.template.size_tiers (first_size entries)
      ≡ some tier)
    × (x.get_balance mid ≡ some balance)
    × (sides_of x entries ≡ sa ∷ sides)
    × let (la, lb) =
        ladders_or_none x.template tier balance (budget_of x.template held mid balance) held.assets
          sa (second_of sides) in
      (s : MarketSide) × IsOffered x entries s
      × (s.token_id ≡ token)
      × (((sa ≡ s) × Within order la) ⊎ ((second_of sides ≡ some s) × Within order lb))

side_of-own :
    (e : Candidate) (tick : ℕ) (bids asks : List Bid)
    → All
        (λ (s : MarketSide). (e.token_id ≡ s.token_id) × (side_of e tick bids asks ≡ s ∷ []))
        (side_of e tick bids asks)
unfolding side_of
side_of-own e tick [] asks = tt
side_of-own e tick (b ∷ bids) [] = tt
side_of-own e tick (b ∷ bids) (a ∷ asks) = ((refl, refl), tt)

side_of_book-own :
    (e : Candidate) (book : Option Book)
    → All
        (λ (s : MarketSide). (e.token_id ≡ s.token_id) × (side_of_book e book ≡ s ∷ []))
        (side_of_book e book)
side_of_book-own e none = tt
side_of_book-own e (some ob) =
    side_of-own e ob.tick_size (sort_by bid_ge ob.bids) (sort_by ask_order ob.asks)

each-IsOffered :
    (x : Exchange) (all : List Candidate) (e : Candidate) (sides : List MarketSide)
    → Within e all
    → All
        (λ (s : MarketSide).
          (e.token_id ≡ s.token_id) × (side_of_book e (x.get_orderbook e.token_id) ≡ s ∷ []))
        sides
    → All (IsOffered x all) sides
each-IsOffered x all e [] h own = tt
each-IsOffered x all e (s ∷ sides) h (one, own) =
    ((e, h, one.0, one.1), each-IsOffered x all e sides h own)

pub sides_of-IsOffered :
    (x : Exchange) (all es : List Candidate)
    → All (λ (e : Candidate). Within e all) es
    → All (IsOffered x all) (sides_of x es)
unfolding sides_of
sides_of-IsOffered x all [] h = tt
sides_of-IsOffered x all (e ∷ es) (here, h) =
    let own = side_of_book e (x.get_orderbook e.token_id) in
    All-append (IsOffered x all) own (sides_of x es)
      (each-IsOffered x all e own here (side_of_book-own e (x.get_orderbook e.token_id)))
      (sides_of-IsOffered x all es h)
