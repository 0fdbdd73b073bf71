-- ===== src/Place/Holdings.antt =====
-- engine/positions.py: `held_side_info`; engine/strategy.py: `reward_price_range`;
-- engine/resolution.py: `in_resolution`. A value is a product of a size and a price.
use polymarket_rewards.Base.{
  ℕ, ◌+◌, ◌-◌, ◌*◌, Bool, false, ◌&&◌, ◌||◌, not, Option, none, some, List, [], ◌∷◌, any, leb, ◌==◌,
  if◌then◌else◌, is_empty,
}
use polymarket_rewards.Base.Text.{Text, text_eq}

pub record Position : Type 0 where
  pub asset : Text
  pub condition_id : Text
  pub size : ℕ
  pub cur_price : ℕ

-- A dictionary of sums: what a key has so far, and `d[key] = d.get(key, 0.0) + n`.
unfoldable pub sum_at : Text → List (Text × ℕ) → ℕ
sum_at key [] = 0
sum_at key (e ∷ sums) = if text_eq e.0 key then e.1 else sum_at key sums

unfoldable pub add_sum : Text → ℕ → List (Text × ℕ) → List (Text × ℕ)
add_sum key n [] = (key, n) ∷ []
add_sum key n (e ∷ sums) = if text_eq e.0 key then (e.0, e.1 + n) ∷ sums else e ∷ add_sum key n sums

abbrev pub has_text : Text → List Text → Bool
has_text t ts = any (λ x. text_eq x t) ts

-- `set.add`
abbrev pub add_text : Text → List Text → List Text
add_text t ts = if has_text t ts then ts else t ∷ ts

pub record Held : Type 0 where
  pub assets : List Text
  pub value_by_market : List (Text × ℕ)
  pub shares_by_market : List (Text × ℕ)

-- The body of the loop over the positions.
unfoldable pub hold : Position → Held → Held
unfolding add_sum
hold p h = if p.size == 0 then h else record {
  assets = if is_empty p.asset then h.assets else add_text p.asset h.assets;
  value_by_market =
      if is_empty p.condition_id
      then h.value_by_market
      else add_sum p.condition_id (p.size * p.cur_price) h.value_by_market;
  shares_by_market =
      if is_empty p.condition_id
      then h.shares_by_market
      else add_sum p.condition_id p.size h.shares_by_market;
}

unfoldable pub hold_all : List Position → Held → Held
unfolding hold
hold_all [] h = h
hold_all (p ∷ ps) h = hold_all ps (hold p h)

unfoldable pub held_side_info : List Position → Held
unfolding hold_all
held_side_info positions =
    hold_all positions (record { assets = []; value_by_market = []; shares_by_market = [] })

-- The spread is in hundredths of a cent. A lower bound under 0 reads as 0, which no price is under.
unfoldable pub reward_price_range : ℕ → ℕ → ℕ × ℕ
reward_price_range midpoint max_spread = (midpoint - max_spread * 100, midpoint + max_spread * 100)

-- What `str.strip` takes off, of the ASCII characters.
abbrev pub is_space : ℕ → Bool
is_space c = (leb 9 c && leb c 13) || (leb 28 c && leb c 32)

unfoldable pub in_resolution : Option Text → Bool
in_resolution none = false
in_resolution (some uma_status) = any (λ c. not (is_space c)) uma_status
