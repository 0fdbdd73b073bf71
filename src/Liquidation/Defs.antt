-- ===== src/Liquidation/Defs.antt =====
-- engine/liquidation.py. A loss may be negative; one that is not known stands after all others.
use polymarket_rewards.Base.{
  ℕ, ◌+◌, Bool, true, false, Option, none, some, List, ◌++◌, map, leb, ltb, ◌==◌, if◌then◌else◌,
  keep,
}
use polymarket_rewards.Base.Sort.{sort_by}
use polymarket_rewards.Base.Int.{ℤ, pos_part, neg_part}
use polymarket_rewards.Base.Text.{Text}

pub record Candidate : Type 0 where
  pub asset_id : Text
  pub size : ℕ
  pub daily_reward : Option ℕ
  pub loss : Option ℤ

abbrev pub is_low_reward : ℕ → Option ℕ → Bool
is_low_reward threshold none = false
is_low_reward threshold (some reward) = ltb reward threshold

-- The list that the loop puts the candidate on.
unfoldable pub tier_of : ℕ → ℕ → Candidate → ℕ
tier_of low_reward small_shares c =
    if is_low_reward low_reward c.daily_reward then 1 else if ltb c.size small_shares then 2 else 3

abbrev pub loss_key_le : Option ℤ → Option ℤ → Bool
loss_key_le none none = true
loss_key_le none (some b) = false
loss_key_le (some a) none = true
loss_key_le (some a) (some b) = leb (pos_part a + neg_part b) (pos_part b + neg_part a)

abbrev pub loss_le : Candidate → Candidate → Bool
loss_le a b = loss_key_le a.loss b.loss

abbrev pub on_tier : ℕ → ℕ → ℕ → Candidate → Bool
on_tier low_reward small_shares k c = tier_of low_reward small_shares c == k

unfoldable pub sorted_tier : ℕ → ℕ → ℕ → List Candidate → List Candidate
sorted_tier low_reward small_shares k candidates =
    sort_by loss_le (keep (on_tier low_reward small_shares k) candidates)

unfoldable pub ordered : ℕ → ℕ → List Candidate → List Candidate
ordered low_reward small_shares candidates =
    sorted_tier low_reward small_shares 1 candidates
    ++ (sorted_tier low_reward small_shares 2 candidates
        ++ sorted_tier low_reward small_shares 3 candidates)

unfoldable pub plan_liquidation : List Candidate → ℕ → ℕ → List Text
plan_liquidation candidates low_reward small_shares =
    map (λ c. c.asset_id) (ordered low_reward small_shares candidates)
