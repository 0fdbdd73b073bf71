-- ===== src/Place/Exposure.antt =====
-- engine/manager.py: what a round sends for one market stays within the limits of the market.
use polymarket_rewards.Base.{ℕ, ◌+◌, ◌*◌, ◌≤◌, ◌≡◌, ◌⊎◌, false, some, List, ◌++◌, min, All, sum_of}
use polymarket_rewards.Base.Text.{Text}
use polymarket_rewards.Place.Holdings.{Held, sum_at}
use polymarket_rewards.Place.World.{Candidate, PlaceTemplate, Exchange, Sent, Round}
use polymarket_rewards.Place.Market.{whole_shares, Budget}
use polymarket_rewards.Place.Rounds.{is_barred}
use polymarket_rewards.Place.Sends.{buy_cost, buy_shares, IsProper}
use polymarket_rewards.Place.Planned.{IsPlannedFor}

-- With the value and the shares that are held, the market stays within its limits and the balance.
abbrev pub WithinLimits : PlaceTemplate → Held → Text → (balance usd shares : ℕ) → Type 0
WithinLimits t held mid balance usd shares =
    (usd * 1_000_000 + sum_at mid held.value_by_market ≤ min balance t.max_exposure_usd * 1_000_000)
    × (shares + whole_shares (sum_at mid held.shares_by_market) ≤ t.max_exposure_shares)

-- What is sent for a market is cancellations and planned purchases of tokens that are not held; and
-- either nothing is bought, or the market was not barred, and what is bought is within its limits.
abbrev pub IsServed : Exchange → Held → Text → List Candidate → Round → Round → Type 0
IsServed x held mid entries r after =
    (new : List Sent) × (after.sent ≡ r.sent ++ new)
    × All (IsProper held.assets mid (IsPlannedFor x held mid entries)) new
    × ((sum_of buy_cost new + sum_of buy_shares new ≡ 0)
        ⊎ ((is_barred x mid ≡ false)
            × (balance : ℕ) × (x.get_balance mid ≡ some balance)
            × WithinLimits x.template held mid balance (sum_of buy_cost new)
                (sum_of buy_shares new)))
