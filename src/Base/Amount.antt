-- ===== src/Base/Amount.antt =====
-- Distance of two amounts and the one-share-or-percentage tolerance that the program compares
-- amounts of shares by. Amounts are in millionths.
use polymarket_rewards.Base.Tests.{leb, ltb, ◌==◌, if◌then◌else◌}
use Prim.Native.Nat.{ℕ, ◌+◌, ◌-◌, ◌*◌, ◌/◌, ◌%◌, max}
use mathlib.Core.Bool.{Bool}

-- `abs(a - b)`
abbrev pub abs_diff : ℕ → ℕ → ℕ
abs_diff a b = (a - b) + (b - a)

-- `abs(a - b) <= max(1.0, 0.01 * b)`
abbrev pub within_tolerance : ℕ → ℕ → Bool
within_tolerance a b = leb (100 * abs_diff a b) (max 100_000_000 b)

-- `round(n / d)`: to the nearest, a tie to the even one.
unfoldable pub round_div : ℕ → ℕ → ℕ
round_div n d =
    if ltb (2 * (n % d)) d
    then n / d
    else if ltb d (2 * (n % d))
    then n / d + 1
    else if (n / d % 2) == 0
    then n / d
    else n / d + 1
