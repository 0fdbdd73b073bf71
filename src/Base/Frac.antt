-- ===== src/Base/Frac.antt =====
-- Exact non-negative fractions: what the program's float quotients stand for. A fraction is not
-- reduced; two are compared by cross multiplication.
use polymarket_rewards.Base.Tests.{ltb, leb}
use Prim.Native.Nat.{ℕ, ◌+◌, ◌*◌, ◌<◌}
use mathlib.Core.Bool.{Bool}
use native.Mathlib.Omega.{arith}

pub record Frac : Type 0 where
  pub num : ℕ
  pub den : ℕ

-- Amounts of dollars and of shares are counted in millionths.
abbrev pub micro : ℕ
micro = 1_000_000

abbrev pub of_micro : ℕ → Frac
of_micro n = record { num = n; den = 1_000_000 }

abbrev pub zero_frac : Frac
zero_frac = record { num = 0; den = 1 }

abbrev pub add_frac : Frac → Frac → Frac
add_frac a b = record { num = a.num * b.den + b.num * a.den; den = a.den * b.den }

abbrev pub leb_frac : Frac → Frac → Bool
leb_frac a b = leb (a.num * b.den) (b.num * a.den)

abbrev pub ltb_frac : Frac → Frac → Bool
ltb_frac a b = ltb (a.num * b.den) (b.num * a.den)

abbrev pub IsFrac : Frac → Type 0
IsFrac a = 0 < a.den

pub add_frac-IsFrac : (a b : Frac) → IsFrac a → IsFrac b → IsFrac (add_frac a b)
add_frac-IsFrac a b h k = grind arith
