-- ===== src/Base/Text.antt =====
-- Texts as lists of code points, with the ASCII case folding that the program applies to
-- hexadecimal addresses and to keywords such as `BUY` and `TAKER`.
use polymarket_rewards.Base.Tests.{leb, if◌then◌else◌, ◌==◌}
use Prim.Native.Nat.{ℕ, ◌+◌, ◌-◌}
use Prim.Native.Char.{code}
use Prim.Native.String.{String}
use mathlib.Core.Path.{◌≡◌, refl}
use mathlib.Core.Bool.{Bool, true, false, ◌&&◌}
use mathlib.Core.Option.{Option, none, some}
use mathlib.Core.List.{List, [], ◌∷◌, map}
use native.Mathlib.Omega.{arith}

abbrev pub Text : Type 0
Text = List ℕ

abbrev pub codes : String → Text
codes String.[] = []
codes (String.◌∷◌ c s) = code c ∷ codes s

abbrev pub text_eq : Text → Text → Bool
text_eq [] [] = true
text_eq [] (y ∷ ys) = false
text_eq (x ∷ xs) [] = false
text_eq (x ∷ xs) (y ∷ ys) = (x == y) && text_eq xs ys

-- Equality of keys that may be missing: `None == None`.
abbrev pub opt_eq : Option Text → Option Text → Bool
opt_eq none none = true
opt_eq none (some b) = false
opt_eq (some a) none = false
opt_eq (some a) (some b) = text_eq a b

-- A missing text field reads as the empty text.
abbrev pub or_blank : Option Text → Text
or_blank none = []
or_blank (some t) = t

abbrev to_lower : ℕ → ℕ
to_lower c = if leb b'A' c && leb c b'Z' then c + 32 else c

abbrev to_upper : ℕ → ℕ
to_upper c = if leb b'a' c && leb c b'z' then c - 32 else c

unfoldable pub lower : Text → Text
lower t = map to_lower t

unfoldable pub upper : Text → Text
upper t = map to_upper t

pub text_eq_refl : (t : Text) → text_eq t t ≡ true
text_eq_refl [] = refl
text_eq_refl (x ∷ xs) = ground (arith, text_eq_refl xs)

pub text_eq→≡ : (s t : Text) → text_eq s t ≡ true → s ≡ t
text_eq→≡ [] [] h = refl
text_eq→≡ [] (y ∷ ys) h = cc
text_eq→≡ (x ∷ xs) [] h = cc
text_eq→≡ (x ∷ xs) (y ∷ ys) h = ground (arith, text_eq→≡ xs ys)

pub opt_eq→≡ : (s t : Option Text) → opt_eq s t ≡ true → s ≡ t
opt_eq→≡ none none h = refl
opt_eq→≡ none (some b) h = cc
opt_eq→≡ (some a) none h = cc
opt_eq→≡ (some a) (some b) h = ground (arith, text_eq→≡ a b h)

to_lower_twice : (c : ℕ) → to_lower (to_lower c) ≡ to_lower c
to_lower_twice c = ground arith

pub lower_twice : (t : Text) → lower (lower t) ≡ lower t
unfolding lower
lower_twice [] = refl
lower_twice (c ∷ t) = ground (arith, to_lower_twice c, lower_twice t)
