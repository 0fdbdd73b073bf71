-- ===== src/Tiers/Defs.antt =====
-- engine/tiers.py: the check of the setting `size_tiers` and the lookup in it. A raw number is a signed
-- count of millionths, or `none` where Python cannot read it as one; a missing coefficient is 0.
use polymarket_rewards.Base.{
  ℕ, ◌+◌, ◌-◌, ◌/◌, ◌%◌, Bool, true, ◌&&◌, Option, none, some, List, [], ◌∷◌, map, ltb, ◌==◌,
  if◌then◌else◌, any, keep,
}
use polymarket_rewards.Base.Int.{ℤ, pos, negsuc}
use polymarket_rewards.Gap.{TableRow}

pub record RawTier : Type 0 where
  pub size : Option ℤ
  pub shares : Option ℤ
  pub enabled : Option Bool
  -- the values of `_TIER_COEFF_KEYS`, in its order
  pub coeffs : List (Option ℤ)
  -- `none` is a value that is not a list
  pub amount_value_table : Option (List TableRow)

pub record TierConf : Type 0 where
  pub size : ℕ
  pub enabled : Bool
  pub shares : ℕ
  pub coeffs : List ℕ
  pub amount_value_table : List TableRow

-- The messages, without the index and the values that they quote.
pub data TierError : Type 0 where
  not_a_list not_an_object not_whole not_positive repeated too_few_shares coeff_not_a_number
        coeff_negative bad_table :
      TierError

pub data Checked {ℓ} (A : Type ℓ) : Type ℓ where
  ok : A → Checked A
  error : TierError → Checked A

-- `int(x)` where it equals `float(x)`.
abbrev pub whole_number : Option ℤ → Option ℤ
whole_number none = none
whole_number (some (pos n)) = if (n % 1_000_000) == 0 then some (pos (n / 1_000_000)) else none
whole_number (some (negsuc n)) =
    if ((n + 1) % 1_000_000) == 0 then some (negsuc ((n + 1) / 1_000_000 - 1)) else none

-- The loop over the coefficient keys.
unfoldable pub check_coeffs : List (Option ℤ) → Checked (List ℕ)
check_coeffs [] = ok []
check_coeffs (none ∷ coeffs) = error coeff_not_a_number
check_coeffs (some (negsuc n) ∷ coeffs) = error coeff_negative
check_coeffs (some (pos n) ∷ coeffs) = elim (check_coeffs coeffs) [
  | ok rest ↦ ok (n ∷ rest)
  | error e ↦ error e
]

abbrev pub or_true : Option Bool → Bool
or_true none = true
or_true (some b) = b

-- An error ends the check.
abbrev pub bind_checked {ℓ κ} : {A : Type ℓ} {B : Type κ} → Checked A → (A → Checked B) → Checked B
bind_checked (ok a) f = f a
bind_checked (error e) f = error e

abbrev pub check_table : Option (List TableRow) → Checked (List TableRow)
check_table none = error bad_table
check_table (some table) = ok table

-- From the coefficients on.
unfoldable pub check_rest : RawTier → ℕ → ℕ → Checked TierConf
check_rest t size shares = bind_checked (check_coeffs t.coeffs) (λ coeffs.
    bind_checked (check_table t.amount_value_table) (λ table. ok (record {
      size = size;
      enabled = or_true t.enabled;
      shares = shares;
      coeffs = coeffs;
      amount_value_table = table;
    })))

abbrev pub is_size_in : ℕ → List ℕ → Bool
is_size_in n seen = any (λ m. m == n) seen

-- From the two numbers on; a number of shares below zero is below the size as well.
unfoldable pub check_numbers : List ℕ → RawTier → Option ℤ → Option ℤ → Checked TierConf
check_numbers seen t none shares = error not_whole
check_numbers seen t (some size) none = error not_whole
check_numbers seen t (some (negsuc n)) (some shares) = error not_positive
check_numbers seen t (some (pos size)) (some (negsuc m)) =
    if size == 0
    then error not_positive
    else if is_size_in size seen
    then error repeated
    else error too_few_shares
check_numbers seen t (some (pos size)) (some (pos shares)) =
    if size == 0
    then error not_positive
    else if is_size_in size seen
    then error repeated
    else if ltb shares size
    then error too_few_shares
    else check_rest t size shares

unfoldable pub check_tier : List ℕ → Option RawTier → Checked TierConf
check_tier seen none = error not_an_object
check_tier seen (some t) = check_numbers seen t (whole_number t.size) (whole_number t.shares)

-- The loop, with the sizes seen so far.
unfoldable pub check_tiers : List ℕ → List (Option RawTier) → Checked (List TierConf)
check_tiers seen [] = ok []
check_tiers seen (t ∷ raw) =
    bind_checked (check_tier seen t)
      (λ tier. bind_checked (check_tiers (tier.size ∷ seen) raw) (λ rest. ok (tier ∷ rest)))

unfoldable pub validate_size_tiers : Option (List (Option RawTier)) → Checked (List TierConf)
validate_size_tiers none = error not_a_list
validate_size_tiers (some raw) = check_tiers [] raw

-- On tiers that were checked; of other entries the code passes over those that it cannot read.
unfoldable pub tier_for : List TierConf → ℕ → Option TierConf
tier_for [] min_size = none
tier_for (t ∷ tiers) min_size =
    if t.enabled && (t.size == min_size) then some t else tier_for tiers min_size

unfoldable pub enabled_sizes : List TierConf → List ℕ
enabled_sizes tiers = map (λ t. t.size) (keep (λ t. t.enabled) tiers)
