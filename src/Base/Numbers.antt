-- ===== src/Base/Numbers.antt =====
-- Go's `float64`, which the proof checker does not have: any type with the operations that the code
-- applies to its amounts.
use mathlib.Core.Bool.{Bool}
use mathlib.Core.Option.{Option}
use mathlib.Core.Path.{◌≡◌}
use mathlib.Core.Logic.{◌⊎◌}
use mathlib.Core.Bool.{true, false}
use eksp.Base.Text.{Str}

pub record Float {ℓ} (F : Type ℓ) : Type ℓ where
  pub nought : F
  pub add : F → F → F
  pub sub : F → F → F
  pub mul : F → F → F
  pub div : F → F → F
  pub neg : F → F
  pub hundred : F
  pub lt : F → F → Bool
  -- `strconv.ParseFloat(s, 64)`; `none` is its error
  pub parse_float : Str → Option F

-- What IEEE 754 says of `<`, NaN included: it is asymmetric, and a number that is not NaN stands on
-- one side at least of any gap.
pub record IsOrdered {ℓ} (F : Type ℓ) ⦃fl : Float F⦄ : Type ℓ where
  pub is_number : F → Bool
  pub lt_asymm : (a b : F) → fl.lt a b ≡ true → fl.lt b a ≡ false
  pub lt_split :
      (a b c : F) → is_number b ≡ true → fl.lt a c ≡ true → (fl.lt a b ≡ true) ⊎ (fl.lt b c ≡ true)
