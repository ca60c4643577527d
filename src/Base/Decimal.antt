-- ===== src/Base/Decimal.antt =====
-- Numbers in decimal, as `%d` and `strconv.Itoa` print them and `strconv.Atoi` reads them.
use Prim.Native.Nat.{ℕ, zero, suc, ◌+◌, ◌-◌, ◌*◌, ◌/◌, ◌%◌, ◌^◌, ◌≤◌, ◌<◌}
use mathlib.Core.Path.{◌≡◌, ap, sym, subst}
use mathlib.Core.Logic.{◌≢◌, ◌⊎◌}
use mathlib.Core.Bool.{◌||◌}
use mathlib.Core.Option
use mathlib.Core.Option.{Option, none, some}
use mathlib.Core.List.{[], ◌∷◌, ◌++◌, foldl, foldl-append}
use native.Mathlib.Omega.{arith}
use eksp.Base.Tests.{ltb, ◌==◌, if◌then◌else◌}
use eksp.Base.Text.{Str}
use eksp.Base.Lists.{All, All-append}
use eksp.Base.Cut.{Lacks}
use eksp.Base.Int.{ℤ, pos, negsuc}

-- The digits of `n`, most significant first; each round drops a digit, so `n` rounds are enough.
digits : ℕ → ℕ → Str
digits zero n = (b'0' + n % 10) ∷ []
digits (suc f) n =
    let more = digits f (n / 10) in
    if ltb n 10 then (b'0' + n) ∷ [] else more ++ (b'0' + n % 10) ∷ []

unfoldable pub decimal : ℕ → Str
unfolding digits
decimal n = digits n n

unfoldable pub decimal_ℤ : ℤ → Str
unfolding decimal
decimal_ℤ (pos n) = decimal n
decimal_ℤ (negsuc n) = b'-' ∷ decimal (suc n)

-- The number that digits spell behind `n`.
abbrev pub value : ℕ → Str → ℕ
value = foldl (λ n c. n * 10 + (c - b'0'))

unfoldable pub read_digits : Str → ℕ → Option ℕ
read_digits [] n = some n
read_digits (c ∷ s) n =
    if ltb c b'0' || ltb b'9' c then none else read_digits s (n * 10 + (c - b'0'))

unfoldable pub read_number : Str → Option ℕ
unfolding read_digits
read_number [] = none
read_number (c ∷ s) = read_digits (c ∷ s) 0

abbrev in_range : ℕ → ℕ → Option ℕ
in_range limit n = if ltb n limit then some n else none

negate : ℕ → ℤ
negate zero = pos 0
negate (suc n) = negsuc n

-- `strconv.Atoi`: an optional sign and digits; a number that no `int` holds is an error.
unfoldable pub atoi : Str → Option ℤ
unfolding read_number negate Option.bind
atoi [] = none
atoi (c ∷ s) =
    if c == b'-'
    then Option.bind (read_number s) (λ n. Option.map negate (in_range (2 ^ 63 + 1) n))
    else if c == b'+'
    then Option.bind (read_number s) (λ n. Option.map pos (in_range (2 ^ 63) n))
    else Option.bind (read_number (c ∷ s)) (λ n. Option.map pos (in_range (2 ^ 63) n))

value-digits : (f n : ℕ) → n < f + 10 → value 0 (digits f n) ≡ n
unfolding digits
value-digits zero n h = omega arith
value-digits (suc f) n h = ground (
  arith,
  value-digits f (n / 10),
  foldl-append (λ (n c : ℕ). n * 10 + (c - b'0')) 0 (digits f (n / 10)) ((b'0' + n % 10) ∷ []),
)

abbrev IsDigit : ℕ → Type 0
IsDigit c = (b'0' ≤ c) × (c ≤ b'9')

digits-IsDigit : (f n : ℕ) → All IsDigit (digits f n)
unfolding digits
digits-IsDigit zero n = omega arith
digits-IsDigit (suc f) n = ground (
  arith,
  All-append IsDigit (digits f (n / 10)) ((b'0' + n % 10) ∷ []) (digits-IsDigit f (n / 10))
      (omega arith),
)

All-IsDigit-Lacks : (c : ℕ) (s : Str) → c < b'0' ⊎ b'9' < c → All IsDigit s → Lacks c s
All-IsDigit-Lacks c [] far h = tt
All-IsDigit-Lacks c (d ∷ s) far (h, hs) = (omega arith, All-IsDigit-Lacks c s far hs)

pub value-decimal : (n : ℕ) → value 0 (decimal n) ≡ n
unfolding decimal
value-decimal n = value-digits n n (omega arith)

decimal-injective : (m n : ℕ) → decimal m ≡ decimal n → m ≡ n
decimal-injective m n e = cc (value-decimal m, value-decimal n, ap (value 0) e)

signed_apart : (m n : ℕ) → decimal m ≢ b'-' ∷ decimal n
unfolding decimal
signed_apart m n e =
    let h = subst (All IsDigit) e (digits-IsDigit m m) in absurd (omega (arith, h.0))

-- Different integers print differently.
pub decimal_ℤ-injective : (a b : ℤ) → decimal_ℤ a ≡ decimal_ℤ b → a ≡ b
unfolding decimal_ℤ
decimal_ℤ-injective (pos m) (pos n) e = ap pos (decimal-injective m n e)
decimal_ℤ-injective (pos m) (negsuc n) e = absurd (signed_apart m (suc n) e)
decimal_ℤ-injective (negsuc m) (pos n) e = absurd (signed_apart n (suc m) (sym e))
decimal_ℤ-injective (negsuc m) (negsuc n) e =
    let h = decimal-injective (suc m) (suc n) (cc) in ap negsuc (omega arith)

pub decimal_ℤ-Lacks : (c : ℕ) (a : ℤ) → c ≢ b'-' → c < b'0' ⊎ b'9' < c → Lacks c (decimal_ℤ a)
unfolding decimal_ℤ decimal
decimal_ℤ-Lacks c (pos n) h far = All-IsDigit-Lacks c _ far (digits-IsDigit n n)
decimal_ℤ-Lacks c (negsuc n) h far =
    (λ e. h (sym e), All-IsDigit-Lacks c _ far (digits-IsDigit (suc n) (suc n)))
