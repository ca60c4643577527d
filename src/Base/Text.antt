-- ===== src/Base/Text.antt =====
-- Go strings as lists of characters: the code compares, joins, trims and searches whole characters.
-- The functions of Go's `strings` that it calls.
use Prim.Native.Nat.{ℕ, ◌+◌, ◌-◌}
use Prim.Native.Char.{code}
use Prim.Native.String.{String}
use mathlib.Core.Path.{◌≡◌, refl}
use mathlib.Core.Bool.{Bool, true, false, ◌&&◌, ◌||◌}
use mathlib.Core.Option.{Option, none, some}
use mathlib.Core.List.{List, [], ◌∷◌, ◌++◌, map, reverse}
use mathlib.Core.Logic.{ite}
use native.Mathlib.Decide.{ℕ_discrete}
use native.Mathlib.Omega.{arith}
use eksp.Base.Tests.{holds, leb, ◌==◌, if◌then◌else◌}

abbrev pub Str : Type 0
Str = List ℕ

abbrev pub codes : String → Str
codes String.[] = []
codes (String.◌∷◌ c s) = code c ∷ codes s

unfoldable pub Str-discrete : Discrete Str
unfolding ℕ_discrete
Str-discrete = hlevel ℕ_discrete

-- `strings.CutPrefix`: the rest, if the text begins with the prefix.
unfoldable pub cut_prefix : Str → Str → Option Str
cut_prefix s [] = some s
cut_prefix [] (p ∷ ps) = none
cut_prefix (c ∷ s) (p ∷ ps) = if c == p then cut_prefix s ps else none

abbrev pub starts_with : Str → Str → Bool
starts_with s [] = true
starts_with [] (p ∷ ps) = false
starts_with (c ∷ s) (p ∷ ps) = c == p && starts_with s ps

-- `strings.Contains`
unfoldable pub contains : Str → Str → Bool
contains [] p = starts_with [] p
contains (c ∷ s) p = starts_with (c ∷ s) p || contains s p

-- Outside ASCII, dotless i and long s are the letters whose upper case is an ASCII one; the upper cases
-- of others are left as they are, since what is compared with them is ASCII.
unfoldable pub upper : ℕ → ℕ
upper c =
    if leb b'a' c && leb c b'z'
    then c - 32
    else if c == 305
    then b'I'
    else if c == 383
    then b'S'
    else c

-- Likewise, with the Kelvin sign and the dotted I.
unfoldable pub lower : ℕ → ℕ
lower c =
    if leb b'A' c && leb c b'Z'
    then c + 32
    else if c == 8490
    then b'k'
    else if c == 304
    then b'i'
    else c

-- `strings.ToUpper`, `strings.ToLower`
unfoldable pub to_upper : Str → Str
unfolding upper
to_upper = map upper

pub to_upper-eq-nil : (s : Str) → to_upper s ≡ [] → s ≡ []
unfolding to_upper
to_upper-eq-nil [] h = refl
to_upper-eq-nil (c ∷ s) h = absurd (ground (arith, h))

unfoldable pub to_lower : Str → Str
unfolding lower
to_lower = map lower

-- `unicode.IsSpace`
abbrev is_space : ℕ → Bool
is_space c =
    c == 32
    || (leb 9 c && leb c 13)
    || c == 133
    || c == 160
    || c == 5760
    || (leb 8192 c && leb c 8202)
    || c == 8232
    || c == 8233
    || c == 8239
    || c == 8287
    || c == 12288

unfoldable pub trim_left : Str → Str
trim_left [] = []
trim_left (c ∷ s) = if is_space c then trim_left s else c ∷ s

-- `strings.TrimSpace`
unfoldable pub trim_space : Str → Str
unfolding trim_left
trim_space s = reverse (trim_left (reverse (trim_left s)))

pub starts_with-append : (p s : Str) → starts_with (p ++ s) p ≡ true
starts_with-append [] s = refl
starts_with-append (c ∷ p) s = ground (arith, starts_with-append p s)

-- A text that begins with `p`, or goes on with one that holds `p`, holds it.
pub contains_prefix : (p s : Str) → contains (p ++ s) p ≡ true
unfolding contains
contains_prefix [] [] = refl
contains_prefix [] (c ∷ s) = refl
contains_prefix (c ∷ p) s = ground (arith, starts_with-append (c ∷ p) s)

pub cut_prefix-append : (p s : Str) → cut_prefix (p ++ s) p ≡ some s
unfolding cut_prefix
cut_prefix-append [] s = refl
cut_prefix-append (c ∷ p) s = ground (arith, cut_prefix-append p s)

pub cut_prefix_sound : (s p : Str) {r : Str} → cut_prefix s p ≡ some r → s ≡ p ++ r
unfolding cut_prefix
cut_prefix_sound s [] h = ground arith
cut_prefix_sound [] (p ∷ ps) h = absurd (ground arith)
cut_prefix_sound (c ∷ s) (p ∷ ps) {r} h = ground (arith, cut_prefix_sound s ps {r = r})

-- `set[k]` for a `map[string]bool` that holds `true` at the listed keys.
unfoldable pub member : List Str → Str → Bool
member [] k = false
member (j ∷ js) k = holds (Str-discrete k j) || member js k

-- No text stands twice.
abbrev pub Distinct : List Str → Type 0
Distinct [] = Unit
Distinct (k ∷ ks) = (member ks k ≡ false) × Distinct ks

-- A Go map with text keys; a key that is not there is found nowhere.
unfoldable pub lookup {ℓ} : {V : Type ℓ} → Str → List (Str × V) → Option V
lookup k [] = none
lookup k ((j, v) ∷ m) = ite (Str-discrete k j) (some v) (lookup k m)
