-- ===== src/Base/Cut.antt =====
-- Texts that lack a character, and how a text is cut at it in one way only.
use mathlib.Core.Path.{◌≡◌, refl, ap}
use mathlib.Core.Logic.{◌≢◌}
use mathlib.Core.List.{[], ◌∷◌, ◌++◌, reverse, reverse-append, append_assoc, reverse-reverse}
use Prim.Native.Nat.{ℕ}
use native.Mathlib.Omega.{arith}
use eksp.Base.Text.{Str}
use eksp.Base.Lists.{All, All-append}

abbrev pub Lacks : ℕ → Str → Type 0
Lacks c = All (λ d. d ≢ c)

pub reverse-Lacks : (c : ℕ) (s : Str) → Lacks c s → Lacks c (reverse s)
reverse-Lacks c [] h = tt
reverse-Lacks c (d ∷ s) (h, hs) =
    rw (reverse-append (d ∷ []) s)
      (All-append _ (reverse s) (d ∷ []) (reverse-Lacks c s hs) (h, tt))

-- Cut at its first `c`, a text has one beginning and one rest.
pub cut_unique :
    (c : ℕ) (a b s t : Str) → Lacks c a → Lacks c b → a ++ c ∷ s ≡ b ++ c ∷ t → (a ≡ b) × (s ≡ t)
cut_unique c [] [] s t ha hb e = (refl, cc)
cut_unique c [] (y ∷ b) s t ha hb e = absurd (hb.0 (cc))
cut_unique c (x ∷ a) [] s t ha hb e = absurd (ha.0 (cc))
cut_unique c (x ∷ a) (y ∷ b) s t ha hb e = ground (arith, cut_unique c a b s t ha.1 hb.1)

reverse-cut : (c : ℕ) (s d : Str) → reverse (s ++ c ∷ d) ≡ reverse d ++ c ∷ reverse s
reverse-cut c s d = rw (reverse-append s (c ∷ d), reverse-append (c ∷ []) d, append_assoc)

-- Cut at its last `c`, too.
pub cut_last_unique :
    (c : ℕ) (a b s t : Str) → Lacks c s → Lacks c t → a ++ c ∷ s ≡ b ++ c ∷ t → (a ≡ b) × (s ≡ t)
cut_last_unique c a b s t hs ht e =
    let (p, q) =
      cut_unique c (reverse s) (reverse t) (reverse a) (reverse b) (reverse-Lacks c s hs)
        (reverse-Lacks c t ht) (rw (← reverse-cut c a s, ← reverse-cut c b t) (ap reverse e)) in
    (
      rw (reverse-reverse, reverse-reverse) at (ap reverse q),
      rw (reverse-reverse, reverse-reverse) at (ap reverse p),
    )
