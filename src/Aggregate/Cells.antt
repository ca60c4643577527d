-- ===== src/Aggregate/Cells.antt =====
-- An independent description of the table that `aggregate` builds: the periods with a start, and in
-- each the amount of a key. Zero-filling against it.
use mathlib.Core.Logic.{ite}
use eksp.Base.{
  Bool-cases, inl, inr, ap, ℕ, zero, suc, ◌+◌, ◌-◌, ◌≤◌, Str, Str-discrete, length, length-append,
  length-replicate, replicate, List, [], ◌∷◌, ◌++◌, map, append_assoc, append-nil, Option, none,
  some, ◌≡◌, refl, Float, arith, member, Distinct, false, ltb, All,
}
use eksp.Explorer.{Group, ResultByTime}
use eksp.Aggregate.{start_of, Point, read_point, pad_loop, pad}

module _ {ℓ} {F : Type ℓ} ⦃fl : Float F⦄ where
  open fl use {nought, add}

  unfoldable pub points : List Group → List (Point F)
  points [] = []
  points (g ∷ gs) = elim (read_point {F = F} g) [ none ↦ points gs | some p ↦ p ∷ points gs ]

  -- Each period that has a start, with its points.
  unfoldable pub periods : List ResultByTime → List (Str × List (Point F))
  unfolding points start_of
  periods [] = []
  periods (r ∷ rs) = elim (start_of r) [
    | none ↦ periods rs
    | some start ↦ (start, points r.groups) ∷ periods rs
  ]

  -- No key stands twice in one period.
  abbrev pub AreDistinct : List (Str × List (Point F)) → Type 0
  AreDistinct = All (λ p. Distinct (map (λ x. x.key) p.1))

  unfoldable pub find_point : Str → List (Point F) → Option (Point F)
  find_point k [] = none
  find_point k (p ∷ ps) = ite (Str-discrete k p.key) (some p) (find_point k ps)

  unfoldable pub cell : Str → List (Point F) → F
  unfolding find_point
  cell k ps = elim (find_point k ps) [ none ↦ nought | some p ↦ p.amount ]

  -- The amounts of a key, a period each, 0 where it has none.
  unfoldable pub row : Str → List (Str × List (Point F)) → List F
  unfolding cell
  row k [] = []
  row k ((_, ps) ∷ rest) = cell k ps ∷ row k rest

  -- The same without the zeros.
  unfoldable pub amounts : Str → List (Str × List (Point F)) → List F
  unfolding find_point
  amounts k [] = []
  amounts k ((_, ps) ∷ rest) = elim (find_point k ps) [
    | none ↦ amounts k rest
    | some p ↦ p.amount ∷ amounts k rest
  ]

  pub find_point-eq-none :
      (k : Str) (ps : List (Point F))
      → member (map (λ x. x.key) ps) k ≡ false
      → find_point k ps ≡ none
  unfolding find_point member
  find_point-eq-none k [] h = refl
  find_point-eq-none k (p ∷ ps) h = ground (arith, find_point-eq-none k ps)

  pub length-row : (k : Str) (ps : List (Str × List (Point F))) → length (row k ps) ≡ length ps
  unfolding row
  length-row k [] = refl
  length-row k (p ∷ ps) = omega (arith, length-row k ps)

  pad_loop-append :
      (fuel t : ℕ) (vs : List F)
      → t ≤ length vs + fuel
      → pad_loop fuel t vs ≡ vs ++ replicate (t - length vs) nought
  unfolding pad_loop
  pad_loop-append zero t vs h = let e : t - length vs ≡ 0 = omega arith in rw (e, append-nil)
  pad_loop-append (suc fuel) t vs h = elim (Bool-cases (ltb (length vs) t)) [
    | inl short ↦
        let grown = vs ++ nought ∷ [] in
        let fewer : t - length vs ≡ suc (t - length grown) =
          ground (arith, length-append vs (nought ∷ [])) in
        rw (short, pad_loop-append fuel t grown (omega (arith, length-append vs (nought ∷ []))))
          (rw (append_assoc, fewer))
    | inr long ↦ rw (long, pad_loop-append fuel t vs (ground arith))
  ]

  -- Zero-filling adds zeros up to the length `t`.
  pub pad_lem : (t : ℕ) (vs : List F) → pad t vs ≡ vs ++ replicate (t - length vs) nought
  unfolding pad
  pad_lem t vs = pad_loop-append t t vs (omega arith)

  pub length-pad : (t : ℕ) (vs : List F) → length vs ≤ t → length (pad t vs) ≡ t
  length-pad t vs h = omega (
    arith,
    ap length (pad_lem t vs),
    length-append vs (replicate (t - length vs) nought),
    length-replicate (t - length vs) nought,
  )

  pub pad_full : (t : ℕ) (vs : List F) → t ≤ length vs → pad t vs ≡ vs
  pad_full t vs h = let e : t - length vs ≡ 0 = omega arith in rw (pad_lem t vs, e, append-nil)

  replicate-snoc : (n : ℕ) → replicate n nought ++ nought ∷ [] ≡ nought ∷ replicate n nought
  replicate-snoc zero = refl
  replicate-snoc (suc n) = ap (◌∷◌ nought) (replicate-snoc n)

  pub pad-suc : (t : ℕ) (vs : List F) → length vs ≤ t → pad (suc t) vs ≡ pad t vs ++ nought ∷ []
  pad-suc t vs h =
      let e : suc t - length vs ≡ suc (t - length vs) = omega arith in
      rw (pad_lem (suc t) vs, pad_lem t vs, append_assoc, replicate-snoc, e)
