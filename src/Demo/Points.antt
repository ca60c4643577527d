-- ===== src/Demo/Points.antt =====
-- No period of the demo client's answer names a key twice.
use mathlib.Core.Option
use mathlib.Core.Logic.{ite}
use eksp.Base.{
  Str, codes, Str-discrete, lookup, member, Distinct, List, [], ◌∷◌, map, false, if◌then◌else◌,
  none, some, Option-cases, ◌≡◌, refl, ap, ◌∙◌, ◌⊎◌, inl, inr, arith, pos, Float,
}
use eksp.Aggregate.{Point, read_point, start_of}
use eksp.Aggregate.Cells.{points, periods, AreDistinct}
use eksp.Wave.{Math, demo_keys, demo_services, wave}
use eksp.Demo.{Period, base_of, is_hourly, group_of_key, emit}

ite-Distinct :
    {F P : Type 0} (d : Dec P) (xs ys : List (Str × F))
    → Distinct (map (λ p. p.0) xs)
    → Distinct (map (λ p. p.0) ys)
    → Distinct (map (λ p. p.0) (ite d xs ys))
ite-Distinct (yes e) xs ys h k = h
ite-Distinct (no ne) xs ys h k = k

-- Each table of the demo names a key once.
pub demo_keys-Distinct :
    (F : Type 0) ⦃fl : Float F⦄ ⦃m : Math F⦄ (group_by : Str)
    → Distinct (map (λ p. p.0) (demo_keys {F = F} group_by))
unfolding demo_keys demo_services member Str-discrete
demo_keys-Distinct F group_by =
    ite-Distinct (Str-discrete group_by (codes "REGION")) _ _ (refl, (refl, (refl, tt)))
      (ite-Distinct (Str-discrete group_by (codes "LINKED_ACCOUNT")) _ _ (refl, tt)
        (ite-Distinct (Str-discrete group_by (codes "USAGE_TYPE")) _ _
          (refl, (refl, (refl, (refl, (refl, (refl, tt))))))
          (ite-Distinct (Str-discrete group_by (codes "RESOURCE_ID")) _ _
            (refl, (refl, (refl, (refl, (refl, (refl, tt))))))
            (
              refl,
              (
                refl,
                (
                  refl,
                  (
                    refl,
                    (
                      refl,
                      (refl, (refl, (refl, (refl, (refl, (refl, (refl, (refl, (refl, tt))))))))),
                    ),
                  ),
                ),
              ),
            ))))

module _ {F : Type 0} ⦃fl : Float F⦄ ⦃m : Math F⦄ where
  open fl use {mul, div, parse_float}
  open m use {whole, format_float}

  -- The amount that stands for a key in a period.
  abbrev amount_text : Str → List (Str × F) → Period F → Str → Str
  amount_text granularity keys p key =
      let amount = mul (mul (base_of keys key) p.scale) (wave key p.start) in
      format_float 6 (if is_hourly granularity then div amount (whole (pos 24)) else amount)

  read_point-group_of_key :
      (granularity : Str) (keys : List (Str × F)) (p : Period F) (key : Str)
      → (read_point {F = F} (group_of_key granularity keys p key) ≡ none)
        ⊎ ((x : Point F) × (read_point (group_of_key granularity keys p key) ≡ some x)
            × (x.key ≡ key))
  unfolding read_point group_of_key lookup Option.bind Str-discrete
  read_point-group_of_key granularity keys p key =
      elim (Option-cases (parse_float (amount_text granularity keys p key))) [
        | inl e ↦ inl (rw (read_point, group_of_key, e) refl)
        | inr (v, e) ↦ inr (
          record { key = key; amount = v; unit = some (codes "USD") },
          rw (read_point, group_of_key, e) refl,
          refl,
        )
      ]

  module _ (granularity : Str) (keys : List (Str × F)) (p : Period F) where
    abbrev named : List Str → List Str
    named names = map (λ x. x.key) (points {F = F} (map (group_of_key granularity keys p) names))

    member-named :
        (names : List Str) (k : Str) → member names k ≡ false → member (named names) k ≡ false
    unfolding member points
    member-named [] k h = refl
    member-named (n ∷ names) k h = elim (read_point-group_of_key granularity keys p n) [
      | inl e ↦ rw (points, e) (member-named names k (ground (arith, h)))
      | inr (x, e, same) ↦ rw (points, e) (ground (arith, h, same, member-named names k))
    ]

    named-Distinct : (names : List Str) → Distinct names → Distinct (named names)
    unfolding points
    named-Distinct [] h = tt
    named-Distinct (n ∷ names) h = elim (read_point-group_of_key granularity keys p n) [
      | inl e ↦ rw (points, e) (named-Distinct names h.1)
      | inr (x, e, same) ↦
          rw (points, e)
            (ap (member (named names)) same ∙ member-named names n h.0, named-Distinct names h.1)
    ]

  pub emit-AreDistinct :
      (granularity : Str) (keys : List (Str × F)) (names : List Str) (ps : List (Period F))
      → Distinct names
      → AreDistinct {F = F} (periods (map (emit granularity keys names) ps))
  unfolding periods emit start_of
  emit-AreDistinct granularity keys names [] h = tt
  emit-AreDistinct granularity keys names (p ∷ ps) h =
      (named-Distinct granularity keys p names h, emit-AreDistinct granularity keys names ps h)
