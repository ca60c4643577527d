-- ===== src/Aggregate/Track.antt =====
-- What the loops of `aggregate` leave for one key, period by period.
use mathlib.Core.Option
use mathlib.Core.Path.{ap₂}
use native.Mathlib.Nat.{add-zero}
use native.Mathlib.Numerals.{add-one}
use eksp.Base.{
  ℕ, ◌+◌, ◌≤◌, Str, length, length-append, List, [], ◌∷◌, ◌++◌, map, append_assoc, append-nil,
  foldl, Option, none, some, ◌≡◌, ◌≢◌, refl, ap, sym, ◌∙◌, Float, arith, Distinct, Option-cases,
  inl, inr,
}
use eksp.Explorer.{Group, ResultByTime}
use eksp.Aggregate.{
  start_of, GroupSeries, Point, Progress, no_group, read_point, pad, extend, add_point, add_group,
  add_period,
}
use eksp.Aggregate.Groups.{IndexOk, find_group, add_point-IndexOk, find_group-add_point}
use eksp.Aggregate.Cells.{
  points, periods, AreDistinct, find_point, cell, row, amounts, find_point-eq-none, length-pad,
  pad_full, pad-suc,
}

module _ {ℓ} {F : Type ℓ} ⦃fl : Float F⦄ where
  open fl use {nought, add}

  -- The groups of a period, without those that are skipped.
  pub foldl-add_group :
      (t : ℕ) (st : Progress F) (gs : List Group)
      → foldl (add_group t) st gs ≡ foldl (add_point t) st (points gs)
  unfolding add_group points
  foldl-add_group t st [] = refl
  foldl-add_group t st (g ∷ gs) = elim (Option-cases (read_point {F = F} g)) [
    | inl e ↦ rw (e, add_group, points) (foldl-add_group t st gs)
    | inr (p, e) ↦ rw (e, add_group, points) (foldl-add_group t (add_point t st p) gs)
  ]

  pub periods-none :
      (r : ResultByTime) (rs : List ResultByTime)
      → start_of r ≡ none
      → periods {F = F} (r ∷ rs) ≡ periods rs
  unfolding periods
  periods-none r rs e = rw (e, periods)

  pub periods-some :
      (r : ResultByTime) (rs : List ResultByTime) {s : Str}
      → start_of r ≡ some s
      → periods {F = F} (r ∷ rs) ≡ (s, points r.groups) ∷ periods rs
  unfolding periods
  periods-some r rs e = rw (e, periods)

  pub add_period-none :
      (st : Progress F) (r : ResultByTime) → start_of r ≡ none → add_period st r ≡ st
  unfolding add_period
  add_period-none st r e = rw (e, add_period)

  pub add_period-some :
      (st : Progress F) (r : ResultByTime) {s : Str}
      → start_of r ≡ some s
      → add_period st r
        ≡ foldl
            (add_point (length st.times))
            (record st { times = st.times ++ s ∷ [] })
            (points r.groups)
  unfolding add_period
  add_period-some st r {s} e =
      rw (e, add_period)
        (foldl-add_group (length st.times) (record st { times = st.times ++ s ∷ [] }) r.groups)

  pub add_points-times :
      (t : ℕ) (st : Progress F) (ps : List (Point F)) → (foldl (add_point t) st ps).times ≡ st.times
  unfolding add_point
  add_points-times t st [] = refl
  add_points-times t st (p ∷ ps) = add_points-times t (add_point t st p) ps ∙ ground arith

  add_points-IndexOk :
      (t : ℕ) (st : Progress F) (ps : List (Point F))
      → IndexOk st
      → IndexOk (foldl (add_point t) st ps)
  add_points-IndexOk t st [] h = h
  add_points-IndexOk t st (p ∷ ps) h =
      add_points-IndexOk t (add_point t st p) ps (add_point-IndexOk t st p h)

  extend-values :
      (n : ℕ) (a : F) (g : GroupSeries F) → (extend n a g).values ≡ pad n g.values ++ a ∷ []
  unfolding extend
  extend-values n a g = refl

  module _ (k : Str) where
    abbrev pub or_new : Option (GroupSeries F) → GroupSeries F
    or_new o = Option.get_or o (no_group k)

    -- One period, for one key.
    step : ℕ → List (Point F) → Option (GroupSeries F) → Option (GroupSeries F)
    step n ps o = elim (find_point k ps) [ none ↦ o | some p ↦ some (extend n p.amount (or_new o)) ]

    pub track : ℕ → List (Str × List (Point F)) → Option (GroupSeries F) → Option (GroupSeries F)
    track n [] o = o
    track n ((_, ps) ∷ rest) o = track (n + 1) rest (step n ps o)

    find_group-add_points :
        (t : ℕ) (st : Progress F) (ps : List (Point F))
        → IndexOk st
        → Distinct (map (λ x. x.key) ps)
        → find_group k (foldl (add_point t) st ps).groups ≡ step t ps (find_group k st.groups)
    unfolding step find_point
    find_group-add_points t st [] h d = refl
    find_group-add_points t st (p ∷ ps) h d = ground (
      arith,
      find_group-add_points t (add_point t st p) ps (add_point-IndexOk t st p h) d.1,
      find_group-add_point k t st p h,
      find_point-eq-none k ps,
    )

    -- The loops, for one key.
    pub find_group-collect :
        (st : Progress F) (rs : List ResultByTime)
        → IndexOk st
        → AreDistinct (periods {F = F} rs)
        → find_group k (foldl add_period st rs).groups
          ≡ track (length st.times) (periods rs) (find_group k st.groups)
    unfolding track
    find_group-collect st [] h d = unfold periods in refl
    find_group-collect st (r ∷ rs) h d = elim (Option-cases (start_of r)) [
      | inl e ↦
          let d' = rw (periods-none r rs e) at d in
          ap (λ st'. find_group k (foldl add_period st' rs).groups) (add_period-none st r e)
          ∙ find_group-collect st rs h d'
          ∙ ap (λ ps. track (length st.times) ps (find_group k st.groups))
              (sym (periods-none r rs e))
      | inr (s, e) ↦
          let ps = points {F = F} r.groups in
          let n = length st.times in
          let begun = record st { times = st.times ++ s ∷ [] } in
          let st' = foldl (add_point n) begun ps in
          let d' = rw (periods-some r rs e) at d in
          let more : length st'.times ≡ n + 1 =
            omega
              (arith, ap length (add_points-times n begun ps), length-append st.times (s ∷ [])) in
          ap (λ st''. find_group k (foldl add_period st'' rs).groups) (add_period-some st r e)
          ∙ find_group-collect st' rs (add_points-IndexOk n begun ps h) d'.1
          ∙ ap₂ (λ m o. track m (periods rs) o) more (find_group-add_points n begun ps h d'.0)
          ∙ ap (λ qs. track n qs (find_group k st.groups)) (sym (periods-some r rs e))
    ]

    abbrev values_of : Option (GroupSeries F) → List F
    values_of o = (or_new o).values

    abbrev total_of : Option (GroupSeries F) → F
    total_of o = (or_new o).total

    length-step :
        (n : ℕ) (ps : List (Point F)) (o : Option (GroupSeries F))
        → length (values_of o) ≤ n
        → length (values_of (step n ps o)) ≤ n + 1
    unfolding step
    length-step n ps o h = elim (Option-cases (find_point k ps)) [
      | inl e ↦ rw (e, step) (omega arith)
      | inr (p, e) ↦
          let filled = pad n (values_of o) in
          rw (e, step, extend-values n p.amount (or_new o))
            (omega (arith, length-append filled (p.amount ∷ []), length-pad n (values_of o) h))
    ]

    values-step :
        (n : ℕ) (ps : List (Point F)) (o : Option (GroupSeries F))
        → length (values_of o) ≤ n
        → pad (n + 1) (values_of (step n ps o)) ≡ pad n (values_of o) ++ cell k ps ∷ []
    unfolding step cell
    values-step n ps o h = elim (Option-cases (find_point k ps)) [
      | inl e ↦ rw (e, step, cell, add-one) (pad-suc n (values_of o) h)
      | inr (p, e) ↦
          let filled = pad n (values_of o) in
          rw (e, step, cell, extend-values n p.amount (or_new o))
            (pad_full (n + 1) (filled ++ p.amount ∷ [])
              (omega (arith, length-append filled (p.amount ∷ []), length-pad n (values_of o) h)))
    ]

    -- Filled up to the end, the values are those before and the cells of the periods.
    pub values-track :
        (n : ℕ) (ps : List (Str × List (Point F))) (o : Option (GroupSeries F))
        → length (values_of o) ≤ n
        → pad (n + length ps) (values_of (track n ps o)) ≡ pad n (values_of o) ++ row k ps
    unfolding track row
    values-track n [] o h = rw (add-zero, append-nil)
    values-track n ((s, ps) ∷ rest) o h =
        let o' = step n ps o in
        ap (λ m. pad m (values_of (track (n + 1) rest o'))) (omega arith)
        ∙ values-track (n + 1) rest o' (length-step n ps o h)
        ∙ ap (λ vs. vs ++ row k rest) (values-step n ps o h)
        ∙ append_assoc (pad n (values_of o)) (cell k ps ∷ []) (row k rest)

    pub total-track :
        (n : ℕ) (ps : List (Str × List (Point F))) (o : Option (GroupSeries F))
        → total_of (track n ps o) ≡ foldl add (total_of o) (amounts k ps)
    unfolding track amounts step extend
    total-track n [] o = refl
    total-track n ((s, ps) ∷ rest) o = elim (Option-cases (find_point k ps)) [
      | inl e ↦ rw (e, step, amounts) (total-track (n + 1) rest o)
      | inr (p, e) ↦
          rw (e, step, amounts) (total-track (n + 1) rest (some (extend n p.amount (or_new o))))
    ]

    -- A key has a group exactly if it has an amount in some period.
    track-some :
        (n : ℕ) (ps : List (Str × List (Point F))) (g : GroupSeries F)
        → (h : GroupSeries F) × (track n ps (some g) ≡ some h)
    unfolding track step
    track-some n [] g = (g, refl)
    track-some n ((s, ps) ∷ rest) g = elim (Option-cases (find_point k ps)) [
      | inl e ↦ let (h, found) = track-some (n + 1) rest g in (h, rw (track, step, e) found)
      | inr (p, e) ↦
          let (h, found) = track-some (n + 1) rest (extend n p.amount g) in
          (h, rw (track, step, e) found)
    ]

    pub track-amounts :
        (n : ℕ) (ps : List (Str × List (Point F)))
        → amounts k ps ≢ []
        → (h : GroupSeries F) × (track n ps none ≡ some h)
    unfolding track step amounts
    track-amounts n [] ne = absurd (ne refl)
    track-amounts n ((s, ps) ∷ rest) ne = elim (Option-cases (find_point k ps)) [
      | inl e ↦
          let (h, found) = track-amounts (n + 1) rest (λ empty. ne (rw (amounts, e) empty)) in
          (h, rw (track, step, e) found)
      | inr (p, e) ↦
          let (h, found) = track-some (n + 1) rest (extend n p.amount (no_group k)) in
          (h, rw (track, step, e) found)
    ]

    pub track-eq-none :
        (n : ℕ) (ps : List (Str × List (Point F))) → amounts k ps ≡ [] → track n ps none ≡ none
    unfolding track step amounts
    track-eq-none n [] empty = refl
    track-eq-none n ((s, ps) ∷ rest) empty = elim (Option-cases (find_point k ps)) [
      | inl e ↦
          let left : amounts k rest ≡ [] = rw (amounts, e) at empty in
          rw (track, step, e) (track-eq-none (n + 1) rest left)
      | inr (p, e) ↦
          let bad : p.amount ∷ amounts k rest ≡ [] = rw (amounts, e) at empty in
          absurd (ground (arith, bad))
    ]
