-- ===== src/Aggregate/Table.antt =====
-- The groups that `aggregate` has before the cap are the table of the periods.
use mathlib.Core.Path.{subst}
use mathlib.Core.List.{map-append}
use eksp.Base.{
  length-map, ℕ, zero, suc, Str, Str-discrete, length, List, [], ◌∷◌, ◌++◌, map, append_assoc,
  append-nil, foldl, none, some, ◌≡◌, refl, ap, sym, ◌∙◌, Float, arith, member, Distinct,
  Option-cases, inl, inr, false, ◌||◌, holds, All, lookup, true, ◌≢◌, Bool-cases,
}
use eksp.Explorer.{ResultByTime}
use eksp.Aggregate.{
  start_of, GroupSeries, Point, Progress, update, no_group, no_progress, pad, extend, add_point,
  add_period, collect, align,
}
use eksp.Aggregate.Groups.{IndexOk, find_group, index_of, add_point-IndexOk, extend-key}
use eksp.Aggregate.Cells.{points, periods, AreDistinct, row, amounts}
use eksp.Aggregate.Track.{
  track, find_group-collect, add_points-times, add_period-none, add_period-some, periods-none,
  periods-some, values-track, total-track, or_new, track-amounts, track-eq-none,
}

member-append :
    (k : Str) (js : List Str) (j : Str)
    → member (js ++ j ∷ []) k ≡ (member js k || holds (Str-discrete k j))
unfolding member
member-append k [] j = ground arith
member-append k (i ∷ js) j = ground (arith, member-append k js j)

Distinct-append :
    (js : List Str) (j : Str) → Distinct js → member js j ≡ false → Distinct (js ++ j ∷ [])
unfolding member
Distinct-append [] j d h = (refl, tt)
Distinct-append (i ∷ js) j d h =
    (ground (arith, member-append i js j), Distinct-append js j d.1 (ground arith))

module _ {ℓ} {F : Type ℓ} where
  abbrev pub keys : List (GroupSeries F) → List Str
  keys = map (λ g. g.key)

  index_of-eq-none→member :
      (k : Str) (gs : List (GroupSeries F)) → index_of k gs ≡ none → member (keys gs) k ≡ false
  unfolding index_of member
  index_of-eq-none→member k [] h = refl
  index_of-eq-none→member k (g ∷ gs) h = ground (arith, index_of-eq-none→member k gs)

  keys-update :
      (f : GroupSeries F → GroupSeries F) (i : ℕ) (gs : List (GroupSeries F))
      → ((g : GroupSeries F) → (f g).key ≡ g.key)
      → keys (update i f gs) ≡ keys gs
  keys-update f i [] same = refl
  keys-update f zero (g ∷ gs) same = ap (λ k. k ∷ keys gs) (same g)
  keys-update f (suc i) (g ∷ gs) same = ap (◌∷◌ g.key) (keys-update f i gs same)

  find_group-eq-none_of_member :
      (k : Str) (gs : List (GroupSeries F)) → member (keys gs) k ≡ false → find_group k gs ≡ none
  unfolding find_group member
  find_group-eq-none_of_member k [] h = refl
  find_group-eq-none_of_member k (g ∷ gs) h = ground (arith, find_group-eq-none_of_member k gs)

  AreFound : List (GroupSeries F) → List (GroupSeries F) → Type ℓ
  AreFound all = All (λ g. find_group g.key all ≡ some g)

  AreFound-cons :
      (h : GroupSeries F) (all gs : List (GroupSeries F))
      → member (keys all) h.key ≡ false
      → AreFound all gs
      → AreFound (h ∷ all) gs
  unfolding AreFound find_group
  AreFound-cons h all [] fresh found = tt
  AreFound-cons h all (g ∷ gs) fresh found =
      (ground (arith, find_group-eq-none_of_member h.key all), AreFound-cons h all gs fresh found.1)

  -- Where no key stands twice, each group is the one that its key finds.
  all_found : (gs : List (GroupSeries F)) → Distinct (keys gs) → AreFound gs gs
  unfolding AreFound find_group
  all_found [] d = tt
  all_found (g ∷ gs) d = (ground arith, AreFound-cons g gs gs d.0 (all_found gs d.1))

  find_group_of_member :
      (k : Str) (gs : List (GroupSeries F))
      → member (keys gs) k ≡ true
      → (g : GroupSeries F) × (find_group k gs ≡ some g)
  unfolding find_group member
  find_group_of_member k [] h = absurd (ground (arith, h))
  find_group_of_member k (g ∷ gs) h = elim (Str-discrete k g.key) [
    | yes e ↦ (g, rw (find_group, e) (ground arith))
    | no ne ↦
        let (g', found) = find_group_of_member k gs (ground (arith, h, ne)) in
        (g', ground (arith, found, ne))
  ]

module _ {ℓ} {F : Type ℓ} ⦃fl : Float F⦄ where
  open fl use {nought, add}

  -- Where each key finds what the loops leave for it, the groups are those of the keys with an amount.
  complete_of_found :
      (ps : List (Str × List (Point F))) (gs : List (GroupSeries F))
      → ((k : Str) → find_group k gs ≡ track k 0 ps none)
      → (k : Str) → amounts k ps ≢ []
      → member (keys gs) k ≡ true
  complete_of_found ps gs h k ne = elim (Bool-cases (member (keys gs) k)) [
    | inl e ↦ e
    | inr e ↦
        let (g, found) = track-amounts k 0 ps ne in
        let bad : none ≡ some g = sym (find_group-eq-none_of_member k gs e) ∙ h k ∙ found in
        absurd (ground (arith, bad))
  ]

  named_of_found :
      (ps : List (Str × List (Point F))) (gs : List (GroupSeries F))
      → ((k : Str) → find_group k gs ≡ track k 0 ps none)
      → (k : Str) → member (keys gs) k ≡ true
      → amounts k ps ≢ []
  named_of_found ps gs h k e empty =
      let (g, found) = find_group_of_member k gs e in
      let bad : none ≡ some g = sym (track-eq-none k 0 ps empty) ∙ sym (h k) ∙ found in
      absurd (ground (arith, bad))

  keys-grown :
      (t : ℕ) (a : F) (k : Str) (gs : List (GroupSeries F))
      → keys (update (length gs) (extend t a) (gs ++ no_group k ∷ [])) ≡ keys gs ++ k ∷ []
  keys-grown t a k gs =
      keys-update (extend t a) (length gs) (gs ++ no_group k ∷ []) (extend-key t a)
      ∙ map-append (λ g. g.key) gs (no_group k ∷ [])

  add_point-Distinct :
      (t : ℕ) (st : Progress F) (p : Point F)
      → IndexOk st
      → Distinct (keys st.groups)
      → Distinct (keys (add_point t st p).groups)
  unfolding add_point
  add_point-Distinct t st p h d = elim (Option-cases (lookup p.key st.group_idx)) [
    | inl e ↦
        rw (e, add_point, keys-grown t p.amount p.key st.groups)
          (Distinct-append (keys st.groups) p.key d
            (index_of-eq-none→member p.key st.groups (sym (h p.key) ∙ e)))
    | inr (i, e) ↦
        rw (e, add_point, keys-update (extend t p.amount) i st.groups (extend-key t p.amount)) d
  ]

  -- The loops keep `groupIdx` and the keys in order.
  record IsOk (st : Progress F) : Type ℓ where
    index : IndexOk st
    distinct : Distinct (keys st.groups)

  add_points-IsOk :
      (t : ℕ) (st : Progress F) (ps : List (Point F)) → IsOk st → IsOk (foldl (add_point t) st ps)
  add_points-IsOk t st [] h = h
  add_points-IsOk t st (p ∷ ps) h = add_points-IsOk t (add_point t st p) ps (record {
    index = add_point-IndexOk t st p h.index;
    distinct = add_point-Distinct t st p h.index h.distinct;
  })

  collect-IsOk :
      (st : Progress F) (rs : List ResultByTime) → IsOk st → IsOk (foldl add_period st rs)
  collect-IsOk st [] h = h
  collect-IsOk st (r ∷ rs) h = collect-IsOk (add_period st r) rs (elim (Option-cases (start_of r)) [
    | inl e ↦ subst IsOk (sym (add_period-none st r e)) h
    | inr (s, e) ↦ subst IsOk (sym (add_period-some st r e)) (
        add_points-IsOk (length st.times) (record st { times = st.times ++ s ∷ [] })
          (points r.groups) (record { index = h.index; distinct = h.distinct }))
  ])

  collect-times :
      (st : Progress F) (rs : List ResultByTime)
      → (foldl add_period st rs).times ≡ st.times ++ map (λ p. p.0) (periods {F = F} rs)
  collect-times st [] = unfold periods in sym (append-nil st.times)
  collect-times st (r ∷ rs) = elim (Option-cases (start_of r)) [
    | inl e ↦
        ap (λ st'. (foldl add_period st' rs).times) (add_period-none st r e)
        ∙ collect-times st rs
        ∙ ap (λ ps. st.times ++ map (λ p. p.0) ps) (sym (periods-none r rs e))
    | inr (s, e) ↦
        let begun = record st { times = st.times ++ s ∷ [] } in
        let st' = foldl (add_point (length st.times)) begun (points r.groups) in
        let rest = map (λ p. p.0) (periods {F = F} rs) in
        ap (λ st''. (foldl add_period st'' rs).times) (add_period-some st r e)
        ∙ collect-times st' rs
        ∙ ap (λ ts. ts ++ rest) (add_points-times (length st.times) begun (points r.groups))
        ∙ append_assoc st.times (s ∷ []) rest
        ∙ ap (λ ps. st.times ++ map (λ p. p.0) ps) (sym (periods-some r rs e))
  ]

  -- `gs` is the table of the periods `ps`: the keys that have an amount in some period have a group
  -- each, and no others, and a group holds the amount of its key in every period, 0 where there is none,
  -- and the sum of these amounts in order.
  pub record IsTable (ps : List (Str × List (Point F))) (gs : List (GroupSeries F)) : Type ℓ where
    pub distinct : Distinct (keys gs)
    pub rows :
        All (λ g. (g.values ≡ row g.key ps) × (g.total ≡ foldl add nought (amounts g.key ps))) gs
    pub complete : (k : Str) → amounts k ps ≢ [] → member (keys gs) k ≡ true
    pub named : (k : Str) → member (keys gs) k ≡ true → amounts k ps ≢ []

  pad_nil : pad {F = F} 0 [] ≡ []
  unfolding pad
  pad_nil = refl

  module _ (k : Str) (ps : List (Str × List (Point F))) (g : GroupSeries F) where
    values_of_track : track k 0 ps none ≡ some g → pad (length ps) g.values ≡ row k ps
    values_of_track e =
        ap (λ o. pad (length ps) (or_new k o).values) (sym e)
        ∙ ap (λ n. pad n (or_new k (track k 0 ps none)).values) (omega arith)
        ∙ values-track k 0 ps none (omega arith)
        ∙ ap (λ vs. vs ++ row k ps) pad_nil

    total_of_track : track k 0 ps none ≡ some g → g.total ≡ foldl add nought (amounts k ps)
    total_of_track e = ap (λ o. (or_new k o).total) (sym e) ∙ total-track k 0 ps none

  rows_of_found :
      (ps : List (Str × List (Point F))) (all gs : List (GroupSeries F))
      → ((k : Str) → find_group k all ≡ track k 0 ps none)
      → AreFound all gs
      → All
          (λ g. (g.values ≡ row g.key ps) × (g.total ≡ foldl add nought (amounts g.key ps)))
          (map (align (length ps)) gs)
  unfolding AreFound align
  rows_of_found ps all [] h found = tt
  rows_of_found ps all (g ∷ gs) h found =
      let tracked : track g.key 0 ps none ≡ some g = sym (h g.key) ∙ found.0 in
      (
        (values_of_track g.key ps g tracked, total_of_track g.key ps g tracked),
        rows_of_found ps all gs h found.1,
      )

  keys-align : (n : ℕ) (gs : List (GroupSeries F)) → keys (map (align n) gs) ≡ keys gs
  unfolding align
  keys-align n [] = refl
  keys-align n (g ∷ gs) = ap (◌∷◌ g.key) (keys-align n gs)

  no_progress-IsOk : IsOk no_progress
  unfolding lookup index_of
  no_progress-IsOk = record { index = λ k. refl; distinct = tt }

  -- Where no period names a key twice, the aligned groups are the table of the periods, and the times
  -- are their starts.
  pub collect-IsTable :
      (rs : List ResultByTime)
      → AreDistinct (periods {F = F} rs)
      → IsTable (periods rs) (map (align (length (collect {F = F} rs).times)) (collect rs).groups)
        × ((collect {F = F} rs).times ≡ map (λ p. p.0) (periods {F = F} rs))
  unfolding collect lookup find_group
  collect-IsTable rs d =
      let st = foldl add_period no_progress rs in
      let ps = periods {F = F} rs in
      let good = collect-IsOk no_progress rs no_progress-IsOk in
      let times = collect-times no_progress rs in
      let long : length st.times ≡ length ps = ap length times ∙ length-map ps (λ p. p.0) in
      let found = all_found st.groups good.distinct in
      let by_key = λ (k : Str). find_group-collect k no_progress rs no_progress-IsOk.index d in
      (
        rw long (record {
          distinct = rw (keys-align (length ps) st.groups) good.distinct;
          rows = rows_of_found ps st.groups st.groups by_key found;
          complete = rw (keys-align (length ps) st.groups) (complete_of_found ps st.groups by_key);
          named = rw (keys-align (length ps) st.groups) (named_of_found ps st.groups by_key);
        }),
        times,
      )
