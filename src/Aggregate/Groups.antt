-- ===== src/Aggregate/Groups.antt =====
-- `groupIdx` and `series.Groups` agree, so a point reaches the one group with its key.
use mathlib.Core.Option
use mathlib.Core.Logic.{ite}
use eksp.Base.{
  ℕ, zero, suc, Str, Str-discrete, lookup, length, List, [], ◌∷◌, ◌++◌, Option, none, some, ◌≡◌,
  refl, inl, inr, Option-cases, Float, arith,
}
use eksp.Aggregate.{GroupSeries, Point, Progress, update, no_group, extend, add_point}

module _ {ℓ} {F : Type ℓ} where
  unfoldable pub index_of : Str → List (GroupSeries F) → Option ℕ
  index_of k [] = none
  index_of k (g ∷ gs) = ite (Str-discrete k g.key) (some 0) (Option.map suc (index_of k gs))

  unfoldable pub find_group : Str → List (GroupSeries F) → Option (GroupSeries F)
  find_group k [] = none
  find_group k (g ∷ gs) = ite (Str-discrete k g.key) (some g) (find_group k gs)

  abbrev pub IndexOk : Progress F → Type 0
  IndexOk st = (k : Str) → lookup k st.group_idx ≡ index_of k st.groups

  index_of-append :
      (k : Str) (gs : List (GroupSeries F)) (g : GroupSeries F)
      → index_of k (gs ++ g ∷ []) ≡ elim (index_of k gs) [
        | some i ↦ some i
        | none ↦ ite (Str-discrete k g.key) (some (length gs)) none
      ]
  unfolding index_of
  index_of-append k [] g = ground arith
  index_of-append k (h ∷ gs) g = ground (arith, index_of-append k gs g)

  find_group-append :
      (k : Str) (gs : List (GroupSeries F)) (g : GroupSeries F)
      → find_group k (gs ++ g ∷ []) ≡ elim (find_group k gs) [
        | some h ↦ some h
        | none ↦ ite (Str-discrete k g.key) (some g) none
      ]
  unfolding find_group
  find_group-append k [] g = ground arith
  find_group-append k (h ∷ gs) g = ground (arith, find_group-append k gs g)

  find_group-eq-none :
      (k : Str) (gs : List (GroupSeries F)) → index_of k gs ≡ none → find_group k gs ≡ none
  unfolding index_of find_group
  find_group-eq-none k [] h = refl
  find_group-eq-none k (g ∷ gs) h = ground (arith, find_group-eq-none k gs)

  index_of-eq-none :
      (k : Str) (gs : List (GroupSeries F)) → find_group k gs ≡ none → index_of k gs ≡ none
  unfolding index_of find_group
  index_of-eq-none k [] h = refl
  index_of-eq-none k (g ∷ gs) h = ground (arith, index_of-eq-none k gs)

  module _ (f : GroupSeries F → GroupSeries F)
      (same : (g : GroupSeries F) → (f g).key ≡ g.key) where
    index_of-update :
        (k : Str) (i : ℕ) (gs : List (GroupSeries F)) → index_of k (update i f gs) ≡ index_of k gs
    unfolding index_of
    index_of-update k i [] = refl
    index_of-update k zero (g ∷ gs) = rw (same g)
    index_of-update k (suc i) (g ∷ gs) = rw (index_of-update k i gs)

    -- Only the group with the key of the index changes.
    find_group-update :
        (j k : Str) (i : ℕ) (gs : List (GroupSeries F))
        → index_of k gs ≡ some i
        → find_group j (update i f gs)
          ≡ ite (Str-discrete j k) (Option.map f (find_group j gs)) (find_group j gs)
    unfolding index_of find_group
    find_group-update j k i [] h = absurd (ground arith)
    find_group-update j k zero (g ∷ gs) h = ground (arith, same g)
    find_group-update j k (suc i) (g ∷ gs) h = ground (arith, same g, find_group-update j k i gs)

module _ {ℓ} {F : Type ℓ} ⦃fl : Float F⦄ where
  pub extend-key : (t : ℕ) (a : F) (g : GroupSeries F) → (extend t a g).key ≡ g.key
  unfolding extend
  extend-key t a g = refl

  pub add_point-IndexOk :
      (t : ℕ) (st : Progress F) (p : Point F) → IndexOk st → IndexOk (add_point t st p)
  unfolding add_point lookup
  add_point-IndexOk t st p h k = grind (
    arith,
    h k,
    h p.key,
    index_of-append k st.groups (no_group p.key),
    index_of-update (extend t p.amount) (extend-key t p.amount),
  )

  -- A point extends the group with its key, made if it is new, and no other.
  pub find_group-add_point :
      (j : Str) (t : ℕ) (st : Progress F) (p : Point F)
      → IndexOk st
      → find_group j (add_point t st p).groups
        ≡ ite
            (Str-discrete j p.key)
            (some (extend t p.amount (Option.get_or (find_group j st.groups) (no_group j))))
            (find_group j st.groups)
  unfolding add_point
  find_group-add_point j t st p h = elim (Option-cases (lookup p.key st.group_idx)) [
    | inl new ↦
        let gs = st.groups ++ no_group p.key ∷ [] in
        ground (
          arith,
          h p.key,
          find_group-eq-none p.key st.groups,
          find_group-append j st.groups (no_group p.key),
          index_of-append p.key st.groups (no_group p.key),
          find_group-update (extend t p.amount) (extend-key t p.amount) j p.key (length st.groups)
              gs,
        )
    | inr (i, old) ↦ ground (
      arith,
      h p.key,
      index_of-eq-none p.key st.groups,
      find_group-update (extend t p.amount) (extend-key t p.amount) j p.key i st.groups,
    )
  ]
