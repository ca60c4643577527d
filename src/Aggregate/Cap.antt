-- ===== src/Aggregate/Cap.antt =====
-- The sort and the cap of `aggregate`: which series it returns, on every input that names no key twice
-- in a period.
use mathlib.Core.Path.{subst}
use eksp.Base.{
  ℕ, zero, suc, ◌≤◌, ◌<◌, Str, codes, Str-discrete, length, length-map, length-replicate, take,
  drop, replicate, get_elem?, List, [], ◌∷◌, ◌++◌, map, foldl, none, some, ◌≡◌, refl, ap, sym, ◌∙◌,
  Float, arith, member, Distinct, inl, inr, Bool-cases, false, Bool, ◌||◌, holds, ltb, All,
  sort_stable, insert, All-sort_stable,
}
use eksp.Explorer.{ResultByTime}
use eksp.Aggregate.{
  max_groups, GroupSeries, Series, Point, no_group, collect, align, add_values, fold_other, more,
  cap_groups, aggregate,
}
use eksp.Aggregate.Cells.{periods, AreDistinct, row, amounts, length-row}
use eksp.Aggregate.Table.{keys, IsTable, collect-IsTable}

module _ {ℓ} {F : Type ℓ} (less : GroupSeries F → GroupSeries F → Bool) where
  member-insert :
      (k : Str) (g : GroupSeries F) (gs : List (GroupSeries F))
      → member (keys (insert less g gs)) k ≡ (holds (Str-discrete k g.key) || member (keys gs) k)
  unfolding insert member
  member-insert k g [] = ground arith
  member-insert k g (h ∷ gs) = ground (arith, member-insert k g gs)

  member-sort_stable :
      (k : Str) (gs : List (GroupSeries F))
      → member (keys (sort_stable less gs)) k ≡ member (keys gs) k
  unfolding sort_stable member
  member-sort_stable k [] = refl
  member-sort_stable k (g ∷ gs) =
      ground (arith, member-insert k g (sort_stable less gs), member-sort_stable k gs)

  insert-Distinct :
      (g : GroupSeries F) (gs : List (GroupSeries F))
      → Distinct (keys gs)
      → member (keys gs) g.key ≡ false
      → Distinct (keys (insert less g gs))
  unfolding insert member
  insert-Distinct g [] d fresh = (refl, tt)
  insert-Distinct g (h ∷ gs) d fresh = elim (Bool-cases (less h g)) [
    | inl e ↦
        rw e (ground (arith, member-insert h.key g gs), insert-Distinct g gs d.1 (ground arith))
    | inr e ↦ rw e (fresh, d)
  ]

  sort_stable-Distinct :
      (gs : List (GroupSeries F)) → Distinct (keys gs) → Distinct (keys (sort_stable less gs))
  unfolding sort_stable
  sort_stable-Distinct [] d = tt
  sort_stable-Distinct (g ∷ gs) d =
      insert-Distinct g (sort_stable less gs) (sort_stable-Distinct gs d.1)
        (member-sort_stable g.key gs ∙ d.0)

module _ {ℓ} {F : Type ℓ} ⦃fl : Float F⦄ where
  open fl use {nought, add, lt}

  pub sort_stable-IsTable :
      (ps : List (Str × List (Point F))) (gs : List (GroupSeries F))
      → IsTable ps gs
      → IsTable ps (sort_stable more gs)
  sort_stable-IsTable ps gs t = record {
    distinct = sort_stable-Distinct more gs t.distinct;
    rows = All-sort_stable more _ gs t.rows;
    complete = λ k ne. member-sort_stable more k gs ∙ t.complete k ne;
    named = λ k e. t.named k (sym (member-sort_stable more k gs) ∙ e);
  }

  -- Every group has `n` values.
  abbrev pub HaveLength : ℕ → List (GroupSeries F) → Type 0
  HaveLength n = All (λ g. length g.values ≡ n)

  -- The values of some groups at one time.
  unfoldable pub column : ℕ → List (GroupSeries F) → List F
  column t [] = []
  column t (g ∷ gs) = elim (get_elem? g.values t) [ none ↦ column t gs | some v ↦ v ∷ column t gs ]

  -- `ws` is the sum of `us` and `vs` at each time.
  abbrev AreSums : List F → List F → List F → Type ℓ
  AreSums us vs ws =
      (t : ℕ) (u v : F)
      → get_elem? us t ≡ some u
      → get_elem? vs t ≡ some v
      → get_elem? ws t ≡ some (add u v)

  AreSums-cons :
      (u v : F) (us vs ws : List F) → AreSums us vs ws → AreSums (u ∷ us) (v ∷ vs) (add u v ∷ ws)
  AreSums-cons u v us vs ws h zero u' v' e e' = ground arith
  AreSums-cons u v us vs ws h (suc t) u' v' e e' = h t u' v' e e'

  -- Adding as many values as there are does not panic.
  add_values_lem :
      (us vs : List F)
      → length vs ≡ length us
      → (ws : List F) × (add_values us vs ≡ some ws) × (length ws ≡ length us) × AreSums us vs ws
  unfolding add_values
  add_values_lem us [] h = (us, refl, refl, λ t u v e e'. absurd (ground arith))
  add_values_lem [] (v ∷ vs) h = absurd (omega arith)
  add_values_lem (u ∷ us) (v ∷ vs) h =
      let (ws, e, long, sums) = add_values_lem us vs (omega arith) in
      (add u v ∷ ws, rw e, omega arith, AreSums-cons u v us vs ws sums)

  get_elem?-defined : (xs : List F) (t : ℕ) → t < length xs → (x : F) × (get_elem? xs t ≡ some x)
  get_elem?-defined [] t h = absurd (omega arith)
  get_elem?-defined (x ∷ xs) zero h = (x, refl)
  get_elem?-defined (x ∷ xs) (suc t) h = get_elem?-defined xs t (omega arith)

  lt_of_get_elem? : (xs : List F) (t : ℕ) {x : F} → get_elem? xs t ≡ some x → t < length xs
  lt_of_get_elem? [] t h = absurd (ground arith)
  lt_of_get_elem? (x ∷ xs) zero h = omega arith
  lt_of_get_elem? (x ∷ xs) (suc t) h = omega (arith, lt_of_get_elem? xs t h)

  -- `other'` is `other` with the groups `gs` added, in order, to its total and at each time.
  pub record IsFolded (other : GroupSeries F) (gs : List (GroupSeries F)) (other' : GroupSeries F)
      : Type ℓ where
    pub key : other'.key ≡ other.key
    pub total : other'.total ≡ foldl add other.total (map (λ g. g.total) gs)
    pub long : length other'.values ≡ length other.values
    pub cells :
        (t : ℕ) (u : F)
        → get_elem? other.values t ≡ some u
        → get_elem? other'.values t ≡ some (foldl add u (column t gs))

  fold_other_lem :
      (other : GroupSeries F) (gs : List (GroupSeries F))
      → HaveLength (length other.values) gs
      → (other' : GroupSeries F) × (fold_other other gs ≡ some other') × IsFolded other gs other'
  unfolding fold_other column
  fold_other_lem other [] h =
      (other, refl, record { key = refl; total = refl; long = refl; cells = λ t u e. e })
  fold_other_lem other (g ∷ gs) h =
      let (ws, e, long, sums) = add_values_lem other.values g.values h.0 in
      let next = record other { values = ws; total = add other.total g.total } in
      let (other', e', folded) = fold_other_lem next gs (rw long h.1) in
      (
        other',
        rw e e',
        record {
          key = folded.key;
          total = folded.total;
          long = folded.long ∙ long;
          cells = λ t u at.
              let (v, at') =
                get_elem?-defined g.values t
                  (omega (arith, h.0, lt_of_get_elem? other.values t at)) in
              rw (at', column) (folded.cells t (add u v) (sums t u v at at'));
        },
      )

  -- Which groups the cap returns for sorted ones: all, or the first twelve and "Other".
  pub data Capped (n : ℕ) (sorted : List (GroupSeries F)) : List (GroupSeries F) → Type ℓ where
    all : length sorted ≤ max_groups → Capped n sorted sorted
    folded :
        (other : GroupSeries F)
        → max_groups < length sorted
        → IsFolded
            (record (no_group (codes "Other")) { values = replicate n nought })
            (drop max_groups sorted)
            other
        → Capped n sorted (take max_groups sorted ++ other ∷ [])

  HaveLength-drop :
      (n k : ℕ) (gs : List (GroupSeries F)) → HaveLength n gs → HaveLength n (drop k gs)
  HaveLength-drop n zero gs h = h
  HaveLength-drop n (suc k) [] h = h
  HaveLength-drop n (suc k) (g ∷ gs) h = HaveLength-drop n k gs h.1

  cap_groups_lem :
      (n : ℕ) (sorted : List (GroupSeries F))
      → HaveLength n sorted
      → (groups : List (GroupSeries F)) × (cap_groups n sorted ≡ some groups)
        × Capped n sorted groups
  unfolding cap_groups
  cap_groups_lem n sorted h = elim (Bool-cases (ltb max_groups (length sorted))) [
    | inl many ↦
        let other = record (no_group (codes "Other")) { values = replicate n nought } in
        let rest = drop max_groups sorted in
        let long : length other.values ≡ n = length-replicate n nought in
        let (other', e, isFolded) =
          fold_other_lem other rest (rw long (HaveLength-drop n max_groups sorted h)) in
        (take max_groups sorted ++ other' ∷ [], rw (many, e), folded other' (ground arith) isFolded)
    | inr few ↦ (sorted, rw few, all (ground arith))
  ]

  pub rows-HaveLength :
      (ps : List (Str × List (Point F))) (gs : List (GroupSeries F))
      → All (λ g. (g.values ≡ row g.key ps) × (g.total ≡ foldl add nought (amounts g.key ps))) gs
      → HaveLength (length ps) gs
  rows-HaveLength ps [] h = tt
  rows-HaveLength ps (g ∷ gs) h = (ap length h.0.0 ∙ length-row g.key ps, rows-HaveLength ps gs h.1)

  -- What `aggregate` makes of the periods `ps`.
  pub record IsSeriesOf (now : ℕ) (ps : List (Str × List (Point F))) (s : Series F) : Type ℓ where
    pub table : List (GroupSeries F)
    pub is_table : IsTable ps table
    pub times : s.times ≡ map (λ p. p.0) ps
    pub total : s.total ≡ foldl add nought (map (λ g. g.total) table)
    pub groups : Capped (length ps) (sort_stable more table) s.groups
    pub fetched_at : s.fetched_at ≡ now
    pub fresh : s.cached ≡ false

  -- Where no period names a key twice, `aggregate` does not panic: it returns the starts of the
  -- periods as times, the table of the amounts by key and period sorted by total, all of it or the
  -- first twelve groups with the sums of the others, and the sum of all totals.
  pub aggregate_lem :
      (now : ℕ) (rs : List ResultByTime)
      → AreDistinct (periods {F = F} rs)
      → (s : Series F) × (aggregate now rs ≡ some s) × IsSeriesOf now (periods rs) s
  unfolding aggregate
  aggregate_lem now rs d =
      let st = collect {F = F} rs in
      let ps = periods {F = F} rs in
      let (is_table, times) = collect-IsTable rs d in
      let table = map (align (length st.times)) st.groups in
      let long : length st.times ≡ length ps = ap length times ∙ length-map ps (λ p. p.0) in
      let sorted = sort_stable more table in
      let fits = rows-HaveLength ps sorted (sort_stable-IsTable ps table is_table).rows in
      let (groups, e, capped) =
        cap_groups_lem (length st.times) sorted
          (subst (λ n. HaveLength n sorted) (sym long) fits) in
      (
        record {
          times = st.times;
          groups = groups;
          total = foldl add nought (map (λ g. g.total) table);
          currency = st.currency;
          fetched_at = now;
          cached = false;
        },
        rw e,
        record {
          table = table;
          is_table = is_table;
          times = times;
          total = refl;
          groups = subst (λ n. Capped n sorted groups) long capped;
          fetched_at = refl;
          fresh = refl;
        },
      )
