-- ===== src/Aggregate/Order.antt =====
-- What a caller of `aggregate` can rely on: aligned series, at most thirteen of them, and the order.
use mathlib.Core.Path.{subst}
use eksp.Base.{
  length-map, ℕ, zero, suc, ◌+◌, ◌≤◌, Str, length, length-append, length-take, take, List, [], ◌∷◌,
  foldl, some, ◌≡◌, ap, sym, ◌∙◌, Float, IsOrdered, arith, true, All, length-replicate, sort_stable,
  IsSorted, sort_stable-IsSorted, All-append, drop, false, IsSorted-take,
}
use eksp.Explorer.{ResultByTime}
use eksp.Aggregate.{max_groups, GroupSeries, Series, Point, more, aggregate}
use eksp.Aggregate.Cells.{periods, AreDistinct, row, amounts}
use eksp.Aggregate.Table.{IsTable}
use eksp.Aggregate.Cap.{
  HaveLength, rows-HaveLength, Capped, all, folded, IsSeriesOf, aggregate_lem, sort_stable-IsTable,
}

module _ {ℓ} {F : Type ℓ} ⦃fl : Float F⦄ where
  open fl use {nought, add, lt}

  HaveLength-take :
      (n k : ℕ) (gs : List (GroupSeries F)) → HaveLength n gs → HaveLength n (take k gs)
  HaveLength-take n zero gs h = tt
  HaveLength-take n (suc k) [] h = tt
  HaveLength-take n (suc k) (g ∷ gs) h = (h.0, HaveLength-take n k gs h.1)

  Capped-HaveLength :
      (n : ℕ) {sorted groups : List (GroupSeries F)}
      → HaveLength n sorted
      → Capped n sorted groups
      → HaveLength n groups
  Capped-HaveLength n h (all few) = h
  Capped-HaveLength n {sorted} h (folded other many f) =
      All-append (λ (g : GroupSeries F). length g.values ≡ n) (take max_groups sorted) (other ∷ [])
        (HaveLength-take n max_groups sorted h) (f.long ∙ length-replicate n nought, tt)

  length-Capped :
      {n : ℕ} {sorted groups : List (GroupSeries F)}
      → Capped n sorted groups
      → length groups ≤ max_groups + 1
  length-Capped (all few) = omega arith
  length-Capped {sorted = sorted} (folded other many f) =
      omega
        (arith, length-append (take max_groups sorted) (other ∷ []), length-take max_groups sorted)

  series_of :
      (now : ℕ) (rs : List ResultByTime) {s : Series F}
      → AreDistinct (periods {F = F} rs)
      → aggregate now rs ≡ some s
      → IsSeriesOf now (periods rs) s
  series_of now rs d e =
      let (s', e', h) = aggregate_lem {F = F} now rs d in subst (IsSeriesOf now (periods rs)) (cc) h

  -- Where no period names a key twice, every series returned has one value for each time, and there
  -- are at most thirteen.
  pub aggregate-aligned :
      (now : ℕ) (rs : List ResultByTime) {s : Series F}
      → AreDistinct (periods {F = F} rs)
      → aggregate now rs ≡ some s
      → All (λ g. length g.values ≡ length s.times) s.groups × (length s.groups ≤ max_groups + 1)
  aggregate-aligned now rs {s} d e =
      let h = series_of now rs d e in
      let ps = periods {F = F} rs in
      let fits = rows-HaveLength ps _ (sort_stable-IsTable ps h.table h.is_table).rows in
      (
        subst (λ n. HaveLength n s.groups) (sym (ap length h.times ∙ length-map ps (λ p. p.0)))
            (Capped-HaveLength (length ps) fits h.groups),
        length-Capped h.groups,
      )

  numbers_of :
      (laws : IsOrdered F) (ps : List (Str × List (Point F))) (gs : List (GroupSeries F))
      → ((k : Str) → laws.is_number (foldl add nought (amounts k ps)) ≡ true)
      → All (λ g. (g.values ≡ row g.key ps) × (g.total ≡ foldl add nought (amounts g.key ps))) gs
      → All (λ g. laws.is_number g.total ≡ true) gs
  numbers_of laws ps [] h rows = tt
  numbers_of laws ps (g ∷ gs) h rows =
      (ap laws.is_number rows.0.1 ∙ h g.key, numbers_of laws ps gs h rows.1)

  -- Where no period names a key twice and no sum of a key is NaN, the groups before the cap, one for
  -- each key that has an amount, are sorted, no total less than a later one; the groups returned are
  -- all of them, or the first twelve and the rest folded into "Other", none of which is larger than
  -- one of the twelve.
  pub aggregate-IsSorted :
      (laws : IsOrdered F) (now : ℕ) (rs : List ResultByTime) {s : Series F}
      → AreDistinct (periods {F = F} rs)
      → ((k : Str) → laws.is_number (foldl add nought (amounts k (periods rs))) ≡ true)
      → aggregate now rs ≡ some s
      → (sorted : List (GroupSeries F)) × IsTable (periods rs) sorted
        × IsSorted more sorted
        × All
            (λ g. All (λ h. lt g.total h.total ≡ false) (drop max_groups sorted))
            (take max_groups sorted)
        × Capped (length (periods {F = F} rs)) sorted s.groups
  aggregate-IsSorted laws now rs {s} d numbers e =
      let h = series_of now rs d e in
      let ps = periods {F = F} rs in
      let ordered =
        sort_stable-IsSorted more (λ g. laws.is_number g.total ≡ true)
          (λ a b. laws.lt_asymm b.total a.total)
          (λ a b c p q. ground (arith, laws.lt_split a.total b.total c.total p q)) h.table
          (numbers_of laws ps h.table numbers h.is_table.rows) in
      (
        sort_stable more h.table,
        sort_stable-IsTable ps h.table h.is_table,
        ordered,
        IsSorted-take more max_groups (sort_stable more h.table) ordered,
        h.groups,
      )
