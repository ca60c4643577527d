-- ===== src/Aggregate/Tests.antt =====
-- Runs of `aggregate`, and the theorems about it at concrete inputs.
use mathlib.Core.Option
use eksp.Base.{
  whole_float, ◌+◌, ◌≤◌, Str, codes, Str-discrete, length, List, [], ◌∷◌, map, none, some, ◌≡◌,
  refl, false, ℤ, pos, ◌+ℤ◌, atoi, whole-IsOrdered, All, member, IsSorted, ltb_ℤ, drop, take,
}
use eksp.Explorer.{Group, ResultByTime, unblended_cost}
use eksp.Aggregate.{max_groups, GroupSeries, Series, more, aggregate}
use eksp.Aggregate.Cells.{periods, AreDistinct, find_point, points}
use eksp.Aggregate.Table.{IsTable}
use eksp.Aggregate.Cap.{Capped, IsSeriesOf, aggregate_lem}
use eksp.Aggregate.Order.{aggregate-aligned, aggregate-IsSorted}

program : Unit {0}
unfolding aggregate Str-discrete atoi ◌+ℤ◌ periods find_point points member
program = tt

abbrev dollars : Str → Group → Group
dollars amount g = record g {
  metrics = (unblended_cost, record { amount = some amount; unit = some (codes "USD") }) ∷ [];
}

abbrev bill : Str → Str → Group
bill key amount = dollars amount (record { keys = key ∷ []; metrics = [] })

abbrev at_start : Str → List Group → ResultByTime
at_start s gs = record { time_period = some (record { start = some s; end = none }); groups = gs }

abbrev two_days : List ResultByTime
two_days =
    at_start (codes "2026-07-01")
      (bill (codes "S3") (codes "2") ∷ bill (codes "EC2") (codes "10") ∷ [])
    ∷ record { time_period = none; groups = [] }
    ∷ at_start (codes "2026-07-02")
        (bill (codes "EC2") (codes "12") ∷ bill (codes "S3") (codes "x") ∷ [])
    ∷ []

abbrev expected : Series ℤ
expected = record {
  times = codes "2026-07-01" ∷ codes "2026-07-02" ∷ [];
  groups =
      record { key = codes "EC2"; values = pos 10 ∷ pos 12 ∷ []; total = pos 22 }
      ∷ record { key = codes "S3"; values = pos 2 ∷ pos 0 ∷ []; total = pos 2 }
      ∷ [];
  total = pos 24;
  currency = codes "USD";
  fetched_at = 5;
  cached = false;
}

two_days_run : aggregate 5 two_days ≡ some expected
unfolding program
two_days_run = refl

two_days-AreDistinct : AreDistinct {F = ℤ} (periods two_days)
unfolding program
two_days-AreDistinct = ((refl, (refl, tt)), ((refl, tt), tt))

aggregate_lem_example :
    (s : Series ℤ) × (aggregate 5 two_days ≡ some s) × IsSeriesOf 5 (periods two_days) s
aggregate_lem_example = aggregate_lem 5 two_days two_days-AreDistinct

aggregate-aligned_example :
    All (λ g. length g.values ≡ length expected.times) expected.groups
    × (length expected.groups ≤ max_groups + 1)
aggregate-aligned_example = aggregate-aligned 5 two_days two_days-AreDistinct two_days_run

aggregate-IsSorted_example :
    (sorted : List (GroupSeries ℤ)) × IsTable (periods two_days) sorted
    × IsSorted more sorted
    × All
        (λ g. All (λ h. ltb_ℤ g.total h.total ≡ false) (drop max_groups sorted))
        (take max_groups sorted)
    × Capped (length (periods {F = ℤ} two_days)) sorted expected.groups
unfolding whole-IsOrdered
aggregate-IsSorted_example =
    aggregate-IsSorted whole-IsOrdered 5 two_days two_days-AreDistinct (λ k. refl) two_days_run

-- A key that stands twice in its period shifts the values of its series.
abbrev repeated : List ResultByTime
repeated =
    at_start (codes "2026-07-01")
      (bill (codes "S3") (codes "2") ∷ bill (codes "S3") (codes "3") ∷ [])
    ∷ []

repeated_run :
    Option.map (λ (s : Series ℤ). map (λ g. g.values) s.groups) (aggregate 5 repeated)
    ≡ some ((pos 2 ∷ pos 3 ∷ []) ∷ [])
unfolding program
repeated_run = refl
