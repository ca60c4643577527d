-- ===== src/Demo/Tests.antt =====
-- The demo client with whole numbers for its amounts.
use mathlib.Core.Option
use mathlib.Core.List.{reverse, reverse_perm}
use mathlib.Core.Bool.{false}
use mathlib.Core.List.Perm
use eksp.Base.{
  whole_float, ℕ, ◌+◌, ◌*◌, ◌<◌, Str, codes, List, [], length, suc, ◌/◌, some, ◌≡◌, refl, ap, inl,
  inr, arith, ℤ, pos, Outcome, ok, err,
}
use eksp.Query.{Query, daily}
use eksp.Time.{
  Time, day, date_of, date_of_day, day_number, month_start, months_after, format_date,
  format_rfc3339, days_before_year,
}
use eksp.Aggregate.{Series}
use eksp.Aggregate.Cells.{periods}
use eksp.Aggregate.Cap.{IsSeriesOf}
use eksp.Fetch.{Failure, Request, Page, group_of, fetch_costs}
use eksp.Summary.{ForecastRequest}
use eksp.Wave.{whole_math, fnv32a}
use eksp.Demo.{Period, parse_demo_time, month_periods, get_cost_and_usage, get_cost_forecast}
use eksp.Demo.Range.{parse_demo_time-format, year_10000, IsRead}
use eksp.Demo.Answers.{AreCovering, demo_page, fetch_costs-demo, demo-visit}

program : Unit {0}
unfolding fnv32a parse_demo_time month_periods get_cost_and_usage date_of date_of_day day_number
    month_start months_after format_date format_rfc3339 days_before_year
program = tt

-- The first test vectors of FNV-1a.
fnv32a_empty : fnv32a [] ≡ 2166136261
unfolding program
fnv32a_empty = refl

fnv32a_a : fnv32a (codes "a") ≡ 3826002220
unfolding program
fnv32a_a = refl

fnv32a_foobar : fnv32a (codes "foobar") ≡ 3214735720
unfolding program
fnv32a_foobar = refl

-- 2026-07-03T12:00:00Z
abbrev noon : Time
noon = 740165 * 86400 + 43200

noon_year : (date_of noon).year ≡ 2026
unfolding program
noon_year = refl

parse_demo_time-format_example :
    (parse_demo_time (format_date noon) ≡ some (noon / day * day))
    × (parse_demo_time (format_rfc3339 noon) ≡ some noon)
parse_demo_time-format_example = parse_demo_time-format noon (omega (arith, noon_year))

abbrev no_text : Str → Str
no_text s = []

abbrev same : List Str → List Str
same ks = ks

abbrev backwards : List Str → List Str
backwards ks = reverse ks

-- From the third of July to the first of September.
abbrev fall : Time
fall = noon + 60 * 86400

month_periods_run :
    Option.map length (month_periods {F = ℤ} 9 noon (month_start noon) fall) ≡ some 3
unfolding program
month_periods_run = refl

abbrev query : Query
query = record { granularity = daily; group_by = codes "LINKED_ACCOUNT"; days = pos 2 }

abbrev client : Request → Outcome Failure Page
client r =
    Option.get_or (get_cost_and_usage ℤ no_text same (suc noon) r)
      (err (record { message = []; is_hourly_not_enabled = false }))

small : noon < year_10000
unfolding program
small = omega arith

fetch_costs-demo_example :
    (r : IsRead noon query) × (ps : List (Period ℤ)) × (s : Series ℤ) × AreCovering daily r.start
      r.end ps
    × (fetch_costs client 1 noon 5 query ≡ some (ok s))
    × IsSeriesOf 5
        (periods (demo_page no_text same daily (group_of query.group_by).key ps).results)
        s
fetch_costs-demo_example =
    fetch_costs-demo no_text same (suc noon) 1 noon 5 query client (λ ks. Perm.refl ks)
      (λ r o e.
        ap (λ x. Option.get_or x (err (record { message = []; is_hourly_not_enabled = false }))) e)
      small (omega arith) (omega arith) (inr (inl refl))

demo-visit_example :
    ((fuel : ℕ) (r : Request)
      → get_cost_and_usage ℤ no_text same fuel r ≡ get_cost_and_usage ℤ no_text backwards fuel r)
    × ((r : ForecastRequest)
        → get_cost_forecast ℤ no_text same r ≡ get_cost_forecast ℤ no_text backwards r)
demo-visit_example =
    demo-visit ℤ no_text same backwards (λ ks. Perm.refl ks) (λ ks. reverse_perm ks)
