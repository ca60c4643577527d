-- ===== src/Summary/Tests.antt =====
-- A July in which one service is new, and a client that fails on the window of the month before.
use mathlib.Core.List.Perm
use mathlib.Core.Option
use mathlib.Core.Logic.{ite}
use eksp.Base.{
  whole_float, ℕ, ◌+◌, ◌*◌, Str, codes, Str-discrete, lookup, member, contains, to_lower, List, [],
  ◌∷◌, take, false, Option, none, some, ◌≡◌, refl, inr, ℤ, pos, negsuc, ◌+ℤ◌, ◌-ℤ◌, atoi,
  whole-IsOrdered, sort_stable, Outcome, ok, err, arith,
}
use eksp.Explorer.{MetricValue, Group, unblended_cost}
use eksp.Time.{Time, date_of, date_of_day, month_start, months_before, day_number, format_date}
use eksp.Cache.{assign}
use eksp.Fetch.{Failure, map_ce_error, Request, Page, next_token}
use eksp.Fetch.Pages.{Served, Broken}
use eksp.Summary.{
  Mover, Summary, windows_of, service_request, ForecastRequest, read_amount, add_amount, add_result,
  by_service, abs, services, moves_more, top_movers, summary_of, fetch_summary,
}
use eksp.Summary.Calendar.{IsWindows, windows_of-IsWindows}
use eksp.Summary.Movers.{IsRanking, top_movers_lem}
use eksp.Summary.Whole.{this_month, last_month, IsTotals, fetch_summary_lem, fetch_summary-Broken}

program : Unit {0}
unfolding windows_of service_request read_amount add_amount by_service abs services moves_more
    top_movers summary_of fetch_summary next_token Str-discrete lookup member contains to_lower atoi
    ◌+ℤ◌ sort_stable date_of date_of_day month_start format_date day_number months_before add_result
    assign ◌-ℤ◌ whole-IsOrdered
program = tt

-- 2026-07-03T12:00:00Z
abbrev noon : Time
noon = 740165 * 86400 + 43200

noon_year : (date_of noon).year ≡ 2026
unfolding program
noon_year = refl

windows_of-IsWindows_example : IsWindows noon (date_of noon) (windows_of noon)
windows_of-IsWindows_example = windows_of-IsWindows noon (omega (arith, noon_year))

abbrev bill : Str → Str → Group
bill key amount = record {
  keys = key ∷ [];
  metrics = (unblended_cost, record { amount = some amount; unit = some (codes "USD") }) ∷ [];
}

abbrev month : List Group → Page
month gs = record {
  results = record { time_period = none; groups = gs } ∷ [];
  next_page_token = none;
}

abbrev july : Page
july = month (
    bill (codes "EC2") (codes "10")
    ∷ bill (codes "S3") (codes "3")
    ∷ bill (codes "EC2") (codes "5")
    ∷ [])

abbrev june : Page
june = month (bill (codes "S3") (codes "9") ∷ bill (codes "Tax") (codes "none") ∷ [])

abbrev refusal : Failure
refusal = record { message = codes "Hourly data is off"; is_hourly_not_enabled = false }

abbrev client : Request → Outcome Failure Page
client r =
    ite (Str-discrete (Option.get_or r.time_period.start []) (codes "2026-07-01")) (ok july)
      (ok june)

abbrev failing : Request → Outcome Failure Page
failing r =
    ite (Str-discrete (Option.get_or r.time_period.start []) (codes "2026-07-01")) (ok july)
      (err refusal)

abbrev no_forecast : ForecastRequest → Outcome Failure (Option MetricValue)
no_forecast r = err refusal

abbrev same : List Str → List Str
same ks = ks

abbrev same_totals : ℕ → List (Str × ℤ) → List (Str × ℤ)
same_totals n m = m

abbrev movers_of : Outcome Failure (Summary ℤ) → List (Mover ℤ)
movers_of (err e) = []
movers_of (ok s) = s.top_movers

fetch_summary_run :
    Option.map movers_of (fetch_summary client no_forecast same_totals same 2 noon)
    ≡ some (
        record { service = codes "EC2"; current = pos 15; previous = pos 0; delta = pos 15 }
        ∷ record { service = codes "S3"; current = pos 3; previous = pos 9; delta = negsuc 5 }
        ∷ [])
unfolding program
fetch_summary_run = refl

july-Served : Served client (this_month noon) (july ∷ [])
unfolding program
july-Served = (refl, refl)

june-Served : Served client (last_month noon) (june ∷ [])
unfolding program
june-Served = (refl, refl)

abbrev current : List (Str × ℤ)
current = (codes "EC2", pos 15) ∷ (codes "S3", pos 3) ∷ []

abbrev previous : List (Str × ℤ)
previous = (codes "S3", pos 9) ∷ []

top_movers_lem_example :
    (ranking : List (Mover ℤ)) × IsRanking current previous ranking
    × (top_movers same current previous ≡ take 5 ranking)
unfolding program
top_movers_lem_example =
    top_movers_lem whole-IsOrdered same (λ ks. Perm.refl ks) current previous (λ k. refl)

fetch_summary_lem_example :
    (current previous : List (Str × ℤ)) × IsTotals (july ∷ []) current
    × IsTotals (june ∷ []) previous
    × (fetch_summary client no_forecast same_totals same 2 noon
        ≡ some (
            ok (
              summary_of client no_forecast same_totals same noon
                (windows_of noon)
                current
                previous)))
fetch_summary_lem_example =
    fetch_summary_lem client no_forecast same_totals same 2 noon (july ∷ []) (june ∷ []) july-Served
      june-Served (omega arith) (omega arith)

june-Broken : Broken failing (last_month noon) [] refusal
unfolding program
june-Broken = refl

july_of_failing-Served : Served failing (this_month noon) (july ∷ [])
unfolding program
july_of_failing-Served = (refl, refl)

fetch_summary-Broken_example :
    fetch_summary failing no_forecast same_totals same 2 noon ≡ some (err (map_ce_error refusal))
fetch_summary-Broken_example =
    fetch_summary-Broken failing no_forecast same_totals same 2 noon (july ∷ []) [] refusal
      (inr (july_of_failing-Served, june-Broken)) (omega arith) (omega arith)
