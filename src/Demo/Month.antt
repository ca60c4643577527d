-- ===== src/Demo/Month.antt =====
-- The summary of the month on the demo client.
use eksp.Base.{
  ℕ, ◌*◌, ◌/◌, ◌≤◌, ◌<◌, Str, Str-discrete, codes, List, [], ◌∷◌, Option, some, ◌≡◌, refl, arith,
  Float, Outcome, ok,
}
use eksp.Query.{monthly}
use eksp.Explorer.{MetricValue}
use eksp.Time.{Time, day, date_of}
use eksp.Fetch.{Failure, Request, Page, next_token}
use eksp.Fetch.Pages.{Served}
use eksp.Summary.{ForecastRequest, windows_of, service_request, summary_of, fetch_summary}
use eksp.Summary.Calendar.{windows_of-IsWindows}
use eksp.Summary.Whole.{IsTotals, fetch_summary_lem}
use eksp.Wave.{Math, demo_keys}
use eksp.Demo.{Period, sorted_names, get_cost_and_usage, periods_of}
use eksp.Demo.Periods.{Tiles, month_periods-Tiles}
use eksp.Demo.Range.{year_10000, year_small, parse_demo_time-format}
use eksp.Demo.Answers.{demo_page, answer_read}

module _ {F : Type 0} ⦃fl : Float F⦄ ⦃m : Math F⦄ (parse_error : Str → Str)
    (visit : List Str → List Str) (fuel : ℕ) (client : Request → Outcome Failure Page)
    (answers : (r : Request) (o : Outcome Failure Page)
      → get_cost_and_usage F parse_error visit fuel r ≡ some o
      → client r ≡ o) where
  -- The demo client serves a window by one page, whose periods cover its days.
  service_request-Served :
      (start end : Time)
      → start ≤ end
      → end < year_10000
      → end < fuel
      → (ps : List (Period F)) × Tiles (start / day * day) (end / day * day) ps
        × Served client
            (service_request start end)
            (demo_page parse_error visit monthly (codes "SERVICE") ps ∷ [])
  unfolding service_request get_cost_and_usage periods_of next_token Str-discrete
  service_request-Served start end le small enough =
      let a = start / day * day in
      let b = end / day * day in
      let (ps, ends, tiles) =
        month_periods-Tiles {F = F} fuel a b (omega (arith, le)) (omega (arith, enough)) in
      let covered : periods_of {F = F} fuel monthly a b ≡ some ps = ends in
      let start_read =
        (parse_demo_time-format start (year_small start (omega (arith, le, small)))).0 in
      let end_read = (parse_demo_time-format end (year_small end small)).0 in
      let r = service_request start end in
      let names = sorted_names visit (demo_keys {F = F} (codes "SERVICE")) in
      let answered = answer_read parse_error visit names fuel r refl start_read end_read covered in
      (ps, tiles, (answers r _ answered, refl))

  abbrev pub service_page : List (Period F) → Page
  service_page = demo_page parse_error visit monthly (codes "SERVICE")

  -- From the year 1 on and before the year 10000, with more rounds than the clock shows seconds: a
  -- client that answers as the demo client does makes `fetchSummary` return the summary of what the
  -- demo makes up for the whole days of both windows, a month at a time.
  pub fetch_summary-demo :
      (forecast : ForecastRequest → Outcome Failure (Option MetricValue))
      (visit_totals : ℕ → List (Str × F) → List (Str × F)) (visit_services : List Str → List Str)
      (rounds : ℕ) (now : Time)
      → 1 ≤ (date_of now).year
      → now < year_10000
      → now < fuel
      → 1 ≤ rounds
      → (ps qs : List (Period F)) × (current previous : List (Str × F)) × Tiles
          ((windows_of now).month_start / day * day)
          (now / day * day)
          ps
        × Tiles ((windows_of now).prev_start / day * day) ((windows_of now).prev_end / day * day) qs
        × IsTotals (service_page ps ∷ []) current
        × IsTotals (service_page qs ∷ []) previous
        × (fetch_summary client forecast visit_totals visit_services rounds now
            ≡ some (
                ok (
                  summary_of client forecast visit_totals visit_services now
                    (windows_of now)
                    current
                    previous)))
  fetch_summary-demo forecast visit_totals visit_services rounds now year small enough one =
      let w = windows_of now in
      let is = windows_of-IsWindows now year in
      let (ps, tiles, served) = service_request-Served w.month_start now is.started small enough in
      let past : w.prev_end ≤ now = omega (arith, is.started, is.prev_days, is.same_days) in
      let (qs, tiles', served') =
        service_request-Served w.prev_start w.prev_end (omega (arith, is.same_days))
          (omega (arith, past, small)) (omega (arith, past, enough)) in
      let (current, previous, is_current, is_previous, e) =
        fetch_summary_lem {F = F} client forecast visit_totals visit_services rounds now
          (service_page ps ∷ []) (service_page qs ∷ []) served served' one one in
      (ps, qs, current, previous, tiles, tiles', is_current, is_previous, e)
