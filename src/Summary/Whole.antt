-- ===== src/Summary/Whole.antt =====
-- The whole of `fetchSummary`: what it returns where Cost Explorer answers, and where it fails.
use eksp.Base.{
  ℕ, suc, ◌≤◌, Str, lookup, length, List, Option, none, some, ◌≡◌, refl, ◌⊎◌, inl, inr, arith,
  Float, Outcome, ok, err,
}
use eksp.Explorer.{MetricValue}
use eksp.Time.{Time}
use eksp.Fetch.{Failure, map_ce_error, Request, Page}
use eksp.Fetch.Pages.{results_of, Served, Broken}
use eksp.Summary.{windows_of, service_request, ForecastRequest, summary_of, fetch_summary}
use eksp.Summary.Totals.{amounts_of, groups_of, sum_onto, by_service_lem, by_service-Broken}

-- The requests for this month up to now, and for the window of the last.
abbrev pub this_month : Time → Request
this_month now = service_request (windows_of now).month_start now

abbrev pub last_month : Time → Request
last_month now = service_request (windows_of now).prev_start (windows_of now).prev_end

module _ {ℓ} {F : Type ℓ} ⦃fl : Float F⦄ where
  -- The costs by service that pages add up to.
  abbrev pub IsTotals : List Page → List (Str × F) → Type ℓ
  IsTotals ps totals =
      (k : Str) → lookup k totals ≡ sum_onto none (amounts_of k (groups_of (results_of ps)))

module _ {ℓ} {F : Type ℓ} ⦃fl : Float F⦄ (client : Request → Outcome Failure Page)
    (forecast : ForecastRequest → Outcome Failure (Option MetricValue))
    (visit_totals : ℕ → List (Str × F) → List (Str × F))
    (visit_services : List Str → List Str) where
  -- Where the client serves both windows by pages, no more than there are rounds, `fetchSummary` returns
  -- the summary of the costs by service in them, whatever becomes of the forecast.
  pub fetch_summary_lem :
      (fuel : ℕ) (now : Time) (ps qs : List Page)
      → Served client (this_month now) ps
      → Served client (last_month now) qs
      → length ps ≤ fuel
      → length qs ≤ fuel
      → (current previous : List (Str × F)) × IsTotals ps current
        × IsTotals qs previous
        × (fetch_summary client forecast visit_totals visit_services fuel now
            ≡ some (
                ok (
                  summary_of client forecast visit_totals visit_services now
                    (windows_of now)
                    current
                    previous)))
  unfolding fetch_summary
  fetch_summary_lem fuel now ps qs hp hq lp lq =
      let (current, e, is_current) = by_service_lem client fuel (this_month now) ps hp lp in
      let (previous, e', is_previous) = by_service_lem client fuel (last_month now) qs hq lq in
      (current, previous, is_current, is_previous, rw (fetch_summary, e, e') refl)

  -- Where the client fails on a page of one window, having served what comes before, and there are
  -- rounds enough to get there, `fetchSummary` returns its error, as `mapCEError` maps it, and no part
  -- of the summary.
  pub fetch_summary-Broken :
      (fuel : ℕ) (now : Time) (ps qs : List Page) (e : Failure)
      → Broken client (this_month now) ps e
        ⊎ (Served client (this_month now) ps × Broken client (last_month now) qs e)
      → suc (length ps) ≤ fuel
      → suc (length qs) ≤ fuel
      → fetch_summary client forecast visit_totals visit_services fuel now
        ≡ some (err (map_ce_error e))
  unfolding fetch_summary
  fetch_summary-Broken fuel now ps qs e (inl h) lp lq =
      rw (fetch_summary, by_service-Broken {F = F} client fuel (this_month now) ps e h lp) refl
  fetch_summary-Broken fuel now ps qs e (inr (served, h)) lp lq =
      let (current, answered, _) =
        by_service_lem {F = F} client fuel (this_month now) ps served (omega (arith, lp)) in
      rw (fetch_summary, answered, by_service-Broken {F = F} client fuel (last_month now) qs e h lq)
        refl
