-- ===== src/Demo/Answers.antt =====
-- What the demo client answers: the same whatever the order of its maps, and never an error where
-- `fetchCosts` asks.
use mathlib.Core.Option
use mathlib.Core.Path.{subst}
use mathlib.Core.List.{Perm}
use eksp.Base.{
  ℕ, ◌≤◌, ◌<◌, Str, Str-discrete, List, [], ◌∷◌, map, append-nil, none, some, ◌≡◌, refl, sym, ap,
  ◌∙◌, inl, inr, arith, Float, Outcome, ok,
}
use eksp.Query.{Query, hourly, daily, monthly}
use eksp.Query.Normalize.{IsKnown}
use eksp.Time.{Time, hour, day}
use eksp.Aggregate.{Series}
use eksp.Aggregate.Cells.{periods, AreDistinct}
use eksp.Aggregate.Cap.{IsSeriesOf}
use eksp.Fetch.{Failure, Request, Page, request_of, group_of, next_token, fetch_costs}
use eksp.Fetch.Pages.{fetch_costs_lem, results_of}
use eksp.Summary.{ForecastRequest}
use eksp.Wave.{Math, zero_time, demo_services, demo_keys}
use eksp.Demo.{
  Period, sorted_names, emit, periods_of, demo_group_by, parse_demo_time, answer,
  get_cost_and_usage, forecast_answer, get_cost_forecast,
}
use eksp.Demo.Names.{sorted_names-visit, sorted_names-Distinct}
use eksp.Demo.Periods.{IsRun, Tiles, step_periods-IsRun, month_periods-Tiles}
use eksp.Demo.Points.{demo_keys-Distinct, emit-AreDistinct}
use eksp.Demo.Range.{year_10000, IsRead, period_of-IsRead}

module _ {F : Type 0} ⦃fl : Float F⦄ ⦃m : Math F⦄ where
  -- The periods of an answer: hours or days one after the other, or one for each month.
  pub record AreCovering (granularity : Str) (start end : Time) (ps : List (Period F))
      : Type 0 where
    pub hours : granularity ≡ hourly → IsRun hour start end ps
    pub days : granularity ≡ daily → IsRun day start end ps
    pub months : granularity ≡ monthly → Tiles start end ps

  periods_of-AreCovering :
      (fuel : ℕ) (granularity : Str) (start end : Time)
      → IsKnown granularity
      → start ≤ end
      → end < fuel
      → (ps : List (Period F)) × (periods_of fuel granularity start end ≡ some ps)
        × AreCovering granularity start end ps
  unfolding periods_of Str-discrete
  periods_of-AreCovering fuel granularity start end (inl e) le enough =
      let (ps, ends, run) =
        step_periods-IsRun fuel hour start end (omega arith) (omega (arith, enough)) in
      (
        ps,
        rw (periods_of, e) ends,
        record {
          hours = λ h. run;
          days = λ h. absurd (ground (arith, sym e ∙ h));
          months = λ h. absurd (ground (arith, sym e ∙ h));
        },
      )
  periods_of-AreCovering fuel granularity start end (inr (inl e)) le enough =
      let (ps, ends, run) =
        step_periods-IsRun fuel day start end (omega arith) (omega (arith, enough)) in
      (
        ps,
        rw (periods_of, e) ends,
        record {
          hours = λ h. absurd (ground (arith, sym e ∙ h));
          days = λ h. run;
          months = λ h. absurd (ground (arith, sym e ∙ h));
        },
      )
  periods_of-AreCovering fuel granularity start end (inr (inr e)) le enough =
      let (ps, ends, tiles) = month_periods-Tiles fuel start end le (omega (arith, enough)) in
      (
        ps,
        rw (periods_of, e) ends,
        record {
          hours = λ h. absurd (ground (arith, sym e ∙ h));
          days = λ h. absurd (ground (arith, sym e ∙ h));
          months = λ h. tiles;
        },
      )

  module _ (parse_error : Str → Str) (visit : List Str → List Str) where
    -- The page that the demo client makes of periods.
    abbrev pub demo_page : Str → Str → List (Period F) → Page
    demo_page granularity group_by ps =
        let keys = demo_keys group_by in
        record {
          results = map (emit granularity keys (sorted_names visit keys)) ps;
          next_page_token = none;
        }

    pub answer_read :
        (names : List Str) (fuel : ℕ) (r : Request) {s e : Str} {start end : Time}
        {ps : List (Period F)}
        → r.time_period ≡ record { start = some s; end = some e }
        → parse_demo_time s ≡ some start
        → parse_demo_time e ≡ some end
        → periods_of fuel r.granularity start end ≡ some ps
        → answer F parse_error names fuel r
          ≡ some (
              ok (record {
                results = map (emit r.granularity (demo_keys (demo_group_by r.group_by)) names) ps;
                next_page_token = none;
              }))
    unfolding answer
    answer_read names fuel r asked start_read end_read ends =
        rw (answer, ap (λ d. d.start) asked, start_read, ap (λ d. d.end) asked, end_read, ends) refl

    get_cost_and_usage-IsRead :
        (fuel : ℕ) (now : Time) (q : Query) (r : IsRead now q) {ps : List (Period F)}
        → periods_of fuel q.granularity r.start r.end ≡ some ps
        → get_cost_and_usage F parse_error visit fuel (request_of now q)
          ≡ some (ok (demo_page q.granularity (group_of q.group_by).key ps))
    unfolding get_cost_and_usage request_of
    get_cost_and_usage-IsRead fuel now q r ends =
        answer_read (sorted_names visit (demo_keys {F = F} (group_of q.group_by).key)) fuel
          (request_of now q) r.asked r.start_read r.end_read ends

    -- Before the year 10000, and with more rounds than the clock shows seconds: a client that answers as
    -- the demo client does makes `fetchCosts` return, for every query with a known granularity, the
    -- series of the demo's periods, which are hours or days one after the other, or one for each month,
    -- over the whole of what the query asks for.
    pub fetch_costs-demo :
        (fuel rounds : ℕ) (now stamp : Time) (q : Query) (client : Request → Outcome Failure Page)
        → ((ks : List Str) → Perm (visit ks) ks)
        → ((r : Request) (o : Outcome Failure Page)
            → get_cost_and_usage F parse_error visit fuel r ≡ some o
            → client r ≡ o)
        → now < year_10000
        → now < fuel
        → 1 ≤ rounds
        → IsKnown q.granularity
        → (r : IsRead now q) × (ps : List (Period F)) × (s : Series F) × AreCovering q.granularity
            r.start r.end ps
          × (fetch_costs client rounds now stamp q ≡ some (ok s))
          × IsSeriesOf stamp
              (periods (demo_page q.granularity (group_of q.group_by).key ps).results)
              s
    unfolding next_token
    fetch_costs-demo fuel rounds now stamp q client any answers small enough one known =
        let r = period_of-IsRead now q small known in
        let (ps, ends, covering) =
          periods_of-AreCovering fuel q.granularity r.start r.end known r.ordered
            (omega (arith, r.past, enough)) in
        let group_by = (group_of q.group_by).key in
        let page = demo_page q.granularity group_by ps in
        let keys = demo_keys {F = F} group_by in
        let names = sorted_names-Distinct visit any keys (demo_keys-Distinct F group_by) in
        let served =
          answers (request_of now q) (ok page) (get_cost_and_usage-IsRead fuel now q r ends) in
        let all : page.results ≡ results_of (page ∷ []) = sym (append-nil page.results) in
        let (s, e, is_series) =
          fetch_costs_lem client {F = F} rounds now stamp q (page ∷ []) (served, refl) one
            (subst (λ rs. AreDistinct (periods {F = F} rs)) all
              (emit-AreDistinct q.granularity keys (sorted_names visit keys) ps names)) in
        (r, ps, s, covering, e, subst (λ rs. IsSeriesOf stamp (periods rs) s) (sym all) is_series)

-- Whatever the orders in which the maps of the tables are visited, the demo client answers the same.
pub demo-visit :
    (F : Type 0) ⦃fl : Float F⦄ ⦃m : Math F⦄ (parse_error : Str → Str)
    (visit visit' : List Str → List Str)
    → ((ks : List Str) → Perm (visit ks) ks)
    → ((ks : List Str) → Perm (visit' ks) ks)
    → ((fuel : ℕ) (r : Request)
        → get_cost_and_usage F parse_error visit fuel r
          ≡ get_cost_and_usage F parse_error visit' fuel r)
      × ((r : ForecastRequest)
          → get_cost_forecast F parse_error visit r ≡ get_cost_forecast F parse_error visit' r)
unfolding get_cost_and_usage get_cost_forecast
demo-visit F parse_error visit visit' any any' =
    let same = λ (keys : List (Str × F)). sorted_names-visit visit visit' any any' keys in
    (
      λ fuel r.
          ap (λ names. answer F parse_error names fuel r)
            (same (demo_keys (demo_group_by r.group_by))),
      λ r.
          ap
            (λ names. elim r.time_period.start [
              | none ↦ none
              | some s ↦ elim r.time_period.end [
                | none ↦ none
                | some e ↦
                    forecast_answer F names (Option.get_or (parse_demo_time s) zero_time)
                      (Option.get_or (parse_demo_time e) zero_time)
              ]
            ])
            (same demo_services),
    )
