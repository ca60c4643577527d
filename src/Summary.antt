-- ===== src/Summary.antt =====
-- The summary of the month, apps/costwatch/backend/internal/costs/summary.go, with the types Mover and
-- Summary of types.go: the windows of this month and the last, the costs by service in each, the
-- forecast, and the services whose costs have moved most. The order in which Go's `range` visits a map
-- is a parameter. `sort.Slice` need not be stable: as that order is any, a stable sort stands for it.
pub mod Calendar
pub mod Totals
pub mod Movers
pub mod Whole
mod Tests
use mathlib.Core.Option
use eksp.Base.{
  ℕ, zero, suc, ◌-◌, ◌/◌, Str, codes, lookup, member, List, [], ◌∷◌, ◌++◌, map, foldl, take, Bool,
  false, Option, none, some, if◌then◌else◌, Float, sort_stable, Outcome, ok, err,
}
use eksp.Query.{monthly}
use eksp.Explorer.{DateInterval, MetricValue, Group, ResultByTime, unblended_cost}
use eksp.Cache.{assign}
use eksp.Time.{Time, day, month_start, months_after, months_before, days_after, format_date}
use eksp.Fetch.{Failure, map_ce_error, dimension, Request, Page, next_token}

pub record Mover {ℓ} (F : Type ℓ) : Type ℓ where
  pub service : Str
  pub current : F
  pub previous : F
  pub delta : F

pub record Summary {ℓ} (F : Type ℓ) : Type ℓ where
  pub month_to_date : F
  pub forecast_month_end : F
  pub prev_month_to_date : F
  pub delta_pct : F
  pub currency : Str
  pub top_movers : List (Mover F)
  pub fetched_at : Time
  pub cached : Bool

-- The instants that `fetchSummary` derives from the clock.
pub record Windows : Type 0 where
  pub month_start : Time
  pub prev_start : Time
  pub prev_end : Time
  pub next_month : Time

unfoldable pub windows_of : Time → Windows
windows_of now =
    let start = month_start now in
    let prev_start = months_before 1 start in
    let day_offset = (now - start) / day in
    record {
      month_start = start;
      prev_start = prev_start;
      prev_end = days_after day_offset prev_start;
      next_month = months_after 1 start;
    }

-- The request of `byService`.
unfoldable pub service_request : Time → Time → Request
service_request start end = record {
  time_period = record { start = some (format_date start); end = some (format_date end) };
  granularity = monthly;
  metrics = unblended_cost ∷ [];
  group_by = record { type = dimension; key = codes "SERVICE" } ∷ [];
  next_page_token = none;
}

pub record ForecastRequest : Type 0 where
  pub time_period : DateInterval
  pub metric : Str
  pub granularity : Str

unfoldable pub forecast_request : Time → Time → ForecastRequest
forecast_request now next_month = record {
  time_period = record { start = some (format_date now); end = some (format_date next_month) };
  metric = codes "UNBLENDED_COST";
  granularity = monthly;
}

-- `seen[k] = true`
unfoldable pub add_seen : List Str → Str → List Str
unfolding member
add_seen seen k = if member seen k then seen else seen ++ k ∷ []

module _ {ℓ} {F : Type ℓ} ⦃fl : Float F⦄ where
  open fl use {nought, add, sub, mul, div, neg, hundred, lt, parse_float}

  -- The first key of a group and its amount, if it has both and the amount is a number.
  unfoldable pub read_amount : Group → Option (Str × F)
  unfolding lookup
  read_amount g = elim g.keys [
    | [] ↦ none
    | key ∷ _ ↦ elim (lookup unblended_cost g.metrics) [
      | none ↦ none
      | some m ↦ elim m.amount [
        | none ↦ none
        | some text ↦ Option.map (λ (v : F). (key, v)) (parse_float text)
      ]
    ]
  ]

  -- `m[key]` of a map of numbers: a key that is not there reads as zero.
  abbrev pub amount_at : Str → List (Str × F) → F
  amount_at key m = Option.get_or (lookup key m) nought

  -- `totals[key] += v`
  unfoldable pub add_amount : List (Str × F) → Group → List (Str × F)
  add_amount totals g = elim (read_amount g) [
    | none ↦ totals
    | some (key, v) ↦ assign key (add (amount_at key totals) v) totals
  ]

  unfoldable pub add_result : List (Str × F) → ResultByTime → List (Str × F)
  add_result totals r = foldl add_amount totals r.groups

  -- The loop of `byService` over the pages: `none` where the rounds run out.
  unfoldable pub by_service :
      (Request → Outcome Failure Page)
      → ℕ
      → Request
      → List (Str × F)
      → Option (Outcome Failure (List (Str × F)))
  by_service client zero input totals = none
  by_service client (suc fuel) input totals = elim (client input) [
    | err e ↦ some (err (map_ce_error e))
    | ok out ↦ elim (next_token out) [
      | none ↦ some (ok (foldl add_result totals out.results))
      | some token ↦
          by_service client fuel (record input { next_page_token = some token })
            (foldl add_result totals out.results)
    ]
  ]

  unfoldable pub abs : F → F
  abs v = if lt v nought then neg v else v

  -- `seen`, the keys of both maps.
  unfoldable pub services : List (Str × F) → List (Str × F) → List Str
  unfolding add_seen
  services current previous = foldl add_seen [] (map (λ p. p.0) current ++ map (λ p. p.0) previous)

  abbrev pub mover_of : List (Str × F) → List (Str × F) → Str → Mover F
  mover_of current previous service = record {
    service = service;
    current = amount_at service current;
    previous = amount_at service previous;
    delta = sub (amount_at service current) (amount_at service previous);
  }

  unfoldable pub moves_more : Mover F → Mover F → Bool
  moves_more a b = lt (abs b.delta) (abs a.delta)

  unfoldable pub top_movers :
      (List Str → List Str) → List (Str × F) → List (Str × F) → List (Mover F)
  unfolding sort_stable
  top_movers visit current previous =
      take 5 (
        sort_stable moves_more
          (map (mover_of current previous) (visit (services current previous))))

  -- `for _, v := range m { sum += v }`
  abbrev pub sum_of : List (Str × F) → F
  sum_of m = foldl add nought (map (λ p. p.1) m)

  unfoldable pub delta_pct : F → F → F
  delta_pct current previous =
      if lt nought previous then mul (div (sub current previous) previous) hundred else nought

  -- What the forecast adds: nothing if it fails, or has no total, or one that is no number.
  unfoldable pub forecast_of : Outcome Failure (Option MetricValue) → F
  forecast_of (err e) = nought
  forecast_of (ok none) = nought
  forecast_of (ok (some m)) = elim m.amount [
    | none ↦ nought
    | some text ↦ Option.get_or (parse_float text) nought
  ]

  module _ (client : Request → Outcome Failure Page)
      (forecast : ForecastRequest → Outcome Failure (Option MetricValue))
      (visit_totals : ℕ → List (Str × F) → List (Str × F))
      (visit_services : List Str → List Str) where
    -- What `fetchSummary` makes of the costs by service in both windows.
    unfoldable pub summary_of : Time → Windows → List (Str × F) → List (Str × F) → Summary F
    summary_of now w current previous =
        let month_to_date = sum_of (visit_totals 0 current) in
        let prev_month_to_date = sum_of (visit_totals 1 previous) in
        record {
          month_to_date = month_to_date;
          forecast_month_end = forecast_of (forecast (forecast_request now w.next_month));
          prev_month_to_date = prev_month_to_date;
          delta_pct = delta_pct month_to_date prev_month_to_date;
          currency = codes "USD";
          top_movers = top_movers visit_services current previous;
          fetched_at = now;
          cached = false;
        }

    -- `fetchSummary`, with as many rounds for each of the two loops over pages.
    unfoldable pub fetch_summary : ℕ → Time → Option (Outcome Failure (Summary F))
    fetch_summary fuel now =
        let w = windows_of now in
        elim (by_service client fuel (service_request w.month_start now) []) [
          | none ↦ none
          | some (err e) ↦ some (err e)
          | some (ok current) ↦
              elim (by_service client fuel (service_request w.prev_start w.prev_end) []) [
                | none ↦ none
                | some (err e) ↦ some (err e)
                | some (ok previous) ↦ some (ok (summary_of now w current previous))
              ]
        ]
