-- ===== src/Fetch.antt =====
-- Costs from Cost Explorer: `fetchCosts`, `mapCEError` and `Costs`,
-- apps/costwatch/backend/internal/costs/service.go. The client is a function from requests to pages or
-- errors. An error is its message, and whether `errors.Is` finds ErrHourlyNotEnabled in it.
pub mod Pages
mod Tests
use mathlib.Core.Logic.{ite}
use mathlib.Core.Option
use eksp.Base.{
  ℕ, zero, suc, ◌-◌, ◌*◌, ◌/◌, Str, codes, Str-discrete, cut_prefix, contains, to_lower, List, [],
  ◌∷◌, ◌++◌, Bool, true, Option, none, some, if◌then◌else◌, pos_part, Float, Outcome, ok, err,
}
use eksp.Query.{Query, hourly, daily, monthly, tag_prefix}
use eksp.Time.{
  Time, hour, days_before, truncate_hour, month_start, months_before, format_date, format_rfc3339,
}
use eksp.Explorer.{DateInterval, ResultByTime, unblended_cost}
use eksp.Aggregate.{Series, aggregate}

pub record Failure : Type 0 where
  pub message : Str
  pub is_hourly_not_enabled : Bool

abbrev pub hourly_not_enabled : Str
hourly_not_enabled =
    codes
      "hourly granularity requires the 'Hourly and Resource Level Data' opt-in (Billing → Cost Management preferences); it also limits history to 14 days"

-- `mapCEError`; "%w: %v" wraps the first and prints both.
unfoldable pub map_ce_error : Failure → Failure
map_ce_error e =
    if contains (to_lower e.message) (codes "hourly")
    then record {
      message = hourly_not_enabled ++ (codes ": " ++ e.message);
      is_hourly_not_enabled = true;
    }
    else e

pub data GroupType : Type 0 where
  dimension : GroupType
  tag : GroupType

pub record GroupDefinition : Type 0 where
  pub type : GroupType
  pub key : Str

pub record Request : Type 0 where
  pub time_period : DateInterval
  pub granularity : Str
  pub metrics : List Str
  pub group_by : List GroupDefinition
  pub next_page_token : Option Str

pub record Page : Type 0 where
  pub results : List ResultByTime
  pub next_page_token : Option Str

-- The period that a normalized query asks for. Its days are positive; the months, a thirtieth of them,
-- are at least one.
unfoldable pub period_of : Time → Query → DateInterval
period_of now q =
    let days = pos_part q.days in
    ite (Str-discrete q.granularity hourly)
      (record {
        start = some (format_rfc3339 (truncate_hour now - days * 24 * hour));
        end = some (format_rfc3339 (truncate_hour now));
      })
      (ite (Str-discrete q.granularity daily)
        (record { start = some (format_date (days_before days now)); end = some (format_date now) })
        (ite (Str-discrete q.granularity monthly)
          (record {
            start = some (format_date (months_before (days / 30 - 1) (month_start now)));
            end = some (format_date now);
          })
          (record { start = some []; end = some [] })))

unfoldable pub group_of : Str → GroupDefinition
group_of group_by = elim (cut_prefix group_by tag_prefix) [
  | some key ↦ record { type = tag; key = key }
  | none ↦ record { type = dimension; key = group_by }
]

unfoldable pub request_of : Time → Query → Request
unfolding period_of group_of
request_of now q = record {
  time_period = period_of now q;
  granularity = q.granularity;
  metrics = unblended_cost ∷ [];
  group_by = group_of q.group_by ∷ [];
  next_page_token = none;
}

-- The token of the next page: a nil or empty one ends the loop.
unfoldable pub next_token : Page → Option Str
next_token p = elim p.next_page_token [ none ↦ none | some [] ↦ none | some (c ∷ s) ↦ some (c ∷ s) ]

module _ (client : Request → Outcome Failure Page) where
  -- The loop over the pages: `results` so far, `none` where the rounds run out.
  unfoldable pub fetch_pages :
      ℕ → Request → List ResultByTime → Option (Outcome Failure (List ResultByTime))
  fetch_pages zero input results = none
  fetch_pages (suc fuel) input results = elim (client input) [
    | err e ↦ some (err (map_ce_error e))
    | ok out ↦ elim (next_token out) [
      | none ↦ some (ok (results ++ out.results))
      | some token ↦
          fetch_pages fuel (record input { next_page_token = some token }) (results ++ out.results)
    ]
  ]

  module _ {ℓ} {F : Type ℓ} ⦃fl : Float F⦄ where
    -- `fetchCosts`: `none` also where `aggregate` panics. `stamp` is the instant of `FetchedAt`.
    unfoldable pub fetch_costs : ℕ → Time → Time → Query → Option (Outcome Failure (Series F))
    unfolding request_of fetch_pages aggregate
    fetch_costs fuel now stamp q = elim (fetch_pages fuel (request_of now q) []) [
      | none ↦ none
      | some (err e) ↦ some (err e)
      | some (ok results) ↦ Option.map ok (aggregate stamp results)
    ]
