-- ===== src/Demo.antt =====
-- The demo client, apps/costwatch/backend/internal/costs/demo.go: Cost Explorer's answers made up from
-- a table of services and a wave. The order in which Go's `range` visits a map is the parameter `visit`.
-- The results that a loop appends are those of the periods that it goes through. `none` is a loop whose
-- rounds run out, or the panic of a nil pointer. The texts of `time.Parse`'s errors are a parameter.
pub mod Names
pub mod Firsts
pub mod Periods
pub mod Points
pub mod Range
pub mod Answers
pub mod Month
mod Tests
use mathlib.Core.Option
use mathlib.Core.Logic.{ite}
use eksp.Base.{
  ℕ, zero, suc, ◌+◌, Str, codes, Str-discrete, lookup, List, [], ◌∷◌, ◌++◌, map, foldl, Bool, true,
  false, Option, none, some, ltb, if◌then◌else◌, pos, Float, sort_stable, Outcome, ok, err,
}
use eksp.Query.{hourly, monthly}
use eksp.Explorer.{MetricValue, Group, ResultByTime, unblended_cost}
use eksp.Time.{
  Time, hour, day, month_start, months_after, format_date, format_rfc3339, parse_date,
  parse_rfc3339,
}
use eksp.Fetch.{Failure, GroupDefinition, Request, Page}
use eksp.Summary.{ForecastRequest}
use eksp.Wave.{Math, hours, sub_time, zero_time, demo_services, demo_keys, wave}

-- `<` on texts
unfoldable pub str_less : Str → Str → Bool
str_less [] [] = false
str_less [] (d ∷ t) = true
str_less (c ∷ s) [] = false
str_less (c ∷ s) (d ∷ t) =
    let rest = str_less s t in if ltb c d then true else if ltb d c then false else rest

-- `parseDemoTime`
unfoldable pub parse_demo_time : Str → Option Time
parse_demo_time s = elim (parse_date s) [ some t ↦ some t | none ↦ parse_rfc3339 s ]

-- `maxTime`
unfoldable pub max_time : Time → Time → Time
max_time a b = if ltb b a then a else b

-- A period of the answer, and what its amounts are multiplied by.
pub record Period {ℓ} (F : Type ℓ) : Type ℓ where
  pub start : Time
  pub end : Time
  pub scale : F

abbrev pub is_hourly : Str → Bool
is_hourly granularity = ite (Str-discrete granularity hourly) true false

abbrev pub in_layout : Str → Time → Str
in_layout granularity t = if is_hourly granularity then format_rfc3339 t else format_date t

abbrev pub demo_error : (Str → Str) → Str → Str → Failure
demo_error parse_error what s = record {
  message = codes "demo: bad " ++ (what ++ (codes ": " ++ parse_error s));
  is_hourly_not_enabled = false;
}

abbrev pub demo_group_by : List GroupDefinition → Str
demo_group_by [] = codes "SERVICE"
demo_group_by (g ∷ gs) = g.key

-- `names`, sorted
unfoldable pub sorted_names {ℓ} : {F : Type ℓ} → (List Str → List Str) → List (Str × F) → List Str
sorted_names visit keys = sort_stable str_less (visit (map (λ p. p.0) keys))

module _ {ℓ} {F : Type ℓ} ⦃fl : Float F⦄ ⦃m : Math F⦄ where
  open fl use {nought, mul, div}
  open m use {whole, format_float}

  -- `keys[key]`
  abbrev pub base_of : List (Str × F) → Str → F
  base_of keys key = Option.get_or (lookup key keys) nought

  unfoldable pub group_of_key : Str → List (Str × F) → Period F → Str → Group
  unfolding wave
  group_of_key granularity keys p key =
      let amount = mul (mul (base_of keys key) p.scale) (wave key p.start) in
      record {
        keys = key ∷ [];
        metrics =
            (
              unblended_cost,
              record {
                amount = some (
                    format_float 6
                      (if is_hourly granularity then div amount (whole (pos 24)) else amount));
                unit = some (codes "USD");
              },
            )
            ∷ [];
      }

  -- `emit`
  unfoldable pub emit : Str → List (Str × F) → List Str → Period F → ResultByTime
  emit granularity keys names p = record {
    time_period = some (record {
      start = some (in_layout granularity p.start);
      end = some (in_layout granularity p.end);
    });
    groups = map (group_of_key granularity keys p) names;
  }

  -- The loop over hours or days.
  unfoldable pub step_periods : ℕ → ℕ → Time → Time → Option (List (Period F))
  step_periods zero step cur end = none
  step_periods (suc fuel) step cur end = elim (ltb cur end) [
    | false ↦ some []
    | true ↦
        Option.map (◌∷◌ (record { start = cur; end = cur + step; scale = whole (pos 1) }))
          (step_periods fuel step (cur + step) end)
  ]

  -- The loop over months, from the first day of one.
  unfoldable pub month_periods : ℕ → Time → Time → Time → Option (List (Period F))
  month_periods zero start cur end = none
  month_periods (suc fuel) start cur end =
      let next = months_after 1 cur in
      let p_end = if ltb end next then end else next in
      let p_start = max_time cur start in
      elim (ltb cur end) [
        | false ↦ some []
        | true ↦
            Option.map
              (◌∷◌ (record {
                start = p_start;
                end = p_end;
                scale = div (hours (sub_time p_end p_start)) (whole (pos 24));
              }))
              (month_periods fuel start next end)
      ]

  unfoldable pub periods_of : ℕ → Str → Time → Time → Option (List (Period F))
  unfolding step_periods month_periods
  periods_of fuel granularity start end =
      ite (Str-discrete granularity monthly) (month_periods fuel start (month_start start) end) (
        ite (Str-discrete granularity hourly) (step_periods fuel hour start end)
          (step_periods fuel day start end))

module _ {ℓ} (F : Type ℓ) ⦃fl : Float F⦄ ⦃m : Math F⦄ where
  open fl use {nought, add, mul, div}
  open m use {whole, format_float}

  -- `GetCostAndUsage` with the sorted names of its table.
  unfoldable pub answer : (Str → Str) → List Str → ℕ → Request → Option (Outcome Failure Page)
  unfolding demo_keys emit
  answer parse_error names fuel r = elim r.time_period.start [
    | none ↦ none
    | some start_text ↦ elim (parse_demo_time start_text) [
      | none ↦ some (err (demo_error parse_error (codes "start") start_text))
      | some start ↦ elim r.time_period.end [
        | none ↦ none
        | some end_text ↦ elim (parse_demo_time end_text) [
          | none ↦ some (err (demo_error parse_error (codes "end") end_text))
          | some end ↦
              Option.map
                (λ (ps : List (Period F)). ok (record {
                  results =
                      map (emit r.granularity (demo_keys (demo_group_by r.group_by)) names) ps;
                  next_page_token = none;
                }))
                (periods_of fuel r.granularity start end)
        ]
      ]
    ]
  ]

  -- `GetCostForecast` with the sorted names of the services.
  unfoldable pub forecast_answer :
      List Str → Time → Time → Option (Outcome Failure (Option MetricValue))
  unfolding demo_services wave sub_time
  forecast_answer names start end =
      let days = div (hours (sub_time end start)) (whole (pos 24)) in
      let daily =
        foldl (λ (sum : F) key. add sum (mul (base_of demo_services key) (wave key start))) nought
          names in
      some (
        ok (
          some (record {
            amount = some (format_float 2 (mul daily days));
            unit = some (codes "USD");
          })))

  module _ (parse_error : Str → Str) (visit : List Str → List Str) where
    unfoldable pub get_cost_and_usage : ℕ → Request → Option (Outcome Failure Page)
    get_cost_and_usage fuel r =
        answer parse_error (sorted_names visit (demo_keys {F = F} (demo_group_by r.group_by))) fuel
          r

    -- A time that is not read is the zero one.
    unfoldable pub get_cost_forecast :
        ForecastRequest → Option (Outcome Failure (Option MetricValue))
    unfolding parse_demo_time
    get_cost_forecast r = elim r.time_period.start [
      | none ↦ none
      | some start_text ↦ elim r.time_period.end [
        | none ↦ none
        | some end_text ↦
            forecast_answer (sorted_names {F = F} visit demo_services)
              (Option.get_or (parse_demo_time start_text) zero_time)
              (Option.get_or (parse_demo_time end_text) zero_time)
      ]
    ]
