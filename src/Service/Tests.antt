-- ===== src/Service/Tests.antt =====
-- A service with two tags, asked twice for the costs of a week.
use eksp.Base.{
  whole_float, ℕ, ◌+◌, ◌*◌, Str, codes, Str-discrete, cut_prefix, trim_space, lookup, member,
  contains, to_lower, List, [], ◌∷◌, true, false, none, some, ◌≡◌, ◌≤ℤ◌, refl, ℤ, pos, ◌+ℤ◌,
  pos_part, atoi, decimal_ℤ, ltb, Outcome, ok, err, arith, if◌then◌else◌,
}
use eksp.Query.{
  Query, daily, normalize, cache_key, check_granularity, check_group_by, set_days, clamp_daily,
  clamp,
}
use eksp.Explorer.{unblended_cost}
use eksp.Aggregate.{Series, aggregate}
use eksp.Time.{Time, date_of, date_of_day, format_date}
use eksp.Cache.{Entry, new_cache, fresh, begin, publish, store}
use eksp.Fetch.{Failure, Request, Page, next_token, fetch_costs, map_ce_error}
use eksp.Service.{Value, Service, Readings, with_ttl, with_allowed_tag_keys, new_service, costs}
use eksp.Service.Again.{marked, costs_again}

program : Unit {0}
unfolding aggregate fetch_costs next_token Str-discrete cut_prefix contains to_lower atoi ◌+ℤ◌
    member lookup trim_space normalize check_granularity check_group_by set_days clamp_daily clamp
    cache_key decimal_ℤ new_cache fresh begin publish store new_service with_ttl
    with_allowed_tag_keys costs date_of date_of_day format_date
program = tt

abbrev as_is : Str → Str
as_is s = s

abbrev service : Service ℤ
service =
    new_service (with_ttl (pos 100) ∷ with_allowed_tag_keys (codes " team" ∷ codes "" ∷ []) ∷ [])

abbrev in_order : ℕ → List (Str × Entry (Value ℤ)) → List (Str × Entry (Value ℤ))
in_order n m = m

abbrev page : Page
page = record {
  results =
      record {
        time_period = some (record { start = some (codes "2026-07-01"); end = none });
        groups =
            record {
              keys = codes "EC2" ∷ [];
              metrics =
                  (unblended_cost, record { amount = some (codes "10"); unit = some (codes "USD") })
                  ∷ [];
            }
            ∷ [];
      }
      ∷ [];
  next_page_token = none;
}

abbrev refusal : Failure
refusal = record { message = codes "AccessDenied"; is_hourly_not_enabled = false }

abbrev client : Request → Outcome Failure Page
client r = ok page

abbrev gone : Request → Outcome Failure Page
gone r = err refusal

-- 2026-07-03T12:00:00Z
abbrev noon : Time
noon = 740165 * 86400 + 43200

abbrev at : ℕ → Readings
at t = record { locked = t; stored = t + 1; now = noon; stamp = noon }

abbrev week : Query
week = record { granularity = daily; group_by = codes "SERVICE"; days = pos 7 }

abbrev by_tag : Query
by_tag = record { granularity = daily; group_by = codes "TAG:team"; days = pos 7 }

abbrev series : Series ℤ
series = record {
  times = codes "2026-07-01" ∷ [];
  groups = record { key = codes "EC2"; values = pos 10 ∷ []; total = pos 10 } ∷ [];
  total = pos 10;
  currency = codes "USD";
  fetched_at = noon;
  cached = false;
}

accepted : normalize as_is service.allowed_tags week ≡ ok week
unfolding program
accepted = refl

on : pos 1 ≤ℤ service.cache.ttl
unfolding program
on = omega arith

stale : fresh 5 (cache_key week) service.cache.entries ≡ none
unfolding program
stale = refl

free : lookup (cache_key week) service.cache.inflight ≡ none
unfolding program
free = refl

fetched : fetch_costs client 1 noon noon week ≡ some (ok series)
unfolding program
fetched = refl

refused : fetch_costs gone {F = ℤ} 1 noon noon week ≡ some (err (map_ce_error refusal))
unfolding program
refused = refl

costs_again_example :
    ((costs as_is in_order client 1 (at 5) week service).0 ≡ some (marked false (ok series)))
    × ((costs as_is in_order gone 1
          (at 105)
          week
          (costs as_is in_order client 1 (at 5) week service).1).0
        ≡ (if ltb 105 (6 + pos_part service.cache.ttl)
            then some (marked true (ok series))
            else some (marked false (err (map_ce_error refusal)))))
costs_again_example =
    costs_again as_is in_order client gone 1 1 (at 5) (at 105) week week week service (ok series)
      (err (map_ce_error refusal)) on accepted accepted stale free fetched refused (omega arith)
