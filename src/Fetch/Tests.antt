-- ===== src/Fetch/Tests.antt =====
-- A client with two pages, and one that fails on the second.
use eksp.Base.{
  whole_float, ◌+◌, ◌*◌, Str, codes, Str-discrete, cut_prefix, member, contains, to_lower, List, [],
  ◌∷◌, false, none, some, ◌≡◌, refl, ℤ, pos, ◌+ℤ◌, atoi, Outcome, ok, err, arith,
}
use eksp.Query.{Query, daily}
use eksp.Time.{Time, format_rfc3339, date_of, date_of_day}
use eksp.Explorer.{Group, ResultByTime, unblended_cost}
use eksp.Aggregate.{Series, aggregate}
use eksp.Aggregate.Cells.{periods, AreDistinct, find_point, points}
use eksp.Aggregate.Cap.{IsSeriesOf}
use eksp.Fetch.{Failure, map_ce_error, Request, Page, request_of, next_token, fetch_costs}
use eksp.Fetch.Pages.{results_of, Served, Broken, fetch_costs_lem, fetch_costs-Broken}

program : Unit {0}
unfolding aggregate fetch_costs next_token Str-discrete cut_prefix contains to_lower atoi ◌+ℤ◌
    periods find_point points member format_rfc3339 date_of date_of_day
program = tt

abbrev bill : Str → Str → Group
bill key amount = record {
  keys = key ∷ [];
  metrics = (unblended_cost, record { amount = some amount; unit = some (codes "USD") }) ∷ [];
}

abbrev day : Str → List Group → ResultByTime
day s gs = record { time_period = some (record { start = some s; end = none }); groups = gs }

abbrev first_page : Page
first_page = record {
  results = day (codes "2026-07-01") (bill (codes "EC2") (codes "10") ∷ []) ∷ [];
  next_page_token = some (codes "2");
}

abbrev second_page : Page
second_page = record {
  results = day (codes "2026-07-02") (bill (codes "S3") (codes "3") ∷ []) ∷ [];
  next_page_token = some [];
}

abbrev refusal : Failure
refusal = record { message = codes "Hourly data is off"; is_hourly_not_enabled = false }

abbrev client : Request → Outcome Failure Page
client r = elim r.next_page_token [ none ↦ ok first_page | some token ↦ ok second_page ]

abbrev failing : Request → Outcome Failure Page
failing r = elim r.next_page_token [ none ↦ ok first_page | some token ↦ err refusal ]

-- 2026-07-03T12:00:00Z
abbrev noon : Time
noon = 740165 * 86400 + 43200

noon_text : format_rfc3339 noon ≡ codes "2026-07-03T12:00:00Z"
unfolding program
noon_text = refl

abbrev query : Query
query = record { granularity = daily; group_by = codes "SERVICE"; days = pos 7 }

abbrev expected : Series ℤ
expected = record {
  times = codes "2026-07-01" ∷ codes "2026-07-02" ∷ [];
  groups =
      record { key = codes "EC2"; values = pos 10 ∷ pos 0 ∷ []; total = pos 10 }
      ∷ record { key = codes "S3"; values = pos 0 ∷ pos 3 ∷ []; total = pos 3 }
      ∷ [];
  total = pos 13;
  currency = codes "USD";
  fetched_at = 5;
  cached = false;
}

two_pages_run : fetch_costs client 2 noon 5 query ≡ some (ok expected)
unfolding program
two_pages_run = refl

two_pages-Served : Served client (request_of noon query) (first_page ∷ second_page ∷ [])
unfolding program
two_pages-Served = (codes "2", refl, refl, (refl, refl))

pages-AreDistinct : AreDistinct {F = ℤ} (periods (results_of (first_page ∷ second_page ∷ [])))
unfolding program
pages-AreDistinct = ((refl, tt), ((refl, tt), tt))

fetch_costs_lem_example :
    (s : Series ℤ) × (fetch_costs client 2 noon 5 query ≡ some (ok s))
    × IsSeriesOf 5 (periods (results_of (first_page ∷ second_page ∷ []))) s
fetch_costs_lem_example =
    fetch_costs_lem client 2 noon 5 query (first_page ∷ second_page ∷ []) two_pages-Served
      (omega arith) pages-AreDistinct

second-Broken : Broken failing (request_of noon query) (first_page ∷ []) refusal
unfolding program
second-Broken = (codes "2", refl, refl, refl)

fetch_costs-Broken_example :
    fetch_costs failing {F = ℤ} 2 noon 5 query ≡ some (err (map_ce_error refusal))
fetch_costs-Broken_example =
    fetch_costs-Broken failing 2 noon 5 query (first_page ∷ []) refusal second-Broken (omega arith)
