-- ===== src/Http/Tests.antt =====
-- Requests to the HTTP layer of costwatch.
use eksp.Wave.{whole_math}
use mathlib.Core.Logic.{ite}
use eksp.Base.{
  whole_float, ℕ, Str, codes, Str-discrete, cut_prefix, member, contains, to_upper, to_lower, [],
  true, false, some, none, ◌≡◌, refl, ap, ◌⊎◌, ◌+◌, ◌*◌, ◌<◌, suc, List, ◌∷◌, lookup, ℤ, pos, ◌≤ℤ◌,
  arith, Outcome, ok, err,
}
use eksp.Query.{cache_key, Query, daily, bad_group_by, normalize}
use eksp.Fetch.{Failure, Page, map_ce_error}
use eksp.Http.{write_service_error, query_of, handle_costs, checked}
use mathlib.Core.Option
use mathlib.Core.List.Perm
use eksp.Cache.{new_cache, fresh}
use eksp.Demo.{get_cost_and_usage}
use eksp.Demo.Range.{year_10000}
use eksp.Time.{date_of, date_of_day, Time, days_before_year}
use eksp.Service.{summary_key, Readings, with_ttl, new_service}
use eksp.Http.Server.{json_summary, hint_page, text, HttpRequest, Server, new_server, Env}
use eksp.Summary.{fetch_summary, Summary}
use eksp.Http.Demo.{CostsAnswered, CostsRefused, summary_route, Answers, serve-demo}
use eksp.Http.Statuses.{handle_costs-refused}

program : Unit {0}
unfolding Str-discrete cut_prefix member contains to_upper to_lower normalize query_of handle_costs
    write_service_error checked map_ce_error
program = tt

abbrev pub as_is : Str → Str
as_is s = s

-- `?groupBy=OWNER`
abbrev by_owner : Str → Str
by_owner key = ite (Str-discrete key (codes "groupBy")) (codes "OWNER") []

abbrev pub nothing : Str → Str
nothing key = []

abbrev owner_query : Query
owner_query = record { granularity = daily; group_by = codes "OWNER"; days = pos 0 }

abbrev seven : Query → Outcome Failure ℕ
seven q = ok 7

by_owner_asks : query_of by_owner ≡ some owner_query
unfolding program
by_owner_asks = refl

owner_refused : normalize as_is [] owner_query ≡ err (bad_group_by as_is (codes "OWNER"))
unfolding program
owner_refused = refl

nothing_answered : (handle_costs (checked as_is [] seven) nothing).status ≡ 200
unfolding program
nothing_answered = refl

handle_costs-refused_example : (handle_costs (checked as_is [] seven) by_owner).status ≡ 400
handle_costs-refused_example =
    handle_costs-refused as_is [] seven by_owner by_owner_asks owner_refused

abbrev opt_in : Failure
opt_in = record {
  message = codes "ValidationException: Hourly data is off";
  is_hourly_not_enabled = false;
}

opt_in_named : contains (to_lower opt_in.message) (codes "hourly") ≡ true
unfolding program
opt_in_named = refl

-- A server on the demo client, at noon of 2026-07-03, that has answered nothing yet.
abbrev pub noon : Time
noon = 740165 * 86400 + 43200

abbrev pub no_failure : Outcome Failure Page
no_failure = err (record { message = []; is_hourly_not_enabled = false })

abbrev pub same : List Str → List Str
same ks = ks

abbrev pub demo_env : Env ℤ
demo_env = record {
  quote = as_is;
  order = λ n m. m;
  client = λ r. Option.get_or (get_cost_and_usage ℤ as_is same (suc noon) r) no_failure;
  forecast = λ r. ok none;
  visit_totals = λ n m. m;
  visit_services = same;
  fuel = 1;
  version = codes "dev";
  uptime = codes "1s";
  opens = λ path. false;
  serve_file = λ path. record { codes_written = []; body = hint_page };
  serve_metrics = record { codes_written = []; body = text [] };
}

abbrev pub server : Server ℤ
server = new_server (new_service (with_ttl (pos 100) ∷ [])) true

abbrev pub at_noon : Readings
at_noon = record { locked = 5; stored = 6; now = noon; stamp = noon }

-- `GET /api/costs`
abbrev pub plain_request : HttpRequest
plain_request = record { method = codes "GET"; path = codes "/api/costs"; query = nothing }

cold :
    (key : Str)
    → (fresh 5 key server.service.cache.entries ≡ none)
      × (lookup key server.service.cache.inflight ≡ none)
unfolding fresh lookup new_server new_service with_ttl new_cache
cold key = (refl, refl)

server_on : pos 1 ≤ℤ server.service.cache.ttl
unfolding new_server new_service with_ttl new_cache
server_on = omega arith

pub noon_year : (date_of noon).year ≡ 2026
unfolding date_of date_of_day
noon_year = refl

pub early : noon < year_10000
unfolding days_before_year
early = omega arith

serve-demo_example :
    (CostsAnswered demo_env at_noon plain_request server
      ⊎ CostsRefused demo_env at_noon plain_request server)
    × ((v : Summary ℤ) × (fetch_summary demo_env.client demo_env.forecast demo_env.visit_totals
            demo_env.visit_services demo_env.fuel noon
          ≡ some (ok v))
        × Answers demo_env summary_route at_noon plain_request server 200
            (json_summary (record v { cached = false })))
serve-demo_example =
    serve-demo demo_env as_is same (suc noon) at_noon plain_request server (λ ks. Perm.refl ks)
      (λ r o e. ap (λ x. Option.get_or x no_failure) e) (omega (arith, noon_year)) early
      (omega arith) (omega arith) server_on (λ q q' read accepted. cold (cache_key q'))
      (cold summary_key).0 (cold summary_key).1
