-- ===== src/Http/Summing.antt =====
-- A request for the summary on its way through a live server, and one in demo mode.
use eksp.Wave.{whole_math}
use native.Mathlib.Decide.{ℕ_discrete}
use eksp.Base.{
  whole_float, suc, ap, inr, ℕ, codes, [], Bool, false, some, ℤ, pos, ◌≡◌, refl, inl, Outcome, ok,
  arith,
}
use eksp.Cache.{new_cache, begin, publish, store}
use eksp.Cache.System.{System, closing, returned, moved}
use eksp.Fetch.{Failure, fetch_pages, next_token}
use eksp.Time.{Time}
use eksp.Service.{of_summary, summary_key, read_summary, Value, with_ttl, new_service}
use eksp.Process.{Process, listen, accept, turn, here, next}
use eksp.Http.{service_answer}
use eksp.Http.Server.{get_summary, json_summary, endpoints, new_server, Env, Reply, write_answer}
use eksp.Http.Live.{
  Live, Job, the_summary, key_of, Route, opened, handling, caching, answered, reply_of, Fetches,
  ask, entered, request, enter_cache, work, finish, close, reply_cached,
}
use eksp.Http.Origin.{marked_summary, summary_origin, Reached}
use eksp.Summary.{
  forecast_of, delta_pct, top_movers, services, Summary, summary_of, fetch_summary, by_service,
}
use mathlib.Core.List.Perm
use mathlib.Core.Option
use eksp.Http.Coming.{Answerable}
use eksp.Http.Handled.{demo-Answerable}
use eksp.Http.Tests.{
  demo_env, same, no_failure, noon_year, early, as_is, noon, server, at_noon, plain_request,
}
use eksp.Http.Scenario.{env, in_order, in_order-IsOrder, at_start, in_state, cold}

-- A request for the summary, of a month in which nothing was spent.
abbrev summary_route : Route
summary_route = (codes "GET /api/summary", get_summary, some (codes "/api/summary"))

abbrev nothing_so_far : Summary ℤ
nothing_so_far = record {
  month_to_date = pos 0;
  forecast_month_end = pos 0;
  prev_month_to_date = pos 0;
  delta_pct = pos 0;
  currency = codes "USD";
  top_movers = [];
  fetched_at = noon;
  cached = false;
}

abbrev summed : Outcome Failure (Value ℤ)
summed = ok (of_summary nothing_so_far)

summed-Fetches : Fetches env the_summary summed
unfolding Fetches fetch_summary by_service fetch_pages next_token summary_of forecast_of delta_pct
    top_movers services
summed-Fetches = (0, noon, ok nothing_so_far, refl, refl)

abbrev entered_two : System Failure (Value ℤ)
entered_two = entered 0 the_summary at_start.app.system

abbrev ran_two : System Failure (Value ℤ)
ran_two =
    moved entered_two (publish 0 summary_key summed entered_two.cache) 0
      (closing summary_key 0 summed)

abbrev stored_two : System Failure (Value ℤ)
stored_two =
    moved ran_two (store in_order 0 summary_key summed ran_two.cache) 0
      (returned summary_key summed false)

abbrev sum_reply : Reply ℤ
sum_reply = write_answer json_summary (service_answer (ok nothing_so_far))

summed-Reached :
    Reached env as_is 0 server
      (in_state stored_two (answered summary_route plain_request sum_reply))
unfolding endpoints ask begin new_cache new_server new_service with_ttl ℕ_discrete key_of reply_of
    read_summary
summed-Reached =
    next
      (next
        (next
          (next
            (next (next (next here (listen refl refl (inl refl))) (accept refl refl)) (
              turn 0 opened (handling summary_route plain_request) _ refl refl
                (request 0 summary_route plain_request refl)))
            (turn 0 _ (caching summary_route plain_request the_summary) _ refl refl
              (enter_cache 0 at_noon summary_route plain_request the_summary refl refl)))
          (turn 0 _ _ _ refl refl (
            work summary_route plain_request the_summary ran_two
              (finish 0 summed refl summed-Fetches))))
        (turn 0 _ _ _ refl refl (
          work summary_route plain_request the_summary stored_two
            (close 0 summed in_order in_order-IsOrder refl))))
      (turn 0 _ _ _ refl refl
        (reply_cached summary_route plain_request the_summary summed false sum_reply refl refl))

summary_origin_example :
    (n : ℕ) × (now : Time) × (o : Outcome Failure (Summary ℤ)) × (cached : Bool) × (fetch_summary
        (env n).client
        (env n).forecast
        (env n).visit_totals
        (env n).visit_services
        (env n).fuel
        now
      ≡ some o)
    × (sum_reply ≡ write_answer json_summary (service_answer (marked_summary cached o)))
summary_origin_example =
    summary_origin env as_is (pos 100) (omega arith) server cold 0 summed-Reached 0 summary_route
      plain_request sum_reply refl refl

-- A request for the summary in demo mode, which has not come to the cache.
abbrev demo : ℕ → Env ℤ
demo n = demo_env

abbrev handling_one : Process (Live ℤ) (Job ℤ)
handling_one = in_state at_start.app.system (handling summary_route plain_request)

handling_one-Reached : Reached demo as_is 0 server handling_one
unfolding endpoints
handling_one-Reached = next (next (next here (listen refl refl (inl refl))) (accept refl refl)) (
    turn 0 opened (handling summary_route plain_request) _ refl refl
      (request 0 summary_route plain_request refl))

demo-Answerable_example : Answerable demo as_is handling_one 0 summary_route plain_request
demo-Answerable_example =
    demo-Answerable demo as_is as_is same (suc noon) (pos 100) server 0 0 noon (omega arith) cold
      (λ ks. Perm.refl ks) (λ r o e. ap (λ x. Option.get_or x no_failure) e)
      (omega (arith, noon_year)) early (omega arith) (omega arith) handling_one 0 summary_route
      plain_request handling_one-Reached refl (inl refl) (λ j key a e. ground (arith, e)) (inr refl)
