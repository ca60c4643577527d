-- ===== src/Http/Scenario.antt =====
-- A request for costs on its way through a live server, and another that waits for the same costs.
use native.Mathlib.Decide.{ℕ_discrete}
use mathlib.Core.List.Perm
use eksp.Base.{
  whole_float, zero, suc, ◌≢◌, ℕ, Str, Str-discrete, to_upper, cut_prefix, member, codes, [], ◌∷◌,
  Bool, false, List, none, some, ℤ, pos, ◌≡◌, refl, inl, Outcome, ok, arith,
}
use eksp.Query.{Query, daily, normalize}
use eksp.Aggregate.{Series, aggregate}
use eksp.Cache.{Entry, new_cache, begin, publish, store}
use eksp.Cache.Oldest.{IsOrder}
use eksp.Cache.System.{dead, System, closing, returned, moved}
use eksp.Fetch.{Failure, fetch_costs, fetch_pages, next_token}
use eksp.Time.{Time}
use eksp.Service.{Value, of_series, with_ttl, new_service, read_series}
use eksp.Service.Again.{marked}
use eksp.Process.{Process, accepting, listen, accept, turn, here, next, launched}
use eksp.Http.{service_answer, query_of}
use eksp.Http.Server.{get_costs, endpoints, new_server, Reply, Env, json_series, write_answer}
use eksp.Http.Live.{
  Wanted, the_summary, costs_of, key_of, Route, Job, opened, handling, caching, answered, Live,
  live, reply_of, Fetches, ask, wants, entered, request, enter_cache, work, finish, close,
  reply_cached, live_program,
}
use eksp.Http.Origin.{Reached, costs_origin, never_misread}
use eksp.Http.Runs.{IsAsked}
use eksp.Http.Coming.{Answerable}
use eksp.Http.Progress.{answerable_lem}
use eksp.Summary.{fetch_summary, by_service}
use eksp.Http.Tests.{as_is, noon, demo_env, server, at_noon, plain_request}

-- Cost Explorer answers with one page, and no periods.
abbrev pub env : ℕ → Env ℤ
env n = record demo_env { client = λ r. ok (record { results = []; next_page_token = none }) }

abbrev costs_route : Route
costs_route = (codes "GET /api/costs", get_costs, some (codes "/api/costs"))

abbrev asked : Query
asked = record { granularity = daily; group_by = codes "SERVICE"; days = pos 0 }

abbrev thirty : Query
thirty = record { granularity = daily; group_by = codes "SERVICE"; days = pos 30 }

abbrev nothing_spent : Series ℤ
nothing_spent = record {
  times = [];
  groups = [];
  total = pos 0;
  currency = codes "USD";
  fetched_at = noon;
  cached = false;
}

fetched : fetch_costs (env 0).client {F = ℤ} (env 0).fuel noon noon thirty ≡ some (ok nothing_spent)
unfolding fetch_costs fetch_pages next_token aggregate
fetched = refl

pub read_asked : query_of plain_request.query ≡ some asked
unfolding query_of Str-discrete to_upper
read_asked = refl

pub accepted : normalize as_is server.service.allowed_tags asked ≡ ok thirty
unfolding normalize new_server new_service with_ttl Str-discrete cut_prefix member
accepted = refl

asks_thirty :
    (system : System Failure (Value ℤ))
    → ask env as_is 0 at_noon (record (live server) { system = system }) get_costs plain_request
      ≡ wants (costs_of thirty)
unfolding ask query_of Str-discrete normalize new_server new_service with_ttl to_upper cut_prefix
    member
asks_thirty system = refl

abbrev spent_nothing : Outcome Failure (Value ℤ)
spent_nothing = ok (of_series nothing_spent)

fetched-Fetches : Fetches env (costs_of thirty) spent_nothing
unfolding Fetches
fetched-Fetches = (0, noon, noon, ok nothing_spent, fetched, refl)

abbrev pub in_order : ℕ → List (Str × Entry (Value ℤ)) → List (Str × Entry (Value ℤ))
in_order n m = m

pub in_order-IsOrder : IsOrder in_order
in_order-IsOrder n m = Perm.refl m

abbrev pub at_start : Process (Live ℤ) (Job ℤ)
at_start = launched (live_program env as_is) 0 (live server)

abbrev entered_one : System Failure (Value ℤ)
entered_one = entered 0 (costs_of thirty) at_start.app.system

abbrev ran_one : System Failure (Value ℤ)
ran_one =
    moved entered_one (publish 0 (key_of (costs_of thirty)) spent_nothing entered_one.cache) 0
      (closing (key_of (costs_of thirty)) 0 spent_nothing)

abbrev stored_one : System Failure (Value ℤ)
stored_one =
    moved ran_one (store in_order 0 (key_of (costs_of thirty)) spent_nothing ran_one.cache) 0
      (returned (key_of (costs_of thirty)) spent_nothing false)

abbrev pub in_state : System Failure (Value ℤ) → Job ℤ → Process (Live ℤ) (Job ℤ)
in_state system job = record at_start {
  app = record at_start.app { system = system };
  connections = job ∷ [];
  listener = accepting;
}

handling-Reached :
    Reached env as_is 0 server (in_state at_start.app.system (handling costs_route plain_request))
unfolding endpoints
handling-Reached = next (next (next here (listen refl refl (inl refl))) (accept refl refl)) (
    turn 0 opened (handling costs_route plain_request) _ refl refl
      (request 1 costs_route plain_request refl))

entered-Reached :
    Reached env as_is 0 server
      (in_state entered_one (caching costs_route plain_request (costs_of thirty)))
entered-Reached = next handling-Reached (
    turn 0 _ _ _ refl refl
      (enter_cache 0 at_noon costs_route plain_request (costs_of thirty) (asks_thirty _) refl))

stored-Reached :
    Reached env as_is 0 server
      (in_state stored_one (caching costs_route plain_request (costs_of thirty)))
unfolding begin new_cache new_server new_service with_ttl ℕ_discrete
stored-Reached =
    next
      (next entered-Reached (
        turn 0 _ _ _ refl refl (
          work costs_route plain_request (costs_of thirty) ran_one
            (finish 0 spent_nothing refl fetched-Fetches))))
      (turn 0 _ _ _ refl refl (
        work costs_route plain_request (costs_of thirty) stored_one
          (close 0 spent_nothing in_order in_order-IsOrder refl)))

abbrev pub reply : Reply ℤ
reply = write_answer json_series (service_answer (ok nothing_spent))

answered-Reached :
    Reached env as_is 0 server (in_state stored_one (answered costs_route plain_request reply))
unfolding reply_of read_series ℕ_discrete
answered-Reached = next stored-Reached (
    turn 0 _ _ _ refl refl (
      reply_cached costs_route plain_request (costs_of thirty) spent_nothing false reply refl refl))

pub cold : server.service.cache ≡ new_cache (pos 100)
unfolding new_server new_service with_ttl
cold = refl

costs_origin_example :
    (n : ℕ) × (now stamp : Time) × (o : Outcome Failure (Series ℤ)) × (cached : Bool) × (fetch_costs
        (env n).client
        (env n).fuel
        now
        stamp
        thirty
      ≡ some o)
    × (reply ≡ write_answer json_series (service_answer (marked cached o)))
costs_origin_example =
    costs_origin env as_is (pos 100) (omega arith) server cold 0 answered-Reached 0 costs_route
      plain_request reply refl refl read_asked accepted

stored_returned : stored_one.pc 0 ≡ returned (key_of (costs_of thirty)) spent_nothing false
unfolding ℕ_discrete
stored_returned = refl

never_misread_example : (a : Reply ℤ) × (reply_of (costs_of thirty) (spent_nothing, false) ≡ some a)
never_misread_example =
    never_misread env as_is (pos 100) (omega arith) server cold 0 stored-Reached 0 costs_route
      plain_request (costs_of thirty) spent_nothing false refl stored_returned

-- A second request for the same costs waits for the fetch of the first.
abbrev joined : System Failure (Value ℤ)
joined = entered 1 (costs_of thirty) entered_one

abbrev both_in : Process (Live ℤ) (Job ℤ)
both_in = record at_start {
  app = record at_start.app { system = joined };
  connections =
      caching costs_route plain_request (costs_of thirty)
      ∷ caching costs_route plain_request (costs_of thirty)
      ∷ [];
  listener = accepting;
}

both_in-Reached : Reached env as_is 0 server both_in
unfolding endpoints ℕ_discrete
both_in-Reached =
    next
      (next (next entered-Reached (accept refl refl)) (
        turn 1 opened (handling costs_route plain_request) _ refl refl
          (request 1 costs_route plain_request refl)))
      (turn 1 _ _ _ refl refl
        (enter_cache 0 at_noon costs_route plain_request (costs_of thirty) (asks_thirty _) refl))

fetchable :
    (w : Wanted)
    → IsAsked env as_is server.service.allowed_tags w
    → (o : Outcome Failure (Value ℤ)) × Fetches env w o
unfolding Fetches fetch_costs fetch_pages next_token aggregate fetch_summary by_service
fetchable (costs_of q) asked_for = (_, (0, noon, noon, ok nothing_spent, refl, refl))
fetchable the_summary asked_for = (_, (0, noon, _, refl, refl))

calm : (j : ℕ) (key : Str) (a : ℕ) → both_in.app.system.pc j ≢ dead key a
unfolding ℕ_discrete begin
calm zero key a e = ground (arith, e)
calm (suc zero) key a e = ground (arith, e)
calm (suc (suc j)) key a e = ground (arith, e)

answerable_lem_example : Answerable env as_is both_in 1 costs_route plain_request
answerable_lem_example =
    answerable_lem env as_is (pos 100) (omega arith) server cold 0 fetchable both_in 1 costs_route
      plain_request (costs_of thirty) both_in-Reached refl refl calm
