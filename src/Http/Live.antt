-- ===== src/Http/Live.antt =====
-- The server of costwatch while it serves many requests at once: each connection is a goroutine that
-- runs its handler and, inside `Costs` or `Summary`, takes its steps in the shared cache. Between any
-- two steps of one, the others may take theirs. The code is that of Http/Server.antt, with `do` cut
-- into the steps of Cache/System.antt. What surrounds the server may change: `env n` is what a run `n`
-- of a handler or of a fetch finds.
use mathlib.Core.Option
use eksp.Base.{
  ℕ, ◌+◌, Str, decimal, List, ◌∷◌, Bool, none, some, Option, get_elem?, Float, Outcome, ok, err,
  ◌≡◌, false, pos, ◌*◌,
}
use eksp.Query.{Query, normalize, cache_key}
use eksp.Cache.{Entry, Call, begin, publish, store}
use eksp.Cache.Oldest.{IsOrder}
use eksp.Cache.System.{
  idle, waiting, running, closing, returned, dead, direct, System, moved, after_begin,
}
use eksp.Fetch.{Failure, fetch_costs}
use eksp.Summary.{Summary, fetch_summary}
use eksp.Aggregate.{Series}
use eksp.Time.{Time}
use eksp.Service.{
  Value, of_series, of_summary, boxed, read_series, read_summary, Service, summary_key, Readings,
  second,
}
use eksp.Process.{Program}
use eksp.Http.{service_answer, bad_days, query_of}
use eksp.Http.Server.{
  Endpoint, get_summary, get_costs, endpoints, HttpRequest, Reply, Env, json_series, json_summary,
  write_answer, respond, last_code, Server,
}

-- What a handler asks of the cache: the costs of a query that is normalized, or the summary.
pub data Wanted : Type 0 where
  costs_of : Query → Wanted
  the_summary : Wanted

unfoldable pub key_of : Wanted → Str
unfolding cache_key
key_of (costs_of q) = cache_key q
key_of the_summary = summary_key

abbrev pub Route : Type 0
Route = Str × Endpoint × Option Str

-- A connection.
pub data Job (F : Type 0) : Type 0 where
  opened : Job F
  handling : Route → HttpRequest → Job F
  -- in `do`
  caching : Route → HttpRequest → Wanted → Job F
  answered : Route → HttpRequest → Reply F → Job F
  gone : Job F

-- The server, with the cache of its service and where the goroutines stand in it.
pub record Live (F : Type 0) : Type 0 where
  pub system : System Failure (Value F)
  pub allowed_tags : List Str
  pub demo : Bool
  pub requests : List (Str × Str × Str)

module _ {F : Type 0} where
  abbrev pub service_of : Live F → Service F
  service_of s = record { cache = s.system.cache; allowed_tags = s.allowed_tags }

  -- A server as it is made, before the first request; the clock of its cache starts with it.
  abbrev pub live : Server F → Live F
  live s = record {
    system = record { cache = s.service.cache; now = 0; pc = λ i. idle };
    allowed_tags = s.service.allowed_tags;
    demo = s.demo;
    requests = s.requests;
  }

  -- What follows `do` in `Costs` and `handleCosts`, or in `Summary` and `handleSummary`; `none` where
  -- the type assertion panics.
  unfoldable pub reply_of : Wanted → Outcome Failure (Value F) × Bool → Option (Reply F)
  unfolding read_series read_summary service_answer write_answer
  reply_of (costs_of q) r =
      Option.map (λ o. write_answer json_series (service_answer o)) (read_series r)
  reply_of the_summary r =
      Option.map (λ o. write_answer json_summary (service_answer o)) (read_summary r)

  -- The end of `instrument`.
  unfoldable pub count : Route → HttpRequest → Reply F → Live F → Live F
  unfolding last_code
  count (pattern, endpoint, none) r reply s = s
  count (pattern, endpoint, some label) r reply s = record s {
    requests = (label, r.method, decimal (last_code 200 reply.codes_written)) ∷ s.requests;
  }

-- What a handler does before `do`.
pub data Ask (F : Type 0) : Type 0 where
  replies : Reply F → Ask F
  wants : Wanted → Ask F
  panics : Ask F

-- The first lock of `do`, taken by goroutine `i`.
abbrev pub entered : {F : Type 0} → ℕ → Wanted → System Failure (Value F) → System Failure (Value F)
entered i w s =
    let (decision, cache) = begin s.now (key_of w) s.cache in
    moved s cache i (after_begin (key_of w) decision)

module _ {F : Type 0} ⦃fl : Float F⦄ (env : ℕ → Env F) where
  -- `fn` of `Costs` or `Summary` may return `r`.
  unfoldable pub Fetches : Wanted → Outcome Failure (Value F) → Type 0
  unfolding fetch_costs fetch_summary
  Fetches (costs_of q) r =
      (n : ℕ) × (now stamp : Time) × (o : Outcome Failure (Series F)) × (fetch_costs (env n).client
          (env n).fuel now stamp q
        ≡ some o)
      × (r ≡ boxed of_series o)
  Fetches the_summary r =
      (n : ℕ) × (now : Time) × (o : Outcome Failure (Summary F)) × (fetch_summary (env n).client
          (env n).forecast (env n).visit_totals (env n).visit_services (env n).fuel now
        ≡ some o)
      × (r ≡ boxed of_summary o)

  -- A step of goroutine `i` inside `do`, after the first lock.
  pub data Work (i : ℕ) (w : Wanted) (s : System Failure (Value F))
      : System Failure (Value F) → Type 0 where
    run_direct :
        (r : Outcome Failure (Value F))
        → s.pc i ≡ direct (key_of w)
        → Fetches w r
        → Work i w s (moved s s.cache i (returned (key_of w) r false))
    finish :
        (id : ℕ) (r : Outcome Failure (Value F))
        → s.pc i ≡ running (key_of w) id
        → Fetches w r
        → Work i w s (moved s (publish id (key_of w) r s.cache) i (closing (key_of w) id r))
    wake :
        (id : ℕ) (c : Call Failure (Value F)) (r : Outcome Failure (Value F))
        → s.pc i ≡ waiting (key_of w) id
        → get_elem? s.cache.calls id ≡ some c
        → c.result ≡ some r
        → Work i w s (moved s s.cache i (returned (key_of w) r false))
    close :
        (id : ℕ) (r : Outcome Failure (Value F))
        (order : ℕ → List (Str × Entry (Value F)) → List (Str × Entry (Value F)))
        → IsOrder order
        → s.pc i ≡ closing (key_of w) id r
        → Work i w s
            (moved s (store order s.now (key_of w) r s.cache) i (returned (key_of w) r false))

  module _ (quote : Str → Str) where
    -- A handler up to `do`. The endpoints that leave the cache alone answer as in Http/Server.antt.
    unfoldable pub ask : ℕ → Readings → Live F → Endpoint → HttpRequest → Ask F
    unfolding query_of normalize service_answer write_answer respond
    ask n t s get_summary r = wants the_summary
    ask n t s get_costs r = elim (query_of r.query) [
      | none ↦ replies (write_answer json_series bad_days)
      | some q ↦ elim (normalize quote s.allowed_tags q) [
        | err message ↦ replies (
            write_answer json_series
              (service_answer (err (record { message = message; is_hourly_not_enabled = false }))))
        | ok q' ↦ wants (costs_of q')
      ]
    ]
    ask n t s endpoint r = elim (respond (env n) endpoint s.demo t r (service_of s)).0 [
      | none ↦ panics
      | some reply ↦ replies reply
    ]

    -- A step of connection `i`. `net/http` recovers a panic, and closes the connection.
    pub data Turn (i : ℕ) (s : Live F) : Job F → Live F → Job F → Type 0 where
      hang_up : Turn i s opened s gone
      request :
          (n : ℕ) (route : Route) (r : HttpRequest)
          → get_elem? endpoints n ≡ some route
          → Turn i s opened s (handling route r)
      reply_at_once :
          (n : ℕ) (t : Readings) (route : Route) (r : HttpRequest) (reply : Reply F)
          → ask n t s route.1 r ≡ replies reply
          → Turn i s (handling route r) s (answered route r reply)
      panic_at_once :
          (n : ℕ) (t : Readings) (route : Route) (r : HttpRequest)
          → ask n t s route.1 r ≡ panics
          → Turn i s (handling route r) s gone
      enter_cache :
          (n : ℕ) (t : Readings) (route : Route) (r : HttpRequest) (w : Wanted)
          → ask n t s route.1 r ≡ wants w
          → s.system.pc i ≡ idle
          → Turn i s
              (handling route r)
              (record s { system = entered i w s.system })
              (caching route r w)
      work :
          (route : Route) (r : HttpRequest) (w : Wanted) (system : System Failure (Value F))
          → Work i w s.system system
          → Turn i s (caching route r w) (record s { system = system }) (caching route r w)
      -- `fn` panics
      panic_within :
          (route : Route) (r : HttpRequest) (w : Wanted) (id : ℕ)
          → s.system.pc i ≡ running (key_of w) id
          → Turn i s
              (caching route r w)
              (record s { system = moved s.system s.system.cache i (dead (key_of w) id) })
              gone
      panic_direct :
          (route : Route) (r : HttpRequest) (w : Wanted)
          → s.system.pc i ≡ direct (key_of w)
          → Turn i s (caching route r w) s gone
      reply_cached :
          (route : Route) (r : HttpRequest) (w : Wanted) (o : Outcome Failure (Value F))
          (cached : Bool) (reply : Reply F)
          → s.system.pc i ≡ returned (key_of w) o cached
          → reply_of w (o, cached) ≡ some reply
          → Turn i s (caching route r w) s (answered route r reply)
      -- a type assertion panics
      misread :
          (route : Route) (r : HttpRequest) (w : Wanted) (o : Outcome Failure (Value F))
          (cached : Bool)
          → s.system.pc i ≡ returned (key_of w) o cached
          → reply_of w (o, cached) ≡ none
          → Turn i s (caching route r w) s gone
      finish_request :
          (route : Route) (r : HttpRequest) (reply : Reply F)
          → Turn i s (answered route r reply) (count route r reply s) gone

    -- Costwatch: nothing is done on a signal, and the server is shut down at once.
    abbrev pub live_program : Program (Live F) (Job F)
    live_program = record {
      on_signal = λ s. s;
      delay = pos 0;
      limit = pos (10 * second);
      opened = opened;
      IsDone = λ job. job ≡ gone;
      on_tick = λ d s. record s { system = record s.system { now = s.system.now + d } };
      Turn = Turn;
      Crashes = λ s job. ⊥;
    }
