-- ===== src/Http/Server.antt =====
-- The server of costwatch, apps/costwatch/backend/internal/api/server.go, with the state of the service
-- behind it: the endpoints, the metrics that `instrument` keeps, and the handlers of handlers.go on
-- that state. Which pattern a request matches is up to `http.ServeMux`; what `http.FileServer` and
-- `promhttp` answer are parameters. `none` is a handler that does not return: `net/http` recovers a
-- panic, and `instrument` then counts nothing.
use mathlib.Core.Option
use eksp.Base.{
  ℕ, Str, codes, Str-discrete, decimal, List, [], ◌∷◌, Bool, ◌&&◌, not, holds, if◌then◌else◌,
  Option, none, some, Float, Outcome, ok, err, drop,
}
use eksp.Explorer.{MetricValue}
use eksp.Aggregate.{Series}
use eksp.Cache.{Entry, CacheStats}
use eksp.Fetch.{Failure, Request, Page}
use eksp.Summary.{Summary, ForecastRequest}
use eksp.Service.{Value, Service, Readings, costs, summary, cache_stats}
use eksp.Http.{ErrorBody, Answer, service_answer, bad_days, query_of}

pub data Endpoint : Type 0 where
  get_summary : Endpoint
  get_costs : Endpoint
  get_health : Endpoint
  get_metrics : Endpoint
  get_static : Endpoint

-- The patterns of `Handler` and their endpoints, with the route label where `instrument` wraps them.
unfoldable pub endpoints : List (Str × Endpoint × Option Str)
endpoints =
    (codes "GET /api/summary", get_summary, some (codes "/api/summary"))
    ∷ (codes "GET /api/costs", get_costs, some (codes "/api/costs"))
    ∷ (codes "GET /api/health", get_health, some (codes "/api/health"))
    ∷ (codes "GET /metrics", get_metrics, none)
    ∷ (codes "GET /", get_static, some (codes "/static"))
    ∷ []

pub record Health : Type 0 where
  pub status : Str
  pub demo : Bool
  pub uptime : Str
  pub cache : CacheStats
  pub version : Str

pub data Body (F : Type 0) : Type 0 where
  json_series : Series F → Body F
  json_summary : Summary F → Body F
  json_health : Health → Body F
  json_error : ErrorBody → Body F
  -- what `http.FileServer` or `promhttp` write
  text : Str → Body F
  -- the page that says how to build the UI
  hint_page : Body F

-- What a handler writes: the codes passed to `WriteHeader`, in order, and the body.
pub record Reply (F : Type 0) : Type 0 where
  pub codes_written : List ℕ
  pub body : Body F

-- `statusWriter.WriteHeader`: it notes each code, the last one stays.
unfoldable pub last_code : ℕ → List ℕ → ℕ
last_code code [] = code
last_code code (c ∷ cs) = last_code c cs

-- What a request brings.
pub record HttpRequest : Type 0 where
  pub method : Str
  pub path : Str
  pub query : Str → Str

pub record Server (F : Type 0) : Type 0 where
  pub service : Service F
  pub demo : Bool
  -- the increments of `requests`, the latest first; `duration` has an observation for each
  pub requests : List (Str × Str × Str)

module _ {F : Type 0} where
  -- `New`
  unfoldable pub new_server : Service F → Bool → Server F
  new_server service demo = record { service = service; demo = demo; requests = [] }

  -- `writeJSON`
  unfoldable pub write_json : ℕ → Body F → Reply F
  write_json status body = record { codes_written = status ∷ []; body = body }

  unfoldable pub write_answer : {A : Type 0} → (A → Body F) → Answer A → Reply F
  unfolding write_json
  write_answer box a = elim a.body [
    | err e ↦ write_json a.status (json_error e)
    | ok v ↦ write_json a.status (box v)
  ]

  -- `instrument`
  unfoldable pub instrument :
      Str
      → Str
      → (Service F → Option (Reply F) × Service F)
      → Server F
      → Option (Reply F) × Server F
  unfolding last_code
  instrument route method next s =
      let (r, service) = next s.service in
      elim r [
        | none ↦ (none, record s { service = service })
        | some reply ↦ (
          some reply,
          record s {
            service = service;
            requests = (route, method, decimal (last_code 200 reply.codes_written)) ∷ s.requests;
          },
        )
      ]

  -- `handleStatic`: `opens` says which files the embedded UI has, `serve` what `http.FileServer` writes
  -- for a path.
  unfoldable pub handle_static : (Str → Bool) → (Str → Reply F) → Str → Reply F
  handle_static opens serve path =
      if not (holds (Str-discrete path (codes "/"))) && opens (drop 1 path)
      then serve path
      else if opens (codes "index.html")
      then serve (codes "/")
      else record { codes_written = []; body = hint_page }

  -- `handleHealth`
  unfoldable pub handle_health : Str → Str → Bool → Service F → Reply F
  unfolding write_json cache_stats
  handle_health version uptime demo service = write_json 200 (
      json_health (record {
        status = codes "ok";
        demo = demo;
        uptime = uptime;
        cache = cache_stats service;
        version = version;
      }))

-- What the handlers need besides the request and the state.
pub record Env (F : Type 0) : Type 0 where
  pub quote : Str → Str
  pub order : ℕ → List (Str × Entry (Value F)) → List (Str × Entry (Value F))
  pub client : Request → Outcome Failure Page
  pub forecast : ForecastRequest → Outcome Failure (Option MetricValue)
  pub visit_totals : ℕ → List (Str × F) → List (Str × F)
  pub visit_services : List Str → List Str
  -- rounds for the loops over pages
  pub fuel : ℕ
  pub version : Str
  -- `time.Since(s.started)`, rounded and printed
  pub uptime : Str
  pub opens : Str → Bool
  pub serve_file : Str → Reply F
  pub serve_metrics : Reply F

module _ {F : Type 0} ⦃fl : Float F⦄ (env : Env F) where
  -- `handleCosts`
  unfoldable pub serve_costs : Readings → HttpRequest → Service F → Option (Reply F) × Service F
  unfolding query_of costs service_answer write_answer
  serve_costs t r service = elim (query_of r.query) [
    | none ↦ (some (write_answer json_series bad_days), service)
    | some q ↦
        let a = costs env.quote env.order env.client env.fuel t q service in
        (Option.map (λ o. write_answer json_series (service_answer o)) a.0, a.1)
  ]

  -- `handleSummary`
  unfoldable pub serve_summary : Readings → Service F → Option (Reply F) × Service F
  unfolding summary service_answer write_answer
  serve_summary t service =
      let a =
        summary env.order env.client env.forecast env.visit_totals env.visit_services env.fuel t
          service in
      (Option.map (λ o. write_answer json_summary (service_answer o)) a.0, a.1)

  unfoldable pub respond :
      Endpoint → Bool → Readings → HttpRequest → Service F → Option (Reply F) × Service F
  unfolding serve_costs serve_summary handle_health handle_static
  respond get_summary demo t r service = serve_summary t service
  respond get_costs demo t r service = serve_costs t r service
  respond get_health demo t r service =
      (some (handle_health env.version env.uptime demo service), service)
  respond get_metrics demo t r service = (some env.serve_metrics, service)
  respond get_static demo t r service =
      (some (handle_static env.opens env.serve_file r.path), service)

  -- A request that matches one of the `endpoints`.
  unfoldable pub serve :
      Str × Endpoint × Option Str → Readings → HttpRequest → Server F → Option (Reply F) × Server F
  unfolding respond instrument
  serve (pattern, endpoint, none) t r s =
      let a = respond endpoint s.demo t r s.service in (a.0, record s { service = a.1 })
  serve (pattern, endpoint, some route) t r s =
      instrument route r.method (respond endpoint s.demo t r) s
