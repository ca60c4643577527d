-- ===== src/Http/Demo.antt =====
-- The costs and summary endpoints of a server that runs on the demo client.
use mathlib.Core.List.{Perm}
use mathlib.Core.Path.{subst}
use eksp.Base.{
  ℕ, ◌≤◌, ◌<◌, Str, codes, decimal, lookup, List, [], ◌∷◌, false, none, some, Option-cases,
  Outcome-cases, ◌≡◌, refl, ◌∙◌, ◌⊎◌, inl, inr, arith, pos, ◌≤ℤ◌, Float, Outcome, ok, err,
}
use eksp.Query.{Query, normalize, cache_key}
use eksp.Query.Normalize.{IsKnown, IsAllowed, normalize_sound, normalize_refusal}
use eksp.Aggregate.{Series}
use eksp.Cache.{fresh}
use eksp.Fetch.{Failure, Request, Page, fetch_costs}
use eksp.Demo.Month.{fetch_summary-demo}
use eksp.Summary.{Summary, fetch_summary}
use mathlib.Core.Option
use eksp.Time.{date_of}
use eksp.Service.{of_summary, summary_key, summary, read_summary, Readings, Service, costs}
use eksp.Service.Again.{do_call-first, costs_again}
use eksp.Wave.{Math}
use eksp.Demo.{get_cost_and_usage}
use eksp.Demo.Range.{year_10000}
use eksp.Demo.Answers.{fetch_costs-demo}
use eksp.Http.Parameters.{IsBadDays, Asks, query_of-IsBadDays, query_of-Asks}
use eksp.Http.{service_answer, write_service_error, query_of}
use eksp.Http.Server.{
  Endpoint, get_costs, get_summary, serve_summary, Body, json_series, json_summary, json_error,
  HttpRequest, Server, Env, write_json, write_answer, instrument, last_code, serve, serve_costs,
  respond,
}

-- The endpoints for costs and for the summary, as `Handler` routes them.
abbrev pub costs_route : Str × Endpoint × Str
costs_route = (codes "GET /api/costs", get_costs, codes "/api/costs")

abbrev pub summary_route : Str × Endpoint × Str
summary_route = (codes "GET /api/summary", get_summary, codes "/api/summary")

module _ {F : Type 0} ⦃fl : Float F⦄ (env : Env F) where
  -- The endpoint answers with this status and body, and counts that once.
  abbrev pub Answers :
      Str × Endpoint × Str → Readings → HttpRequest → Server F → ℕ → Body F → Type 0
  Answers (pattern, endpoint, label) t r s status body =
      ((serve env (pattern, endpoint, some label) t r s).0 ≡ some (write_json status body))
      × ((serve env (pattern, endpoint, some label) t r s).1.requests
          ≡ (label, r.method, decimal status) ∷ s.requests)

  serve-Answers :
      (route : Str × Endpoint × Str) (t : Readings) (r : HttpRequest) (s : Server F) (status : ℕ)
      (body : Body F)
      → (respond env route.1 s.demo t r s.service).0 ≡ some (write_json status body)
      → Answers route t r s status body
  unfolding serve instrument write_json last_code
  serve-Answers (pattern, endpoint, label) t r s status body e =
      (rw (serve, instrument, e) refl, rw (serve, instrument, e) refl)

  -- A request for costs is answered with what its query fetches.
  abbrev pub CostsAnswered : Readings → HttpRequest → Server F → Type 0
  CostsAnswered t r s =
      (q q' : Query) × (v : Series F) × Asks r.query q
      × IsKnown q.granularity
      × IsAllowed s.service.allowed_tags q.group_by
      × (normalize env.quote s.service.allowed_tags q ≡ ok q')
      × (fetch_costs env.client env.fuel t.now t.stamp q' ≡ some (ok v))
      × Answers costs_route t r s 200 (json_series (record v { cached = false }))

  -- A request for costs is answered with 400: for its days, or for its granularity or grouping.
  abbrev pub CostsRefused : Readings → HttpRequest → Server F → Type 0
  CostsRefused t r s =
      (IsBadDays r.query
        × Answers costs_route t r s 400
            (json_error (record { error = codes "days must be an integer"; hint = [] })))
      ⊎ ((q : Query) × (message : Str) × Asks r.query q
          × ¬ (IsKnown q.granularity × IsAllowed s.service.allowed_tags q.group_by)
          × Answers costs_route t r s 400 (json_error (record { error = message; hint = [] })))

  serve_summary_lem :
      (t : Readings) (r : HttpRequest) (service : Service F) {v : Summary F}
      → pos 1 ≤ℤ service.cache.ttl
      → fresh t.locked summary_key service.cache.entries ≡ none
      → lookup summary_key service.cache.inflight ≡ none
      → fetch_summary env.client env.forecast env.visit_totals env.visit_services env.fuel t.now
        ≡ some (ok v)
      → (serve_summary env t service).0
        ≡ some (write_json 200 (json_summary (record v { cached = false })))
  unfolding serve_summary summary read_summary service_answer write_answer Option.bind
  serve_summary_lem t r service {v} on stale free fetched =
      let first =
        do_call-first env.order t.locked t.stored summary_key (ok (of_summary v)) service.cache on
          stale free in
      rw (serve_summary, summary, fetched, first) refl

  costs_refused :
      (t : Readings) (q : Query) (service : Service F) {message : Str}
      → normalize env.quote service.allowed_tags q ≡ err message
      → (costs env.quote env.order env.client env.fuel t q service).0
        ≡ some (err (record { message = message; is_hourly_not_enabled = false }))
  unfolding costs
  costs_refused t q service refused = rw (costs, refused) refl

  -- `serve_costs` on a query that was read.
  serve_costs_lem :
      (t : Readings) (r : HttpRequest) (service : Service F) {q : Query}
      {o : Outcome Failure (Series F)}
      → query_of r.query ≡ some q
      → (costs env.quote env.order env.client env.fuel t q service).0 ≡ some o
      → (serve_costs env t r service).0 ≡ some (write_answer json_series (service_answer o))
  unfolding serve_costs
  serve_costs_lem t r service read e = rw (serve_costs, read, e) refl

  serve_costs-unread :
      (t : Readings) (r : HttpRequest) (service : Service F)
      → query_of r.query ≡ none
      → (serve_costs env t r service).0
        ≡ some (
            write_json 400
              (json_error (record { error = codes "days must be an integer"; hint = [] })))
  unfolding serve_costs write_answer
  serve_costs-unread t r service unread = rw (serve_costs, unread) refl

  serve_costs-refused :
      (t : Readings) (r : HttpRequest) (service : Service F) {q : Query} {message : Str}
      → query_of r.query ≡ some q
      → normalize env.quote service.allowed_tags q ≡ err message
      → (serve_costs env t r service).0
        ≡ some (write_json 400 (json_error (record { error = message; hint = [] })))
  unfolding service_answer write_service_error write_answer
  serve_costs-refused t r service {q} {message} read refused =
      let (word, _) = normalize_refusal env.quote service.allowed_tags q refused in
      serve_costs_lem t r service read (costs_refused t q service refused) ∙ rw word refl

  module _ ⦃m : Math F⦄ (parse_error : Str → Str) (visit : List Str → List Str) where
    costs-demo :
        (fuel : ℕ) (t : Readings) (r : HttpRequest) (s : Server F)
        → ((ks : List Str) → Perm (visit ks) ks)
        → ((r : Request) (o : Outcome Failure Page)
            → get_cost_and_usage F parse_error visit fuel r ≡ some o
            → env.client r ≡ o)
        → t.now < year_10000
        → t.now < fuel
        → 1 ≤ env.fuel
        → pos 1 ≤ℤ s.service.cache.ttl
        → ((q q' : Query)
            → query_of r.query ≡ some q
            → normalize env.quote s.service.allowed_tags q ≡ ok q'
            → (fresh t.locked (cache_key q') s.service.cache.entries ≡ none)
              × (lookup (cache_key q') s.service.cache.inflight ≡ none))
        → CostsAnswered t r s ⊎ CostsRefused t r s
    unfolding service_answer write_answer respond
    costs-demo fuel t r s any answers small enough one on cold =
        elim (Option-cases (query_of r.query)) [
          | inl unread ↦ inr (
              inl (
                query_of-IsBadDays r.query unread,
                serve-Answers costs_route t r s 400 _ (serve_costs-unread t r s.service unread),
              ))
          | inr (q, read) ↦ elim (Outcome-cases (normalize env.quote s.service.allowed_tags q)) [
            | inr (message, refused) ↦ inr (
                inr (
                  q,
                  message,
                  query_of-Asks r.query read,
                  (normalize_refusal env.quote s.service.allowed_tags q refused).1,
                  serve-Answers costs_route t r s 400 _
                      (serve_costs-refused t r s.service read refused),
                ))
            | inl (q', accepted) ↦
                let (known, allowed, _, same, same') =
                  normalize_sound env.quote s.service.allowed_tags q accepted in
                let (_, _, v, _, fetched, _) =
                  fetch_costs-demo parse_error visit fuel env.fuel t.now t.stamp q' env.client any
                    answers small enough one known in
                let (stale, free) = cold q q' read accepted in
                let (first, _) =
                  costs_again env.quote env.order env.client env.client env.fuel env.fuel t t q q q'
                    s.service (ok v) (ok v) on accepted accepted stale free fetched fetched
                    (omega arith) in
                inl (
                  q,
                  q',
                  v,
                  query_of-Asks r.query read,
                  subst IsKnown same known,
                  subst (IsAllowed s.service.allowed_tags) same' allowed,
                  accepted,
                  fetched,
                  serve-Answers costs_route t r s 200 _ (serve_costs_lem t r s.service read first),
                )
          ]
        ]

    -- In demo mode, from the year 1 on and before the year 10000, with rounds enough and the cache on, and
    -- where neither a fresh entry nor a call in flight answers the query or the summary: a request to
    -- the costs endpoint whose days are left out or an integer, whose granularity is known and whose
    -- grouping is allowed is answered with the series that its query fetches and 200; one whose days are
    -- no integer with an error and 400, and so is one whose granularity is unknown or whose grouping is
    -- not allowed; one to the summary endpoint is answered with the summary that is fetched and 200,
    -- whatever the forecast; and each is counted once, with its code.
    pub serve-demo :
        (fuel : ℕ) (t : Readings) (r : HttpRequest) (s : Server F)
        → ((ks : List Str) → Perm (visit ks) ks)
        → ((r : Request) (o : Outcome Failure Page)
            → get_cost_and_usage F parse_error visit fuel r ≡ some o
            → env.client r ≡ o)
        → 1 ≤ (date_of t.now).year
        → t.now < year_10000
        → t.now < fuel
        → 1 ≤ env.fuel
        → pos 1 ≤ℤ s.service.cache.ttl
        → ((q q' : Query)
            → query_of r.query ≡ some q
            → normalize env.quote s.service.allowed_tags q ≡ ok q'
            → (fresh t.locked (cache_key q') s.service.cache.entries ≡ none)
              × (lookup (cache_key q') s.service.cache.inflight ≡ none))
        → fresh t.locked summary_key s.service.cache.entries ≡ none
        → lookup summary_key s.service.cache.inflight ≡ none
        → (CostsAnswered t r s ⊎ CostsRefused t r s)
          × ((v : Summary F) × (fetch_summary env.client env.forecast env.visit_totals
                  env.visit_services env.fuel t.now
                ≡ some (ok v))
              × Answers summary_route t r s 200 (json_summary (record v { cached = false })))
    unfolding respond
    serve-demo fuel t r s any answers year small enough one on cold stale free =
        let (_, _, current, previous, _, _, _, _, fetched) =
          fetch_summary-demo parse_error visit fuel env.client answers env.forecast env.visit_totals
            env.visit_services env.fuel t.now year small enough one in
        (
          costs-demo fuel t r s any answers small enough one on cold,
          (
            _,
            fetched,
            serve-Answers summary_route t r s 200 _
                (serve_summary_lem t r s.service on stale free fetched),
          ),
        )
