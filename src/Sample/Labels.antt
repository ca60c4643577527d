-- ===== src/Sample/Labels.antt =====
-- Which labels the metrics of the demo workload can get.
use mathlib.Core.Logic.{ite}
use mathlib.Core.Option
use eksp.Base.{
  sym, ◌∙◌, ℕ, Str, Str-discrete, codes, List, [], ◌∷◌, none, some, ◌≡◌, ◌⊎◌, inl, inr, refl, All,
  arith, Option-cases, Outcome, decimal, All-get_elem?, All-append, All-set, Option,
}
use eksp.Http.Server.{HttpRequest}
use eksp.Process.{
  Process, Step, tick, listen, listener_closed, listener_failed, crash, accept, turn, signal,
  shut_down, drained, forced, Reach, here, next,
}
use eksp.Sample.{
  Config, Response, handle_root, write_json, handle_work, handle_chain, chain_status, Result,
  gather,
}
use eksp.Sample.Chain.{calls_of, url_of}
use eksp.Sample.Server.{
  Handler, root, work, chain, healthz, readyz, metrics, Route, routes, App, begin_drain,
}
use eksp.Sample.Main.{
  Connection, opened, handling, answered, Env, respond, enter, count, release, Turn, hang_up,
  request, answer, leave, panic, panic_late, finish, IsGet, program, Reached, start, new_app,
}

-- The codes that a wrapped handler answers with, or a panic.
abbrev pub IsCode : ℕ → Type 0
IsCode code = (code ≡ 200) ⊎ (code ≡ 404) ⊎ (code ≡ 500) ⊎ (code ≡ 502) ⊎ (code ≡ 503)

-- One of the routes that are wrapped.
abbrev pub IsRoute : Config → Str → Type 0
IsRoute cfg l =
    (l ≡ codes "/") ⊎ (l ≡ codes "/work") ⊎ ((l ≡ codes "/chain") × (cfg.role ≡ codes "api"))

abbrev pub IsLabels : Config → Str × Str × Str → Type 0
IsLabels cfg (l, method, code) =
    IsRoute cfg l × IsGet method × (n : ℕ) × IsCode n × (code ≡ decimal n)

abbrev IsWrapped : Handler → Type 0
IsWrapped root = Unit
IsWrapped work = Unit
IsWrapped chain = Unit
IsWrapped _ = ⊥

abbrev IsKnown : Config → Route → Type 0
IsKnown cfg route = (l : Str) → route.label ≡ some l → IsRoute cfg l × IsWrapped route.handler

All-ite :
    {P : Type 0} (Q : Route → Type 0) (d : Dec P) (xs : List Route)
    → (P → All Q xs)
    → All Q (ite d xs [])
All-ite Q (yes p) xs h = h p
All-ite Q (no np) xs h = tt

All-routes : (cfg : Config) → All (IsKnown cfg) (routes cfg)
unfolding routes
All-routes cfg =
    let api = Str-discrete cfg.role (codes "api") in
    (
      λ l e. ground (arith, e),
      (
        λ l e. ground (arith, e),
        All-append (IsKnown cfg) (ite api _ []) _
            (All-ite (IsKnown cfg) api _ (λ is_api. (λ l e. ground (arith, e, is_api), tt)))
            (λ l e. ground (arith, e), (λ l e. ground (arith, e), (λ l e. ground (arith, e), tt))),
      ),
    )

chain_status-IsCode : (rs : List Result) → IsCode (chain_status rs)
unfolding chain_status
chain_status-IsCode [] = ground arith
chain_status-IsCode (r ∷ rs) = ground (arith, chain_status-IsCode rs)

root-IsCode : (cfg : Config) (hostname path : Str) → IsCode (handle_root cfg hostname path).status
unfolding handle_root write_json
root-IsCode cfg hostname path = elim (Str-discrete path (codes "/")) [
  | yes e ↦ ground (arith, e)
  | no ne ↦ ground (arith, ne)
]

chain-IsCode :
    (send : Str → Option (ℕ → Outcome Str ℕ)) (order : List ℕ) (cfg : Config) (query : Str → Str)
    {resp : Response}
    → handle_chain send order cfg query ≡ some resp
    → IsCode resp.status
unfolding handle_chain write_json
chain-IsCode send order cfg query {resp} answers = elim (Str-discrete cfg.worker_url []) [
  | yes e ↦ ground (arith, e, answers)
  | no ne ↦ elim (Option-cases (send (url_of cfg query))) [
    | inl e ↦
        let bad : none ≡ some resp = sym (rw (handle_chain, e) (ground (arith, ne))) ∙ answers in
        absurd (ground (arith, bad))
    | inr (fetch, e) ↦
        ground (arith, ne, e, answers, chain_status-IsCode (gather fetch (calls_of query) order))
  ]
]

work-IsCode :
    (env : Env) (cfg : Config) (query : Str → Str) {resp : Response}
    → handle_work env.sha256 env.hex4 env.clock env.fuel cfg query ≡ some resp
    → IsCode resp.status
unfolding handle_work write_json
work-IsCode env cfg query e = inl (answered_with _ _ (λ digest. refl) e)
  where
    answered_with :
        (o : Option Str) (f : Str → Response) {resp : Response}
        → ((digest : Str) → (f digest).status ≡ 200)
        → Option.map f o ≡ some resp
        → resp.status ≡ 200
    answered_with none f ok e = absurd (ground (arith, e))
    answered_with (some d) f ok e = ground (arith, ok d, e)

respond-IsCode :
    (env : Env) (cfg : Config) (a : App) (h : Handler) (r : HttpRequest) {resp : Response}
    → IsWrapped h
    → respond env cfg a h r ≡ some resp
    → IsCode resp.status
unfolding respond
respond-IsCode env cfg a root r {resp} w e = ground (arith, root-IsCode cfg env.hostname r.path, e)
respond-IsCode env cfg a work r w e = work-IsCode env cfg r.query e
respond-IsCode env cfg a chain r w e = chain-IsCode env.send env.order cfg r.query e
respond-IsCode env cfg a healthz r w e = elim w [ ]
respond-IsCode env cfg a readyz r w e = elim w [ ]
respond-IsCode env cfg a metrics r w e = elim w [ ]

-- What is known of a connection: its route is one of the routes, its method is GET or HEAD, and its
-- code one of the codes, if its handler is wrapped.
abbrev IsSound : Config → Connection → Type 0
IsSound cfg (handling route r) = IsKnown cfg route × IsGet r.method
IsSound cfg (answered route r code) =
    IsKnown cfg route × IsGet r.method × ((l : Str) → route.label ≡ some l → IsCode code)
IsSound cfg _ = Unit

record Sound (cfg : Config) (a : App) (cs : List Connection) : Type 0 where
  labels : All (IsLabels cfg) a.requests
  connections : All (IsSound cfg) cs

enter-IsLabels :
    (cfg : Config) (route : Route) (a : App)
    → All (IsLabels cfg) a.requests
    → All (IsLabels cfg) (enter route a).requests
unfolding enter
enter-IsLabels cfg route a h = elim (Option-cases route.label) [
  | inl e ↦ rw e h
  | inr (l, e) ↦ rw e h
]

release-IsLabels :
    (cfg : Config) (route : Route) (a : App)
    → All (IsLabels cfg) a.requests
    → All (IsLabels cfg) (release route a).requests
unfolding release
release-IsLabels cfg route a h = elim (Option-cases route.label) [
  | inl e ↦ rw e h
  | inr (l, e) ↦ rw e h
]

count-IsLabels :
    (cfg : Config) (route : Route) (r : HttpRequest) (code : ℕ) (a : App)
    → IsKnown cfg route
    → IsGet r.method
    → ((l : Str) → route.label ≡ some l → IsCode code)
    → All (IsLabels cfg) a.requests
    → All (IsLabels cfg) (count route r code a).requests
unfolding count
count-IsLabels cfg route r code a known get good h = elim (Option-cases route.label) [
  | inl e ↦ rw e h
  | inr (l, e) ↦ rw e (((known l e).0, get, code, good l e, refl), h)
]

Turn-IsLabels :
    {cfg : Config} {a b : App} {c c' : Connection}
    → Turn cfg a c b c'
    → IsSound cfg c
    → All (IsLabels cfg) a.requests
    → All (IsLabels cfg) b.requests × IsSound cfg c'
Turn-IsLabels hang_up known h = (h, tt)
Turn-IsLabels {cfg = cfg} {a = a} (request n route r at get) known h = (
  enter-IsLabels cfg route a h,
  (All-get_elem? (IsKnown cfg) (routes cfg) n (All-routes cfg) at, get),
)
Turn-IsLabels {cfg = cfg} {a = a} (answer env route r resp e) (known, get) h =
    (h, (known, get, λ l e'. respond-IsCode env cfg a route.handler r (known l e').1 e))
Turn-IsLabels {cfg = cfg} {a = a} (leave route r code) (known, get, good) h =
    (count-IsLabels cfg route r code a known get good h, tt)
Turn-IsLabels {cfg = cfg} {a = a} (panic route r) (known, get) h =
    (count-IsLabels cfg route r 500 a known get (λ l e. ground arith) h, tt)
Turn-IsLabels {cfg = cfg} {a = a} (panic_late route r code) (known, get, good) h =
    (count-IsLabels cfg route r 500 a known get (λ l e. ground arith) h, tt)
Turn-IsLabels {cfg = cfg} {a = a} (finish route) known h = (release-IsLabels cfg route a h, tt)

Step-Sound :
    {cfg : Config} {s u : Process App Connection}
    → Step (program cfg) s u
    → Sound cfg s.app s.connections
    → Sound cfg u.app u.connections
unfolding begin_drain
Step-Sound (tick d on) h = h
Step-Sound (listen on e _) h = h
Step-Sound (listener_closed t on e) h = h
Step-Sound (listener_failed on _) h = h
Step-Sound (crash i c on at dies) h = h
Step-Sound {cfg} {s} (accept on e) h = record {
  labels = h.labels;
  connections = All-append (IsSound cfg) s.connections (opened ∷ []) h.connections (tt, tt);
}
Step-Sound {cfg} {s} (turn i c c' a on at t) h =
    let known = All-get_elem? (IsSound cfg) s.connections i h.connections at in
    let (labels, now_known) = Turn-IsLabels t known h.labels in
    record {
      labels = labels;
      connections = All-set (IsSound cfg) s.connections i c' h.connections now_known;
    }
Step-Sound (signal on e) h = record { labels = h.labels; connections = h.connections }
Step-Sound (shut_down t on e late) h = h
Step-Sound (drained t on e shut done) h = h
Step-Sound (forced t on e late) h = h

Reach-Sound :
    {cfg : Config} {s u : Process App Connection}
    → Reach (program cfg) s u
    → Sound cfg s.app s.connections
    → Sound cfg u.app u.connections
Reach-Sound here h = h
Reach-Sound (next r st) h = Step-Sound st (Reach-Sound r h)

-- The labels of the metrics are bounded, whatever is requested: the route is one of those that
-- `instrument` wraps, /chain in the role of the API alone, the method is GET or HEAD, and the code is
-- 200, 404, 500, 502 or 503.
pub Reached-IsLabels :
    (cfg : Config) (t : ℕ) {s : Process App Connection}
    → Reached cfg t s
    → All (IsLabels cfg) s.app.requests
unfolding start new_app
Reached-IsLabels cfg t r = (Reach-Sound r (record { labels = tt; connections = tt })).labels
