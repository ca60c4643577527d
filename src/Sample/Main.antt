-- ===== src/Sample/Main.antt =====
-- What `newApp` and `main` of apps/sample-api/main.go make, and the steps in which a connection of its
-- server is served, between which the other connections take theirs. The registry and the client are
-- third-party code and `net/http`: what they are given is a value. The logger is left out.
use eksp.Base.{
  ℕ, Str, codes, decimal, List, [], ◌∷◌, true, false, Option, none, some, get_elem?, Outcome, ℤ,
  pos, ◌+ℤ◌, ◌-ℤ◌, ◌≡◌, ◌⊎◌,
}
use eksp.Http.Server.{HttpRequest}
use eksp.Process.{Program, Process, Reach, launched}
use eksp.Sample.{Config, Response, seconds, handle_root, handle_work, handle_chain}
use eksp.Sample.Server.{
  Handler, root, work, chain, healthz, readyz, metrics, Route, routes, App, handle_healthz,
  handle_readyz, begin_drain,
}

-- A metric as it is registered: name, help, labels; the buckets in tenths of a millisecond.
pub data Metric : Type 0 where
  counter_vec : Str → Str → List Str → Metric
  histogram_vec : Str → Str → List ℕ → List Str → Metric
  gauge : Str → Str → Metric

-- `http.Client` with its transport.
pub record Client : Type 0 where
  pub timeout : ℤ
  pub max_idle_conns : ℕ
  pub max_idle_conns_per_host : ℕ
  pub idle_conn_timeout : ℤ

-- `app`: `state` holds what changes.
pub record Workload : Type 0 where
  pub cfg : Config
  pub state : App
  pub registered : List Metric
  pub client : Client

abbrev pub label_names : List Str
label_names = codes "route" ∷ codes "method" ∷ codes "code" ∷ []

-- `newApp`
unfoldable pub new_app : Config → Workload
new_app cfg = record {
  cfg = cfg;
  state = record { ready = false; requests = []; inflight = pos 0 };
  registered =
      counter_vec (codes "http_requests_total")
        (codes "HTTP requests by route, method and status code.") label_names
      ∷ histogram_vec (codes "http_request_duration_seconds") (codes "Request latency by route.")
          (10 ∷ 25 ∷ 50 ∷ 100 ∷ 250 ∷ 500 ∷ 1000 ∷ 1500 ∷ 2500 ∷ 5000 ∷ 10000 ∷ 25000 ∷ [])
          label_names
      ∷ gauge (codes "http_requests_in_flight") (codes "Requests currently being served.")
      ∷ [];
  client = record {
    timeout = seconds 2;
    max_idle_conns = 512;
    max_idle_conns_per_host = 256;
    idle_conn_timeout = seconds 90;
  };
}

-- `http.Server`
pub record HttpServer : Type 0 where
  pub addr : Str
  pub handler : List Route
  pub read_header_timeout : ℤ
  pub idle_timeout : ℤ

-- `main` up to the goroutine that listens.
unfoldable pub start : Config → Workload × HttpServer
unfolding new_app
start cfg =
    let a = new_app cfg in
    (
      record a { state = record a.state { ready = true } },
      record {
        addr = b':' ∷ cfg.port;
        handler = routes cfg;
        read_header_timeout = seconds 5;
        idle_timeout = seconds 120;
      },
    )

-- What the handlers need besides the request and the state.
pub record Env : Type 0 where
  pub hostname : Str
  pub sha256 : Str → Str
  pub hex4 : Str → Str
  pub clock : ℕ → ℕ
  pub fuel : ℕ
  -- what the worker answers, as `handle_chain` takes it
  pub send : Str → Option (ℕ → Outcome Str ℕ)
  pub order : List ℕ
  -- what `promhttp` answers
  pub exposition : Response

unfoldable pub respond : Env → Config → App → Handler → HttpRequest → Option Response
unfolding handle_root handle_work handle_chain handle_healthz handle_readyz
respond env cfg a root r = some (handle_root cfg env.hostname r.path)
respond env cfg a work r = handle_work env.sha256 env.hex4 env.clock env.fuel cfg r.query
respond env cfg a chain r = handle_chain env.send env.order cfg r.query
respond env cfg a healthz r = some handle_healthz
respond env cfg a readyz r = some (handle_readyz a)
respond env cfg a metrics r = some env.exposition

-- A connection of the server, with the route of its request.
pub data Connection : Type 0 where
  opened : Connection
  handling : Route → HttpRequest → Connection
  -- the handler has written its answer, with this code
  answered : Route → HttpRequest → ℕ → Connection
  -- `instrument` has counted the request
  counted : Route → Connection
  served : Route → Connection
  -- closed before a request has come
  hung_up : Connection

-- `instrument`, cut where other goroutines may run: its first lines, the deferred function that
-- counts, and the deferred `Dec`. A handler that it does not wrap changes nothing.
unfoldable pub enter : Route → App → App
enter route a = elim route.label [ none ↦ a | some l ↦ record a { inflight = a.inflight +ℤ pos 1 } ]

unfoldable pub count : Route → HttpRequest → ℕ → App → App
count route r code a = elim route.label [
  | none ↦ a
  | some l ↦ record a { requests = (l, r.method, decimal code) ∷ a.requests }
]

unfoldable pub release : Route → App → App
release route a = elim route.label [
  | none ↦ a
  | some l ↦ record a { inflight = a.inflight -ℤ pos 1 }
]

-- The methods that a pattern with GET matches.
abbrev pub IsGet : Str → Type 0
IsGet method = (method ≡ codes "GET") ⊎ (method ≡ codes "HEAD")

pub data Turn (cfg : Config) (a : App) : Connection → App → Connection → Type 0 where
  hang_up : Turn cfg a opened a hung_up
  request :
      (n : ℕ) (route : Route) (r : HttpRequest)
      → get_elem? (routes cfg) n ≡ some route
      → IsGet r.method
      → Turn cfg a opened (enter route a) (handling route r)
  answer :
      (env : Env) (route : Route) (r : HttpRequest) (resp : Response)
      → respond env cfg a route.handler r ≡ some resp
      → Turn cfg a (handling route r) a (answered route r resp.status)
  leave :
      (route : Route) (r : HttpRequest) (code : ℕ)
      → Turn cfg a (answered route r code) (count route r code a) (counted route)
  -- a panic, recovered by `instrument` or by `net/http`
  panic :
      (route : Route) (r : HttpRequest)
      → Turn cfg a (handling route r) (count route r 500 a) (counted route)
  panic_late :
      (route : Route) (r : HttpRequest) (code : ℕ)
      → Turn cfg a (answered route r code) (count route r 500 a) (counted route)
  finish : (route : Route) → Turn cfg a (counted route) (release route a) (served route)

abbrev pub IsClosed : Connection → Type 0
IsClosed (served route) = Unit
IsClosed hung_up = Unit
IsClosed _ = ⊥

-- `handleChain` has started the calls to the worker, and their URL is refused.
abbrev pub Crashes : Config → Connection → Type 0
Crashes cfg (handling route r) =
    (env : Env) × (route.handler ≡ chain) × (handle_chain env.send env.order cfg r.query ≡ none)
Crashes cfg _ = ⊥

-- `main` and `shutdown`.
abbrev pub program : Config → Program App Connection
program cfg = record {
  on_signal = begin_drain;
  delay = cfg.shutdown_delay;
  limit = seconds 25;
  opened = opened;
  IsDone = IsClosed;
  on_tick = λ d a. a;
  Turn = λ i. Turn cfg;
  Crashes = λ a. Crashes cfg;
}

-- The states that the workload can get to, from its start at an instant.
abbrev pub Reached : Config → ℕ → Process App Connection → Type 0
Reached cfg t = Reach (program cfg) (launched (program cfg) t (start cfg).0.state)
