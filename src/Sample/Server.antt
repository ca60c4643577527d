-- ===== src/Sample/Server.antt =====
-- The server of the demo workload, apps/sample-api/main.go: routes, readiness, the metrics that
-- `instrument` keeps, and the shutdown. Which pattern a request matches is up to `http.ServeMux`, what
-- `Server.Shutdown` does up to `net/http`: it returns, with an error if its time runs out.
use mathlib.Core.Logic.{ite}
use eksp.Base.{
  ℕ, Str, codes, Str-discrete, List, [], ◌∷◌, ◌++◌, Bool, false, Option, none, some, if◌then◌else◌,
  ℤ, pos, ◌+ℤ◌, ◌-ℤ◌, decimal,
}
use eksp.Sample.{Config, Response, plain, seconds}

pub data Handler : Type 0 where
  root : Handler
  work : Handler
  chain : Handler
  healthz : Handler
  readyz : Handler
  metrics : Handler

pub record Route : Type 0 where
  pub pattern : Str
  pub handler : Handler
  -- the route label, if `instrument` wraps the handler
  pub label : Option Str

unfoldable pub routes : Config → List Route
routes cfg =
    record { pattern = codes "GET /"; handler = root; label = some (codes "/") }
    ∷ record { pattern = codes "GET /work"; handler = work; label = some (codes "/work") }
    ∷ (ite (Str-discrete cfg.role (codes "api"))
          (record { pattern = codes "GET /chain"; handler = chain; label = some (codes "/chain") }
            ∷ [])
          []
        ++ (record { pattern = codes "GET /healthz"; handler = healthz; label = none }
            ∷ record { pattern = codes "GET /readyz"; handler = readyz; label = none }
            ∷ record { pattern = codes "GET /metrics"; handler = metrics; label = none }
            ∷ []))

-- The counters: requests by route, method and code, and those being served. The histogram has the
-- labels of `requests`, and an observation for each of its increments.
pub record App : Type 0 where
  pub ready : Bool
  pub requests : List (Str × Str × Str)
  pub inflight : ℤ

unfoldable pub handle_healthz : Response
handle_healthz = plain 200 (codes "ok")

unfoldable pub handle_readyz : App → Response
handle_readyz a = if a.ready then plain 200 (codes "ready") else plain 503 (codes "draining")

-- The run of a handler as `instrument` sees it: the codes passed to `WriteHeader`, in order, and a
-- panic at the end, if there is one.
pub record Run : Type 0 where
  pub codes_written : List ℕ
  pub panic : Option Str

-- `statusWriter.WriteHeader`: it notes each code, the last one stays.
unfoldable pub note_codes : ℕ → List ℕ → ℕ
note_codes code [] = code
note_codes code (c ∷ cs) = note_codes c cs

-- All codes that are written, with that of `http.Error` after a panic.
unfoldable pub all_codes : Run → List ℕ
all_codes run = elim run.panic [ none ↦ run.codes_written | some e ↦ run.codes_written ++ 500 ∷ [] ]

-- `instrument`. The request counts as being served while the handler runs: the handler gets that
-- state, and what it does to it, if it serves requests of its own, is not undone.
unfoldable pub instrument : Str → Str → (App → Run × App) → App → App
unfolding note_codes all_codes
instrument route method next a =
    let (run, b) = next (record a { inflight = a.inflight +ℤ pos 1 }) in
    record b {
      requests = (route, method, decimal (note_codes 200 (all_codes run))) ∷ b.requests;
      inflight = b.inflight -ℤ pos 1;
    }

unfoldable pub begin_drain : App → App
begin_drain a = record a { ready = false }

-- What `shutdown` does, one after the other.
pub data Event : Type 0 where
  logged : Str → Event
  readiness_failed : Event
  slept : ℤ → Event
  -- with its time limit
  server_shut_down : ℤ → Event

pub record Moment : Type 0 where
  pub event : Event
  pub app : App

-- `shutdown`: each event with the state after it. `stop` is the answer of `srv.Shutdown`.
unfoldable pub shutdown : Config → Option Str → App → List Moment
unfolding begin_drain
shutdown cfg stop a =
    let b = begin_drain a in
    let last = record { event = logged (codes "drained cleanly"); app = b } ∷ [] in
    record {
      event = logged (codes "SIGTERM: failing readiness, serving through deregistration");
      app = a;
    }
    ∷ record { event = readiness_failed; app = b }
    ∷ record { event = slept cfg.shutdown_delay; app = b }
    ∷ record { event = server_shut_down (seconds 25); app = b }
    ∷ elim stop [
      | none ↦ last
      | some e ↦
          record { event = logged (codes "forced shutdown with requests in flight"); app = b }
          ∷ last
    ]
