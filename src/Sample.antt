-- ===== src/Sample.antt =====
-- The demo workload, apps/sample-api/main.go: its configuration, handlers, metrics and shutdown.
-- Durations and instants are in nanoseconds. `os.Getenv`, `time.ParseDuration`, SHA-256, the clock and
-- the HTTP client are parameters: a query parameter or a variable that is not set reads as "".
-- A response is what the handler hands to `net/http`; its body stays a value, as JSON is not modelled.
pub mod Requests
pub mod Chain
pub mod Server
pub mod Drain
pub mod Main
pub mod Gauge
pub mod Life
pub mod Labels
pub mod Alone
mod Tests
mod Scenario
use mathlib.Core.Logic.{ite}
use mathlib.Core.Option
use eksp.Base.{
  ℕ, zero, suc, ◌+◌, ◌*◌, Str, codes, Str-discrete, atoi, List, [], ◌∷◌, ◌++◌, foldl, set,
  replicate, not, Option, none, some, if◌then◌else◌, ltb, ◌==◌, ℤ, pos, pos_part, ltb_ℤ, decimal_ℤ,
  Outcome, ok, err,
}

abbrev pub max_work_ms : ℤ
max_work_ms = pos 5000

abbrev pub max_work_kb : ℤ
max_work_kb = pos 1024

abbrev pub max_chain_calls : ℤ
max_chain_calls = pos 8

abbrev pub seconds : ℕ → ℤ
seconds n = pos (n * 1000000000)

pub record Config : Type 0 where
  pub port : Str
  pub role : Str
  pub worker_url : Str
  pub version : Str
  pub shutdown_delay : ℤ

module _ (getenv : Str → Str) where
  unfoldable pub env_or : Str → Str → Str
  env_or key fallback = ite (Str-discrete (getenv key) []) fallback (getenv key)

  module _ (parse_duration : Str → Option ℤ) where
    -- The drain delay: 15 s, unless the variable holds a duration.
    unfoldable pub delay_from_env : ℤ
    delay_from_env =
        ite (Str-discrete (getenv (codes "SHUTDOWN_DELAY")) []) (seconds 15)
          (Option.get_or (parse_duration (getenv (codes "SHUTDOWN_DELAY"))) (seconds 15))

    unfoldable pub config_from_env : Config
    unfolding delay_from_env env_or
    config_from_env = record {
      port = env_or (codes "PORT") (codes "8080");
      role = env_or (codes "ROLE") (codes "api");
      worker_url = getenv (codes "WORKER_URL");
      version = env_or (codes "VERSION") (codes "dev");
      shutdown_delay = delay_from_env;
    }

-- `result` of a call to the worker.
pub record Result : Type 0 where
  pub status : ℕ
  pub failure : Str

pub data Body : Type 0 where
  text : Str → Body
  -- `map[string]string`
  fields : List (Str × Str) → Body
  -- role, ms, kb, digest
  worked : Str → ℤ → ℤ → Str → Body
  -- role, calls, results
  chained : Str → ℤ → List Result → Body

pub record Response : Type 0 where
  pub status : ℕ
  pub content_type : Str
  pub body : Body

unfoldable pub write_json : ℕ → Body → Response
write_json status body = record {
  status = status;
  content_type = codes "application/json";
  body = body;
}

-- `http.NotFound`, `http.Error` and `fmt.Fprint` send plain text.
abbrev pub plain : ℕ → Str → Response
plain status s = record {
  status = status;
  content_type = codes "text/plain; charset=utf-8";
  body = text s;
}

-- `clampQueryInt`; `query` is `r.URL.Query().Get`.
unfoldable pub clamp_query_int : (Str → Str) → Str → ℤ → ℤ → ℤ
clamp_query_int query key min max =
    let too_low = ite (Str-discrete key (codes "calls")) min (pos 0) in
    elim (atoi (query key)) [
      | none ↦ too_low
      | some v ↦ if ltb_ℤ v min then too_low else if ltb_ℤ max v then max else v
    ]

unfoldable pub handle_root : Config → Str → Str → Response
unfolding write_json
handle_root cfg hostname path =
    ite (Str-discrete path (codes "/"))
      (write_json 200 (
        fields (
          (codes "service", codes "sample-api")
          ∷ (codes "role", cfg.role)
          ∷ (codes "version", cfg.version)
          ∷ (codes "hostname", hostname)
          ∷ [])))
      (plain 404 (codes "404 page not found\n"))

-- `for time.Now().Before(deadline) { sum = sha256.Sum256(sum[:]) }`; `clock n` is the n-th reading.
-- `none` where the rounds run out.
burn : (Str → Str) → (ℕ → ℕ) → ℕ → ℕ → ℕ → Str → Option Str
burn sha256 clock zero deadline n sum = none
burn sha256 clock (suc fuel) deadline n sum =
    let rest = burn sha256 clock fuel deadline (suc n) (sha256 sum) in
    if ltb (clock n) deadline then rest else some sum

-- `handleWork`. The deadline is set at the first reading of the clock.
unfoldable pub handle_work :
    (Str → Str) → (Str → Str) → (ℕ → ℕ) → ℕ → Config → (Str → Str) → Option Response
unfolding burn clamp_query_int write_json
handle_work sha256 hex4 clock fuel cfg query =
    let ms = clamp_query_int query (codes "ms") (pos 0) max_work_ms in
    let kb = clamp_query_int query (codes "kb") (pos 0) max_work_kb in
    let sum = sha256 (replicate (pos_part kb * 1024) 0) in
    let deadline = clock 0 + pos_part ms * 1000000 in
    Option.map (λ digest. write_json 200 (worked cfg.role ms kb (hex4 digest)))
      (burn sha256 clock fuel deadline 1 sum)

-- What goroutine `i` of `handleChain` writes, where `fetch i` is what its call to the worker gives: the
-- status of the response, or an error.
unfoldable pub result_of : Outcome Str ℕ → Result
result_of (ok status) = record { status = status; failure = [] }
result_of (err e) = record { status = 0; failure = e }

-- `results`, once the goroutines have run, each writing at its index, in the order of the list.
unfoldable pub gather : (ℕ → Outcome Str ℕ) → ℕ → List ℕ → List Result
unfolding result_of
gather fetch calls order =
    foldl (λ results i. set results i (result_of (fetch i)))
      (replicate calls (record { status = 0; failure = [] })) order

-- The loop over `results` that ends with the first that is not 200.
unfoldable pub chain_status : List Result → ℕ
chain_status [] = 200
chain_status (r ∷ rs) = if r.status == 200 then chain_status rs else 502

-- `handleChain`. `send url` is `none` where `http.NewRequestWithContext` refuses the URL: its error is
-- discarded, and `Do` panics on the nil request, in a goroutine that nothing recovers. Otherwise it says
-- what goroutine `i` is answered. `none` is the end of the process.
unfoldable pub handle_chain :
    (Str → Option (ℕ → Outcome Str ℕ)) → List ℕ → Config → (Str → Str) → Option Response
unfolding clamp_query_int write_json gather chain_status
handle_chain send order cfg query =
    let calls = clamp_query_int query (codes "calls") (pos 1) max_chain_calls in
    let work_ms = clamp_query_int query (codes "ms") (pos 0) max_work_ms in
    let url = cfg.worker_url ++ (codes "/work?ms=" ++ decimal_ℤ work_ms) in
    ite (Str-discrete cfg.worker_url [])
      (some (write_json 503 (fields ((codes "error", codes "WORKER_URL not configured") ∷ []))))
      (Option.map
        (λ fetch.
          let results = gather fetch (pos_part calls) order in
          write_json (chain_status results) (chained cfg.role calls results))
        (send url))
