-- ===== src/Sample/Tests.antt =====
-- The demo workload on small inputs.
use mathlib.Core.Logic.{ite}
use eksp.Base.{
  ◌+◌, ◌*◌, ◌<◌, ◌≤◌, pos_part, replicate, ℕ, zero, suc, ◌*◌, ◌≤◌, ◌<◌, Str, codes, Str-discrete,
  atoi, [], ◌∷◌, Option, none, some, if◌then◌else◌, ℤ, pos, ltb_ℤ, Outcome, ok, err, ◌≡◌, ◌≢◌, ◌⊎◌,
  refl, arith,
}
use eksp.Sample.Requests.{clamp_query_int_lem, handle_work_lem, IsTaken, again}
use eksp.Sample.Chain.{AllRun, calls_of, url_of, handle_chain_lem, handle_chain-order}
use eksp.Sample.{
  Response, config_from_env, env_or, delay_from_env, Config, worked, write_json, seconds,
  clamp_query_int, max_work_ms, handle_work, handle_chain,
}

-- `?ms=7000&calls=2`
abbrev pub query : Str → Str
query key =
    ite (Str-discrete key (codes "ms")) (codes "7000")
      (ite (Str-discrete key (codes "calls")) (codes "2") [])

-- `WORKER_URL` is set, and nothing else.
abbrev getenv : Str → Str
getenv key = ite (Str-discrete key (codes "WORKER_URL")) (codes "http://worker") []

abbrev no_duration : Str → Option ℤ
no_duration s = none

abbrev pub cfg : Config
cfg = record {
  port = codes "8080";
  role = codes "api";
  worker_url = codes "http://worker";
  version = codes "dev";
  shutdown_delay = seconds 15;
}

cfg_read : config_from_env getenv no_duration ≡ cfg
unfolding config_from_env env_or delay_from_env Str-discrete
cfg_read = refl

ms_read : atoi (query (codes "ms")) ≡ some (pos 7000)
unfolding atoi Str-discrete
ms_read = refl

clamp_query_int_lem_example :
    clamp_query_int query (codes "ms") (pos 0) max_work_ms
    ≡ (if ltb_ℤ max_work_ms (pos 7000) then max_work_ms else pos 7000)
clamp_query_int_lem_example =
    clamp_query_int_lem query (codes "ms") (pos 0) max_work_ms ms_read (omega arith)

-- A clock that is read once a second.
abbrev pub clock : ℕ → ℕ
clock n = n * 1000000000

abbrev pub digest_of : Str → Str
digest_of s = 1 ∷ []

handle_work_lem_example :
    (ms kb : ℤ) × (k : ℕ) × IsTaken (query (codes "ms")) (pos 5000) ms
    × IsTaken (query (codes "kb")) (pos 1024) kb
    × ((j : ℕ) → j < k → clock (1 + j) < clock 0 + pos_part ms * 1000000)
    × (clock 0 + pos_part ms * 1000000 ≤ clock (1 + k))
    × (handle_work digest_of digest_of clock 6 cfg query
        ≡ some (
            write_json 200 (
              worked cfg.role ms kb
                (digest_of (again k digest_of (digest_of (replicate (pos_part kb * 1024) 0)))))))
handle_work_lem_example =
    handle_work_lem digest_of digest_of clock 6 cfg query 4 (omega arith) (omega arith)

-- The second call fails.
abbrev fetch : Str → ℕ → Outcome Str ℕ
fetch url zero = ok 200
fetch url (suc i) = err (codes "timeout")

abbrev pub send : Str → Option (ℕ → Outcome Str ℕ)
send url = some (fetch url)

two_calls : calls_of query ≡ 2
unfolding clamp_query_int atoi Str-discrete
two_calls = refl

backwards-AllRun : AllRun (calls_of query) (1 ∷ 0 ∷ [])
backwards-AllRun zero h = (1, refl)
backwards-AllRun (suc zero) h = (0, refl)
backwards-AllRun (suc (suc i)) h = absurd (omega (arith, h, two_calls))

forwards-AllRun : AllRun (calls_of query) (0 ∷ 1 ∷ [])
forwards-AllRun zero h = (0, refl)
forwards-AllRun (suc zero) h = (1, refl)
forwards-AllRun (suc (suc i)) h = absurd (omega (arith, h, two_calls))

worker_named : cfg.worker_url ≢ []
worker_named e = ground (arith, e)

handle_chain_lem_example :
    (1 ≤ calls_of query)
    × (calls_of query ≤ 8)
    × (((send (url_of cfg query) ≡ none) × (handle_chain send (1 ∷ 0 ∷ []) cfg query ≡ none))
        ⊎ ((f : ℕ → Outcome Str ℕ) × (resp : Response) × (send (url_of cfg query) ≡ some f)
            × (handle_chain send (1 ∷ 0 ∷ []) cfg query ≡ some resp)
            × (((resp.status ≡ 200) × ((i : ℕ) → i < calls_of query → f i ≡ ok 200))
                ⊎ ((resp.status ≡ 502) × (i : ℕ) × (i < calls_of query) × (f i ≢ ok 200)))))
handle_chain_lem_example =
    handle_chain_lem send (1 ∷ 0 ∷ []) cfg query worker_named backwards-AllRun

handle_chain-order_example :
    handle_chain send (1 ∷ 0 ∷ []) cfg query ≡ handle_chain send (0 ∷ 1 ∷ []) cfg query
handle_chain-order_example =
    handle_chain-order send (1 ∷ 0 ∷ []) (0 ∷ 1 ∷ []) cfg query backwards-AllRun forwards-AllRun

delay_unset : getenv (codes "SHUTDOWN_DELAY") ≡ []
unfolding Str-discrete
delay_unset = refl
