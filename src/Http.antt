-- ===== src/Http.antt =====
-- The HTTP handlers of costwatch, apps/costwatch/backend/internal/api/handlers.go: the query that a
-- request asks for, and the status and text of each error. JSON is not modelled: the body of an answer
-- stays a value. `query` is `r.URL.Query().Get`, which is "" for a parameter that is not set.
pub mod Statuses
pub mod Server
pub mod Parameters
pub mod Demo
pub mod Live
pub mod Runs
pub mod Asks
pub mod Traffic
pub mod Origin
pub mod Stands
pub mod Coming
pub mod Progress
pub mod Handled
mod Tests
mod Scenario
mod Summing
use mathlib.Core.Logic.{ite}
use mathlib.Core.Option
use eksp.Base.{
  ℕ, Str, codes, Str-discrete, contains, to_upper, atoi, List, [], ◌||◌, false, Option, none, some,
  if◌then◌else◌, ℤ, pos, Outcome, ok, err,
}
use eksp.Query.{Query, daily, normalize}
use eksp.Fetch.{Failure}

pub record ErrorBody : Type 0 where
  pub error : Str
  pub hint : Str

pub record Answer {ℓ} (A : Type ℓ) : Type ℓ where
  pub status : ℕ
  pub body : Outcome ErrorBody A

abbrev pub refused {ℓ} : {A : Type ℓ} → ℕ → Str → Str → Answer A
refused status error hint = record {
  status = status;
  body = err (record { error = error; hint = hint });
}

-- `writeServiceError`
unfoldable pub write_service_error {ℓ} : {A : Type ℓ} → Failure → Answer A
write_service_error e =
    if e.is_hourly_not_enabled
    then refused 409 (codes "hourly data not enabled for this account") (
        codes
          "Billing console → Cost Management preferences → enable 'Hourly and Resource Level Data' (extra AWS charge applies), or use daily granularity")
    else if contains e.message (codes "unsupported")
    then refused 400 e.message []
    else if contains e.message (codes "AccessDenied")
        || contains e.message (codes "no EC2 IMDS role")
        || contains e.message (codes "failed to retrieve credentials")
    then refused 403 (codes "cannot reach Cost Explorer with the pod's credentials") (
        codes
          "check the Pod Identity association (terraform/envs/*/main.tf) maps namespace costwatch / SA costwatch to the CE read role — or run with -demo")
    else refused 502 e.message []

abbrev pub or_default : Str → Str → Str
or_default s default = ite (Str-discrete s []) default s

-- The query of a request, or `none` if its days are no integer.
unfoldable pub query_of : (Str → Str) → Option Query
query_of query =
    let granularity = or_default (to_upper (query (codes "granularity"))) daily in
    let group_by = or_default (query (codes "groupBy")) (codes "SERVICE") in
    let q : ℤ → Query =
      λ days. record { granularity = granularity; group_by = group_by; days = days } in
    ite (Str-discrete (query (codes "days")) []) (some (q (pos 0)))
      (Option.map q (atoi (query (codes "days"))))

-- How `handleCosts` and `handleSummary` answer with what the service returns.
unfoldable pub service_answer {ℓ} : {A : Type ℓ} → Outcome Failure A → Answer A
unfolding write_service_error
service_answer (err e) = write_service_error e
service_answer (ok a) = record { status = 200; body = ok a }

abbrev pub bad_days {ℓ} : {A : Type ℓ} → Answer A
bad_days = refused 400 (codes "days must be an integer") []

-- `handleCosts`; `costs` is `Service.Costs`.
unfoldable pub handle_costs {ℓ} :
    {A : Type ℓ} → (Query → Outcome Failure A) → (Str → Str) → Answer A
unfolding query_of service_answer
handle_costs costs query = elim (query_of query) [
  | none ↦ bad_days
  | some q ↦ service_answer (costs q)
]

-- `Service.Costs` up to the cache: it normalizes, and hands the query to `fetch`.
unfoldable pub checked {ℓ} :
    {A : Type ℓ} → (Str → Str) → List Str → (Query → Outcome Failure A) → Query → Outcome Failure A
unfolding normalize
checked quote allowed_tags fetch q = elim (normalize quote allowed_tags q) [
  | err message ↦ err (record { message = message; is_hourly_not_enabled = false })
  | ok r ↦ fetch r
]
