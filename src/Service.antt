-- ===== src/Service.antt =====
-- The service of apps/costwatch/backend/internal/costs: `Service`, its options, `Costs` and
-- `CacheStats` of service.go, and `Summary` of summary.go. They join the queries, the cache and what
-- is fetched. The cache holds values of type `any`: a series or a summary. A run of `fn` that does not
-- return, for it panics or goes on for ever, is `none`. The cache counts nanoseconds, as
-- `time.Duration` does; the clock that `WithNow` sets gives `Readings.now`.
pub mod Again
pub mod Assertions
pub mod Tags
mod Tests
use mathlib.Core.Option
use mathlib.Core.Logic.{ite}
use eksp.Base.{
  ℕ, ◌*◌, Str, Str-discrete, trim_space, codes, List, [], foldl, Bool, true, false, Option, none,
  some, get_elem?, ℤ, pos, Float, Outcome, ok, err,
}
use eksp.Query.{Query, allow_tags, normalize, cache_key}
use eksp.Explorer.{MetricValue}
use eksp.Aggregate.{Series}
use eksp.Time.{Time, hour}
use eksp.Cache.{
  Entry, Call, Cache, CacheStats, Decision, uncached, hit, join, lead, new_cache, begin, publish,
  store, stats,
}
use eksp.Fetch.{Failure, Request, Page, fetch_costs}
use eksp.Summary.{Summary, ForecastRequest, fetch_summary, add_seen}

-- What the cache holds as `any`.
pub data Value (F : Type 0) : Type 0 where
  of_series : Series F → Value F
  of_summary : Summary F → Value F

pub record Service (F : Type 0) : Type 0 where
  pub cache : Cache Failure (Value F)
  pub allowed_tags : List Str

-- What the clocks show in one call: at the two locks of the cache, to the windows, and for `FetchedAt`.
pub record Readings : Type 0 where
  pub locked : ℕ
  pub stored : ℕ
  pub now : Time
  pub stamp : Time

abbrev pub second : ℕ
second = 1000000000

module _ {F : Type 0} where
  -- `WithTTL`
  unfoldable pub with_ttl : ℤ → Service F → Service F
  with_ttl d s = record s { cache = new_cache d }

  -- `WithAllowedTagKeys`
  unfoldable pub with_allowed_tag_keys : List Str → Service F → Service F
  with_allowed_tag_keys keys s = record s { allowed_tags = allow_tags keys }

  unfoldable pub new_service : List (Service F → Service F) → Service F
  unfolding new_cache
  new_service opts =
      foldl (λ (s : Service F) (opt : Service F → Service F). opt s)
        (record { cache = new_cache (pos (6 * hour * second)); allowed_tags = [] }) opts

  unfoldable pub cache_stats : Service F → CacheStats
  unfolding stats
  cache_stats s = stats s.cache

  -- `val.(Series)` and `series.Cached = cached`; `none` where the assertion panics.
  unfoldable pub read_series :
      Outcome Failure (Value F) × Bool → Option (Outcome Failure (Series F))
  read_series (err e, cached) = some (err e)
  read_series (ok (of_series v), cached) = some (ok (record v { cached = cached }))
  read_series (ok (of_summary v), cached) = none

  -- `val.(Summary)` and `sum.Cached = cached`
  unfoldable pub read_summary :
      Outcome Failure (Value F) × Bool → Option (Outcome Failure (Summary F))
  read_summary (err e, cached) = some (err e)
  read_summary (ok (of_series v), cached) = none
  read_summary (ok (of_summary v), cached) = some (ok (record v { cached = cached }))

  abbrev pub boxed : {A : Type 0} → (A → Value F) → Outcome Failure A → Outcome Failure (Value F)
  boxed box (err e) = err e
  boxed box (ok v) = ok (box v)

abbrev pub summary_key : Str
summary_key = codes "summary"

module _ {E V : Type 0} (order : ℕ → List (Str × Entry V) → List (Str × Entry V)) where
  -- What follows the first lock, with the cache as the lock leaves it.
  unfoldable pub conclude :
      ℕ
      → Str
      → Option (Outcome E V)
      → Cache E V
      → Decision V
      → Option (Outcome E V × Bool) × Cache E V
  conclude later key fn c uncached = (Option.map (λ r. (r, false)) fn, c)
  conclude later key fn c (hit v) = (some (ok v, true), c)
  conclude later key fn c (join id) = (
    Option.bind (Option.map (λ (call : Call E V). call.result) (get_elem? c.calls id))
        (λ o. Option.map (λ r. (r, false)) o),
    c,
  )
  conclude later key none c (lead id) = (none, c)
  conclude later key (some r) c (lead id) =
      (some (r, false), store order later key r (publish id key r c))

  -- The whole of `do` where nothing else runs and `fn` may not return. A call that it leads is then
  -- in flight for good.
  unfoldable pub do_call :
      ℕ → ℕ → Str → Option (Outcome E V) → Cache E V → Option (Outcome E V × Bool) × Cache E V
  unfolding conclude
  do_call now later key fn c = conclude later key fn (begin now key c).1 (begin now key c).0

module _ {F : Type 0} ⦃fl : Float F⦄ (quote : Str → Str)
    (order : ℕ → List (Str × Entry (Value F)) → List (Str × Entry (Value F)))
    (client : Request → Outcome Failure Page) where
  -- `Service.Costs`; the pages are read in as many rounds as given.
  unfoldable pub costs :
      ℕ → Readings → Query → Service F → Option (Outcome Failure (Series F)) × Service F
  unfolding normalize cache_key do_call fetch_costs read_series
  costs fuel t q s = elim (normalize quote s.allowed_tags q) [
    | err message ↦ (some (err (record { message = message; is_hourly_not_enabled = false })), s)
    | ok q' ↦
        let r =
          do_call order t.locked t.stored (cache_key q')
            (Option.map (boxed of_series) (fetch_costs client fuel t.now t.stamp q')) s.cache in
        (Option.bind r.0 read_series, record s { cache = r.1 })
  ]

module _ {F : Type 0} ⦃fl : Float F⦄
    (order : ℕ → List (Str × Entry (Value F)) → List (Str × Entry (Value F)))
    (client : Request → Outcome Failure Page) where
  -- `Service.Summary`
  unfoldable pub summary :
      (ForecastRequest → Outcome Failure (Option MetricValue))
      → (ℕ → List (Str × F) → List (Str × F))
      → (List Str → List Str)
      → ℕ
      → Readings
      → Service F
      → Option (Outcome Failure (Summary F)) × Service F
  unfolding do_call fetch_summary read_summary
  summary forecast visit_totals visit_services fuel t s =
      let r =
        do_call order t.locked t.stored summary_key
          (Option.map (boxed of_summary)
            (fetch_summary client forecast visit_totals visit_services fuel t.now))
          s.cache in
      (Option.bind r.0 read_summary, record s { cache = r.1 })
