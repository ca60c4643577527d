-- ===== src/Lib.antt =====
-- Verification of the Go programs of this repository: costwatch, a dashboard over AWS Cost Explorer
-- (apps/costwatch/backend), and sample-api, the workload that the platform scales (apps/sample-api).
--
-- cmd/costwatch/main.go reads the environment and makes a server of internal/api, whose handlers call the
-- service of internal/costs. For costs, service.go normalizes the query, asks the cache of cache.go under a
-- key made of the query, and on a miss fetches the pages of Cost Explorer and hands their periods to
-- aggregate.go. For the summary, summary.go compares the month with the one before, through the same
-- cache. In demo mode the client of demo.go stands in for Cost Explorer.
--
-- - Query.antt: the types of a query (types.go) and `normalize`, `clamp`, `WithAllowedTagKeys` and the key
--   of `Costs` (service.go). Query/Normalize.antt: what is accepted and refused. Query/Key.antt: keys.
-- - Explorer.antt: the periods and groups that Cost Explorer returns, as far as the code reads them.
-- - Aggregate.antt: `aggregate` (aggregate.go), a function for each loop. Aggregate/Groups.antt,
--   Cells.antt, Track.antt and Table.antt lead from the loops to a table of amounts by key and period,
--   Cap.antt and Order.antt to the series that is returned.
-- - Cache.antt: `cache` (cache.go): `do` as `begin`, `publish` and `store`, `sweepLocked` as `sweep`, and
--   `stats`. Cache/Maps.antt, Oldest.antt and Sweep.antt are about the maps and the sweep; System.antt is
--   any number of goroutines in `do` as a step relation; Invariant.antt, Steps.antt, Close.antt and
--   Begin.antt hold its invariant, Safety.antt what follows, Again.antt is about `do` called alone.
-- - Fetch.antt: `fetchCosts` and `mapCEError` (service.go), with the client as a function from requests
--   to pages. Fetch/Pages.antt: the loop over page tokens.
-- - Time.antt: Go's `time` package as far as the programs use it: dates, months, and both layouts.
--   Time/Days.antt: months and years; Time/Civil.antt: dates and day numbers; Time/Texts.antt: reading
--   what was printed.
-- - Summary.antt: `fetchSummary`, `byService` and `abs` (summary.go), `Mover` and `Summary` (types.go).
--   Summary/Calendar.antt: the windows; Totals.antt: the sums by service; Movers.antt: the top movers;
--   Whole.antt: what `fetchSummary` returns.
-- - Service.antt: `Service`, its options, `Costs` and `CacheStats` (service.go) and `Summary` (summary.go),
--   over the cache. Service/Again.antt: `Costs` called twice; Assertions.antt: the type assertions;
--   Tags.antt: the tags that it answers for.
-- - Wave.antt: the tables and the wave of the demo client (demo.go). Demo.antt: `GetCostAndUsage`,
--   `GetCostForecast` and `parseDemoTime`. Demo/Names.antt: the sorted names; Firsts.antt and Periods.antt: the
--   loops over hours, days and months; Points.antt: the keys of an answer; Range.antt: the periods that are asked
--   for; Answers.antt and Month.antt: what it answers for costs and for the summary.
-- - Http.antt: the queries and errors of internal/api/handlers.go. Http/Server.antt: internal/api/server.go
--   and the handlers on the state of the server: endpoints, metrics, static files, health.
--   Http/Statuses.antt: which requests get which status. Http/Parameters.antt and
--   Http/Demo.antt: demo mode. Http/Live.antt: the server with any number of connections that share the
--   cache, as a step relation; Runs.antt, Asks.antt, Traffic.antt and Stands.antt hold its invariants,
--   Origin.antt is about where its answers come from, Coming.antt, Progress.antt and Handled.antt about
--   whether they come.
-- - Process.antt: a process around an `http.Server`, as both `main`s make one: the goroutine that listens,
--   the signal, `Shutdown`, the exit and the connections as a step relation, over what the program adds.
--   Process/Times.antt: how long it goes on, and how it ends.
-- - Costwatch.antt: `main` (cmd/costwatch/main.go) up to the listener. Costwatch/Access.antt: the tags that
--   the environment permits. Costwatch/Life.antt: from there to the exit.
-- - Sample.antt: the configuration and the handlers of sample-api (main.go); Sample/Server.antt: its
--   routes, readiness, metrics and shutdown. Sample/Requests.antt, Chain.antt and Drain.antt are about these.
--   Sample/Main.antt: `newApp`, `main`, and the steps of a connection; Gauge.antt, Labels.antt, Life.antt
--   and Alone.antt: its metrics, its life, and a request that is served alone.
-- - Base.antt: lists, text, integers, decimal numbers, stable sorting, and a record of the operations of
--   floats with the laws of their order, for any implementation; whole amounts are the one in examples.
--
-- Strings are lists of characters, Go's `int` an integer, a time a number on one clock. Go maps are
-- association lists; where the order of `range` can matter it is a parameter. The fuel of `pad` is the
-- length to reach, that of `evict` the number of entries, of which each round deletes one. `burn` takes
-- as many rounds as the clock needs to pass the deadline, `fetch_pages` and `by_service` as many as there
-- are pages, and the loops of the demo client at most one for each second of the period and one more.
-- Times are in seconds from the start of the year 0; the cache counts nanoseconds.
--
-- The steps of a process are those between which other goroutines may run: `instrument` of sample-api up
-- to its handler, the answer, the deferred count and the deferred `Dec`; in costwatch the locked sections
-- of the cache. A connection carries one request: the next one on it counts as another connection. Of
-- `http.Server` the documented behaviour is used, and a request may still come after `Shutdown` on a
-- connection that was open before. A panic in a goroutine that a handler has started ends the process.
--
-- Not modelled: log lines and the embedded files, which are I/O; the matching of routes, the file server,
-- JSON, SHA-256, Prometheus and the HTTP client, which belong to libraries; the frontend and the
-- infrastructure, which are not Go.
pub mod Base
pub mod Query
pub mod Time
pub mod Process
pub mod Explorer
pub mod Aggregate
pub mod Cache
pub mod Fetch
pub mod Summary
pub mod Service
pub mod Wave
pub mod Demo
pub mod Costwatch
pub mod Http
pub mod Sample
