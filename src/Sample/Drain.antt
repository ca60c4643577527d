-- ===== src/Sample/Drain.antt =====
-- The shutdown and the metrics: what a pod answers while it drains, how long that takes, and what
-- `instrument` counts.
use mathlib.Core.Logic.{if_pos}
use mathlib.Core.Option
use eksp.Base.{
  ℕ, Str, codes, Str-discrete, List, [], ◌∷◌, ◌++◌, Option, none, some, ℤ, pos, decimal, drop, ◌+ℤ◌,
  ◌-ℤ◌, negsuc, ◌≡◌, inl, inr, refl, ap, arith, All, Option-cases,
}
use eksp.Sample.Server.{
  App, handle_readyz, Run, note_codes, all_codes, instrument, Event, logged, readiness_failed,
  slept, server_shut_down, Moment, shutdown,
}
use eksp.Sample.{config_from_env, delay_from_env, Config, seconds}

-- From the second event of `shutdown` to its end, readiness is answered with 503, and liveness with
-- 200 as before; nothing else about the counters changes.
shutdown-draining :
    (cfg : Config) (stop : Option Str) (a : App)
    → All
        (λ m.
          ((handle_readyz m.app).status ≡ 503)
          × (m.app.requests ≡ a.requests)
          × (m.app.inflight ≡ a.inflight))
        (drop 1 (shutdown cfg stop a))
unfolding shutdown handle_readyz
shutdown-draining cfg none a =
    ((refl, refl, refl), ((refl, refl, refl), ((refl, refl, refl), ((refl, refl, refl), tt))))
shutdown-draining cfg (some e) a = (
  (refl, refl, refl),
  ((refl, refl, refl), ((refl, refl, refl), ((refl, refl, refl), ((refl, refl, refl), tt)))),
)

-- The time that an event takes at most.
abbrev pub limit_of : Event → ℤ
limit_of (logged s) = pos 0
limit_of readiness_failed = pos 0
limit_of (slept d) = d
limit_of (server_shut_down d) = d

abbrev pub time_limit : List Moment → ℤ
time_limit [] = pos 0
time_limit (m ∷ ms) = limit_of m.event +ℤ time_limit ms

default_delay :
    (getenv : Str → Str) (parse_duration : Str → Option ℤ)
    → getenv (codes "SHUTDOWN_DELAY") ≡ []
    → delay_from_env getenv parse_duration ≡ seconds 15
unfolding delay_from_env
default_delay getenv parse_duration unset =
    if_pos (Str-discrete (getenv (codes "SHUTDOWN_DELAY")) []) unset (seconds 15)
      (Option.get_or (parse_duration (getenv (codes "SHUTDOWN_DELAY"))) (seconds 15))

-- Where no delay is configured, the delay and the limit of the server's shutdown add up to 40 s,
-- however the server's shutdown ends.
shutdown-in_time :
    (getenv : Str → Str) (parse_duration : Str → Option ℤ) (stop : Option Str) (a : App)
    → getenv (codes "SHUTDOWN_DELAY") ≡ []
    → time_limit (shutdown (config_from_env getenv parse_duration) stop a) ≡ seconds 40
unfolding shutdown config_from_env delay_from_env ◌+ℤ◌
shutdown-in_time getenv parse_duration none a unset =
    rw (default_delay getenv parse_duration unset) refl
shutdown-in_time getenv parse_duration (some e) a unset =
    rw (default_delay getenv parse_duration unset) refl

pub there_and_back : (z : ℤ) → (z +ℤ pos 1) -ℤ pos 1 ≡ z
unfolding ◌+ℤ◌ ◌-ℤ◌
there_and_back (pos n) = ground arith
there_and_back (negsuc n) = ground arith

note_codes-last : (code last : ℕ) (cs : List ℕ) → note_codes code (cs ++ last ∷ []) ≡ last
unfolding note_codes
note_codes-last code last [] = refl
note_codes-last code last (c ∷ cs) = note_codes-last c last cs

code_of :
    (run : Run)
    → note_codes 200 (all_codes run)
      ≡ elim run.panic [ none ↦ note_codes 200 run.codes_written | some e ↦ 500 ]
unfolding all_codes
code_of run = elim (Option-cases run.panic) [
  | inl e ↦ rw e
  | inr (m, e) ↦ rw e (note_codes-last 200 500 run.codes_written)
]

-- A handler that leaves the metrics alone is counted once, under its route, its method and its code:
-- 500 if it panics, else the last code that it writes, 200 if it writes none. It no longer counts as
-- being served afterwards, and readiness is as it was.
instrument_lem :
    (route method : Str) (run : Run) (a : App)
    → (b : App) × (instrument route method (λ s. (run, s)) a ≡ b)
      × (b.ready ≡ a.ready)
      × (b.inflight ≡ a.inflight)
      × (b.requests
          ≡ (
            route,
            method,
            decimal (elim run.panic [ none ↦ note_codes 200 run.codes_written | some e ↦ 500 ]),
          )
            ∷ a.requests)
unfolding instrument all_codes
instrument_lem route method run a = (
  _,
  refl,
  refl,
  there_and_back a.inflight,
  ap (λ n. (route, method, decimal n) ∷ a.requests) (code_of run),
)
