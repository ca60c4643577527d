-- ===== src/Sample/Gauge.antt =====
-- The gauge and the counter of the demo workload, whatever the order in which its connections are
-- served: what they hold is what can be told from the connections.
use mathlib.Core.Path.{subst}
use eksp.Base.{
  ℕ, zero, suc, ◌+◌, ◌-◌, ◌≤◌, List, [], ◌∷◌, ◌++◌, none, some, get_elem?, set, length, pos, ◌+ℤ◌,
  ◌-ℤ◌, ◌≡◌, refl, ap, ◌∙◌, All, Option-cases, inl, inr, arith,
}
use eksp.Http.Server.{HttpRequest}
use eksp.Process.{
  Process, Step, tick, listen, listener_closed, listener_failed, crash, accept, turn, signal,
  shut_down, drained, forced, Reach, here, next,
}
use eksp.Sample.{Config}
use eksp.Sample.Server.{Route, App, begin_drain}
use eksp.Sample.Main.{
  Connection, opened, handling, answered, counted, served, hung_up, enter, count, release, Turn,
  hang_up, request, answer, leave, panic, panic_late, finish, IsClosed, program, Reached, start,
  new_app,
}

-- 1 for a route that `instrument` wraps.
abbrev pub wrapped : Route → ℕ
wrapped route = elim route.label [ none ↦ 0 | some l ↦ 1 ]

-- The wrapped requests of a connection that have begun and not ended.
abbrev pub in_flight : Connection → ℕ
in_flight (handling route r) = wrapped route
in_flight (answered route r code) = wrapped route
in_flight (counted route) = wrapped route
in_flight _ = 0

-- The wrapped requests of a connection whose handler has ended.
abbrev pub handled : Connection → ℕ
handled (counted route) = wrapped route
handled (served route) = wrapped route
handled _ = 0

module _ {A : Type 0} (f : A → ℕ) where
  abbrev pub total : List A → ℕ
  total [] = 0
  total (x ∷ xs) = f x + total xs

  total-last : (xs : List A) (a : A) → total (xs ++ a ∷ []) ≡ total xs + f a
  total-last [] a = omega arith
  total-last (x ∷ xs) a = omega (arith, total-last xs a)

  total-set :
      (xs : List A) (i : ℕ) (b : A) {a : A}
      → get_elem? xs i ≡ some a
      → total (set xs i b) + f a ≡ total xs + f b
  total-set [] i b h = absurd (ground (arith, h))
  total-set (x ∷ xs) zero b {a} h =
      let e : x ≡ a = ground (arith, h) in
      subst (λ y. f b + total xs + f y ≡ f x + total xs + f b) e (omega arith)
  total-set (x ∷ xs) (suc i) b h = omega (arith, total-set xs i b h)

  total-le : (xs : List A) (i : ℕ) {a : A} → get_elem? xs i ≡ some a → f a ≤ total xs
  total-le [] i h = absurd (ground (arith, h))
  total-le (x ∷ xs) zero {a} h =
      let e : x ≡ a = ground (arith, h) in subst (λ y. f y ≤ f x + total xs) e (omega arith)
  total-le (x ∷ xs) (suc i) h = omega (arith, total-le xs i h)

  total-none : (xs : List A) → All (λ x. f x ≡ 0) xs → total xs ≡ 0
  total-none [] h = refl
  total-none (x ∷ xs) (h, hs) = omega (arith, h, total-none xs hs)

up_lem : (n : ℕ) → pos n +ℤ pos 1 ≡ pos (n + 1)
unfolding ◌+ℤ◌
up_lem n = ground arith

down_lem : (n : ℕ) → pos (n + 1) -ℤ pos 1 ≡ pos n
unfolding ◌-ℤ◌
down_lem n = ground arith

enter-inflight :
    (route : Route) (a : App) (n : ℕ)
    → a.inflight ≡ pos n
    → (enter route a).inflight ≡ pos (n + wrapped route)
unfolding enter
enter-inflight route a n h = elim (Option-cases route.label) [
  | inl e ↦ rw e (ground (arith, h))
  | inr (l, e) ↦ rw (e, h) (up_lem n)
]

release-inflight :
    (route : Route) (a : App) (n : ℕ)
    → a.inflight ≡ pos (n + wrapped route)
    → (release route a).inflight ≡ pos n
unfolding release
release-inflight route a n h = elim (Option-cases route.label) [
  | inl e ↦ let h' : a.inflight ≡ pos (n + 0) = rw e at h in rw e (ground (arith, h'))
  | inr (l, e) ↦ let h' : a.inflight ≡ pos (n + 1) = rw e at h in rw (e, h') (down_lem n)
]

count-inflight :
    (route : Route) (r : HttpRequest) (code : ℕ) (a : App)
    → (count route r code a).inflight ≡ a.inflight
unfolding count
count-inflight route r code a = elim (Option-cases route.label) [ inl e ↦ rw e | inr (l, e) ↦ rw e ]

count-requests :
    (route : Route) (r : HttpRequest) (code : ℕ) (a : App)
    → length (count route r code a).requests ≡ length a.requests + wrapped route
unfolding count
count-requests route r code a = elim (Option-cases route.label) [
  | inl e ↦ rw e (omega arith)
  | inr (l, e) ↦ rw e (omega arith)
]

enter-requests : (route : Route) (a : App) → (enter route a).requests ≡ a.requests
unfolding enter
enter-requests route a = elim (Option-cases route.label) [ inl e ↦ rw e | inr (l, e) ↦ rw e ]

release-requests : (route : Route) (a : App) → (release route a).requests ≡ a.requests
unfolding release
release-requests route a = elim (Option-cases route.label) [ inl e ↦ rw e | inr (l, e) ↦ rw e ]

-- A step of a connection moves the gauge as it moves the requests in flight.
Turn-gauge :
    {cfg : Config} {a b : App} {c c' : Connection}
    → Turn cfg a c b c'
    → (rest : ℕ) → a.inflight ≡ pos (rest + in_flight c)
    → b.inflight ≡ pos (rest + in_flight c')
Turn-gauge hang_up rest h = h
Turn-gauge {a = a} (request n route r at get) rest h =
    enter-inflight route a rest (ground (arith, h))
Turn-gauge (answer env route r resp e) rest h = h
Turn-gauge {a = a} (leave route r code) rest h = count-inflight route r code a ∙ h
Turn-gauge {a = a} (panic route r) rest h = count-inflight route r 500 a ∙ h
Turn-gauge {a = a} (panic_late route r code) rest h = count-inflight route r 500 a ∙ h
Turn-gauge {a = a} (finish route) rest h = ground (arith, release-inflight route a rest h)

-- It counts a request when the handler has ended.
Turn-requests :
    {cfg : Config} {a b : App} {c c' : Connection}
    → Turn cfg a c b c'
    → length b.requests + handled c ≡ length a.requests + handled c'
Turn-requests hang_up = refl
Turn-requests {a = a} (request n route r at get) = rw (enter-requests route a) refl
Turn-requests (answer env route r resp e) = refl
Turn-requests {a = a} (leave route r code) = omega (arith, count-requests route r code a)
Turn-requests {a = a} (panic route r) = omega (arith, count-requests route r 500 a)
Turn-requests {a = a} (panic_late route r code) = omega (arith, count-requests route r 500 a)
Turn-requests {a = a} (finish route) = rw (release-requests route a) refl

-- The gauge shows the requests in flight, and the counter holds those whose handler has ended.
pub record Counts (s : Process App Connection) : Type 0 where
  pub gauge : s.app.inflight ≡ pos (total in_flight s.connections)
  pub counter : length s.app.requests ≡ total handled s.connections

Step-Counts :
    {cfg : Config} {s u : Process App Connection} → Step (program cfg) s u → Counts s → Counts u
unfolding begin_drain
Step-Counts (tick d on) h = record { gauge = h.gauge; counter = h.counter }
Step-Counts (listen on e _) h = record { gauge = h.gauge; counter = h.counter }
Step-Counts (listener_closed t on e) h = record { gauge = h.gauge; counter = h.counter }
Step-Counts (listener_failed on _) h = record { gauge = h.gauge; counter = h.counter }
Step-Counts (crash i c on at dies) h = record { gauge = h.gauge; counter = h.counter }
Step-Counts {s = s} (accept on e) h = record {
  gauge = ground (arith, h.gauge, total-last in_flight s.connections opened);
  counter = omega (arith, h.counter, total-last handled s.connections opened);
}
Step-Counts {s = s} (turn i c c' a on at t) h =
    let moved = total-set in_flight s.connections i c' at in
    let counted_now = total-set handled s.connections i c' at in
    let rest = total in_flight s.connections - in_flight c in
    let before : s.app.inflight ≡ pos (rest + in_flight c) =
      ground (arith, h.gauge, total-le in_flight s.connections i at) in
    record {
      gauge = ground (arith, Turn-gauge t rest before, moved);
      counter = omega (arith, Turn-requests t, counted_now, h.counter);
    }
Step-Counts (signal on e) h = record { gauge = h.gauge; counter = h.counter }
Step-Counts (shut_down t on e late) h = record { gauge = h.gauge; counter = h.counter }
Step-Counts (drained t on e shut done) h = record { gauge = h.gauge; counter = h.counter }
Step-Counts (forced t on e late) h = record { gauge = h.gauge; counter = h.counter }

Reach-Counts :
    {cfg : Config} {s u : Process App Connection} → Reach (program cfg) s u → Counts s → Counts u
Reach-Counts here h = h
Reach-Counts (next r st) h = Step-Counts st (Reach-Counts r h)

-- In whatever order the connections of the workload are served, its gauge shows how many requests
-- that `instrument` wraps are being served, and its counter has been raised once for each whose
-- handler has ended, by a panic or not.
pub Reached-Counts :
    (cfg : Config) (t : ℕ) {s : Process App Connection} → Reached cfg t s → Counts s
unfolding start new_app
Reached-Counts cfg t r = Reach-Counts r (record { gauge = refl; counter = refl })

in_flight-closed : (c : Connection) → IsClosed c → in_flight c ≡ 0
in_flight-closed opened h = refl
in_flight-closed (handling route r) h = elim h [ ]
in_flight-closed (answered route r code) h = elim h [ ]
in_flight-closed (counted route) h = elim h [ ]
in_flight-closed (served route) h = refl
in_flight-closed hung_up h = refl

All-closed : (cs : List Connection) → All IsClosed cs → All (λ c. in_flight c ≡ 0) cs
All-closed [] h = tt
All-closed (c ∷ cs) (h, hs) = (in_flight-closed c h, All-closed cs hs)

-- With all connections closed the gauge is at 0.
pub gauge-closed :
    (cfg : Config) (t : ℕ) {s : Process App Connection}
    → Reached cfg t s
    → All IsClosed s.connections
    → s.app.inflight ≡ pos 0
gauge-closed cfg t {s} r closed =
    (Reached-Counts cfg t r).gauge
    ∙ ap pos (total-none in_flight s.connections (All-closed s.connections closed))
