-- ===== src/Sample/Life.antt =====
-- The workload from its start to its end: readiness, the listener and the exit.
use mathlib.Core.Path.{subst}
use eksp.Base.{
  ℕ, ◌+◌, ◌≤◌, true, some, pos, pos_part, ◌≡◌, ◌≢◌, ◌⊎◌, inl, inr, refl, sym, All, arith,
  Option-cases, ◌↔◌,
}
use eksp.Http.Server.{HttpRequest}
use eksp.Process.{
  Process, accepting, closed, waiting, Step, tick, listen, listener_closed, listener_failed, crash,
  accept, turn, signal, shut_down, drained, forced, Reach, here, next,
}
use eksp.Process.Times.{closed-late, ended-Drained, Reach-trans}
use eksp.Sample.{Config, seconds}
use eksp.Sample.Server.{Route, App, begin_drain}
use eksp.Sample.Main.{
  Connection, enter, count, release, Turn, hang_up, request, answer, leave, panic, panic_late,
  finish, IsClosed, program, Reached, start, new_app,
}
use eksp.Sample.Gauge.{gauge-closed}

enter-ready : (route : Route) (a : App) → (enter route a).ready ≡ a.ready
unfolding enter
enter-ready route a = elim (Option-cases route.label) [ inl e ↦ rw e | inr (l, e) ↦ rw e ]

count-ready :
    (route : Route) (r : HttpRequest) (code : ℕ) (a : App) → (count route r code a).ready ≡ a.ready
unfolding count
count-ready route r code a = elim (Option-cases route.label) [ inl e ↦ rw e | inr (l, e) ↦ rw e ]

release-ready : (route : Route) (a : App) → (release route a).ready ≡ a.ready
unfolding release
release-ready route a = elim (Option-cases route.label) [ inl e ↦ rw e | inr (l, e) ↦ rw e ]

Turn-ready : {cfg : Config} {a b : App} {c c' : Connection} → Turn cfg a c b c' → b.ready ≡ a.ready
Turn-ready hang_up = refl
Turn-ready {a = a} (request n route r at get) = enter-ready route a
Turn-ready (answer env route r resp e) = refl
Turn-ready {a = a} (leave route r code) = count-ready route r code a
Turn-ready {a = a} (panic route r) = count-ready route r 500 a
Turn-ready {a = a} (panic_late route r code) = count-ready route r 500 a
Turn-ready {a = a} (finish route) = release-ready route a

-- Readiness is given exactly while no signal has come.
abbrev pub ReadyMeansWaiting : Process App Connection → Type 0
ReadyMeansWaiting s = (s.app.ready ≡ true) ↔ (s.main ≡ waiting)

Step-ReadyMeansWaiting :
    {cfg : Config} {s u : Process App Connection}
    → Step (program cfg) s u
    → ReadyMeansWaiting s
    → ReadyMeansWaiting u
unfolding begin_drain
Step-ReadyMeansWaiting (tick d on) h = h
Step-ReadyMeansWaiting (listen on e _) h = h
Step-ReadyMeansWaiting (listener_closed t on e) h = h
Step-ReadyMeansWaiting (listener_failed on _) h = h
Step-ReadyMeansWaiting (crash i c on at dies) h = h
Step-ReadyMeansWaiting (accept on e) h = h
Step-ReadyMeansWaiting {s = s} (turn i c c' a on at t) h =
    subst (λ r. (r ≡ true) ↔ (s.main ≡ waiting)) (sym (Turn-ready t)) h
Step-ReadyMeansWaiting (signal on e) h = (λ e'. ground (arith, e'), λ e'. ground (arith, e'))
Step-ReadyMeansWaiting (shut_down t on e late) (h, h') =
    (λ e'. let w = h e' in ground (arith, w, e), λ e'. ground (arith, e'))
Step-ReadyMeansWaiting (drained t on e shut done) h = h
Step-ReadyMeansWaiting (forced t on e late) h = h

Reach-ReadyMeansWaiting :
    {cfg : Config} {s u : Process App Connection}
    → Reach (program cfg) s u
    → ReadyMeansWaiting s
    → ReadyMeansWaiting u
Reach-ReadyMeansWaiting here h = h
Reach-ReadyMeansWaiting (next r st) h = Step-ReadyMeansWaiting st (Reach-ReadyMeansWaiting r h)

pub ready_lem :
    (cfg : Config) (t : ℕ) {s : Process App Connection} → Reached cfg t s → ReadyMeansWaiting s
unfolding start new_app
ready_lem cfg t r = Reach-ReadyMeansWaiting r (λ _. refl, λ _. refl)

-- From any moment at which the workload is ready, in whatever order things happen: its listener
-- closes, and it exits with 0, no sooner than the configured delay later; and when it exits with 0,
-- every connection is closed, no request is counted as being served, and the listener takes no more
-- connections, or 25 seconds have passed since the delay.
pub drain_lem :
    (cfg : Config) (t : ℕ) {s u : Process App Connection}
    → Reached cfg t s
    → s.app.ready ≡ true
    → Reach (program cfg) s u
    → (u.listener ≡ closed → s.now + pos_part cfg.shutdown_delay ≤ u.now)
      × (u.exited ≡ some 0
          → (s.now + pos_part cfg.shutdown_delay ≤ u.now)
            × (((u.listener ≢ accepting) × All IsClosed u.connections × (u.app.inflight ≡ pos 0))
                ⊎ (s.now + pos_part cfg.shutdown_delay + pos_part (seconds 25) ≤ u.now)))
drain_lem cfg t {s} {u} before ready after =
    let quiet : s.main ≡ waiting = (ready_lem cfg t before).0 ready in
    (
      closed-late (program cfg) before quiet after,
      λ e.
          let (late, end) = ended-Drained (program cfg) before quiet after e in
          (
            late,
            elim end [
              | inl (shut, done) ↦
                  inl (shut, done, gauge-closed cfg t (Reach-trans (program cfg) before after) done)
              | inr later ↦ inr later
            ],
          ),
    )
