-- ===== src/Sample/Scenario.antt =====
-- The workload on its way: a request for / is served, then a signal comes and the process ends.
use eksp.Base.{
  ℕ, ◌+◌, ◌*◌, ◌+ℤ◌, ◌-ℤ◌, ◌≤◌, Str, codes, Str-discrete, [], ◌∷◌, true, false, inl, pos_part, none,
  some, pos, decimal, ◌≡◌, ◌≢◌, ◌⊎◌, refl, arith, All,
}
use eksp.Sample.Server.{App, root, Route, routes, begin_drain, Run}
use eksp.Http.Server.{HttpRequest}
use eksp.Process.{
  Process, accepting, closed, stopping, tick, listen, listener_closed, accept, turn, signal,
  shut_down, drained, Reach, here, next, launched,
}
use eksp.Sample.Main.{
  Connection, opened, handling, answered, counted, served, Env, respond, enter, count, release,
  request, answer, leave, finish, IsClosed, program, Reached, start, new_app,
}
use eksp.Sample.Gauge.{Counts, Reached-Counts}
use eksp.Sample.Labels.{IsLabels, Reached-IsLabels}
use eksp.Sample.Life.{drain_lem}
use eksp.Sample.Alone.{Leaves, alone_lem}
use eksp.Sample.{write_json, seconds, handle_root, plain, Response}
use eksp.Sample.Tests.{cfg, query, clock, digest_of, send}

abbrev env : Env
env = record {
  hostname = codes "pod";
  sha256 = digest_of;
  hex4 = digest_of;
  clock = clock;
  fuel = 6;
  send = send;
  order = [];
  exposition = plain 200 [];
}

abbrev get_root : HttpRequest
get_root = record { method = codes "GET"; path = codes "/"; query = query }

abbrev root_route : Route
root_route = record { pattern = codes "GET /"; handler = root; label = some (codes "/") }

abbrev at_start : Process App Connection
at_start = launched (program cfg) 0 (record { ready = true; requests = []; inflight = pos 0 })

abbrev connected : Process App Connection
connected = record at_start { listener = accepting; connections = opened ∷ [] }

abbrev counted_once : Process App Connection
counted_once = record connected {
  app = record {
    ready = true;
    requests = (codes "/", codes "GET", codes "200") ∷ [];
    inflight = pos 1;
  };
  connections = counted root_route ∷ [];
}

connected-Reached : Reached cfg 0 connected
unfolding start new_app
connected-Reached = next (next here (listen refl refl (inl refl))) (accept refl refl)

counted_once-Reached : Reached cfg 0 counted_once
unfolding start new_app routes enter count respond handle_root write_json ◌+ℤ◌ decimal Str-discrete
counted_once-Reached =
    next
      (next
        (next connected-Reached (
          turn 0 opened (handling root_route get_root) _ refl refl
            (request 0 root_route get_root refl (inl refl))))
        (turn 0 (handling root_route get_root) (answered root_route get_root 200) _ refl refl
          (answer env root_route get_root _ refl)))
      (turn 0 (answered root_route get_root 200) (counted root_route) _ refl refl
        (leave root_route get_root 200))

Reached-Counts_example : Counts counted_once
Reached-Counts_example = Reached-Counts cfg 0 counted_once-Reached

Reached-IsLabels_example : All (IsLabels cfg) counted_once.app.requests
Reached-IsLabels_example = Reached-IsLabels cfg 0 counted_once-Reached

abbrev stopped : Process App Connection
stopped = record counted_once {
  now = 15 * 1000000000;
  app = record {
    ready = false;
    requests = (codes "/", codes "GET", codes "200") ∷ [];
    inflight = pos 0;
  };
  connections = served root_route ∷ [];
  listener = closed;
  main = stopping (15 * 1000000000);
  exited = some 0;
}

stopping-Reach : Reach (program cfg) counted_once stopped
unfolding release begin_drain ◌-ℤ◌
stopping-Reach =
    next
      (next
        (next
          (next
            (next
              (next here
                (turn 0 (counted root_route) (served root_route) _ refl refl (finish root_route)))
              (signal refl refl))
            (tick (15 * 1000000000) refl))
          (shut_down 0 refl refl (omega arith)))
        (listener_closed (15 * 1000000000) refl refl))
      (drained (15 * 1000000000) refl refl (λ e. ground (arith, e)) (tt, tt))

drain_lem_example :
    (stopped.listener ≡ closed → counted_once.now + pos_part cfg.shutdown_delay ≤ stopped.now)
    × (stopped.exited ≡ some 0
        → (counted_once.now + pos_part cfg.shutdown_delay ≤ stopped.now)
          × (((stopped.listener ≢ accepting)
                × All IsClosed stopped.connections
                × (stopped.app.inflight ≡ pos 0))
              ⊎ (counted_once.now + pos_part cfg.shutdown_delay + pos_part (seconds 25)
                  ≤ stopped.now)))
drain_lem_example = drain_lem cfg 0 counted_once-Reached refl stopping-Reach

abbrev root_run : Run
root_run = record { codes_written = 200 ∷ []; panic = none }

root_answers : (resp : Response) × (respond env cfg connected.app root get_root ≡ some resp)
unfolding respond handle_root write_json Str-discrete
root_answers = (_, refl)

-- What request 0 leaves behind.
abbrev AtRoot : ℕ → (App → Run × App) → Type 0
unfolding routes
AtRoot = Leaves cfg connected refl 0 refl 0 root_route (codes "/") get_root refl refl (inl refl)

alone_lem_example :
    ((e : Env) (resp : Response)
      → respond e cfg (enter root_route connected.app) root_route.handler get_root ≡ some resp
      → AtRoot resp.status (λ a. (record { codes_written = resp.status ∷ []; panic = none }, a)))
    × ((message : Str) → AtRoot 500 (λ a. (record { codes_written = []; panic = some message }, a)))
unfolding routes
alone_lem_example =
    alone_lem cfg connected refl 0 refl 0 root_route (codes "/") get_root refl refl (inl refl)
