-- ===== src/Sample/Alone.antt =====
-- A request that is served while nothing else happens.
use mathlib.Core.Path.{subst}
use eksp.Base.{
  ℕ, Str, [], ◌∷◌, none, some, get_elem?, set, get_elem?-set_self, set-set, decimal, ◌≡◌, refl, sym,
}
use eksp.Http.Server.{HttpRequest}
use eksp.Process.{Process, turn, Reach, here, next}
use eksp.Sample.{Config, Response}
use eksp.Sample.Server.{Route, routes, App, Run, note_codes, all_codes, instrument}
use eksp.Sample.Drain.{there_and_back}
use eksp.Sample.Main.{
  Connection, opened, handling, answered, counted, served, Env, respond, enter, count, release,
  Turn, request, answer, leave, panic, finish, IsGet, program,
}

module _ (cfg : Config) (s : Process App Connection) (on : s.exited ≡ none) (i : ℕ)
    (free : get_elem? s.connections i ≡ some opened) where
  -- The process after steps of connection `i` alone.
  abbrev pub moved : App → Connection → Process App Connection
  moved a c = record s { app = a; connections = set s.connections i c }

  first : (a : App) (c : Connection) → Turn cfg s.app opened a c → Reach (program cfg) s (moved a c)
  first a c t = next here (turn i opened c a on free t)

  extend :
      (a b : App) (c c' : Connection)
      → Turn cfg a c b c'
      → Reach (program cfg) s (moved a c)
      → Reach (program cfg) s (moved b c')
  extend a b c c' t r =
      subst (λ cs. Reach (program cfg) s (record s { app = b; connections = cs }))
        (set-set s.connections i c c')
        (next r (turn i c c' b on (get_elem?-set_self s.connections i c free) t))

  module _ (n : ℕ) (route : Route) (l : Str) (r : HttpRequest)
      (at : get_elem? (routes cfg) n ≡ some route) (wraps : route.label ≡ some l)
      (get : IsGet r.method) where
    begun : Reach (program cfg) s (moved (enter route s.app) (handling route r))
    begun = first (enter route s.app) (handling route r) (request n route r at get)

    ended :
        (code : ℕ)
        → Reach (program cfg) s (moved (count route r code (enter route s.app)) (counted route))
        → Reach
            (program cfg)
            s
            (moved (release route (count route r code (enter route s.app))) (served route))
    ended code =
        extend (count route r code (enter route s.app)) _ (counted route) (served route)
          (finish route)

    as_instrument :
        (code : ℕ) (run : Run)
        → note_codes 200 (all_codes run) ≡ code
        → release route (count route r code (enter route s.app))
          ≡ instrument l r.method (λ a. (run, a)) s.app
    unfolding instrument enter count release
    as_instrument code run e = rw (wraps, e) refl

    -- What a wrapped request leaves: one more on the counter, under its label, its method and this code.
    abbrev pub Leaves : ℕ → (App → Run × App) → Type 0
    Leaves code handler =
        (a : App) × Reach (program cfg) s (moved a (served route))
        × (a.ready ≡ s.app.ready)
        × (a.inflight ≡ s.app.inflight)
        × (a.requests ≡ (l, r.method, decimal code) ∷ s.app.requests)
        × (instrument l r.method handler s.app ≡ a)

    leaves :
        (code : ℕ) (run : Run)
        → note_codes 200 (all_codes run) ≡ code
        → Reach (program cfg) s (moved (count route r code (enter route s.app)) (counted route))
        → Leaves code (λ a. (run, a))
    unfolding enter count release
    leaves code run e steps = (
      release route (count route r code (enter route s.app)),
      ended code steps,
      rw wraps refl,
      rw wraps (there_and_back s.app.inflight),
      rw wraps refl,
      sym (as_instrument code run e),
    )

    -- If nothing else happens while a wrapped request is served, with the code that the handler writes, or
    -- with a panic before it writes one: the gauge and the readiness are afterwards as they were, and the
    -- counter has been raised once, under the label of the route, the method, and that code, or 500 for a
    -- panic. `instrument` leaves the same state.
    pub alone_lem :
        ((env : Env) (resp : Response)
          → respond env cfg (enter route s.app) route.handler r ≡ some resp
          → Leaves resp.status
              (λ a. (record { codes_written = resp.status ∷ []; panic = none }, a)))
        × ((message : Str)
            → Leaves 500 (λ a. (record { codes_written = []; panic = some message }, a)))
    unfolding note_codes all_codes
    alone_lem = (
      λ env resp e.
          leaves resp.status (record { codes_written = resp.status ∷ []; panic = none }) refl
            (extend (enter route s.app) _ (answered route r resp.status) (counted route)
              (leave route r resp.status)
              (extend (enter route s.app) _ (handling route r) _ (answer env route r resp e)
                begun)),
      λ message.
          leaves 500 (record { codes_written = []; panic = some message }) refl
            (extend (enter route s.app) _ (handling route r) (counted route) (panic route r) begun),
    )
