-- ===== src/Http/Coming.antt =====
-- Steps that bring a request in the cache nearer to its answer.
use mathlib.Core.List.Perm
use eksp.Base.{
  ℕ, Str, Bool, false, none, some, get_elem?, set, get_elem?-set_self, ℤ, pos, ◌≤ℤ◌, Float, Outcome,
  ◌≡◌, refl, All-get_elem?,
}
use eksp.Cache.{new_cache}
use eksp.Cache.Invariant.{made}
use eksp.Cache.System.{waiting, closing, returned, System}
use eksp.Fetch.{Failure}
use eksp.Service.{Value}
use eksp.Process.{Process, turn, Reach, here, next}
use eksp.Process.Times.{Reach-trans}
use eksp.Http.Server.{HttpRequest, Reply, Env, Server}
use eksp.Http.Live.{
  Wanted, key_of, Route, Job, caching, answered, Live, work, reply_cached, live_program, Work, wake,
  close,
}
use eksp.Http.Runs.{IsAsked}
use eksp.Http.Traffic.{JobOk, Asked-IsAsked}
use eksp.Http.Origin.{Reached, all_sound, never_misread}
use eksp.Http.Stands.{update_self}

module _ {F : Type 0} ⦃fl : Float F⦄ (env : ℕ → Env F) (quote : Str → Str) where
  -- The connection can be answered.
  abbrev pub Answerable : Process (Live F) (Job F) → ℕ → Route → HttpRequest → Type 0
  Answerable s i route r =
      (u : Process (Live F) (Job F)) × (reply : Reply F) × Reach (live_program env quote) s u
      × (get_elem? u.connections i ≡ some (answered route r reply))

  -- The process after a step of connection `j` in the cache.
  abbrev pub worked :
      Process (Live F) (Job F) → ℕ → Job F → System Failure (Value F) → Process (Live F) (Job F)
  worked s j job system = record s {
    app = record s.app { system = system };
    connections = set s.connections j job;
  }

  pub before_steps :
      {s t : Process (Live F) (Job F)} (i : ℕ) (route : Route) (r : HttpRequest)
      → Reach (live_program env quote) s t
      → Answerable t i route r
      → Answerable s i route r
  before_steps i route r steps (u, reply, after, there) =
      (u, reply, Reach-trans (live_program env quote) steps after, there)

  module _ (ttl : ℤ) (positive : pos 1 ≤ℤ ttl) (made_server : Server F)
      (cold : made_server.service.cache ≡ new_cache ttl) (t : ℕ) where
    -- A process that runs, and whose connection `i` is in the cache.
    abbrev pub Caching : Process (Live F) (Job F) → ℕ → Route → HttpRequest → Wanted → Type 0
    Caching s i route r w =
        Reached env quote t made_server s
        × (s.exited ≡ none)
        × (get_elem? s.connections i ≡ some (caching route r w))

    pub Caching-IsAsked :
        (s : Process (Live F) (Job F)) (i : ℕ) (route : Route) (r : HttpRequest) (w : Wanted)
        → Caching s i route r w
        → IsAsked env quote made_server.service.allowed_tags w
    Caching-IsAsked s i route r w (reached, on, at) =
        let tags = made_server.service.allowed_tags in
        Asked-IsAsked env quote tags route r w (
          All-get_elem? (JobOk env quote tags) s.connections i
            (all_sound env quote ttl positive made_server cold t reached).1 at)

    pub worked-Reach :
        (s : Process (Live F) (Job F)) (i : ℕ) (route : Route) (r : HttpRequest) (w : Wanted)
        (system : System Failure (Value F))
        → Caching s i route r w
        → Work env i w s.app.system system
        → Reach (live_program env quote) s (worked s i (caching route r w) system)
    worked-Reach s i route r w system (reached, on, at) st =
        next here
          (turn i (caching route r w) (caching route r w) _ on at (work route r w system st))

    pub worked-Caching :
        (s : Process (Live F) (Job F)) (i : ℕ) (route : Route) (r : HttpRequest) (w : Wanted)
        (system : System Failure (Value F))
        → Caching s i route r w
        → Work env i w s.app.system system
        → Caching (worked s i (caching route r w) system) i route r w
    worked-Caching s i route r w system (reached, on, at) st = (
      Reach-trans (live_program env quote) reached
          (worked-Reach s i route r w system (reached, on, at) st),
      on,
      get_elem?-set_self s.connections i (caching route r w) at,
    )

    pub returned-Answerable :
        (s : Process (Live F) (Job F)) (i : ℕ) (route : Route) (r : HttpRequest) (w : Wanted)
        (o : Outcome Failure (Value F)) (cached : Bool)
        → Caching s i route r w
        → s.app.system.pc i ≡ returned (key_of w) o cached
        → Answerable s i route r
    returned-Answerable s i route r w o cached (reached, on, at) e =
        let (reply, reads) =
          never_misread env quote ttl positive made_server cold t reached i route r w o cached at
            e in
        (
          _,
          reply,
          next here (
              turn i (caching route r w) (answered route r reply) _ on at
                (reply_cached route r w o cached reply e reads)),
          get_elem?-set_self s.connections i (answered route r reply) at,
        )

    pub closing-Answerable :
        (s : Process (Live F) (Job F)) (i : ℕ) (route : Route) (r : HttpRequest) (w : Wanted)
        (id : ℕ) (o : Outcome Failure (Value F))
        → Caching s i route r w
        → s.app.system.pc i ≡ closing (key_of w) id o
        → Answerable s i route r
    closing-Answerable s i route r w id o c e =
        let st = close id o (λ n m. m) (λ n m. Perm.refl m) e in
        before_steps i route r (worked-Reach s i route r w _ c st) (
          returned-Answerable _ i route r w o false (worked-Caching s i route r w _ c st)
            (update_self s.app.system.pc i _))

    -- A wait for a call that has ended is over.
    pub ended-Answerable :
        (s : Process (Live F) (Job F)) (i : ℕ) (route : Route) (r : HttpRequest) (w : Wanted)
        (id : ℕ) (o : Outcome Failure (Value F))
        → Caching s i route r w
        → s.app.system.pc i ≡ waiting (key_of w) id
        → get_elem? s.app.system.cache.calls id ≡ some (made (key_of w) (some o))
        → Answerable s i route r
    ended-Answerable s i route r w id o c e ended =
        let st = wake id (made (key_of w) (some o)) o e ended refl in
        before_steps i route r (worked-Reach s i route r w _ c st) (
          returned-Answerable _ i route r w o false (worked-Caching s i route r w _ c st)
            (update_self s.app.system.pc i _))
