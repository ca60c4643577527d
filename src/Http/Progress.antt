-- ===== src/Http/Progress.antt =====
-- That no request gets stuck in the cache.
use mathlib.Core.Path.{subst}
use eksp.Base.{
  ℕ, Str, none, some, Option, get_elem?, get_elem?-set_self, get_elem?-set_ne, ℤ, pos, ◌≤ℤ◌, Float,
  Outcome, ◌≡◌, ◌≢◌, inl, inr, refl, sym, ap, ◌∙◌, arith,
}
use eksp.Cache.{new_cache, publish}
use eksp.Cache.Invariant.{made, PcOk}
use eksp.Cache.Safety.{init-Inv, waiting_lem}
use eksp.Cache.Safety.{Reach-Inv as cache-Reach-Inv}
use eksp.Cache.System.{Pc, idle, direct, waiting, running, closing, returned, dead, init}
use eksp.Fetch.{Failure}
use eksp.Service.{Value}
use eksp.Process.{Process}
use eksp.Http.Server.{HttpRequest, Env, Server}
use eksp.Http.Live.{
  Wanted, key_of, Route, Job, opened, handling, caching, answered, gone, Live, Fetches, finish,
}
use eksp.Http.Runs.{IsAsked}
use eksp.Http.Origin.{Reached, all_sound}
use eksp.Http.Coming.{
  Answerable, Caching, before_steps, Caching-IsAsked, worked-Reach, worked-Caching,
  returned-Answerable, closing-Answerable, ended-Answerable,
}
use eksp.Http.Stands.{key_at, update_self, update_other, Stands, Reached-AllStand}

some-injective : {k l : Str} → some k ≡ some l → k ≡ l
some-injective e = ground (arith, e)

-- A goroutine that runs `fn` belongs to a connection that is in the cache.
who_runs :
    {F : Type 0} (job : Option (Job F)) (key : Str) (id : ℕ)
    → Stands job (running key id)
    → (route : Route) × (r : HttpRequest) × (w : Wanted) × (job ≡ some (caching route r w))
      × (key_of w ≡ key)
who_runs none key id h = absurd (ground (arith, h))
who_runs (some opened) key id h = absurd (ground (arith, h))
who_runs (some (handling route r)) key id h = absurd (ground (arith, h))
who_runs (some (caching route r w)) key id h = (route, r, w, refl, ground (arith, h))
who_runs (some (answered route r reply)) key id h = absurd (ground (arith, h))
who_runs (some gone) key id h = absurd (ground (arith, h))

module _ {F : Type 0} ⦃fl : Float F⦄ (env : ℕ → Env F) (quote : Str → Str) (ttl : ℤ)
    (positive : pos 1 ≤ℤ ttl) (made_server : Server F)
    (cold : made_server.service.cache ≡ new_cache ttl) (t : ℕ)
    (fetchable : (w : Wanted)
      → IsAsked env quote made_server.service.allowed_tags w
      → (o : Outcome Failure (Value F)) × Fetches env w o) where
  running-Answerable :
      (s : Process (Live F) (Job F)) (i : ℕ) (route : Route) (r : HttpRequest) (w : Wanted) (id : ℕ)
      → Caching env quote ttl positive made_server cold t s i route r w
      → s.app.system.pc i ≡ running (key_of w) id
      → Answerable env quote s i route r
  running-Answerable s i route r w id c e =
      let (o, fetched) =
        fetchable w (Caching-IsAsked env quote ttl positive made_server cold t s i route r w c) in
      let st = finish id o e fetched in
      before_steps env quote i route r
        (worked-Reach env quote ttl positive made_server cold t s i route r w _ c st)
        (closing-Answerable env quote ttl positive made_server cold t _ i route r w id o
          (worked-Caching env quote ttl positive made_server cold t s i route r w _ c st)
          (update_self s.app.system.pc i _))

  -- Connection `i` waits for a call that connection `j` runs.
  joined-Answerable :
      (s : Process (Live F) (Job F)) (i j : ℕ) (route other : Route) (r q : HttpRequest)
      (w v : Wanted) (id : ℕ)
      → Caching env quote ttl positive made_server cold t s i route r w
      → Caching env quote ttl positive made_server cold t s j other q v
      → key_of v ≡ key_of w
      → s.app.system.pc i ≡ waiting (key_of w) id
      → s.app.system.pc j ≡ running (key_of v) id
      → get_elem? s.app.system.cache.calls id ≡ some (made (key_of v) none)
      → Answerable env quote s i route r
  unfolding publish
  joined-Answerable s i j route other r q w v id c d same e e' at =
      let (o, fetched) =
        fetchable v (Caching-IsAsked env quote ttl positive made_server cold t s j other q v d) in
      let st = finish id o e' fetched in
      let ne : j ≢ i =
        λ is. let no = sym e ∙ ap s.app.system.pc (sym is) ∙ e' in ground (arith, no) in
      let (reached', on', _) =
        worked-Caching env quote ttl positive made_server cold t s j other q v _ d st in
      before_steps env quote i route r
        (worked-Reach env quote ttl positive made_server cold t s j other q v _ d st)
        (ended-Answerable env quote ttl positive made_server cold t _ i route r w id o
          (reached', on', get_elem?-set_ne s.connections j i (caching other q v) ne ∙ c.2)
          (update_other s.app.system.pc j i _ ne ∙ e)
          (get_elem?-set_self s.app.system.cache.calls id (made (key_of v) (some o)) at
            ∙ ap (λ k. some (made k (some o))) same))

  waiting-Answerable :
      (s : Process (Live F) (Job F)) (i : ℕ) (route : Route) (r : HttpRequest) (w : Wanted) (id : ℕ)
      → Caching env quote ttl positive made_server cold t s i route r w
      → ((j : ℕ) (key : Str) (a : ℕ) → s.app.system.pc j ≢ dead key a)
      → s.app.system.pc i ≡ waiting (key_of w) id
      → Answerable env quote s i route r
  waiting-Answerable s i route r w id c calm e =
      let used = (all_sound env quote ttl positive made_server cold t c.0).0.used in
      elim (waiting_lem ttl s.app.system i (key_of w) id positive used.0 e) [
        | inl (o, ended) ↦
            ended-Answerable env quote ttl positive made_server cold t s i route r w id o c e ended
        | inr (j, who) ↦ elim who [
          | inr panicked ↦ absurd (calm j (key_of w) id panicked)
          | inl e' ↦
              let inv = cache-Reach-Inv (init ttl) s.app.system (init-Inv ttl positive) used.0 in
              let (_, at) = subst (PcOk s.app.system.cache) e' (inv.pcs j) in
              let stands =
                subst (Stands (get_elem? s.connections j)) e'
                  (Reached-AllStand env quote t made_server c.0 j) in
              let (other, q, v, here_too, same) =
                who_runs (get_elem? s.connections j) (key_of w) id stands in
              joined-Answerable s i j route other r q w v id c (c.0, c.1, here_too) same e
                (subst (λ k. s.app.system.pc j ≡ running k id) (sym same) e')
                (subst (λ k. get_elem? s.app.system.cache.calls id ≡ some (made k none)) (sym same)
                  at)
        ]
      ]

  stands-Answerable :
      (s : Process (Live F) (Job F)) (i : ℕ) (route : Route) (r : HttpRequest) (w : Wanted)
      (p : Pc Failure (Value F))
      → Caching env quote ttl positive made_server cold t s i route r w
      → ((j : ℕ) (key : Str) (a : ℕ) → s.app.system.pc j ≢ dead key a)
      → s.app.system.pc i ≡ p
      → key_at p ≡ some (key_of w)
      → Answerable env quote s i route r
  stands-Answerable s i route r w idle c calm e h = absurd (ground (arith, h))
  stands-Answerable s i route r w (dead k id) c calm e h = absurd (ground (arith, h))
  stands-Answerable s i route r w (direct k) c calm e h =
      let used = (all_sound env quote ttl positive made_server cold t c.0).0.used in
      let inv = cache-Reach-Inv (init ttl) s.app.system (init-Inv ttl positive) used.0 in
      absurd (subst (PcOk s.app.system.cache) e (inv.pcs i))
  stands-Answerable s i route r w (waiting k id) c calm e h =
      waiting-Answerable s i route r w id c calm (e ∙ ap (λ key. waiting key id) (some-injective h))
  stands-Answerable s i route r w (running k id) c calm e h =
      running-Answerable s i route r w id c (e ∙ ap (λ key. running key id) (some-injective h))
  stands-Answerable s i route r w (closing k id o) c calm e h =
      closing-Answerable env quote ttl positive made_server cold t s i route r w id o c
        (e ∙ ap (λ key. closing key id o) (some-injective h))
  stands-Answerable s i route r w (returned k o cached) c calm e h =
      returned-Answerable env quote ttl positive made_server cold t s i route r w o cached c
        (e ∙ ap (λ key. returned key o cached) (some-injective h))

  -- From a cache that starts empty with a positive time-to-live, where every fetch can return
  -- something, be it an error: as long as the process runs and no fetch has panicked, each request
  -- that is in the cache can come to an answer, whatever the others are at.
  pub answerable_lem :
      (s : Process (Live F) (Job F)) (i : ℕ) (route : Route) (r : HttpRequest) (w : Wanted)
      → Reached env quote t made_server s
      → s.exited ≡ none
      → get_elem? s.connections i ≡ some (caching route r w)
      → ((j : ℕ) (key : Str) (a : ℕ) → s.app.system.pc j ≢ dead key a)
      → Answerable env quote s i route r
  answerable_lem s i route r w reached on at calm =
      stands-Answerable s i route r w (s.app.system.pc i) (reached, on, at) calm refl
        (subst (λ job. Stands job (s.app.system.pc i)) at
          (Reached-AllStand env quote t made_server reached i))
