-- ===== src/Http/Handled.antt =====
-- Whether a request for costs or for the summary is answered, from the moment its handler begins, and in
-- demo mode.
use mathlib.Core.List.{Perm}
use mathlib.Core.Path.{subst}
use native.Mathlib.Decide.{ℕ_discrete}
use eksp.Base.{
  ℕ, ◌≤◌, ◌<◌, Str, List, false, none, some, Option-cases, Outcome-cases, get_elem?,
  get_elem?-set_self, ℤ, pos, ◌≤ℤ◌, Float, Outcome, ok, err, ◌≡◌, ◌≢◌, ◌⊎◌, inl, inr, refl, sym,
  ◌∙◌, arith,
}
use eksp.Query.{normalize}
use eksp.Query.Normalize.{normalize_sound}
use eksp.Cache.{new_cache, Decision, uncached, hit, join, lead, begin}
use eksp.Cache.System.{update, dead, after_begin}
use eksp.Fetch.{Failure, Request, Page}
use eksp.Time.{Time, date_of}
use eksp.Wave.{Math}
use eksp.Demo.{get_cost_and_usage}
use eksp.Demo.Range.{year_10000}
use eksp.Demo.Answers.{fetch_costs-demo}
use eksp.Demo.Month.{fetch_summary-demo}
use eksp.Service.{Value, Readings}
use eksp.Process.{Process, turn, here, next}
use eksp.Http.{query_of, service_answer, bad_days}
use eksp.Http.Server.{
  Endpoint, get_costs, get_summary, HttpRequest, Reply, Env, Server, write_answer, json_series,
}
use eksp.Http.Live.{
  Wanted, costs_of, the_summary, key_of, Route, Job, handling, caching, answered, Live, Fetches,
  ask, replies, wants, reply_at_once, enter_cache,
}
use eksp.Http.Runs.{IsAsked}
use eksp.Http.Origin.{Reached}
use eksp.Http.Coming.{Answerable, before_steps}
use eksp.Http.Stands.{update_self, update_other, Stands, Reached-AllStand}
use eksp.Http.Progress.{answerable_lem}

module _ {F : Type 0} ⦃fl : Float F⦄ (env : ℕ → Env F) (quote : Str → Str) where
  -- The handlers for costs and for the summary reply at once or come to the cache.
  ask-cases :
      (n : ℕ) (t : Readings) (s : Live F) (endpoint : Endpoint) (r : HttpRequest)
      → (endpoint ≡ get_costs) ⊎ (endpoint ≡ get_summary)
      → ((reply : Reply F) × (ask env quote n t s endpoint r ≡ replies reply))
        ⊎ ((w : Wanted) × (ask env quote n t s endpoint r ≡ wants w))
  unfolding ask
  ask-cases n t s endpoint r (inr e) = inr (the_summary, rw e refl)
  ask-cases n t s endpoint r (inl e) = elim (Option-cases (query_of r.query)) [
    | inl unread ↦
        let at_once : ask env quote n t s endpoint r ≡ replies (write_answer json_series bad_days) =
          rw (e, ask, unread) refl in
        inl (_, at_once)
    | inr (q, read) ↦ elim (Outcome-cases (normalize quote s.allowed_tags q)) [
      | inl (q', fine) ↦ inr (costs_of q', rw (e, ask, read, fine) refl)
      | inr (message, bad) ↦
          let failure : Failure = record { message = message; is_hourly_not_enabled = false } in
          let at_once : ask env quote n t s endpoint r
              ≡ replies (write_answer json_series (service_answer (err failure))) =
            rw (e, ask, read, bad) refl in
          inl (_, at_once)
    ]
  ]

  after_begin-ne-dead :
      (key : Str) (d : Decision (Value F)) (k : Str) (id : ℕ)
      → after_begin {E = Failure} key d ≢ dead k id
  after_begin-ne-dead key uncached k id e = ground (arith, e)
  after_begin-ne-dead key (hit v) k id e = ground (arith, e)
  after_begin-ne-dead key (join a) k id e = ground (arith, e)
  after_begin-ne-dead key (lead a) k id e = ground (arith, e)

  module _ (ttl : ℤ) (positive : pos 1 ≤ℤ ttl) (made : Server F)
      (cold : made.service.cache ≡ new_cache ttl) (t : ℕ)
      (fetchable : (w : Wanted)
        → IsAsked env quote made.service.allowed_tags w
        → (o : Outcome Failure (Value F)) × Fetches env w o) where
    -- A request whose handler has not come to the cache.
    handled-Answerable :
        (s : Process (Live F) (Job F)) (i : ℕ) (route : Route) (r : HttpRequest)
        → Reached env quote t made s
        → s.exited ≡ none
        → get_elem? s.connections i ≡ some (handling route r)
        → ((j : ℕ) (key : Str) (a : ℕ) → s.app.system.pc j ≢ dead key a)
        → (route.1 ≡ get_costs) ⊎ (route.1 ≡ get_summary)
        → Answerable env quote s i route r
    handled-Answerable s i route r reached on at calm to =
        let clocks : Readings = record { locked = 0; stored = 0; now = 0; stamp = 0 } in
        elim (ask-cases 0 clocks s.app route.1 r to) [
          | inl (reply, e) ↦ (
            _,
            reply,
            next here (
                turn i _ (answered route r reply) _ on at (reply_at_once 0 clocks route r reply e)),
            get_elem?-set_self s.connections i (answered route r reply) at,
          )
          | inr (w, e) ↦
              let free =
                subst (λ job. Stands job (s.app.system.pc i)) at
                  (Reached-AllStand env quote t made reached i) in
              let enters =
                turn i _ (caching route r w) _ on at (enter_cache 0 clocks route r w e free) in
              let decision = (begin s.app.system.now (key_of w) s.app.system.cache).0 in
              before_steps env quote i route r (next here enters) (
                answerable_lem env quote ttl positive made cold t fetchable _ i route r w
                  (next reached enters) on
                  (get_elem?-set_self s.connections i (caching route r w) at)
                  (λ j key a d. elim (ℕ_discrete i j) [
                    | yes same ↦ after_begin-ne-dead (key_of w) decision key a (
                        sym (update_self s.app.system.pc i _)
                        ∙ subst
                            (λ k.
                              update s.app.system.pc i (after_begin (key_of w) decision) k
                              ≡ dead key a)
                            (sym same) d)
                    | no ne ↦ calm j key a (sym (update_other s.app.system.pc i j _ ne) ∙ d)
                  ]))
        ]

  module _ ⦃m : Math F⦄ (parse_error : Str → Str) (visit : List Str → List Str) (fuel : ℕ) where
    -- What the demo client answers can be fetched.
    demo-Fetches :
        (n : ℕ) (now : Time) (tags : List Str)
        → ((ks : List Str) → Perm (visit ks) ks)
        → ((r : Request) (o : Outcome Failure Page)
            → get_cost_and_usage F parse_error visit fuel r ≡ some o
            → (env n).client r ≡ o)
        → 1 ≤ (date_of now).year
        → now < year_10000
        → now < fuel
        → 1 ≤ (env n).fuel
        → (w : Wanted) → IsAsked env quote tags w
        → (o : Outcome Failure (Value F)) × Fetches env w o
    unfolding Fetches
    demo-Fetches n now tags any answers year small enough one (costs_of q') (q, fine) =
        let (known, _, _, _, _) = normalize_sound quote tags q fine in
        let (_, _, s, _, fetched, _) =
          fetch_costs-demo parse_error visit fuel (env n).fuel now now q' (env n).client any answers
            small enough one known in
        (_, (n, now, now, ok s, fetched, refl))
    demo-Fetches n now tags any answers year small enough one the_summary asked =
        let (_, _, _, _, _, _, _, _, fetched) =
          fetch_summary-demo parse_error visit fuel (env n).client answers (env n).forecast
            (env n).visit_totals (env n).visit_services (env n).fuel now year small enough one in
        (_, (n, now, _, fetched, refl))

    -- In demo mode, where at some moment the year is from 1 to 9999 and there are rounds enough, and
    -- from a cache that starts empty with a positive time-to-live: as long as the process runs and no
    -- fetch has panicked, each request to the costs endpoint or the summary endpoint can come to an
    -- answer, be it in the cache or not yet, whatever the others are at.
    pub demo-Answerable :
        (ttl : ℤ) (made : Server F) (t n : ℕ) (now : Time)
        → pos 1 ≤ℤ ttl
        → made.service.cache ≡ new_cache ttl
        → ((ks : List Str) → Perm (visit ks) ks)
        → ((r : Request) (o : Outcome Failure Page)
            → get_cost_and_usage F parse_error visit fuel r ≡ some o
            → (env n).client r ≡ o)
        → 1 ≤ (date_of now).year
        → now < year_10000
        → now < fuel
        → 1 ≤ (env n).fuel
        → (s : Process (Live F) (Job F)) (i : ℕ) (route : Route) (r : HttpRequest)
        → Reached env quote t made s
        → s.exited ≡ none
        → (get_elem? s.connections i ≡ some (handling route r))
          ⊎ ((w : Wanted) × (get_elem? s.connections i ≡ some (caching route r w)))
        → ((j : ℕ) (key : Str) (a : ℕ) → s.app.system.pc j ≢ dead key a)
        → (route.1 ≡ get_costs) ⊎ (route.1 ≡ get_summary)
        → Answerable env quote s i route r
    demo-Answerable ttl made t n now positive cold any answers year small enough one s i route r
          reached on there calm to =
        let fetchable =
          demo-Fetches n now made.service.allowed_tags any answers year small enough one in
        elim there [
          | inl at ↦
              handled-Answerable ttl positive made cold t fetchable s i route r reached on at calm
                to
          | inr (w, at) ↦
              answerable_lem env quote ttl positive made cold t fetchable s i route r w reached on
                at calm
        ]
