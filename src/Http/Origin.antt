-- ===== src/Http/Origin.antt =====
-- Where the answers of a live server come from.
use mathlib.Core.Path.{subst}
use eksp.Base.{
  ℕ, Str, List, Bool, some, get_elem?, ℤ, pos, ◌≤ℤ◌, Float, Outcome, ok, err, ◌≡◌, inl, inr, refl,
  sym, ◌∙◌, All-get_elem?, arith,
}
use eksp.Query.{Query, normalize}
use eksp.Cache.System.{idle, returned}
use eksp.Cache.{new_cache}
use eksp.Fetch.{Failure, fetch_costs}
use eksp.Aggregate.{Series}
use eksp.Summary.{Summary, fetch_summary}
use eksp.Time.{Time}
use eksp.Service.{Value, of_summary, boxed, read_summary}
use eksp.Service.Again.{marked, read_series-boxed}
use eksp.Process.{Process, Reach, launched}
use eksp.Http.{service_answer, query_of}
use eksp.Http.Server.{
  get_costs, get_summary, HttpRequest, Reply, Env, Server, json_series, json_summary, write_answer,
}
use eksp.Http.Live.{
  Wanted, costs_of, the_summary, Route, Job, caching, answered, Live, live, reply_of, Fetches, Ask,
  replies, wants, live_program, key_of,
}
use eksp.Http.Asks.{Asked, Asked-costs, Asked-summary, wants-injective}
use eksp.Http.Runs.{Used, init-Used, returned-Fetches}
use eksp.Http.Traffic.{JobOk, InvAll, Reach-InvAll, Asked-IsAsked}

module _ {F : Type 0} where
  -- The outcome of a fetch of the summary, with its mark.
  abbrev pub marked_summary : Bool → Outcome Failure (Summary F) → Outcome Failure (Summary F)
  marked_summary cached (err e) = err e
  marked_summary cached (ok v) = ok (record v { cached = cached })

  read_summary_lem :
      (o : Outcome Failure (Summary F)) (cached : Bool)
      → read_summary (boxed of_summary o, cached) ≡ some (marked_summary cached o)
  unfolding read_summary
  read_summary_lem (err e) cached = refl
  read_summary_lem (ok v) cached = refl

module _ {F : Type 0} ⦃fl : Float F⦄ (env : ℕ → Env F) (quote : Str → Str) where
  -- What a fetch of the costs returned can be read as a series, and becomes the answer.
  costs_reply :
      (q : Query) (o : Outcome Failure (Value F)) (cached : Bool)
      → Fetches env (costs_of q) o
      → (n : ℕ) × (now stamp : Time) × (p : Outcome Failure (Series F)) × (fetch_costs
            (env n).client
            (env n).fuel
            now
            stamp
            q
          ≡ some p)
        × (reply_of (costs_of q) (o, cached)
            ≡ some (write_answer json_series (service_answer (marked cached p))))
  unfolding Fetches reply_of
  costs_reply q o cached (n, now, stamp, p, fetched, is) =
      (n, now, stamp, p, fetched, rw (is, read_series-boxed p cached) refl)

  summary_reply :
      (o : Outcome Failure (Value F)) (cached : Bool)
      → Fetches env the_summary o
      → (n : ℕ) × (now : Time) × (p : Outcome Failure (Summary F)) × (fetch_summary
            (env n).client
            (env n).forecast
            (env n).visit_totals
            (env n).visit_services
            (env n).fuel
            now
          ≡ some p)
        × (reply_of the_summary (o, cached)
            ≡ some (write_answer json_summary (service_answer (marked_summary cached p))))
  unfolding Fetches reply_of
  summary_reply o cached (n, now, p, fetched, is) =
      (n, now, p, fetched, rw (is, read_summary_lem p cached) refl)

  reads_lem :
      (w : Wanted) (o : Outcome Failure (Value F)) (cached : Bool)
      → Fetches env w o
      → (reply : Reply F) × (reply_of w (o, cached) ≡ some reply)
  reads_lem (costs_of q) o cached fetched =
      let (n, now, stamp, p, _, e) = costs_reply q o cached fetched in (_, e)
  reads_lem the_summary o cached fetched =
      let (n, now, p, _, e) = summary_reply o cached fetched in (_, e)

  -- The states that a server can get to, whatever it is asked.
  abbrev pub Reached : ℕ → Server F → Process (Live F) (Job F) → Type 0
  Reached t made s =
      Reach (live_program env quote) (launched (live_program env quote) t (live made)) s

  module _ (ttl : ℤ) (on : pos 1 ≤ℤ ttl) (made : Server F)
      (cold : made.service.cache ≡ new_cache ttl) (t : ℕ) {s : Process (Live F) (Job F)}
      (reached : Reached t made s) where
    abbrev pub tags : List Str
    tags = made.service.allowed_tags

    pub all_sound : InvAll env quote tags ttl s
    all_sound = Reach-InvAll env quote tags ttl on reached (
      record {
        used =
            subst (λ c. Used env quote tags ttl (record { cache = c; now = 0; pc = λ i. idle }))
              (sym cold) (init-Used env quote tags ttl);
        same_tags = refl;
      },
      tt,
    )

    -- Where a request asks the cache for `v`, its answer is what a fetch for `v` returned.
    origin :
        (i : ℕ) (route : Route) (r : HttpRequest) (reply : Reply F) (v : Wanted)
        → get_elem? s.connections i ≡ some (answered route r reply)
        → ((a : Ask F) → Asked env quote tags route r a → wants v ≡ a)
        → (o : Outcome Failure (Value F)) × (cached : Bool) × Fetches env v o
          × (reply_of v (o, cached) ≡ some reply)
    origin i route r reply v at asks =
        elim (All-get_elem? (JobOk env quote tags) s.connections i all_sound.1 at) [
          | inl asked ↦ let bad = asks (replies reply) asked in absurd (ground (arith, bad))
          | inr (w, asked, o, cached, fetched, reads) ↦
              let same = sym (wants-injective (asks (wants w) asked)) in
              (
                o,
                cached,
                subst (λ x. Fetches env x o) same fetched,
                subst (λ x. reply_of x (o, cached) ≡ some reply) same reads,
              )
        ]

    -- From a cache that starts empty with a positive time-to-live, in whatever order the requests are
    -- served: where the server answers a request for the costs of a query that is read and accepted, it
    -- answers with what a fetch of that very query returned, its series or its error.
    pub costs_origin :
        (i : ℕ) (route : Route) (r : HttpRequest) (reply : Reply F) {q q' : Query}
        → get_elem? s.connections i ≡ some (answered route r reply)
        → route.1 ≡ get_costs
        → query_of r.query ≡ some q
        → normalize quote made.service.allowed_tags q ≡ ok q'
        → (n : ℕ) × (now stamp : Time) × (o : Outcome Failure (Series F)) × (cached : Bool)
          × (fetch_costs (env n).client (env n).fuel now stamp q' ≡ some o)
          × (reply ≡ write_answer json_series (service_answer (marked cached o)))
    costs_origin i route r reply {q} {q'} at is read fine =
        let (o, cached, fetched, reads) =
          origin i route r reply (costs_of q') at
            (λ a. Asked-costs env quote tags route r is read fine) in
        let (n, now, stamp, p, e, e') = costs_reply q' o cached fetched in
        let written = sym reads ∙ e' in (n, now, stamp, p, cached, e, ground (arith, written))

    -- From a cache that starts empty with a positive time-to-live, in whatever order the requests are
    -- served: where the server answers a request for the summary, it answers with what a fetch of the
    -- summary returned, or its error.
    pub summary_origin :
        (i : ℕ) (route : Route) (r : HttpRequest) (reply : Reply F)
        → get_elem? s.connections i ≡ some (answered route r reply)
        → route.1 ≡ get_summary
        → (n : ℕ) × (now : Time) × (o : Outcome Failure (Summary F)) × (cached : Bool)
          × (fetch_summary
                (env n).client
                (env n).forecast
                (env n).visit_totals
                (env n).visit_services
                (env n).fuel
                now
              ≡ some o)
          × (reply ≡ write_answer json_summary (service_answer (marked_summary cached o)))
    summary_origin i route r reply at is =
        let (o, cached, fetched, reads) =
          origin i route r reply the_summary at (λ a. Asked-summary env quote tags route r is) in
        let (n, now, p, e, e') = summary_reply o cached fetched in
        let written = sym reads ∙ e' in (n, now, p, cached, e, ground (arith, written))

    -- From a cache that starts empty with a positive time-to-live, in whatever order the requests are
    -- served: what the cache returns to a handler is of the type that it asked for, so that no type
    -- assertion panics.
    pub never_misread :
        (i : ℕ) (route : Route) (r : HttpRequest) (w : Wanted) (o : Outcome Failure (Value F))
        (cached : Bool)
        → get_elem? s.connections i ≡ some (caching route r w)
        → s.app.system.pc i ≡ returned (key_of w) o cached
        → (reply : Reply F) × (reply_of w (o, cached) ≡ some reply)
    never_misread i route r w o cached at e =
        let asked = All-get_elem? (JobOk env quote tags) s.connections i all_sound.1 at in
        reads_lem w o cached (
          returned-Fetches env quote tags ttl s.app.system all_sound.0.used i w o cached on
            (Asked-IsAsked env quote tags route r w asked) e)
