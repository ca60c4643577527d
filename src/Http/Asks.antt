-- ===== src/Http/Asks.antt =====
-- What the handlers of a live server do before they come to the cache.
use mathlib.Core.Path.{subst}
use eksp.Base.{
  ℕ, Str, List, false, none, some, Float, ok, err, ◌≡◌, inl, inr, refl, sym, ◌∙◌, Option-cases,
  Outcome-cases, arith,
}
use eksp.Query.{Query, normalize}
use eksp.Service.{Readings}
use eksp.Http.{service_answer, bad_days, query_of}
use eksp.Http.Server.{
  Endpoint, get_summary, get_costs, get_health, get_metrics, get_static, HttpRequest, Env,
  json_series, write_answer, respond,
}
use eksp.Http.Live.{
  Wanted, costs_of, the_summary, Route, Live, service_of, Ask, replies, wants, panics, ask,
}
use eksp.Http.Runs.{IsAsked}

pub wants-injective : {F : Type 0} {w w' : Wanted} → ◌≡◌ {A = Ask F} (wants w) (wants w') → w ≡ w'
wants-injective e = ground (arith, e)

module _ {F : Type 0} ⦃fl : Float F⦄ (env : ℕ → Env F) (quote : Str → Str) (tags : List Str) where
  -- What the handler of a request did before `do`.
  abbrev pub Asked : Route → HttpRequest → Ask F → Type 0
  Asked route r a =
      (n : ℕ) × (t : Readings) × (s : Live F) × (s.allowed_tags ≡ tags)
      × (ask env quote n t s route.1 r ≡ a)

  ask-plain :
      (n : ℕ) (t : Readings) (s : Live F) (endpoint : Endpoint) (r : HttpRequest) (w : Wanted)
      → (elim (respond (env n) endpoint s.demo t r (service_of s)).0 [
        | none ↦ panics
        | some reply ↦ replies reply
      ])
        ≡ wants w
      → IsAsked env quote tags w
  ask-plain n t s endpoint r w h =
      elim (Option-cases (respond (env n) endpoint s.demo t r (service_of s)).0) [
        | inl e ↦ let no : panics ≡ wants w = rw e at h in absurd (ground (arith, no))
        | inr (reply, e) ↦
            let no : replies reply ≡ wants w = rw e at h in absurd (ground (arith, no))
      ]

  pub ask-IsAsked :
      (n : ℕ) (t : Readings) (s : Live F) (endpoint : Endpoint) (r : HttpRequest) (w : Wanted)
      → s.allowed_tags ≡ tags
      → ask env quote n t s endpoint r ≡ wants w
      → IsAsked env quote tags w
  unfolding ask
  ask-IsAsked n t s get_summary r w e h = subst (IsAsked env quote tags) (wants-injective h) tt
  ask-IsAsked n t s get_costs r w e h = elim (Option-cases (query_of r.query)) [
    | inl unread ↦
        let no : replies (write_answer json_series bad_days) ≡ wants w = rw (ask, unread) at h in
        absurd (ground (arith, no))
    | inr (q, read) ↦ elim (Outcome-cases (normalize quote s.allowed_tags q)) [
      | inl (q', fine) ↦
          let same : wants (costs_of q') ≡ wants w = rw (ask, read, fine) at h in
          subst (IsAsked env quote tags) (wants-injective same)
            (q, subst (λ allowed. normalize quote allowed q ≡ ok q') e fine)
      | inr (m, bad) ↦
          let no : replies (
                write_answer json_series
                  (service_answer (err (record { message = m; is_hourly_not_enabled = false }))))
              ≡ wants w =
            rw (ask, read, bad) at h in
          absurd (ground (arith, no))
    ]
  ]
  ask-IsAsked n t s get_health r w e h = ask-plain n t s get_health r w h
  ask-IsAsked n t s get_metrics r w e h = ask-plain n t s get_metrics r w h
  ask-IsAsked n t s get_static r w e h = ask-plain n t s get_static r w h

  -- A request for the costs of a query that is read and accepted asks the cache for them.
  pub Asked-costs :
      {a : Ask F} (route : Route) (r : HttpRequest) {q q' : Query}
      → route.1 ≡ get_costs
      → query_of r.query ≡ some q
      → normalize quote tags q ≡ ok q'
      → Asked route r a
      → wants (costs_of q') ≡ a
  unfolding ask
  Asked-costs (pattern, endpoint, label) r {q} {q'} is read fine (n, t, s, e, h) =
      let accepted : normalize quote s.allowed_tags q ≡ ok q' = rw e fine in
      sym (rw (ask, is, read, accepted) refl) ∙ h

  pub Asked-summary :
      {a : Ask F} (route : Route) (r : HttpRequest)
      → route.1 ≡ get_summary
      → Asked route r a
      → wants the_summary ≡ a
  unfolding ask
  Asked-summary (pattern, endpoint, label) r is (n, t, s, e, h) = sym (rw (ask, is) refl) ∙ h
