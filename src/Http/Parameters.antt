-- ===== src/Http/Parameters.antt =====
-- The parameters of a request for costs, described independently of `handleCosts` (handlers.go).
use mathlib.Core.Logic.{if_neg}
use eksp.Base.{
  ◌≢◌, Str-discrete, to_upper, to_upper-eq-nil, atoi, Str, codes, [], none, some, Option-cases, ◌≡◌,
  refl, ◌∙◌, inl, inr, arith, pos,
}
use eksp.Query.{Query, daily}
use eksp.Http.{or_default, query_of}

-- The days of a request are there, and no integer.
abbrev pub IsBadDays : (Str → Str) → Type 0
IsBadDays query = (query (codes "days") ≢ []) × (atoi (query (codes "days")) ≡ none)

-- What a request asks for, with the defaults of what it leaves out.
pub record Asks (query : Str → Str) (q : Query) : Type 0 where
  pub any_granularity : query (codes "granularity") ≡ [] → q.granularity ≡ daily
  pub granularity :
      query (codes "granularity") ≢ [] → q.granularity ≡ to_upper (query (codes "granularity"))
  pub any_group : query (codes "groupBy") ≡ [] → q.group_by ≡ codes "SERVICE"
  pub group : query (codes "groupBy") ≢ [] → q.group_by ≡ query (codes "groupBy")
  pub any_days : query (codes "days") ≡ [] → q.days ≡ pos 0
  pub days : query (codes "days") ≢ [] → atoi (query (codes "days")) ≡ some q.days

pub query_of-IsBadDays : (query : Str → Str) → query_of query ≡ none → IsBadDays query
unfolding query_of
query_of-IsBadDays query e = elim (Option-cases (atoi (query (codes "days")))) [
  | inl bad ↦ (λ h. ground (arith, e, h), bad)
  | inr (v, read) ↦ absurd (ground (arith, e, read))
]

granularity_of :
    (query : Str → Str) {q : Query}
    → query_of query ≡ some q
    → q.granularity ≡ or_default (to_upper (query (codes "granularity"))) daily
unfolding query_of
granularity_of query e = ground (arith, e)

pub query_of-Asks : (query : Str → Str) {q : Query} → query_of query ≡ some q → Asks query q
unfolding query_of to_upper Str-discrete
query_of-Asks query {q} e = record {
  any_granularity = λ h. granularity_of query e ∙ rw h refl;
  granularity = λ h.
      granularity_of query e
      ∙ if_neg (Str-discrete (to_upper (query (codes "granularity"))) [])
          (λ none_left. h (to_upper-eq-nil _ none_left)) _ _;
  any_group = λ h. ground (arith, e, h);
  group = λ h. ground (arith, e, h);
  any_days = λ h. ground (arith, e, h);
  days = λ h. ground (arith, e, h);
}
