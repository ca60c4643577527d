-- ===== src/Http/Statuses.antt =====
-- Which requests are answered with which status.
use eksp.Base.{
  cut_prefix, member, Str, codes, Str-discrete, contains, to_upper, to_lower, List, [], true, some,
  pos, Outcome, ok, err, ◌≡◌, refl,
}
use eksp.Query.{
  Query, daily, check_granularity, check_group_by, set_days, clamp_daily, clamp, normalize,
}
use eksp.Query.Normalize.{normalize_refusal}
use eksp.Fetch.{Failure, map_ce_error}
use eksp.Http.{write_service_error, query_of, service_answer, handle_costs, checked}

module _ {ℓ} {A : Type ℓ} where
  -- A request whose query is refused is answered with 400, before anything is fetched.
  pub handle_costs-refused :
      (quote : Str → Str) (allowed_tags : List Str) (fetch : Query → Outcome Failure A)
      (query : Str → Str) {q : Query} {message : Str}
      → query_of query ≡ some q
      → normalize quote allowed_tags q ≡ err message
      → (handle_costs (checked quote allowed_tags fetch) query).status ≡ 400
  unfolding handle_costs service_answer checked write_service_error
  handle_costs-refused quote allowed_tags fetch query {q} {message} asked e =
      let (word, _) = normalize_refusal quote allowed_tags q e in
      rw (handle_costs, asked, checked, e, service_answer, write_service_error, word) refl

-- An error of Cost Explorer that names "hourly", in whatever case, is answered with 409.
write_service_error-hourly {ℓ} :
    (A : Type ℓ) (e : Failure)
    → contains (to_lower e.message) (codes "hourly") ≡ true
    → (write_service_error {A = A} (map_ce_error e)).status ≡ 409
unfolding write_service_error map_ce_error
write_service_error-hourly A e h = rw (map_ce_error, h) refl

-- A request without parameters asks for the costs by service of the last thirty days, by day.
query_of-default :
    (quote : Str → Str) (allowed_tags : List Str) (query : Str → Str)
    → ((key : Str) → query key ≡ [])
    → (q : Query) × (query_of query ≡ some q)
      × (normalize quote allowed_tags q
          ≡ ok (record { granularity = daily; group_by = codes "SERVICE"; days = pos 30 }))
unfolding query_of normalize check_granularity check_group_by cut_prefix member set_days clamp_daily
    clamp to_upper Str-discrete
query_of-default quote allowed_tags query unset = (
  record { granularity = daily; group_by = codes "SERVICE"; days = pos 0 },
  rw (query_of, unset (codes "granularity"), unset (codes "groupBy"), unset (codes "days")) refl,
  refl,
)
