-- ===== src/Query/Normalize.antt =====
-- What `normalize` accepts, refuses and sets.
use eksp.Base.{
  member, ◌↔◌, Str, codes, Str-discrete, cut_prefix, contains, contains_prefix, List, ◌++◌, true,
  none, some, ◌≡◌, refl, ◌⊎◌, inl, inr, ℤ, pos, ◌≤ℤ◌, ok, err, arith, Option-cases,
}
use eksp.Query.{
  Query, hourly, daily, monthly, tag_prefix, valid_group_bys, clamp, clamp_daily, check_granularity,
  check_group_by, set_days, normalize,
}

-- A dimension or tag that a caller may group by.
abbrev pub IsAllowed : List Str → Str → Type 0
IsAllowed allowed_tags group =
    ((tag : Str) × (cut_prefix group tag_prefix ≡ some tag) × (member allowed_tags tag ≡ true))
    ⊎ ((cut_prefix group tag_prefix ≡ none) × (member valid_group_bys group ≡ true))

abbrev pub IsKnown : Str → Type 0
IsKnown g = (g ≡ hourly) ⊎ (g ≡ daily) ⊎ (g ≡ monthly)

-- The days that `fetchCosts` may be given for each granularity.
pub record HasDays (q : Query) : Type 0 where
  pub hourly_days : q.granularity ≡ hourly → (pos 1 ≤ℤ q.days) × (q.days ≤ℤ pos 14)
  pub daily_days : q.granularity ≡ daily → (pos 2 ≤ℤ q.days) × (q.days ≤ℤ pos 365)
  pub monthly_days : q.granularity ≡ monthly → (pos 30 ≤ℤ q.days) × (q.days ≤ℤ pos 390)

clamp_bounds : (v lo hi : ℤ) → lo ≤ℤ hi → (lo ≤ℤ clamp v lo hi) × (clamp v lo hi ≤ℤ hi)
unfolding clamp
clamp_bounds v lo hi h = ground arith

clamp_within : (v lo hi : ℤ) → lo ≤ℤ v → v ≤ℤ hi → clamp v lo hi ≡ v
unfolding clamp
clamp_within v lo hi h k = ground arith

clamp_daily_bounds : (v : ℤ) → (pos 2 ≤ℤ clamp_daily v) × (clamp_daily v ≤ℤ pos 365)
unfolding clamp_daily
clamp_daily_bounds v = ground (arith, clamp_bounds v (pos 1) (pos 365))

clamp_daily_within : (v : ℤ) → pos 2 ≤ℤ v → v ≤ℤ pos 365 → clamp_daily v ≡ v
unfolding clamp_daily
clamp_daily_within v h k = ground (arith, clamp_within v (pos 1) (pos 365))

module _ (v : ℤ) where
  set_days-hourly : set_days hourly v ≡ clamp v (pos 1) (pos 14)
  unfolding set_days Str-discrete
  set_days-hourly = refl

  set_days-daily : set_days daily v ≡ clamp_daily v
  unfolding set_days Str-discrete
  set_days-daily = refl

  set_days-monthly : set_days monthly v ≡ clamp v (pos 30) (pos 390)
  unfolding set_days Str-discrete
  set_days-monthly = refl

set_days-HasDays :
    (g group : Str) (v : ℤ)
    → HasDays (record { granularity = g; group_by = group; days = set_days g v })
set_days-HasDays g group v = record {
  hourly_days = λ e. rw (e, set_days-hourly) (clamp_bounds v (pos 1) (pos 14) (omega arith));
  daily_days = λ e. rw (e, set_days-daily) (clamp_daily_bounds v);
  monthly_days = λ e. rw (e, set_days-monthly) (clamp_bounds v (pos 30) (pos 390) (omega arith));
}

-- Days that are in range already stay as they are.
set_days_within :
    (q : Query) → IsKnown q.granularity → HasDays q → set_days q.granularity q.days ≡ q.days
set_days_within q (inl e) h =
    let b = h.hourly_days e in rw (e, set_days-hourly) (clamp_within _ _ _ b.0 b.1)
set_days_within q (inr (inl e)) h =
    let b = h.daily_days e in rw (e, set_days-daily) (clamp_daily_within _ b.0 b.1)
set_days_within q (inr (inr e)) h =
    let b = h.monthly_days e in rw (e, set_days-monthly) (clamp_within _ _ _ b.0 b.1)

module _ (quote : Str → Str) where
  check_granularity-eq-ok : (g : Str) → (check_granularity quote g ≡ ok tt) ↔ IsKnown g
  unfolding check_granularity
  check_granularity-eq-ok g = (λ e. ground arith, λ h. ground arith)

  check_group_by-eq-ok :
      (allowed_tags : List Str) (g : Str)
      → (check_group_by quote allowed_tags g ≡ ok tt) ↔ IsAllowed allowed_tags g
  unfolding check_group_by
  check_group_by-eq-ok allowed_tags g = (λ e. ground arith, λ e. ground arith)

  -- A query that `normalize` accepts has a known granularity and an allowed grouping, both as the
  -- caller gave them, and its days lie in the range of its granularity.
  pub normalize_sound :
      (allowed_tags : List Str) (q : Query) {r : Query}
      → normalize quote allowed_tags q ≡ ok r
      → IsKnown r.granularity
        × IsAllowed allowed_tags r.group_by
        × HasDays r
        × (r.granularity ≡ q.granularity)
        × (r.group_by ≡ q.group_by)
  unfolding normalize
  normalize_sound allowed_tags q {r} e =
      let known : check_granularity quote q.granularity ≡ ok tt = ground arith in
      let allowed : check_group_by quote allowed_tags q.group_by ≡ ok tt = ground arith in
      let same : r ≡ record q { days = set_days q.granularity q.days } = ground arith in
      rw same (
        (check_granularity-eq-ok q.granularity).0 known,
        (check_group_by-eq-ok allowed_tags q.group_by).0 allowed,
        set_days-HasDays q.granularity q.group_by q.days,
        refl,
        refl,
      )

  -- Every query with a known granularity and an allowed grouping is accepted, and only its days are
  -- set.
  pub normalize_complete :
      (allowed_tags : List Str) (q : Query)
      → IsKnown q.granularity
      → IsAllowed allowed_tags q.group_by
      → normalize quote allowed_tags q ≡ ok (record q { days = set_days q.granularity q.days })
  unfolding normalize
  normalize_complete allowed_tags q known allowed = rw (
    (check_granularity-eq-ok q.granularity).1 known,
    (check_group_by-eq-ok allowed_tags q.group_by).1 allowed,
  )

  check_granularity_refusal :
      (g : Str) {m : Str}
      → check_granularity quote g ≡ err m
      → contains m (codes "unsupported") ≡ true
  unfolding check_granularity
  check_granularity_refusal g {m} e = ground (
    arith,
    contains_prefix (codes "unsupported")
        (codes " granularity " ++ (quote g ++ codes " (HOURLY|DAILY|MONTHLY)")),
  )

  check_group_by_refusal :
      (allowed_tags : List Str) (g : Str) {m : Str}
      → check_group_by quote allowed_tags g ≡ err m
      → contains m (codes "unsupported") ≡ true
  unfolding check_group_by
  check_group_by_refusal allowed_tags g {m} e = elim (Option-cases (cut_prefix g tag_prefix)) [
    | inl e' ↦ ground (arith, contains_prefix (codes "unsupported") (codes " groupBy " ++ quote g))
    | inr (tag, e') ↦ ground (
      arith,
      contains_prefix (codes "unsupported") (
          codes " groupBy tag key "
          ++ (quote tag
              ++ codes " — set ALLOWED_TAG_KEYS to permit specific cost-allocation tags")),
    )
  ]

  -- A refused query has an unknown granularity or a grouping that is not allowed, and the message of
  -- its error holds the word "unsupported".
  pub normalize_refusal :
      (allowed_tags : List Str) (q : Query) {m : Str}
      → normalize quote allowed_tags q ≡ err m
      → (contains m (codes "unsupported") ≡ true)
        × ¬ (IsKnown q.granularity × IsAllowed allowed_tags q.group_by)
  unfolding normalize
  normalize_refusal allowed_tags q {m} e = (
    ground (
      arith,
      check_granularity_refusal q.granularity {m = m},
      check_group_by_refusal allowed_tags q.group_by {m = m},
    ),
    λ h. cc (e, normalize_complete allowed_tags q h.0 h.1),
  )

  -- Normalizing again changes nothing: what `normalize` returns, it accepts as it is.
  normalize_idem :
      (allowed_tags : List Str) (q : Query) {r : Query}
      → normalize quote allowed_tags q ≡ ok r
      → normalize quote allowed_tags r ≡ ok r
  normalize_idem allowed_tags q {r} e =
      let (known, allowed, days, _, _) = normalize_sound allowed_tags q e in
      rw (normalize_complete allowed_tags r known allowed, set_days_within r known days)
