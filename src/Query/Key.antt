-- ===== src/Query/Key.antt =====
-- The cache keys of `Costs` tell normalized queries apart, and from the key of `Summary`.
use eksp.Base.{
  Str, codes, Lacks, cut_unique, cut_last_unique, List, ◌≡◌, ◌≢◌, inl, inr, ok, arith,
  decimal_ℤ-injective, decimal_ℤ-Lacks,
}
use eksp.Query.{Query, cache_key, normalize}
use eksp.Query.Normalize.{IsKnown, normalize_sound}

IsKnown-Lacks : (g : Str) → IsKnown g → Lacks b'|' g
IsKnown-Lacks g (inl e) = rw e (omega arith)
IsKnown-Lacks g (inr (inl e)) = rw e (omega arith)
IsKnown-Lacks g (inr (inr e)) = rw e (omega arith)

cache_key-injective_of_IsKnown :
    (q r : Query)
    → IsKnown q.granularity
    → IsKnown r.granularity
    → cache_key q ≡ cache_key r
    → q ≡ r
unfolding cache_key
cache_key-injective_of_IsKnown q r hq hr e =
    let (same_granularity, rest) =
      cut_unique b'|' q.granularity r.granularity _ _ (IsKnown-Lacks _ hq) (IsKnown-Lacks _ hr)
        (cc) in
    let (same_group, same_days) =
      cut_last_unique b'|' q.group_by r.group_by _ _
        (decimal_ℤ-Lacks b'|' q.days (omega arith) (omega arith))
        (decimal_ℤ-Lacks b'|' r.days (omega arith) (omega arith)) rest in
    ground (arith, decimal_ℤ-injective q.days r.days same_days)

module _ (quote : Str → Str) (allowed_tags : List Str) where
  -- Two accepted queries that share a cache key are, once normalized, the same query.
  pub cache_key-injective :
      (q r : Query) {q' r' : Query}
      → normalize quote allowed_tags q ≡ ok q'
      → normalize quote allowed_tags r ≡ ok r'
      → cache_key q' ≡ cache_key r'
      → q' ≡ r'
  cache_key-injective q r {q'} {r'} hq hr e =
      cache_key-injective_of_IsKnown q' r' (normalize_sound quote allowed_tags q hq).0
        (normalize_sound quote allowed_tags r hr).0 e

-- No query has the key under which the summary is cached.
pub cache_key-ne-summary : (q : Query) → cache_key q ≢ codes "summary"
unfolding cache_key
cache_key-ne-summary q e = ground arith
