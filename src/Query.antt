-- ===== src/Query.antt =====
-- Queries for costs: apps/costwatch/backend/internal/costs/types.go (Query, the granularities and
-- dimensions) and the checks of service.go (WithAllowedTagKeys, normalize, clamp, the cache key).
-- An error is its message. Go's `%q` is `strconv.Quote`, which may be any function here.
pub mod Normalize
pub mod Key
mod Tests
use mathlib.Core.Logic.{ite}
use eksp.Base.{
  member, Str, codes, Str-discrete, cut_prefix, trim_space, List, [], ◌∷◌, ◌++◌, ◌||◌, ◌&&◌, none,
  some, if◌then◌else◌, holds, ℤ, pos, ltb_ℤ, leb_ℤ, decimal_ℤ, Outcome, ok, err, ◌>>=◌,
}

abbrev pub hourly : Str
hourly = codes "HOURLY"

abbrev pub daily : Str
daily = codes "DAILY"

abbrev pub monthly : Str
monthly = codes "MONTHLY"

pub record Query : Type 0 where
  pub granularity : Str
  pub group_by : Str
  pub days : ℤ

-- The literal map `ValidGroupBys`, as its keys.
abbrev pub valid_group_bys : List Str
valid_group_bys =
    codes "SERVICE"
    ∷ codes "LINKED_ACCOUNT"
    ∷ codes "REGION"
    ∷ codes "USAGE_TYPE"
    ∷ codes "RESOURCE_ID"
    ∷ []

abbrev pub tag_prefix : Str
tag_prefix = codes "TAG:"

-- `WithAllowedTagKeys`: the keys that are not blank, trimmed.
unfoldable pub allow_tags : List Str → List Str
allow_tags [] = []
allow_tags (k ∷ ks) =
    ite (Str-discrete (trim_space k) []) (allow_tags ks) (trim_space k ∷ allow_tags ks)

unfoldable pub clamp : ℤ → ℤ → ℤ → ℤ
clamp v min max = if ltb_ℤ v min then min else if ltb_ℤ max v then max else v

-- A daily query for one day is taken for one that names no days.
unfoldable pub clamp_daily : ℤ → ℤ
unfolding clamp
clamp_daily days =
    let d = clamp days (pos 1) (pos 365) in if leb_ℤ d (pos 1) && leb_ℤ (pos 1) d then pos 30 else d

unfoldable pub set_days : Str → ℤ → ℤ
unfolding clamp clamp_daily
set_days g days = ite (Str-discrete g hourly) (clamp days (pos 1) (pos 14)) (
    ite (Str-discrete g daily) (clamp_daily days)
      (ite (Str-discrete g monthly) (clamp days (pos 30) (pos 390)) days))

module _ (quote : Str → Str) where
  abbrev pub bad_granularity : Str → Str
  bad_granularity g =
      codes "unsupported granularity " ++ (quote g ++ codes " (HOURLY|DAILY|MONTHLY)")

  abbrev pub bad_tag_key : Str → Str
  bad_tag_key tag =
      codes "unsupported groupBy tag key "
      ++ (quote tag ++ codes " — set ALLOWED_TAG_KEYS to permit specific cost-allocation tags")

  abbrev pub bad_group_by : Str → Str
  bad_group_by group = codes "unsupported groupBy " ++ quote group

  unfoldable pub check_granularity : Str → Outcome Str (Unit {0})
  check_granularity g =
      if holds (Str-discrete g hourly)
        || holds (Str-discrete g daily)
        || holds (Str-discrete g monthly)
      then ok tt
      else err (bad_granularity g)

  unfoldable pub check_group_by : List Str → Str → Outcome Str (Unit {0})
  check_group_by allowed_tags group = elim (cut_prefix group tag_prefix) [
    | some tag ↦ if member allowed_tags tag then ok tt else err (bad_tag_key tag)
    | none ↦ if member valid_group_bys group then ok tt else err (bad_group_by group)
  ]

  -- `Query.normalize`: the query with its days set, or the message of the error.
  unfoldable pub normalize : List Str → Query → Outcome Str Query
  unfolding check_granularity check_group_by set_days
  normalize allowed_tags q = do
    _ ← check_granularity q.granularity
    _ ← check_group_by allowed_tags q.group_by
    ok (record q { days = set_days q.granularity q.days })

-- The key under which `Costs` caches a normalized query: "costs|%s|%s|%d".
unfoldable pub cache_key : Query → Str
cache_key q =
    codes "costs|" ++ (q.granularity ++ (b'|' ∷ (q.group_by ++ (b'|' ∷ decimal_ℤ q.days))))
