-- ===== src/Query/Tests.antt =====
-- Runs of `normalize` and of the cache key, and the theorems about them at concrete inputs.
use eksp.Base.{
  member, Str, codes, Str-discrete, contains, cut_prefix, List, [], ◌∷◌, true, ◌≡◌, refl, pos,
  negsuc, ok, err, decimal_ℤ, trim_space,
}
use eksp.Query.{Query, hourly, daily, allow_tags, bad_group_by, normalize, cache_key}
use eksp.Query.Normalize.{IsKnown, IsAllowed, HasDays, normalize_sound, normalize_refusal}
use eksp.Query.Key.{cache_key-injective}

program : Unit {0}
unfolding Str-discrete cut_prefix member allow_tags normalize cache_key decimal_ℤ trim_space
    contains
program = tt

abbrev plain : Str → Str
plain s = s

abbrev tags : List Str
tags = codes "team" ∷ []

abbrev week : Query
week = record { granularity = daily; group_by = codes "TAG:team"; days = pos 7 }

abbrev long : Query
long = record { granularity = hourly; group_by = codes "SERVICE"; days = pos 90 }

abbrev drop_table : Query
drop_table = record { granularity = daily; group_by = codes "DROP TABLE"; days = pos 7 }

abbrev today : Query
today = record { granularity = daily; group_by = codes "SERVICE"; days = negsuc 4 }

trimmed : allow_tags (codes " team" ∷ codes "  " ∷ []) ≡ tags
unfolding program
trimmed = refl

week_runs : normalize plain tags week ≡ ok week
unfolding program
week_runs = refl

long_runs : normalize plain tags long ≡ ok (record long { days = pos 14 })
unfolding program
long_runs = refl

drop_table_runs : normalize plain tags drop_table ≡ err (bad_group_by plain (codes "DROP TABLE"))
unfolding program
drop_table_runs = refl

today_runs : normalize plain tags today ≡ ok (record today { days = pos 30 })
unfolding program
today_runs = refl

key_runs : cache_key week ≡ codes "costs|DAILY|TAG:team|7"
unfolding program
key_runs = refl

normalize_sound_example :
    IsKnown hourly
    × IsAllowed tags (codes "SERVICE")
    × HasDays (record long { days = pos 14 })
    × (hourly ≡ hourly)
    × (codes "SERVICE" ≡ codes "SERVICE")
normalize_sound_example = normalize_sound plain tags long long_runs

normalize_refusal_example :
    (contains (bad_group_by plain (codes "DROP TABLE")) (codes "unsupported") ≡ true)
    × ¬ (IsKnown daily × IsAllowed tags (codes "DROP TABLE"))
normalize_refusal_example = normalize_refusal plain tags drop_table drop_table_runs

cache_key-injective_example : record long { days = pos 14 } ≡ record long { days = pos 14 }
cache_key-injective_example = cache_key-injective plain tags long long long_runs long_runs refl
