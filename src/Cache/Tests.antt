-- ===== src/Cache/Tests.antt =====
-- Runs of the cache on small inputs.
use mathlib.Core.List.Perm
use eksp.Base.{
  ℕ, Str, Str-discrete, codes, List, [], ◌∷◌, true, false, none, some, ◌≡◌, refl, pos, pos_part, ok,
  arith, length, get_elem?, lookup, member, ◌≤◌, ◌+◌,
}
use native.Mathlib.Decide.{ℕ_discrete}
use eksp.Cache.{
  max_cache_entries, Entry, Cache, new_cache, fresh, begin, publish, store, sweep, do_alone,
}
use eksp.Cache.Maps.{IsMap}
use eksp.Cache.Oldest.{IsOrder}
use eksp.Cache.Sweep.{IsSwept, sweep-IsSwept}
use eksp.Cache.System.{
  waiting, closing, returned, dead, System, after_begin, moved, init, Reach, here, next, call,
  finish, panic, wake, close,
}
use eksp.Cache.Invariant.{made, leads}
use eksp.Cache.Safety.{at_most_one_leader, entries_sound, panic_stays}
use eksp.Cache.Again.{do_alone-again}

abbrev key : Str
key = codes "costs|DAILY||30"

abbrev in_order : ℕ → List (Str × Entry ℕ) → List (Str × Entry ℕ)
in_order n m = m

in_order-IsOrder : IsOrder in_order
in_order-IsOrder n m = Perm.refl m

-- The first entry expired at 4, the second expires at 10.
abbrev two_entries : List (Str × Entry ℕ)
two_entries =
    (codes "a", record { val = 1; exp = 4 }) ∷ (codes "b", record { val = 2; exp = 10 }) ∷ []

two_swept : sweep in_order 5 two_entries ≡ (codes "b", record { val = 2; exp = 10 }) ∷ []
unfolding sweep
two_swept = refl

sweep-IsSwept_example : IsSwept 5 two_entries (sweep in_order 5 two_entries)
unfolding member Str-discrete lookup
sweep-IsSwept_example =
    sweep-IsSwept in_order 5 two_entries in_order-IsOrder (refl, (refl, tt)) refl

abbrev called : ℕ → System Str ℕ → System Str ℕ
called i s = moved s (begin s.now key s.cache).1 i (after_begin key (begin s.now key s.cache).0)

-- Goroutine 0 calls and runs `fn`.
abbrev one : System Str ℕ
one = called 0 (init (pos 60))

-- Goroutine 1 joins it.
abbrev two : System Str ℕ
two = called 1 one

-- `fn` ends, and its value is stored.
abbrev three : System Str ℕ
three = moved two (publish 0 key (ok 7) two.cache) 0 (closing key 0 (ok 7))

abbrev four : System Str ℕ
four = moved three (store in_order three.now key (ok 7) three.cache) 0 (returned key (ok 7) false)

-- Goroutine 1 wakes.
abbrev five : System Str ℕ
five = moved four four.cache 1 (returned key (ok 7) false)

-- Or `fn` panics.
abbrev crashed : System Str ℕ
crashed = moved one one.cache 0 (dead key 0)

abbrev joined_crash : System Str ℕ
joined_crash = called 1 crashed

two-Reach : Reach (init (pos 60)) two
unfolding begin publish store sweep new_cache lookup ℕ_discrete Str-discrete
two-Reach = next (next here (call 0 key refl)) (call 1 key refl)

five-Reach : Reach (init (pos 60)) five
unfolding begin publish store sweep new_cache lookup ℕ_discrete Str-discrete
five-Reach =
    next
      (next (next two-Reach (finish 0 key 0 (ok 7) refl))
        (close 0 key 0 (ok 7) in_order in_order-IsOrder refl))
      (wake 1 key 0 (made key (some (ok 7))) (ok 7) refl refl refl)

crashed-Reach : Reach (init (pos 60)) crashed
unfolding begin publish store sweep new_cache lookup ℕ_discrete Str-discrete
crashed-Reach = next (next here (call 0 key refl)) (panic 0 key 0 refl)

joined_crash-Reach : Reach crashed joined_crash
unfolding begin publish store sweep new_cache lookup ℕ_discrete Str-discrete
joined_crash-Reach = next here (call 1 key refl)

one_leads : leads (two.pc 0) ≡ some (key, 0)
unfolding begin publish store sweep new_cache lookup ℕ_discrete Str-discrete
one_leads = refl

abbrev first : ℕ
first = 0

at_most_one_leader_example : (first ≡ 0) × (first ≡ 0)
at_most_one_leader_example =
    at_most_one_leader (pos 60) two first 0 key first 0 (omega arith) two-Reach one_leads one_leads

entries_sound_example :
    (length five.cache.entries ≤ max_cache_entries)
    × IsMap five.cache.entries
    × ((k : Str) (e : Entry ℕ)
        → lookup k five.cache.entries ≡ some e
        → (e.exp ≤ five.now + pos_part five.cache.ttl)
          × (id : ℕ) × (get_elem? five.cache.calls id ≡ some (made k (some (ok e.val)))))
entries_sound_example = entries_sound (pos 60) five (omega arith) five-Reach

five_stored : five.cache.entries ≡ (key, record { val = 7; exp = 60 }) ∷ []
unfolding begin publish store sweep new_cache lookup ℕ_discrete Str-discrete
five_stored = refl

five_woken : five.pc 1 ≡ returned key (ok 7) false
unfolding begin publish store sweep new_cache lookup ℕ_discrete Str-discrete
five_woken = refl

two_waits : two.pc 1 ≡ waiting key 0
unfolding begin publish store sweep new_cache lookup ℕ_discrete Str-discrete
two_waits = refl

crashed_dead : crashed.pc 0 ≡ dead key 0
unfolding begin publish store sweep new_cache lookup ℕ_discrete Str-discrete
crashed_dead = refl

panic_stays_example :
    (joined_crash.pc 0 ≡ dead key 0)
    × (lookup key joined_crash.cache.inflight ≡ some 0)
    × (get_elem? joined_crash.cache.calls 0 ≡ some (made key none))
panic_stays_example =
    panic_stays (pos 60) crashed joined_crash 0 key 0 (omega arith) crashed-Reach crashed_dead
      joined_crash-Reach

abbrev empty : Cache Str ℕ
empty = new_cache (pos 60)

empty_stale : (fresh 1 key empty.entries ≡ none) × (lookup key empty.inflight ≡ none)
unfolding new_cache fresh lookup
empty_stale = (refl, refl)

do_alone-again_example :
    ((do_alone in_order 1 3 key (ok 7) empty).0 ≡ some (ok 7, false))
    × ((do_alone in_order 62 64 key (ok 8) (do_alone in_order 1 3 key (ok 7) empty).1).0
        ≡ some (ok 7, true))
unfolding new_cache
do_alone-again_example =
    do_alone-again in_order 1 3 62 64 key (ok 7) (ok 8) empty (omega arith) empty_stale.0
      empty_stale.1 (omega arith)
