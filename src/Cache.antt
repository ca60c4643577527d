-- ===== src/Cache.antt =====
-- The TTL cache with request coalescing, apps/costwatch/backend/internal/costs/cache.go.
-- Times are instants on one clock, a `time.Duration` an integer. A map is an association list; where
-- the order of `range` over it can matter, it is a parameter: `order n m` lists the entries of `m` in
-- the order of the n-th round. `do` takes the lock twice; `begin` and `store` are what it does under
-- it, `publish` what stands between. An in-flight call is a pointer into the list `calls`.
pub mod Maps
pub mod Oldest
pub mod Sweep
pub mod System
pub mod Invariant
pub mod Steps
pub mod Close
pub mod Begin
pub mod Safety
pub mod Again
mod Tests
use mathlib.Core.Option
use mathlib.Core.Logic.{ite}
use eksp.Base.{
  get_elem?, ℕ, zero, suc, ◌+◌, Str, Str-discrete, lookup, length, set, List, [], ◌∷◌, ◌++◌, foldl,
  Bool, true, false, ◌||◌, holds, Option, none, some, if◌then◌else◌, ltb, leb, ℤ, pos, pos_part,
  leb_ℤ, Outcome, ok, err,
}

abbrev pub max_cache_entries : ℕ
max_cache_entries = 256

pub record Entry {ℓ} (V : Type ℓ) : Type ℓ where
  pub val : V
  pub exp : ℕ

-- `inflightCall`: `none` until `done` is closed. `key` is not in the source: it names the request
-- that the call was made for.
pub record Call {ℓ} (E V : Type ℓ) : Type ℓ where
  pub key : Str
  pub result : Option (Outcome E V)

pub record Cache {ℓ} (E V : Type ℓ) : Type ℓ where
  pub ttl : ℤ
  pub entries : List (Str × Entry V)
  pub inflight : List (Str × ℕ)
  pub calls : List (Call E V)
  pub hits : ℕ
  pub misses : ℕ

unfoldable pub new_cache {ℓ} : {E V : Type ℓ} → ℤ → Cache E V
new_cache ttl = record { ttl = ttl; entries = []; inflight = []; calls = []; hits = 0; misses = 0 }

module _ {ℓ} {V : Type ℓ} where
  -- `delete(m, k)`
  unfoldable pub delete : Str → List (Str × V) → List (Str × V)
  delete k [] = []
  delete k ((j, v) ∷ m) = let rest = delete k m in ite (Str-discrete k j) rest ((j, v) ∷ rest)

  -- `m[k] = v`
  unfoldable pub assign : Str → V → List (Str × V) → List (Str × V)
  assign k v [] = (k, v) ∷ []
  assign k v ((j, w) ∷ m) =
      let rest = assign k v m in ite (Str-discrete k j) ((k, v) ∷ m) ((j, w) ∷ rest)

module _ {ℓ} {V : Type ℓ} where
  -- The first loop of `sweepLocked`.
  unfoldable pub drop_expired : ℕ → List (Str × Entry V) → List (Str × Entry V)
  drop_expired now [] = []
  drop_expired now ((k, e) ∷ m) =
      let rest = drop_expired now m in if ltb e.exp now then rest else (k, e) ∷ rest

  -- A round of the inner loop, over `oldestKey` and `oldestExp`.
  unfoldable pub older : Str × ℕ → Str × Entry V → Str × ℕ
  older (key, exp) (k, e) =
      if holds (Str-discrete key []) || ltb e.exp exp then (k, e.exp) else (key, exp)

  unfoldable pub oldest : List (Str × Entry V) → Str
  unfolding older
  oldest m = (foldl older ([], 0) m).0

  module _ (order : ℕ → List (Str × Entry V) → List (Str × Entry V)) where
    -- The second loop of `sweepLocked`: each round deletes an entry, so as many rounds as there are
    -- entries are enough.
    unfoldable pub evict : ℕ → List (Str × Entry V) → List (Str × Entry V)
    unfolding oldest delete
    evict zero m = m
    evict (suc fuel) m =
        let rest = evict fuel (delete (oldest (order fuel m)) m) in
        if leb max_cache_entries (length m) then rest else m

    unfoldable pub sweep : ℕ → List (Str × Entry V) → List (Str × Entry V)
    unfolding drop_expired evict
    sweep now m = let live = drop_expired now m in evict (length live) live

  -- The value of an entry that has not expired.
  unfoldable pub fresh : ℕ → Str → List (Str × Entry V) → Option V
  unfolding lookup
  fresh now key m = elim (lookup key m) [
    | none ↦ none
    | some e ↦ if ltb now e.exp then some e.val else none
  ]

-- What the first locked section of `do` decides.
pub data Decision {ℓ} (V : Type ℓ) : Type ℓ where
  uncached : Decision V
  hit : V → Decision V
  join : ℕ → Decision V
  lead : ℕ → Decision V

module _ {ℓ} {E V : Type ℓ} where
  -- `do`, up to the run of `fn` or the wait; the counters move here.
  unfoldable pub begin : ℕ → Str → Cache E V → Decision V × Cache E V
  unfolding fresh
  begin now key c = if leb_ℤ c.ttl (pos 0) then (uncached, c) else elim (fresh now key c.entries) [
    | some v ↦ (hit v, record c { hits = c.hits + 1 })
    | none ↦ elim (lookup key c.inflight) [
      | some id ↦ (join id, c)
      | none ↦
          let id = length c.calls in
          (
            lead id,
            record c {
              inflight = assign key id c.inflight;
              calls = c.calls ++ record { key = key; result = none } ∷ [];
              misses = c.misses + 1;
            },
          )
    ]
  ]

  -- `call.val, call.err = fn()` and `close(call.done)`.
  unfoldable pub publish : ℕ → Str → Outcome E V → Cache E V → Cache E V
  publish id key r c = record c { calls = set c.calls id (record { key = key; result = some r }) }

  module _ (order : ℕ → List (Str × Entry V) → List (Str × Entry V)) where
    -- The second locked section: forget the call, and keep its value if it has one. The clock is read
    -- twice under the lock, for the sweep and for the expiry; here both read `now`.
    unfoldable pub store : ℕ → Str → Outcome E V → Cache E V → Cache E V
    unfolding sweep assign delete
    store now key (ok v) c = record c {
      inflight = delete key c.inflight;
      entries =
          assign key (record { val = v; exp = now + pos_part c.ttl }) (sweep order now c.entries);
    }
    store now key (err e) c = record c { inflight = delete key c.inflight }

    -- The whole of `do` where nothing else runs: `now` is the time at its first lock, `later` at its
    -- second. A call that is in flight then never ends, and `do` waits for ever: `none`.
    unfoldable pub do_alone :
        ℕ → ℕ → Str → Outcome E V → Cache E V → Option (Outcome E V × Bool) × Cache E V
    unfolding begin publish store
    do_alone now later key fn c =
        let (decision, c') = begin now key c in
        elim decision [
          | uncached ↦ (some (fn, false), c')
          | hit v ↦ (some (ok v, true), c')
          | join id ↦ (
            Option.bind (Option.map (λ (call : Call E V). call.result) (get_elem? c'.calls id))
                (λ o. Option.map (λ r. (r, false)) o),
            c',
          )
          | lead id ↦ (some (fn, false), store later key fn (publish id key fn c'))
        ]

pub record CacheStats : Type 0 where
  pub entries : ℕ
  pub hits : ℕ
  pub misses : ℕ

unfoldable pub stats {ℓ} : {E V : Type ℓ} → Cache E V → CacheStats
stats c = record { entries = length c.entries; hits = c.hits; misses = c.misses }
