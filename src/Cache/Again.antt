-- ===== src/Cache/Again.antt =====
-- `do` called twice for a key, with nothing in between.
use eksp.Base.{
  ℕ, ◌+◌, ◌≤◌, Str, lookup, length, List, [], ◌∷◌, ◌++◌, true, false, none, some, ◌≡◌, refl, ◌∙◌,
  ap, inl, inr, pos, pos_part, leb_ℤ, ltb, if◌then◌else◌, ◌≤ℤ◌, Outcome, ok, err, arith,
  Option-cases, Bool-cases,
}
use eksp.Cache.{Entry, Cache, Decision, lead, fresh, begin, publish, store, do_alone, assign, sweep}
use eksp.Cache.Maps.{lookup-delete, lookup-assign_self}

module _ {V : Type 0} where
  fresh-assign :
      (t : ℕ) (key : Str) (e : Entry V) (m : List (Str × Entry V))
      → fresh t key (assign key e m) ≡ (if ltb t e.exp then some e.val else none)
  unfolding fresh
  fresh-assign t key e m = rw (fresh, lookup-assign_self key key e m refl) refl

  -- What is not fresh is not fresh later.
  fresh_later :
      (now t : ℕ) (key : Str) (m : List (Str × Entry V))
      → now ≤ t
      → fresh now key m ≡ none
      → fresh t key m ≡ none
  unfolding fresh
  fresh_later now t key m le stale = elim (Option-cases (lookup key m)) [
    | inl e ↦ rw (fresh, e) refl
    | inr (e, at) ↦
        let old : (if ltb now e.exp then some e.val else none) ≡ none = rw (fresh, at) at stale in
        rw (fresh, at) (ground (arith, old))
  ]

module _ {E V : Type 0} (order : ℕ → List (Str × Entry V) → List (Str × Entry V)) where
  -- The cache after the first locked section of a goroutine that goes on to run `fn`.
  abbrev led : Str → Cache E V → Cache E V
  led key c = record c {
    inflight = assign key (length c.calls) c.inflight;
    calls = c.calls ++ record { key = key; result = none } ∷ [];
    misses = c.misses + 1;
  }

  begin-lead :
      (now : ℕ) (key : Str) (c : Cache E V)
      → pos 1 ≤ℤ c.ttl
      → fresh now key c.entries ≡ none
      → lookup key c.inflight ≡ none
      → begin now key c ≡ (lead (length c.calls), led key c)
  unfolding begin
  begin-lead now key c on stale free =
      let enabled : leb_ℤ c.ttl (pos 0) ≡ false = ground (arith, on) in
      rw (begin, enabled, stale, free) refl

  -- A `do` that finds no fresh entry and no call in flight runs `fn`.
  do_alone-lead :
      (now later : ℕ) (key : Str) (r : Outcome E V) (c : Cache E V)
      → pos 1 ≤ℤ c.ttl
      → fresh now key c.entries ≡ none
      → lookup key c.inflight ≡ none
      → do_alone order now later key r c
        ≡ (some (r, false), store order later key r (publish (length c.calls) key r (led key c)))
  unfolding do_alone
  do_alone-lead now later key r c on stale free =
      let led_on = begin-lead now key c on stale free in
      rw (do_alone, led_on)
        (ap
          (λ (x : Decision V × Cache E V).
            (some (r, false), store order later key r (publish (length c.calls) key r x.1)))
          led_on)

  do_alone-hit :
      (now later : ℕ) (key : Str) (r : Outcome E V) (c : Cache E V) {v : V}
      → pos 1 ≤ℤ c.ttl
      → fresh now key c.entries ≡ some v
      → (do_alone order now later key r c).0 ≡ some (ok v, true)
  unfolding do_alone begin
  do_alone-hit now later key r c {v} on found =
      let enabled : leb_ℤ c.ttl (pos 0) ≡ false = ground (arith, on) in
      rw (do_alone, begin, enabled, found) refl

  -- Where no other goroutine runs and the time-to-live is positive: a `do` that finds no fresh entry
  -- returns what `fn` returns; a `do` for the same key after it returns that value from the cache, up
  -- to the time-to-live, and runs its own `fn` from then on, and at once if the first `fn` failed.
  pub do_alone-again :
      (now later t u : ℕ) (key : Str) (r q : Outcome E V) (c : Cache E V)
      → pos 1 ≤ℤ c.ttl
      → fresh now key c.entries ≡ none
      → lookup key c.inflight ≡ none
      → now ≤ t
      → ((do_alone order now later key r c).0 ≡ some (r, false))
        × ((do_alone order t u key q (do_alone order now later key r c).1).0 ≡ elim r [
          | ok v ↦ if ltb t (later + pos_part c.ttl) then some (ok v, true) else some (q, false)
          | err e ↦ some (q, false)
        ])
  unfolding store publish
  do_alone-again now later t u key (ok v) q c on stale free le =
      let run = do_alone-lead now later key (ok v) c on stale free in
      let d = publish (length c.calls) key (ok v) (led key c) in
      let c' = store order later key (ok v) d in
      let exp = later + pos_part c.ttl in
      let seen = fresh-assign t key (record { val = v; exp = exp }) (sweep order later c.entries) in
      (
        rw run refl,
        rw run (elim (Bool-cases (ltb t exp)) [
          | inl before ↦ rw before (do_alone-hit t u key q c' on (seen ∙ rw before refl))
          | inr after ↦ rw after (
              ap (λ x. x.0)
                (do_alone-lead t u key q c' on (seen ∙ rw after refl)
                  (ground (arith, lookup-delete key key d.inflight))))
        ]),
      )
  do_alone-again now later t u key (err e) q c on stale free le =
      let run = do_alone-lead now later key (err e) c on stale free in
      let d = publish (length c.calls) key (err e) (led key c) in
      let c' = store order later key (err e) d in
      (
        rw run refl,
        rw run (
            ap (λ x. x.0)
              (do_alone-lead t u key q c' on (fresh_later now t key c.entries le stale)
                (ground (arith, lookup-delete key key d.inflight)))),
      )
