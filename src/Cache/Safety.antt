-- ===== src/Cache/Safety.antt =====
-- What goroutines that share a cache can rely on, whatever the interleaving.
use native.Mathlib.Decide.{ℕ_discrete}
use mathlib.Core.Logic.{if_neg}
use mathlib.Core.Path.{subst}
use eksp.Base.{
  ℕ, ◌+◌, ◌≤◌, Str, lookup, length, get_elem?, Bool, false, none, some, ◌≡◌, ◌≢◌, sym, ◌∙◌, ap, ◌⊎◌,
  inl, inr, ℤ, pos, pos_part, ◌≤ℤ◌, Outcome, ok, arith, Option-cases,
}
use eksp.Cache.{new_cache, max_cache_entries, Entry, Call, Cache}
use eksp.Cache.Maps.{IsMap}
use eksp.Cache.Begin.{begin-Inv, leads-flying}
use eksp.Cache.Close.{store-Inv}
use eksp.Cache.Steps.{finish-Inv}
use eksp.Cache.System.{
  Pc, idle, direct, waiting, running, closing, returned, dead, System, update, Step, init, Reach,
  here, next, call, run_direct, finish, panic, wake, close, leave, tick,
}
use eksp.Cache.Invariant.{made, leads, PcOk, Inv, step_quiet}

module _ {E V : Type 0} where
  tick-Inv : (s : System E V) (d : ℕ) → Inv s → Inv (record s { now = s.now + d })
  tick-Inv s d h = record {
    positive = h.positive;
    is_map = h.is_map;
    bounded = h.bounded;
    pcs = h.pcs;
    leader = h.leader;
    unique = h.unique;
    in_flight = h.in_flight;
    cached = h.cached;
    timely = λ k e found. omega (arith, h.timely k e found);
  }

  woken :
      (c : Cache E V) (key : Str) (id : ℕ) (d : Call E V) (r : Outcome E V)
      → PcOk c (waiting key id)
      → get_elem? c.calls id ≡ some d
      → d.result ≡ some r
      → (a : ℕ) × (get_elem? c.calls a ≡ some (made key (some r)))
  woken c key id d r (o, was) at done =
      let same : some (made key o) ≡ some d = sym was ∙ at in
      (id, was ∙ ap (λ n. some (made key n)) (ground (arith, same, done)))

  Step-Inv : (s t : System E V) → Step s t → Inv s → Inv t
  Step-Inv s t (call i key e) h = begin-Inv s i key h e
  Step-Inv s t (run_direct i key r e) h = absurd (subst (PcOk s.cache) e (h.pcs i))
  Step-Inv s t (finish i key id r e) h = finish-Inv s i key id r h e
  Step-Inv s t (panic i key id e) h =
      step_quiet s i (dead key id) h (sym (ap leads e)) (subst (PcOk s.cache) e (h.pcs i))
  Step-Inv s t (wake i key id c r e at done) h =
      step_quiet s i (returned key r false) h (sym (ap leads e))
        (woken s.cache key id c r (subst (PcOk s.cache) e (h.pcs i)) at done)
  Step-Inv s t (close i key id r order any e) h = store-Inv order any s h key i id r e
  Step-Inv s t (leave i key r cached e) h = step_quiet s i idle h (sym (ap leads e)) tt
  Step-Inv s t (tick d) h = tick-Inv s d h

  pub init-Inv : (ttl : ℤ) → pos 1 ≤ℤ ttl → Inv {E = E} {V = V} (init ttl)
  unfolding new_cache lookup
  init-Inv ttl on = record {
    positive = on;
    is_map = tt;
    bounded = omega arith;
    pcs = λ i. tt;
    leader = λ k id e. absurd (ground (arith, e));
    unique = λ i j k a b e. absurd (ground (arith, e));
    in_flight = λ k id e. absurd (ground (arith, e));
    cached = λ k e found. absurd (ground (arith, found));
    timely = λ k e found. absurd (ground (arith, found));
  }

  pub Reach-Inv : (s t : System E V) → Inv s → Reach s t → Inv t
  Reach-Inv s t h here = h
  Reach-Inv s t h (next {t = u} reach step) = Step-Inv u t step (Reach-Inv s u h reach)

  running_or_dead :
      (c : Cache E V) (p : Pc E V) (key : Str) (id : ℕ)
      → PcOk c p
      → leads p ≡ some (key, id)
      → get_elem? c.calls id ≡ some (made key none)
      → (p ≡ running key id) ⊎ (p ≡ dead key id)
  running_or_dead c idle key id h l pending = absurd (ground (arith, l))
  running_or_dead c (direct k) key id h l pending = absurd (ground (arith, l))
  running_or_dead c (waiting k a) key id h l pending = absurd (ground (arith, l))
  running_or_dead c (running k a) key id h l pending = inl (ground (arith, l))
  running_or_dead c (closing k a r) key id (h, h') l pending =
      let same_id : a ≡ id = ground (arith, l) in
      let no : some (made k (some r)) ≡ some (made key none) =
        sym (subst (λ n. get_elem? c.calls n ≡ some (made k (some r))) same_id h') ∙ pending in
      absurd (ground (arith, no))
  running_or_dead c (returned k r cached) key id h l pending = absurd (ground (arith, l))
  running_or_dead c (dead k a) key id h l pending = inr (ground (arith, l))

  -- Another goroutine than the one that panicked has moved.
  still_dead :
      (pc : ℕ → Pc E V) (i j : ℕ) (p : Pc E V) {key : Str} {id : ℕ}
      → pc i ≡ dead key id
      → pc j ≢ dead key id
      → update pc j p i ≡ dead key id
  still_dead pc i j p {key} {id} e other = elim (ℕ_discrete j i) [
    | yes q ↦ absurd (other (subst (λ n. pc n ≡ dead key id) (sym q) e))
    | no ne ↦ if_neg (ℕ_discrete j i) ne p (pc i) ∙ e
  ]

  dead-Step :
      (s t : System E V) (i : ℕ) (key : Str) (id : ℕ)
      → s.pc i ≡ dead key id
      → Step s t
      → t.pc i ≡ dead key id
  dead-Step s t i key id e (call j k q) = still_dead s.pc i j _ e (λ d. ground (arith, sym q ∙ d))
  dead-Step s t i key id e (run_direct j k r q) =
      still_dead s.pc i j _ e (λ d. ground (arith, sym q ∙ d))
  dead-Step s t i key id e (finish j k a r q) =
      still_dead s.pc i j _ e (λ d. ground (arith, sym q ∙ d))
  dead-Step s t i key id e (panic j k a q) =
      still_dead s.pc i j _ e (λ d. ground (arith, sym q ∙ d))
  dead-Step s t i key id e (wake j k a c r q at done) =
      still_dead s.pc i j _ e (λ d. ground (arith, sym q ∙ d))
  dead-Step s t i key id e (close j k a r order any q) =
      still_dead s.pc i j _ e (λ d. ground (arith, sym q ∙ d))
  dead-Step s t i key id e (leave j k r cached q) =
      still_dead s.pc i j _ e (λ d. ground (arith, sym q ∙ d))
  dead-Step s t i key id e (tick d) = e

  dead_stays :
      (s t : System E V) (i : ℕ) (key : Str) (id : ℕ)
      → s.pc i ≡ dead key id
      → Reach s t
      → t.pc i ≡ dead key id
  dead_stays s t i key id e here = e
  dead_stays s t i key id e (next {t = u} reach step) =
      dead-Step u t i key id (dead_stays s u i key id e reach) step

  -- At most one goroutine at a time runs `fn` for a key, or has run it and not yet taken the second
  -- lock, or panicked in it: from a new cache with a positive time-to-live, two that do are the same,
  -- and lead the same call.
  pub at_most_one_leader :
      (ttl : ℤ) (s : System E V) (i j : ℕ) (key : Str) (a b : ℕ)
      → pos 1 ≤ℤ ttl
      → Reach (init ttl) s
      → leads (s.pc i) ≡ some (key, a)
      → leads (s.pc j) ≡ some (key, b)
      → (i ≡ j) × (a ≡ b)
  at_most_one_leader ttl s i j key a b on reach e e' =
      let h = Reach-Inv (init ttl) s (init-Inv ttl on) reach in
      let (one, _, _) = leads-flying s.cache (s.pc i) key a (h.pcs i) e in
      let (two, _, _) = leads-flying s.cache (s.pc j) key b (h.pcs j) e' in
      (h.unique i j key a b e e', ground (arith, one, two))

  -- In every state that a new cache with a positive time-to-live can come to, there are at most
  -- `maxCacheEntries` entries, each key has one, and each entry expires at most the time-to-live from
  -- now and holds a value that `fn` returned, without an error, in a call for its key.
  pub entries_sound :
      (ttl : ℤ) (s : System E V)
      → pos 1 ≤ℤ ttl
      → Reach (init ttl) s
      → (length s.cache.entries ≤ max_cache_entries)
        × IsMap s.cache.entries
        × ((key : Str) (e : Entry V)
            → lookup key s.cache.entries ≡ some e
            → (e.exp ≤ s.now + pos_part s.cache.ttl)
              × (id : ℕ) × (get_elem? s.cache.calls id ≡ some (made key (some (ok e.val)))))
  entries_sound ttl s on reach =
      let h = Reach-Inv (init ttl) s (init-Inv ttl on) reach in
      (
        h.bounded,
        h.is_map,
        λ key e found. let (id, at) = h.cached key e found in (h.timely key e found, id, at),
      )

  -- From a new cache with a positive time-to-live, a goroutine returns for `key` only what a call for
  -- `key` ended with, be it from the cache, by waiting or by its own run of `fn`.
  pub returned_sound :
      (ttl : ℤ) (s : System E V) (i : ℕ) (key : Str) (r : Outcome E V) (cached : Bool)
      → pos 1 ≤ℤ ttl
      → Reach (init ttl) s
      → s.pc i ≡ returned key r cached
      → (id : ℕ) × (get_elem? s.cache.calls id ≡ some (made key (some r)))
  returned_sound ttl s i key r cached on reach e =
      let h = Reach-Inv (init ttl) s (init-Inv ttl on) reach in subst (PcOk s.cache) e (h.pcs i)

  -- From a new cache with a positive time-to-live, a goroutine that waits for a call waits for one
  -- that has ended, or that some goroutine runs, or that a panic has left.
  pub waiting_lem :
      (ttl : ℤ) (s : System E V) (i : ℕ) (key : Str) (id : ℕ)
      → pos 1 ≤ℤ ttl
      → Reach (init ttl) s
      → s.pc i ≡ waiting key id
      → ((r : Outcome E V) × (get_elem? s.cache.calls id ≡ some (made key (some r))))
        ⊎ ((j : ℕ) × ((s.pc j ≡ running key id) ⊎ (s.pc j ≡ dead key id)))
  waiting_lem ttl s i key id on reach e =
      let h = Reach-Inv (init ttl) s (init-Inv ttl on) reach in
      let (o, at) = subst (PcOk s.cache) e (h.pcs i) in
      elim (Option-cases o) [
        | inl open_call ↦
            let pending : get_elem? s.cache.calls id ≡ some (made key none) =
              at ∙ ap (λ n. some (made key n)) open_call in
            let (j, l) = h.leader key id (h.in_flight key id pending) in
            inr (j, running_or_dead s.cache (s.pc j) key id (h.pcs j) l pending)
        | inr (r, ended) ↦ inl (r, at ∙ ap (λ n. some (made key n)) ended)
      ]

  -- From a new cache with a positive time-to-live, a panic in `fn` is never cleaned up: in whatever
  -- comes after it, the goroutine stays as it is, and its call stays in flight and does not end.
  pub panic_stays :
      (ttl : ℤ) (s t : System E V) (i : ℕ) (key : Str) (id : ℕ)
      → pos 1 ≤ℤ ttl
      → Reach (init ttl) s
      → s.pc i ≡ dead key id
      → Reach s t
      → (t.pc i ≡ dead key id)
        × (lookup key t.cache.inflight ≡ some id)
        × (get_elem? t.cache.calls id ≡ some (made key none))
  panic_stays ttl s t i key id on reach e after =
      let h = Reach-Inv s t (Reach-Inv (init ttl) s (init-Inv ttl on) reach) after in
      let still = dead_stays s t i key id e after in
      let (flying, at) = subst (PcOk t.cache) still (h.pcs i) in (still, flying, at)
