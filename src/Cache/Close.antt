-- ===== src/Cache/Close.antt =====
-- The second locked section of `do` keeps the invariant.
use mathlib.Core.Path.{subst}
use eksp.Base.{
  ℕ, ◌+◌, ◌≤◌, Str, Str-discrete, lookup, length, get_elem?, List, false, none, some, ◌≡◌, ◌≢◌,
  refl, sym, ◌∙◌, ap, ◌⊎◌, inl, inr, pos_part, Outcome, ok, err, arith,
}
use eksp.Cache.{max_cache_entries, Entry, Cache, store, delete, sweep}
use eksp.Cache.Maps.{
  IsMap, assign-IsMap, lookup-delete_ne, lookup-delete_inv, lookup-assign_self, lookup-assign_ne,
  length-assign-le,
}
use eksp.Cache.Sweep.{sweep-lookup, sweep-IsMap, sweep-lt}
use eksp.Cache.Oldest.{IsOrder}
use eksp.Cache.System.{Pc, idle, direct, waiting, running, closing, returned, dead, System, moved}
use eksp.Cache.Invariant.{made, leads, PcOk, Inv, update-all, leads-update_ne, leads-update_quiet}

module _ {E V : Type 0} where
  -- A call that has ended is none that has not.
  same_done :
      (c : Cache E V) (a id : ℕ) {k key : Str} {r : Outcome E V}
      → a ≡ id
      → get_elem? c.calls a ≡ some (made k none)
      → get_elem? c.calls id ≢ some (made key (some r))
  same_done c a id {k} {key} {r} e pending done =
      let no : some (made k none) ≡ some (made key (some r)) =
        sym (subst (λ n. get_elem? c.calls n ≡ some (made k none)) e pending) ∙ done in
      ground (arith, no)

  -- A goroutine that leads no call for `key` does not notice that `key` is deleted.
  PcOk-delete :
      (c d : Cache E V) (key : Str) (p : Pc E V)
      → d.calls ≡ c.calls
      → d.inflight ≡ delete key c.inflight
      → ((b : ℕ) → leads p ≢ some (key, b))
      → PcOk c p
      → PcOk d p
  PcOk-delete c d key idle calls inflight other h = tt
  PcOk-delete c d key (direct k) calls inflight other h = h
  PcOk-delete c d key (waiting k a) calls inflight other h = rw calls h
  PcOk-delete c d key (running k a) calls inflight other (h, h') = (
    rw inflight (lookup-delete_ne k key c.inflight (λ e. other a (ap (λ j. some (j, a)) e)) ∙ h),
    rw calls h',
  )
  PcOk-delete c d key (closing k a q) calls inflight other (h, h') = (
    rw inflight (lookup-delete_ne k key c.inflight (λ e. other a (ap (λ j. some (j, a)) e)) ∙ h),
    rw calls h',
  )
  PcOk-delete c d key (returned k q cached) calls inflight other h = rw calls h
  PcOk-delete c d key (dead k a) calls inflight other (h, h') = (
    rw inflight (lookup-delete_ne k key c.inflight (λ e. other a (ap (λ j. some (j, a)) e)) ∙ h),
    rw calls h',
  )

  module _ (order : ℕ → List (Str × Entry V) → List (Str × Entry V)) (any : IsOrder order)
      (s : System E V) (h : Inv s) (key : Str) where
    store-ttl : (r : Outcome E V) → (store order s.now key r s.cache).ttl ≡ s.cache.ttl
    unfolding store
    store-ttl (ok v) = refl
    store-ttl (err e) = refl

    store-calls : (r : Outcome E V) → (store order s.now key r s.cache).calls ≡ s.cache.calls
    unfolding store
    store-calls (ok v) = refl
    store-calls (err e) = refl

    store-inflight :
        (r : Outcome E V) → (store order s.now key r s.cache).inflight ≡ delete key s.cache.inflight
    unfolding store
    store-inflight (ok v) = refl
    store-inflight (err e) = refl

    store-IsMap : (r : Outcome E V) → IsMap (store order s.now key r s.cache).entries
    unfolding store
    store-IsMap (ok v) = assign-IsMap key _ _ (sweep-IsMap order s.now s.cache.entries any h.is_map)
    store-IsMap (err e) = h.is_map

    store-le :
        (r : Outcome E V) → length (store order s.now key r s.cache).entries ≤ max_cache_entries
    unfolding store
    store-le (ok v) =
        let added =
          length-assign-le key (record { val = v; exp = s.now + pos_part s.cache.ttl })
            (sweep order s.now s.cache.entries) in
        omega (arith, added, sweep-lt order s.now s.cache.entries any)
    store-le (err e) = h.bounded

    -- An entry is the one that was stored, or was there.
    store-entry :
        (r : Outcome E V) (k : Str) (e : Entry V)
        → lookup k (store order s.now key r s.cache).entries ≡ some e
        → ((k ≡ key) × (r ≡ ok e.val) × (e.exp ≡ s.now + pos_part s.cache.ttl))
          ⊎ (lookup k s.cache.entries ≡ some e)
    unfolding store
    store-entry (ok v) k e found = elim (Str-discrete k key) [
      | yes p ↦
          let new : Entry V = record { val = v; exp = s.now + pos_part s.cache.ttl } in
          let same : some new ≡ some e =
            sym (lookup-assign_self k key new (sweep order s.now s.cache.entries) p) ∙ found in
          inl (p, ground (arith, same), ground (arith, same))
      | no ne ↦ inr (
          sweep-lookup order s.now s.cache.entries k any h.is_map
            (sym (lookup-assign_ne k key _ (sweep order s.now s.cache.entries) ne) ∙ found))
    ]
    store-entry (err x) k e found = inr found

    pub store-Inv :
        (i id : ℕ) (r : Outcome E V)
        → s.pc i ≡ closing key id r
        → Inv (moved s (store order s.now key r s.cache) i (returned key r false))
    store-Inv i id r e =
        let c = store order s.now key r s.cache in
        let p : Pc E V = returned key r false in
        let (flying, at) = subst (PcOk s.cache) e (h.pcs i) in
        let lead_i : leads (s.pc i) ≡ some (key, id) = ap leads e in
        record {
          positive = rw (store-ttl r) h.positive;
          is_map = store-IsMap r;
          bounded = store-le r;
          pcs =
              update-all (PcOk c) s.pc i p (id, rw (store-calls r) at)
                (λ j ne.
                  PcOk-delete s.cache c key (s.pc j) (store-calls r) (store-inflight r)
                    (λ b l. ne (h.unique i j key id b lead_i l)) (h.pcs j));
          leader = λ k a found.
              let (ne, was) =
                lookup-delete_inv k key s.cache.inflight (rw (store-inflight r) at found) in
              let (j, l) = h.leader k a was in
              (
                j,
                leads-update_ne s.pc i p j (λ q.
                      let same : some (key, id) ≡ some (k, a) =
                        sym lead_i ∙ subst (λ n. leads (s.pc n) ≡ some (k, a)) (sym q) l in
                      ne (ground (arith, same)))
                    ∙ l,
              );
          unique = λ j j' k a b l l'.
              h.unique j j' k a b (leads-update_quiet s.pc i p j refl l).1
                (leads-update_quiet s.pc i p j' refl l').1;
          in_flight = λ k a pending.
              let was = h.in_flight k a (rw (store-calls r) at pending) in
              rw (store-inflight r) (
                lookup-delete_ne k key s.cache.inflight (λ q.
                  let same_id : some a ≡ some id =
                    sym (subst (λ n. lookup n s.cache.inflight ≡ some a) q was) ∙ flying in
                  let no =
                    (same_done s.cache a id (ground (arith, same_id))
                      (rw (store-calls r) at pending) at) in
                  no)
                ∙ was);
          cached = λ k f found. elim (store-entry r k f found) [
            | inl (p, q, _) ↦ (
              id,
              rw (store-calls r)
                  (at ∙ ap some (ap (λ n. made n (some r)) (sym p) ∙ ap (λ o. made k (some o)) q)),
            )
            | inr was ↦ let (a, done) = h.cached k f was in (a, rw (store-calls r) done)
          ];
          timely = λ k f found. elim (store-entry r k f found) [
            | inl (_, _, q) ↦ rw (store-ttl r) (omega (arith, q))
            | inr was ↦ rw (store-ttl r) (h.timely k f was)
          ];
        }
