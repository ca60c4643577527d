-- ===== src/Cache/Begin.antt =====
-- The first locked section of `do` keeps the invariant.
use native.Mathlib.Decide.{ℕ_discrete}
use mathlib.Core.Logic.{if_pos}
use mathlib.Core.Path.{subst}
use eksp.Base.{
  ℕ, Str, Str-discrete, lookup, length, get_elem?, get_elem?-append, get_elem?-last,
  get_elem?-append_inv, List, [], ◌∷◌, ◌++◌, true, false, Option, none, some, ◌≡◌, ◌≢◌, refl, sym,
  ◌∙◌, ap, ◌⊎◌, inl, inr, pos, leb_ℤ, Outcome, ok, arith, Option-cases,
}
use eksp.Cache.{Entry, Cache, fresh, begin, assign}
use eksp.Cache.Maps.{lookup-assign_self, lookup-assign_ne}
use eksp.Cache.System.{
  Pc, idle, direct, waiting, running, closing, returned, dead, System, update, after_begin, moved,
}
use eksp.Cache.Invariant.{made, leads, PcOk, Inv, update-all, leads-update_ne, keep, step_quiet}

module _ {V : Type 0} where
  -- An entry that is fresh is one of the cache's.
  pub fresh_lem :
      (now : ℕ) (key : Str) (m : List (Str × Entry V)) {v : V}
      → fresh now key m ≡ some v
      → (e : Entry V) × (lookup key m ≡ some e) × (e.val ≡ v)
  unfolding fresh
  fresh_lem now key m {v} h = elim (Option-cases (lookup key m)) [
    | inl e ↦ absurd (ground (arith, h, e))
    | inr (e, at) ↦ (e, at, ground (arith, h, at))
  ]

module _ {E V : Type 0} where
  flying_as :
      (c : Cache E V) {k : Str} {b : ℕ} (j : Str) (a : ℕ) (o : Option (Outcome E V))
      → j ≡ k
      → a ≡ b
      → lookup j c.inflight ≡ some a
      → get_elem? c.calls a ≡ some (made j o)
      → (lookup k c.inflight ≡ some b)
        × (o : Option (Outcome E V)) × (get_elem? c.calls b ≡ some (made k o))
  flying_as c {k} {b} j a o same_key same_id h h' = (
    subst (λ n. lookup n c.inflight ≡ some b) same_key (h ∙ ap some same_id),
    o,
    subst (λ n. get_elem? c.calls n ≡ some (made k o)) same_id
        (h' ∙ ap (λ n. some (made n o)) same_key),
  )

  flying_still :
      (c : Cache E V) (key k : Str) (a id : ℕ)
      → lookup key c.inflight ≡ none
      → lookup k c.inflight ≡ some a
      → lookup k (assign key id c.inflight) ≡ some a
  flying_still c key k a id free h =
      lookup-assign_ne k key id c.inflight (λ e.
        let no : none ≡ some a = sym free ∙ subst (λ n. lookup n c.inflight ≡ some a) e h in
        ground (arith, no))
      ∙ h

  -- Who leads a call has it in flight.
  pub leads-flying :
      (c : Cache E V) (p : Pc E V) (k : Str) (b : ℕ)
      → PcOk c p
      → leads p ≡ some (k, b)
      → (lookup k c.inflight ≡ some b)
        × (o : Option (Outcome E V)) × (get_elem? c.calls b ≡ some (made k o))
  leads-flying c idle k b h l = absurd (ground (arith, l))
  leads-flying c (direct j) k b h l = absurd (ground (arith, l))
  leads-flying c (waiting j a) k b h l = absurd (ground (arith, l))
  leads-flying c (running j a) k b (h, h') l =
      flying_as c j a none (ground (arith, l)) (ground (arith, l)) h h'
  leads-flying c (closing j a q) k b (h, h') l =
      flying_as c j a (some q) (ground (arith, l)) (ground (arith, l)) h h'
  leads-flying c (returned j q cached) k b h l = absurd (ground (arith, l))
  leads-flying c (dead j a) k b (h, h') l =
      flying_as c j a none (ground (arith, l)) (ground (arith, l)) h h'

  PcOk-add :
      (c d : Cache E V) (key : Str) (p : Pc E V)
      → d.calls ≡ c.calls ++ made key none ∷ []
      → d.inflight ≡ assign key (length c.calls) c.inflight
      → lookup key c.inflight ≡ none
      → PcOk c p
      → PcOk d p
  PcOk-add c d key idle calls inflight free h = tt
  PcOk-add c d key (direct k) calls inflight free h = h
  PcOk-add c d key (waiting k a) calls inflight free (o, h) =
      (o, rw calls (get_elem?-append c.calls _ a h))
  PcOk-add c d key (running k a) calls inflight free (h, h') = (
    rw inflight (flying_still c key k a (length c.calls) free h),
    rw calls (get_elem?-append c.calls _ a h'),
  )
  PcOk-add c d key (closing k a q) calls inflight free (h, h') = (
    rw inflight (flying_still c key k a (length c.calls) free h),
    rw calls (get_elem?-append c.calls _ a h'),
  )
  PcOk-add c d key (returned k q cached) calls inflight free (a, h) =
      (a, rw calls (get_elem?-append c.calls _ a h))
  PcOk-add c d key (dead k a) calls inflight free (h, h') = (
    rw inflight (flying_still c key k a (length c.calls) free h),
    rw calls (get_elem?-append c.calls _ a h'),
  )

  leads-update_new :
      (pc : ℕ → Pc E V) (i : ℕ) (p : Pc E V) (j : ℕ) {x : Str × ℕ}
      → leads (update pc i p j) ≡ some x
      → ((i ≡ j) × (leads p ≡ some x)) ⊎ (leads (pc j) ≡ some x)
  leads-update_new pc i p j {x} l = elim (ℕ_discrete i j) [
    | yes e ↦ inl (e, subst (λ q. leads q ≡ some x) (if_pos (ℕ_discrete i j) e p (pc j)) l)
    | no ne ↦ inr (sym (leads-update_ne pc i p j ne) ∙ l)
  ]

  not_taken :
      (s : System E V) (h : Inv s) (key : Str) (free : lookup key s.cache.inflight ≡ none) (j : ℕ)
      (k : Str) (b : ℕ)
      → leads (s.pc j) ≡ some (k, b)
      → key ≢ k
  not_taken s h key free j k b l e =
      let no : none ≡ some b =
        sym free
        ∙ subst (λ n. lookup n s.cache.inflight ≡ some b) (sym e)
            (leads-flying s.cache (s.pc j) k b (h.pcs j) l).0 in
      ground (arith, no)

  lead-Inv :
      (s : System E V) (i : ℕ) (key : Str) (c : Cache E V)
      → Inv s
      → s.pc i ≡ idle
      → lookup key s.cache.inflight ≡ none
      → c.ttl ≡ s.cache.ttl
      → c.entries ≡ s.cache.entries
      → c.inflight ≡ assign key (length s.cache.calls) s.cache.inflight
      → c.calls ≡ s.cache.calls ++ made key none ∷ []
      → Inv (moved s c i (running key (length s.cache.calls)))
  lead-Inv s i key c h e free ttl entries inflight calls =
      let id = length s.cache.calls in
      let p : Pc E V = running key id in
      let mine : lookup key c.inflight ≡ some id =
        rw inflight (lookup-assign_self key key id s.cache.inflight refl) in
      record {
        positive = rw ttl h.positive;
        is_map = rw entries h.is_map;
        bounded = rw entries h.bounded;
        pcs =
            update-all (PcOk c) s.pc i p
              (mine, rw calls (get_elem?-last s.cache.calls (made key none)))
              (λ j ne. PcOk-add s.cache c key (s.pc j) calls inflight free (h.pcs j));
        leader = λ k a found. elim (Str-discrete k key) [
          | yes e' ↦
              let same : some id ≡ some a =
                sym mine ∙ subst (λ n. lookup n c.inflight ≡ some a) e' found in
              (
                i,
                ap leads (if_pos (ℕ_discrete i i) refl p (s.pc i))
                    ∙ ap (λ n. some (n, id)) (sym e')
                    ∙ ap (λ n. some (k, n)) (ground (arith, same)),
              )
          | no ne ↦
              let was =
                sym (lookup-assign_ne k key id s.cache.inflight ne) ∙ rw inflight at found in
              let (j, l) = h.leader k a was in
              (
                j,
                leads-update_ne s.pc i p j (λ q.
                      let no : none ≡ some (k, a) =
                        sym (ap leads e) ∙ subst (λ n. leads (s.pc n) ≡ some (k, a)) (sym q) l in
                      ground (arith, no))
                    ∙ l,
              )
        ];
        unique = λ j j' k a b l l'. elim (leads-update_new s.pc i p j l) [
          | inl (q, new) ↦ elim (leads-update_new s.pc i p j' l') [
            | inl (q', _) ↦ sym q ∙ q'
            | inr was ↦ absurd (not_taken s h key free j' k b was (ground (arith, new)))
          ]
          | inr was ↦ elim (leads-update_new s.pc i p j' l') [
            | inl (_, new) ↦ absurd (not_taken s h key free j k a was (ground (arith, new)))
            | inr was' ↦ h.unique j j' k a b was was'
          ]
        ];
        in_flight = λ k a pending.
            elim (get_elem?-append_inv s.cache.calls (made key none) a (rw calls at pending)) [
              | inl was ↦ rw inflight (flying_still s.cache key k a id free (h.in_flight k a was))
              | inr (q, new) ↦
                  subst (λ n. lookup k c.inflight ≡ some n) (sym q)
                    (subst (λ n. lookup n c.inflight ≡ some id) (ground (arith, new)) mine)
            ];
        cached = λ k f found.
            let (a, done) = h.cached k f (rw entries at found) in
            (a, rw calls (get_elem?-append s.cache.calls _ a done));
        timely = λ k f found. rw ttl (h.timely k f (rw entries at found));
      }

  pub begin-Inv :
      (s : System E V) (i : ℕ) (key : Str)
      → Inv s
      → s.pc i ≡ idle
      → Inv (moved s (begin s.now key s.cache).1 i (after_begin key (begin s.now key s.cache).0))
  unfolding begin
  begin-Inv s i key h e =
      let on : leb_ℤ s.cache.ttl (pos 0) ≡ false = ground (arith, h.positive) in
      elim (Option-cases (fresh s.now key s.cache.entries)) [
        | inl stale ↦ elim (Option-cases (lookup key s.cache.inflight)) [
          | inl free ↦ rw on (rw stale (rw free (lead-Inv s i key _ h e free refl refl refl refl)))
          | inr (id, flying) ↦
              let (j, l) = h.leader key id flying in
              let (_, o, call) = leads-flying s.cache (s.pc j) key id (h.pcs j) l in
              rw on (
                rw stale
                  (rw flying (step_quiet s i (waiting key id) h (sym (ap leads e)) (o, call))))
        ]
        | inr (v, found) ↦
            let (x, at, same) = fresh_lem s.now key s.cache.entries found in
            let (id, done) = h.cached key x at in
            rw on (
              rw found (
                keep s h i (returned key (ok v) true) _ (sym (ap leads e)) refl refl refl
                  (id, done ∙ ap (λ n. some (made key (some (ok n)))) same) (λ j ne. h.pcs j)
                  (λ k a q. q) (λ k a r q. q)))
      ]
