-- ===== src/Service/Assertions.antt =====
-- The type assertions `val.(Series)` and `val.(Summary)` on what the shared cache returns.
use mathlib.Core.Path.{subst}
use eksp.Base.{
  ℕ, zero, suc, Str, get_elem?, get_elem?-append_inv, lookup, set, List, [], ◌∷◌, Bool, none, some,
  ◌≡◌, refl, sym, ap, ◌∙◌, ◌⊎◌, inl, inr, ℤ, pos, leb_ℤ, ◌≤ℤ◌, Outcome, ok, err, arith,
  Option-cases, Bool-cases,
}
use eksp.Query.{Query, cache_key}
use eksp.Query.Key.{cache_key-ne-summary}
use eksp.Aggregate.{Series}
use eksp.Cache.{new_cache, Entry, Call, Cache, begin, publish, store, fresh}
use eksp.Cache.Invariant.{made}
use eksp.Cache.System.{
  returned, System, init, Reach, here, next, call, run_direct, finish, panic, wake, close, leave,
  tick,
}
use eksp.Cache.Safety.{returned_sound}
use eksp.Fetch.{Failure}
use eksp.Summary.{Summary}
use eksp.Service.Again.{marked, read_series-boxed}
use eksp.Service.{Value, of_series, of_summary, read_series, read_summary, boxed, summary_key}

module _ {E V : Type 0} where
  get_elem?-set_inv :
      (cs : List (Call E V)) (i j : ℕ) (v : Call E V) {b : Call E V}
      → get_elem? (set cs i v) j ≡ some b
      → (get_elem? cs j ≡ some b) ⊎ (v ≡ b)
  get_elem?-set_inv [] i j v h = inl h
  get_elem?-set_inv (c ∷ cs) zero zero v h = inr (ground (arith, h))
  get_elem?-set_inv (c ∷ cs) zero (suc j) v h = inl h
  get_elem?-set_inv (c ∷ cs) (suc i) zero v h = inl h
  get_elem?-set_inv (c ∷ cs) (suc i) (suc j) v h = get_elem?-set_inv cs i j v h

  -- A call that has ended stood there before `begin`.
  begin-ended :
      (now : ℕ) (k : Str) (c : Cache E V) (id : ℕ) (key : Str) (r : Outcome E V)
      → get_elem? (begin now k c).1.calls id ≡ some (made key (some r))
      → get_elem? c.calls id ≡ some (made key (some r))
  unfolding begin
  begin-ended now k c id key r = elim (Bool-cases (leb_ℤ c.ttl (pos 0))) [
    | inl off ↦ rw (begin, off) (λ h. h)
    | inr on ↦ elim (Option-cases (fresh now k c.entries)) [
      | inr (v, e) ↦ rw (begin, on, e) (λ h. h)
      | inl stale ↦ elim (Option-cases (lookup k c.inflight)) [
        | inr (i, e) ↦ rw (begin, on, stale, e) (λ h. h)
        | inl free ↦
            rw (begin, on, stale, free)
              (λ h. elim (get_elem?-append_inv c.calls (made k none) id h) [
                | inl was ↦ was
                | inr (_, same) ↦ absurd (ground (arith, same))
              ])
      ]
    ]
  ]

  store-calls :
      (order : ℕ → List (Str × Entry V) → List (Str × Entry V)) (now : ℕ) (key : Str)
      (r : Outcome E V) (c : Cache E V)
      → (store order now key r c).calls ≡ c.calls
  unfolding store
  store-calls order now key (ok v) c = refl
  store-calls order now key (err e) c = refl

  module _ (P : Str → Outcome E V → Type 0) where
    -- Every run of `fn` on the way ended with what `P` allows for its key.
    abbrev pub Ends : (s t : System E V) → Reach s t → Type 0
    Ends s t here = Unit
    Ends s t (next {t = u} reach (run_direct i key r e)) = Ends s u reach × P key r
    Ends s t (next {t = u} reach (finish i key id r e)) = Ends s u reach × P key r
    Ends s t (next {t = u} reach (call i key e)) = Ends s u reach
    Ends s t (next {t = u} reach (panic i key id e)) = Ends s u reach
    Ends s t (next {t = u} reach (wake i key id c r e at done)) = Ends s u reach
    Ends s t (next {t = u} reach (close i key id r order any e)) = Ends s u reach
    Ends s t (next {t = u} reach (leave i key r cached e)) = Ends s u reach
    Ends s t (next {t = u} reach (tick d)) = Ends s u reach

    abbrev Kept : Cache E V → Type 0
    Kept c =
        (id : ℕ) (key : Str) (r : Outcome E V)
        → get_elem? c.calls id ≡ some (made key (some r))
        → P key r

    publish-Kept :
        (c : Cache E V) (a : ℕ) (k : Str) (o : Outcome E V)
        → P k o
        → Kept c
        → Kept (publish a k o c)
    unfolding publish
    publish-Kept c a k o new h id key r at =
        elim (get_elem?-set_inv c.calls a id (made k (some o)) at) [
          | inl was ↦ h id key r was
          | inr same ↦
              let result : o ≡ r = ground (arith, same) in
              subst (P key) result (subst (λ j. P j o) (ap (λ d. d.key) same) new)
        ]

    pub Reach-Kept :
        (ttl : ℤ) (s : System E V) (reach : Reach (init ttl) s)
        → Ends (init ttl) s reach
        → Kept s.cache
    unfolding new_cache
    Reach-Kept ttl s here h id key r at = absurd (ground (arith, at))
    Reach-Kept ttl s (next {t = u} reach (run_direct i k o e)) h id key r at =
        Reach-Kept ttl u reach h.0 id key r at
    Reach-Kept ttl s (next {t = u} reach (finish i k a o e)) h id key r at =
        publish-Kept u.cache a k o h.1 (Reach-Kept ttl u reach h.0) id key r at
    Reach-Kept ttl s (next {t = u} reach (call i k e)) h id key r at =
        Reach-Kept ttl u reach h id key r (begin-ended u.now k u.cache id key r at)
    Reach-Kept ttl s (next {t = u} reach (panic i k a e)) h id key r at =
        Reach-Kept ttl u reach h id key r at
    Reach-Kept ttl s (next {t = u} reach (wake i k a c o e found done)) h id key r at =
        Reach-Kept ttl u reach h id key r at
    Reach-Kept ttl s (next {t = u} reach (close i k a o order any e)) h id key r at =
        Reach-Kept ttl u reach h id key r
          (sym (ap (λ cs. get_elem? cs id) (store-calls order u.now k o u.cache)) ∙ at)
    Reach-Kept ttl s (next {t = u} reach (leave i k o cached e)) h id key r at =
        Reach-Kept ttl u reach h id key r at
    Reach-Kept ttl s (next {t = u} reach (tick d)) h id key r at =
        Reach-Kept ttl u reach h id key r at

module _ {F : Type 0} where
  -- What the `fn` of `Costs` or of `Summary` returns, with its key.
  abbrev pub IsOfService : Str → Outcome Failure (Value F) → Type 0
  IsOfService key r =
      ((q : Query) × (o : Outcome Failure (Series F)) × (key ≡ cache_key q)
        × (r ≡ boxed of_series o))
      ⊎ ((o : Outcome Failure (Summary F)) × (key ≡ summary_key) × (r ≡ boxed of_summary o))

  read_summary-boxed :
      (o : Outcome Failure (Summary F)) (cached : Bool)
      → (a : Outcome Failure (Summary F)) × (read_summary (boxed of_summary o, cached) ≡ some a)
  unfolding read_summary
  read_summary-boxed (err e) cached = (err e, refl)
  read_summary-boxed (ok v) cached = (ok (record v { cached = cached }), refl)

  -- Where goroutines share the cache of a service with a positive time-to-live, and only the `fn` of
  -- `Costs` and `Summary` run, the type assertions never panic: what the cache returns for the key of
  -- a query is a series or an error, and for the key of the summary a summary or an error.
  assertions_hold :
      (ttl : ℤ) (s : System Failure (Value F)) (reach : Reach (init ttl) s) (i : ℕ) (key : Str)
      (r : Outcome Failure (Value F)) (cached : Bool)
      → pos 1 ≤ℤ ttl
      → Ends IsOfService (init ttl) s reach
      → s.pc i ≡ returned key r cached
      → ((q : Query)
          → key ≡ cache_key q
          → (a : Outcome Failure (Series F)) × (read_series (r, cached) ≡ some a))
        × (key ≡ summary_key
            → (a : Outcome Failure (Summary F)) × (read_summary (r, cached) ≡ some a))
  assertions_hold ttl s reach i key r cached on ends e =
      let (id, at) = returned_sound ttl s i key r cached on reach e in
      elim (Reach-Kept IsOfService ttl s reach ends id key r at) [
        | inl (q, o, named, made_of) ↦ (
          λ p is. (marked cached o, rw made_of (read_series-boxed o cached)),
          λ is. absurd (cache_key-ne-summary q (sym named ∙ is)),
        )
        | inr (o, named, made_of) ↦ (
          λ p is. absurd (cache_key-ne-summary p (sym is ∙ named)),
          λ is. rw made_of (read_summary-boxed o cached),
        )
      ]
