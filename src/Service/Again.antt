-- ===== src/Service/Again.antt =====
-- What a query costs: one fetch for as long as its series is kept.
use mathlib.Core.Option
use eksp.Base.{
  arith, ℕ, ◌≤◌, ◌+◌, Str, lookup, get_elem?, List, Bool, true, false, none, some, ◌≡◌, refl, ap,
  ◌∙◌, pos, pos_part, ltb, ◌≤ℤ◌, if◌then◌else◌, Float, Outcome, ok, err,
}
use eksp.Query.{Query, normalize, cache_key}
use eksp.Aggregate.{Series}
use eksp.Cache.{
  Entry, Call, Cache, Decision, uncached, hit, join, lead, fresh, begin, do_alone, publish, store,
}
use eksp.Cache.Again.{do_alone-again}
use eksp.Fetch.{Failure, Request, Page, fetch_costs}
use eksp.Service.{Value, of_series, Service, Readings, read_series, boxed, conclude, do_call, costs}

module _ {E V : Type 0} (order : ℕ → List (Str × Entry V) → List (Str × Entry V)) where
  conclude_lem :
      (later : ℕ) (key : Str) (r : Outcome E V) (c : Cache E V) (d : Decision V)
      → conclude order later key (some r) c d ≡ elim d [
        | uncached ↦ (some (r, false), c)
        | hit v ↦ (some (ok v, true), c)
        | join id ↦ (
          Option.bind
              (Option.map (λ (call : Call E V). call.result) (get_elem? c.calls id))
              (λ o. Option.map (λ r. (r, false)) o),
          c,
        )
        | lead id ↦ (some (r, false), store order later key r (publish id key r c))
      ]
  unfolding conclude
  conclude_lem later key r c uncached = refl
  conclude_lem later key r c (hit v) = refl
  conclude_lem later key r c (join id) = refl
  conclude_lem later key r c (lead id) = refl

  do_call-do_alone :
      (now later : ℕ) (key : Str) (r : Outcome E V) (c : Cache E V)
      → do_call order now later key (some r) c ≡ do_alone order now later key r c
  unfolding do_call do_alone
  do_call-do_alone now later key r c =
      conclude_lem later key r (begin now key c).1 (begin now key c).0

  -- Where it finds neither a fresh entry nor a call in flight, it returns what `fn` does.
  pub do_call-first :
      (now later : ℕ) (key : Str) (r : Outcome E V) (c : Cache E V)
      → pos 1 ≤ℤ c.ttl
      → fresh now key c.entries ≡ none
      → lookup key c.inflight ≡ none
      → (do_call order now later key (some r) c).0 ≡ some (r, false)
  do_call-first now later key r c on stale free =
      ap (λ x. x.0) (do_call-do_alone now later key r c)
      ∙ (do_alone-again order now later now later key r r c on stale free (omega arith)).0

module _ {F : Type 0} where
  -- A result of `fetchCosts` with its mark.
  abbrev pub marked : Bool → Outcome Failure (Series F) → Outcome Failure (Series F)
  marked cached (err e) = err e
  marked cached (ok v) = ok (record v { cached = cached })

  pub read_series-boxed :
      (o : Outcome Failure (Series F)) (cached : Bool)
      → read_series (boxed of_series o, cached) ≡ some (marked cached o)
  unfolding read_series
  read_series-boxed (err e) cached = refl
  read_series-boxed (ok v) cached = refl

  read_again :
      (before : Bool) (r r' : Outcome Failure (Series F))
      → Option.bind
          (elim (boxed of_series r) [
            | ok v ↦ if before then some (ok v, true) else some (boxed of_series r', false)
            | err e ↦ some (boxed of_series r', false)
          ])
          read_series
        ≡ elim r [
          | ok v ↦ if before then some (marked true (ok v)) else some (marked false r')
          | err e ↦ some (marked false r')
        ]
  unfolding Option.bind read_series
  read_again true (ok v) r' = read_series-boxed (ok v) true
  read_again false (ok v) r' = read_series-boxed r' false
  read_again before (err e) r' = read_series-boxed r' false

module _ {F : Type 0} ⦃fl : Float F⦄ (quote : Str → Str)
    (order : ℕ → List (Str × Entry (Value F)) → List (Str × Entry (Value F)))
    (client client' : Request → Outcome Failure Page) where
  -- `Costs` for a query that is accepted and whose fetch returns, before the read of the result.
  costs_lem :
      (client : Request → Outcome Failure Page) (fuel : ℕ) (t : Readings) (q q' : Query)
      (s : Service F) (r : Outcome Failure (Series F))
      → normalize quote s.allowed_tags q ≡ ok q'
      → fetch_costs client fuel t.now t.stamp q' ≡ some r
      → costs quote order client fuel t q s ≡ (
          let d = do_alone order t.locked t.stored (cache_key q') (boxed of_series r) s.cache in
          (Option.bind d.0 read_series, record s { cache = d.1 }))
  unfolding costs
  costs_lem client fuel t q q' s r accepted fetched =
      let same =
        do_call-do_alone order t.locked t.stored (cache_key q') (boxed of_series r) s.cache in
      rw (costs, accepted, fetched)
        (ap (λ d. (Option.bind d.0 read_series, record s { cache = d.1 })) same)

  -- Where no other goroutine runs, the time-to-live is positive, and neither a fresh entry nor a call
  -- in flight answers a query that is accepted and whose fetches return: `Costs` returns what it
  -- fetches, not marked as cached. A later `Costs` with nothing in between, of a query that normalizes
  -- to the same one, returns the same series, marked as cached, until it expires, whatever Cost
  -- Explorer would answer by then; after that, and if the first fetch failed at once, it returns what
  -- it fetches itself.
  pub costs_again :
      (fuel fuel' : ℕ) (t t' : Readings) (q p q' : Query) (s : Service F)
      (r r' : Outcome Failure (Series F))
      → pos 1 ≤ℤ s.cache.ttl
      → normalize quote s.allowed_tags q ≡ ok q'
      → normalize quote s.allowed_tags p ≡ ok q'
      → fresh t.locked (cache_key q') s.cache.entries ≡ none
      → lookup (cache_key q') s.cache.inflight ≡ none
      → fetch_costs client fuel t.now t.stamp q' ≡ some r
      → fetch_costs client' fuel' t'.now t'.stamp q' ≡ some r'
      → t.locked ≤ t'.locked
      → ((costs quote order client fuel t q s).0 ≡ some (marked false r))
        × ((costs quote order client' fuel' t' p (costs quote order client fuel t q s).1).0
            ≡ elim r [
              | ok v ↦
                  if ltb t'.locked (t.stored + pos_part s.cache.ttl)
                  then some (marked true (ok v))
                  else some (marked false r')
              | err e ↦ some (marked false r')
            ])
  unfolding Option.bind
  costs_again fuel fuel' t t' q p q' s r r' on accepted again stale free fetched fetched' le =
      let kept = (do_alone order t.locked t.stored (cache_key q') (boxed of_series r) s.cache).1 in
      let (one, two) =
        do_alone-again order t.locked t.stored t'.locked t'.stored (cache_key q')
          (boxed of_series r) (boxed of_series r') s.cache on stale free le in
      let first = costs_lem client fuel t q q' s r accepted fetched in
      let second =
        ap (λ x. (costs quote order client' fuel' t' p x.1).0) first
        ∙ ap (λ x. x.0)
            (costs_lem client' fuel' t' p q' (record s { cache = kept }) r' again fetched') in
      (
        ap (λ x. x.0) first ∙ ap (λ o. Option.bind o read_series) one ∙ read_series-boxed r false,
        second
            ∙ ap (λ o. Option.bind o read_series) two
            ∙ read_again (ltb t'.locked (t.stored + pos_part s.cache.ttl)) r r',
      )
