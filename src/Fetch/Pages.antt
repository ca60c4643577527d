-- ===== src/Fetch/Pages.antt =====
-- The loop over page tokens, and what `fetchCosts` makes of the pages.
use eksp.Base.{
  ℕ, zero, suc, ◌≤◌, Str, List, [], ◌∷◌, ◌++◌, append_assoc, append-nil, length, none, some, ◌≡◌,
  refl, sym, ap, ◌∙◌, arith, Float, Outcome, ok, err,
}
use eksp.Query.{Query}
use eksp.Explorer.{ResultByTime}
use eksp.Aggregate.{Series}
use eksp.Aggregate.Cells.{periods, AreDistinct}
use eksp.Aggregate.Cap.{IsSeriesOf, aggregate_lem}
use eksp.Time.{Time}
use eksp.Fetch.{
  Failure, map_ce_error, Request, Page, request_of, next_token, fetch_pages, fetch_costs,
}

-- All periods of the pages, in their order.
abbrev pub results_of : List Page → List ResultByTime
results_of [] = []
results_of (p ∷ ps) = p.results ++ results_of ps

module _ (client : Request → Outcome Failure Page) where
  -- The client answers a request, and those for the tokens that follow, with these pages; the last
  -- one names no further page.
  abbrev pub Served : Request → List Page → Type 0
  Served input [] = ⊥
  Served input (p ∷ []) = (client input ≡ ok p) × (next_token p ≡ none)
  Served input (p ∷ q ∷ ps) =
      (token : Str) × (client input ≡ ok p)
      × (next_token p ≡ some token)
      × Served (record input { next_page_token = some token }) (q ∷ ps)

  -- The client answers with these pages, and then with an error.
  abbrev pub Broken : Request → List Page → Failure → Type 0
  Broken input [] e = client input ≡ err e
  Broken input (p ∷ ps) e =
      (token : Str) × (client input ≡ ok p)
      × (next_token p ≡ some token)
      × Broken (record input { next_page_token = some token }) ps e

  pub fetch_pages-from :
      (fuel : ℕ) (input : Request) (ps : List Page) (results : List ResultByTime)
      → Served input ps
      → length ps ≤ fuel
      → fetch_pages client fuel input results ≡ some (ok (results ++ results_of ps))
  unfolding fetch_pages
  fetch_pages-from fuel input [] results h le = absurd h
  fetch_pages-from zero input (p ∷ ps) results h le = absurd (omega (arith, le))
  fetch_pages-from (suc fuel) input (p ∷ []) results (e, last) le =
      rw (fetch_pages, e, last) (ap (λ rs. some (ok (results ++ rs))) (sym (append-nil p.results)))
  fetch_pages-from (suc fuel) input (p ∷ q ∷ ps) results (token, e, more, h) le =
      rw (fetch_pages, e, more)
        (fetch_pages-from fuel (record input { next_page_token = some token }) (q ∷ ps)
            (results ++ p.results) h (omega (arith, le))
          ∙ ap (λ rs. some (ok rs)) (append_assoc results p.results (results_of (q ∷ ps))))

  pub fetch_pages-Broken :
      (fuel : ℕ) (input : Request) (ps : List Page) (results : List ResultByTime) (e : Failure)
      → Broken input ps e
      → suc (length ps) ≤ fuel
      → fetch_pages client fuel input results ≡ some (err (map_ce_error e))
  unfolding fetch_pages
  fetch_pages-Broken zero input ps results e h le = absurd (omega (arith, le))
  fetch_pages-Broken (suc fuel) input [] results e h le = rw (fetch_pages, h) refl
  fetch_pages-Broken (suc fuel) input (p ∷ ps) results e (token, at, more, h) le =
      rw (fetch_pages, at, more)
        (fetch_pages-Broken fuel (record input { next_page_token = some token }) ps
          (results ++ p.results) e h (omega (arith, le)))

  module _ {ℓ} {F : Type ℓ} ⦃fl : Float F⦄ where
    -- Where the client serves a query's request by pages, whose periods name no key twice, and the
    -- rounds are as many as the pages, `fetchCosts` returns the series of all their periods.
    pub fetch_costs_lem :
        (fuel : ℕ) (now stamp : Time) (q : Query) (ps : List Page)
        → Served (request_of now q) ps
        → length ps ≤ fuel
        → AreDistinct (periods {F = F} (results_of ps))
        → (s : Series F) × (fetch_costs client fuel now stamp q ≡ some (ok s))
          × IsSeriesOf stamp (periods (results_of ps)) s
    unfolding fetch_costs
    fetch_costs_lem fuel now stamp q ps h le d =
        let (s, e, is_series) = aggregate_lem stamp (results_of ps) d in
        let fetched = fetch_pages-from fuel (request_of now q) ps [] h le in
        (s, rw (fetch_costs, fetched, e) refl, is_series)

    -- Where the client fails after some pages, `fetchCosts` returns its error, as `mapCEError` maps
    -- it, and none of the pages.
    pub fetch_costs-Broken :
        (fuel : ℕ) (now stamp : Time) (q : Query) (ps : List Page) (e : Failure)
        → Broken (request_of now q) ps e
        → suc (length ps) ≤ fuel
        → fetch_costs client {F = F} fuel now stamp q ≡ some (err (map_ce_error e))
    unfolding fetch_costs
    fetch_costs-Broken fuel now stamp q ps e h le =
        rw (fetch_costs, fetch_pages-Broken fuel (request_of now q) ps [] e h le) refl
