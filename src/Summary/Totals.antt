-- ===== src/Summary/Totals.antt =====
-- `byService`: it reads the pages that `fetchCosts` would read, and sums the amounts of each service.
use mathlib.Core.Option
use mathlib.Core.Logic.{ite, if_pos, if_neg}
use mathlib.Core.List.{foldl-append}
use eksp.Base.{
  ℕ, zero, suc, ◌≤◌, Str, Str-discrete, lookup, length, List, [], ◌∷◌, ◌++◌, foldl, Option, none,
  some, Option-cases, Outcome-cases, ◌≡◌, refl, sym, ap, ◌∙◌, inl, inr, Float, Outcome, ok, err,
}
use eksp.Explorer.{Group, ResultByTime}
use eksp.Cache.{assign}
use eksp.Cache.Maps.{lookup-assign_self, lookup-assign_ne}
use eksp.Fetch.{Failure, map_ce_error, Request, Page, next_token, fetch_pages}
use eksp.Fetch.Pages.{results_of, Served, Broken, fetch_pages-from, fetch_pages-Broken}
use eksp.Summary.{read_amount, amount_at, add_amount, add_result, by_service}

abbrev pub groups_of : List ResultByTime → List Group
groups_of [] = []
groups_of (r ∷ rs) = r.groups ++ groups_of rs

module _ {ℓ} {F : Type ℓ} ⦃fl : Float F⦄ where
  open fl use {nought, add}

  -- The amounts of a service in groups, in their order.
  abbrev pub amounts_of : Str → List Group → List F
  amounts_of k [] = []
  amounts_of k (g ∷ gs) = elim (read_amount {F = F} g) [
    | none ↦ amounts_of k gs
    | some (j, v) ↦ ite (Str-discrete k j) (v ∷ amounts_of k gs) (amounts_of k gs)
  ]

  -- What a map holds at a key once these amounts have been added to what it held.
  abbrev pub sum_onto : Option F → List F → Option F
  sum_onto o [] = o
  sum_onto o (v ∷ vs) = sum_onto (some (add (Option.get_or o nought) v)) vs

  lookup-add_amounts :
      (k : Str) (gs : List Group) (m : List (Str × F))
      → lookup k (foldl add_amount m gs) ≡ sum_onto (lookup k m) (amounts_of k gs)
  unfolding add_amount
  lookup-add_amounts k [] m = refl
  lookup-add_amounts k (g ∷ gs) m = elim (Option-cases (read_amount {F = F} g)) [
    | inl e ↦ rw (amounts_of, add_amount, e) (lookup-add_amounts k gs m)
    | inr ((j, v), e) ↦
        let m' = assign j (add (amount_at j m) v) m in
        elim (Str-discrete k j) [
          | yes p ↦
              rw
                (
                  amounts_of,
                  add_amount,
                  e,
                  if_pos (Str-discrete k j) p (v ∷ amounts_of k gs) (amounts_of k gs),
                )
                (lookup-add_amounts k gs m'
                  ∙ ap (λ o. sum_onto o (amounts_of k gs))
                      (lookup-assign_self k j (add (amount_at j m) v) m p
                        ∙ ap (λ i. some (add (amount_at i m) v)) (sym p)))
          | no ne ↦
              rw
                (
                  amounts_of,
                  add_amount,
                  e,
                  if_neg (Str-discrete k j) ne (v ∷ amounts_of k gs) (amounts_of k gs),
                )
                (lookup-add_amounts k gs m'
                  ∙ ap (λ o. sum_onto o (amounts_of k gs))
                      (lookup-assign_ne k j (add (amount_at j m) v) m ne))
        ]
  ]

  foldl-add_result :
      (rs : List ResultByTime) (m : List (Str × F))
      → foldl add_result m rs ≡ foldl add_amount m (groups_of rs)
  unfolding add_result
  foldl-add_result [] m = refl
  foldl-add_result (r ∷ rs) m =
      foldl-add_result rs (foldl add_amount m r.groups)
      ∙ sym (foldl-append add_amount m r.groups (groups_of rs))

  -- What `byService` returns where the loop of `fetchCosts` returns `fetched`.
  abbrev pub totals_of :
      Option (Outcome Failure (List ResultByTime)) → Option (Outcome Failure (List (Str × F)))
  totals_of none = none
  totals_of (some (err e)) = some (err e)
  totals_of (some (ok rs)) = some (ok (foldl add_result [] rs))

  module _ (client : Request → Outcome Failure Page) where
    by_service-fetch_pages :
        (fuel : ℕ) (input : Request) (rs : List ResultByTime)
        → by_service client fuel input (foldl add_result [] rs)
          ≡ totals_of (fetch_pages client fuel input rs)
    unfolding by_service fetch_pages
    by_service-fetch_pages zero input rs = refl
    by_service-fetch_pages (suc fuel) input rs = elim (Outcome-cases (client input)) [
      | inr (e, failed) ↦ rw (by_service, fetch_pages, failed) refl
      | inl (out, answered) ↦ elim (Option-cases (next_token out)) [
        | inl last ↦
            rw (by_service, fetch_pages, answered, last)
              (ap (λ m. some (ok m)) (sym (foldl-append add_result [] rs out.results)))
        | inr (token, more) ↦
            rw (by_service, fetch_pages, answered, more)
              (ap (by_service client fuel (record input { next_page_token = some token }))
                  (sym (foldl-append add_result [] rs out.results))
                ∙ by_service-fetch_pages fuel (record input { next_page_token = some token })
                    (rs ++ out.results))
      ]
    ]

    -- Where the client serves a request by pages and the rounds are as many, `byService` returns the
    -- services of all their groups, and for each the sum of its amounts, added in their order.
    pub by_service_lem :
        (fuel : ℕ) (input : Request) (ps : List Page)
        → Served client input ps
        → length ps ≤ fuel
        → (totals : List (Str × F)) × (by_service client fuel input [] ≡ some (ok totals))
          × ((k : Str) → lookup k totals ≡ sum_onto none (amounts_of k (groups_of (results_of ps))))
    unfolding lookup
    by_service_lem fuel input ps h le =
        let rs = results_of ps in
        let fetched = fetch_pages-from client fuel input ps [] h le in
        (
          foldl add_result [] rs,
          by_service-fetch_pages fuel input [] ∙ ap totals_of fetched,
          λ k. ap (lookup k) (foldl-add_result rs []) ∙ lookup-add_amounts k (groups_of rs) [],
        )

    pub by_service-Broken :
        (fuel : ℕ) (input : Request) (ps : List Page) (e : Failure)
        → Broken client input ps e
        → suc (length ps) ≤ fuel
        → by_service {F = F} client fuel input [] ≡ some (err (map_ce_error e))
    by_service-Broken fuel input ps e h le =
        by_service-fetch_pages fuel input []
        ∙ ap totals_of (fetch_pages-Broken client fuel input ps [] e h le)
