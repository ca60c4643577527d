-- ===== src/Summary/Movers.antt =====
-- The services whose costs have moved most: every service of either window once, the largest moves first.
use mathlib.Core.List.{Perm}
use mathlib.Core.List.Perm
use mathlib.Core.Path.{subst}
use eksp.Base.{
  Str, Str-discrete, member, Distinct, take, List, [], ◌∷◌, ◌++◌, map, foldl, true, false, ◌||◌,
  holds, Bool-cases, inl, inr, ◌≡◌, refl, ap, ◌∙◌, arith, Float, IsOrdered, All, sort_stable,
  sort_stable-perm, All-sort_stable, sort_stable-IsSorted, IsSorted,
}
use eksp.Summary.{Mover, add_seen, services, mover_of, moves_more, abs, top_movers}

member-snoc :
    (seen : List Str) (j k : Str)
    → member (seen ++ j ∷ []) k ≡ member seen k || holds (Str-discrete k j)
unfolding member
member-snoc [] j k = ground arith
member-snoc (i ∷ seen) j k = ground (arith, member-snoc seen j k)

member-add_seen :
    (seen : List Str) (j k : Str)
    → member (add_seen seen j) k ≡ member seen k || holds (Str-discrete k j)
unfolding add_seen
member-add_seen seen j k = elim (Bool-cases (member seen j)) [
  | inl old ↦ elim (Str-discrete k j) [
    | yes e ↦
        let here : member seen k ≡ true = ap (member seen) e ∙ old in ground (arith, old, here)
    | no ne ↦ ground (arith, old, ne)
  ]
  | inr new ↦ rw (add_seen, new) (member-snoc seen j k)
]

Distinct-snoc :
    (seen : List Str) (j : Str) → Distinct seen → member seen j ≡ false → Distinct (seen ++ j ∷ [])
unfolding member
Distinct-snoc [] j d h = (refl, tt)
Distinct-snoc (i ∷ seen) j d h = ground (arith, member-snoc seen j i, Distinct-snoc seen j d.1)

add_seen-Distinct : (seen : List Str) (j : Str) → Distinct seen → Distinct (add_seen seen j)
unfolding add_seen
add_seen-Distinct seen j d = elim (Bool-cases (member seen j)) [
  | inl old ↦ rw (add_seen, old) d
  | inr new ↦ rw (add_seen, new) (Distinct-snoc seen j d new)
]

foldl-add_seen-Distinct : (seen ks : List Str) → Distinct seen → Distinct (foldl add_seen seen ks)
foldl-add_seen-Distinct seen [] d = d
foldl-add_seen-Distinct seen (k ∷ ks) d =
    foldl-add_seen-Distinct (add_seen seen k) ks (add_seen-Distinct seen k d)

member-foldl-add_seen :
    (seen ks : List Str) (k : Str)
    → member (foldl add_seen seen ks) k ≡ member seen k || member ks k
unfolding member
member-foldl-add_seen seen [] k = ground arith
member-foldl-add_seen seen (j ∷ ks) k =
    ground (arith, member-foldl-add_seen (add_seen seen j) ks k, member-add_seen seen j k)

member-append : (xs ys : List Str) (k : Str) → member (xs ++ ys) k ≡ member xs k || member ys k
unfolding member
member-append [] ys k = refl
member-append (x ∷ xs) ys k = ground (arith, member-append xs ys k)

module _ {ℓ} {F : Type ℓ} ⦃fl : Float F⦄ where
  -- The services of both maps, each once.
  pub record IsServices (current previous : List (Str × F)) (names : List Str) : Type ℓ where
    pub distinct : Distinct names
    pub named :
        (k : Str)
        → member names k ≡ member (map (λ p. p.0) current) k || member (map (λ p. p.0) previous) k

  services-IsServices :
      (current previous : List (Str × F)) → IsServices current previous (services current previous)
  unfolding services member
  services-IsServices current previous =
      let keys = λ (m : List (Str × F)). map (λ p. p.0) m in
      record {
        distinct = foldl-add_seen-Distinct [] (keys current ++ keys previous) tt;
        named = λ k.
            member-foldl-add_seen [] (keys current ++ keys previous) k
            ∙ member-append (keys current) (keys previous) k;
      }

  -- The movers of all services, the largest moves first.
  pub record IsRanking (current previous : List (Str × F)) (ranking : List (Mover F)) : Type ℓ where
    pub names : List Str
    pub once : IsServices current previous names
    pub all : Perm (map (λ m. m.service) ranking) names
    pub each : All (λ m. m ≡ mover_of current previous m.service) ranking
    pub sorted : IsSorted (λ a b. fl.lt (abs b.delta) (abs a.delta)) ranking

  module _ (laws : IsOrdered F) (visit : List Str → List Str)
      (any : (ks : List Str) → Perm (visit ks) ks) (current previous : List (Str × F)) where
    abbrev movers : List Str → List (Mover F)
    movers = map (mover_of current previous)

    each_mover : (ks : List Str) → All (λ m. m ≡ mover_of current previous m.service) (movers ks)
    each_mover [] = tt
    each_mover (k ∷ ks) = (refl, each_mover ks)

    service_of_mover : (ks : List Str) → map (λ (m : Mover F). m.service) (movers ks) ≡ ks
    service_of_mover [] = refl
    service_of_mover (k ∷ ks) = ap (λ js. k ∷ js) (service_of_mover ks)

    number_of_mover :
        ((k : Str) → laws.is_number (abs (mover_of current previous k).delta) ≡ true)
        → (ks : List Str) → All (λ m. laws.is_number (abs m.delta) ≡ true) (movers ks)
    number_of_mover numbers [] = tt
    number_of_mover numbers (k ∷ ks) = (numbers k, number_of_mover numbers ks)

    -- Where no difference is NaN, the top movers are the first five of a ranking, sorted by the size
    -- of the difference, in which every service of either window stands once, with its costs in
    -- both, whatever the order in which the services are visited.
    pub top_movers_lem :
        ((k : Str) → laws.is_number (abs (mover_of current previous k).delta) ≡ true)
        → (ranking : List (Mover F)) × IsRanking current previous ranking
          × (top_movers visit current previous ≡ take 5 ranking)
    unfolding top_movers moves_more
    top_movers_lem numbers =
        let names = services current previous in
        let listed = movers (visit names) in
        let ranking = sort_stable moves_more listed in
        (
          ranking,
          record {
            names = names;
            once = services-IsServices current previous;
            all =
                Perm.trans
                  (subst (Perm (map (λ m. m.service) ranking)) (service_of_mover (visit names))
                    (Perm.map (λ m. m.service) (sort_stable-perm moves_more listed)))
                  (any names);
            each = All-sort_stable moves_more _ listed (each_mover (visit names));
            sorted =
                sort_stable-IsSorted moves_more (λ m. laws.is_number (abs m.delta) ≡ true)
                  (λ a b. laws.lt_asymm (abs b.delta) (abs a.delta))
                  (λ a b c p q.
                    ground (arith, laws.lt_split (abs a.delta) (abs b.delta) (abs c.delta) p q))
                  listed (number_of_mover numbers (visit names));
          },
          refl,
        )
