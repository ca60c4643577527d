-- ===== src/Demo/Names.antt =====
-- The sorted names of the demo's tables: the order in which a map is visited does not show.
use mathlib.Core.Logic.{∥∥₁_elim}
use mathlib.Core.List.{Perm, Permᴰ, foldr}
use mathlib.Core.List.Perm
use eksp.Base.{
  Str, member, Distinct, List, [], ◌∷◌, map, Bool, true, false, ◌≡◌, refl, sym, ap, ◌∙◌, ◌⊎◌, inl,
  inr, arith, sort_stable, sort_stable-perm, insert,
}
use eksp.Demo.{str_less, sorted_names}

str_less_asymm : (s t : Str) → str_less s t ≡ true → str_less t s ≡ false
unfolding str_less
str_less_asymm [] [] h = refl
str_less_asymm [] (d ∷ t) h = refl
str_less_asymm (c ∷ s) [] h = absurd (ground (arith, h))
str_less_asymm (c ∷ s) (d ∷ t) h = ground (arith, h, str_less_asymm s t)

str_less_total : (s t : Str) → str_less s t ≡ false → str_less t s ≡ false → s ≡ t
unfolding str_less
str_less_total [] [] h h' = refl
str_less_total [] (d ∷ t) h h' = absurd (ground (arith, h))
str_less_total (c ∷ s) [] h h' = absurd (ground (arith, h'))
str_less_total (c ∷ s) (d ∷ t) h h' = ground (arith, h, h', str_less_total s t)

str_less_split : (s t u : Str) → str_less s u ≡ true → (str_less s t ≡ true) ⊎ (str_less t u ≡ true)
unfolding str_less
str_less_split [] [] u h = inr h
str_less_split [] (d ∷ t) u h = inl refl
str_less_split (c ∷ s) t [] h = absurd (ground (arith, h))
str_less_split (c ∷ s) [] (e ∷ u) h = inr refl
str_less_split (c ∷ s) (d ∷ t) (e ∷ u) h = ground (arith, h, str_less_split s t u)

module _ {A : Type 0} (less : A → A → Bool) (asymm : (a b : A) → less a b ≡ true → less b a ≡ false)
    (total : (a b : A) → less a b ≡ false → less b a ≡ false → a ≡ b)
    (split : (a b c : A) → less a c ≡ true → (less a b ≡ true) ⊎ (less b c ≡ true)) where
  insert_comm :
      (x y : A) (zs : List A) → insert less x (insert less y zs) ≡ insert less y (insert less x zs)
  unfolding insert
  insert_comm x y [] = ground (arith, asymm x y, asymm y x, total x y)
  insert_comm x y (z ∷ zs) = ground (
    arith,
    asymm x y,
    asymm y x,
    total x y,
    split z x y,
    split z y x,
    asymm z x,
    asymm z y,
    insert_comm x y zs,
  )

  sort_stable-foldr : (xs : List A) → sort_stable less xs ≡ foldr (insert less) [] xs
  unfolding sort_stable
  sort_stable-foldr [] = refl
  sort_stable-foldr (x ∷ xs) = ap (insert less x) (sort_stable-foldr xs)

  sort_stable-Perm :
      IsSet (List A) → {xs ys : List A} → Perm xs ys → sort_stable less xs ≡ sort_stable less ys
  sort_stable-Perm set {xs} {ys} p =
      sort_stable-foldr xs
      ∙ Perm.foldr-eq set (insert less) insert_comm p []
      ∙ sym (sort_stable-foldr ys)

member-Permᴰ : {js ks : List Str} (k : Str) → Permᴰ js ks → member js k ≡ member ks k
unfolding member
member-Permᴰ k Permᴰ.nil = refl
member-Permᴰ k (Permᴰ.cons e d) = ground (arith, e, member-Permᴰ k d)
member-Permᴰ k (Permᴰ.swap e e') = ground (arith, e, e')
member-Permᴰ k (Permᴰ.trans d d') = member-Permᴰ k d ∙ member-Permᴰ k d'

Distinct-Permᴰ : {js ks : List Str} → Permᴰ js ks → Distinct js → Distinct ks
unfolding member
Distinct-Permᴰ Permᴰ.nil h = tt
Distinct-Permᴰ (Permᴰ.cons {b = b} {l₁ = js} e d) h =
    (sym (member-Permᴰ b d) ∙ ap (member js) (sym e) ∙ h.0, Distinct-Permᴰ d h.1)
Distinct-Permᴰ (Permᴰ.swap e e') h = ground (arith, e, e', h)
Distinct-Permᴰ (Permᴰ.trans d d') h = Distinct-Permᴰ d' (Distinct-Permᴰ d h)

-- A permutation keeps its texts apart.
pub Distinct-Perm : {js ks : List Str} → Perm js ks → Distinct js → Distinct ks
unfolding member
Distinct-Perm {js} {ks} p h = ∥∥₁_elim p (Distinct_prop ks) (λ d. Distinct-Permᴰ d h)
  where
    Distinct_prop : (ks : List Str) → IsProp (Distinct ks)
    Distinct_prop [] = hlevel
    Distinct_prop (k ∷ ks) = hlevel (Distinct_prop ks)

module _ {ℓ} {F : Type ℓ} where
  -- The sorted names do not depend on the order in which the map of the table is visited.
  pub sorted_names-visit :
      (visit visit' : List Str → List Str)
      → ((ks : List Str) → Perm (visit ks) ks)
      → ((ks : List Str) → Perm (visit' ks) ks)
      → (keys : List (Str × F)) → sorted_names visit keys ≡ sorted_names visit' keys
  unfolding sorted_names
  sorted_names-visit visit visit' any any' keys =
      let ks = map (λ p. p.0) keys in
      sort_stable-Perm str_less str_less_asymm str_less_total str_less_split (hlevel)
        (Perm.trans (any ks) (Perm.symm (any' ks)))

  -- Each name of the table stands once in them.
  pub sorted_names-Distinct :
      (visit : List Str → List Str)
      → ((ks : List Str) → Perm (visit ks) ks)
      → (keys : List (Str × F)) → Distinct (map (λ p. p.0) keys)
      → Distinct (sorted_names visit keys)
  unfolding sorted_names
  sorted_names-Distinct visit any keys h =
      let ks = map (λ p. p.0) keys in
      Distinct-Perm (Perm.symm (Perm.trans (sort_stable-perm str_less (visit ks)) (any ks))) h
