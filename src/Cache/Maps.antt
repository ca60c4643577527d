-- ===== src/Cache/Maps.antt =====
-- Go maps as association lists: what `delete` and assignment do to a lookup and to the keys.
use mathlib.Core.Logic.{ite}
use eksp.Base.{
  ◌+◌, ◌≤◌, ◌<◌, Str, Str-discrete, lookup, length, List, [], ◌∷◌, map, ◌≡◌, ◌≢◌, refl, sym, ◌∙◌,
  arith, true, false, none, some, member, Distinct,
}
use eksp.Cache.{delete, assign}

module _ {ℓ} {V : Type ℓ} where
  abbrev pub keys : List (Str × V) → List Str
  keys = map (λ p. p.0)

  -- No key stands twice: the list is a map.
  abbrev pub IsMap : List (Str × V) → Type 0
  IsMap m = Distinct (keys m)

  pub lookup-delete :
      (j k : Str) (m : List (Str × V))
      → lookup j (delete k m) ≡ ite (Str-discrete j k) none (lookup j m)
  unfolding lookup delete
  lookup-delete j k [] = ground arith
  lookup-delete j k ((i, v) ∷ m) = ground (arith, lookup-delete j k m)

  pub lookup-assign :
      (j k : Str) (v : V) (m : List (Str × V))
      → lookup j (assign k v m) ≡ ite (Str-discrete j k) (some v) (lookup j m)
  unfolding lookup assign
  lookup-assign j k v [] = ground arith
  lookup-assign j k v ((i, w) ∷ m) = ground (arith, lookup-assign j k v m)

  pub lookup-delete_ne :
      (j k : Str) (m : List (Str × V)) → j ≢ k → lookup j (delete k m) ≡ lookup j m
  lookup-delete_ne j k m ne = ground (arith, lookup-delete j k m)

  pub lookup-delete_inv :
      (j k : Str) {v : V} (m : List (Str × V))
      → lookup j (delete k m) ≡ some v
      → (j ≢ k) × (lookup j m ≡ some v)
  lookup-delete_inv j k m h = elim (Str-discrete j k) [
    | yes e ↦ absurd (ground (arith, lookup-delete j k m, h))
    | no ne ↦ (ne, sym (lookup-delete_ne j k m ne) ∙ h)
  ]

  pub lookup-assign_self :
      (j k : Str) (v : V) (m : List (Str × V)) → j ≡ k → lookup j (assign k v m) ≡ some v
  lookup-assign_self j k v m e = ground (arith, lookup-assign j k v m)

  pub lookup-assign_ne :
      (j k : Str) (v : V) (m : List (Str × V)) → j ≢ k → lookup j (assign k v m) ≡ lookup j m
  lookup-assign_ne j k v m ne = ground (arith, lookup-assign j k v m)

  pub length-delete-le : (k : Str) (m : List (Str × V)) → length (delete k m) ≤ length m
  unfolding delete
  length-delete-le k [] = omega arith
  length-delete-le k ((j, v) ∷ m) = ground (arith, length-delete-le k m)

  pub length-delete-lt :
      (k : Str) (m : List (Str × V)) → lookup k m ≢ none → length (delete k m) < length m
  unfolding delete lookup
  length-delete-lt k [] h = absurd (h refl)
  length-delete-lt k ((j, v) ∷ m) h = ground (arith, length-delete-le k m, length-delete-lt k m)

  pub length-assign-le :
      (k : Str) (v : V) (m : List (Str × V)) → length (assign k v m) ≤ length m + 1
  unfolding assign
  length-assign-le k v [] = omega arith
  length-assign-le k v ((j, w) ∷ m) = ground (arith, length-assign-le k v m)

  member-delete :
      (j k : Str) (m : List (Str × V))
      → member (keys (delete k m)) j ≡ ite (Str-discrete j k) false (member (keys m) j)
  unfolding member delete
  member-delete j k [] = ground arith
  member-delete j k ((i, v) ∷ m) = ground (arith, member-delete j k m)

  member-assign :
      (j k : Str) (v : V) (m : List (Str × V))
      → member (keys (assign k v m)) j ≡ ite (Str-discrete j k) true (member (keys m) j)
  unfolding member assign
  member-assign j k v [] = ground arith
  member-assign j k v ((i, w) ∷ m) = ground (arith, member-assign j k v m)

  pub delete-IsMap : (k : Str) (m : List (Str × V)) → IsMap m → IsMap (delete k m)
  unfolding delete member
  delete-IsMap k [] h = tt
  delete-IsMap k ((j, v) ∷ m) h = ground (arith, delete-IsMap k m h.1, member-delete j k m)

  pub assign-IsMap : (k : Str) (v : V) (m : List (Str × V)) → IsMap m → IsMap (assign k v m)
  unfolding assign member
  assign-IsMap k v [] h = (refl, tt)
  assign-IsMap k v ((j, w) ∷ m) h = ground (arith, assign-IsMap k v m h.1, member-assign j k v m)

  pub lookup-eq-none_of_member :
      (k : Str) (m : List (Str × V)) → member (keys m) k ≡ false → lookup k m ≡ none
  unfolding lookup member
  lookup-eq-none_of_member k [] h = refl
  lookup-eq-none_of_member k ((j, v) ∷ m) h = ground (arith, lookup-eq-none_of_member k m)
