-- ===== src/Base/Sort.antt =====
-- `sort.SliceStable` by the strict test of its `less` function: an insertion sort, which puts an
-- element behind those that it is not less than.
use mathlib.Core.Path.{◌≡◌, refl}
use mathlib.Core.Logic.{◌⊎◌, inl, inr}
use mathlib.Core.Bool.{Bool, true, false}
use mathlib.Core.List.{List, [], ◌∷◌, Perm}
use mathlib.Core.List.Perm
use native.Mathlib.Omega.{arith}
use Prim.Native.Nat.{ℕ, zero, suc}
use eksp.Base.Lists.{All, length, drop, take}
use eksp.Base.Tests.{if◌then◌else◌, Bool-cases}

module _ {ℓ} {A : Type ℓ} (less : A → A → Bool) where
  -- From the right: `x` comes before the elements of the tail unless one is less than it.
  unfoldable pub insert : A → List A → List A
  insert x [] = x ∷ []
  insert x (y ∷ ys) = if less y x then y ∷ insert x ys else x ∷ y ∷ ys

  unfoldable pub sort_stable : List A → List A
  unfolding insert
  sort_stable [] = []
  sort_stable (x ∷ xs) = insert x (sort_stable xs)

  insert-perm : (x : A) (ys : List A) → Perm (insert x ys) (x ∷ ys)
  unfolding insert
  insert-perm x [] = Perm.refl (x ∷ [])
  insert-perm x (y ∷ ys) = elim (Bool-cases (less y x)) [
    | inl e ↦ rw e (Perm.trans (Perm.cons y (insert-perm x ys)) (Perm.swap x y ys))
    | inr e ↦ rw e (Perm.refl (x ∷ y ∷ ys))
  ]

  pub sort_stable-perm : (xs : List A) → Perm (sort_stable xs) xs
  unfolding sort_stable
  sort_stable-perm [] = Perm.refl []
  sort_stable-perm (x ∷ xs) =
      Perm.trans (insert-perm x (sort_stable xs)) (Perm.cons x (sort_stable-perm xs))

  All-insert {κ} : (P : A → Type κ) (x : A) (ys : List A) → P x → All P ys → All P (insert x ys)
  unfolding insert
  All-insert P x [] hx h = (hx, tt)
  All-insert P x (y ∷ ys) hx h = elim (Bool-cases (less y x)) [
    | inl e ↦ rw e (h.0, All-insert P x ys hx h.1)
    | inr e ↦ rw e (hx, h)
  ]

  pub All-sort_stable {κ} : (P : A → Type κ) (xs : List A) → All P xs → All P (sort_stable xs)
  unfolding sort_stable
  All-sort_stable P [] h = tt
  All-sort_stable P (x ∷ xs) h = All-insert P x (sort_stable xs) h.0 (All-sort_stable P xs h.1)

  length-insert : (x : A) (ys : List A) → length (insert x ys) ≡ suc (length ys)
  unfolding insert
  length-insert x [] = refl
  length-insert x (y ∷ ys) = ground (arith, length-insert x ys)

  pub length-sort_stable : (xs : List A) → length (sort_stable xs) ≡ length xs
  unfolding sort_stable
  length-sort_stable [] = refl
  length-sort_stable (x ∷ xs) =
      omega (arith, length-insert x (sort_stable xs), length-sort_stable xs)

  -- No element is less than one before it.
  abbrev pub IsSorted : List A → Type 0
  IsSorted [] = Unit
  IsSorted (x ∷ xs) = All (λ y. less y x ≡ false) xs × IsSorted xs

module _ {ℓ κ} {A : Type ℓ} (less : A → A → Bool) (P : A → Type κ)
    (asymm : (a b : A) → less a b ≡ true → less b a ≡ false)
    (split : (a b c : A) → P b → less c a ≡ true → (less c b ≡ true) ⊎ (less b a ≡ true)) where
  not_less_of_first :
      (x y : A) (ys : List A)
      → P y
      → less y x ≡ false
      → All (λ z. less z y ≡ false) ys
      → All (λ z. less z x ≡ false) ys
  not_less_of_first x y [] p h hs = tt
  not_less_of_first x y (z ∷ zs) p h hs =
      (ground (arith, split x y z p), not_less_of_first x y zs p h hs.1)

  insert-IsSorted :
      (x : A) (ys : List A) → All P ys → IsSorted less ys → IsSorted less (insert less x ys)
  unfolding insert
  insert-IsSorted x [] p h = (tt, tt)
  insert-IsSorted x (y ∷ ys) p h = elim (Bool-cases (less y x)) [
    | inl e ↦ rw e (
      All-insert less (λ z. less z y ≡ false) x ys (asymm y x e) h.0,
      insert-IsSorted x ys p.1 h.1,
    )
    | inr e ↦ rw e ((e, not_less_of_first x y ys p.0 e h.0), h)
  ]

  -- On elements that the test orders, the result is sorted.
  pub sort_stable-IsSorted : (xs : List A) → All P xs → IsSorted less (sort_stable less xs)
  unfolding sort_stable
  sort_stable-IsSorted [] p = tt
  sort_stable-IsSorted (x ∷ xs) p =
      insert-IsSorted x (sort_stable less xs) (All-sort_stable less P xs p.1)
        (sort_stable-IsSorted xs p.1)

module _ {ℓ} {A : Type ℓ} (less : A → A → Bool) where
  All-drop {κ} : (P : A → Type κ) (n : ℕ) (xs : List A) → All P xs → All P (drop n xs)
  All-drop P zero xs h = h
  All-drop P (suc n) [] h = h
  All-drop P (suc n) (x ∷ xs) h = All-drop P n xs h.1

  -- Of a sorted list, no element after the first `n` is less than one of them.
  pub IsSorted-take :
      (n : ℕ) (xs : List A)
      → IsSorted less xs
      → All (λ x. All (λ y. less y x ≡ false) (drop n xs)) (take n xs)
  IsSorted-take zero xs h = tt
  IsSorted-take (suc n) [] h = tt
  IsSorted-take (suc n) (x ∷ xs) h =
      (All-drop (λ y. less y x ≡ false) n xs h.0, IsSorted-take n xs h.1)
