-- ===== src/Cache/Oldest.antt =====
-- The inner loop of `sweepLocked`: it finds an entry of the map, one that expires first.
use mathlib.Core.List.{Mem, Perm, mem-cons, not-mem-nil, mem-cons_self, mem-cons_of_mem}
use mathlib.Core.Logic.Or
use mathlib.Core.Path.{subst}
use mathlib.Core.HLevel.{⊥_prop}
use native.Mathlib.Bridge.{le_prop}
use native.Mathlib.Nat.{ℕ_set}
use eksp.Base.{
  ℕ, ◌≤◌, Str, Str-discrete, lookup, List, [], ◌∷◌, foldl, ◌≡◌, ◌≢◌, refl, ap, sym, ◌∙◌, arith, inl,
  inr, ◌⊎◌, member, none, some, All,
}
use eksp.Cache.{Entry, older}
use eksp.Cache.Maps.{IsMap, lookup-eq-none_of_member}

module _ {ℓ} {V : Type ℓ} where
  -- Any order in which `range` may visit a map, another one in each round.
  abbrev pub IsOrder : (ℕ → List (Str × Entry V) → List (Str × Entry V)) → Type ℓ
  IsOrder order = (n : ℕ) (m : List (Str × Entry V)) → Perm (order n m) m

  pub mem_of_lookup :
      (k : Str) (m : List (Str × Entry V)) {e : Entry V} → lookup k m ≡ some e → Mem (k, e) m
  unfolding lookup
  mem_of_lookup k [] h = absurd (ground arith)
  mem_of_lookup k ((j, f) ∷ m) {e} h = elim (Str-discrete k j) [
    | yes p ↦
        let same : ◌≡◌ {A = Str × Entry V} (k, e) (j, f) = ground arith in rw same mem-cons_self
    | no p ↦ mem-cons_of_mem (j, f) (mem_of_lookup k m (ground arith))
  ]

  pub lookup_of_mem :
      (k : Str) (e : Entry V) (m : List (Str × Entry V)) → Mem (k, e) m → lookup k m ≢ none
  unfolding lookup
  lookup_of_mem k e [] h none_there = absurd (not-mem-nil h)
  lookup_of_mem k e ((j, f) ∷ m) h none_there =
      Or.elim ⊥_prop (mem-cons.0 h) (λ here. ground (arith, ap (λ p. p.0) here))
        (λ there. lookup_of_mem k e m there (ground arith))

  -- In a map the entry of a key is the one that its lookup finds.
  pub exp_of_mem :
      (k : Str) (e f : Entry V) (m : List (Str × Entry V))
      → IsMap m
      → Mem (k, e) m
      → lookup k m ≡ some f
      → e.exp ≡ f.exp
  unfolding lookup member
  exp_of_mem k e f [] h mem found = absurd (not-mem-nil mem)
  exp_of_mem k e f ((j, g) ∷ m) h mem found =
      Or.elim (ℕ_set _ _) (mem-cons.0 mem)
        (λ here. ground (arith, ap (λ p. p.0) here, ap (λ p. p.1) here))
        (λ there. elim (Str-discrete k j) [
          | yes p ↦ absurd (lookup_of_mem k e m there (lookup-eq-none_of_member k m (rw p h.0)))
          | no p ↦ exp_of_mem k e f m h.1 there (ground arith)
        ])

  pub All-mem-le :
      (x : ℕ) (l : List (Str × Entry V)) (p : Str × Entry V)
      → All (λ q. x ≤ q.1.exp) l
      → Mem p l
      → x ≤ p.1.exp
  All-mem-le x [] p h mem = absurd (not-mem-nil mem)
  All-mem-le x (q ∷ l) p h mem =
      Or.elim le_prop (mem-cons.0 mem) (λ here. rw here h.0) (All-mem-le x l p h.1)

  -- `best` is an entry of `l`, by its key and expiry.
  abbrev pub IsIn : Str × ℕ → List (Str × Entry V) → Type ℓ
  IsIn best l = (e : Entry V) × Mem (best.0, e) l × (e.exp ≡ best.1)

  older-cases :
      (best : Str × ℕ) (k : Str) (e : Entry V)
      → (older best (k, e) ≡ (k, e.exp)) ⊎ (older best (k, e) ≡ best)
  unfolding older
  older-cases best k e = ground arith

  -- The inner loop ends with an entry of `l`, or still with what it began with.
  foldl-older-IsIn :
      (best : Str × ℕ) (l : List (Str × Entry V))
      → (foldl older best l ≡ best) ⊎ IsIn (foldl older best l) l
  foldl-older-IsIn best [] = inl refl
  foldl-older-IsIn best ((k, e) ∷ l) = extend (foldl-older-IsIn (older best (k, e)) l)
    where
      r : Str × ℕ
      r = foldl older (older best (k, e)) l

      stop :
          (r ≡ older best (k, e))
          → (older best (k, e) ≡ (k, e.exp)) ⊎ (older best (k, e) ≡ best)
          → (r ≡ best) ⊎ IsIn r ((k, e) ∷ l)
      stop same (inl new) =
          inr (subst (λ b. IsIn b ((k, e) ∷ l)) (sym (same ∙ new)) (e, mem-cons_self, refl))
      stop same (inr old) = inl (same ∙ old)

      extend : (r ≡ older best (k, e)) ⊎ IsIn r l → (r ≡ best) ⊎ IsIn r ((k, e) ∷ l)
      extend (inl same) = stop same (older-cases best k e)
      extend (inr (f, mem, at)) = inr (f, mem-cons_of_mem (k, e) mem, at)

  older-le :
      (best : Str × ℕ) (k : Str) (e : Entry V)
      → best.0 ≢ []
      → k ≢ []
      → ((older best (k, e)).0 ≢ [])
        × ((older best (k, e)).1 ≤ best.1)
        × ((older best (k, e)).1 ≤ e.exp)
  unfolding older
  older-le best k e h hk = ground arith

  -- It ends with an expiry that is least.
  foldl-older-le :
      (best : Str × ℕ) (l : List (Str × Entry V))
      → best.0 ≢ []
      → All (λ p. p.0 ≢ []) l
      → ((foldl older best l).1 ≤ best.1) × All (λ p. (foldl older best l).1 ≤ p.1.exp) l
  foldl-older-le best [] h hl = (omega arith, tt)
  foldl-older-le best ((k, e) ∷ l) h (hk, hl) =
      let (named, le_best, le_e) = older-le best k e h hk in
      let (le, all_le) = foldl-older-le (older best (k, e)) l named hl in
      (omega arith, (omega arith, all_le))

  older-first : (k : Str) (e : Entry V) → older ([], 0) (k, e) ≡ (k, e.exp)
  unfolding older Str-discrete
  older-first k e = refl

  -- What the inner loop finds, from its zero values.
  abbrev pub first_out : List (Str × Entry V) → Str × ℕ
  first_out = foldl older ([], 0)

  pub first_out-IsIn : (l : List (Str × Entry V)) → l ≢ [] → IsIn (first_out l) l
  first_out-IsIn [] h = absurd (h refl)
  first_out-IsIn ((k, e) ∷ l) h =
      subst (λ b. IsIn (foldl older b l) ((k, e) ∷ l)) (sym (older-first k e))
        (grow (foldl-older-IsIn (k, e.exp) l))
    where
      r : Str × ℕ
      r = foldl older (k, e.exp) l

      grow : (r ≡ (k, e.exp)) ⊎ IsIn r l → IsIn r ((k, e) ∷ l)
      grow (inl same) = subst (λ b. IsIn b ((k, e) ∷ l)) (sym same) (e, mem-cons_self, refl)
      grow (inr (f, mem, at)) = (f, mem-cons_of_mem (k, e) mem, at)

  pub first_out-le :
      (l : List (Str × Entry V)) → All (λ p. p.0 ≢ []) l → All (λ p. (first_out l).1 ≤ p.1.exp) l
  first_out-le [] h = tt
  first_out-le ((k, e) ∷ l) h =
      subst (λ (b : Str × ℕ). All (λ p. (foldl older b l).1 ≤ p.1.exp) ((k, e) ∷ l))
        (sym (older-first k e)) (foldl-older-le (k, e.exp) l h.0 h.1)

  pub All-of_mem {κ} :
      (P : Str × Entry V → Type κ) (l : List (Str × Entry V))
      → ((p : Str × Entry V) → Mem p l → P p)
      → All P l
  All-of_mem P [] h = tt
  All-of_mem P (p ∷ l) h =
      (h p mem-cons_self, All-of_mem P l (λ q mem. h q (mem-cons_of_mem p mem)))
