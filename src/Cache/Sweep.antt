-- ===== src/Cache/Sweep.antt =====
-- `sweepLocked`: it ends below the cap, keeps nothing that has expired, and evicts by expiry.
use mathlib.Core.List.{Perm}
use mathlib.Core.List.Perm
use mathlib.Core.Path.{subst}
use eksp.Base.{
  ℕ, zero, suc, ◌≤◌, ◌<◌, Str, Str-discrete, lookup, length, List, [], ◌∷◌, ◌≡◌, ◌≢◌, refl, ap, sym,
  arith, inl, inr, false, Bool-cases, ltb, leb, member, if◌then◌else◌, none, some,
}
use eksp.Cache.{max_cache_entries, Entry, delete, drop_expired, oldest, evict, sweep}
use eksp.Cache.Maps.{
  keys, IsMap, lookup-delete, length-delete-lt, delete-IsMap, lookup-eq-none_of_member,
}
use eksp.Cache.Oldest.{
  IsOrder, mem_of_lookup, lookup_of_mem, exp_of_mem, All-mem-le, IsIn, first_out, first_out-IsIn,
  first_out-le, All-of_mem,
}

module _ {ℓ} {V : Type ℓ} where
  module _ (order : ℕ → List (Str × Entry V) → List (Str × Entry V)) (any : IsOrder order) where
    -- The entry that a round evicts is one of the map.
    evicted-IsIn : (n : ℕ) (m : List (Str × Entry V)) → m ≢ [] → IsIn (first_out (order n m)) m
    evicted-IsIn n m h =
        let (e, mem, at) =
          first_out-IsIn (order n m)
            (λ nil. h (sym (Perm.nil-eq (subst (λ l. Perm l m) nil (any n m))))) in
        (e, (Perm.mem_iff (any n m)).0 mem, at)

    evicted-le :
        (n : ℕ) (m : List (Str × Entry V)) (k : Str) {f : Entry V}
        → lookup [] m ≡ none
        → lookup k m ≡ some f
        → (first_out (order n m)).1 ≤ f.exp
    evicted-le n m k {f} blank found =
        All-mem-le (first_out (order n m)).1 (order n m) (k, f)
          (first_out-le (order n m) (
            All-of_mem (λ p. p.0 ≢ []) (order n m)
              (λ p mem named.
                lookup_of_mem p.0 p.1 m ((Perm.mem_iff (any n m)).0 mem)
                  (subst (λ k. lookup k m ≡ none) (sym named) blank))))
          ((Perm.mem_iff (any n m)).1 (mem_of_lookup k m found))

    evict-lt :
        (fuel : ℕ) (m : List (Str × Entry V))
        → length m ≤ fuel
        → length (evict order fuel m) < max_cache_entries
    unfolding evict
    evict-lt zero m h = omega arith
    evict-lt (suc fuel) m h = elim (Bool-cases (leb max_cache_entries (length m))) [
      | inl many ↦
          let (e, mem, _) = evicted-IsIn fuel m (λ nil. ground (arith, ap length nil)) in
          let key = (first_out (order fuel m)).0 in
          let shorter = length-delete-lt key m (lookup_of_mem key e m mem) in
          rw many (evict-lt fuel (delete key m) (omega arith))
      | inr few ↦ rw few (ground arith)
    ]

    -- Nothing comes into the map, and what leaves it expires no later than what stays.
    evict-lookup :
        (fuel : ℕ) (m : List (Str × Entry V)) (k : Str) {e : Entry V}
        → lookup k (evict order fuel m) ≡ some e
        → lookup k m ≡ some e
    unfolding evict
    evict-lookup zero m k h = h
    evict-lookup (suc fuel) m k {e} h =
        let key = oldest (order fuel m) in
        ground (arith, lookup-delete k key m, evict-lookup fuel (delete key m) k {e = e})

    evict-le :
        (fuel : ℕ) (m : List (Str × Entry V)) (j k : Str) {e f : Entry V}
        → IsMap m
        → lookup [] m ≡ none
        → lookup j m ≡ some e
        → lookup j (evict order fuel m) ≡ none
        → lookup k (evict order fuel m) ≡ some f
        → e.exp ≤ f.exp
    unfolding evict
    evict-le zero m j k h blank out gone kept = absurd (ground arith)
    evict-le (suc fuel) m j k {e} {f} h blank out gone kept =
        elim (Bool-cases (leb max_cache_entries (length m))) [
          | inl many ↦
              let (old, least) = first_out (order fuel m) in
              let m' = delete (first_out (order fuel m)).0 m in
              let gone' : lookup j (evict order fuel m') ≡ none = ground arith in
              let kept' : lookup k (evict order fuel m') ≡ some f = ground arith in
              let stays : lookup k m' ≡ some f = evict-lookup fuel m' k kept' in
              let stood : lookup k m ≡ some f = ground (arith, lookup-delete k old m) in
              elim (Str-discrete j old) [
                | yes p ↦
                    let (e', mem, at) =
                      evicted-IsIn fuel m (λ nil. ground (arith, ap length nil)) in
                    let same = exp_of_mem old e' e m h mem (rw p at out) in
                    omega (arith, same, at, evicted-le fuel m k blank stood)
                | no p ↦
                    evict-le fuel m' j k {e = e} {f = f} (delete-IsMap old m h)
                      (ground (arith, lookup-delete [] old m))
                      (ground (arith, lookup-delete j old m)) gone' kept'
              ]
          | inr few ↦ absurd (ground arith)
        ]

    evict-IsMap : (fuel : ℕ) (m : List (Str × Entry V)) → IsMap m → IsMap (evict order fuel m)
    unfolding evict
    evict-IsMap zero m h = h
    evict-IsMap (suc fuel) m h =
        let key = oldest (order fuel m) in
        ground (arith, evict-IsMap fuel (delete key m) (delete-IsMap key m h))

    evict_few :
        (fuel : ℕ) (m : List (Str × Entry V))
        → length m < max_cache_entries
        → evict order fuel m ≡ m
    unfolding evict
    evict_few zero m h = refl
    evict_few (suc fuel) m h = ground arith

  drop_expired-member :
      (now : ℕ) (k : Str) (m : List (Str × Entry V))
      → member (keys m) k ≡ false
      → member (keys (drop_expired now m)) k ≡ false
  unfolding drop_expired member
  drop_expired-member now k [] h = refl
  drop_expired-member now k ((j, e) ∷ m) h = ground (arith, drop_expired-member now k m)

  drop_expired-IsMap : (now : ℕ) (m : List (Str × Entry V)) → IsMap m → IsMap (drop_expired now m)
  unfolding drop_expired
  drop_expired-IsMap now [] h = tt
  drop_expired-IsMap now ((j, e) ∷ m) h =
      ground (arith, drop_expired-member now j m, drop_expired-IsMap now m h.1)

  lookup-drop_expired :
      (now : ℕ) (k : Str) (m : List (Str × Entry V))
      → IsMap m
      → lookup k (drop_expired now m)
        ≡ elim (lookup k m) [ none ↦ none | some e ↦ if ltb e.exp now then none else some e ]
  unfolding drop_expired lookup
  lookup-drop_expired now k [] h = refl
  lookup-drop_expired now k ((j, e) ∷ m) h =
      ground (arith, lookup-drop_expired now k m h.1, lookup-eq-none_of_member k m)

  -- What a sweep at time `now` leaves of the map `m`.
  pub record IsSwept (now : ℕ) (m swept : List (Str × Entry V)) : Type ℓ where
    pub bounded : length swept < max_cache_entries
    pub live :
        (k : Str) (e : Entry V) → lookup k swept ≡ some e → (lookup k m ≡ some e) × (now ≤ e.exp)
    pub evicted :
        (j k : Str) (e f : Entry V)
        → lookup j m ≡ some e
        → now ≤ e.exp
        → lookup j swept ≡ none
        → lookup k swept ≡ some f
        → e.exp ≤ f.exp
    pub kept :
        (k : Str) (e : Entry V)
        → length m < max_cache_entries
        → lookup k m ≡ some e
        → now ≤ e.exp
        → lookup k swept ≡ some e

  length-drop_expired-le :
      (now : ℕ) (m : List (Str × Entry V)) → length (drop_expired now m) ≤ length m
  unfolding drop_expired
  length-drop_expired-le now [] = omega arith
  length-drop_expired-le now ((k, e) ∷ m) = ground (arith, length-drop_expired-le now m)

  -- In whatever order the map is visited, and if no key is empty, a sweep leaves fewer entries than
  -- the cap, none of them expired and each as it was; an entry that it evicts though it has not
  -- expired expires no later than any that stays; and below the cap it evicts none.
  pub sweep-IsSwept :
      (order : ℕ → List (Str × Entry V) → List (Str × Entry V)) (now : ℕ) (m : List (Str × Entry V))
      → IsOrder order
      → IsMap m
      → lookup [] m ≡ none
      → IsSwept now m (sweep order now m)
  unfolding sweep
  sweep-IsSwept order now m any h blank =
      let live = drop_expired now m in
      let n = length live in
      record {
        bounded = evict-lt order any n live (omega arith);
        live = λ k e found.
            let in_live : lookup k live ≡ some e = evict-lookup order any n live k found in
            ground (arith, lookup-drop_expired now k m h);
        evicted = λ j k e f found fresh gone stays.
            let in_live : lookup j live ≡ some e = ground (arith, lookup-drop_expired now j m h) in
            let no_blank : lookup [] live ≡ none = ground (arith, lookup-drop_expired now [] m h) in
            evict-le order any n live j k {e = e} {f = f} (drop_expired-IsMap now m h) no_blank
              in_live gone stays;
        kept = λ k e few found fresh.
            let in_live : lookup k live ≡ some e = ground (arith, lookup-drop_expired now k m h) in
            rw (evict_few order any n live (omega (arith, length-drop_expired-le now m))) in_live;
      }

  pub sweep-lookup :
      (order : ℕ → List (Str × Entry V) → List (Str × Entry V)) (now : ℕ) (m : List (Str × Entry V))
      (k : Str) {e : Entry V}
      → IsOrder order
      → IsMap m
      → lookup k (sweep order now m) ≡ some e
      → lookup k m ≡ some e
  unfolding sweep
  sweep-lookup order now m k any h found =
      let live = drop_expired now m in
      let in_live = evict-lookup order any (length live) live k found in
      ground (arith, lookup-drop_expired now k m h)

  pub sweep-IsMap :
      (order : ℕ → List (Str × Entry V) → List (Str × Entry V)) (now : ℕ) (m : List (Str × Entry V))
      → IsOrder order
      → IsMap m
      → IsMap (sweep order now m)
  unfolding sweep
  sweep-IsMap order now m any h =
      let live = drop_expired now m in
      evict-IsMap order any (length live) live (drop_expired-IsMap now m h)

  pub sweep-lt :
      (order : ℕ → List (Str × Entry V) → List (Str × Entry V)) (now : ℕ) (m : List (Str × Entry V))
      → IsOrder order
      → length (sweep order now m) < max_cache_entries
  unfolding sweep
  sweep-lt order now m any =
      let live = drop_expired now m in evict-lt order any (length live) live (omega arith)
