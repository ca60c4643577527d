-- ===== src/Cache/Steps.antt =====
-- Every step of a goroutine keeps the invariant.
use native.Mathlib.Decide.{ℕ_discrete}
use mathlib.Core.Path.{subst}
use eksp.Base.{
  ℕ, Str, get_elem?, get_elem?-set_self, get_elem?-set_ne, set, Option, none, some, ◌≡◌, ◌≢◌, refl,
  sym, ◌∙◌, ap, Outcome, arith,
}
use eksp.Cache.{Cache, publish}
use eksp.Cache.System.{Pc, idle, direct, waiting, running, closing, returned, dead, System, moved}
use eksp.Cache.Invariant.{made, leads, PcOk, Inv, keep}

module _ {E V : Type 0} where
  same_key :
      (c : Cache E V) (id a : ℕ) {k key : Str} {o : Option (Outcome E V)}
      → get_elem? c.calls id ≡ some (made key none)
      → id ≡ a
      → get_elem? c.calls a ≡ some (made k o)
      → (k ≡ key) × (o ≡ none)
  same_key c id a {k} {key} {o} at e h =
      let same : some (made k o) ≡ some (made key none) =
        sym h ∙ subst (λ n. get_elem? c.calls n ≡ some (made key none)) e at in
      (ground (arith, same), ground (arith, same))

  -- A goroutine that leads no call for `key` does not notice that the call for `key` ends.
  PcOk-publish :
      (c : Cache E V) (id : ℕ) (key : Str) (r : Outcome E V) (p : Pc E V)
      → get_elem? c.calls id ≡ some (made key none)
      → ((b : ℕ) → leads p ≢ some (key, b))
      → PcOk c p
      → PcOk (publish id key r c) p
  unfolding publish
  PcOk-publish c id key r idle at other h = tt
  PcOk-publish c id key r (direct k) at other h = h
  PcOk-publish c id key r (waiting k a) at other (o, h) = elim (ℕ_discrete id a) [
    | yes e ↦ (
      some r,
      subst (λ n. get_elem? (set c.calls id (made key (some r))) n ≡ some (made k (some r))) e
          (get_elem?-set_self c.calls id (made key (some r)) at
            ∙ ap (λ j. some (made j (some r))) (sym (same_key c id a at e h).0)),
    )
    | no ne ↦ (o, get_elem?-set_ne c.calls id a (made key (some r)) ne ∙ h)
  ]
  PcOk-publish c id key r (running k a) at other (h, h') = (
    h,
    get_elem?-set_ne c.calls id a (made key (some r))
          (λ e. other a (ap (λ j. some (j, a)) (same_key c id a at e h').0))
        ∙ h',
  )
  PcOk-publish c id key r (closing k a q) at other (h, h') = (
    h,
    get_elem?-set_ne c.calls id a (made key (some r))
          (λ e. other a (ap (λ j. some (j, a)) (same_key c id a at e h').0))
        ∙ h',
  )
  PcOk-publish c id key r (returned k q cached) at other (a, h) = (
    a,
    get_elem?-set_ne c.calls id a (made key (some r))
          (λ e. let no = (same_key c id a at e h).1 in ground (arith, no))
        ∙ h,
  )
  PcOk-publish c id key r (dead k a) at other (h, h') = (
    h,
    get_elem?-set_ne c.calls id a (made key (some r))
          (λ e. other a (ap (λ j. some (j, a)) (same_key c id a at e h').0))
        ∙ h',
  )

  pub finish-Inv :
      (s : System E V) (i : ℕ) (key : Str) (id : ℕ) (r : Outcome E V)
      → Inv s
      → s.pc i ≡ running key id
      → Inv (moved s (publish id key r s.cache) i (closing key id r))
  unfolding publish
  finish-Inv s i key id r h e =
      let (flying, at) = subst (PcOk s.cache) e (h.pcs i) in
      let lead_i : leads (s.pc i) ≡ some (key, id) = ap leads e in
      keep s h i (closing key id r) (publish id key r s.cache) (sym lead_i) refl refl refl
        (flying, get_elem?-set_self s.cache.calls id (made key (some r)) at)
        (λ j ne.
          PcOk-publish s.cache id key r (s.pc j) at (λ b l. ne (h.unique i j key id b lead_i l))
            (h.pcs j))
        (λ k a pending. elim (ℕ_discrete id a) [
          | yes p ↦
              let no : some (made key (some r)) ≡ some (made k none) =
                sym (get_elem?-set_self s.cache.calls id (made key (some r)) at)
                ∙ subst
                    (λ n.
                      get_elem? (set s.cache.calls id (made key (some r))) n ≡ some (made k none))
                    (sym p) pending in
              ground (arith, no)
          | no ne ↦ sym (get_elem?-set_ne s.cache.calls id a (made key (some r)) ne) ∙ pending
        ])
        (λ k a q done.
          get_elem?-set_ne s.cache.calls id a (made key (some r))
            (λ p. let no = (same_key s.cache id a at p done).1 in ground (arith, no))
          ∙ done)
