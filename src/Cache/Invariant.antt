-- ===== src/Cache/Invariant.antt =====
-- What holds of the goroutines and the cache at every moment, with the cache on.
use eksp.Base.{
  ℕ, ◌+◌, ◌≤◌, Str, lookup, length, get_elem?, Option, none, some, ◌≡◌, ◌≢◌, refl, sym, ◌∙◌, ap,
  pos, pos_part, ◌≤ℤ◌, Outcome, ok, arith,
}
use native.Mathlib.Decide.{ℕ_discrete}
use mathlib.Core.Path.{subst}
use mathlib.Core.Logic.{if_pos, if_neg}
use eksp.Cache.{max_cache_entries, Entry, Call, Cache}
use eksp.Cache.Maps.{IsMap}
use eksp.Cache.System.{
  Pc, idle, direct, waiting, running, closing, returned, dead, System, update, moved,
}

module _ {E V : Type 0} where
  abbrev pub made : Str → Option (Outcome E V) → Call E V
  made key r = record { key = key; result = r }

  -- The call that a goroutine leads, until it has left the map of calls in flight.
  abbrev pub leads : Pc E V → Option (Str × ℕ)
  leads (running k id) = some (k, id)
  leads (closing k id r) = some (k, id)
  leads (dead k id) = some (k, id)
  leads _ = none

  abbrev pub PcOk : Cache E V → Pc E V → Type 0
  PcOk c (running k id) =
      (lookup k c.inflight ≡ some id) × (get_elem? c.calls id ≡ some (made k none))
  PcOk c (closing k id r) =
      (lookup k c.inflight ≡ some id) × (get_elem? c.calls id ≡ some (made k (some r)))
  PcOk c (dead k id) = (lookup k c.inflight ≡ some id) × (get_elem? c.calls id ≡ some (made k none))
  PcOk c (waiting k id) = (o : Option (Outcome E V)) × (get_elem? c.calls id ≡ some (made k o))
  PcOk c (returned k r cached) = (id : ℕ) × (get_elem? c.calls id ≡ some (made k (some r)))
  PcOk c (direct k) = ⊥
  PcOk c idle = Unit

  pub record Inv (s : System E V) : Type 0 where
    pub positive : pos 1 ≤ℤ s.cache.ttl
    pub is_map : IsMap s.cache.entries
    pub bounded : length s.cache.entries ≤ max_cache_entries
    pub pcs : (i : ℕ) → PcOk s.cache (s.pc i)
    pub leader :
        (k : Str) (id : ℕ)
        → lookup k s.cache.inflight ≡ some id
        → (i : ℕ) × (leads (s.pc i) ≡ some (k, id))
    pub unique :
        (i j : ℕ) (k : Str) (a b : ℕ)
        → leads (s.pc i) ≡ some (k, a)
        → leads (s.pc j) ≡ some (k, b)
        → i ≡ j
    pub in_flight :
        (k : Str) (id : ℕ)
        → get_elem? s.cache.calls id ≡ some (made k none)
        → lookup k s.cache.inflight ≡ some id
    pub cached :
        (k : Str) (e : Entry V)
        → lookup k s.cache.entries ≡ some e
        → (id : ℕ) × (get_elem? s.cache.calls id ≡ some (made k (some (ok e.val))))
    pub timely :
        (k : Str) (e : Entry V)
        → lookup k s.cache.entries ≡ some e
        → e.exp ≤ s.now + pos_part s.cache.ttl

  -- A property of every goroutine, after one has moved.
  pub update-all {κ} :
      (P : Pc E V → Type κ) (pc : ℕ → Pc E V) (i : ℕ) (p : Pc E V)
      → P p
      → ((j : ℕ) → i ≢ j → P (pc j))
      → (j : ℕ) → P (update pc i p j)
  update-all P pc i p hp h j = elim (ℕ_discrete i j) [
    | yes e ↦ rw (if_pos _ e) hp
    | no ne ↦ rw (if_neg _ ne) (h j ne)
  ]

  pub leads-update_same :
      (pc : ℕ → Pc E V) (i : ℕ) (p : Pc E V)
      → leads p ≡ leads (pc i)
      → (j : ℕ) → leads (update pc i p j) ≡ leads (pc j)
  leads-update_same pc i p same j = elim (ℕ_discrete i j) [
    | yes e ↦ rw (if_pos _ e) (same ∙ ap (λ k. leads (pc k)) e)
    | no ne ↦ rw (if_neg _ ne)
  ]

  -- Once a goroutine has moved to where it leads nothing, who leads has led before, and is another.
  pub leads-update_quiet :
      (pc : ℕ → Pc E V) (i : ℕ) (p : Pc E V) (j : ℕ) {x : Str × ℕ}
      → leads p ≡ none
      → leads (update pc i p j) ≡ some x
      → (i ≢ j) × (leads (pc j) ≡ some x)
  leads-update_quiet pc i p j {x} none_now l = elim (ℕ_discrete i j) [
    | yes e ↦
        let no : none ≡ some x =
          sym none_now ∙ subst (λ q. leads q ≡ some x) (if_pos (ℕ_discrete i j) e p (pc j)) l in
        ground (arith, no)
    | no ne ↦ (ne, subst (λ q. leads q ≡ some x) (if_neg (ℕ_discrete i j) ne p (pc j)) l)
  ]

  pub leads-update_ne :
      (pc : ℕ → Pc E V) (i : ℕ) (p : Pc E V) (j : ℕ)
      → i ≢ j
      → leads (update pc i p j) ≡ leads (pc j)
  leads-update_ne pc i p j ne = ap leads (if_neg (ℕ_discrete i j) ne p (pc j))

  -- A goroutine moves and leads what it led, or nothing as before; the calls in flight, the entries
  -- and the time-to-live stay.
  module _ (s : System E V) (h : Inv s) (i : ℕ) (p : Pc E V) (c : Cache E V)
      (same : leads p ≡ leads (s.pc i)) (ttl : c.ttl ≡ s.cache.ttl)
      (entries : c.entries ≡ s.cache.entries) (inflight : c.inflight ≡ s.cache.inflight) where
    pub keep :
        PcOk c p
        → ((j : ℕ) → i ≢ j → PcOk c (s.pc j))
        → ((k : Str) (id : ℕ)
            → get_elem? c.calls id ≡ some (made k none)
            → get_elem? s.cache.calls id ≡ some (made k none))
        → ((k : Str) (id : ℕ) (r : Outcome E V)
            → get_elem? s.cache.calls id ≡ some (made k (some r))
            → get_elem? c.calls id ≡ some (made k (some r)))
        → Inv (moved s c i p)
    keep good others open_before done_after = record {
      positive = rw ttl h.positive;
      is_map = rw entries h.is_map;
      bounded = rw entries h.bounded;
      pcs = update-all (PcOk c) s.pc i p good others;
      leader = λ k id e.
          let (j, l) = h.leader k id (rw inflight at e) in
          (j, leads-update_same s.pc i p same j ∙ l);
      unique = λ j j' k a b e e'.
          h.unique j j' k a b (sym (leads-update_same s.pc i p same j) ∙ e)
            (sym (leads-update_same s.pc i p same j') ∙ e');
      in_flight = λ k id e. rw inflight (h.in_flight k id (open_before k id e));
      cached = λ k e found.
          let (id, at) = h.cached k e (rw entries at found) in (id, done_after k id (ok e.val) at);
      timely = λ k e found. rw ttl (h.timely k e (rw entries at found));
    }

  -- The cache as it was, but for a counter.
  pub step_quiet :
      (s : System E V) (i : ℕ) (p : Pc E V)
      → Inv s
      → leads p ≡ leads (s.pc i)
      → PcOk s.cache p
      → Inv (moved s s.cache i p)
  step_quiet s i p h same good =
      keep s h i p s.cache same refl refl refl good (λ j ne. h.pcs j) (λ k id e. e) (λ k id r e. e)
