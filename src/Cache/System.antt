-- ===== src/Cache/System.antt =====
-- Goroutines that call `do` on one cache, interleaved in any order. A step is one locked section, or
-- what a goroutine does between two. The counters move in the step of the lock before them: no step
-- reads them. `fn` may return anything, or panic; `net/http` recovers, and the call is abandoned.
use eksp.Base.{ℕ, ◌+◌, Str, get_elem?, List, Bool, true, false, some, ◌≡◌, ℤ, Outcome, ok}
use eksp.Cache.{
  Entry, Call, Cache, Decision, uncached, hit, join, lead, new_cache, begin, publish, store,
}
use eksp.Cache.Oldest.{IsOrder}
use native.Mathlib.Decide.{ℕ_discrete}
use mathlib.Core.Logic.{ite}

-- Where a goroutine stands in `do`.
pub data Pc (E V : Type 0) : Type 0 where
  idle : Pc E V
  -- runs `fn` with the cache off
  direct : Str → Pc E V
  -- at `<-call.done`
  waiting : Str → ℕ → Pc E V
  -- runs `fn` for the call
  running : Str → ℕ → Pc E V
  -- has closed `done`, before the second lock
  closing : Str → ℕ → Outcome E V → Pc E V
  -- has returned a result, and whether it came from the cache
  returned : Str → Outcome E V → Bool → Pc E V
  -- `fn` has panicked
  dead : Str → ℕ → Pc E V

pub record System (E V : Type 0) : Type 0 where
  pub cache : Cache E V
  pub now : ℕ
  pub pc : ℕ → Pc E V

abbrev pub update {ℓ} : {A : Type ℓ} → (ℕ → A) → ℕ → A → ℕ → A
update f i a j = ite (ℕ_discrete i j) a (f j)

module _ {E V : Type 0} where
  -- Where the first locked section leads.
  abbrev pub after_begin : Str → Decision V → Pc E V
  after_begin key uncached = direct key
  after_begin key (hit v) = returned key (ok v) true
  after_begin key (join id) = waiting key id
  after_begin key (lead id) = running key id

  abbrev pub moved : System E V → Cache E V → ℕ → Pc E V → System E V
  moved s c i p = record s { cache = c; pc = update s.pc i p }

  pub data Step (s : System E V) : System E V → Type 0 where
    call :
        (i : ℕ) (key : Str)
        → s.pc i ≡ idle
        → Step s
            (moved s (begin s.now key s.cache).1 i (after_begin key (begin s.now key s.cache).0))
    run_direct :
        (i : ℕ) (key : Str) (r : Outcome E V)
        → s.pc i ≡ direct key
        → Step s (moved s s.cache i (returned key r false))
    finish :
        (i : ℕ) (key : Str) (id : ℕ) (r : Outcome E V)
        → s.pc i ≡ running key id
        → Step s (moved s (publish id key r s.cache) i (closing key id r))
    panic :
        (i : ℕ) (key : Str) (id : ℕ)
        → s.pc i ≡ running key id
        → Step s (moved s s.cache i (dead key id))
    wake :
        (i : ℕ) (key : Str) (id : ℕ) (c : Call E V) (r : Outcome E V)
        → s.pc i ≡ waiting key id
        → get_elem? s.cache.calls id ≡ some c
        → c.result ≡ some r
        → Step s (moved s s.cache i (returned key r false))
    close :
        (i : ℕ) (key : Str) (id : ℕ) (r : Outcome E V)
        (order : ℕ → List (Str × Entry V) → List (Str × Entry V))
        → IsOrder order
        → s.pc i ≡ closing key id r
        → Step s (moved s (store order s.now key r s.cache) i (returned key r false))
    leave :
        (i : ℕ) (key : Str) (r : Outcome E V) (cached : Bool)
        → s.pc i ≡ returned key r cached
        → Step s (moved s s.cache i idle)
    tick : (d : ℕ) → Step s (record s { now = s.now + d })

  abbrev pub init : ℤ → System E V
  init ttl = record { cache = new_cache ttl; now = 0; pc = λ i. idle }

  pub data Reach (s : System E V) : System E V → Type 0 where
    here : Reach s s
    next : {t u : System E V} → Reach s t → Step t u → Reach s u
