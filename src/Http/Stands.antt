-- ===== src/Http/Stands.antt =====
-- Where the goroutine of a connection stands in the cache, by what the connection is at.
use mathlib.Core.Path.{subst}
use mathlib.Core.Logic.{if_pos, if_neg}
use native.Mathlib.Decide.{ℕ_discrete}
use eksp.Base.{
  ℕ, zero, suc, Str, List, [], ◌∷◌, ◌++◌, none, some, Option, get_elem?, set, get_elem?-set_self,
  get_elem?-set_ne, Float, ◌≡◌, ◌≢◌, ◌⊎◌, inl, inr, refl, sym, ap, ◌∙◌,
}
use eksp.Cache.{Decision, uncached, hit, join, lead, begin}
use eksp.Cache.System.{
  Pc, idle, direct, waiting, running, closing, returned, dead, System, update, after_begin,
}
use eksp.Fetch.{Failure}
use eksp.Service.{Value}
use eksp.Process.{
  Process, Step, tick, listen, listener_closed, listener_failed, crash, accept, turn, signal,
  shut_down, drained, forced, Reach, here, next,
}
use eksp.Http.Server.{HttpRequest, Reply, Env, Server}
use eksp.Http.Live.{
  Wanted, key_of, Route, Job, opened, handling, caching, answered, gone, Live, count, Turn, hang_up,
  request, reply_at_once, panic_at_once, enter_cache, work, panic_within, panic_direct,
  reply_cached, misread, finish_request, live_program, Work, run_direct, finish, wake, close,
}
use eksp.Http.Origin.{Reached}

module _ {E V : Type 0} where
  -- The key that a goroutine is in `do` for.
  abbrev pub key_at : Pc E V → Option Str
  key_at idle = none
  key_at (dead k id) = none
  key_at (direct k) = some k
  key_at (waiting k id) = some k
  key_at (running k id) = some k
  key_at (closing k id r) = some k
  key_at (returned k r cached) = some k

  -- The call whose `fn` it runs.
  abbrev pub runs : Pc E V → Option ℕ
  runs (running k id) = some id
  runs _ = none

  pub update_self : (pc : ℕ → Pc E V) (i : ℕ) (p : Pc E V) → update pc i p i ≡ p
  update_self pc i p = if_pos (ℕ_discrete i i) refl p (pc i)

  pub update_other : (pc : ℕ → Pc E V) (i j : ℕ) (p : Pc E V) → i ≢ j → update pc i p j ≡ pc j
  update_other pc i j p ne = if_neg (ℕ_discrete i j) ne p (pc j)

module _ {F : Type 0} where
  abbrev pub Stands : Option (Job F) → Pc Failure (Value F) → Type 0
  Stands none p = p ≡ idle
  Stands (some opened) p = p ≡ idle
  Stands (some (handling route r)) p = p ≡ idle
  Stands (some (caching route r w)) p = key_at p ≡ some (key_of w)
  Stands (some (answered route r reply)) p = runs p ≡ none
  Stands (some gone) p = runs p ≡ none

  abbrev pub AllStand : Process (Live F) (Job F) → Type 0
  AllStand s = (i : ℕ) → Stands (get_elem? s.connections i) (s.app.system.pc i)

  key_at-after_begin :
      (key : Str) (d : Decision (Value F)) → key_at {E = Failure} (after_begin key d) ≡ some key
  key_at-after_begin key uncached = refl
  key_at-after_begin key (hit v) = refl
  key_at-after_begin key (join id) = refl
  key_at-after_begin key (lead id) = refl

get_elem?-append_cases :
    {A : Type 0} (xs : List A) (a : A) (i : ℕ)
    → (get_elem? (xs ++ a ∷ []) i ≡ get_elem? xs i)
      ⊎ ((get_elem? xs i ≡ none) × (get_elem? (xs ++ a ∷ []) i ≡ some a))
get_elem?-append_cases [] a zero = inr (refl, refl)
get_elem?-append_cases [] a (suc i) = inl refl
get_elem?-append_cases (x ∷ xs) a zero = inl refl
get_elem?-append_cases (x ∷ xs) a (suc i) = get_elem?-append_cases xs a i

module _ {F : Type 0} ⦃fl : Float F⦄ (env : ℕ → Env F) (quote : Str → Str) where
  Work-self :
      {i : ℕ} {w : Wanted} {s t : System Failure (Value F)}
      → Work env i w s t
      → key_at (t.pc i) ≡ some (key_of w)
  Work-self {i} {w} {s} (run_direct r e fetched) = ap key_at (update_self s.pc i _)
  Work-self {i} {w} {s} (finish id r e fetched) = ap key_at (update_self s.pc i _)
  Work-self {i} {w} {s} (wake id c r e at done) = ap key_at (update_self s.pc i _)
  Work-self {i} {w} {s} (close id r order any e) = ap key_at (update_self s.pc i _)

  Work-other :
      {i : ℕ} {w : Wanted} {s t : System Failure (Value F)} (j : ℕ)
      → i ≢ j
      → Work env i w s t
      → t.pc j ≡ s.pc j
  Work-other {i} {w} {s} j ne (run_direct r e fetched) = update_other s.pc i j _ ne
  Work-other {i} {w} {s} j ne (finish id r e fetched) = update_other s.pc i j _ ne
  Work-other {i} {w} {s} j ne (wake id c r e at done) = update_other s.pc i j _ ne
  Work-other {i} {w} {s} j ne (close id r order any e) = update_other s.pc i j _ ne

  count-system :
      (route : Route) (r : HttpRequest) (reply : Reply F) (a : Live F)
      → (count route r reply a).system ≡ a.system
  unfolding count
  count-system (pattern, endpoint, none) r reply a = refl
  count-system (pattern, endpoint, some label) r reply a = refl

  Turn-self :
      {i : ℕ} {a b : Live F} {c c' : Job F}
      → Turn env quote i a c b c'
      → Stands (some c) (a.system.pc i)
      → Stands (some c') (b.system.pc i)
  Turn-self hang_up h = ap runs h
  Turn-self (request n route r at) h = h
  Turn-self (reply_at_once n t route r reply e) h = ap runs h
  Turn-self (panic_at_once n t route r e) h = ap runs h
  Turn-self {i} {a} (enter_cache n t route r w e free) h =
      ap key_at (update_self a.system.pc i _)
      ∙ key_at-after_begin (key_of w) (begin a.system.now (key_of w) a.system.cache).0
  Turn-self (work route r w system st) h = Work-self st
  Turn-self {i} {a} (panic_within route r w id e) h = ap runs (update_self a.system.pc i _)
  Turn-self (panic_direct route r w e) h = ap runs e
  Turn-self (reply_cached route r w o cached reply e reads) h = ap runs e
  Turn-self (misread route r w o cached e bad) h = ap runs e
  Turn-self {i} {a} (finish_request route r reply) h =
      ap (λ sys. runs (sys.pc i)) (count-system route r reply a) ∙ h

  Turn-other :
      {i : ℕ} {a b : Live F} {c c' : Job F} (j : ℕ)
      → i ≢ j
      → Turn env quote i a c b c'
      → b.system.pc j ≡ a.system.pc j
  Turn-other j ne hang_up = refl
  Turn-other j ne (request n route r at) = refl
  Turn-other j ne (reply_at_once n t route r reply e) = refl
  Turn-other j ne (panic_at_once n t route r e) = refl
  Turn-other {i} {a} j ne (enter_cache n t route r w e free) = update_other a.system.pc i j _ ne
  Turn-other j ne (work route r w system st) = Work-other j ne st
  Turn-other {i} {a} j ne (panic_within route r w id e) = update_other a.system.pc i j _ ne
  Turn-other j ne (panic_direct route r w e) = refl
  Turn-other j ne (reply_cached route r w o cached reply e reads) = refl
  Turn-other j ne (misread route r w o cached e bad) = refl
  Turn-other {i} {a} j ne (finish_request route r reply) =
      ap (λ sys. sys.pc j) (count-system route r reply a)

  Step-AllStand :
      {s u : Process (Live F) (Job F)} → Step (live_program env quote) s u → AllStand s → AllStand u
  Step-AllStand (tick d _) h = h
  Step-AllStand (listen _ e _) h = h
  Step-AllStand (listener_closed t _ e) h = h
  Step-AllStand (listener_failed _ _) h = h
  Step-AllStand (crash _ _ _ _ _) h = h
  Step-AllStand {s} (accept _ e) h = λ i. elim (get_elem?-append_cases s.connections opened i) [
    | inl same ↦ subst (λ o. Stands o (s.app.system.pc i)) (sym same) (h i)
    | inr (free, new) ↦
        subst (λ o. Stands o (s.app.system.pc i)) (sym new)
          (subst (λ o. Stands o (s.app.system.pc i)) free (h i))
  ]
  Step-AllStand {s} (turn i c c' a _ at t) h = λ j. elim (ℕ_discrete i j) [
    | yes e ↦
        subst (λ k. Stands (get_elem? (set s.connections i c') k) (a.system.pc k)) e
          (subst (λ o. Stands o (a.system.pc i)) (sym (get_elem?-set_self s.connections i c' at))
            (Turn-self t (subst (λ o. Stands o (s.app.system.pc i)) at (h i))))
    | no ne ↦
        subst (λ o. Stands o (a.system.pc j)) (sym (get_elem?-set_ne s.connections i j c' ne))
          (subst (λ p. Stands (get_elem? s.connections j) p) (sym (Turn-other j ne t)) (h j))
  ]
  Step-AllStand (signal _ e) h = h
  Step-AllStand (shut_down t _ e late) h = h
  Step-AllStand (drained t _ e shut done) h = h
  Step-AllStand (forced t _ e late) h = h

  Reach-AllStand :
      {s u : Process (Live F) (Job F)}
      → Reach (live_program env quote) s u
      → AllStand s
      → AllStand u
  Reach-AllStand here h = h
  Reach-AllStand (next r st) h = Step-AllStand st (Reach-AllStand r h)

  pub Reached-AllStand :
      (t : ℕ) (made : Server F) {s : Process (Live F) (Job F)}
      → Reached env quote t made s
      → AllStand s
  Reached-AllStand t made r = Reach-AllStand r (λ i. refl)
