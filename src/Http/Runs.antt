-- ===== src/Http/Runs.antt =====
-- What the shared cache of a live server returns: what a fetch for the same key has returned.
use mathlib.Core.Path.{subst}
use eksp.Base.{ℕ, Str, Bool, ℤ, pos, ◌≤ℤ◌, Outcome, ok, ◌≡◌, refl, sym, ap, Float, List, ◌+◌}
use eksp.Query.{Query, normalize}
use eksp.Query.Key.{cache_key-injective, cache_key-ne-summary}
use eksp.Cache.System.{
  idle, running, returned, dead, System, moved, Reach, here, next, call,
  run_direct as run_direct_of, finish as finish_of, panic, wake as wake_of, close as close_of, tick,
  init,
}
use eksp.Cache.Safety.{returned_sound}
use eksp.Fetch.{Failure}
use eksp.Service.{Value}
use eksp.Service.Assertions.{Ends, Reach-Kept}
use eksp.Http.Server.{Env}
use eksp.Http.Live.{
  Wanted, costs_of, the_summary, key_of, Fetches, Work, run_direct, finish, wake, close, entered,
}

module _ {F : Type 0} ⦃fl : Float F⦄ (env : ℕ → Env F) (quote : Str → Str) (tags : List Str) where
  -- What a handler may ask of the cache.
  abbrev pub IsAsked : Wanted → Type 0
  IsAsked (costs_of q') = (q : Query) × (normalize quote tags q ≡ ok q')
  IsAsked the_summary = Unit

  key_of-injective : (w w' : Wanted) → IsAsked w → IsAsked w' → key_of w ≡ key_of w' → w ≡ w'
  unfolding key_of
  key_of-injective (costs_of p) (costs_of q) (p', hp) (q', hq) e =
      ap costs_of (cache_key-injective quote tags p' q' hp hq e)
  key_of-injective (costs_of p) the_summary hp hq e = absurd (cache_key-ne-summary p e)
  key_of-injective the_summary (costs_of q) hp hq e = absurd (cache_key-ne-summary q (sym e))
  key_of-injective the_summary the_summary hp hq e = refl

  -- What `fn` may return for a key.
  abbrev pub IsFetched : Str → Outcome Failure (Value F) → Type 0
  IsFetched key r = (w : Wanted) × (key ≡ key_of w) × IsAsked w × Fetches env w r

  -- A cache that only handlers have used.
  abbrev pub Used : ℤ → System Failure (Value F) → Type 0
  Used ttl s = (reach : Reach (init ttl) s) × Ends IsFetched (init ttl) s reach

  module _ (ttl : ℤ) (s : System Failure (Value F)) (used : Used ttl s) (i : ℕ) (w : Wanted) where
    pub entered-Used : s.pc i ≡ idle → Used ttl (entered i w s)
    entered-Used e = (next used.0 (call i (key_of w) e), used.1)

    pub dead-Used :
        (id : ℕ)
        → s.pc i ≡ running (key_of w) id
        → Used ttl (moved s s.cache i (dead (key_of w) id))
    dead-Used id e = (next used.0 (panic i (key_of w) id e), used.1)

    pub Work-Used : {t : System Failure (Value F)} → IsAsked w → Work env i w s t → Used ttl t
    Work-Used asked (run_direct r e fetched) =
        (next used.0 (run_direct_of i (key_of w) r e), (used.1, (w, refl, asked, fetched)))
    Work-Used asked (finish id r e fetched) =
        (next used.0 (finish_of i (key_of w) id r e), (used.1, (w, refl, asked, fetched)))
    Work-Used asked (wake id c r e at done) =
        (next used.0 (wake_of i (key_of w) id c r e at done), used.1)
    Work-Used asked (close id r order any e) =
        (next used.0 (close_of i (key_of w) id r order any e), used.1)

    -- What it returns for a key is what a fetch for what has that key returned.
    pub returned-Fetches :
        (r : Outcome Failure (Value F)) (cached : Bool)
        → pos 1 ≤ℤ ttl
        → IsAsked w
        → s.pc i ≡ returned (key_of w) r cached
        → Fetches env w r
    returned-Fetches r cached on asked e =
        let (reach, ends) = used in
        let (id, at) = returned_sound ttl s i (key_of w) r cached on reach e in
        let (w', same, asked', fetched) =
          Reach-Kept IsFetched ttl s reach ends id (key_of w) r at in
        subst (λ v. Fetches env v r) (sym (key_of-injective w w' asked asked' same)) fetched

  pub tick-Used :
      (ttl : ℤ) (s : System Failure (Value F)) (d : ℕ)
      → Used ttl s
      → Used ttl (record s { now = s.now + d })
  tick-Used ttl s d (reach, ends) = (next reach (tick d), ends)

  pub init-Used : (ttl : ℤ) → Used ttl (init ttl)
  init-Used ttl = (here, tt)
