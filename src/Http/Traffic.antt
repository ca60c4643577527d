-- ===== src/Http/Traffic.antt =====
-- What a live server answers, in whatever order its connections are served.
use eksp.Base.{
  ℕ, Str, List, Bool, none, some, ℤ, pos, ◌≤ℤ◌, Float, Outcome, ◌≡◌, ◌⊎◌, inl, inr, All, All-append,
  All-set, All-get_elem?, [], ◌∷◌,
}
use eksp.Fetch.{Failure}
use eksp.Service.{Value}
use eksp.Process.{
  Process, Step, tick, listen, listener_closed, listener_failed, crash, accept, turn, signal,
  shut_down, drained, forced, Reach, here, next,
}
use eksp.Http.Server.{HttpRequest, Reply, Env}
use eksp.Http.Live.{
  Wanted, Route, Job, opened, caching, answered, Live, reply_of, count, Fetches, replies, wants,
  Turn, hang_up, request, reply_at_once, panic_at_once, enter_cache, work, panic_within,
  panic_direct, reply_cached, misread, finish_request, live_program,
}
use eksp.Http.Asks.{Asked, ask-IsAsked}
use eksp.Http.Runs.{IsAsked, Used, entered-Used, dead-Used, Work-Used, returned-Fetches, tick-Used}

module _ {F : Type 0} ⦃fl : Float F⦄ (env : ℕ → Env F) (quote : Str → Str) (tags : List Str) where
  -- Where an answer comes from: from the handler alone, or from what a fetch has returned.
  abbrev pub Sourced : Route → HttpRequest → Reply F → Type 0
  Sourced route r reply =
      Asked env quote tags route r (replies reply)
      ⊎ ((w : Wanted) × Asked env quote tags route r (wants w)
          × (o : Outcome Failure (Value F)) × (cached : Bool) × Fetches env w o
          × (reply_of w (o, cached) ≡ some reply))

  abbrev pub JobOk : Job F → Type 0
  JobOk (caching route r w) = Asked env quote tags route r (wants w)
  JobOk (answered route r reply) = Sourced route r reply
  JobOk _ = Unit

  pub record Inv (ttl : ℤ) (a : Live F) : Type 0 where
    pub used : Used env quote tags ttl a.system
    pub same_tags : a.allowed_tags ≡ tags

  count-Inv :
      (ttl : ℤ) (route : Route) (r : HttpRequest) (reply : Reply F) (a : Live F)
      → Inv ttl a
      → Inv ttl (count route r reply a)
  unfolding count
  count-Inv ttl (pattern, endpoint, none) r reply a h = h
  count-Inv ttl (pattern, endpoint, some label) r reply a h = record {
    used = h.used;
    same_tags = h.same_tags;
  }

  -- What a handler asks of the cache it may ask of it.
  pub Asked-IsAsked :
      (route : Route) (r : HttpRequest) (w : Wanted)
      → Asked env quote tags route r (wants w)
      → IsAsked env quote tags w
  Asked-IsAsked route r w (n, t, s, same, e) = ask-IsAsked env quote tags n t s route.1 r w same e

  Turn-Inv :
      (ttl : ℤ) {i : ℕ} {a b : Live F} {c c' : Job F}
      → pos 1 ≤ℤ ttl
      → Turn env quote i a c b c'
      → Inv ttl a
      → JobOk c
      → Inv ttl b × JobOk c'
  Turn-Inv ttl on hang_up h ok_c = (h, tt)
  Turn-Inv ttl on (request n route r at) h ok_c = (h, tt)
  Turn-Inv ttl {a = a} on (reply_at_once n t route r reply e) h ok_c =
      (h, inl (n, t, a, h.same_tags, e))
  Turn-Inv ttl on (panic_at_once n t route r e) h ok_c = (h, tt)
  Turn-Inv ttl {i} {a} on (enter_cache n t route r w e free) h ok_c = (
    record {
      used = entered-Used env quote tags ttl a.system h.used i w free;
      same_tags = h.same_tags;
    },
    (n, t, a, h.same_tags, e),
  )
  Turn-Inv ttl {i} {a} on (work route r w system st) h ok_c = (
    record {
      used = Work-Used env quote tags ttl a.system h.used i w (Asked-IsAsked route r w ok_c) st;
      same_tags = h.same_tags;
    },
    ok_c,
  )
  Turn-Inv ttl {i} {a} on (panic_within route r w id e) h ok_c = (
    record {
      used = dead-Used env quote tags ttl a.system h.used i w id e;
      same_tags = h.same_tags;
    },
    tt,
  )
  Turn-Inv ttl on (panic_direct route r w e) h ok_c = (h, tt)
  Turn-Inv ttl {i} {a} on (reply_cached route r w o cached reply e reads) h ok_c = (
    h,
    inr (
      w,
      ok_c,
      o,
      cached,
      returned-Fetches env quote tags ttl a.system h.used i w o cached on
          (Asked-IsAsked route r w ok_c) e,
      reads,
    ),
  )
  Turn-Inv ttl on (misread route r w o cached e bad) h ok_c = (h, tt)
  Turn-Inv ttl {a = a} on (finish_request route r reply) h ok_c =
      (count-Inv ttl route r reply a h, tt)

  abbrev pub InvAll : ℤ → Process (Live F) (Job F) → Type 0
  InvAll ttl s = Inv ttl s.app × All JobOk s.connections

  Step-InvAll :
      (ttl : ℤ) {s u : Process (Live F) (Job F)}
      → pos 1 ≤ℤ ttl
      → Step (live_program env quote) s u
      → InvAll ttl s
      → InvAll ttl u
  Step-InvAll ttl {s} on (tick d _) (h, hs) = (
    record { used = tick-Used env quote tags ttl s.app.system d h.used; same_tags = h.same_tags },
    hs,
  )
  Step-InvAll ttl on (listen _ e _) h = h
  Step-InvAll ttl on (listener_closed t _ e) h = h
  Step-InvAll ttl on (listener_failed _ _) h = h
  Step-InvAll ttl on (crash _ _ _ _ _) h = h
  Step-InvAll ttl {s} on (accept _ e) (h, hs) =
      (h, All-append JobOk s.connections (opened ∷ []) hs (tt, tt))
  Step-InvAll ttl {s} on (turn i c c' a _ at t) (h, hs) =
      let (h', ok_c') = Turn-Inv ttl on t h (All-get_elem? JobOk s.connections i hs at) in
      (h', All-set JobOk s.connections i c' hs ok_c')
  Step-InvAll ttl on (signal _ e) h = h
  Step-InvAll ttl on (shut_down t _ e late) h = h
  Step-InvAll ttl on (drained t _ e shut done) h = h
  Step-InvAll ttl on (forced t _ e late) h = h

  pub Reach-InvAll :
      (ttl : ℤ) {s u : Process (Live F) (Job F)}
      → pos 1 ≤ℤ ttl
      → Reach (live_program env quote) s u
      → InvAll ttl s
      → InvAll ttl u
  Reach-InvAll ttl on here h = h
  Reach-InvAll ttl on (next r st) h = Step-InvAll ttl on st (Reach-InvAll ttl on r h)
