-- ===== src/Costwatch/Life.antt =====
-- The life of costwatch, from the goroutine that listens to the exit: `main` of
-- apps/costwatch/backend/cmd/costwatch/main.go once it has made its server, with the connections of
-- Http/Live.antt.
use mathlib.Core.Path.{subst}
use eksp.Base.{
  ℕ, ◌+◌, ◌≤◌, Str, codes, cut_prefix, some, Outcome, ok, ◌≡◌, ◌≢◌, ◌⊎◌, ◌↔◌, inl, inr, refl, sym,
  ◌∙◌, ◌*◌, ℤ, none, All, Option, Bool, Float, arith,
}
use eksp.Query.{Query, tag_prefix, normalize}
use eksp.Query.Normalize.{IsKnown}
use eksp.Fetch.{Failure, Request, Page}
use eksp.Service.{second}
use eksp.Service.Tags.{IsListed}
use eksp.Http.Server.{HttpRequest, Reply, Env, Server}
use eksp.Http.Live.{
  Route, Job, gone, Live, Turn, hang_up, request, reply_at_once, panic_at_once, enter_cache, work,
  panic_within, panic_direct, reply_cached, misread, finish_request, count, live_program,
}
use eksp.Http.Origin.{Reached}
use eksp.Process.{
  Process, accepting, waiting, Step, tick, listen, listener_closed, listener_failed, crash, accept,
  turn, signal, shut_down, drained, forced, Reach, here, next,
}
use eksp.Process.Times.{ended-Drained}
use eksp.Costwatch.{split_commas, Start, set_up}
use eksp.Costwatch.Access.{set_up-accepts}

count-tags :
    {F : Type 0} (route : Route) (r : HttpRequest) (reply : Reply F) (s : Live F)
    → (count route r reply s).allowed_tags ≡ s.allowed_tags
unfolding count
count-tags (pattern, endpoint, none) r reply s = refl
count-tags (pattern, endpoint, some label) r reply s = refl

module _ {F : Type 0} ⦃fl : Float F⦄ (env : ℕ → Env F) (quote : Str → Str) where
  -- No request changes the tags that the server answers for.
  Turn-tags :
      {i : ℕ} {s s' : Live F} {c c' : Job F}
      → Turn env quote i s c s' c'
      → s'.allowed_tags ≡ s.allowed_tags
  Turn-tags hang_up = refl
  Turn-tags (request n route r at) = refl
  Turn-tags (reply_at_once n t route r reply e) = refl
  Turn-tags (panic_at_once n t route r e) = refl
  Turn-tags (enter_cache n t route r w e free) = refl
  Turn-tags (work route r w system st) = refl
  Turn-tags (panic_within route r w id e) = refl
  Turn-tags (panic_direct route r w e) = refl
  Turn-tags (reply_cached route r w o cached reply e reads) = refl
  Turn-tags (misread route r w o cached e bad) = refl
  Turn-tags {s = s} (finish_request route r reply) = count-tags route r reply s

  Step-tags :
      {s u : Process (Live F) (Job F)}
      → Step (live_program env quote) s u
      → u.app.allowed_tags ≡ s.app.allowed_tags
  Step-tags (tick d on) = refl
  Step-tags (listen on e _) = refl
  Step-tags (listener_closed t on e) = refl
  Step-tags (listener_failed on _) = refl
  Step-tags (crash i c on at dies) = refl
  Step-tags (accept on e) = refl
  Step-tags (turn i c c' a on at t) = Turn-tags t
  Step-tags (signal on e) = refl
  Step-tags (shut_down t on e late) = refl
  Step-tags (drained t on e shut done) = refl
  Step-tags (forced t on e late) = refl

  Reach-tags :
      {s u : Process (Live F) (Job F)}
      → Reach (live_program env quote) s u
      → u.app.allowed_tags ≡ s.app.allowed_tags
  Reach-tags here = refl
  Reach-tags (next r st) = Step-tags st ∙ Reach-tags r

  -- From the last moment at which costwatch has got no signal: when it exits with 0, every connection
  -- is closed and the listener takes no more, or 10 seconds have passed.
  pub stop_lem :
      (t : ℕ) (made : Server F) {s u : Process (Live F) (Job F)}
      → Reached env quote t made s
      → s.main ≡ waiting
      → Reach (live_program env quote) s u
      → u.exited ≡ some 0
      → ((u.listener ≢ accepting) × All (λ c. c ≡ gone) u.connections)
        ⊎ (s.now + 10 * second ≤ u.now)
  stop_lem t made before quiet after e =
      let (late, end) = ended-Drained (live_program env quote) before quiet after e in
      elim end [ inl done ↦ inl done | inr over ↦ inr (omega (arith, over)) ]

module _ {F : Type 0} ⦃fl : Float F⦄ (getenv : Str → Str) (parse_duration : Str → Option ℤ)
    (demo_client : Request → Outcome Failure Page)
    (aws_client : Outcome Str (Request → Outcome Failure Page)) where
  -- As long as costwatch lives, whatever it is asked and in whatever order, it accepts a query of a
  -- known granularity that groups by a tag exactly if the tag is not empty and is one of the parts of
  -- ALLOWED_TAG_KEYS between commas, blanks around it apart: none if that is not set.
  pub accepts_always :
      (env : ℕ → Env F) (quote : Str → Str) (demo_flag : Bool) (q : Query) (tag : Str)
      {st : Start F} (t : ℕ) {s : Process (Live F) (Job F)}
      → set_up getenv parse_duration demo_client aws_client demo_flag ≡ ok st
      → Reached env quote t st.server s
      → IsKnown q.granularity
      → cut_prefix q.group_by tag_prefix ≡ some tag
      → ((r : Query) × (normalize quote s.app.allowed_tags q ≡ ok r))
        ↔ IsListed (split_commas (getenv (codes "ALLOWED_TAG_KEYS"))) tag
  accepts_always env quote demo_flag q tag {st} t {s} e reached known grouped =
      subst
        (λ allowed.
          ((r : Query) × (normalize quote allowed q ≡ ok r))
          ↔ IsListed (split_commas (getenv (codes "ALLOWED_TAG_KEYS"))) tag)
        (sym (Reach-tags env quote reached))
        (set_up-accepts getenv parse_duration demo_client aws_client quote demo_flag q tag e known
          grouped)
