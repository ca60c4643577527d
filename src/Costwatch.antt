-- ===== src/Costwatch.antt =====
-- The main function of costwatch, apps/costwatch/backend/cmd/costwatch/main.go: what it reads from its
-- flag and its environment, and the server that it makes of them; from there on, Costwatch/Life.antt. `getenv` gives "" for what is not set.
-- `parse_duration` is `time.ParseDuration`, in nanoseconds, with `none` for its error. The AWS client
-- is a parameter, or the error of loading its configuration, with which the process exits.
pub mod Access
pub mod Life
mod Tests
use mathlib.Core.Option
use mathlib.Core.Logic.{ite}
use eksp.Base.{
  ◌*◌, Str, codes, Str-discrete, List, [], ◌∷◌, Bool, true, ◌||◌, ◌==◌, holds, Option,
  if◌then◌else◌, ℤ, pos, Outcome, ok, err,
}
use eksp.Fetch.{Failure, Request, Page}
use eksp.Time.{hour}
use eksp.Service.{Service, second, with_ttl, with_allowed_tag_keys, new_service}
use eksp.Http.Server.{Server, new_server}

-- `strings.Split(s, ",")`
unfoldable pub split_commas : Str → List Str
split_commas [] = [] ∷ []
split_commas (c ∷ s) =
    let rest = split_commas s in
    if c == b','
    then [] ∷ rest
    else elim rest [ [] ↦ (c ∷ []) ∷ [] | part ∷ parts ↦ (c ∷ part) ∷ parts ]

-- What `main` has made when it starts to listen.
pub record Start (F : Type 0) : Type 0 where
  pub client : Request → Outcome Failure Page
  pub server : Server F
  pub addr : Str
  pub read_header_timeout : ℤ

module _ (getenv : Str → Str) where
  unfoldable pub is_demo : Bool → Bool
  is_demo demo_flag = demo_flag || holds (Str-discrete (getenv (codes "DEMO")) (codes "true"))

module _ (getenv : Str → Str) (parse_duration : Str → Option ℤ) where
  unfoldable pub cache_ttl : ℤ
  cache_ttl =
      let default = pos (6 * hour * second) in
      let v = getenv (codes "CACHE_TTL") in
      ite (Str-discrete v []) default (Option.get_or (parse_duration v) default)

  module _ {F : Type 0} where
    unfoldable pub options : List (Service F → Service F)
    unfolding split_commas with_ttl with_allowed_tag_keys cache_ttl
    options =
        let v = getenv (codes "ALLOWED_TAG_KEYS") in
        with_ttl cache_ttl
        ∷ ite (Str-discrete v []) [] (with_allowed_tag_keys (split_commas v) ∷ [])

    unfoldable pub set_up :
        (Request → Outcome Failure Page)
        → Outcome Str (Request → Outcome Failure Page)
        → Bool
        → Outcome Str (Start F)
    unfolding is_demo options new_service new_server
    set_up demo_client aws_client demo_flag =
        let demo = is_demo getenv demo_flag in
        let port = getenv (codes "PORT") in
        let made : (Request → Outcome Failure Page) → Start F = λ client. record {
          client = client;
          server = new_server (new_service options) demo;
          addr = b':' ∷ ite (Str-discrete port []) (codes "8080") port;
          read_header_timeout = pos (5 * second);
        } in
        if demo
        then ok (made demo_client)
        else elim aws_client [ err e ↦ err e | ok client ↦ ok (made client) ]
