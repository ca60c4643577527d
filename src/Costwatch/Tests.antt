-- ===== src/Costwatch/Tests.antt =====
-- A start in demo mode, with two tag keys.
use mathlib.Core.Logic.{ite}
use eksp.Base.{
  whole_float, ◌*◌, Str, codes, Str-discrete, cut_prefix, [], ◌∷◌, true, false, Option, none, some,
  ◌≡◌, ◌↔◌, refl, inl, inr, ◌≢◌, ◌⊎◌, ◌+◌, ◌≤◌, ℕ, All, arith, ℤ, pos, Outcome, ok, err,
}
use eksp.Query.{Query, daily, tag_prefix, normalize}
use eksp.Fetch.{Failure, Request, Page}
use eksp.Http.Server.{new_server}
use eksp.Http.Server.{Env, text}
use eksp.Http.Live.{Job, gone, Live, live, live_program}
use eksp.Process.{
  Process, accepting, stopping, signal, shut_down, drained, Reach, here, next, launched,
}
use eksp.Service.{new_service, second}
use eksp.Service.Tags.{IsListed}
use eksp.Costwatch.{split_commas, Start, is_demo, options, set_up}
use eksp.Costwatch.Life.{stop_lem, accepts_always}

program : Unit {0}
unfolding Str-discrete cut_prefix split_commas is_demo options new_service new_server set_up
program = tt

abbrev getenv : Str → Str
getenv key = ite (Str-discrete key (codes "ALLOWED_TAG_KEYS")) (codes "team, env,") []

split_run : split_commas (codes "team, env,") ≡ codes "team" ∷ codes " env" ∷ [] ∷ []
unfolding program
split_run = refl

abbrev no_duration : Str → Option ℤ
no_duration s = none

abbrev failure : Failure
failure = record { message = codes "down"; is_hourly_not_enabled = false }

abbrev client : Request → Outcome Failure Page
client r = err failure

abbrev no_config : Outcome Str (Request → Outcome Failure Page)
no_config = err (codes "no region")

abbrev started : Start ℤ
started = record {
  client = client;
  server = new_server (new_service (options getenv no_duration)) true;
  addr = codes ":8080";
  read_header_timeout = pos (5 * second);
}

starts : set_up getenv no_duration client no_config true ≡ ok started
unfolding program
starts = refl

exits : set_up getenv no_duration {F = ℤ} client no_config false ≡ err (codes "no region")
unfolding program
exits = refl

abbrev as_is : Str → Str
as_is s = s

abbrev by_env : Query
by_env = record { granularity = daily; group_by = codes "TAG:env"; days = pos 7 }

env_cut : cut_prefix by_env.group_by tag_prefix ≡ some (codes "env")
unfolding program
env_cut = refl

-- It gets a signal, shuts its server down at once, and ends without a connection left.
abbrev env : ℕ → Env ℤ
env n = record {
  quote = as_is;
  order = λ n m. m;
  client = client;
  forecast = λ r. err failure;
  visit_totals = λ n m. m;
  visit_services = λ ks. ks;
  fuel = 1;
  version = codes "dev";
  uptime = codes "1s";
  opens = λ path. false;
  serve_file = λ path. record { codes_written = []; body = text [] };
  serve_metrics = record { codes_written = []; body = text [] };
}

abbrev launched_one : Process (Live ℤ) (Job ℤ)
launched_one = launched (live_program env as_is) 0 (live started.server)

abbrev ended_one : Process (Live ℤ) (Job ℤ)
ended_one = record launched_one { main = stopping 0; exited = some 0 }

ended-Reach : Reach (live_program env as_is) launched_one ended_one
ended-Reach =
    next (next (next here (signal refl refl)) (shut_down 0 refl refl (omega arith)))
      (drained 0 refl refl (λ e. ground (arith, e)) tt)

stop_lem_example :
    ((ended_one.listener ≢ accepting) × All (λ c. c ≡ gone) ended_one.connections)
    ⊎ (launched_one.now + 10 * second ≤ ended_one.now)
stop_lem_example = stop_lem env as_is 0 started.server here refl ended-Reach refl

accepts_always_example :
    ((r : Query) × (normalize as_is ended_one.app.allowed_tags by_env ≡ ok r))
    ↔ IsListed (split_commas (getenv (codes "ALLOWED_TAG_KEYS"))) (codes "env")
accepts_always_example =
    accepts_always getenv no_duration client no_config env as_is true by_env (codes "env") 0 starts
      ended-Reach (inr (inl refl)) env_cut
