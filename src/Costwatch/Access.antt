-- ===== src/Costwatch/Access.antt =====
-- Which tags a started server answers for.
use mathlib.Core.Path.{subst}
use mathlib.Core.Logic.{if_pos, if_neg}
use eksp.Base.{
  Str, codes, Str-discrete, cut_prefix, trim_space, List, [], ◌∷◌, Bool, Bool-cases, Option, some,
  ◌≡◌, ◌↔◌, refl, sym, ap, ◌∙◌, inl, inr, ℤ, arith, Outcome, ok, err, Outcome-cases,
}
use eksp.Query.{allow_tags, Query, tag_prefix, normalize}
use eksp.Query.Normalize.{IsKnown}
use eksp.Fetch.{Failure, Request, Page}
use eksp.Http.Server.{new_server}
use eksp.Service.{with_ttl, with_allowed_tag_keys, new_service}
use eksp.Service.Tags.{IsListed, normalize-tag}
use eksp.Costwatch.{split_commas, Start, is_demo, options, set_up}

options-tags :
    (F : Type 0) (getenv : Str → Str) (parse_duration : Str → Option ℤ)
    → (new_service {F = F} (options getenv parse_duration)).allowed_tags
      ≡ allow_tags (split_commas (getenv (codes "ALLOWED_TAG_KEYS")))
unfolding new_service options with_ttl with_allowed_tag_keys Str-discrete trim_space allow_tags
options-tags F getenv parse_duration =
    let v = getenv (codes "ALLOWED_TAG_KEYS") in
    elim (Str-discrete v []) [
      | yes e ↦
          rw (if_pos (Str-discrete v []) e [] (with_allowed_tag_keys {F = F} (split_commas v) ∷ []))
            (no_parts v e)
      | no ne ↦
          rw
            (if_neg (Str-discrete v []) ne [] (with_allowed_tag_keys {F = F} (split_commas v) ∷ []))
            refl
    ]
  where
    no_parts : (v : Str) → v ≡ [] → [] ≡ allow_tags (split_commas v)
    no_parts v e = rw e refl

module _ {F : Type 0} (getenv : Str → Str) (parse_duration : Str → Option ℤ)
    (demo_client : Request → Outcome Failure Page)
    (aws_client : Outcome Str (Request → Outcome Failure Page)) where
  set_up-tags :
      (demo_flag : Bool) {st : Start F}
      → set_up getenv parse_duration demo_client aws_client demo_flag ≡ ok st
      → st.server.service.allowed_tags
        ≡ allow_tags (split_commas (getenv (codes "ALLOWED_TAG_KEYS")))
  unfolding set_up new_server
  set_up-tags demo_flag {st} e = sym (ap tags_of e) ∙ elim (Bool-cases (is_demo getenv demo_flag)) [
    | inl on ↦ rw (set_up, on) (options-tags F getenv parse_duration)
    | inr off ↦ elim (Outcome-cases aws_client) [
      | inl (client, loaded) ↦ rw (set_up, off, loaded) (options-tags F getenv parse_duration)
      | inr (message, failed) ↦
          let exits : err message ≡ ok st = rw (set_up, off, failed) at e in
          absurd (ground (arith, exits))
    ]
  ]
    where
      tags_of : Outcome Str (Start F) → List Str
      tags_of (err message) = []
      tags_of (ok st) = st.server.service.allowed_tags

  -- A server that has started answers a query of a known granularity that groups by a tag exactly if
  -- the tag is not empty and is one of the parts of ALLOWED_TAG_KEYS between commas, blanks around it
  -- apart: none if that is not set.
  pub set_up-accepts :
      (quote : Str → Str) (demo_flag : Bool) (q : Query) (tag : Str) {st : Start F}
      → set_up getenv parse_duration demo_client aws_client demo_flag ≡ ok st
      → IsKnown q.granularity
      → cut_prefix q.group_by tag_prefix ≡ some tag
      → ((r : Query) × (normalize quote st.server.service.allowed_tags q ≡ ok r))
        ↔ IsListed (split_commas (getenv (codes "ALLOWED_TAG_KEYS"))) tag
  unfolding with_allowed_tag_keys
  set_up-accepts quote demo_flag q tag {st} e known grouped =
      let parts = split_commas (getenv (codes "ALLOWED_TAG_KEYS")) in
      subst (λ tags. ((r : Query) × (normalize quote tags q ≡ ok r)) ↔ IsListed parts tag)
        (sym (set_up-tags demo_flag e))
        (normalize-tag quote st.server.service parts q tag known grouped)
