-- ===== src/Service/Tags.antt =====
-- Which cost-allocation tags a service answers for: those that `WithAllowedTagKeys` was given.
use mathlib.Core.Logic.{if_pos, if_neg}
use eksp.Base.{
  Str, Str-discrete, trim_space, cut_prefix, member, List, [], ◌∷◌, Bool, true, false, ◌||◌, holds,
  some, ◌≡◌, ◌≢◌, refl, sym, ap, ◌∙◌, ◌⊎◌, inl, inr, ◌↔◌, ok, arith,
}
use eksp.Query.{Query, tag_prefix, allow_tags, normalize, set_days}
use eksp.Query.Normalize.{IsKnown, normalize_sound, normalize_complete}
use eksp.Service.{Service, with_allowed_tag_keys}

-- The tag is one of the keys, blanks around it apart, and not empty.
abbrev pub IsListed : List Str → Str → Type 0
IsListed keys tag = (tag ≢ []) × (k : Str) × (member keys k ≡ true) × (trim_space k ≡ tag)

orb_cases : (a : Bool) {b : Bool} → (a || b) ≡ true → (a ≡ true) ⊎ (b ≡ true)
orb_cases true h = inl refl
orb_cases false h = inr h

member-allow_tags :
    (keys : List Str) (tag : Str) → (member (allow_tags keys) tag ≡ true) ↔ IsListed keys tag
unfolding allow_tags member
member-allow_tags [] tag =
    (λ h. absurd (ground (arith, h)), λ (_, k, here, _). absurd (ground (arith, here)))
member-allow_tags (k ∷ keys) tag =
    let t = trim_space k in
    let (to, from) = member-allow_tags keys tag in
    let later : IsListed keys tag → IsListed (k ∷ keys) tag =
      λ (full, j, here, same). (full, j, ground (arith, here), same) in
    elim (Str-discrete t []) [
      | yes e ↦ rw (if_pos (Str-discrete t []) e (allow_tags keys) (t ∷ allow_tags keys)) (
        λ h. later (to h),
        λ (full, j, here, same). elim (orb_cases (holds (Str-discrete j k)) here) [
          | inl first ↦
              let is : j ≡ k = ground (arith, first) in
              absurd (full (sym same ∙ ap trim_space is ∙ e))
          | inr rest ↦ from (full, j, rest, same)
        ],
      )
      | no ne ↦ rw (if_neg (Str-discrete t []) ne (allow_tags keys) (t ∷ allow_tags keys)) (
        λ h. elim (orb_cases (holds (Str-discrete tag t)) h) [
          | inl first ↦
              let is : tag ≡ t = ground (arith, first) in (λ e. ne (sym is ∙ e), k, self, sym is)
          | inr rest ↦ later (to rest)
        ],
        λ (full, j, here, same). elim (orb_cases (holds (Str-discrete j k)) here) [
          | inl first ↦
              let is : j ≡ k = ground (arith, first) in
              let found : tag ≡ t = sym same ∙ ap trim_space is in ground (arith, found)
          | inr rest ↦ let found = from (full, j, rest, same) in ground (arith, found)
        ],
      )
    ]
  where
    self : member (k ∷ keys) k ≡ true
    self = ground arith

module _ {F : Type 0} (quote : Str → Str) where
  -- A service that permits some tag keys answers a query of a known granularity that groups by a tag
  -- exactly if that tag is one of the keys, blanks around it apart, and not empty.
  pub normalize-tag :
      (s : Service F) (keys : List Str) (q : Query) (tag : Str)
      → IsKnown q.granularity
      → cut_prefix q.group_by tag_prefix ≡ some tag
      → ((r : Query) × (normalize quote (with_allowed_tag_keys keys s).allowed_tags q ≡ ok r))
        ↔ IsListed keys tag
  unfolding with_allowed_tag_keys member
  normalize-tag s keys q tag known grouped =
      let tags = (with_allowed_tag_keys keys s).allowed_tags in
      let (to, from) = member-allow_tags keys tag in
      (
        λ (r, accepted).
            let (_, allowed, _, _, same) = normalize_sound quote tags q accepted in
            let cut_as : cut_prefix r.group_by tag_prefix ≡ some tag =
              ap (λ g. cut_prefix g tag_prefix) same ∙ grouped in
            elim allowed [
              | inl (other, cut, here) ↦
                  let is : other ≡ tag = ground (arith, sym cut ∙ cut_as) in
                  to (sym (ap (member tags) is) ∙ here)
              | inr (cut, _) ↦ absurd (ground (arith, sym cut ∙ cut_as))
            ],
        λ listed. (
          record q { days = set_days q.granularity q.days },
          normalize_complete quote tags q known (inl (tag, grouped, from listed)),
        ),
      )
