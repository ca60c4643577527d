-- ===== src/Aggregate.antt =====
-- `aggregate`, apps/costwatch/backend/internal/costs/aggregate.go, with the series types of
-- types.go: from the periods of all pages to one series per group, aligned with the times, the
-- largest twelve kept and the rest folded into "Other". Each loop is a recursion over its variables.
-- `none` is the panic of an index out of range.
pub mod Groups
pub mod Cells
pub mod Track
pub mod Table
pub mod Cap
pub mod Order
mod Tests
use mathlib.Core.Option
use eksp.Base.{
  ℕ, zero, suc, Str, codes, lookup, length, take, drop, replicate, List, [], ◌∷◌, ◌++◌, map, foldl,
  Bool, false, Option, none, some, if◌then◌else◌, ltb, Float, sort_stable,
}
use eksp.Explorer.{DateInterval, MetricValue, Group, ResultByTime, unblended_cost}

abbrev pub max_groups : ℕ
max_groups = 12

pub record GroupSeries {ℓ} (F : Type ℓ) : Type ℓ where
  pub key : Str
  pub values : List F
  pub total : F

pub record Series {ℓ} (F : Type ℓ) : Type ℓ where
  pub times : List Str
  pub groups : List (GroupSeries F)
  pub total : F
  pub currency : Str
  pub fetched_at : ℕ
  pub cached : Bool

-- What a group of a period contributes: its first key, its amount, and a unit that is not empty.
pub record Point {ℓ} (F : Type ℓ) : Type ℓ where
  pub key : Str
  pub amount : F
  pub unit : Option Str

-- `series`, as far as the first loop fills it, with `groupIdx`.
pub record Progress {ℓ} (F : Type ℓ) : Type ℓ where
  pub times : List Str
  pub groups : List (GroupSeries F)
  pub group_idx : List (Str × ℕ)
  pub currency : Str

abbrev pub update {ℓ} : {A : Type ℓ} → ℕ → (A → A) → List A → List A
update i f [] = []
update zero f (x ∷ xs) = f x ∷ xs
update (suc i) f (x ∷ xs) = x ∷ update i f xs

unfoldable pub unit_of : MetricValue → Option Str
unit_of m = elim m.unit [ none ↦ none | some [] ↦ none | some (c ∷ s) ↦ some (c ∷ s) ]

-- `*r.TimePeriod.Start`, if neither pointer is nil.
unfoldable pub start_of : ResultByTime → Option Str
unfolding Option.bind
start_of r = Option.bind r.time_period (λ (d : DateInterval). d.start)

module _ {ℓ} {F : Type ℓ} ⦃fl : Float F⦄ where
  open fl use {nought, add, lt, parse_float}

  -- The reads of one group up to its `continue`s.
  unfoldable pub read_point : Group → Option (Point F)
  unfolding unit_of lookup Option.bind
  read_point g = elim g.keys [
    | [] ↦ none
    | key ∷ _ ↦ Option.bind (lookup unblended_cost g.metrics) λ metric.
        Option.bind metric.amount λ text.
          Option.map (λ v. record { key = key; amount = v; unit = unit_of metric })
            (parse_float text)
  ]

  -- `for len(values) < t { values = append(values, 0) }`; `t` rounds are enough.
  pad_loop : ℕ → ℕ → List F → List F
  pad_loop zero t vs = vs
  pad_loop (suc fuel) t vs = pad_loop fuel t (if ltb (length vs) t then vs ++ nought ∷ [] else vs)

  unfoldable pub pad : ℕ → List F → List F
  unfolding pad_loop
  pad t vs = pad_loop t t vs

  abbrev pub no_group : Str → GroupSeries F
  no_group key = record { key = key; values = []; total = nought }

  unfoldable pub extend : ℕ → F → GroupSeries F → GroupSeries F
  unfolding pad
  extend t amount g = record g {
    values = pad t g.values ++ amount ∷ [];
    total = add g.total amount;
  }

  -- `idx, ok := groupIdx[key]`, with the new group made if there is none.
  unfoldable pub add_point : ℕ → Progress F → Point F → Progress F
  unfolding extend lookup
  add_point t st p =
      let currency = Option.get_or p.unit st.currency in
      elim (lookup p.key st.group_idx) [
        | some idx ↦ record st {
          groups = update idx (extend t p.amount) st.groups;
          currency = currency;
        }
        | none ↦
            let idx = length st.groups in
            record st {
              groups = update idx (extend t p.amount) (st.groups ++ no_group p.key ∷ []);
              group_idx = (p.key, idx) ∷ st.group_idx;
              currency = currency;
            }
      ]

  unfoldable pub add_group : ℕ → Progress F → Group → Progress F
  unfolding read_point add_point
  add_group t st g = elim (read_point g) [ none ↦ st | some p ↦ add_point t st p ]

  unfoldable pub add_period : Progress F → ResultByTime → Progress F
  unfolding add_group start_of
  add_period st r = elim (start_of r) [
    | none ↦ st
    | some start ↦
        foldl (add_group (length st.times)) (record st { times = st.times ++ start ∷ [] }) r.groups
  ]

  abbrev pub no_progress : Progress F
  no_progress = record { times = []; groups = []; group_idx = []; currency = codes "USD" }

  unfoldable pub collect : List ResultByTime → Progress F
  unfolding add_period
  collect = foldl add_period no_progress

  -- The second loop: zero-fill.
  unfoldable pub align : ℕ → GroupSeries F → GroupSeries F
  unfolding pad
  align n g = record g { values = pad n g.values }

  -- `for t, v := range g.Values { other.Values[t] += v }`
  unfoldable pub add_values : List F → List F → Option (List F)
  add_values us [] = some us
  add_values [] (v ∷ vs) = none
  add_values (u ∷ us) (v ∷ vs) = Option.map (◌∷◌ (add u v)) (add_values us vs)

  unfoldable pub fold_other : GroupSeries F → List (GroupSeries F) → Option (GroupSeries F)
  unfolding add_values Option.bind
  fold_other other [] = some other
  fold_other other (g ∷ gs) =
      Option.bind (add_values other.values g.values)
        (λ vs. fold_other (record other { values = vs; total = add other.total g.total }) gs)

  abbrev pub more : GroupSeries F → GroupSeries F → Bool
  more a b = lt b.total a.total

  -- The cap, on groups that are sorted.
  unfoldable pub cap_groups : ℕ → List (GroupSeries F) → Option (List (GroupSeries F))
  unfolding fold_other
  cap_groups n gs =
      if ltb max_groups (length gs)
      then Option.map (λ other. take max_groups gs ++ other ∷ [])
          (fold_other (record (no_group (codes "Other")) { values = replicate n nought })
            (drop max_groups gs))
      else some gs

  unfoldable pub aggregate : ℕ → List ResultByTime → Option (Series F)
  unfolding collect align cap_groups sort_stable
  aggregate now results =
      let st = collect results in
      let n = length st.times in
      let aligned = map (align n) st.groups in
      Option.map
        (λ groups. record {
          times = st.times;
          groups = groups;
          total = foldl add nought (map (λ g. g.total) aligned);
          currency = st.currency;
          fetched_at = now;
          cached = false;
        })
        (cap_groups n (sort_stable more aligned))
