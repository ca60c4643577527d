-- ===== src/Demo/Periods.antt =====
-- The loops of the demo client over hours, days and months: that they end, and what they go through.
use mathlib.Core.Path.{subst}
use native.Mathlib.Decide.{dec_lt}
use eksp.Base.{
  ℕ, zero, suc, ◌+◌, ◌-◌, ◌*◌, ◌≤◌, ◌<◌, List, [], ◌∷◌, Bool-cases, some, ltb, ◌≡◌, refl, ◌⊎◌, true,
  inl, inr, arith, pos, Float,
}
use eksp.Time.{Time, day, date_of, day_number, month_start, months_after}
use eksp.Time.Civil.{month_start-IsMonthOf}
use eksp.Summary.Calendar.{after_first, day_number-next}
use eksp.Demo.Firsts.{IsFirst, months_after-IsFirst, months_after-least}
use eksp.Wave.{Math, hours, sub_time}
use eksp.Demo.{Period, max_time, step_periods, month_periods}

cut_lt : (a b : ℕ) → ltb a b ≡ true → a < b
cut_lt a b h = ground (arith, h)

not_empty :
    (cur a end : Time)
    → IsFirst cur
    → cur < end
    → a ≤ end
    → a < months_after 1 cur
    → (a < end) ⊎ ¬ IsFirst a
not_empty cur a end first before le inside = elim (dec_lt a end) [
  | yes lt ↦ inl lt
  | no ne ↦ inr (λ is_first.
      let least = months_after-least cur a first is_first (omega (arith, ne, before)) in
      absurd (omega (arith, least, inside)))
]

max_time_bounds :
    (a b c : Time) → a < c → b < c → (max_time a b < c) × (b ≤ max_time a b) × (a ≤ max_time a b)
unfolding max_time
max_time_bounds a b c h k = ground (arith, h, k)

max_time_le : (a b c : Time) → a ≤ c → b ≤ c → max_time a b ≤ c
unfolding max_time
max_time_le a b c h k = ground (arith, h, k)

max_time_left : (a b : Time) → b < a → max_time a b ≡ a
unfolding max_time
max_time_left a b h = ground (arith, h)

module _ {F : Type 0} ⦃fl : Float F⦄ ⦃m : Math F⦄ where
  open fl use {div}
  open m use {whole}

  -- One step after the other from `cur`, as long as they start before `end`.
  abbrev pub IsRun : ℕ → Time → Time → List (Period F) → Type 0
  IsRun step cur end [] = end ≤ cur
  IsRun step cur end (p ∷ ps) =
      (cur < end)
      × (p ≡ record { start = cur; end = cur + step; scale = whole (pos 1) })
      × IsRun step (cur + step) end ps

  pub step_periods-IsRun :
      (fuel step : ℕ) (cur end : Time)
      → 1 ≤ step
      → end - cur < fuel
      → (ps : List (Period F)) × (step_periods fuel step cur end ≡ some ps) × IsRun step cur end ps
  unfolding step_periods
  step_periods-IsRun zero step cur end le enough = absurd (omega (arith, enough))
  step_periods-IsRun (suc fuel) step cur end le enough = elim (Bool-cases (ltb cur end)) [
    | inr done ↦ ([], rw (step_periods, done) refl, ground (arith, done))
    | inl more ↦
        let before : cur < end = ground (arith, more) in
        let (ps, e, run) =
          step_periods-IsRun fuel step (cur + step) end le (omega (arith, before, le, enough)) in
        (
          record { start = cur; end = cur + step; scale = whole (pos 1) } ∷ ps,
          rw (step_periods, more, e) refl,
          (before, refl, run),
        )
  ]

  -- The periods from `a` to `b` without a gap, one for each month that begins before `b`, from `a` on:
  -- each ends where the next month starts, or, the last, at `b`, and is scaled by its days. It is empty
  -- only if `a` is `b` and lies within a month.
  abbrev pub Tiles : Time → Time → List (Period F) → Type 0
  Tiles a b [] = b ≤ a
  Tiles a b (p ∷ ps) =
      (p.start ≡ a)
      × ((a < b) ⊎ ¬ IsFirst a)
      × (((a < p.end) × (p.end ≤ b) × IsFirst p.end) ⊎ ((p.end ≡ b) × (a ≤ b) × (ps ≡ [])))
      × ((t : Time) → IsFirst t → a < t → p.end ≤ t)
      × (p.scale ≡ div (hours (sub_time p.end p.start)) (whole (pos 24)))
      × Tiles p.end b ps

  abbrev month_period : Time → Time → Period F
  month_period start end = record {
    start = start;
    end = end;
    scale = div (hours (sub_time end start)) (whole (pos 24));
  }

  Tiles-past : (a b : Time) (ps : List (Period F)) → b < a → IsFirst a → Tiles a b ps → ps ≡ []
  Tiles-past a b [] past first h = refl
  Tiles-past a b (p ∷ ps) past first h = elim h.1 [
    | inl before ↦ absurd (omega (arith, past, before))
    | inr within ↦ absurd (within first)
  ]

  -- The loop over months, from a month that `start` does not lie after.
  month_periods-from :
      (fuel : ℕ) (start cur end : Time)
      → IsFirst cur
      → start < months_after 1 cur
      → start ≤ end
      → end - cur < fuel
      → (ps : List (Period F)) × (month_periods fuel start cur end ≡ some ps)
        × Tiles (max_time cur start) end ps
  unfolding month_periods
  month_periods-from zero start cur end first inside le enough = absurd (omega (arith, enough))
  month_periods-from (suc fuel) start cur end first inside le enough =
      let next = months_after 1 cur in
      let (later, next-first) = months_after-IsFirst cur first in
      let (after, _) = months_after-IsFirst next next-first in
      let a = max_time cur start in
      let bounds : (a < next) × (start ≤ a) × (cur ≤ a) =
        max_time_bounds cur start next later inside in
      let least : (t : Time) → IsFirst t → a < t → next ≤ t =
        λ t is_first past. months_after-least cur t first is_first (omega (arith, bounds, past)) in
      elim (Bool-cases (ltb cur end)) [
        | inr done ↦ ([], rw (month_periods, done) refl, ground (arith, done, bounds))
        | inl more ↦
            let before : cur < end = ground (arith, more) in
            let le_end : a ≤ end = max_time_le cur start end (omega (arith, before)) le in
            let some_time = not_empty cur a end first before le_end (omega (arith, bounds)) in
            let (ps, e, tiles) =
              month_periods-from fuel start next end next-first (omega (arith, inside, after)) le
                (omega (arith, before, later, enough)) in
            let same : max_time next start ≡ next = max_time_left next start inside in
            let tiles' : Tiles next end ps = subst (λ t. Tiles t end ps) same tiles in
            elim (Bool-cases (ltb end next)) [
              | inl cut ↦ (
                month_period a end ∷ ps,
                rw (month_periods, more, e, cut) refl,
                (
                  refl,
                  some_time,
                  inr (
                    refl,
                    le_end,
                    Tiles-past next end ps (ground (arith, cut)) next-first tiles',
                  ),
                  λ t is_first past. omega (arith, least t is_first past, cut_lt end next cut),
                  refl,
                  rw (Tiles-past next end ps (ground (arith, cut)) next-first tiles') (omega arith),
                ),
              )
              | inr whole_month ↦ (
                month_period a next ∷ ps,
                rw (month_periods, more, e, whole_month) refl,
                (
                  refl,
                  some_time,
                  inl (omega (arith, bounds), ground (arith, whole_month), next-first),
                  least,
                  refl,
                  tiles',
                ),
              )
            ]
      ]

  -- From an instant to a later one, the loop over months ends, given a round for each second between
  -- them and one more, with periods that lead from the one to the other without a gap, a month each.
  pub month_periods-Tiles :
      (fuel : ℕ) (start end : Time)
      → start ≤ end
      → end - month_start start < fuel
      → (ps : List (Period F)) × (month_periods fuel start (month_start start) end ≡ some ps)
        × Tiles start end ps
  unfolding max_time
  month_periods-Tiles fuel start end le enough =
      let cur = month_start start in
      let c = date_of start in
      let m = month_start-IsMonthOf start in
      let from = m.is_date.month_from in
      let to = m.is_date.month_to in
      let first : IsFirst cur = (c.year, c.month, from, to, m.start) in
      let next : months_after 1 cur ≡ day_number c.year (c.month + 1) 1 * day = after_first start in
      let inside : start < months_after 1 cur = omega (
        arith,
        next,
        m.days,
        m.is_date.day_to,
        m.is_date.day_from,
        day_number-next c.year c.month from to,
      ) in
      let not_after : cur ≤ start = omega (arith, m.start, m.days) in
      let (ps, e, tiles) = month_periods-from fuel start cur end first inside le enough in
      let same : max_time cur start ≡ start = ground (arith, not_after) in
      (ps, e, subst (λ t. Tiles t end ps) same tiles)
