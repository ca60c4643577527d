-- ===== src/Demo/Range.antt =====
-- The periods that `fetchCosts` asks for, as the demo client reads them back.
use native.Mathlib.Decide.{ℕ_discrete}
use eksp.Base.{
  ℕ, zero, suc, ◌+◌, ◌-◌, ◌*◌, ◌/◌, ◌%◌, ◌≤◌, ◌<◌, Str, Str-discrete, pos_part, some, ◌≡◌, refl,
  sym, ap, ◌∙◌, inl, inr, arith,
}
use eksp.Query.{Query}
use eksp.Query.Normalize.{IsKnown}
use eksp.Time.{
  Time, hour, day, day_number, days_before_year, date_of, month_start, months_before, truncate_hour,
  days_before, format_date, format_rfc3339,
}
use eksp.Time.Days.{days_before_year_mono}
use eksp.Time.Civil.{
  day_number_lem, date_of-first, first_of, month_start-IsMonthOf, date_of_day-IsDateOf,
}
use eksp.Time.Texts.{
  parse_date-format_date, parse_date-format_rfc3339, parse_rfc3339-format_rfc3339,
}
use eksp.Summary.Calendar.{new_year, day_number-next}
use eksp.Fetch.{period_of}
use eksp.Demo.{parse_demo_time}

-- Where the year 10000 starts, before which dates have four digits.
abbrev pub year_10000 : Time
year_10000 = days_before_year 10000 * day

pub year_small : (t : Time) → t < year_10000 → (date_of t).year < 10000
unfolding date_of
year_small t h =
    let c = date_of t in
    let d = date_of_day-IsDateOf (t / day) in
    let n = day_number_lem c.year c.month c.day_of_month d.month_from d.month_to in
    elim (ℕ_discrete (10000 - c.year) 0) [
      | yes e ↦
          absurd
            (omega (arith, h, d.number, n, days_before_year_mono 10000 c.year (omega (arith, e))))
      | no ne ↦ omega (arith, ne)
    ]

-- What `parseDemoTime` reads of a time that was formatted in either layout, before the year 10000:
-- the start of its day from its date, and the time itself from RFC 3339.
pub parse_demo_time-format :
    (t : Time)
    → (date_of t).year < 10000
    → (parse_demo_time (format_date t) ≡ some (t / day * day))
      × (parse_demo_time (format_rfc3339 t) ≡ some t)
unfolding parse_demo_time
parse_demo_time-format t small = (
  rw (parse_demo_time, parse_date-format_date t small) refl,
  rw (parse_demo_time, parse_date-format_rfc3339 t small) (parse_rfc3339-format_rfc3339 t small),
)

-- The first day of the month with this index.
abbrev first_at : ℕ → Time
first_at i = day_number (i / 12) (i % 12 + 1) 1 * day

first_at-suc : (i : ℕ) → first_at i ≤ first_at (suc i)
first_at-suc i =
    let next = day_number-next (i / 12) (i % 12 + 1) (omega arith) (omega arith) in
    elim (ℕ_discrete (i % 12) 11) [
      | yes e ↦
          let year : suc i / 12 ≡ suc (i / 12) = omega (arith, e) in
          let month : suc i % 12 ≡ 0 = omega (arith, e) in
          let last : i % 12 + 1 + 1 ≡ 13 = omega (arith, e) in
          let turn : day_number (i / 12) (i % 12 + 1 + 1) 1
              ≡ day_number (suc i / 12) (suc i % 12 + 1) 1 =
            rw (year, month, last) (new_year (i / 12)) in
          omega (arith, next, turn)
      | no ne ↦
          let year : suc i / 12 ≡ i / 12 = omega (arith, ne) in
          let month : suc i % 12 ≡ i % 12 + 1 = omega (arith, ne) in
          let turn : day_number (i / 12) (i % 12 + 1 + 1) 1
              ≡ day_number (suc i / 12) (suc i % 12 + 1) 1 =
            rw (year, month) refl in
          omega (arith, next, turn)
    ]

first_at-sub : (i k : ℕ) → first_at (i - k) ≤ first_at i
first_at-sub i zero = let same : i - 0 ≡ i = omega arith in omega (arith, ap first_at same)
first_at-sub i (suc k) = elim (ℕ_discrete (i - k) 0) [
  | yes e ↦
      let same : i - suc k ≡ i - k = omega (arith, e) in
      omega (arith, ap first_at same, first_at-sub i k)
  | no ne ↦
      let next : suc (i - suc k) ≡ i - k = omega (arith, ne) in
      omega (arith, ap first_at next, first_at-suc (i - suc k), first_at-sub i k)
]

months_before-le : (k : ℕ) (t : Time) → months_before k (month_start t) ≤ t
unfolding months_before
months_before-le k t =
    let c = date_of t in
    let m = month_start-IsMonthOf t in
    let from = m.is_date.month_from in
    let to = m.is_date.month_to in
    let first : date_of (month_start t) ≡ first_of c.year c.month =
      ap date_of m.start ∙ date_of-first c.year c.month from to in
    let index = c.year * 12 + (c.month - 1) in
    let whole : month_start t % day ≡ 0 = omega (arith, m.start) in
    let year : index / 12 ≡ c.year = omega (arith, from, to) in
    let month : index % 12 + 1 ≡ c.month = omega (arith, from, to) in
    let is_start : first_at index ≡ month_start t = rw (year, month) (sym m.start) in
    let earlier : months_before k (month_start t) ≡ first_at (index - k) =
      rw (months_before, first, whole) (omega arith) in
    omega (arith, earlier, first_at-sub index k, is_start, m.start, m.days)

-- The period of a query as the demo client reads it: two instants, the one no later than the other,
-- and neither after now.
pub record IsRead (now : Time) (q : Query) : Type 0 where
  pub start_text : Str
  pub end_text : Str
  pub start : Time
  pub end : Time
  pub asked : period_of now q ≡ record { start = some start_text; end = some end_text }
  pub start_read : parse_demo_time start_text ≡ some start
  pub end_read : parse_demo_time end_text ≡ some end
  pub ordered : start ≤ end
  pub past : end ≤ now

pub period_of-IsRead :
    (now : Time) (q : Query) → now < year_10000 → IsKnown q.granularity → IsRead now q
unfolding period_of Str-discrete
period_of-IsRead now q small (inl e) =
    let end = truncate_hour now in
    let start = end - pos_part q.days * 24 * hour in
    record {
      start_text = format_rfc3339 start;
      end_text = format_rfc3339 end;
      start = start;
      end = end;
      asked = rw (period_of, e) refl;
      start_read = (parse_demo_time-format start (year_small start (omega (arith, small)))).1;
      end_read = (parse_demo_time-format end (year_small end (omega (arith, small)))).1;
      ordered = omega arith;
      past = omega arith;
    }
period_of-IsRead now q small (inr (inl e)) =
    let start = days_before (pos_part q.days) now in
    record {
      start_text = format_date start;
      end_text = format_date now;
      start = start / day * day;
      end = now / day * day;
      asked = rw (period_of, e) refl;
      start_read = (parse_demo_time-format start (year_small start (omega (arith, small)))).0;
      end_read = (parse_demo_time-format now (year_small now small)).0;
      ordered = omega arith;
      past = omega arith;
    }
period_of-IsRead now q small (inr (inr e)) =
    let start = months_before (pos_part q.days / 30 - 1) (month_start now) in
    let le = months_before-le (pos_part q.days / 30 - 1) now in
    record {
      start_text = format_date start;
      end_text = format_date now;
      start = start / day * day;
      end = now / day * day;
      asked = rw (period_of, e) refl;
      start_read = (parse_demo_time-format start (year_small start (omega (arith, small, le)))).0;
      end_read = (parse_demo_time-format now (year_small now small)).0;
      ordered = omega (arith, le);
      past = omega arith;
    }
