-- ===== src/Summary/Calendar.antt =====
-- The windows of the summary: this month up to now, and as many whole days of the last month.
use mathlib.Core.Path.{subst}
use native.Mathlib.Decide.{ℕ_discrete}
use eksp.Base.{ℕ, suc, ◌+◌, ◌-◌, ◌*◌, ◌/◌, ◌%◌, ◌≤◌, ◌<◌, ◌≡◌, ◌↔◌, refl, sym, ap, ◌∙◌, arith}
use eksp.Time.{
  Time, day, Date, days_in_month, days_of_months, day_number, date_of, month_start, months_after,
  months_before,
}
use eksp.Time.Days.{days_before_year-suc, days_in_month-range, twelve_months}
use eksp.Time.Civil.{
  day_number_lem, days_of_months-snoc, date_of-first, first_of, month_start-IsMonthOf,
}
use eksp.Summary.{Windows, windows_of}

-- The month before that of `c`, as its year and its number.
abbrev pub year_before : Date → ℕ
year_before c = (c.year * 12 + (c.month - 1) - 1) / 12

abbrev pub month_before : Date → ℕ
month_before c = (c.year * 12 + (c.month - 1) - 1) % 12 + 1

no_months : (y : ℕ) → days_of_months y 0 1 ≡ 0
unfolding days_of_months
no_months y = refl

pub new_year : (y : ℕ) → day_number y 13 1 ≡ day_number (suc y) 1 1
unfolding day_number
new_year y =
    let next : y + (13 - 1) / 12 ≡ suc y = omega arith in
    let same : suc y + (1 - 1) / 12 ≡ suc y = omega arith in rw (next, same) refl

december : (y : ℕ) → day_number y 13 1 ≡ day_number y 12 1 + days_in_month y 12
december y = omega (
  arith,
  new_year y,
  day_number_lem (suc y) 1 1 (omega arith) (omega arith),
  days_before_year-suc y,
  day_number_lem y 12 1 (omega arith) (omega arith),
  twelve_months y,
  days_of_months-snoc y 11 1,
  no_months (suc y),
)

-- A month ends where the next one starts.
pub day_number-next :
    (y m : ℕ) → 1 ≤ m → m ≤ 12 → day_number y (m + 1) 1 ≡ day_number y m 1 + days_in_month y m
day_number-next y m from to = elim (ℕ_discrete m 12) [
  | yes e ↦
      subst (λ k. day_number y (k + 1) 1 ≡ day_number y k 1 + days_in_month y k) (sym e)
        (december y)
  | no ne ↦
      let count : suc (m - 1) ≡ m = omega (arith, from) in
      let index : 1 + (m - 1) ≡ m = omega (arith, from) in
      let last : m + 1 - 1 ≡ m = omega arith in
      omega (
        arith,
        day_number_lem y (m + 1) 1 (omega arith) (omega (arith, ne)),
        day_number_lem y m 1 from to,
        days_of_months-snoc y (m - 1) 1,
        ap (days_in_month y) index,
        ap (λ k. days_of_months y k 1) count,
        ap (λ k. days_of_months y k 1) last,
      )
]

day_number-before :
    (y m : ℕ)
    → 1 ≤ y
    → 1 ≤ m
    → m ≤ 12
    → day_number ((y * 12 + (m - 1) - 1) / 12) ((y * 12 + (m - 1) - 1) % 12 + 1) 1
        + days_in_month ((y * 12 + (m - 1) - 1) / 12) ((y * 12 + (m - 1) - 1) % 12 + 1)
      ≡ day_number y m 1
day_number-before y m year from to = elim (ℕ_discrete m 1) [
  | yes e ↦
      let prev_year : (y * 12 + (m - 1) - 1) / 12 ≡ y - 1 = omega (arith, e, year) in
      let prev_month : (y * 12 + (m - 1) - 1) % 12 + 1 ≡ 12 = omega (arith, e, year) in
      let this_year : suc (y - 1) ≡ y = omega (arith, year) in
      rw (prev_year, prev_month)
        (sym (december (y - 1))
          ∙ new_year (y - 1)
          ∙ ap (λ k. day_number k 1 1) this_year
          ∙ ap (λ k. day_number y k 1) (sym e))
  | no ne ↦
      let same_year : (y * 12 + (m - 1) - 1) / 12 ≡ y = omega (arith, ne, from, to) in
      let prev_month : (y * 12 + (m - 1) - 1) % 12 + 1 ≡ m - 1 = omega (arith, ne, from, to) in
      let this_month : m - 1 + 1 ≡ m = omega (arith, from) in
      rw (same_year, prev_month)
        (sym (day_number-next y (m - 1) (omega (arith, ne, from)) (omega (arith, to)))
          ∙ ap (λ k. day_number y k 1) this_month)
]

pub record IsWindows (now : Time) (c : Date) (w : Windows) : Type 0 where
  -- the month of `now`
  pub started : w.month_start ≤ now
  pub not_ended : now < w.next_month
  pub month_days : w.next_month ≡ w.month_start + days_in_month c.year c.month * day
  -- the month before it
  pub prev_days :
      w.month_start ≡ w.prev_start + days_in_month (year_before c) (month_before c) * day
  -- as many whole days of it as have gone by
  pub same_days : w.prev_end ≡ w.prev_start + (now - w.month_start) / day * day
  -- They reach into the month of `now` just if the month before it has too few.
  pub overlap :
      (w.month_start < w.prev_end)
      ↔ (days_in_month (year_before c) (month_before c) + 1 < c.day_of_month)

pub after_first :
    (now : Time)
    → months_after 1 (month_start now)
      ≡ day_number (date_of now).year ((date_of now).month + 1) 1 * day
unfolding months_after
after_first now =
    let c = date_of now in
    let m = month_start-IsMonthOf now in
    let first : date_of (month_start now) ≡ first_of c.year c.month =
      ap date_of m.start ∙ date_of-first c.year c.month m.is_date.month_from m.is_date.month_to in
    let whole : month_start now % day ≡ 0 = omega (arith, m.start) in
    rw (first, whole) (omega arith)

before_first :
    (now : Time)
    → months_before 1 (month_start now)
      ≡ day_number (year_before (date_of now)) (month_before (date_of now)) 1 * day
unfolding months_before
before_first now =
    let c = date_of now in
    let m = month_start-IsMonthOf now in
    let first : date_of (month_start now) ≡ first_of c.year c.month =
      ap date_of m.start ∙ date_of-first c.year c.month m.is_date.month_from m.is_date.month_to in
    let whole : month_start now % day ≡ 0 = omega (arith, m.start) in
    rw (first, whole) (omega arith)

-- From the year 1 on, the windows of an instant are these: this month, from its start to the start of
-- the next, holds the instant; the other window starts where the month before starts, spans as many
-- whole days as have gone by of this month, and reaches past the end of the month before exactly if
-- that month has fewer whole days than have gone by.
pub windows_of-IsWindows :
    (now : Time) → 1 ≤ (date_of now).year → IsWindows now (date_of now) (windows_of now)
unfolding windows_of
windows_of-IsWindows now year =
    let c = date_of now in
    let m = month_start-IsMonthOf now in
    let from = m.is_date.month_from in
    let to = m.is_date.month_to in
    let start : month_start now ≡ day_number c.year c.month 1 * day = m.start in
    let after : months_after 1 (month_start now) ≡ day_number c.year (c.month + 1) 1 * day =
      after_first now in
    let before : months_before 1 (month_start now)
        ≡ day_number (year_before c) (month_before c) 1 * day =
      before_first now in
    let next = day_number-next c.year c.month from to in
    let prev = day_number-before c.year c.month year from to in
    let gone : (now - month_start now) / day ≡ c.day_of_month - 1 = omega (arith, start, m.days) in
    let range = days_in_month-range (year_before c) (month_before c) in
    record {
      started = omega (arith, start, m.days);
      not_ended = omega (arith, start, after, next, m.days, m.is_date.day_to, m.is_date.day_from);
      month_days = omega (arith, start, after, next);
      prev_days = omega (arith, start, before, prev);
      same_days = refl;
      overlap = (
        λ h. omega (arith, h, start, before, prev, gone, range, m.is_date.day_from),
        λ h. omega (arith, h, start, before, prev, gone, range, m.is_date.day_from),
      );
    }
