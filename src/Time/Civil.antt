-- ===== src/Time/Civil.antt =====
-- The date of a day is a date, and of that day; a month is the days between two starts of months.
use native.Mathlib.Decide.{ℕ_discrete, dec_lt}
use eksp.Base.{ℕ, zero, suc, ◌+◌, ◌-◌, ◌*◌, ◌/◌, ◌%◌, ◌≤◌, ◌≡◌, refl, sym, ap, ◌∙◌, arith}
use eksp.Time.Days.{
  days_before_year-suc, days_in_month-range, twelve_months, find_year_lem, find_month_lem,
  days_before_year-range, days_before_year_mono,
}
use eksp.Time.{
  Time, day, Date, days_in_month, days_in_year, days_before_year, days_of_months, day_number,
  find_year, find_month, date_of_day, date_of, month_start,
}

-- `c` is a date, and that of day `n`.
pub record IsDateOf (n : ℕ) (c : Date) : Type 0 where
  pub month_from : 1 ≤ c.month
  pub month_to : c.month ≤ 12
  pub day_from : 1 ≤ c.day_of_month
  pub day_to : c.day_of_month ≤ days_in_month c.year c.month
  pub number : day_number c.year c.month c.day_of_month ≡ n

pub day_number_lem :
    (y m d : ℕ)
    → 1 ≤ m
    → m ≤ 12
    → day_number y m d ≡ days_before_year y + days_of_months y (m - 1) 1 + (d - 1)
unfolding day_number
day_number_lem y m d from to =
    let same : y + (m - 1) / 12 ≡ y = omega arith in
    let index : (m - 1) % 12 ≡ m - 1 = omega arith in rw (same, index)

pub date_of_day-IsDateOf : (n : ℕ) → IsDateOf n (date_of_day n)
unfolding date_of_day
date_of_day-IsDateOf n =
    let y = find_year n (n / 366) n in
    let (low, high) =
      find_year_lem n (n / 366) n (omega (arith, days_before_year-range (n / 366)))
        (omega (arith, days_before_year-range (suc (n / 366 + n)))) in
    let left = n - days_before_year y in
    let h =
      find_month_lem y 11 1 left
        (omega (arith, twelve_months y, days_before_year-suc y, low, high)) in
    let (m, d) = find_month y 11 1 left in
    record {
      month_from = h.from;
      month_to = omega (arith, h.to);
      day_from = h.day_from;
      day_to = h.day_to;
      number =
          day_number_lem y (find_month y 11 1 left).0 (find_month y 11 1 left).1 h.from
            (omega (arith, h.to))
          ∙ omega (arith, h.sum, low);
    }

pub days_of_months-snoc :
    (y k m : ℕ) → days_of_months y (suc k) m ≡ days_of_months y k m + days_in_month y (m + k)
unfolding days_of_months
days_of_months-snoc y zero m = let same : m + 0 ≡ m = omega arith in rw same (omega arith)
days_of_months-snoc y (suc k) m =
    let same : suc m + k ≡ m + suc k = omega arith in
    omega (arith, days_of_months-snoc y k (suc m), ap (days_in_month y) same)

days_of_months_mono : (y m i j : ℕ) → i ≤ j → days_of_months y i m ≤ days_of_months y j m
days_of_months_mono y m zero zero h = omega arith
days_of_months_mono y m (suc i) zero h = absurd (omega arith)
days_of_months_mono y m i (suc j) h = elim (ℕ_discrete i (suc j)) [
  | yes e ↦ rw e (omega arith)
  | no ne ↦
      omega (arith, days_of_months_mono y m i j (omega (arith, ne)), days_of_months-snoc y j m)
]

-- The days from the start of the year to that of the month of `c`, and the days of that month.
abbrev before_month : Date → ℕ
before_month c = days_of_months c.year (c.month - 1) 1

-- Where day `n` lies in the year and in the month of its date.
record IsPlaced (n : ℕ) (c : Date) : Type 0 where
  sum : n ≡ days_before_year c.year + before_month c + (c.day_of_month - 1)
  month_end : before_month c + days_in_month c.year c.month ≡ days_of_months c.year c.month 1
  year_end : days_of_months c.year c.month 1 ≤ days_in_year c.year

IsDateOf-IsPlaced : (n : ℕ) (c : Date) → IsDateOf n c → IsPlaced n c
IsDateOf-IsPlaced n c h =
    let count : suc (c.month - 1) ≡ c.month = omega (arith, h.month_from) in
    let index : 1 + (c.month - 1) ≡ c.month = omega (arith, h.month_from) in
    record {
      sum = sym h.number ∙ day_number_lem c.year c.month c.day_of_month h.month_from h.month_to;
      month_end = omega (
        arith,
        days_of_months-snoc c.year (c.month - 1) 1,
        ap (days_in_month c.year) index,
        ap (λ k. days_of_months c.year k 1) count,
      );
      year_end =
          omega (arith, days_of_months_mono c.year 1 c.month 12 h.month_to, twelve_months c.year);
    }

-- A day has one date.
pub IsDateOf-unique : (n : ℕ) (c d : Date) → IsDateOf n c → IsDateOf n d → c ≡ d
IsDateOf-unique n c d hc hd =
    let pc = IsDateOf-IsPlaced n c hc in
    let pd = IsDateOf-IsPlaced n d hd in
    let same_year : c.year ≡ d.year = elim (dec_lt c.year d.year) [
      | yes lt ↦ absurd (
          omega (
            arith,
            days_before_year_mono (suc c.year) d.year lt,
            days_before_year-suc c.year,
            pc.sum,
            pd.sum,
            pc.month_end,
            pc.year_end,
            hc.day_to,
            hc.day_from,
          ))
      | no ge ↦ elim (dec_lt d.year c.year) [
        | yes lt ↦ absurd (
            omega (
              arith,
              days_before_year_mono (suc d.year) c.year lt,
              days_before_year-suc d.year,
              pc.sum,
              pd.sum,
              pd.month_end,
              pd.year_end,
              hd.day_to,
              hd.day_from,
            ))
        | no ge' ↦ omega (arith, ge, ge')
      ]
    ] in
    let same_start : days_before_year c.year ≡ days_before_year d.year =
      ap days_before_year same_year in
    let moved : (k : ℕ) → days_of_months c.year k 1 ≡ days_of_months d.year k 1 =
      λ k. ap (λ y. days_of_months y k 1) same_year in
    let same_month : c.month ≡ d.month = elim (dec_lt c.month d.month) [
      | yes lt ↦ absurd (
          omega (
            arith,
            days_of_months_mono c.year 1 c.month (d.month - 1) (omega (arith, lt)),
            moved (d.month - 1),
            same_start,
            pc.sum,
            pd.sum,
            pc.month_end,
            hc.day_to,
            hc.day_from,
          ))
      | no ge ↦ elim (dec_lt d.month c.month) [
        | yes lt ↦ absurd (
            omega (
              arith,
              days_of_months_mono d.year 1 d.month (c.month - 1) (omega (arith, lt)),
              moved (c.month - 1),
              same_start,
              pc.sum,
              pd.sum,
              pd.month_end,
              hd.day_to,
              hd.day_from,
            ))
        | no ge' ↦ omega (arith, ge, ge')
      ]
    ] in
    let same_before : before_month c ≡ before_month d =
      moved (c.month - 1) ∙ ap (λ m. days_of_months d.year (m - 1) 1) same_month in
    let same_day : c.day_of_month ≡ d.day_of_month =
      omega (arith, same_before, same_start, pc.sum, pd.sum, hc.day_from, hd.day_from) in
    ground (arith, same_year, same_month, same_day)

abbrev pub first_of : ℕ → ℕ → Date
first_of y m = record { year = y; month = m; day_of_month = 1 }

-- The date of the first day of a month.
pub date_of-first : (y m : ℕ) → 1 ≤ m → m ≤ 12 → date_of (day_number y m 1 * day) ≡ first_of y m
unfolding date_of
date_of-first y m from to =
    let n = day_number y m 1 in
    let whole : n * day / day ≡ n = omega arith in
    rw whole (
      IsDateOf-unique n (date_of_day n) (first_of y m) (date_of_day-IsDateOf n) (record {
        month_from = from;
        month_to = to;
        day_from = omega arith;
        day_to = omega (arith, days_in_month-range y m);
        number = refl;
      }))

-- The month of an instant: where it starts, that it starts no later, and that it ends after.
pub record IsMonthOf (t : Time) (c : Date) : Type 0 where
  pub is_date : IsDateOf (t / day) c
  pub start : month_start t ≡ day_number c.year c.month 1 * day
  pub days : t / day ≡ day_number c.year c.month 1 + (c.day_of_month - 1)

pub month_start-IsMonthOf : (t : Time) → IsMonthOf t (date_of t)
unfolding month_start date_of
month_start-IsMonthOf t =
    let c = date_of_day (t / day) in
    let h = date_of_day-IsDateOf (t / day) in
    record {
      is_date = h;
      start = refl;
      days = omega (
        arith,
        h.number,
        day_number_lem c.year c.month c.day_of_month h.month_from h.month_to,
        day_number_lem c.year c.month 1 h.month_from h.month_to,
      );
    }
