-- ===== src/Time.antt =====
-- Go's `time` package, as far as the programs use it: instants in UTC, their dates, and their texts.
-- An instant is its number of seconds since the start of the year 0. The programs run on the clock of
-- the day, so that going back in time never passes that start; fractions of a second play no part.
pub mod Days
pub mod Civil
pub mod Texts
use mathlib.Core.Option
use eksp.Base.{
  ℕ, zero, suc, ◌+◌, ◌-◌, ◌*◌, ◌/◌, ◌%◌, Str, codes, decimal, [], ◌∷◌, ◌++◌, Bool, true, false,
  ◌&&◌, ◌||◌, not, ltb, leb, ◌==◌, if◌then◌else◌, Option, none, some,
}

abbrev pub Time : Type 0
Time = ℕ

abbrev pub minute : ℕ
minute = 60

abbrev pub hour : ℕ
hour = 3600

abbrev pub day : ℕ
day = 86400

unfoldable pub is_leap : ℕ → Bool
is_leap y = y % 4 == 0 && (not (y % 100 == 0) || y % 400 == 0)

unfoldable pub days_in_month : ℕ → ℕ → ℕ
unfolding is_leap
days_in_month y m =
    if m == 2
    then (if is_leap y then 29 else 28)
    else if m == 4 || m == 6 || m == 9 || m == 11
    then 30
    else 31

unfoldable pub days_in_year : ℕ → ℕ
unfolding is_leap
days_in_year y = if is_leap y then 366 else 365

-- The days of the years 0 to y - 1.
unfoldable pub days_before_year : ℕ → ℕ
days_before_year y = y * 365 + (y + 3) / 4 - (y + 99) / 100 + (y + 399) / 400

-- The days of `count` months from month `m`.
unfoldable pub days_of_months : ℕ → ℕ → ℕ → ℕ
days_of_months y zero m = 0
days_of_months y (suc count) m = days_in_month y m + days_of_months y count (suc m)

pub record Date : Type 0 where
  pub year : ℕ
  pub month : ℕ
  pub day_of_month : ℕ

-- The number of a date's day; the month may be past 12 or the day past its month, as in `time.Date`.
unfoldable pub day_number : ℕ → ℕ → ℕ → ℕ
unfolding days_before_year days_of_months days_in_month
day_number y m d =
    let year = y + (m - 1) / 12 in
    days_before_year year + days_of_months year ((m - 1) % 12) 1 + (d - 1)

-- The year that day `n` lies in, from a year that is not later.
unfoldable pub find_year : ℕ → ℕ → ℕ → ℕ
find_year zero y n = y
find_year (suc fuel) y n = elim (leb (days_before_year (suc y)) n) [
  | true ↦ find_year fuel (suc y) n
  | false ↦ y
]

-- The month and the day in it, `n` days after the start of month `m`.
unfoldable pub find_month : ℕ → ℕ → ℕ → ℕ → ℕ × ℕ
find_month y zero m n = (m, suc n)
find_month y (suc fuel) m n = elim (ltb n (days_in_month y m)) [
  | true ↦ (m, suc n)
  | false ↦ find_month y fuel (suc m) (n - days_in_month y m)
]

unfoldable pub date_of_day : ℕ → Date
unfolding find_year find_month days_before_year days_in_month
date_of_day n =
    let y = find_year n (n / 366) n in
    let (m, d) = find_month y 11 1 (n - days_before_year y) in
    record { year = y; month = m; day_of_month = d }

-- `t.Year()`, `t.Month()` and `t.Day()`
unfoldable pub date_of : Time → Date
date_of t = date_of_day (t / day)

-- `time.Date(year, month, 1, 0, 0, 0, 0, time.UTC)` for the instant's month
unfoldable pub month_start : Time → Time
month_start t = let c = date_of t in day_number c.year c.month 1 * day

-- `t.AddDate(0, k, 0)` and `t.AddDate(0, -k, 0)` from the first day of a month
unfoldable pub months_after : ℕ → Time → Time
months_after k t = let c = date_of t in day_number c.year (c.month + k) 1 * day + t % day

unfoldable pub months_before : ℕ → Time → Time
months_before k t =
    let c = date_of t in
    let index = c.year * 12 + (c.month - 1) - k in
    day_number (index / 12) (index % 12 + 1) 1 * day + t % day

abbrev pub days_after : ℕ → Time → Time
days_after n t = t + n * day

abbrev pub days_before : ℕ → Time → Time
days_before n t = t - n * day

abbrev pub truncate_hour : Time → Time
truncate_hour t = t - t % hour

abbrev pub two_digits : ℕ → Str
two_digits n = (b'0' + n / 10) ∷ (b'0' + n % 10) ∷ []

abbrev pub four_digits : ℕ → Str
four_digits n =
    (b'0' + n / 1000) ∷ (b'0' + n / 100 % 10) ∷ (b'0' + n / 10 % 10) ∷ (b'0' + n % 10) ∷ []

-- `t.Format("2006-01-02")`
unfoldable pub format_date : Time → Str
unfolding decimal
format_date t =
    let c = date_of t in
    (if ltb c.year 10000 then four_digits c.year else decimal c.year)
    ++ (b'-' ∷ (two_digits c.month ++ (b'-' ∷ two_digits c.day_of_month)))

-- `t.Format(time.RFC3339)`
unfoldable pub format_rfc3339 : Time → Str
unfolding format_date
format_rfc3339 t =
    let s = t % day in
    format_date t
    ++ (b'T'
        ∷ (two_digits (s / hour)
            ++ (b':'
                ∷ (two_digits (s / minute % 60) ++ (b':' ∷ (two_digits (s % 60) ++ codes "Z"))))))

abbrev pub digit_of : ℕ → Option ℕ
digit_of c = if leb b'0' c && leb c b'9' then some (c - b'0') else none

unfoldable pub read_digit : Str → Option (ℕ × Str)
read_digit [] = none
read_digit (c ∷ s) = elim (digit_of c) [ none ↦ none | some d ↦ some (d, s) ]

unfoldable pub read_two : Str → Option (ℕ × Str)
unfolding read_digit
read_two s = elim (read_digit s) [
  | none ↦ none
  | some (a, s) ↦ elim (read_digit s) [ none ↦ none | some (b, s) ↦ some (a * 10 + b, s) ]
]

unfoldable pub read_four : Str → Option (ℕ × Str)
unfolding read_two
read_four s = elim (read_two s) [
  | none ↦ none
  | some (a, s) ↦ elim (read_two s) [ none ↦ none | some (b, s) ↦ some (a * 100 + b, s) ]
]

unfoldable pub expect : ℕ → Str → Option Str
expect c [] = none
expect c (d ∷ s) = if d == c then some s else none

-- The day that a text begins with, and the rest of the text.
unfoldable pub read_date : Str → Option (ℕ × Str)
unfolding Option.bind
read_date s = Option.bind (read_four s) λ (y, s). Option.bind (expect b'-' s) λ s.
    Option.bind (read_two s) λ (m, s). Option.bind (expect b'-' s) λ s.
      Option.bind (read_two s) λ (d, s).
        if leb 1 m && leb m 12 && leb 1 d && leb d (days_in_month y m)
        then some (day_number y m d, s)
        else none

-- `time.Parse("2006-01-02", s)`
unfoldable pub parse_date : Str → Option Time
parse_date s = elim (read_date s) [ some (n, []) ↦ some (n * day) | _ ↦ none ]

-- The time of day behind the date, in UTC.
unfoldable pub read_clock : Str → Option (ℕ × Str)
unfolding Option.bind
read_clock s = Option.bind (expect b'T' s) λ s. Option.bind (read_two s) λ (h, s).
    Option.bind (expect b':' s) λ s. Option.bind (read_two s) λ (m, s).
      Option.bind (expect b':' s) λ s. Option.bind (read_two s) λ (sec, s).
        Option.bind (expect b'Z' s) λ s.
          if ltb h 24 && ltb m 60 && ltb sec 60 then some (h * hour + m * minute + sec, s) else none

-- `time.Parse(time.RFC3339, s)`. Other zones than UTC, and fractions of a second, are left out: the
-- programs hand over only what they have formatted.
unfoldable pub parse_rfc3339 : Str → Option Time
parse_rfc3339 s = elim (read_date s) [
  | none ↦ none
  | some (n, s) ↦ elim (read_clock s) [ some (c, []) ↦ some (n * day + c) | _ ↦ none ]
]
