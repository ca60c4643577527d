-- ===== src/Time/Texts.antt =====
-- Reading a formatted instant gives it back: its day by the date, itself by RFC 3339.
use eksp.Base.{
  ℕ, ◌+◌, ◌*◌, ◌/◌, ◌%◌, ◌<◌, ◌&&◌, ◌≡◌, refl, sym, ap, arith, Str, codes, [], ◌∷◌, ◌++◌,
  append-nil, none, some, ltb, leb, true,
}
use eksp.Time.{
  Time, minute, hour, day, Date, days_in_month, date_of, format_date, format_rfc3339, two_digits,
  four_digits, read_two, read_four, expect, read_date, parse_date, read_clock, parse_rfc3339,
}
use eksp.Time.Days.{days_in_month-range}
use eksp.Time.Civil.{IsDateOf, date_of_day-IsDateOf}

read_two-two_digits : (n : ℕ) (s : Str) → n < 100 → read_two (two_digits n ++ s) ≡ some (n, s)
unfolding read_two
read_two-two_digits n s h = ground arith

read_four-four_digits : (n : ℕ) (s : Str) → n < 10000 → read_four (four_digits n ++ s) ≡ some (n, s)
unfolding read_four
read_four-four_digits n s h = ground arith

expect_lem : (c : ℕ) (s : Str) → expect c (c ∷ s) ≡ some s
unfolding expect
expect_lem c s = ground arith

-- The date that a text of a date begins with is that date's day.
read_date-date :
    (n : ℕ) (c : Date) (s : Str)
    → IsDateOf n c
    → c.year < 10000
    → read_date (
        four_digits c.year
        ++ (b'-' ∷ (two_digits c.month ++ (b'-' ∷ (two_digits c.day_of_month ++ s)))))
      ≡ some (n, s)
unfolding read_date
read_date-date n c s h small =
    let valid : (leb 1 c.month
          && leb c.month 12
          && leb 1 c.day_of_month
          && leb c.day_of_month (days_in_month c.year c.month))
        ≡ true =
      ground (arith, h.month_from, h.month_to, h.day_from, h.day_to) in
    let short = days_in_month-range c.year c.month in
    rw
      (
        read_date,
        read_four-four_digits c.year
            (b'-' ∷ (two_digits c.month ++ (b'-' ∷ (two_digits c.day_of_month ++ s)))) small,
        expect_lem b'-' (two_digits c.month ++ (b'-' ∷ (two_digits c.day_of_month ++ s))),
        read_two-two_digits c.month (b'-' ∷ (two_digits c.day_of_month ++ s))
            (omega (arith, h.month_to)),
        expect_lem b'-' (two_digits c.day_of_month ++ s),
        read_two-two_digits c.day_of_month s (omega (arith, h.day_to, short)),
        valid,
        h.number,
      )
      refl

module _ (t : Time) (small : (date_of t).year < 10000) where
  format_date_lem :
      (s : Str)
      → format_date t ++ s
        ≡ four_digits (date_of t).year
          ++ (b'-'
              ∷ (two_digits (date_of t).month
                  ++ (b'-' ∷ (two_digits (date_of t).day_of_month ++ s))))
  unfolding format_date
  format_date_lem s =
      let four : ltb (date_of t).year 10000 ≡ true = ground (arith, small) in
      rw (format_date, four) refl

  read_date-format_date : (s : Str) → read_date (format_date t ++ s) ≡ some (t / day, s)
  unfolding date_of
  read_date-format_date s =
      rw (format_date_lem s)
        (read_date-date (t / day) (date_of t) s (date_of_day-IsDateOf (t / day)) small)

  pub parse_date-format_date : parse_date (format_date t) ≡ some (t / day * day)
  unfolding parse_date
  parse_date-format_date =
      rw (parse_date, sym (append-nil (format_date t)), read_date-format_date []) refl

  read_clock_lem :
      (h m s : ℕ)
      → h < 24
      → m < 60
      → s < 60
      → read_clock
          (b'T' ∷ (two_digits h ++ (b':' ∷ (two_digits m ++ (b':' ∷ (two_digits s ++ codes "Z"))))))
        ≡ some (h * hour + m * minute + s, [])
  unfolding read_clock
  read_clock_lem h m s hh hm hs =
      let valid : (ltb h 24 && ltb m 60 && ltb s 60) ≡ true = ground (arith, hh, hm, hs) in
      rw
        (
          read_clock,
          expect_lem b'T'
              (two_digits h ++ (b':' ∷ (two_digits m ++ (b':' ∷ (two_digits s ++ codes "Z"))))),
          read_two-two_digits h (b':' ∷ (two_digits m ++ (b':' ∷ (two_digits s ++ codes "Z"))))
              (omega (arith, hh)),
          expect_lem b':' (two_digits m ++ (b':' ∷ (two_digits s ++ codes "Z"))),
          read_two-two_digits m (b':' ∷ (two_digits s ++ codes "Z")) (omega (arith, hm)),
          expect_lem b':' (two_digits s ++ codes "Z"),
          read_two-two_digits s (codes "Z") (omega (arith, hs)),
          expect_lem b'Z' [],
          valid,
        )
        refl

  abbrev clock_text : Str
  clock_text =
      b'T'
      ∷ (two_digits (t % day / hour)
          ++ (b':'
              ∷ (two_digits (t % day / minute % 60)
                  ++ (b':' ∷ (two_digits (t % day % 60) ++ codes "Z")))))

  -- A date is no prefix of the text of an instant, for `time.Parse` reads to the end.
  pub parse_date-format_rfc3339 : parse_date (format_rfc3339 t) ≡ none
  unfolding parse_date format_rfc3339
  parse_date-format_rfc3339 = rw (parse_date, format_rfc3339, read_date-format_date clock_text) refl

  pub parse_rfc3339-format_rfc3339 : parse_rfc3339 (format_rfc3339 t) ≡ some t
  unfolding parse_rfc3339 format_rfc3339
  parse_rfc3339-format_rfc3339 =
      rw
        (
          parse_rfc3339,
          format_rfc3339,
          read_date-format_date clock_text,
          read_clock_lem (t % day / hour) (t % day / minute % 60) (t % day % 60) (omega arith)
              (omega arith) (omega arith),
        )
        (ap some (omega arith))
