-- ===== src/Demo/Firsts.antt =====
-- The first instants of months, between which the loop over months steps.
use native.Mathlib.Decide.{ℕ_discrete, dec_lt}
use eksp.Base.{ℕ, suc, ◌+◌, ◌-◌, ◌*◌, ◌%◌, ◌≤◌, ◌<◌, ◌≡◌, refl, ap, ◌∙◌, arith}
use eksp.Time.{Time, day, date_of, day_number, days_in_month, months_after}
use eksp.Time.Days.{days_in_month-range}
use eksp.Time.Civil.{IsDateOf-unique, day_number_lem, first_of, date_of-first}
use eksp.Summary.Calendar.{new_year, day_number-next}

-- The first instant of a month.
abbrev pub IsFirst : Time → Type 0
IsFirst t = (y : ℕ) × (m : ℕ) × (1 ≤ m) × (m ≤ 12) × (t ≡ day_number y m 1 * day)

-- The next month starts later.
pub months_after-IsFirst :
    (t : Time) → IsFirst t → (t < months_after 1 t) × IsFirst (months_after 1 t)
unfolding months_after
months_after-IsFirst t (y, m, from, to, e) =
    let whole : t % day ≡ 0 = omega (arith, e) in
    let is_first : date_of t ≡ first_of y m = ap date_of e ∙ date_of-first y m from to in
    let next : months_after 1 t ≡ day_number y (m + 1) 1 * day =
      rw (months_after, is_first, whole) (omega arith) in
    let later = day_number-next y m from to in
    let range = days_in_month-range y m in
    (
      omega (arith, e, next, later, range),
      elim (ℕ_discrete m 12) [
        | yes last ↦ (
          suc y,
          1,
          omega arith,
          omega arith,
          next ∙ ap (λ k. day_number y (k + 1) 1 * day) last ∙ ap (λ k. k * day) (new_year y),
        )
        | no ne ↦ (y, m + 1, omega arith, omega (arith, ne, to), next)
      ],
    )

-- Between the first instants of two months that follow each other, no month starts.
pub months_after-least : (a t : Time) → IsFirst a → IsFirst t → a < t → months_after 1 a ≤ t
unfolding months_after
months_after-least a t (y, m, from, to, e) (y', m', from', to', e') later =
    let is_first : date_of a ≡ first_of y m = ap date_of e ∙ date_of-first y m from to in
    let whole : a % day ≡ 0 = omega (arith, e) in
    let next : months_after 1 a ≡ day_number y (m + 1) 1 * day =
      rw (months_after, is_first, whole) (omega arith) in
    let step = day_number-next y m from to in
    elim (dec_lt t (months_after 1 a)) [
      | no ne ↦ omega (arith, ne)
      | yes inside ↦
          let j = day_number y' m' 1 - day_number y m 1 in
          let within : (1 ≤ j) × (j < days_in_month y m) =
            omega (arith, e, e', later, inside, next, step) in
          let there : day_number y m (1 + j) ≡ day_number y' m' 1 =
            omega
              (arith, within, day_number_lem y m (1 + j) from to, day_number_lem y m 1 from to) in
          let same =
            IsDateOf-unique (day_number y' m' 1)
              (record { year = y; month = m; day_of_month = 1 + j }) (first_of y' m')
              (record {
                month_from = from;
                month_to = to;
                day_from = omega arith;
                day_to = omega (arith, within);
                number = there;
              })
              (record {
                month_from = from';
                month_to = to';
                day_from = omega arith;
                day_to = omega (arith, days_in_month-range y' m');
                number = refl;
              }) in
          let one : 1 + j ≡ 1 = ap (λ c. c.day_of_month) same in absurd (omega (arith, within, one))
    ]
