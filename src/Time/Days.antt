-- ===== src/Time/Days.antt =====
-- The days of months and years, and the loops of a date that count them off.
use mathlib.Core.Path.{subst}
use eksp.Base.{
  ℕ, zero, suc, ◌+◌, ◌-◌, ◌*◌, ◌≤◌, ◌<◌, ◌≡◌, ap, ◌∙◌, arith, leb, ltb, Bool-cases, inl, inr,
}
use eksp.Time.{days_in_month, days_in_year, days_before_year, days_of_months, find_year, find_month}

pub days_before_year-suc : (y : ℕ) → days_before_year (suc y) ≡ days_before_year y + days_in_year y
unfolding days_before_year days_in_year
days_before_year-suc y = ground arith

pub days_in_month-range : (y m : ℕ) → (28 ≤ days_in_month y m) × (days_in_month y m ≤ 31)
unfolding days_in_month
days_in_month-range y m = ground arith

pub twelve_months : (y : ℕ) → days_of_months y 12 1 ≡ days_in_year y
unfolding days_of_months days_in_year days_in_month
twelve_months y = ground arith

pub find_year_lem :
    (fuel y n : ℕ)
    → days_before_year y ≤ n
    → n < days_before_year (suc (y + fuel))
    → (days_before_year (find_year fuel y n) ≤ n)
      × (n < days_before_year (suc (find_year fuel y n)))
unfolding find_year
find_year_lem zero y n low high = ground (arith, low, high)
find_year_lem (suc fuel) y n low high = elim (Bool-cases (leb (days_before_year (suc y)) n)) [
  | inl later ↦
      rw (find_year, later)
        (find_year_lem fuel (suc y) n (ground (arith, later))
          (subst (λ k. n < days_before_year (suc k)) (omega arith) high))
  | inr here ↦ rw (find_year, here) (low, ground (arith, here))
]

-- A month and a day of it, `n` days after the start of month `m`, at most `fuel` months on.
pub record IsMonthDay (y fuel m n : ℕ) (found : ℕ × ℕ) : Type 0 where
  pub from : m ≤ found.0
  pub to : found.0 ≤ m + fuel
  pub day_from : 1 ≤ found.1
  pub day_to : found.1 ≤ days_in_month y found.0
  pub sum : days_of_months y (found.0 - m) m + (found.1 - 1) ≡ n

pub find_month_lem :
    (y fuel m n : ℕ)
    → n < days_of_months y (suc fuel) m
    → IsMonthDay y fuel m n (find_month y fuel m n)
unfolding find_month days_of_months
find_month_lem y zero m n h = record {
  from = omega arith;
  to = omega arith;
  day_from = omega arith;
  day_to = ground (arith, h);
  sum = ground arith;
}
find_month_lem y (suc fuel) m n h = elim (Bool-cases (ltb n (days_in_month y m))) [
  | inl here ↦
      rw (find_month, here)
        (record {
          from = omega arith;
          to = omega arith;
          day_from = omega arith;
          day_to = ground (arith, here);
          sum = ground arith;
        })
  | inr later ↦
      let left = n - days_in_month y m in
      let found = find_month y fuel (suc m) left in
      let rest = find_month_lem y fuel (suc m) left (ground (arith, later, h)) in
      let count : found.0 - m ≡ suc (found.0 - suc m) = omega (arith, rest.from) in
      rw (find_month, later)
        (record {
          from = omega (arith, rest.from);
          to = omega (arith, rest.to);
          day_from = rest.day_from;
          day_to = rest.day_to;
          sum =
              ap (λ k. days_of_months y k m + (found.1 - 1)) count
              ∙ ground (arith, rest.sum, later);
        })
]

pub days_before_year-range :
    (y : ℕ) → (365 * y ≤ days_before_year y) × (days_before_year y ≤ 366 * y)
unfolding days_before_year
days_before_year-range y = omega arith

pub days_before_year_mono : (y z : ℕ) → y ≤ z → days_before_year y ≤ days_before_year z
unfolding days_before_year
days_before_year_mono y z h = omega arith
