-- ===== src/Sample/Requests.antt =====
-- The parameters of a request, and the loop of `handleWork`.
use mathlib.Core.Path.{subst}
use native.Mathlib.Decide.{ℕ_discrete}
use eksp.Base.{
  ℕ, zero, suc, ◌+◌, ◌-◌, ◌*◌, ◌≤◌, ◌<◌, Str, codes, atoi, replicate, none, some, false,
  if◌then◌else◌, ltb, ℤ, pos, negsuc, pos_part, ltb_ℤ, ◌≤ℤ◌, ◌≡◌, ◌⊎◌, inl, inr, refl, sym, arith,
  Bool-cases, Option-cases,
}
use eksp.Sample.{
  Config, worked, write_json, clamp_query_int, max_work_ms, max_work_kb, burn, handle_work,
}

-- A parameter lies in its range, whatever the request says, if the range starts at 0 or the
-- parameter is the number of calls.
pub clamp_query_int-range :
    (query : Str → Str) (key : Str) (min max : ℤ)
    → min ≤ℤ max
    → (key ≡ codes "calls") ⊎ (min ≡ pos 0)
    → (min ≤ℤ clamp_query_int query key min max) × (clamp_query_int query key min max ≤ℤ max)
unfolding clamp_query_int
clamp_query_int-range query key min max le low = elim (Option-cases (atoi (query key))) [
  | inl e ↦ ground (arith, e, le)
  | inr (v, e) ↦ ground (arith, e, le)
]

-- A parameter that is a number in its range is taken as it is, and one above it as the most.
pub clamp_query_int_lem :
    (query : Str → Str) (key : Str) (min max : ℤ) {v : ℤ}
    → atoi (query key) ≡ some v
    → min ≤ℤ v
    → clamp_query_int query key min max ≡ (if ltb_ℤ max v then max else v)
unfolding clamp_query_int
clamp_query_int_lem query key min max {v} e le = ground (arith, e, le)

-- What a parameter that starts at 0 is taken for: its number up to the most, 0 if it is negative or no
-- number.
pub data IsTaken (text : Str) (max : ℤ) : ℤ → Type 0 where
  no_number : atoi text ≡ none → IsTaken text max (pos 0)
  negative : (n : ℕ) → atoi text ≡ some (negsuc n) → IsTaken text max (pos 0)
  within : (n : ℕ) → atoi text ≡ some (pos n) → pos n ≤ℤ max → IsTaken text max (pos n)
  above : (n : ℕ) → atoi text ≡ some (pos n) → max ≤ℤ pos n → IsTaken text max max

number-IsTaken :
    (query : Str → Str) (key : Str) (max v : ℤ)
    → pos 0 ≤ℤ max
    → atoi (query key) ≡ some v
    → IsTaken (query key) max (clamp_query_int query key (pos 0) max)
unfolding clamp_query_int
number-IsTaken query key max (negsuc n) le e =
    let low : clamp_query_int query key (pos 0) max ≡ pos 0 = ground (arith, e) in
    subst (IsTaken (query key) max) (sym low) (negative n e)
number-IsTaken query key max (pos n) le e = elim (Bool-cases (ltb_ℤ max (pos n))) [
  | inl much ↦
      let most : clamp_query_int query key (pos 0) max ≡ max = ground (arith, e, much) in
      subst (IsTaken (query key) max) (sym most) (above n e (ground (arith, much)))
  | inr fits ↦
      let as_it_is : clamp_query_int query key (pos 0) max ≡ pos n = ground (arith, e, fits) in
      subst (IsTaken (query key) max) (sym as_it_is) (within n e (ground (arith, fits)))
]

clamp_query_int-IsTaken :
    (query : Str → Str) (key : Str) (max : ℤ)
    → pos 0 ≤ℤ max
    → IsTaken (query key) max (clamp_query_int query key (pos 0) max)
unfolding clamp_query_int
clamp_query_int-IsTaken query key max le = elim (Option-cases (atoi (query key))) [
  | inl e ↦
      let least : clamp_query_int query key (pos 0) max ≡ pos 0 = ground (arith, e) in
      subst (IsTaken (query key) max) (sym least) (no_number e)
  | inr (v, e) ↦ number-IsTaken query key max v le e
]

-- `sha256` applied again and again.
abbrev pub again : ℕ → (Str → Str) → Str → Str
again zero sha256 sum = sum
again (suc k) sha256 sum = again k sha256 (sha256 sum)

earlier :
    (clock : ℕ → ℕ) (deadline n k : ℕ)
    → clock n < deadline
    → ((j : ℕ) → j < k → clock (suc n + j) < deadline)
    → (j : ℕ) → j < suc k
    → clock (n + j) < deadline
earlier clock deadline n k first rest zero lt = subst (λ i. clock i < deadline) (omega arith) first
earlier clock deadline n k first rest (suc j) lt =
    subst (λ i. clock i < deadline) (omega arith) (rest j (omega (arith, lt)))

not_before : (a b : ℕ) → ltb a b ≡ false → b ≤ a
not_before a b h = ground (arith, h)

-- The loop ends at the first reading of the clock that is not before the deadline, and has hashed once
-- for each that was.
burn_lem :
    (sha256 : Str → Str) (clock : ℕ → ℕ) (fuel deadline n m : ℕ) (sum : Str)
    → m < fuel
    → deadline ≤ clock (n + m)
    → (k : ℕ) × ((j : ℕ) → j < k → clock (n + j) < deadline)
      × (deadline ≤ clock (n + k))
      × (burn sha256 clock fuel deadline n sum ≡ some (again k sha256 sum))
unfolding burn
burn_lem sha256 clock zero deadline n m sum h late = absurd (omega arith)
burn_lem sha256 clock (suc fuel) deadline n m sum h late =
    elim (Bool-cases (ltb (clock n) deadline)) [
      | inl before ↦ elim (ℕ_discrete m 0) [
        | yes e ↦ absurd (ground (arith, before, late, e))
        | no ne ↦
            let (k, all, past, rest) =
              burn_lem sha256 clock fuel deadline (suc n) (m - 1) (sha256 sum) (omega arith)
                (subst (λ k. deadline ≤ clock k) (omega arith) late) in
            (
              suc k,
              earlier clock deadline n k (ground (arith, before)) all,
              subst (λ i. deadline ≤ clock i) (omega arith) past,
              rw (burn, before) rest,
            )
      ]
      | inr after ↦ (
        0,
        λ j lt. absurd (omega (arith, lt)),
        subst (λ i. deadline ≤ clock i) (omega arith) (not_before (clock n) deadline after),
        rw (burn, after) refl,
      )
    ]

pub pos_part-le : (z : ℤ) (n : ℕ) → z ≤ℤ pos n → pos_part z ≤ n
pos_part-le (pos m) n h = omega (arith, h)
pos_part-le (negsuc m) n h = omega arith

-- `handleWork` ends, and answers 200, if the clock passes five seconds from its first reading within
-- the readings allowed for. It takes `ms` and `kb` for the numbers of the request, from 0 up to their
-- most, allocates that many kilobytes, and hashes these once, and again for each reading of the clock
-- before the first that is `ms` milliseconds or more after the first of all: it answers with the digest.
pub handle_work_lem :
    (sha256 hex4 : Str → Str) (clock : ℕ → ℕ) (fuel : ℕ) (cfg : Config) (query : Str → Str) (m : ℕ)
    → m < fuel
    → clock 0 + 5000 * 1000000 ≤ clock (1 + m)
    → (ms kb : ℤ) × (k : ℕ) × IsTaken (query (codes "ms")) (pos 5000) ms
      × IsTaken (query (codes "kb")) (pos 1024) kb
      × ((j : ℕ) → j < k → clock (1 + j) < clock 0 + pos_part ms * 1000000)
      × (clock 0 + pos_part ms * 1000000 ≤ clock (1 + k))
      × (handle_work sha256 hex4 clock fuel cfg query
          ≡ some (
              write_json 200 (
                worked cfg.role ms kb
                  (hex4 (again k sha256 (sha256 (replicate (pos_part kb * 1024) 0)))))))
unfolding handle_work
handle_work_lem sha256 hex4 clock fuel cfg query m h late =
    let ms = clamp_query_int query (codes "ms") (pos 0) max_work_ms in
    let kb = clamp_query_int query (codes "kb") (pos 0) max_work_kb in
    let (ms_low, ms_high) =
      clamp_query_int-range query (codes "ms") (pos 0) max_work_ms (omega arith) (inr refl) in
    let (k, before, past, e) =
      burn_lem sha256 clock fuel (clock 0 + pos_part ms * 1000000) 1 m
        (sha256 (replicate (pos_part kb * 1024) 0)) h
        (omega (arith, pos_part-le ms 5000 ms_high, late)) in
    (
      ms,
      kb,
      k,
      clamp_query_int-IsTaken query (codes "ms") max_work_ms (omega arith),
      clamp_query_int-IsTaken query (codes "kb") max_work_kb (omega arith),
      before,
      past,
      rw e refl,
    )
