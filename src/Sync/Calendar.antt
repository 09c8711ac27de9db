-- ===== src/Sync/Calendar.antt =====
-- registry.rs: `iso8601_now` up to its `format!`, with the loops of `days_to_ymd`.
use forgetty.Base.{
  ℕ, zero, suc, ◌+◌, ◌-◌, ◌*◌, ◌/◌, ◌%◌, ◌≤◌, ◌<◌, ◌≡◌, refl, ap, ◌∙◌, sym, List, [], ◌∷◌, Bool,
  not, ◌&&◌, ◌||◌, some, arith, ltb, ◌==◌, if◌then◌else◌, get_elem?, take, sum_by, Bool-cases, inl,
  inr,
}

unfoldable pub is_leap : ℕ → Bool
is_leap y = (y % 4 == 0) && not (y % 100 == 0) || (y % 400 == 0)

unfoldable pub year_days : ℕ → ℕ
unfolding is_leap
year_days y = if is_leap y then 366 else 365

-- The loop over the years. Each round takes 365 days or more off, so `days` rounds are enough.
unfoldable pub year_loop : ℕ → ℕ → ℕ → ℕ × ℕ
unfolding year_days
year_loop zero y days = (y, days)
year_loop (suc fuel) y days =
    let rest = year_loop fuel (y + 1) (days - year_days y) in
    if ltb days (year_days y) then (y, days) else rest

unfoldable pub months : ℕ → List ℕ
unfolding is_leap
months y =
    if is_leap y
    then 31 ∷ 29 ∷ 31 ∷ 30 ∷ 31 ∷ 30 ∷ 31 ∷ 31 ∷ 30 ∷ 31 ∷ 30 ∷ 31 ∷ []
    else 31 ∷ 28 ∷ 31 ∷ 30 ∷ 31 ∷ 30 ∷ 31 ∷ 31 ∷ 30 ∷ 31 ∷ 30 ∷ 31 ∷ []

-- The loop over the months, from the month number `m` on.
unfoldable pub month_loop : List ℕ → ℕ → ℕ → ℕ × ℕ
month_loop [] m days = (m, days)
month_loop (dm ∷ rest) m days =
    let later = month_loop rest (m + 1) (days - dm) in if ltb days dm then (m, days) else later

unfoldable pub days_to_ymd : ℕ → ℕ × ℕ × ℕ
unfolding year_loop month_loop months
days_to_ymd days =
    let (y, left) = year_loop days 1970 days in
    let (m, rest) = month_loop (months y) 1 left in (y, m, rest + 1)

-- The six numbers that `iso8601_now` formats.
pub record Timestamp : Type 0 where
  pub date : ℕ × ℕ × ℕ
  pub hh : ℕ
  pub mm : ℕ
  pub ss : ℕ

unfoldable pub iso8601_of : ℕ → Timestamp
unfolding days_to_ymd
iso8601_of secs = record {
  date = days_to_ymd (secs / 86400);
  hh = secs % 86400 / 3600;
  mm = secs % 86400 % 3600 / 60;
  ss = secs % 86400 % 60;
}

-- The Gregorian calendar, by counting and apart from the code: the leap days of the years 1 to `y`.
abbrev pub leap_days : ℕ → ℕ
leap_days y = y / 4 - y / 100 + y / 400

-- The days from the start of the year 1 to the start of `y`.
abbrev pub days_before : ℕ → ℕ
days_before y = 365 * (y - 1) + leap_days (y - 1)

-- The length of a month: 31 days in the odd months up to July and in the even ones from August on, and
-- 30 in the others but February, which has the leap day if the year has one.
abbrev pub month_days : ℕ → ℕ → ℕ
month_days y m = if m == 2 then 28 + (leap_days y - leap_days (y - 1)) else 30 + (m + m / 8) % 2

-- The days of the first `n` months.
abbrev pub months_days : ℕ → ℕ → ℕ
months_days y zero = 0
months_days y (suc n) = months_days y n + month_days y (suc n)

-- The days of the `n` years from `y` on.
abbrev years_days : ℕ → ℕ → ℕ
years_days y zero = 0
years_days y (suc n) = year_days y + years_days (y + 1) n

abbrev same : ℕ → ℕ
same n = n

-- A date of the Gregorian calendar from 1970 on, with the days from the epoch to it.
pub record IsDate (days y m d : ℕ) : Type 0 where
  pub from_1970 : 1970 ≤ y
  pub month_low : 1 ≤ m
  pub month_high : m ≤ 12
  pub day_low : 1 ≤ d
  pub day_high : d ≤ month_days y m
  pub counted : days_before y + months_days y (m - 1) + (d - 1) ≡ days_before 1970 + days

year_days_bounds : (y : ℕ) → (365 ≤ year_days y) × (year_days y ≤ 366)
unfolding year_days
year_days_bounds y = ground arith

record YearFound (y days y' left : ℕ) : Type 0 where
  pub skipped : ℕ
  pub at : y' ≡ y + skipped
  pub counted : days ≡ years_days y skipped + left
  pub inside : left < year_days y'

year_loop-YearFound :
    (fuel y days : ℕ)
    → days ≤ fuel
    → YearFound y days (year_loop fuel y days).0 (year_loop fuel y days).1
unfolding year_loop
year_loop-YearFound zero y days h =
    let b = year_days_bounds y in
    record { skipped = 0; at = omega arith; counted = omega arith; inside = omega arith }
year_loop-YearFound (suc fuel) y days h =
    let b = year_days_bounds y in
    elim (Bool-cases (ltb days (year_days y))) [
      | inl here ↦
          rw here
            (record { skipped = 0; at = omega arith; counted = omega arith; inside = ground arith })
      | inr later ↦
          let out : year_days y ≤ days = ground arith in
          let f = year_loop-YearFound fuel (y + 1) (days - year_days y) (omega arith) in
          rw later (record {
            skipped = suc f.skipped;
            at = omega (arith, f.at);
            counted = omega (arith, f.counted);
            inside = f.inside;
          })
    ]

record MonthFound (ms : List ℕ) (m days m' left : ℕ) : Type 0 where
  pub skipped : ℕ
  pub at : m' ≡ m + skipped
  pub size : ℕ
  pub known : get_elem? ms skipped ≡ some size
  pub counted : days ≡ sum_by same (take skipped ms) + left
  pub inside : left < size

month_loop-MonthFound :
    (ms : List ℕ) (m days : ℕ)
    → days < sum_by same ms
    → MonthFound ms m days (month_loop ms m days).0 (month_loop ms m days).1
unfolding month_loop
month_loop-MonthFound [] m days h = absurd (omega arith)
month_loop-MonthFound (dm ∷ ms) m days h = elim (Bool-cases (ltb days dm)) [
  | inl here ↦ rw here (record {
    skipped = 0;
    at = omega arith;
    size = dm;
    known = refl;
    counted = omega arith;
    inside = ground arith;
  })
  | inr later ↦
      let out : dm ≤ days = ground arith in
      let f = month_loop-MonthFound ms (m + 1) (days - dm) (omega arith) in
      rw later (record {
        skipped = suc f.skipped;
        at = omega (arith, f.at);
        size = f.size;
        known = f.known;
        counted = omega (arith, f.counted);
        inside = f.inside;
      })
]

sum_by-months : (y : ℕ) → sum_by same (months y) ≡ year_days y
unfolding months year_days
sum_by-months y = elim (Bool-cases (is_leap y)) [
  | inl leap ↦ rw leap refl
  | inr common ↦ rw common refl
]

leap_days_lem : (y : ℕ) → 1 ≤ y → leap_days y - leap_days (y - 1) ≡ (if is_leap y then 1 else 0)
unfolding is_leap
leap_days_lem y h = ground arith

year_days-leap_days : (y : ℕ) → 1 ≤ y → year_days y + leap_days (y - 1) ≡ 365 + leap_days y
unfolding year_days is_leap
year_days-leap_days y h = ground arith

years_days-days_before : (n y : ℕ) → 1 ≤ y → days_before y + years_days y n ≡ days_before (y + n)
years_days-days_before zero y h =
    let this : y ≡ y + 0 = omega arith in omega (arith, ap days_before this)
years_days-days_before (suc n) y h =
    let one = year_days-leap_days y h in
    let rest = years_days-days_before n (y + 1) (omega arith) in
    let this : y + 1 - 1 ≡ y = omega arith in
    let step : days_before (y + 1) ≡ days_before y + year_days y =
      omega (arith, one, ap leap_days this) in
    let places : y + 1 + n ≡ y + suc n = omega arith in
    omega (arith, rest, step, ap days_before places)

abbrev table : ℕ → List ℕ
table feb = 31 ∷ feb ∷ 31 ∷ 30 ∷ 31 ∷ 30 ∷ 31 ∷ 31 ∷ 30 ∷ 31 ∷ 30 ∷ 31 ∷ []

months-table : (y : ℕ) → 1 ≤ y → months y ≡ table (month_days y 2)
unfolding months year_days
months-table y h =
    let one : month_days y 2 ≡ 28 + (if is_leap y then 1 else 0) =
      ap (λ n. 28 + n) (leap_days_lem y h) in
    elim (Bool-cases (is_leap y)) [
      | inl leap ↦ rw (one, leap) refl
      | inr common ↦ rw (one, common) refl
    ]

-- A row of the table is the length of its month, and those before it add up.
table-month_days :
    (y n size : ℕ)
    → get_elem? (table (month_days y 2)) n ≡ some size
    → (n < 12)
      × (size ≡ month_days y (n + 1))
      × (sum_by same (take n (table (month_days y 2))) ≡ months_days y n)
table-month_days y zero size e = (omega arith, ground arith, omega arith)
table-month_days y (suc zero) size e = (omega arith, ground arith, omega arith)
table-month_days y (suc (suc zero)) size e = (omega arith, ground arith, omega arith)
table-month_days y (suc (suc (suc zero))) size e = (omega arith, ground arith, omega arith)
table-month_days y (suc (suc (suc (suc zero)))) size e = (omega arith, ground arith, omega arith)
table-month_days y (suc (suc (suc (suc (suc zero))))) size e =
    (omega arith, ground arith, omega arith)
table-month_days y (suc (suc (suc (suc (suc (suc zero)))))) size e =
    (omega arith, ground arith, omega arith)
table-month_days y (suc (suc (suc (suc (suc (suc (suc zero))))))) size e =
    (omega arith, ground arith, omega arith)
table-month_days y (suc (suc (suc (suc (suc (suc (suc (suc zero)))))))) size e =
    (omega arith, ground arith, omega arith)
table-month_days y (suc (suc (suc (suc (suc (suc (suc (suc (suc zero))))))))) size e =
    (omega arith, ground arith, omega arith)
table-month_days y (suc (suc (suc (suc (suc (suc (suc (suc (suc (suc zero)))))))))) size e =
    (omega arith, ground arith, omega arith)
table-month_days y (suc (suc (suc (suc (suc (suc (suc (suc (suc (suc (suc zero))))))))))) size e =
    (omega arith, ground arith, omega arith)
table-month_days y (suc (suc (suc (suc (suc (suc (suc (suc (suc (suc (suc (suc n)))))))))))) size
      e =
    cc

days_to_ymd-IsDate : (days : ℕ) → let (y, m, d) = days_to_ymd days in IsDate days y m d
unfolding days_to_ymd
days_to_ymd-IsDate days =
    let f = year_loop-YearFound days 1970 days (omega arith) in
    let (y, left) = year_loop days 1970 days in
    let g = month_loop-MonthFound (months y) 1 left (omega (arith, sum_by-months y, f.inside)) in
    let month = (month_loop (months y) 1 left).0 in
    let before : month - 1 ≡ g.skipped = omega (arith, g.at) in
    let same_month : month ≡ g.skipped + 1 = omega (arith, g.at) in
    let listed = months-table y (omega (arith, f.at)) in
    let known : get_elem? (table (month_days y 2)) g.skipped ≡ some g.size =
      ap (λ ms. get_elem? ms g.skipped) (sym listed) ∙ g.known in
    let (low, size, sum) = table-month_days y g.skipped g.size known in
    let years = years_days-days_before f.skipped 1970 (omega arith) in
    record {
      from_1970 = omega (arith, f.at);
      month_low = omega (arith, g.at);
      month_high = omega (arith, g.at, low);
      day_low = omega arith;
      day_high = omega (arith, g.inside, size, ap (month_days y) same_month);
      counted = omega (
        arith,
        years,
        ap days_before f.at,
        f.counted,
        g.counted,
        ap (λ ms. sum_by same (take g.skipped ms)) listed,
        sum,
        ap (months_days y) before,
      );
    }

-- The timestamp of any number of seconds is a date of the Gregorian calendar with a time of day within
-- its bounds, and together they count back to that number.
pub iso8601_of-IsDate :
    (secs : ℕ)
    → let t = iso8601_of secs in
      let (y, m, d) = t.date in
      (days : ℕ) × IsDate days y m d
      × (t.hh < 24)
      × (t.mm < 60)
      × (t.ss < 60)
      × (days * 86400 + t.hh * 3600 + t.mm * 60 + t.ss ≡ secs)
unfolding iso8601_of
iso8601_of-IsDate secs = (
  secs / 86400,
  days_to_ymd-IsDate (secs / 86400),
  omega arith,
  omega arith,
  omega arith,
  omega arith,
)
