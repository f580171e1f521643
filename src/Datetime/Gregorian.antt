-- ===== src/Datetime/Gregorian.antt =====
-- The calendar in its own words, and that datetime.c follows it.
use Prim.Native.Nat.{zero, suc}
use chromatron.Base.{
  ℕ, ◌+◌, ◌-◌, ◌*◌, ◌%◌, ◌≤◌, ◌<◌, ◌^◌, ◌≡◌, refl, sym, ◌∙◌, ap, Bool, true, false, not, ◌&&◌, ◌||◌,
  ◌==◌, if◌then◌else◌, arith, some, List, [], ◌∷◌, get_or, length, subst,
}
use chromatron.Datetime.{
  DateTime, is_leap_year, days_per_month, year_days, seconds_to_datetime, increment_seconds,
  days_per_month_table,
}
use chromatron.Datetime.Calendar.{year_start, month_start, to_seconds, IsValid}
use chromatron.Datetime.Conversion.{seconds_to_datetime_lem}
use chromatron.Datetime.Increment.{increment_seconds_lem}

-- A year is a leap year where 4 divides it, but not where only 100 does and 400 does not.
abbrev pub leaps : ℕ → Bool
leaps y = (y % 4 == 0) && (not (y % 100 == 0) || (y % 400 == 0))

-- Thirty days have September, April, June and November.
abbrev pub month_length : ℕ → ℕ → ℕ
month_length m y =
    if m == 2
    then if leaps y then 29 else 28
    else if (m == 9) || ((m == 4) || ((m == 6) || (m == 11)))
    then 30
    else 31

-- the days of the first n years from 1900 on, and of the first n months of a year
unfoldable pub days_of_years : ℕ → ℕ
days_of_years zero = 0
days_of_years (suc n) = days_of_years n + (if leaps (1900 + n) then 366 else 365)

unfoldable pub days_of_months : ℕ → ℕ → ℕ
days_of_months y zero = 0
days_of_months y (suc n) = days_of_months y n + month_length (n + 1) y

-- the seconds from the start of 1900 to a date and time
abbrev pub since_1900 : DateTime → ℕ
since_1900 d =
    (days_of_years (d.year - 1900) + days_of_months d.year (d.month - 1) + (d.day - 1)) * 86400
    + d.hours * 3600
    + d.minutes * 60
    + d.seconds

-- a date and time of the calendar, from 1900 on
abbrev pub IsDate : DateTime → Type 0
IsDate d =
    (1900 ≤ d.year)
    × (d.year < 2 ^ 16)
    × (1 ≤ d.month)
    × (d.month ≤ 12)
    × (1 ≤ d.day)
    × (d.day ≤ month_length d.month d.year)
    × (d.hours < 24)
    × (d.minutes < 60)
    × (d.seconds < 60)

-- datetime_b_is_leap_year is the rule.
is_leap_year-leaps : (y : ℕ) → is_leap_year y ≡ leaps y
unfolding is_leap_year
is_leap_year-leaps y = ground arith

-- a table that lists a function from k on
abbrev lists : (ℕ → ℕ) → ℕ → List ℕ → Bool
lists f k [] = true
lists f k (x ∷ xs) = (x == f k) && lists f (suc k) xs

lists-get_or :
    (f : ℕ → ℕ) (k : ℕ) (xs : List ℕ) (i : ℕ)
    → lists f k xs ≡ true
    → i < length xs
    → get_or xs i 0 ≡ f (k + i)
lists-get_or f k [] i h lt = absurd (omega arith)
lists-get_or f k (x ∷ xs) zero h lt =
    let here : x ≡ f k = ground (arith, h) in here ∙ ap f (omega arith)
lists-get_or f k (x ∷ xs) (suc i) h lt =
    let rest : lists f (suc k) xs ≡ true = ground (arith, h) in
    lists-get_or f (suc k) xs i rest (omega arith) ∙ ap f (omega arith)

-- the length of a month in a common year
abbrev common_length : ℕ → ℕ
common_length m =
    if m == 2 then 28 else if (m == 9) || ((m == 4) || ((m == 6) || (m == 11))) then 30 else 31

days_per_month-month_length : (m y : ℕ) → 1 ≤ m → m ≤ 12 → days_per_month m y ≡ month_length m y
unfolding days_per_month
days_per_month-month_length m y low high =
    let there : 1 + (m - 1) ≡ m = omega arith in
    let listed : get_or days_per_month_table (m - 1) 0 ≡ common_length m =
      lists-get_or common_length 1 days_per_month_table (m - 1) refl (omega arith)
      ∙ ap common_length there in
    rw (listed, is_leap_year-leaps y) (lengths (m == 2) (leaps y))
  where
    long : ℕ
    long = if (m == 9) || ((m == 4) || ((m == 6) || (m == 11))) then 30 else 31

    lengths :
        (two leap : Bool)
        → ◌≡◌ {A = ℕ}
            (if two && leap then 29 else if two then 28 else long)
            (if two then if leap then 29 else 28 else long)
    lengths true true = refl
    lengths true false = refl
    lengths false leap = refl

year_start-days_of_years : (n : ℕ) → year_start n ≡ days_of_years n
unfolding year_start days_of_years year_days
year_start-days_of_years zero = refl
year_start-days_of_years (suc n) =
    ground (arith, year_start-days_of_years n, is_leap_year-leaps (1900 + n))

month_start-days_of_months : (y n : ℕ) → n ≤ 12 → month_start y n ≡ days_of_months y n
unfolding month_start days_of_months
month_start-days_of_months y zero h = refl
month_start-days_of_months y (suc n) h = omega (
  arith,
  month_start-days_of_months y n (omega arith),
  days_per_month-month_length (n + 1) y (omega arith) (omega arith),
)

IsValid-IsDate : (d : DateTime) → IsValid d → IsDate d
IsValid-IsDate d v = (
  v.first_year,
  v.last_year,
  v.first_month,
  v.last_month,
  v.first_day,
  subst (λ n. d.day ≤ n) (days_per_month-month_length d.month d.year v.first_month v.last_month)
      v.last_day,
  v.hour,
  v.minute,
  v.second,
)

IsDate-IsValid : (d : DateTime) → IsDate d → IsValid d
IsDate-IsValid d (first_year, last_year, low, high, first_day, last_day, hour, minute, second) =
    record {
      second = second;
      minute = minute;
      hour = hour;
      first_day = first_day;
      last_day =
          subst (λ n. d.day ≤ n) (sym (days_per_month-month_length d.month d.year low high))
            last_day;
      first_month = low;
      last_month = high;
      first_year = first_year;
      last_year = last_year;
    }

to_seconds-since_1900 : (d : DateTime) → IsValid d → to_seconds d ≡ since_1900 d
to_seconds-since_1900 d v = omega (
  arith,
  year_start-days_of_years (d.year - 1900),
  month_start-days_of_months d.year (d.month - 1) (omega (arith, v.last_month)),
)

-- datetime_v_seconds_to_datetime ends on every number of 32 bits, with a date and time of the Gregorian
-- calendar that are as many seconds behind the start of 1900.
pub seconds_to_datetime-since_1900 :
    (seconds : ℕ) (old : DateTime)
    → seconds < 2 ^ 32
    → (d : DateTime) × (seconds_to_datetime seconds old ≡ some d)
      × IsDate d
      × (since_1900 d ≡ seconds)
seconds_to_datetime-since_1900 seconds old h =
    let (d, e, v, sum) = seconds_to_datetime_lem seconds old h in
    (d, e, IsValid-IsDate d v, sym (to_seconds-since_1900 d v) ∙ sum)

-- datetime_v_increment_seconds makes of a date and time of the Gregorian calendar, before the year 65535,
-- the one that is one second later.
pub increment_seconds-since_1900 :
    (d : DateTime)
    → IsDate d
    → d.year + 1 < 2 ^ 16
    → IsDate (increment_seconds d) × (since_1900 (increment_seconds d) ≡ since_1900 d + 1)
increment_seconds-since_1900 d date low =
    let v = IsDate-IsValid d date in
    let (v', sum) = increment_seconds_lem d v low in
    (
      IsValid-IsDate (increment_seconds d) v',
      sym (to_seconds-since_1900 (increment_seconds d) v')
          ∙ sum
          ∙ ap (λ n. n + 1) (to_seconds-since_1900 d v),
    )
