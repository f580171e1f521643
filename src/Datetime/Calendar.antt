-- ===== src/Datetime/Calendar.antt =====
-- The calendar as counts of days: what a date is in seconds since the start of 1900.
use Prim.Native.Nat.{zero, suc}
use chromatron.Base.{
  ℕ, ◌+◌, ◌-◌, ◌*◌, ◌≤◌, ◌<◌, ◌^◌, ◌≡◌, refl, true, ltb, leb, arith, Bool-cases, List, [], ◌∷◌,
  get_or, length, ◌&&◌, inl, inr,
}
use chromatron.Base.Sorting.{fold}
use chromatron.Datetime.{days_per_month_table, DateTime, is_leap_year, days_per_month, year_days}

-- the days from the start of 1900 to that of the year 1900 + k
unfoldable pub year_start : ℕ → ℕ
year_start zero = 0
year_start (suc k) = year_start k + year_days (1900 + k)

-- the days of the first n months
unfoldable pub month_start : ℕ → ℕ → ℕ
month_start year zero = 0
month_start year (suc n) = month_start year n + days_per_month (n + 1) year

pub year_start-suc : (k : ℕ) → year_start (suc k) ≡ year_start k + year_days (1900 + k)
unfolding year_start
year_start-suc k = refl

pub month_start-suc : (y n : ℕ) → month_start y (suc n) ≡ month_start y n + days_per_month (n + 1) y
unfolding month_start
month_start-suc y n = refl

-- the days from the start of 1900 to a date
abbrev pub day_number : DateTime → ℕ
day_number d = year_start (d.year - 1900) + month_start d.year (d.month - 1) + (d.day - 1)

abbrev pub to_seconds : DateTime → ℕ
to_seconds d = day_number d * 86400 + d.hours * 3600 + d.minutes * 60 + d.seconds

pub record IsValid (d : DateTime) : Type 0 where
  pub second : d.seconds < 60
  pub minute : d.minutes < 60
  pub hour : d.hours < 24
  pub first_day : 1 ≤ d.day
  pub last_day : d.day ≤ days_per_month d.month d.year
  pub first_month : 1 ≤ d.month
  pub last_month : d.month ≤ 12
  pub first_year : 1900 ≤ d.year
  pub last_year : d.year < 2 ^ 16

pub year_days-bounds : (y : ℕ) → (365 ≤ year_days y) × (year_days y ≤ 366)
unfolding year_days
year_days-bounds y = ground arith

-- The twelve months are the year.
pub month_start-year : (y : ℕ) → month_start y 12 ≡ year_days y
unfolding month_start year_days days_per_month
month_start-year y = elim (Bool-cases (is_leap_year y)) [
  | inl leap ↦ rw leap refl
  | inr common ↦ rw common refl
]

-- a table of small numbers
small_table :
    (xs : List ℕ) (i : ℕ) → fold (λ x b. leb x 31 && b) true xs ≡ true → get_or xs i 0 ≤ 31
unfolding fold
small_table [] i h = omega arith
small_table (x ∷ xs) zero h = ground (arith, h)
small_table (x ∷ xs) (suc i) h = small_table xs i (ground (arith, h))

pub days_per_month-bound : (m y : ℕ) → days_per_month m y ≤ 31
unfolding days_per_month fold
days_per_month-bound m y = ground (arith, small_table days_per_month_table (m - 1) refl)

-- a table of numbers that are not 0
positive_table :
    (xs : List ℕ) (i : ℕ)
    → fold (λ x b. ltb 0 x && b) true xs ≡ true
    → i < length xs
    → 1 ≤ get_or xs i 0
unfolding fold
positive_table [] i h lt = absurd (omega arith)
positive_table (x ∷ xs) zero h lt = ground (arith, h)
positive_table (x ∷ xs) (suc i) h lt = positive_table xs i (ground (arith, h)) (omega arith)

pub days_per_month-positive : (m y : ℕ) → 1 ≤ m → m ≤ 12 → 1 ≤ days_per_month m y
unfolding days_per_month fold
days_per_month-positive m y low high =
    ground (arith, positive_table days_per_month_table (m - 1) refl (omega arith))
