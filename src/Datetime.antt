-- ===== src/Datetime.antt =====
-- src/sapphireos/datetime.c: the calendar of the NTP epoch, which starts with the year 1900. The conversion
-- to text, which uses `itoa`, and the clock of lib_sntp are left out.
pub mod Calendar
pub mod Conversion
pub mod Increment
pub mod Gregorian
mod Tests
use Prim.Native.Nat.{zero, suc}
use chromatron.Base.{
  ℕ, ◌+◌, ◌-◌, ◌*◌, ◌/◌, ◌%◌, ◌^◌, Bool, true, false, not, ◌&&◌, Option, none, some, List, [], ◌∷◌,
  ltb, leb, ◌==◌, if◌then◌else◌, get_or,
}
use chromatron.Base.Bytes.{◌>>=◌}

-- `datetime_t`
pub record DateTime : Type 0 where
  pub seconds : ℕ
  pub minutes : ℕ
  pub hours : ℕ
  pub day : ℕ
  pub month : ℕ
  pub year : ℕ

abbrev pub days_per_month_table : List ℕ
days_per_month_table = 31 ∷ 28 ∷ 31 ∷ 30 ∷ 31 ∷ 30 ∷ 31 ∷ 31 ∷ 30 ∷ 31 ∷ 30 ∷ 31 ∷ []

-- SECONDS_PER_DAY
abbrev pub seconds_per_day : ℕ
seconds_per_day = 86400

-- datetime_b_is_leap_year
unfoldable pub is_leap_year : ℕ → Bool
is_leap_year year =
    if year % 4 == 0
    then if year % 100 == 0 then if year % 400 == 0 then true else false else true
    else false

-- datetime_v_get_epoch
abbrev pub epoch : DateTime
epoch = record { seconds = 0; minutes = 0; hours = 0; day = 1; month = 1; year = 1900 }

-- the days of a month, with FEBRUARY_LEAP_YEAR_DAYS
unfoldable pub days_per_month : ℕ → ℕ → ℕ
days_per_month month year =
    if (month == 2) && is_leap_year year then 29 else get_or days_per_month_table (month - 1) 0

-- DAYS_PER_YEAR, and one more in a leap year
unfoldable pub year_days : ℕ → ℕ
year_days year = if is_leap_year year then 366 else 365

-- The loop over the years, on fuel: the year, and the days up to its end.
unfoldable pub year_loop : ℕ → ℕ → ℕ → ℕ → Option (ℕ × ℕ)
year_loop zero days temp_days year = none
year_loop (suc fuel) days temp_days year = elim (leb temp_days days) [
  | true ↦
      let next : ℕ = (year + 1) % 2 ^ 16 in
      year_loop fuel days ((temp_days + year_days next) % 2 ^ 16) next
  | false ↦ some (year, temp_days)
]

-- The loop over the months, of which `left` are left: the month and the day, where one is found, and what
-- is left of the seconds.
unfoldable pub month_loop : ℕ → ℕ → ℕ → ℕ → ℕ → Option (ℕ × ℕ) × ℕ
month_loop zero month year day_of_year seconds = (none, seconds)
month_loop (suc left) month year day_of_year seconds =
    let days : ℕ = days_per_month month year in
    elim (ltb day_of_year days) [
      | true ↦ (some (month, day_of_year + 1), seconds - day_of_year * seconds_per_day)
      | false ↦
          month_loop left (month + 1) year (day_of_year - days) (seconds - days * seconds_per_day)
    ]

-- The rest of datetime_v_seconds_to_datetime behind the loops, with the month and the day that `old` has
-- where none was found.
unfoldable pub clock : DateTime → ℕ → Option (ℕ × ℕ) → ℕ → DateTime
clock old year date seconds =
    let hours : ℕ = seconds / 3600 % 2 ^ 8 in
    let rest : ℕ = seconds - hours * 3600 in
    let minutes : ℕ = rest / 60 % 2 ^ 8 in
    record {
      seconds = (rest - minutes * 60) % 2 ^ 8;
      minutes = minutes;
      hours = hours;
      day = elim date [ none ↦ old.day | some d ↦ d.1 % 2 ^ 8 ];
      month = elim date [ none ↦ old.month | some d ↦ d.0 ];
      year = year;
    }

-- datetime_v_seconds_to_datetime, where `old` is what the structure holds before
unfoldable pub seconds_to_datetime : ℕ → DateTime → Option DateTime
seconds_to_datetime seconds old = do
  let days : ℕ = seconds / seconds_per_day % 2 ^ 16
  (year, end) ← year_loop 256 days 0 1899
  (let temp_days : ℕ = end - year_days year in
      let found = month_loop 12 1 year (days - temp_days) (seconds - temp_days * seconds_per_day) in
      some (clock old year found.0 found.1))

-- datetime_v_increment_seconds, from the increment of the day on
unfoldable pub increment_day : DateTime → DateTime
increment_day d =
    let day : ℕ = (d.day + 1) % 2 ^ 8 in
    let month : ℕ = (d.month + 1) % 2 ^ 8 in
    if ltb (days_per_month d.month d.year) day
    then if ltb 12 month
      then record d { day = 1; month = 1; year = (d.year + 1) % 2 ^ 16 }
      else record d { day = 1; month = month }
    else record d { day = day }

-- datetime_v_increment_seconds
unfoldable pub increment_seconds : DateTime → DateTime
increment_seconds d =
    let seconds : ℕ = (d.seconds + 1) % 2 ^ 8 in
    let minutes : ℕ = (d.minutes + 1) % 2 ^ 8 in
    let hours : ℕ = (d.hours + 1) % 2 ^ 8 in
    if leb 60 seconds
    then if leb 60 minutes
      then if leb 24 hours
        then increment_day (record d { seconds = 0; minutes = 0; hours = 0 })
        else record d { seconds = 0; minutes = 0; hours = hours }
      else record d { seconds = 0; minutes = minutes }
    else record d { seconds = seconds }
