-- ===== src/Datetime/Tests.antt =====
-- Tests of the calendar, and its theorems at concrete inputs.
use chromatron.Base.{◌+◌, ◌≡◌, refl, some, arith}
use chromatron.Datetime.{
  DateTime, epoch, seconds_to_datetime, increment_seconds, increment_day, is_leap_year, year_days,
  days_per_month, year_loop, month_loop, clock,
}
use chromatron.Datetime.Gregorian.{
  IsDate, since_1900, seconds_to_datetime-since_1900, increment_seconds-since_1900,
}

-- the last second of a leap day
abbrev leap_day : DateTime
leap_day = record { seconds = 59; minutes = 59; hours = 23; day = 29; month = 2; year = 2016 }

abbrev first_of_march : DateTime
first_of_march = record { seconds = 0; minutes = 0; hours = 0; day = 1; month = 3; year = 2016 }

next_second : increment_seconds leap_day ≡ first_of_march
unfolding increment_seconds increment_day days_per_month is_leap_year
next_second = refl

converted : seconds_to_datetime 3665779200 epoch ≡ some first_of_march
unfolding seconds_to_datetime year_loop month_loop clock year_days days_per_month is_leap_year
converted = refl

leap_day-IsDate : IsDate leap_day
leap_day-IsDate = (
  omega arith,
  omega arith,
  omega arith,
  omega arith,
  omega arith,
  omega arith,
  omega arith,
  omega arith,
  omega arith,
)

increment_seconds-since_1900_example :
    IsDate (increment_seconds leap_day)
    × (since_1900 (increment_seconds leap_day) ≡ since_1900 leap_day + 1)
increment_seconds-since_1900_example =
    increment_seconds-since_1900 leap_day leap_day-IsDate (omega arith)

seconds_to_datetime-since_1900_example :
    (d : DateTime) × (seconds_to_datetime 3665779200 epoch ≡ some d)
    × IsDate d
    × (since_1900 d ≡ 3665779200)
seconds_to_datetime-since_1900_example =
    seconds_to_datetime-since_1900 3665779200 epoch (omega arith)
