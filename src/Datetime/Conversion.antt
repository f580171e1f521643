-- ===== src/Datetime/Conversion.antt =====
-- datetime_v_seconds_to_datetime gives the date of a number of seconds.
use Prim.Native.Nat.{zero, suc}
use chromatron.Base.{
  ℕ, ◌+◌, ◌-◌, ◌*◌, ◌/◌, ◌%◌, ◌≤◌, ◌<◌, ◌^◌, ◌≡◌, refl, ◌∙◌, ap, true, false, ltb, leb, arith, some,
  dec_lt, dec_le,
}
use chromatron.Datetime.{
  DateTime, days_per_month, year_days, year_loop, month_loop, clock, seconds_to_datetime,
}
use chromatron.Datetime.Calendar.{
  year_start, month_start, year_start-suc, month_start-suc, to_seconds, IsValid, year_days-bounds,
  month_start-year, days_per_month-bound,
}

year_start-le : (k : ℕ) → 365 * k ≤ year_start k
unfolding year_start
year_start-le zero = omega arith
year_start-le (suc k) = omega (arith, year_start-le k, year_days-bounds (1900 + k))

year_round :
    (fuel days k : ℕ)
    → days < 2 ^ 16 - 366
    → year_start k ≤ days
    → year_loop (suc fuel) days (year_start k) (1899 + k)
      ≡ year_loop fuel days (year_start (suc k)) (1899 + suc k)
unfolding year_loop
year_round fuel days k low more =
    let test : leb (year_start k) days ≡ true = ground arith in
    let next : (1899 + k + 1) % 2 ^ 16 ≡ 1899 + suc k = omega (arith, year_start-le k) in
    let year : 1899 + suc k ≡ 1900 + k = omega arith in
    let end : (year_start k + year_days (1899 + suc k)) % 2 ^ 16 ≡ year_start (suc k) =
      ap (λ y. (year_start k + year_days y) % 2 ^ 16) year
      ∙ omega (arith, year_days-bounds (1900 + k), year_start-suc k) in
    rw (year_loop, test, next, end) refl

year_stop :
    (fuel days k : ℕ)
    → days < year_start k
    → year_loop (suc fuel) days (year_start k) (1899 + k) ≡ some (1899 + k, year_start k)
unfolding year_loop
year_stop fuel days k past =
    let test : leb (year_start k) days ≡ false = ground arith in rw (year_loop, test) refl

-- The loop over the years ends with the year of the day.
year_loop_lem :
    (fuel days k : ℕ)
    → days < 2 ^ 16 - 366
    → year_start k ≤ days
    → days + 366 < year_start k + 365 * fuel
    → (j : ℕ) × (year_loop fuel days (year_start k) (1899 + k)
        ≡ some (1900 + j, year_start (suc j)))
      × (year_start j ≤ days)
      × (days < year_start (suc j))
year_loop_lem zero days k low past enough = absurd (omega arith)
year_loop_lem (suc zero) days k low past enough = absurd (omega arith)
year_loop_lem (suc (suc fuel)) days k low past enough =
    let first = year_round (suc fuel) days k low past in
    elim (dec_le (year_start (suc k)) days) [
      | yes more ↦
          let (j, e, start, last) =
            year_loop_lem (suc fuel) days (suc k) low more
              (omega (arith, year_days-bounds (1900 + k), year_start-suc k)) in
          (j, first ∙ e, start, last)
      | no done ↦
          let stop = year_stop fuel days (suc k) (omega arith) in
          (
            k,
            first ∙ stop ∙ ap (λ y. some (y, year_start (suc k))) (omega arith),
            past,
            omega arith,
          )
    ]

full : (n : ℕ) → 0 + n ≡ 12 → n ≡ 12
full n e = omega arith

-- The loop over the months ends with the month of the day.
month_loop_lem :
    (left n y doy s : ℕ)
    → left + n ≡ 12
    → month_start y n + doy < year_days y
    → doy * 86400 ≤ s
    → (m : ℕ) × (d : ℕ) × (month_loop left (n + 1) y doy s ≡ (some (m + 1, d + 1), s - doy * 86400))
      × (m < 12)
      × (d < days_per_month (m + 1) y)
      × (month_start y m + d ≡ month_start y n + doy)
unfolding month_loop
month_loop_lem zero n y doy s all within enough =
    absurd (omega (arith, month_start-year y, ap (month_start y) (full n all)))
month_loop_lem (suc left) n y doy s all within enough =
    elim (dec_lt doy (days_per_month (n + 1) y)) [
      | yes here ↦
          let test : ltb doy (days_per_month (n + 1) y) ≡ true = ground arith in
          (n, doy, rw (month_loop, test) refl, omega arith, here, refl)
      | no later ↦
          let test : ltb doy (days_per_month (n + 1) y) ≡ false = ground arith in
          let days : ℕ = days_per_month (n + 1) y in
          let (m, d, e, last, inside, sum) =
            month_loop_lem left (suc n) y (doy - days) (s - days * 86400) (omega arith)
              (omega (arith, month_start-suc y n)) (omega arith) in
          (
            m,
            d,
            rw (month_loop, test)
                (ap (λ k. month_loop left k y (doy - days) (s - days * 86400)) (omega arith)
                  ∙ e
                  ∙ ap (λ r. (some (m + 1, d + 1), r)) (omega arith)),
            last,
            inside,
            omega (arith, sum, month_start-suc y n),
          )
    ]

-- The clock of the seconds of a day, behind the loops.
module _ (old : DateTime) (j m d r : ℕ) (years : j < 137) (last : m < 12)
    (inside : d < days_per_month (m + 1) (1900 + j)) (short : r < 86400) where
  abbrev date : DateTime
  date = clock old (1900 + j) (some (m + 1, d + 1)) r

  day_small : (d + 1) % 2 ^ 8 ≡ d + 1
  day_small = omega (arith, inside, days_per_month-bound (m + 1) (1900 + j))

  date-IsValid : IsValid date
  unfolding clock
  date-IsValid = record {
    second = omega arith;
    minute = omega arith;
    hour = omega arith;
    first_day = omega (arith, day_small);
    last_day = omega (arith, day_small, inside);
    first_month = omega arith;
    last_month = omega arith;
    first_year = omega arith;
    last_year = omega arith;
  }

  date-to_seconds : to_seconds date ≡ (year_start j + (month_start (1900 + j) m + d)) * 86400 + r
  unfolding clock
  date-to_seconds =
      let year : year_start (1900 + j - 1900) ≡ year_start j = ap year_start (omega arith) in
      let month : month_start (1900 + j) (m + 1 - 1) ≡ month_start (1900 + j) m =
        ap (month_start (1900 + j)) (omega arith) in
      omega (arith, year, month, day_small)

-- the code behind the answers of its loops
conversion_run :
    (seconds : ℕ) (old : DateTime) (y end start r : ℕ) (md : ℕ × ℕ)
    → seconds / 86400 % 2 ^ 16 ≡ seconds / 86400
    → year_loop 256 (seconds / 86400) 0 1899 ≡ some (y, end)
    → end - year_days y ≡ start
    → month_loop 12 1 y (seconds / 86400 - start) (seconds - start * 86400) ≡ (some md, r)
    → seconds_to_datetime seconds old ≡ some (clock old y (some md) r)
unfolding seconds_to_datetime
conversion_run seconds old y end start r md small e temp e' =
    rw (seconds_to_datetime, small, e, temp, e') refl

-- datetime_v_seconds_to_datetime ends on every number of 32 bits, with a valid date and time that are as many
-- seconds behind the start of 1900.
pub seconds_to_datetime_lem :
    (seconds : ℕ) (old : DateTime)
    → seconds < 2 ^ 32
    → (d : DateTime) × (seconds_to_datetime seconds old ≡ some d)
      × IsValid d
      × (to_seconds d ≡ seconds)
unfolding year_start month_start
seconds_to_datetime_lem seconds old h =
    let days : ℕ = seconds / 86400 in
    let small : days % 2 ^ 16 ≡ days = omega arith in
    let (j, e, start, end) = year_loop_lem 256 days 0 (omega arith) (omega arith) (omega arith) in
    let y : ℕ = 1900 + j in
    let whole : year_start (suc j) ≡ year_start j + year_days y = year_start-suc j in
    let temp : year_start (suc j) - year_days y ≡ year_start j = omega (arith, whole) in
    let (m, d, e', last, inside, sum) =
      month_loop_lem 12 0 y (days - year_start j) (seconds - year_start j * 86400) (omega arith)
        (omega (arith, end, whole, start)) (omega (arith, start)) in
    let r : ℕ = seconds - year_start j * 86400 - (days - year_start j) * 86400 in
    let years : j < 137 = omega (arith, year_start-le j, start) in
    let short : r < 86400 = omega (arith, start) in
    (
      date old j m d r years last inside short,
      conversion_run seconds old y (year_start (suc j)) (year_start j) r (m + 1, d + 1) small e temp
          e',
      date-IsValid old j m d r years last inside short,
      date-to_seconds old j m d r years last inside short ∙ omega (arith, sum, start),
    )
