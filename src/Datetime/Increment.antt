-- ===== src/Datetime/Increment.antt =====
-- datetime_v_increment_seconds is one second more.
use Prim.Native.Nat.{suc}
use chromatron.Base.{
  ℕ, ◌+◌, ◌-◌, ◌%◌, ◌<◌, ◌^◌, ◌≡◌, refl, sym, ◌∙◌, ap, true, false, ltb, leb, arith, Bool-cases,
  inl, inr, dec_lt,
}
use chromatron.Datetime.{DateTime, days_per_month, year_days, increment_day, increment_seconds}
use chromatron.Datetime.Calendar.{
  year_start, month_start, day_number, to_seconds, IsValid, year_start-suc, month_start-suc,
  month_start-year, days_per_month-bound, days_per_month-positive,
}

-- the days up to the end of the month
month_sum :
    (d : DateTime)
    → IsValid d
    → month_start d.year d.month ≡ month_start d.year (d.month - 1) + days_per_month d.month d.year
month_sum d v =
    let after : suc (d.month - 1) ≡ d.month = omega (arith, v.first_month) in
    let after' : d.month - 1 + 1 ≡ d.month = omega (arith, v.first_month) in
    ap (month_start d.year) (sym after)
    ∙ month_start-suc d.year (d.month - 1)
    ∙ ap (λ k. month_start d.year (d.month - 1) + days_per_month k d.year) after'

abbrev Follows : DateTime → DateTime → Type 0
Follows d d' = IsValid d' × (day_number d' ≡ day_number d + 1)

module _ (d : DateTime) (v : IsValid d) where
  same_month : d.day < days_per_month d.month d.year → Follows d (record d { day = d.day + 1 })
  same_month lt = (
    record {
      second = v.second;
      minute = v.minute;
      hour = v.hour;
      first_day = omega arith;
      last_day = omega (arith, lt);
      first_month = v.first_month;
      last_month = v.last_month;
      first_year = v.first_year;
      last_year = v.last_year;
    },
    omega (arith, v.first_day),
  )

  next_month :
      d.day ≡ days_per_month d.month d.year
      → d.month < 12
      → Follows d (record d { day = 1; month = d.month + 1 })
  next_month last lt =
      let behind : month_start d.year (d.month + 1 - 1) ≡ month_start d.year d.month =
        ap (month_start d.year) (omega arith) in
      (
        record {
          second = v.second;
          minute = v.minute;
          hour = v.hour;
          first_day = omega arith;
          last_day = days_per_month-positive (d.month + 1) d.year (omega arith) (omega (arith, lt));
          first_month = omega arith;
          last_month = omega (arith, lt);
          first_year = v.first_year;
          last_year = v.last_year;
        },
        omega (arith, v.first_day, last, behind, month_sum d v),
      )

  next_year :
      d.day ≡ days_per_month d.month d.year
      → d.month ≡ 12
      → d.year + 1 < 2 ^ 16
      → Follows d (record d { day = 1; month = 1; year = d.year + 1 })
  unfolding month_start
  next_year last twelve low =
      let after : d.year + 1 - 1900 ≡ suc (d.year - 1900) = omega (arith, v.first_year) in
      let this : 1900 + (d.year - 1900) ≡ d.year = omega (arith, v.first_year) in
      let years : year_start (d.year + 1 - 1900) ≡ year_start (d.year - 1900) + year_days d.year =
        ap year_start after
        ∙ year_start-suc (d.year - 1900)
        ∙ ap (λ y. year_start (d.year - 1900) + year_days y) this in
      let months : month_start d.year d.month ≡ year_days d.year =
        ap (month_start d.year) twelve ∙ month_start-year d.year in
      (
        record {
          second = v.second;
          minute = v.minute;
          hour = v.hour;
          first_day = omega arith;
          last_day = days_per_month-positive 1 (d.year + 1) (omega arith) (omega arith);
          first_month = omega arith;
          last_month = omega arith;
          first_year = omega (arith, v.first_year);
          last_year = low;
        },
        omega (arith, v.first_day, last, years, months, month_sum d v),
      )

  increment_day_lem : d.year + 1 < 2 ^ 16 → Follows d (increment_day d)
  unfolding increment_day
  increment_day_lem low =
      let short = days_per_month-bound d.month d.year in
      let day : (d.day + 1) % 2 ^ 8 ≡ d.day + 1 = omega (arith, short, v.last_day) in
      let month : (d.month + 1) % 2 ^ 8 ≡ d.month + 1 = omega (arith, v.last_month) in
      let year : (d.year + 1) % 2 ^ 16 ≡ d.year + 1 = omega arith in
      elim (dec_lt d.day (days_per_month d.month d.year)) [
        | yes more ↦
            let test : ltb (days_per_month d.month d.year) (d.day + 1) ≡ false = ground arith in
            rw (day, test) (same_month more)
        | no full ↦
            let test : ltb (days_per_month d.month d.year) (d.day + 1) ≡ true = ground arith in
            let last : d.day ≡ days_per_month d.month d.year = omega (arith, v.last_day) in
            elim (dec_lt d.month 12) [
              | yes within ↦
                  let test' : ltb 12 (d.month + 1) ≡ false = ground arith in
                  rw (day, test, month, test') (next_month last within)
              | no december ↦
                  let test' : ltb 12 (d.month + 1) ≡ true = ground (arith, v.last_month) in
                  rw (day, test, month, test', year)
                    (next_year last (omega (arith, v.last_month)) low)
            ]
      ]

-- The increment of the day leaves the time.
increment_day_time :
    (d : DateTime)
    → ((increment_day d).hours ≡ d.hours)
      × ((increment_day d).minutes ≡ d.minutes)
      × ((increment_day d).seconds ≡ d.seconds)
unfolding increment_day
increment_day_time d =
    elim (Bool-cases (ltb (days_per_month d.month d.year) ((d.day + 1) % 2 ^ 8))) [
      | inr more ↦ rw more (refl, refl, refl)
      | inl full ↦ elim (Bool-cases (ltb 12 ((d.month + 1) % 2 ^ 8))) [
        | inl december ↦ rw (full, december) (refl, refl, refl)
        | inr within ↦ rw (full, within) (refl, refl, refl)
      ]
    ]

-- the same date at another time
at_time :
    (d : DateTime) (h m s : ℕ)
    → IsValid d
    → h < 24
    → m < 60
    → s < 60
    → IsValid (record d { hours = h; minutes = m; seconds = s })
at_time d h m s v hour minute second = record {
  second = second;
  minute = minute;
  hour = hour;
  first_day = v.first_day;
  last_day = v.last_day;
  first_month = v.first_month;
  last_month = v.last_month;
  first_year = v.first_year;
  last_year = v.last_year;
}

-- the first second of the next day
midnight :
    (d : DateTime)
    → IsValid d
    → d.year + 1 < 2 ^ 16
    → d.hours ≡ 23
    → d.minutes ≡ 59
    → d.seconds ≡ 59
    → let d' : DateTime = increment_day (record d { hours = 0; minutes = 0; seconds = 0 }) in
      IsValid d' × (to_seconds d' ≡ to_seconds d + 1)
midnight d v low h m s =
    let d0 : DateTime = record d { hours = 0; minutes = 0; seconds = 0 } in
    let (valid, days) =
      increment_day_lem d0 (at_time d 0 0 0 v (omega arith) (omega arith) (omega arith)) low in
    (valid, omega (arith, days, increment_day_time d0, h, m, s))

-- datetime_v_increment_seconds makes of a valid date and time, before the year 65535, the one that is one
-- second later.
pub increment_seconds_lem :
    (d : DateTime)
    → IsValid d
    → d.year + 1 < 2 ^ 16
    → IsValid (increment_seconds d) × (to_seconds (increment_seconds d) ≡ to_seconds d + 1)
unfolding increment_seconds
increment_seconds_lem d v low =
    let second : (d.seconds + 1) % 2 ^ 8 ≡ d.seconds + 1 = omega (arith, v.second) in
    let minute : (d.minutes + 1) % 2 ^ 8 ≡ d.minutes + 1 = omega (arith, v.minute) in
    let hour : (d.hours + 1) % 2 ^ 8 ≡ d.hours + 1 = omega (arith, v.hour) in
    elim (dec_lt (d.seconds + 1) 60) [
      | yes more ↦
          let test : leb 60 (d.seconds + 1) ≡ false = ground arith in
          rw (second, test)
            (at_time d d.hours d.minutes (d.seconds + 1) v v.hour v.minute more, omega arith)
      | no full ↦
          let test : leb 60 (d.seconds + 1) ≡ true = ground arith in
          elim (dec_lt (d.minutes + 1) 60) [
            | yes more ↦
                let test' : leb 60 (d.minutes + 1) ≡ false = ground arith in
                rw (second, test, minute, test')
                  (
                    at_time d d.hours (d.minutes + 1) 0 v v.hour more (omega arith),
                    omega (arith, v.second),
                  )
            | no full' ↦
                let test' : leb 60 (d.minutes + 1) ≡ true = ground arith in
                elim (dec_lt (d.hours + 1) 24) [
                  | yes more ↦
                      let test'' : leb 24 (d.hours + 1) ≡ false = ground arith in
                      rw (second, test, minute, test', hour, test'')
                        (
                          at_time d (d.hours + 1) 0 0 v more (omega arith) (omega arith),
                          omega (arith, v.second, v.minute),
                        )
                  | no full'' ↦
                      let test'' : leb 24 (d.hours + 1) ≡ true = ground arith in
                      rw (second, test, minute, test', hour, test'')
                        (midnight d v low (omega (arith, v.hour)) (omega (arith, v.minute))
                          (omega (arith, v.second)))
                ]
          ]
    ]
