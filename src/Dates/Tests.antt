-- ===== src/Dates/Tests.antt =====
-- The calendar at the end of January, in a leap year and in one that is not.
use fastkit.Base.{◌+◌, min, ◌≡◌, refl, arith}
use fastkit.Dates.{
  month_days, next_day, add_days, add_months, add_interval, DateTime, IsValid, week, year,
}
use fastkit.Dates.Months.{month_index, add_months_lands}

abbrev january_31 : DateTime
january_31 = record { years = 2024; months = 1; days = 31; time = 36000000000 }

abbrev february_29 : DateTime
february_29 = record { years = 2024; months = 2; days = 29; time = 36000000000 }

january_31-IsValid : IsValid january_31
unfolding month_days
january_31-IsValid = record {
  month_pos = omega arith;
  month_le = omega arith;
  day_pos = omega arith;
  day_le = omega arith;
  time_lt = omega arith;
}

february_29-IsValid : IsValid february_29
unfolding month_days
february_29-IsValid = record {
  month_pos = omega arith;
  month_le = omega arith;
  day_pos = omega arith;
  day_le = omega arith;
  time_lt = omega arith;
}

a_month_on : add_months january_31 1 ≡ february_29
unfolding add_months month_days
a_month_on = refl

a_year_on :
    add_interval february_29 year 1
    ≡ record { years = 2025; months = 2; days = 28; time = 36000000000 }
unfolding add_interval add_months add_days month_days
a_year_on = refl

two_weeks_on :
    add_interval february_29 week 2
    ≡ record { years = 2024; months = 3; days = 14; time = 36000000000 }
unfolding add_interval add_months add_days next_day month_days
two_weeks_on = refl

add_months_lands_example :
    let e = add_months january_31 1 in
    (month_index e ≡ month_index january_31 + 1)
    × (e.days ≡ min january_31.days (month_days e.years e.months))
    × (e.time ≡ january_31.time)
add_months_lands_example = add_months_lands january_31 1 january_31-IsValid
