-- ===== src/Dates.antt =====
-- helpers/dates.py: the calendar arithmetic that every schedule is walked with.
-- A `datetime` in UTC is its date and the microseconds of its day. `timedelta(days=n)` is `n` steps
-- to the day that follows. Python's ceiling at the year 9999 is left out.
pub mod Order
pub mod Months
pub mod Interval
mod Tests
use fastkit.Base.{
  ltb, ◌==◌, if◌then◌else◌, ℕ, zero, suc, ◌+◌, ◌-◌, ◌*◌, ◌/◌, ◌%◌, ◌≤◌, ◌<◌, min, ◌∙◌, Bool, true,
  false, ◌&&◌, ◌||◌, not, leb,
}

pub data IntervalUnit : Type 0 where
  day week month year : IntervalUnit

pub record DateTime : Type 0 where
  pub years : ℕ
  pub months : ℕ
  pub days : ℕ
  pub time : ℕ

-- What `calendar.monthrange` asks of a year.
is_leap : ℕ → Bool
is_leap y = (y % 4 == 0) && (not (y % 100 == 0) || (y % 400 == 0))

feb_days : Bool → ℕ
feb_days true = 29
feb_days false = 28

-- `monthrange(year, month)[1]`
unfoldable pub month_days : ℕ → ℕ → ℕ
unfolding is_leap feb_days
month_days y m =
    if m == 2
    then feb_days (is_leap y)
    else if m == 4 || (m == 6 || (m == 9 || m == 11))
    then 30
    else 31

abbrev pub day_length : ℕ
day_length = 86400000000

-- The day that follows, at the same time of day.
unfoldable pub next_day : DateTime → DateTime
next_day d =
    if ltb d.days (month_days d.years d.months)
    then record d { days = d.days + 1 }
    else if ltb d.months 12
    then record d { months = d.months + 1; days = 1 }
    else record d { years = d.years + 1; months = 1; days = 1 }

-- `moment + timedelta(days=n)`
unfoldable pub add_days : ℕ → DateTime → DateTime
add_days zero d = d
add_days (suc n) d = add_days n (next_day d)

-- `moment + timedelta(...)` for a span shorter or longer than a day, in microseconds.
unfoldable pub add_time : ℕ → DateTime → DateTime
unfolding add_days next_day month_days
add_time span d =
    let total = d.time + span in
    let e = add_days (total / day_length) d in record e { time = total % day_length }

unfoldable pub add_months : DateTime → ℕ → DateTime
add_months d n =
    let total = d.months - 1 + n in
    let y = d.years + total / 12 in
    let m = total % 12 + 1 in record d { years = y; months = m; days = min d.days (month_days y m) }

-- `STEPS`: how far one of each unit walks, in days and in months.
unfoldable pub steps : IntervalUnit → ℕ × ℕ
steps day = (1, 0)
steps week = (7, 0)
steps month = (0, 1)
steps year = (0, 12)

unfoldable pub add_interval : DateTime → IntervalUnit → ℕ → DateTime
unfolding steps
add_interval d u value =
    let (days, months) = steps u in add_months (add_days (days * value) d) (months * value)

-- Python orders datetimes by year, month, day and time, which is the order of these numbers.
abbrev pub stamp : DateTime → ℕ
stamp d = ((d.years * 12 + (d.months - 1)) * 31 + (d.days - 1)) * day_length + d.time

abbrev pub before : DateTime → DateTime → Bool
before d e = ltb (stamp d) (stamp e)

abbrev pub not_after : DateTime → DateTime → Bool
not_after d e = leb (stamp d) (stamp e)

abbrev pub minutes : ℕ → ℕ
minutes n = n * 60000000

-- What the constructor of `datetime` accepts.
pub record IsValid (d : DateTime) : Type 0 where
  pub month_pos : 1 ≤ d.months
  pub month_le : d.months ≤ 12
  pub day_pos : 1 ≤ d.days
  pub day_le : d.days ≤ month_days d.years d.months
  pub time_lt : d.time < day_length
