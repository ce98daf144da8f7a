-- ===== src/Dates/Interval.antt =====
-- `add_interval`: every step of a schedule stays in the calendar and is later than the one before.
use fastkit.Base.{ℕ, ◌*◌, ◌≤◌, ◌<◌, arith, zero, suc, ◌≡◌}
use fastkit.Dates.{
  steps, add_interval, stamp, DateTime, IsValid, IntervalUnit, day, week, month, year, add_days,
  add_months,
}
use fastkit.Dates.Order.{add_days-IsValid, stamp-add_days}
use fastkit.Dates.Months.{add_months-IsValid, stamp-add_months, add_months_zero}

-- A step from a moment of the calendar is a moment of the calendar.
pub add_interval-IsValid :
    (d : DateTime) (u : IntervalUnit) (value : ℕ) → IsValid d → IsValid (add_interval d u value)
unfolding add_interval
add_interval-IsValid d u value h =
    add_months-IsValid _ ((steps u).1 * value) (add_days-IsValid ((steps u).0 * value) d h)

later_months :
    (d : DateTime) (m n : ℕ)
    → IsValid d
    → m ≡ 0
    → 1 ≤ n
    → stamp d < stamp (add_months (add_days m d) n)
unfolding add_days
later_months d zero n h z p = stamp-add_months d n h p
later_months d (suc m) n h z p = absurd (omega arith)

-- A step of at least one unit from a moment of the calendar is strictly later, so a schedule never
-- stands still.
pub stamp-add_interval :
    (d : DateTime) (u : IntervalUnit) (value : ℕ)
    → IsValid d
    → 1 ≤ value
    → stamp d < stamp (add_interval d u value)
unfolding add_interval
stamp-add_interval d day value h p =
    rw
      (add_months_zero (add_days (1 * value) d) (0 * value) (add_days-IsValid (1 * value) d h)
        (omega arith))
      (omega (arith, stamp-add_days (1 * value) d h))
stamp-add_interval d week value h p =
    rw
      (add_months_zero (add_days (7 * value) d) (0 * value) (add_days-IsValid (7 * value) d h)
        (omega arith))
      (omega (arith, stamp-add_days (7 * value) d h))
stamp-add_interval d month value h p =
    later_months d (0 * value) (1 * value) h (omega arith) (omega arith)
stamp-add_interval d year value h p =
    later_months d (0 * value) (12 * value) h (omega arith) (omega arith)
