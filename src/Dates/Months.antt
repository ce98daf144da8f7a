-- ===== src/Dates/Months.antt =====
-- `add_months`: the month it lands in, the clamp of the day, and the order.
use fastkit.Base.{ℕ, ◌+◌, ◌-◌, ◌*◌, ◌/◌, ◌%◌, ◌≤◌, ◌<◌, min, ◌≡◌, refl, arith}
use fastkit.Dates.{month_days, add_months, stamp, DateTime, IsValid}
use fastkit.Dates.Order.{month_days_bounds}

-- The months counted from the year 0.
abbrev pub month_index : DateTime → ℕ
month_index d = d.years * 12 + (d.months - 1)

pub add_months-IsValid : (d : DateTime) (n : ℕ) → IsValid d → IsValid (add_months d n)
unfolding add_months
add_months-IsValid d n h =
    let total = d.months - 1 + n in
    ground (arith, month_days_bounds (d.years + total / 12) (total % 12 + 1))

-- From a moment of the calendar, the target month is exactly `n` months on, the time of day is
-- kept, and the day is the one asked for where that month has it, and its last day where it has
-- not.
pub add_months_lands :
    (d : DateTime) (n : ℕ)
    → IsValid d
    → let e = add_months d n in
      (month_index e ≡ month_index d + n)
      × (e.days ≡ min d.days (month_days e.years e.months))
      × (e.time ≡ d.time)
unfolding add_months
add_months_lands d n h = (omega arith, refl, refl)

pub stamp-add_months : (d : DateTime) (n : ℕ) → IsValid d → 1 ≤ n → stamp d < stamp (add_months d n)
stamp-add_months d n h p =
    omega
      (arith, add_months_lands d n h, add_months-IsValid d n h, month_days_bounds d.years d.months)

pub add_months_zero : (d : DateTime) (n : ℕ) → IsValid d → n ≡ 0 → add_months d n ≡ d
unfolding add_months
add_months_zero d n h z = ground arith

month_of_index :
    (d e : DateTime)
    → IsValid d
    → IsValid e
    → month_index d ≡ month_index e
    → (d.years ≡ e.years) × (d.months ≡ e.months)
month_of_index d e h k p = (omega arith, omega arith)

-- The order of two moments of the calendar at one time of day survives the walk, clamped or not.
pub add_months_mono :
    (d e : DateTime) (n : ℕ)
    → IsValid d
    → IsValid e
    → d.time ≡ e.time
    → stamp d ≤ stamp e
    → stamp (add_months d n) ≤ stamp (add_months e n)
add_months_mono d e n h k same le = ground (
  arith,
  add_months_lands d n h,
  add_months_lands e n k,
  add_months-IsValid d n h,
  add_months-IsValid e n k,
  month_days_bounds d.years d.months,
  month_days_bounds e.years e.months,
  month_days_bounds (add_months d n).years (add_months d n).months,
  month_days_bounds (add_months e n).years (add_months e n).months,
  month_of_index (add_months d n) (add_months e n) (add_months-IsValid d n h)
      (add_months-IsValid e n k),
)
