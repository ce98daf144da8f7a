-- ===== src/Dates/Order.antt =====
-- The order of moments, and what a step of a day does to it.
use fastkit.Base.{ℕ, zero, suc, ◌+◌, ◌≤◌, ◌<◌, ◌≡◌, arith}
use fastkit.Dates.{month_days, next_day, add_days, stamp, DateTime, IsValid}

pub month_days_bounds : (y m : ℕ) → (28 ≤ month_days y m) × (month_days y m ≤ 31)
unfolding month_days
month_days_bounds y m = ground arith

pub next_day-IsValid : (d : DateTime) → IsValid d → IsValid (next_day d)
unfolding next_day
next_day-IsValid d h =
    ground (arith, month_days_bounds d.years (d.months + 1), month_days_bounds (d.years + 1) 1)

-- The day that follows is later, by its stamp.
pub stamp-next_day : (d : DateTime) → IsValid d → stamp d < stamp (next_day d)
unfolding next_day
stamp-next_day d h = ground (arith, month_days_bounds d.years d.months)

pub add_days-IsValid : (n : ℕ) (d : DateTime) → IsValid d → IsValid (add_days n d)
unfolding add_days
add_days-IsValid zero d h = h
add_days-IsValid (suc n) d h = add_days-IsValid n (next_day d) (next_day-IsValid d h)

pub stamp-add_days : (n : ℕ) (d : DateTime) → IsValid d → stamp d + n ≤ stamp (add_days n d)
unfolding add_days
stamp-add_days zero d h = omega arith
stamp-add_days (suc n) d h =
    omega (arith, stamp-next_day d h, stamp-add_days n (next_day d) (next_day-IsValid d h))

-- Two moments of the calendar with one stamp are one moment.
pub stamp-injective : (d e : DateTime) → IsValid d → IsValid e → stamp d ≡ stamp e → d ≡ e
stamp-injective d e h k p =
    ground (arith, month_days_bounds d.years d.months, month_days_bounds e.years e.months)
