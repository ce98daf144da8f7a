-- ===== src/Delivery/Schedule/Keys.antt =====
-- The keys that make a delivery idempotent name one slot of one benefit.
use fastkit.Dates.Interval.{add_interval-IsValid, stamp-add_interval}
use fastkit.Delivery.Schedule.Walk.{slot_after}
use fastkit.Dates.Order.{month_days_bounds}
use fastkit.Dates.{
  stamp, IsValid, next_day, add_days, DateTime, add_months, steps, add_interval, IntervalUnit,
}
use fastkit.Base.Text.{AreDigits-decimal, decimal, colon_splits, Text, read_decimal, read-decimal}
use fastkit.Base.{◌≤◌, ℕ, zero, suc, ◌<◌, ◌≡◌, refl, sym, ap, ◌∙◌, arith, ◌*◌}
use fastkit.Delivery.Schedule.{two_digits, cycle_key, grant_key}

-- A grant key names one benefit and one cycle key.
pub grant_key_injective : (i j : ℕ) (k l : Text) → grant_key i k ≡ grant_key j l → (i ≡ j) × (k ≡ l)
unfolding grant_key
grant_key_injective i j k l e =
    let (ids, keys) =
      colon_splits (decimal i) (decimal j) k l (AreDigits-decimal i) (AreDigits-decimal j) e in
    (sym (read-decimal i) ∙ ap (read_decimal 0) ids ∙ read-decimal j, keys)

-- Four digits of the year are all of it up to 9999, which is where Python's calendar ends.
two_digits_injective : (m n : ℕ) → m < 100 → n < 100 → two_digits m ≡ two_digits n → m ≡ n
two_digits_injective m n h k e = ground arith

pub cycle_key_date :
    (d e : DateTime)
    → IsValid d
    → IsValid e
    → d.years < 10000
    → e.years < 10000
    → cycle_key d ≡ cycle_key e
    → (d.years ≡ e.years) × (d.months ≡ e.months) × (d.days ≡ e.days)
unfolding cycle_key
cycle_key_date d e h k p q c =
    ground (arith, month_days_bounds d.years d.months, month_days_bounds e.years e.months)

time-next_day : (d : DateTime) → (next_day d).time ≡ d.time
unfolding next_day
time-next_day d = ground arith

time-add_days : (n : ℕ) (d : DateTime) → (add_days n d).time ≡ d.time
unfolding add_days
time-add_days zero d = refl
time-add_days (suc n) d = time-add_days n (next_day d) ∙ time-next_day d

time-add_interval :
    (d : DateTime) (u : IntervalUnit) (value : ℕ) → (add_interval d u value).time ≡ d.time
unfolding add_interval add_months
time-add_interval d u value = time-add_days ((steps u).0 * value) d

time-slot_after :
    (n : ℕ) (u : IntervalUnit) (value : ℕ) (d : DateTime) → (slot_after n u value d).time ≡ d.time
time-slot_after zero u value d = refl
time-slot_after (suc n) u value d =
    time-slot_after n u value (add_interval d u value) ∙ time-add_interval d u value

slot_after-IsValid :
    (n : ℕ) (u : IntervalUnit) (value : ℕ) (d : DateTime)
    → IsValid d
    → IsValid (slot_after n u value d)
slot_after-IsValid zero u value d h = h
slot_after-IsValid (suc n) u value d h =
    slot_after-IsValid n u value (add_interval d u value) (add_interval-IsValid d u value h)

-- A key tells the benefit and the date: two slots of any two schedules, whatever their steps and
-- wherever they start, have one grant key only if their benefits are one and they are due on one
-- day, up to the year 9999.
pub schedule_keys :
    (i j m n : ℕ) (u v : IntervalUnit) (value width : ℕ) (since origin : DateTime)
    → IsValid since
    → IsValid origin
    → (slot_after m u value since).years < 10000
    → (slot_after n v width origin).years < 10000
    → grant_key i (cycle_key (slot_after m u value since))
      ≡ grant_key j (cycle_key (slot_after n v width origin))
    → (i ≡ j)
      × ((slot_after m u value since).years ≡ (slot_after n v width origin).years)
      × ((slot_after m u value since).months ≡ (slot_after n v width origin).months)
      × ((slot_after m u value since).days ≡ (slot_after n v width origin).days)
schedule_keys i j m n u v value width since origin h k p q e =
    let a = slot_after m u value since in
    let b = slot_after n v width origin in
    let (ids, keys) = grant_key_injective i j (cycle_key a) (cycle_key b) e in
    let (ys, ms, ds) =
      cycle_key_date a b (slot_after-IsValid m u value since h)
        (slot_after-IsValid n v width origin k) p q keys in
    (ids, ys, ms, ds)

slot_after_later :
    (n : ℕ) (u : IntervalUnit) (value : ℕ) (d : DateTime)
    → IsValid d
    → 1 ≤ value
    → stamp d < stamp (slot_after (suc n) u value d)
slot_after_later zero u value d h p = stamp-add_interval d u value h p
slot_after_later (suc n) u value d h p =
    let step = stamp-add_interval d u value h p in
    let rest =
      slot_after_later n u value (add_interval d u value) (add_interval-IsValid d u value h) p in
    omega arith

slot_after_apart :
    (m n : ℕ) (u : IntervalUnit) (value : ℕ) (d : DateTime)
    → IsValid d
    → 1 ≤ value
    → stamp (slot_after m u value d) ≡ stamp (slot_after n u value d)
    → m ≡ n
slot_after_apart zero zero u value d h p e = refl
slot_after_apart zero (suc n) u value d h p e =
    let later = slot_after_later n u value d h p in absurd (omega arith)
slot_after_apart (suc m) zero u value d h p e =
    let later = slot_after_later m u value d h p in absurd (omega arith)
slot_after_apart (suc m) (suc n) u value d h p e =
    ap suc
      (slot_after_apart m n u value (add_interval d u value) (add_interval-IsValid d u value h) p e)

-- The cycles of one schedule each have a grant key of their own: two that have the same one are the
-- same cycle, counted from the start, up to the year 9999 and where a step is at least one unit.
pub slot_keys :
    (i j m n : ℕ) (u : IntervalUnit) (value : ℕ) (since : DateTime)
    → IsValid since
    → 1 ≤ value
    → (slot_after m u value since).years < 10000
    → (slot_after n u value since).years < 10000
    → grant_key i (cycle_key (slot_after m u value since))
      ≡ grant_key j (cycle_key (slot_after n u value since))
    → (i ≡ j) × (m ≡ n)
slot_keys i j m n u value since h step p q e =
    let (ids, ys, ms, ds) = schedule_keys i j m n u u value value since since h h p q e in
    let ts : (slot_after m u value since).time ≡ (slot_after n u value since).time =
      time-slot_after m u value since ∙ sym (time-slot_after n u value since) in
    let same : slot_after m u value since ≡ slot_after n u value since =
      λ i. record { years = ys i; months = ms i; days = ds i; time = ts i } in
    (ids, slot_after_apart m n u value since h step (ap stamp same))
