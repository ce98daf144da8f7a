-- ===== src/Delivery/Schedule/Walk.antt =====
-- The walk ends at the slot that holds the moment, for every valid start and step.
use fastkit.Base.{Bool-cases, ℕ, zero, suc, ◌-◌, ◌≤◌, ◌<◌, ◌≡◌, refl, inl, inr, arith}
use fastkit.Dates.{add_interval, stamp, not_after, DateTime, IsValid, IntervalUnit}
use fastkit.Dates.Interval.{add_interval-IsValid, stamp-add_interval}
use fastkit.Delivery.{SubscriptionBenefit}
use fastkit.Delivery.Schedule.{walk, fuel_of, landing}

-- The slot that stands `n` steps behind another.
abbrev pub slot_after : ℕ → IntervalUnit → ℕ → DateTime → DateTime
slot_after zero u value slot = slot
slot_after (suc n) u value slot = slot_after n u value (add_interval slot u value)

-- Where a walk from `since` lands: on the schedule, in the calendar, at the last slot that is not
-- past the moment, if any is.
pub record Lands (u : IntervalUnit) (value : ℕ) (moment since slot : DateTime) : Type 0 where
  pub steps_taken : ℕ
  pub on_schedule : slot ≡ slot_after steps_taken u value since
  pub valid : IsValid slot
  pub last : stamp moment < stamp (add_interval slot u value)
  pub reached : stamp since ≤ stamp moment → stamp slot ≤ stamp moment
  pub ahead : stamp since ≤ stamp slot

pub walk-Lands :
    (fuel : ℕ) (u : IntervalUnit) (value : ℕ) (moment slot : DateTime)
    → 1 ≤ value
    → IsValid slot
    → stamp moment - stamp slot < fuel
    → Lands u value moment slot (walk fuel u value moment slot)
unfolding walk
walk-Lands zero u value moment slot p h f = elim f [ ]
walk-Lands (suc fuel) u value moment slot p h f =
    let following = add_interval slot u value in
    let later = stamp-add_interval slot u value h p in
    elim (Bool-cases (not_after following moment)) [
      | inr done ↦ rw done (record {
        steps_taken = 0;
        on_schedule = refl;
        valid = h;
        last = ground arith;
        reached = λ r. r;
        ahead = omega arith;
      })
      | inl more ↦ rw more (
          let rest =
            walk-Lands fuel u value moment following p (add_interval-IsValid slot u value h)
              (ground arith) in
          record {
            steps_taken = suc rest.steps_taken;
            on_schedule = rest.on_schedule;
            valid = rest.valid;
            last = rest.last;
            reached = λ r. rest.reached (ground arith);
            ahead = omega (arith, rest.ahead);
          })
    ]

-- From a moment of the calendar and with an interval of at least one unit, `landing` terminates on
-- a slot of the schedule: the last that is not past now, or where it started if that is past now.
pub landing-Lands :
    (now : DateTime) (b : SubscriptionBenefit) (since : DateTime)
    → 1 ≤ b.interval_value
    → IsValid since
    → Lands b.interval_unit b.interval_value now since (landing now b since)
unfolding landing
landing-Lands now b since p h =
    walk-Lands (fuel_of since now) b.interval_unit b.interval_value now since p h (omega arith)
