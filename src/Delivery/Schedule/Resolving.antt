-- ===== src/Delivery/Schedule/Resolving.antt =====
-- `resolve_due_slot` under each policy.
use fastkit.Dates.Interval.{stamp-add_interval, add_interval-IsValid}
use fastkit.Dates.{before, IsValid, add_interval, stamp, DateTime}
use fastkit.Base.{Bool-cases, suc, ◌≤◌, ◌<◌, ◌≡◌, refl, ◌⊎◌, inl, inr, Option, none, some, arith}
use fastkit.Delivery.{SubscriptionBenefit, MissedCyclePolicy, skip, latest_only, catch_up}
use fastkit.Delivery.Schedule.{walk, fuel_of, resolve_due_slot, by_policy}
use fastkit.Delivery.Schedule.Walk.{walk-Lands, Lands}

abbrev pub next_slot : SubscriptionBenefit → DateTime → DateTime
next_slot b slot = add_interval slot b.interval_unit b.interval_value

-- The slot of `b` that holds the moment, walked from `next`.
abbrev pub Holds : SubscriptionBenefit → DateTime → DateTime → DateTime → Type 0
Holds b moment next latest = Lands b.interval_unit b.interval_value moment next latest

-- What a policy owes a benefit that is behind on its cycles, whose date is `next`.
abbrev pub Behind :
    MissedCyclePolicy
    → DateTime
    → SubscriptionBenefit
    → DateTime
    → Option DateTime × SubscriptionBenefit
    → Type 0
Behind catch_up moment b next r = r ≡ (some next, b)
Behind latest_only moment b next r =
    (latest : DateTime) × (r ≡ (some latest, b)) × Holds b moment next latest
Behind skip moment b next r =
    (latest : DateTime) × (r ≡ (none, record b { next_grant_at = some (next_slot b latest) }))
    × Holds b moment next latest

-- A benefit whose next cycle is not due yet delivers the slot of its date.
abbrev pub Resolved :
    DateTime → SubscriptionBenefit → DateTime → Option DateTime × SubscriptionBenefit → Type 0
Resolved moment b next r =
    (stamp moment < stamp (next_slot b next)) × (r ≡ (some next, b))
    ⊎ (stamp (next_slot b next) ≤ stamp moment) × Behind b.missed_cycle_policy moment b next r

later-Lands :
    (b : SubscriptionBenefit) (moment next latest : DateTime)
    → stamp next ≤ stamp (next_slot b next)
    → stamp (next_slot b next) ≤ stamp moment
    → Holds b moment (next_slot b next) latest
    → Holds b moment next latest
later-Lands b moment next latest le due l = record {
  steps_taken = suc l.steps_taken;
  on_schedule = l.on_schedule;
  valid = l.valid;
  last = l.last;
  reached = λ r. l.reached due;
  ahead = omega (arith, l.ahead);
}

by_policy-Behind :
    (policy : MissedCyclePolicy) (moment : DateTime) (b : SubscriptionBenefit)
    (next latest : DateTime)
    → Holds b moment next latest
    → Behind policy moment b next (by_policy policy next latest (next_slot b latest) b)
by_policy-Behind catch_up moment b next latest l = refl
by_policy-Behind latest_only moment b next latest l = (latest, refl, l)
by_policy-Behind skip moment b next latest l = (latest, refl, l)

-- A benefit that is not behind delivers the slot of its date. One that is behind delivers the
-- oldest missed slot under `catch_up`, the slot that holds the moment under `latest_only`, and none
-- under `skip`, which dates it to the first slot ahead of the moment. The walk terminates in every
-- case.
pub resolve_due_slot-Resolved :
    (moment : DateTime) (b : SubscriptionBenefit) (next : DateTime)
    → 1 ≤ b.interval_value
    → IsValid next
    → Resolved moment b next (resolve_due_slot moment b next)
unfolding resolve_due_slot
resolve_due_slot-Resolved moment b next p h = elim (Bool-cases (before moment (next_slot b next))) [
  | inl early ↦ rw early (inl (ground arith, refl))
  | inr due ↦ rw due (
      inr (
        let le : stamp (next_slot b next) ≤ stamp moment = ground arith in
        let following = next_slot b next in
        (
          le,
          by_policy-Behind b.missed_cycle_policy moment b next
              (walk (fuel_of following moment) b.interval_unit b.interval_value moment following)
              (later-Lands b moment next
                (walk (fuel_of following moment) b.interval_unit b.interval_value moment following)
                (omega (arith, stamp-add_interval next b.interval_unit b.interval_value h p)) le
                (walk-Lands (fuel_of following moment) b.interval_unit b.interval_value moment
                  following p (add_interval-IsValid next b.interval_unit b.interval_value h)
                  (omega arith))),
        )))
]
