-- ===== src/Delivery/Schedule.antt =====
-- The slots of a benefit: `landing`, `first_due`, `resolve_due_slot` and the keys of a cycle. The
-- two loops of the source are one walk, on fuel; Delivery/Schedule/Walk.antt has that the fuel
-- suffices.
use fastkit.Base.Text.{codes, decimal, Text}
use fastkit.Dates.{before, not_after, add_interval, stamp, DateTime, IntervalUnit, day}
pub mod Walk
pub mod Resolving
pub mod Keys
use fastkit.Base.{
  ◌==◌, if◌then◌else◌, ℕ, zero, suc, ◌+◌, ◌-◌, ◌/◌, ◌%◌, ◌∙◌, ◌&&◌, Option, none, some, [], ◌∷◌,
  ◌++◌,
}
use fastkit.Delivery.{
  is_recurring, SubscriptionBenefit, MissedCyclePolicy, skip, latest_only, catch_up,
}

-- `while (following := add_interval(slot, …)) <= moment: slot = following`
unfoldable pub walk : ℕ → IntervalUnit → ℕ → DateTime → DateTime → DateTime
walk zero u value moment slot = slot
walk (suc fuel) u value moment slot =
    let following = add_interval slot u value in
    let rest = walk fuel u value moment following in
    if not_after following moment then rest else slot

-- Every step takes a slot later, by its stamp.
abbrev pub fuel_of : DateTime → DateTime → ℕ
fuel_of since moment = suc (stamp moment - stamp since)

unfoldable pub landing : DateTime → SubscriptionBenefit → DateTime → DateTime
unfolding walk
landing now b since = walk (fuel_of since now) b.interval_unit b.interval_value now since

unfoldable pub first_due : DateTime → SubscriptionBenefit → Option DateTime
unfolding landing is_recurring
first_due now b =
    if is_recurring b.cadence
    then some (landing now b b.anchor_at)
    else if b.grant_on_activation
    then some b.anchor_at
    else none

abbrev pub by_policy :
    MissedCyclePolicy
    → DateTime
    → DateTime
    → DateTime
    → SubscriptionBenefit
    → Option DateTime × SubscriptionBenefit
by_policy catch_up next latest following b = (some next, b)
by_policy latest_only next latest following b = (some latest, b)
by_policy skip next latest following b = (none, record b { next_grant_at = some following })

-- The slot to deliver now, and the benefit with what became of the ones it missed. Only a benefit
-- with a date is ever asked about.
unfoldable pub resolve_due_slot :
    DateTime → SubscriptionBenefit → DateTime → Option DateTime × SubscriptionBenefit
unfolding walk
resolve_due_slot moment b next =
    let following = add_interval next b.interval_unit b.interval_value in
    let latest =
      walk (fuel_of following moment) b.interval_unit b.interval_value moment following in
    if before moment following
    then (some next, b)
    else by_policy b.missed_cycle_policy next latest
        (add_interval latest b.interval_unit b.interval_value) b

-- A number below ten as its digit.
abbrev digit : ℕ → ℕ
digit n = n + b'0'

abbrev pub two_digits : ℕ → Text
two_digits n = digit (n / 10 % 10) ∷ digit (n % 10) ∷ []

abbrev pub four_digits : ℕ → Text
four_digits n = digit (n / 1000 % 10) ∷ digit (n / 100 % 10) ∷ two_digits n

-- The whole seconds of a day.
abbrev pub seconds : DateTime → ℕ
seconds d = d.time / 1000000

-- `f"{moment:%Y%m%d%H%M%S}"`
unfoldable pub cycle_key : DateTime → Text
cycle_key d =
    four_digits d.years
    ++ two_digits d.months
    ++ two_digits d.days
    ++ two_digits (seconds d / 3600)
    ++ two_digits (seconds d / 60 % 60)
    ++ two_digits (seconds d % 60)

-- `f"activation:{cycle}"` and `f"{benefit.id}:{cycle_key}"`
unfoldable pub activation_text : ℕ → Text
activation_text cycle = codes "activation:" ++ decimal cycle

unfoldable pub grant_key : ℕ → Text → Text
grant_key id key = decimal id ++ b':' ∷ key

unfoldable pub activation_key : SubscriptionBenefit → DateTime → Text
unfolding is_recurring cycle_key activation_text
activation_key b slot =
    if is_recurring b.cadence && b.cycle == 0 then cycle_key slot else activation_text b.cycle
