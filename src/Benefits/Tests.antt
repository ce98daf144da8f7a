-- ===== src/Benefits/Tests.antt =====
-- A monthly benefit of a hundred coins, and one that names a product too.
use fastkit.Base.{◌≡◌, refl, true, none, some, arith, ℕ}
use fastkit.Base.Int.{pos}
use fastkit.Base.Text.{codes}
use fastkit.Dates.{month_days, add_interval, DateTime, IsValid, month, add_days, add_months}
use fastkit.Errors.{benefit_product_only_on_a_product_benefit, product_out_of_tenant}
use fastkit.Delivery.{
  BenefitCadence, BenefitType, BenefitStatus, MissedCyclePolicy, SubscriptionBenefit,
}
use fastkit.Delivery.Schedule.{landing}
use fastkit.Delivery.Schedule.Walk.{Lands}
use fastkit.Benefits.{declared, validate, BenefitDraft, Rows}
use fastkit.Benefits.Sound.{
  IsSoundStep, IsSoundPayload, IsReached, validate-IsSound, validate-Lands,
}

abbrev january_31 : DateTime
january_31 = record { years = 2024; months = 1; days = 31; time = 0 }

abbrev march_5 : DateTime
march_5 = record { years = 2024; months = 3; days = 5; time = 0 }

january_31-IsValid : IsValid january_31
unfolding month_days
january_31-IsValid = record {
  month_pos = omega arith;
  month_le = omega arith;
  day_pos = omega arith;
  day_le = omega arith;
  time_lt = omega arith;
}

abbrev of_one : Rows
of_one = record {
  entitlement = λ i. some (some 1);
  product = λ i. some (some 2);
  currency = λ i. some none;
}

abbrev monthly_coins : BenefitDraft
monthly_coins = record {
  type = BenefitType.credit;
  cadence = BenefitCadence.recurring;
  interval_unit = some month;
  interval_value = some (pos 1);
  quantity = some (pos 100);
  product_id = none;
  currency_id = some 5;
  entitlement_id = 3;
}

passes : validate january_31 of_one monthly_coins ≡ none
unfolding validate add_interval month_days fastkit.Dates.add_months fastkit.Dates.add_days
passes = refl

names_both :
    validate january_31 of_one (record monthly_coins { product_id = some 6 })
    ≡ some benefit_product_only_on_a_product_benefit
unfolding validate add_interval month_days fastkit.Dates.add_months fastkit.Dates.add_days
names_both = refl

other_tenant :
    validate january_31 of_one
      (record monthly_coins { type = BenefitType.product; product_id = some 6; currency_id = none })
    ≡ some product_out_of_tenant
unfolding validate add_interval month_days fastkit.Dates.add_months fastkit.Dates.add_days
other_tenant = refl

keeps_stored : declared {A = ℕ} none (some 4) 1 ≡ 4
unfolding declared
keeps_stored = refl

abbrev carried : SubscriptionBenefit
carried = record {
  id = 11;
  subscription_id = 10;
  benefit_id = 9;
  user_entitlement_id = 8;
  product_id = none;
  currency_id = some 5;
  status = BenefitStatus.active;
  benefit_type = BenefitType.credit;
  target = codes "coins";
  quantity = pos 100;
  cadence = BenefitCadence.recurring;
  interval_unit = month;
  interval_value = 1;
  grant_on_activation = true;
  missed_cycle_policy = MissedCyclePolicy.skip;
  anchor_at = january_31;
  cycle = 0;
  last_grant_at = none;
  next_grant_at = none;
}

validate-IsSound_example :
    IsSoundStep january_31 BenefitCadence.recurring (some month) (some (pos 1))
    × IsSoundPayload BenefitType.credit (some (pos 100)) none (some 5)
    × IsReached of_one monthly_coins
validate-IsSound_example = validate-IsSound january_31 of_one monthly_coins passes

validate-Lands_example : Lands month 1 march_5 january_31 (landing march_5 carried january_31)
validate-Lands_example =
    validate-Lands january_31 march_5 of_one monthly_coins carried january_31 passes refl refl refl
      january_31-IsValid
