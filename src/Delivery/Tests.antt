-- ===== src/Delivery/Tests.antt =====
-- A plan that pays credits every month, and a subscription to it in several states.
use fastkit.Base.{List, ap, length, ◌≤◌, ◌<◌, ◌≡◌, refl, true, false, none, some, [], ◌∷◌, arith, ℕ}
use fastkit.Base.Int.{pos}
use fastkit.Base.Table.{All, exists}
use fastkit.Base.Text.{Text, codes}
use fastkit.Dates.{
  day, month_days, add_days, add_time, add_months, add_interval, before, DateTime, IsValid, month,
}
use fastkit.Commerce.{Session}
use fastkit.Delivery.{
  is_eligible, is_eligible_for_benefits, Subscription, UserEntitlement, Benefit,
  SubscriptionBenefit, BenefitGrant, Plan, Catalog, Store, SubscriptionStatus, active, suspended,
  BenefitStatus, UserEntitlementStatus, processing, recurring, BenefitType, BenefitPolicy,
  access_only, latest_only, same_cycle,
}
use fastkit.Delivery.Evidence.{abandoned_after, takeable}
use fastkit.Delivery.Schedule.{landing, resolve_due_slot, grant_key, cycle_key}
use fastkit.Delivery.Schedule.Walk.{slot_after, landing-Lands, Lands}
use fastkit.Delivery.Schedule.Resolving.{Resolved, resolve_due_slot-Resolved}
use fastkit.Delivery.Schedule.Keys.{schedule_keys, slot_keys}
use fastkit.Delivery.Handing.Atomic.{SameHoldings}
use fastkit.Delivery.Cycle.{run_cycle}
use fastkit.Delivery.Cycle.Reserved.{UniqueGrants, run_cycle-UniqueGrants}
use fastkit.Delivery.Cycle.Replay.{run_cycle_replay}
use fastkit.Delivery.Activation.{reconcile_entitlements, fresh_snapshot}
use fastkit.Delivery.Activation.Rights.{Settled, reconcile_entitlements-Settled}
use fastkit.Delivery.Passes.{expiry_batch, claim, is_over, over_of, expire_subscriptions}
use fastkit.Delivery.Passes.Attempts.{claim_each, claim_exclusive}
use fastkit.Delivery.Passes.Expiry.{is_own_over, expire_subscriptions-Closed, Closed}

abbrev january_31 : DateTime
january_31 = record { years = 2024; months = 1; days = 31; time = 36000000000 }

abbrev march_5 : DateTime
march_5 = record { years = 2024; months = 3; days = 5; time = 0 }

january_31-IsValid : IsValid january_31
unfolding month_days
january_31-IsValid = record {
  month_pos = omega arith;
  month_le = omega arith;
  day_pos = omega arith;
  day_le = omega arith;
  time_lt = omega arith;
}

abbrev in_march : Session
in_march = record {
  directory = record { user_tenant = λ u. some 1; currency_tenant = λ c. none };
  products = λ id. none;
  others = λ l. l;
  now = march_5;
}

abbrev coins : Benefit
coins = record {
  id = 6;
  entitlement_id = 5;
  product_id = none;
  currency_id = some 1;
  type = BenefitType.credit;
  target = codes "coins";
  quantity = pos 100;
  cadence = recurring;
  interval_unit = month;
  interval_value = 1;
  grant_on_activation = true;
  missed_cycle_policy = latest_only;
  is_active = true;
}

abbrev gold : Plan
gold = record {
  id = 3;
  name = codes "gold";
  resume_delivery_policy = same_cycle;
  trial_benefit_policy = access_only;
  grace_benefit_policy = BenefitPolicy.all;
}

abbrev catalogue : Catalog
catalogue = record {
  plans = λ id. some gold;
  plan_entitlements = λ id. 5 ∷ [];
  catalog_benefits = coins ∷ [];
}

abbrev member : SubscriptionStatus → Subscription
member status = record {
  id = 2;
  tenant_id = some 1;
  user_id = 7;
  plan_id = 3;
  integration_id = none;
  external_product_id = none;
  external_id = none;
  status = status;
  benefit_status = BenefitStatus.active;
  environment = none;
  started_at = some january_31;
  current_period_started_at = some january_31;
  current_period_ends_at = none;
  access_until = some january_31;
  trial_ends_at = none;
  grace_until = none;
  cancel_at_period_end = false;
  canceled_at = none;
  expired_at = none;
  stated_at = none;
}

abbrev held_right : UserEntitlement
held_right = record {
  id = 10;
  subscription_id = 2;
  entitlement_id = 8;
  status = UserEntitlementStatus.active;
  started_at = some january_31;
  expires_at = none;
  revoked_at = none;
}

abbrev held_benefit : SubscriptionBenefit
held_benefit = record (fresh_snapshot january_31 january_31 (member active) coins 10 11) {
  next_grant_at = some january_31;
}

abbrev started : BenefitGrant
started = record {
  id = 12;
  subscription_benefit_id = 11;
  grant_key = grant_key 11 (codes "20240131100000");
  user_benefit_key = none;
  cycle = 0;
  cycle_key = codes "20240131100000";
  scheduled_at = january_31;
  status = processing;
  requested_quantity = pos 100;
  granted_quantity = pos 0;
  error_code = none;
  attempts = 1;
  started_at = some january_31;
  completed_at = none;
}

abbrev store : SubscriptionStatus → Store
store status = record {
  shop = record {
    ledger = record { balances = []; transactions = [] };
    owned = [];
    purchases = [];
    serial = 20;
  };
  subscriptions = member status ∷ [];
  entitlements = held_right ∷ [];
  benefits = held_benefit ∷ [];
  grants = started ∷ [];
  log = [];
}

abbrev running : Store
running = store active

landing-Lands_example : Lands month 1 march_5 january_31 (landing march_5 held_benefit january_31)
landing-Lands_example =
    landing-Lands march_5 held_benefit january_31 (omega arith) january_31-IsValid

resolve_due_slot-Resolved_example :
    Resolved march_5 held_benefit january_31 (resolve_due_slot march_5 held_benefit january_31)
resolve_due_slot-Resolved_example =
    resolve_due_slot-Resolved march_5 held_benefit january_31 (omega arith) january_31-IsValid

year_below : (slot_after 1 month 1 january_31).years < 10000
unfolding add_interval add_months add_days month_days
year_below = omega arith

day_below : (slot_after 1 day 29 january_31).years < 10000
unfolding add_interval add_months add_days month_days fastkit.Dates.next_day
day_below = omega arith

-- One leap day, reached by a month and by thirty days less one.
leap_day : slot_after 1 month 1 january_31 ≡ slot_after 1 day 29 january_31
unfolding add_interval add_months add_days month_days fastkit.Dates.next_day
leap_day = refl

schedule_keys_example :
    ◌≡◌ {A = ℕ} 11 11 × ◌≡◌ {A = ℕ} 2024 2024 × ◌≡◌ {A = ℕ} 2 2 × ◌≡◌ {A = ℕ} 29 29
unfolding add_interval add_months add_days month_days fastkit.Dates.next_day
schedule_keys_example =
    schedule_keys 11 11 1 1 month day 1 29 january_31 january_31 january_31-IsValid
      january_31-IsValid year_below day_below (ap (λ d. grant_key 11 (cycle_key d)) leap_day)

slot_keys_example : ◌≡◌ {A = ℕ} 11 11 × ◌≡◌ {A = ℕ} 1 1
slot_keys_example =
    slot_keys 11 11 1 1 month 1 january_31 january_31-IsValid (omega arith) year_below year_below
      refl

abbrev march_key : Text
march_key = codes "20240229100000"

abbrev cycled : Store
cycled = (run_cycle in_march catalogue held_benefit march_key january_31 running).1

run_cycle_replay_example :
    SameHoldings cycled (run_cycle in_march catalogue held_benefit march_key march_5 cycled).1
    × ((run_cycle in_march catalogue held_benefit march_key march_5 cycled).1.grants
        ≡ cycled.grants)
run_cycle_replay_example =
    run_cycle_replay in_march in_march catalogue catalogue held_benefit held_benefit march_key
      january_31 march_5 running refl refl

run_cycle-UniqueGrants_example : UniqueGrants cycled.grants
run_cycle-UniqueGrants_example =
    run_cycle-UniqueGrants in_march catalogue held_benefit march_key january_31 running (refl, tt)

suspended_member : is_eligible_for_benefits (member suspended) ≡ false
unfolding is_eligible_for_benefits
suspended_member = refl

reconcile_entitlements-Settled_example :
    All
      (Settled (member active) (5 ∷ []))
      (reconcile_entitlements march_5 (member active) (5 ∷ []) running).entitlements
reconcile_entitlements-Settled_example =
    reconcile_entitlements-Settled march_5 (member active) (5 ∷ []) running

abbrev a_moment_later : DateTime
a_moment_later = record { years = 2024; months = 3; days = 5; time = 60000000 }

still_young : before (add_time abandoned_after march_5) a_moment_later ≡ false
unfolding add_time
still_young = refl

claimed : (claim march_5 12 running).0 ≡ true
unfolding claim takeable add_time
claimed = refl

abbrev other_claims : List (DateTime × ℕ)
other_claims = (a_moment_later, 12) ∷ (a_moment_later, 13) ∷ []

claim_exclusive_example :
    (claim a_moment_later 12 (claim_each other_claims (claim march_5 12 running).1)).0 ≡ false
claim_exclusive_example =
    claim_exclusive march_5 a_moment_later 12 running other_claims refl
      (still_young, (still_young, tt)) still_young claimed

over_in_march : exists (is_own_over march_5 2) running.subscriptions ≡ true
unfolding is_over is_eligible
over_in_march = refl

few_over : length (over_of march_5 running.subscriptions) ≤ expiry_batch
unfolding is_over is_eligible
few_over = omega arith

expire_subscriptions-Closed_example : Closed 2 (expire_subscriptions march_5 running)
expire_subscriptions-Closed_example =
    expire_subscriptions-Closed march_5 2 running refl over_in_march few_over
