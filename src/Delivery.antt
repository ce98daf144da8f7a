-- ===== src/Delivery.antt =====
-- The tables and enums that services/delivery_service.py works on (models/subscription.py,
-- models/subscription_benefit.py, models/benefit_grant.py, models/user_entitlement.py and the
-- catalogue), and the tests that its statements share. Foreign keys hold in the database, so a row
-- that another names is there. JSON columns and texts of errors are left out.
use fastkit.Base.Int.{ℤ}
use fastkit.Base.Table.{find}
use fastkit.Commerce.{Shop}
use fastkit.Base.Text.{Text}
use fastkit.Errors.{Fault}
use fastkit.Dates.{IntervalUnit, DateTime}
pub mod Schedule
pub mod Evidence
pub mod Handing
pub mod Cycle
pub mod Activation
pub mod Passes
mod Tests
use fastkit.Base.{◌==◌, tests, ℕ, ◌∙◌, Bool, true, false, ◌&&◌, Option, List}

pub data SubscriptionStatus : Type 0 where
  pending trialing active grace_period suspended expired revoked : SubscriptionStatus

pub data BenefitStatus : Type 0 where
  active paused ended : BenefitStatus

pub data UserEntitlementStatus : Type 0 where
  active expired : UserEntitlementStatus

pub data BenefitGrantStatus : Type 0 where
  processing completed skipped failed : BenefitGrantStatus

pub data BenefitCadence : Type 0 where
  on_activation recurring once_per_user : BenefitCadence

pub data BenefitType : Type 0 where
  access credit product : BenefitType

pub data BenefitPolicy : Type 0 where
  none access_only all : BenefitPolicy

pub data MissedCyclePolicy : Type 0 where
  skip latest_only catch_up : MissedCyclePolicy

pub data ResumeDeliveryPolicy : Type 0 where
  same_cycle new_cycle : ResumeDeliveryPolicy

pub data Environment : Type 0 where
  production sandbox : Environment

-- The `error_code` of a grant: the reasons that the engine names, and the class of an exception.
pub data GrantError : Type 0 where
  subscription_no_longer_eligible cycle_replaced withheld_by_plan_policy : GrantError
  held_already abandoned given_up_after_max_attempts : GrantError
  exception : Fault → GrantError

pub record Subscription : Type 0 where
  pub id : ℕ
  pub tenant_id : Option ℕ
  pub user_id : ℕ
  pub plan_id : ℕ
  pub integration_id : Option ℕ
  pub external_product_id : Option ℕ
  pub external_id : Option Text
  pub status : SubscriptionStatus
  pub benefit_status : BenefitStatus
  pub environment : Option Environment
  pub started_at : Option DateTime
  pub current_period_started_at : Option DateTime
  pub current_period_ends_at : Option DateTime
  pub access_until : Option DateTime
  pub trial_ends_at : Option DateTime
  pub grace_until : Option DateTime
  pub cancel_at_period_end : Bool
  pub canceled_at : Option DateTime
  pub expired_at : Option DateTime
  pub stated_at : Option DateTime

pub record UserEntitlement : Type 0 where
  pub id : ℕ
  pub subscription_id : ℕ
  pub entitlement_id : ℕ
  pub status : UserEntitlementStatus
  pub started_at : Option DateTime
  pub expires_at : Option DateTime
  pub revoked_at : Option DateTime

-- A benefit of the catalogue. Only a recurring one has an interval that is read, and
-- services/benefit_service.py refuses a recurring one that has none.
pub record Benefit : Type 0 where
  pub id : ℕ
  pub entitlement_id : ℕ
  pub product_id : Option ℕ
  pub currency_id : Option ℕ
  pub type : BenefitType
  pub target : Text
  pub quantity : ℤ
  pub cadence : BenefitCadence
  pub interval_unit : IntervalUnit
  pub interval_value : ℕ
  pub grant_on_activation : Bool
  pub missed_cycle_policy : MissedCyclePolicy
  pub is_active : Bool

pub record SubscriptionBenefit : Type 0 where
  pub id : ℕ
  pub subscription_id : ℕ
  pub benefit_id : ℕ
  pub user_entitlement_id : ℕ
  pub product_id : Option ℕ
  pub currency_id : Option ℕ
  pub status : BenefitStatus
  pub benefit_type : BenefitType
  pub target : Text
  pub quantity : ℤ
  pub cadence : BenefitCadence
  pub interval_unit : IntervalUnit
  pub interval_value : ℕ
  pub grant_on_activation : Bool
  pub missed_cycle_policy : MissedCyclePolicy
  pub anchor_at : DateTime
  pub cycle : ℕ
  pub last_grant_at : Option DateTime
  pub next_grant_at : Option DateTime

pub record BenefitGrant : Type 0 where
  pub id : ℕ
  pub subscription_benefit_id : ℕ
  pub grant_key : Text
  pub user_benefit_key : Option Text
  pub cycle : ℕ
  pub cycle_key : Text
  pub scheduled_at : DateTime
  pub status : BenefitGrantStatus
  pub requested_quantity : ℤ
  pub granted_quantity : ℤ
  pub error_code : Option GrantError
  pub attempts : ℕ
  pub started_at : Option DateTime
  pub completed_at : Option DateTime

pub record Plan : Type 0 where
  pub id : ℕ
  pub name : Text
  pub resume_delivery_policy : ResumeDeliveryPolicy
  pub trial_benefit_policy : BenefitPolicy
  pub grace_benefit_policy : BenefitPolicy

-- What the engine tells the system log.
pub data LogEntry : Type 0 where
  given_up : ℕ → ℕ → Option GrantError → LogEntry
  cycle_opened : ℕ → ℕ → ℕ → LogEntry
  receipt_passed : ℕ → ℕ → ℕ → LogEntry
  closed_by_reconciliation : ℕ → LogEntry
  nothing_maps : Text → ℕ → LogEntry

-- The catalogue, which the engine reads and never writes.
pub record Catalog : Type 0 where
  pub plans : ℕ → Option Plan
  pub plan_entitlements : ℕ → List ℕ
  pub catalog_benefits : List Benefit

pub record Store : Type 0 where
  pub shop : Shop
  pub subscriptions : List Subscription
  pub entitlements : List UserEntitlement
  pub benefits : List SubscriptionBenefit
  pub grants : List BenefitGrant
  pub log : List LogEntry

-- `ELIGIBLE_SUBSCRIPTION_STATUSES`
unfoldable pub is_eligible : SubscriptionStatus → Bool
is_eligible trialing = true
is_eligible SubscriptionStatus.active = true
is_eligible grace_period = true
is_eligible _ = false

unfoldable pub is_active_benefit : BenefitStatus → Bool
is_active_benefit BenefitStatus.active = true
is_active_benefit _ = false

-- `Subscription.is_eligible_for_benefits`
unfoldable pub is_eligible_for_benefits : Subscription → Bool
unfolding is_eligible is_active_benefit
is_eligible_for_benefits s = is_eligible s.status && is_active_benefit s.benefit_status

-- `SCHEDULE_ADVANCE_STATUSES`
unfoldable pub advances : BenefitGrantStatus → Bool
advances completed = true
advances skipped = true
advances _ = false

unfoldable pub is_recurring : BenefitCadence → Bool
is_recurring recurring = true
is_recurring _ = false

-- `services/subscription.py`: trial and grace narrow what a subscription hands over.
unfoldable pub benefit_policy_of : Subscription → Plan → BenefitPolicy
benefit_policy_of s p = elim s.status [
  | trialing ↦ p.trial_benefit_policy
  | grace_period ↦ p.grace_benefit_policy
  | _ ↦ all
]

abbrev pub subscription_of : ℕ → Store → Option Subscription
subscription_of id s = find (λ r. r.id == id) s.subscriptions

abbrev pub benefit_of : ℕ → Store → Option SubscriptionBenefit
benefit_of id s = find (λ r. r.id == id) s.benefits

abbrev pub grant_of : ℕ → Store → Option BenefitGrant
grant_of id s = find (λ r. r.id == id) s.grants
