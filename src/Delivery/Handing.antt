-- ===== src/Delivery/Handing.antt =====
-- `deliver` and its three handlers: what one attempt at one grant does. The call begins where the
-- session was last committed, so its rollback is the state it began with, with what the others
-- committed since.
use fastkit.Base.Int.{pos, ℤ}
use fastkit.Base.Table.{find, update_where}
use fastkit.Ledger.{move, crossed, CreditTransactionType, Ledger, Movement, credit}
use fastkit.Commerce.{grant, crossed_grant, Handover, Session, failed}
use fastkit.Errors.{missing_row, Fault, ok, raise}
use fastkit.Dates.{DateTime}
pub mod Atomic
pub mod Rows
pub mod Kept
pub mod RolledBack
use fastkit.Base.{◌==◌, if◌then◌else◌, ℕ, ◌∙◌, not, Option, none, some}
use fastkit.Delivery.{
  subscription_of, benefit_of, grant_of, Subscription, UserEntitlement, SubscriptionBenefit,
  BenefitGrant, Plan, Catalog, Store, active, UserEntitlementStatus, completed, skipped, failed,
  BenefitType, access, credit, product, GrantError, subscription_no_longer_eligible, cycle_replaced,
  withheld_by_plan_policy, exception, held_already,
}
use fastkit.Delivery.Evidence.{policy_allows, still_owed}

unfoldable pub set_grant : ℕ → (BenefitGrant → BenefitGrant) → Store → Store
set_grant id f s = record s { grants = update_where (λ g. g.id == id) f s.grants }

-- `drop`
unfoldable pub drop : DateTime → GrantError → BenefitGrant → BenefitGrant
drop now reason g = record g {
  status = skipped;
  user_benefit_key = none;
  error_code = some reason;
  completed_at = some now;
}

abbrev pub complete : ℤ → BenefitGrant → BenefitGrant
complete quantity g = record g { status = completed; granted_quantity = quantity }

abbrev pub switch_on : UserEntitlement → UserEntitlement
switch_on u = record u { status = UserEntitlementStatus.active; revoked_at = none }

unfoldable pub deliver_access : SubscriptionBenefit → BenefitGrant → Store → Option Fault × Store
unfolding set_grant
deliver_access b g s = elim (find (λ u. u.id == b.user_entitlement_id) s.entitlements) [
  | none ↦ (some missing_row, s)
  | some u ↦ (
    none,
    set_grant g.id (complete (pos 1)) (record s {
      entitlements = update_where (λ r. r.id == b.user_entitlement_id) switch_on s.entitlements;
    }),
  )
]

abbrev pub credit_movement : Subscription → Plan → SubscriptionBenefit → ℕ → BenefitGrant → Movement
credit_movement r plan b currency g = record {
  user_id = r.user_id;
  currency_id = currency;
  type = CreditTransactionType.credit;
  amount = b.quantity;
  description = some plan.name;
  idempotency_key = g.grant_key;
  benefit_grant_id = some g.id;
}

abbrev pub with_ledger : Ledger → Store → Store
with_ledger l s = record s { shop = record (s.shop) { ledger = l } }

unfoldable pub deliver_credit :
    Session → Catalog → SubscriptionBenefit → BenefitGrant → Store → Option Fault × Store
unfolding set_grant
deliver_credit e cat b g s = elim (subscription_of b.subscription_id s) [
  | none ↦ (some missing_row, s)
  | some r ↦ elim (cat.plans r.plan_id) [
    | none ↦ (some missing_row, s)
    | some plan ↦ elim b.currency_id [
      | none ↦ (some missing_row, s)
      | some currency ↦
          let (result, l) =
            move e.directory e.others (credit_movement r plan b currency g) s.shop.ledger in
          elim result [
            | raise f ↦ (some f, with_ledger l s)
            | ok _ ↦ (none, set_grant g.id (complete b.quantity) (with_ledger l s))
          ]
    ]
  ]
]

abbrev pub product_handover : Subscription → ℕ → BenefitGrant → Handover
product_handover r item g = record {
  user_id = r.user_id;
  product_id = item;
  source_key = g.grant_key;
  subscription_id = some r.id;
  purchase_id = none;
  benefit_grant_id = some g.id;
}

abbrev pub already_held : BenefitGrant → BenefitGrant
already_held g = record g { status = skipped; error_code = some held_already }

unfoldable pub deliver_product :
    Session → SubscriptionBenefit → BenefitGrant → Store → Option Fault × Store
unfolding set_grant
deliver_product e b g s = elim (subscription_of b.subscription_id s) [
  | none ↦ (some missing_row, s)
  | some r ↦ elim b.product_id [
    | none ↦ (some missing_row, s)
    | some item ↦
        let (result, shop) = grant e (product_handover r item g) s.shop in
        let after : Store = record s { shop = shop } in
        elim result [
          | raise f ↦ (some f, after)
          | ok (row, given) ↦
              (none, set_grant g.id (if given then complete (pos 1) else already_held) after)
        ]
  ]
]

unfoldable pub hand_over :
    BenefitType
    → Session
    → Catalog
    → SubscriptionBenefit
    → BenefitGrant
    → Store
    → Option Fault × Store
hand_over access e cat b g s = deliver_access b g s
hand_over BenefitType.credit e cat b g s = deliver_credit e cat b g s
hand_over BenefitType.product e cat b g s = deliver_product e b g s

-- The body of the `try`: what it raised, if anything, and the state it left.
unfoldable pub attempt :
    Session → Catalog → SubscriptionBenefit → BenefitGrant → Store → Option Fault × Store
attempt e cat b g s =
    if not (still_owed b s)
    then (none, set_grant g.id (drop e.now subscription_no_longer_eligible) s)
    else if not (g.cycle == b.cycle)
    then (none, set_grant g.id (drop e.now cycle_replaced) s)
    else if not (policy_allows cat b s)
    then (none, set_grant g.id (drop e.now withheld_by_plan_policy) s)
    else hand_over b.benefit_type e cat b g s

abbrev pub finish : DateTime → BenefitGrant → BenefitGrant
finish now g = record g { completed_at = some now }

abbrev pub fail : DateTime → Fault → BenefitGrant → BenefitGrant
fail now f g = record g {
  status = failed;
  error_code = some (exception f);
  completed_at = some now;
}

-- What the rollback after a raise leaves: the writes of the attempt are gone, and what the other
-- sessions committed to the ledger while it waited is there.
unfoldable pub rolled_back :
    BenefitType → Session → Catalog → SubscriptionBenefit → BenefitGrant → Store → Store
rolled_back access e cat b g s = s
rolled_back BenefitType.credit e cat b g s = elim (subscription_of b.subscription_id s) [
  | none ↦ s
  | some r ↦ elim (cat.plans r.plan_id) [
    | none ↦ s
    | some plan ↦ elim b.currency_id [
      | none ↦ s
      | some currency ↦
          with_ledger
            (crossed e.directory e.others (credit_movement r plan b currency g) s.shop.ledger) s
    ]
  ]
]
rolled_back BenefitType.product e cat b g s = elim (subscription_of b.subscription_id s) [
  | none ↦ s
  | some r ↦ elim b.product_id [
    | none ↦ s
    | some item ↦ record s { shop = crossed_grant e (product_handover r item g) s.shop }
  ]
]

-- The benefit and the grant are read again under the hold, so they come by their ids.
unfoldable pub deliver : Session → Catalog → ℕ → ℕ → Store → Store
deliver e cat benefit_id grant_id s = elim (benefit_of benefit_id s) [
  | none ↦ s
  | some b ↦ elim (grant_of grant_id s) [
    | none ↦ s
    | some g ↦
        let (fault, after) = attempt e cat b g s in
        elim fault [
          | some f ↦ set_grant grant_id (fail e.now f) (rolled_back b.benefit_type e cat b g s)
          | none ↦ set_grant grant_id (finish e.now) after
        ]
  ]
]
