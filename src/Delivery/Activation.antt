-- ===== src/Delivery/Activation.antt =====
-- `activate` and what it writes: the rights and the benefits that a subscription holds, made to
-- agree with what its plan promises, and the cycles that an activation opens. The call holds the
-- row of the subscription, so no other call writes these rows while it runs.
pub mod Rights
pub mod Opening
use fastkit.Base.Table.{find, update_where, count_where, exists}
use fastkit.Commerce.{Session}
use fastkit.Dates.{add_interval, DateTime}
use fastkit.Base.{
  ◌==◌, if◌then◌else◌, ℕ, suc, Bool, true, false, ◌&&◌, ◌||◌, not, Option, none, some, List, [],
  ◌∷◌,
}
use fastkit.Delivery.{
  is_active_benefit, is_eligible_for_benefits, is_recurring, benefit_of, Subscription,
  UserEntitlement, Benefit, SubscriptionBenefit, Catalog, Store, BenefitStatus,
  UserEntitlementStatus, cycle_opened,
}
use fastkit.Delivery.Schedule.{landing, first_due, activation_key}
use fastkit.Delivery.Cycle.{run_cycle}

abbrev pub contains : ℕ → List ℕ → Bool
contains id [] = false
contains id (i ∷ ids) = i == id || contains id ids

abbrev pub is_right : ℕ → ℕ → UserEntitlement → Bool
is_right subscription entitlement u =
    u.subscription_id == subscription && u.entitlement_id == entitlement

abbrev pub renew : Subscription → UserEntitlement → UserEntitlement
renew r u = record u {
  status = UserEntitlementStatus.active;
  revoked_at = none;
  expires_at = r.access_until;
}

abbrev pub expire : UserEntitlement → UserEntitlement
expire u = record u { status = UserEntitlementStatus.expired }

abbrev pub fresh_right : DateTime → Subscription → ℕ → Store → UserEntitlement
fresh_right now r entitlement s = record {
  id = s.shop.serial;
  subscription_id = r.id;
  entitlement_id = entitlement;
  status = UserEntitlementStatus.active;
  started_at = some now;
  expires_at = r.access_until;
  revoked_at = none;
}

-- One turn of the loop over the entitlements of the plan.
unfoldable pub promise : DateTime → Subscription → ℕ → Store → Store
promise now r entitlement s =
    if exists (is_right r.id entitlement) s.entitlements
    then record s {
      entitlements = update_where (is_right r.id entitlement) (renew r) s.entitlements;
    }
    else record s {
      entitlements = fresh_right now r entitlement s ∷ s.entitlements;
      shop = record (s.shop) { serial = suc s.shop.serial };
    }

unfoldable pub promise_all : DateTime → Subscription → List ℕ → Store → Store
promise_all now r [] s = s
promise_all now r (entitlement ∷ rest) s = promise_all now r rest (promise now r entitlement s)

-- A right of the subscription that its plan does not promise.
abbrev pub is_surplus : ℕ → List ℕ → UserEntitlement → Bool
is_surplus subscription promised u =
    u.subscription_id == subscription && not (contains u.entitlement_id promised)

unfoldable pub reconcile_entitlements : DateTime → Subscription → List ℕ → Store → Store
unfolding promise_all
reconcile_entitlements now r promised s =
    let s' = promise_all now r promised s in
    record s' { entitlements = update_where (is_surplus r.id promised) expire s'.entitlements }

-- `resume`
unfoldable pub resume : DateTime → DateTime → SubscriptionBenefit → SubscriptionBenefit
unfolding is_active_benefit is_recurring
resume now anchor b =
    if is_active_benefit b.status
    then b
    else if is_recurring b.cadence
    then (let since : DateTime = elim b.last_grant_at [
      | none ↦ anchor
      | some at ↦ add_interval at b.interval_unit b.interval_value
    ] in
        record b { status = BenefitStatus.active; next_grant_at = some (landing now b since) })
    else record b { status = BenefitStatus.active }

abbrev pub is_benefit_of : ℕ → ℕ → SubscriptionBenefit → Bool
is_benefit_of subscription benefit b = b.subscription_id == subscription && b.benefit_id == benefit

abbrev undated : DateTime → Subscription → Benefit → ℕ → ℕ → SubscriptionBenefit
undated anchor r b right id = record {
  id = id;
  subscription_id = r.id;
  benefit_id = b.id;
  user_entitlement_id = right;
  product_id = b.product_id;
  currency_id = b.currency_id;
  status = BenefitStatus.active;
  benefit_type = b.type;
  target = b.target;
  quantity = b.quantity;
  cadence = b.cadence;
  interval_unit = b.interval_unit;
  interval_value = b.interval_value;
  grant_on_activation = b.grant_on_activation;
  missed_cycle_policy = b.missed_cycle_policy;
  anchor_at = anchor;
  cycle = 0;
  last_grant_at = none;
  next_grant_at = none;
}

abbrev pub fresh_snapshot :
    DateTime → DateTime → Subscription → Benefit → ℕ → ℕ → SubscriptionBenefit
fresh_snapshot now anchor r b right id = record (undated anchor r b right id) {
  next_grant_at = first_due now (undated anchor r b right id);
}

-- One turn of the loop over the benefits of the catalogue. The right that a new row names is the
-- one that `reconcile_entitlements` just left.
unfoldable pub snapshot : DateTime → DateTime → Subscription → Benefit → Store → Option ℕ × Store
snapshot now anchor r b s = elim (find (is_benefit_of r.id b.id) s.benefits) [
  | some row ↦ (
    some row.id,
    record s { benefits = update_where (is_benefit_of r.id b.id) (resume now anchor) s.benefits },
  )
  | none ↦ elim (find (is_right r.id b.entitlement_id) s.entitlements) [
    | none ↦ (none, s)
    | some right ↦ (
      some s.shop.serial,
      record s {
        benefits = fresh_snapshot now anchor r b right.id s.shop.serial ∷ s.benefits;
        shop = record (s.shop) { serial = suc s.shop.serial };
      },
    )
  ]
]

abbrev pub add_id : Option ℕ → List ℕ → List ℕ
add_id none ids = ids
add_id (some id) ids = id ∷ ids

unfoldable pub snapshot_all :
    DateTime → DateTime → Subscription → List Benefit → Store → List ℕ × Store
snapshot_all now anchor r [] s = ([], s)
snapshot_all now anchor r (b ∷ rest) s =
    let (id, s') = snapshot now anchor r b s in
    let (ids, s'') = snapshot_all now anchor r rest s' in (add_id id ids, s'')

abbrev pub names_benefit : ℕ → List Benefit → Bool
names_benefit id [] = false
names_benefit id (b ∷ bs) = b.id == id || names_benefit id bs

abbrev pub end_benefit : SubscriptionBenefit → SubscriptionBenefit
end_benefit b = record b { status = BenefitStatus.ended; next_grant_at = none }

abbrev pub is_broken : ℕ → List Benefit → SubscriptionBenefit → Bool
is_broken subscription promised b =
    b.subscription_id == subscription && not (names_benefit b.benefit_id promised)

-- The benefits of the catalogue that the entitlements of a plan carry.
abbrev pub carried_by : List ℕ → List Benefit → List Benefit
carried_by ids [] = []
carried_by ids (b ∷ bs) =
    let rest = carried_by ids bs in
    if contains b.entitlement_id ids && b.is_active then b ∷ rest else rest

-- `subscription.started_at or now()`
abbrev pub or_now : Option DateTime → DateTime → DateTime
or_now none now = now
or_now (some at) now = at

unfoldable pub snapshot_benefits : DateTime → Subscription → List Benefit → Store → List ℕ × Store
unfolding snapshot_all
snapshot_benefits now r promised s =
    let (ids, s') = snapshot_all now (or_now r.started_at now) r promised s in
    (ids, record s' { benefits = update_where (is_broken r.id promised) end_benefit s'.benefits })

abbrev pub is_unset : Option DateTime → Bool
is_unset none = true
is_unset (some at) = false

-- One turn of the loop of `activate`: the cycle that an activation opens, where the benefit opens
-- one.
unfoldable pub open_first : Session → Catalog → ℕ → Store → Store
open_first e cat id s = elim (benefit_of id s) [
  | none ↦ s
  | some b ↦
      if b.grant_on_activation && is_unset b.last_grant_at
      then elim (first_due e.now b) [
        | none ↦ s
        | some slot ↦ (run_cycle e cat b (activation_key b slot) slot s).1
      ]
      else s
]

unfoldable pub open_all : Session → Catalog → List ℕ → Store → Store
open_all e cat [] s = s
open_all e cat (id ∷ ids) s = open_all e cat ids (open_first e cat id s)

-- `expire_entitlements`
unfoldable pub expire_entitlements : ℕ → Store → Store
expire_entitlements id s = record s {
  entitlements = update_where (λ u. u.subscription_id == id) expire s.entitlements;
}

abbrev pub pause : SubscriptionBenefit → SubscriptionBenefit
pause b = record b { status = BenefitStatus.paused; next_grant_at = none }

abbrev pub is_running : ℕ → SubscriptionBenefit → Bool
is_running id b = b.subscription_id == id && is_active_benefit b.status

-- What a subscription that is not eligible is left with.
unfoldable pub pause_benefits : ℕ → Store → Store
pause_benefits id s = record s { benefits = update_where (is_running id) pause s.benefits }

unfoldable pub activate : Session → Catalog → Subscription → Store → Store
activate e cat r s =
    if is_eligible_for_benefits r
    then (let promised = cat.plan_entitlements r.plan_id in
        let (ids, s') =
          snapshot_benefits e.now r (carried_by promised cat.catalog_benefits)
            (reconcile_entitlements e.now r promised s) in
        open_all e cat ids s')
    else pause_benefits r.id (expire_entitlements r.id s)

abbrev pub fresh_cycle : SubscriptionBenefit → SubscriptionBenefit
fresh_cycle b = record b { cycle = suc b.cycle; last_grant_at = none }

-- `release_cycle`
unfoldable pub release_cycle : ℕ → Store → ℕ × Store
release_cycle id s = (
  count_where (λ b. b.subscription_id == id) s.benefits,
  record s { benefits = update_where (λ b. b.subscription_id == id) fresh_cycle s.benefits },
)

-- `open_new_cycle`
unfoldable pub open_new_cycle : Session → Catalog → Subscription → ℕ → Store → Store
unfolding release_cycle
open_new_cycle e cat r operator s =
    let (released, s') = release_cycle r.id s in
    activate e cat r (record s' { log = cycle_opened r.id operator released ∷ s'.log })

-- `end_benefits`
unfoldable pub end_benefits : ℕ → Store → Store
unfolding expire_entitlements
end_benefits id s =
    expire_entitlements id
      (record s { benefits = update_where (λ b. b.subscription_id == id) end_benefit s.benefits })
