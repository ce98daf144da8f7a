-- ===== src/Delivery/Activation/Opening.antt =====
-- What `activate` and `open_new_cycle` keep, and what they leave a subscription that is not
-- eligible.
use fastkit.Base.{
  ◌==◌, Bool-cases, Option-cases, ℕ, ◌≡◌, refl, sym, ◌∙◌, subst, inl, inr, false, ◌&&◌, List, [],
  ◌∷◌, arith,
}
use fastkit.Base.Table.{All, find, All-update_where, All-every}
use fastkit.Dates.{DateTime}
use fastkit.Commerce.{Session}
use fastkit.Delivery.{
  is_active_benefit, is_eligible_for_benefits, benefit_of, Subscription, UserEntitlement, Benefit,
  SubscriptionBenefit, Catalog, Store, UserEntitlementStatus,
}
use fastkit.Delivery.Schedule.{first_due, activation_key}
use fastkit.Delivery.Cycle.Reserved.{UniqueGrants, run_cycle-UniqueGrants}
use fastkit.Delivery.Activation.{
  is_right, expire, promise, promise_all, reconcile_entitlements, is_benefit_of, snapshot,
  snapshot_all, carried_by, or_now, snapshot_benefits, is_unset, open_first, open_all,
  expire_entitlements, pause, is_running, pause_benefits, activate,
}

grants-promise :
    (now : DateTime) (r : Subscription) (id : ℕ) (s : Store)
    → (promise now r id s).grants ≡ s.grants
unfolding promise
grants-promise now r id s = ground arith

grants-promise_all :
    (now : DateTime) (r : Subscription) (ids : List ℕ) (s : Store)
    → (promise_all now r ids s).grants ≡ s.grants
unfolding promise_all
grants-promise_all now r [] s = refl
grants-promise_all now r (id ∷ ids) s =
    grants-promise_all now r ids (promise now r id s) ∙ grants-promise now r id s

grants-reconcile :
    (now : DateTime) (r : Subscription) (ids : List ℕ) (s : Store)
    → (reconcile_entitlements now r ids s).grants ≡ s.grants
unfolding reconcile_entitlements
grants-reconcile now r ids s = grants-promise_all now r ids s

grants-snapshot :
    (now anchor : DateTime) (r : Subscription) (b : Benefit) (s : Store)
    → (snapshot now anchor r b s).1.grants ≡ s.grants
unfolding snapshot
grants-snapshot now anchor r b s = elim (Option-cases (find (is_benefit_of r.id b.id) s.benefits)) [
  | inr (row, p) ↦ rw (p, snapshot) refl
  | inl new ↦ elim (Option-cases (find (is_right r.id b.entitlement_id) s.entitlements)) [
    | inl gone ↦ rw (new, gone, snapshot) refl
    | inr (right, q) ↦ rw (new, q, snapshot) refl
  ]
]

grants-snapshot_all :
    (now anchor : DateTime) (r : Subscription) (bs : List Benefit) (s : Store)
    → (snapshot_all now anchor r bs s).1.grants ≡ s.grants
unfolding snapshot_all
grants-snapshot_all now anchor r [] s = refl
grants-snapshot_all now anchor r (b ∷ bs) s =
    grants-snapshot_all now anchor r bs (snapshot now anchor r b s).1
    ∙ grants-snapshot now anchor r b s

grants-snapshot_benefits :
    (now : DateTime) (r : Subscription) (bs : List Benefit) (s : Store)
    → (snapshot_benefits now r bs s).1.grants ≡ s.grants
unfolding snapshot_benefits
grants-snapshot_benefits now r bs s = grants-snapshot_all now (or_now r.started_at now) r bs s

open_first-UniqueGrants :
    (e : Session) (cat : Catalog) (id : ℕ) (s : Store)
    → UniqueGrants s.grants
    → UniqueGrants (open_first e cat id s).grants
unfolding open_first
open_first-UniqueGrants e cat id s u = elim (Option-cases (benefit_of id s)) [
  | inl gone ↦ rw (gone, open_first) u
  | inr (b, p) ↦ elim (Bool-cases (b.grant_on_activation && is_unset b.last_grant_at)) [
    | inr waits ↦ rw (p, waits, open_first) u
    | inl opens ↦ elim (Option-cases (first_due e.now b)) [
      | inl never ↦ rw (p, opens, never, open_first) u
      | inr (slot, q) ↦
          rw (p, opens, q, open_first)
            (run_cycle-UniqueGrants e cat b (activation_key b slot) slot s u)
    ]
  ]
]

open_all-UniqueGrants :
    (e : Session) (cat : Catalog) (ids : List ℕ) (s : Store)
    → UniqueGrants s.grants
    → UniqueGrants (open_all e cat ids s).grants
unfolding open_all
open_all-UniqueGrants e cat [] s u = u
open_all-UniqueGrants e cat (id ∷ ids) s u =
    open_all-UniqueGrants e cat ids (open_first e cat id s) (open_first-UniqueGrants e cat id s u)

-- An activation leaves no two grants of one key and no two that hold one reservation, whether the
-- subscription is eligible or not.
pub activate-UniqueGrants :
    (e : Session) (cat : Catalog) (r : Subscription) (s : Store)
    → UniqueGrants s.grants
    → UniqueGrants (activate e cat r s).grants
unfolding activate expire_entitlements pause_benefits
activate-UniqueGrants e cat r s u = elim (Bool-cases (is_eligible_for_benefits r)) [
  | inr ineligible ↦ rw (ineligible, activate) u
  | inl eligible ↦
      let promised = cat.plan_entitlements r.plan_id in
      let bs = carried_by promised cat.catalog_benefits in
      let s' = reconcile_entitlements e.now r promised s in
      let t = snapshot_benefits e.now r bs s' in
      let same : t.1.grants ≡ s.grants =
        grants-snapshot_benefits e.now r bs s' ∙ grants-reconcile e.now r promised s in
      rw (eligible, activate)
        (open_all-UniqueGrants e cat t.0 t.1 (subst UniqueGrants (sym same) u))
]

-- A right of the subscription is off, and a benefit of it does not run.
abbrev pub IsOff : ℕ → UserEntitlement → Type 0
IsOff id u = u.subscription_id ≡ id → u.status ≡ UserEntitlementStatus.expired

abbrev pub IsStill : ℕ → SubscriptionBenefit → Type 0
IsStill id b = b.subscription_id ≡ id → is_active_benefit b.status ≡ false

pub expire_entitlements-IsOff :
    (id : ℕ) (s : Store) → All (IsOff id) (expire_entitlements id s).entitlements
unfolding expire_entitlements
expire_entitlements-IsOff id s =
    All-update_where (λ x. Unit {0}) (IsOff id) (λ u. u.subscription_id == id) expire s.entitlements
      (λ x met any own. refl) (λ x missed any own. absurd (ground arith))
      (All-every (λ x. Unit {0}) s.entitlements (λ x. tt))

pause_benefits-IsStill : (id : ℕ) (s : Store) → All (IsStill id) (pause_benefits id s).benefits
unfolding pause_benefits is_active_benefit
pause_benefits-IsStill id s =
    All-update_where (λ x. Unit {0}) (IsStill id) (is_running id) pause s.benefits
      (λ x met any own. refl) (λ x missed any own. ground arith)
      (All-every (λ x. Unit {0}) s.benefits (λ x. tt))

-- Activating a subscription that is not eligible hands nothing over: no grant is written, the
-- ledger and what is owned stay, every right of the subscription is off and no benefit of it runs.
pub activate_ineligible :
    (e : Session) (cat : Catalog) (r : Subscription) (s : Store)
    → is_eligible_for_benefits r ≡ false
    → let t = activate e cat r s in
      (t.grants ≡ s.grants)
      × (t.shop ≡ s.shop)
      × All (IsOff r.id) t.entitlements
      × All (IsStill r.id) t.benefits
unfolding activate pause_benefits expire_entitlements
activate_ineligible e cat r s ineligible =
    let t = expire_entitlements r.id s in
    rw (ineligible, activate)
      (refl, refl, expire_entitlements-IsOff r.id s, pause_benefits-IsStill r.id t)
