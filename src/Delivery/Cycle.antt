-- ===== src/Delivery/Cycle.antt =====
-- `run_cycle` with `skip`, `settled` and `advance`: one cycle of one benefit, which is one grant.
use fastkit.Base.Int.{pos}
use fastkit.Commerce.{Session, grant}
use fastkit.Base.Text.{text_eq, Text}
use fastkit.Base.Table.{update_where, find}
use fastkit.Dates.{add_interval, DateTime}
pub mod Replay
pub mod Reserved
use fastkit.Base.{
  ◌==◌, if◌then◌else◌, ℕ, suc, ◌∙◌, Bool, true, false, ◌&&◌, ◌||◌, not, Option, none, some, ◌∷◌,
}
use fastkit.Delivery.{
  is_active_benefit, advances, is_recurring, subscription_of, grant_of, SubscriptionBenefit,
  BenefitGrant, Catalog, Store, active, processing, skipped, BenefitCadence, once_per_user,
  GrantError, withheld_by_plan_policy, held_already,
}
use fastkit.Delivery.Evidence.{policy_allows, has_key, user_key_of, already_held_by_user}
use fastkit.Delivery.Schedule.{cycle_key, grant_key}
use fastkit.Delivery.Handing.{attempt, deliver}

-- The columns that `advance` writes on the benefit.
abbrev pub advanced : DateTime → BenefitGrant → SubscriptionBenefit → SubscriptionBenefit
advanced now g b = record b {
  last_grant_at = some now;
  next_grant_at =
      if is_recurring b.cadence
      then some (add_interval g.scheduled_at b.interval_unit b.interval_value)
      else none;
}

-- Only the active cycle that produced the grant is moved.
abbrev pub is_current : ℕ → BenefitGrant → SubscriptionBenefit → Bool
is_current id g r = r.id == id && (r.cycle == g.cycle && is_active_benefit r.status)

unfoldable pub advance : DateTime → ℕ → BenefitGrant → Store → Store
unfolding advances is_recurring
advance now id g s =
    if advances g.status
    then record s { benefits = update_where (is_current id g) (advanced now g) s.benefits }
    else s

abbrev pub same_user_key : Option Text → Option Text → Bool
same_user_key none r = false
same_user_key (some k) r = has_key k r

-- The rows that `settled` takes for the grant's own, whoever wrote them.
abbrev pub is_identity : BenefitGrant → BenefitGrant → Bool
is_identity g r =
    text_eq r.grant_key g.grant_key || same_user_key g.user_benefit_key r.user_benefit_key

unfoldable pub insert_grant : BenefitGrant → Store → Store
insert_grant g s = record s {
  grants = g ∷ s.grants;
  shop = record (s.shop) { serial = suc s.shop.serial };
}

-- `settled`: the row of the cycle, and whether this call wrote it.
unfoldable pub settled : BenefitGrant → Store → BenefitGrant × Bool × Store
unfolding insert_grant
settled g s = elim (find (is_identity g) s.grants) [
  | some written ↦ (written, false, s)
  | none ↦ (g, true, insert_grant g s)
]

unfoldable pub fresh_grant : DateTime → SubscriptionBenefit → Text → DateTime → Store → BenefitGrant
fresh_grant now b key slot s = record {
  id = s.shop.serial;
  subscription_benefit_id = b.id;
  grant_key = grant_key b.id key;
  user_benefit_key = none;
  cycle = b.cycle;
  cycle_key = key;
  scheduled_at = slot;
  status = processing;
  requested_quantity = b.quantity;
  granted_quantity = pos 0;
  error_code = none;
  attempts = 1;
  started_at = some now;
  completed_at = none;
}

abbrev pub skipped_with : DateTime → GrantError → BenefitGrant → BenefitGrant
skipped_with now reason g = record g {
  status = skipped;
  error_code = some reason;
  completed_at = some now;
}

-- `skip`
unfoldable pub skip_cycle : DateTime → ℕ → BenefitGrant → GrantError → Store → BenefitGrant × Store
skip_cycle now id g reason s =
    let (written, _, s') =
      settled (skipped_with now reason g) (advance now id (skipped_with now reason g) s) in
    (written, s')

-- The grant of an id after an attempt at it, for the `advance` that follows.
abbrev pub advance_by_id : DateTime → ℕ → ℕ → Store → Store
advance_by_id now benefit_id grant_id s = elim (grant_of grant_id s) [
  | none ↦ s
  | some g ↦ advance now benefit_id g s
]

-- A cycle that nothing stands in the way of: the grant is written and, where this call wrote it,
-- delivered.
unfoldable pub open_cycle : Session → Catalog → ℕ → BenefitGrant → Store → BenefitGrant × Store
open_cycle e cat id g s =
    let (written, ours, s') = settled g s in
    if ours
    then (written, advance_by_id e.now id g.id (deliver e cat id g.id s'))
    else (written, s')

abbrev pub is_once_per_user : BenefitCadence → Bool
is_once_per_user once_per_user = true
is_once_per_user _ = false

-- The key that reserves a benefit for a person, and whether they hold it already.
unfoldable pub reservation : SubscriptionBenefit → Store → Option Text × Bool
reservation b s =
    if is_once_per_user b.cadence
    then elim (subscription_of b.subscription_id s) [
      | none ↦ (none, false)
      | some r ↦
          let key = user_key_of r.user_id b.benefit_id in
          (some key, already_held_by_user b r.user_id key s)
    ]
    else (none, false)

unfoldable pub run_cycle :
    Session → Catalog → SubscriptionBenefit → Text → DateTime → Store → BenefitGrant × Store
run_cycle e cat b key slot s =
    elim (find (λ g. text_eq g.grant_key (grant_key b.id key)) s.grants) [
      | some existing ↦ (existing, advance e.now b.id existing s)
      | none ↦
          let g = fresh_grant e.now b key slot s in
          let (user_key, is_held) = reservation b s in
          if is_held
          then skip_cycle e.now b.id g held_already s
          else if not (policy_allows cat b s)
          then skip_cycle e.now b.id g withheld_by_plan_policy s
          else open_cycle e cat b.id (record g { user_benefit_key = user_key }) s
    ]
