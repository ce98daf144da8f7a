-- ===== src/Reconciliation/Aligning.antt =====
-- services/reconciliation_service.py: one row brought in line with what the gateway says of it,
-- from the product that it names to the name that it takes over from another row.
use fastkit.Reconciliation.{
  word_code, same_word, is_set, is_past, carry, set_subscription, hold, close_subscription,
  ExternalProduct, ProviderPurchase, Offers,
}
use fastkit.Base.{◌==◌, if◌then◌else◌, ℕ, Bool, true, false, ◌&&◌, not, Option, none, some, []}
use fastkit.Base.Table.{find, update_where, count_where}
use fastkit.Base.Text.{Text, text_eq}
use fastkit.Dates.{DateTime}
use fastkit.Commerce.{Session}
use fastkit.Delivery.{
  subscription_of, Subscription, Catalog, Store, SubscriptionStatus, revoked, BenefitStatus, paused,
  ended, ResumeDeliveryPolicy, same_cycle, new_cycle,
}
use fastkit.Delivery.Evidence.{has_key}
use fastkit.Delivery.Activation.{activate, release_cycle}

-- The product of an integration that a line names, if it is sold.
abbrev pub is_sold : ℕ → Text → ExternalProduct → Bool
is_sold integration reference x =
    x.integration_id == integration && (text_eq x.external_id reference && x.is_active)

abbrev pub same_id : Option ℕ → Option ℕ → Bool
same_id none none = true
same_id (some a) (some b) = a == b
same_id _ _ = false

abbrev pub starts_over : ResumeDeliveryPolicy → Bool
starts_over new_cycle = true
starts_over same_cycle = false

abbrev pub point_at : ExternalProduct → Subscription → Subscription
point_at x r = record r { external_product_id = some x.id; plan_id = x.plan_id }

-- `repoint`
unfoldable pub repoint : Offers → ℕ → ℕ → ProviderPurchase → Store → Bool × Store
repoint offers integration id p s =
    elim (find (is_sold integration p.product_reference) offers.external_products) [
      | none ↦ (false, s)
      | some x ↦ elim (subscription_of id s) [
        | none ↦ (false, s)
        | some r ↦
            if same_id r.external_product_id (some x.id)
            then (false, s)
            else (let unmoved : Subscription → Bool =
                  λ q. q.id == id && same_id q.external_product_id r.external_product_id in
                let s' : Store = record s {
                  subscriptions = update_where unmoved (point_at x) s.subscriptions;
                } in
                if not (count_where unmoved s.subscriptions == 1)
                then (false, s')
                else elim (offers.catalog.plans x.plan_id) [
                  | none ↦ (true, s')
                  | some plan ↦ (
                    true,
                    if starts_over plan.resume_delivery_policy then (release_cycle id s').1 else s',
                  )
                ])
      ]
    ]

-- `if not purchase.external_id`: none and the empty text are both false.
abbrev pub named_by : Option Text → Option Text
named_by none = none
named_by (some t) = if text_eq t [] then none else some t

-- `holder_of`
abbrev pub is_holder : Option ℕ → Text → Subscription → Bool
is_holder integration external r =
    same_id r.integration_id integration && has_key external r.external_id

abbrev pub take_name : Option Text → Subscription → Subscription
take_name name r = record r { external_id = name }

-- `adopt`: whether another row of the account was closed for this one.
unfoldable pub adopt : DateTime → ℕ → ProviderPurchase → Store → Bool × Store
adopt now id p s = elim (named_by p.external_id) [
  | none ↦ (false, s)
  | some external ↦ elim (subscription_of id s) [
    | none ↦ (false, s)
    | some r ↦
        if has_key external r.external_id
        then (false, s)
        else elim (find (is_holder r.integration_id external) s.subscriptions) [
          | none ↦ (false, set_subscription id (take_name (some external)) s)
          | some holder ↦ if not (holder.user_id == r.user_id) then (false, s) else (
            true,
            (close_subscription now holder.id SubscriptionStatus.expired (
                set_subscription id (take_name (some external))
                  (set_subscription holder.id (take_name none) s))).1,
          )
        ]
  ]
]

abbrev pub same_benefit_status : BenefitStatus → BenefitStatus → Bool
same_benefit_status BenefitStatus.active BenefitStatus.active = true
same_benefit_status paused paused = true
same_benefit_status ended ended = true
same_benefit_status _ _ = false

abbrev pub same_moment : Option DateTime → Option DateTime → Bool
same_moment none none = true
same_moment (some d) (some e) =
    d.years == e.years && (d.months == e.months && (d.days == e.days && d.time == e.time))
same_moment _ _ = false

abbrev pub same_flag : Bool → Bool → Bool
same_flag true b = b
same_flag false b = not b

-- `snapshot`, compared before and after.
unfoldable pub same_state : Subscription → Subscription → Bool
unfolding word_code
same_state r q =
    same_word r.status q.status
    && (same_benefit_status r.benefit_status q.benefit_status
        && (same_moment r.access_until q.access_until
            && (same_moment r.grace_until q.grace_until
                && same_flag r.cancel_at_period_end q.cancel_at_period_end)))

abbrev pub activate_by_id : Session → Catalog → ℕ → Store → Store
activate_by_id e cat id s = elim (subscription_of id s) [ none ↦ s | some r ↦ activate e cat r s ]

-- The last of `align`: the row carries the line, and is activated where that changed its state.
unfoldable pub carry_over : Session → Catalog → ℕ → ProviderPurchase → Store → ℕ × Store
unfolding carry
carry_over e cat id p s = elim (subscription_of id s) [
  | none ↦ (0, s)
  | some r ↦
      let s' = set_subscription id (carry e.now p) s in
      if same_state r (carry e.now p r) then (0, s') else (1, activate_by_id e cat id s')
]

-- `align`
unfoldable pub align : Session → Offers → ℕ → ProviderPurchase → Option DateTime → Store → ℕ × Store
align e offers id p stated s =
    if is_set p.refunded_at
    then close_subscription e.now id revoked s
    else if is_past e.now p
    then close_subscription e.now id SubscriptionStatus.expired s
    else (let (adopted, s') = adopt e.now id p s in
        let (held_on, s'') = hold stated id s' in
        if adopted
        then (if held_on then carry_over e offers.catalog id p s'' else (1, s''))
        else carry_over e offers.catalog id p s')
