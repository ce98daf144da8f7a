-- ===== src/Reconciliation.antt =====
-- services/reconciliation_service.py: what a gateway says about the subscriptions of one account,
-- and what it makes of their rows. The row of a subscription is held from the moment its stamp is
-- taken, so no other session writes it while a word is applied, and a row is read where the source
-- refreshes it. `Offers` is what the gateway sells, which the service reads and never writes.
use fastkit.Base.{
  ◌==◌, if◌then◌else◌, ℕ, ◌∙◌, Bool, true, false, ◌&&◌, not, Option, none, some, List, [], ◌∷◌,
}
use fastkit.Base.Table.{find, update_where, count_where}
use fastkit.Base.Text.{Text, text_eq}
use fastkit.Dates.{stamp, before, not_after, DateTime}
use fastkit.Commerce.{Session, Shop, pending}
use fastkit.Delivery.{
  subscription_of, Subscription, Catalog, Store, SubscriptionStatus, trialing, active, grace_period,
  suspended, expired, revoked, BenefitStatus, paused, ended, product, ResumeDeliveryPolicy,
  same_cycle, new_cycle, Environment, closed_by_reconciliation,
}
use fastkit.Delivery.Evidence.{has_key}
use fastkit.Delivery.Activation.{activate, release_cycle, end_benefits}
pub mod Applying
pub mod Ordering
pub mod Closing
pub mod Aligning
pub mod Window
mod Tests

pub record ExternalProduct : Type 0 where
  pub id : ℕ
  pub integration_id : ℕ
  pub plan_id : ℕ
  pub external_id : Text
  pub is_active : Bool

pub record Integration : Type 0 where
  pub id : ℕ
  pub tenant_id : Option ℕ

-- The fields of a line that decide something. The others are kept in a JSON column.
pub record ProviderPurchase : Type 0 where
  pub external_id : Option Text
  pub product_reference : Text
  pub trial : Bool
  pub purchased_at : Option DateTime
  pub first_purchased_at : Option DateTime
  pub period_ends_at : Option DateTime
  pub grace_ends_at : Option DateTime
  pub auto_resume_at : Option DateTime
  pub unsubscribed_at : Option DateTime
  pub refunded_at : Option DateTime
  pub environment : Environment
  pub status : Option SubscriptionStatus

pub record Offers : Type 0 where
  pub catalog : Catalog
  pub external_products : List ExternalProduct

unfoldable pub word_code : SubscriptionStatus → ℕ
word_code SubscriptionStatus.pending = 0
word_code trialing = 1
word_code SubscriptionStatus.active = 2
word_code grace_period = 3
word_code suspended = 4
word_code SubscriptionStatus.expired = 5
word_code revoked = 6

abbrev pub same_word : SubscriptionStatus → SubscriptionStatus → Bool
unfolding word_code
same_word a b = word_code a == word_code b

-- `CLOSED_SUBSCRIPTION_STATUSES`
unfoldable pub is_closed : SubscriptionStatus → Bool
is_closed SubscriptionStatus.expired = true
is_closed revoked = true
is_closed _ = false

abbrev pub is_set {ℓ} : {A : Type ℓ} → Option A → Bool
is_set none = false
is_set (some a) = true

-- `a or b` on dates.
abbrev pub or_else {ℓ} : {A : Type ℓ} → Option A → Option A → Option A
or_else none b = b
or_else (some a) b = some a

-- `status_of`
unfoldable pub status_of : ProviderPurchase → SubscriptionStatus
status_of p = elim p.status [
  | some word ↦ word
  | none ↦
      if is_set p.auto_resume_at
      then suspended
      else if is_set p.grace_ends_at
      then grace_period
      else if p.trial
      then trialing
      else SubscriptionStatus.active
]

-- `over`
unfoldable pub is_past : DateTime → ProviderPurchase → Bool
unfolding is_closed
is_past now p = elim p.status [
  | some word ↦ is_closed word
  | none ↦ elim (or_else p.grace_ends_at p.period_ends_at) [
    | none ↦ false
    | some deadline ↦ not_after deadline now
  ]
]

-- `carry`
unfoldable pub carry : DateTime → ProviderPurchase → Subscription → Subscription
carry now p r = record r {
  status = status_of p;
  benefit_status = if is_set p.auto_resume_at then BenefitStatus.paused else BenefitStatus.active;
  environment = some p.environment;
  started_at =
      or_else p.first_purchased_at (or_else r.started_at (or_else p.purchased_at (some now)));
  current_period_started_at = p.purchased_at;
  current_period_ends_at = p.period_ends_at;
  access_until = or_else p.grace_ends_at p.period_ends_at;
  grace_until = p.grace_ends_at;
  trial_ends_at = if p.trial then p.period_ends_at else none;
  cancel_at_period_end = is_set p.unsubscribed_at;
  canceled_at = p.unsubscribed_at;
  expired_at = none;
}

abbrev pub set_subscription : ℕ → (Subscription → Subscription) → Store → Store
set_subscription id f s = record s {
  subscriptions = update_where (λ r. r.id == id) f s.subscriptions;
}

-- The condition that the write of `hold` carries, and the stamp it takes.
abbrev pub hears : Option DateTime → ℕ → Subscription → Bool
hears none id r = r.id == id
hears (some at) id r =
    r.id == id && elim r.stated_at [ none ↦ true | some heard ↦ not_after heard at ]

abbrev pub stamped : Option DateTime → Subscription → Subscription
stamped none r = r
stamped (some at) r = record r { stated_at = some at }

-- `hold`
unfoldable pub hold : Option DateTime → ℕ → Store → Bool × Store
hold stated id s = (
  count_where (hears stated id) s.subscriptions == 1,
  record s { subscriptions = update_where (hears stated id) (stamped stated) s.subscriptions },
)

abbrev pub finished : DateTime → SubscriptionStatus → Subscription → Subscription
finished now word r = record r {
  status = word;
  expired_at = some now;
  access_until = some now;
  benefit_status = BenefitStatus.ended;
}

-- `close`: how many rows it changed.
unfoldable pub close_subscription : DateTime → ℕ → SubscriptionStatus → Store → ℕ × Store
unfolding word_code
close_subscription now id word s = elim (subscription_of id s) [
  | none ↦ (0, s)
  | some r ↦
      if same_word r.status word
      then (0, s)
      else (let s' = end_benefits id (set_subscription id (finished now word) s) in
          (1, record s' { log = closed_by_reconciliation id ∷ s'.log }))
]
