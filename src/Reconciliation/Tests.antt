-- ===== src/Reconciliation/Tests.antt =====
-- A subscription whose gateway speaks out of order.
use fastkit.Reconciliation.Aligning.{align, repoint}
use fastkit.Base.{◌≡◌, refl, true, false, none, some, [], ◌∷◌, arith}
use fastkit.Base.Text.{codes}
use fastkit.Dates.{DateTime}
use fastkit.Commerce.{Session}
use fastkit.Delivery.{Subscription, Store, active, revoked, BenefitStatus, production}
use fastkit.Reconciliation.{
  word_code, same_word, status_of, is_past, hold, close_subscription, Integration, ProviderPurchase,
  Offers,
}
use fastkit.Reconciliation.Applying.{settle_row}
use fastkit.Reconciliation.Ordering.{hold_orders}

abbrev monday : DateTime
monday = record { years = 2024; months = 5; days = 6; time = 0 }

abbrev tuesday : DateTime
tuesday = record { years = 2024; months = 5; days = 7; time = 0 }

abbrev on_tuesday : Session
on_tuesday = record {
  directory = record { user_tenant = λ u. some 1; currency_tenant = λ c. none };
  products = λ id. none;
  others = λ l. l;
  now = tuesday;
}

abbrev offered : Offers
offered = record {
  catalog = record { plans = λ id. none; plan_entitlements = λ id. []; catalog_benefits = [] };
  external_products =
      record {
        id = 30;
        integration_id = 2;
        plan_id = 3;
        external_id = codes "gold";
        is_active = true;
      }
      ∷ [];
}

abbrev gateway : Integration
gateway = record { id = 2; tenant_id = some 1 }

abbrev line : ProviderPurchase
line = record {
  external_id = some (codes "tx");
  product_reference = codes "gold";
  trial = false;
  purchased_at = some monday;
  first_purchased_at = none;
  period_ends_at = none;
  grace_ends_at = none;
  auto_resume_at = none;
  unsubscribed_at = none;
  refunded_at = some monday;
  environment = production;
  status = none;
}

abbrev subscribed : Subscription
subscribed = record {
  id = 9;
  tenant_id = some 1;
  user_id = 7;
  plan_id = 3;
  integration_id = some 2;
  external_product_id = some 30;
  external_id = some (codes "tx");
  status = active;
  benefit_status = BenefitStatus.active;
  environment = some production;
  started_at = some monday;
  current_period_started_at = some monday;
  current_period_ends_at = none;
  access_until = none;
  trial_ends_at = none;
  grace_until = none;
  cancel_at_period_end = false;
  canceled_at = none;
  expired_at = none;
  stated_at = some tuesday;
}

abbrev one_row : Store
one_row = record {
  shop = record {
    ledger = record { balances = []; transactions = [] };
    owned = [];
    purchases = [];
    serial = 20;
  };
  subscriptions = subscribed ∷ [];
  entitlements = [];
  benefits = [];
  grants = [];
  log = [];
}

-- A refund that a later word answers for again closes nothing, and one that is heard revokes.
refund_heard : (settle_row on_tuesday offered gateway 9 line (some tuesday) one_row).0 ≡ 1
unfolding settle_row hold repoint align close_subscription status_of is_past
refund_heard = refl

hold_orders_example :
    let t = (hold (some tuesday) 9 one_row).1 in
    settle_row on_tuesday offered gateway 9 line (some monday) t ≡ (0, t)
hold_orders_example =
    hold_orders on_tuesday offered gateway 9 line monday tuesday one_row (omega arith)

not_yet : same_word active revoked ≡ false
unfolding word_code
not_yet = refl
