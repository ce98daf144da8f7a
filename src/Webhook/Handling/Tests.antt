-- ===== src/Webhook/Handling/Tests.antt =====
-- A payment notice that is delivered twice, and one whose handling fails.
use fastkit.Base.{inl, ◌≡◌, refl, ap, true, false, none, some, [], ◌∷◌}
use fastkit.Base.Int.{pos}
use fastkit.Base.Text.{codes}
use fastkit.Dates.{DateTime}
use fastkit.Errors.{Result, ok}
use fastkit.Commerce.{
  owned_by, grant, status_code, is_settled, moves, change, write_status, land, settle_purchase,
  Purchase, Product, Session, Shop, PurchaseStatus,
}
use fastkit.Webhook.{
  takeable_event, claim_event, is_stuck, store_event, fresh_event, record_of, WebhookEvent, Queue,
  WebhookEventStatus,
}
use fastkit.Webhook.Handling.{ingest, ProviderEvent, Office}
use fastkit.Webhook.Once.{ingest_again}
use fastkit.Webhook.Retrying.{retry_failed}
use fastkit.Webhook.Kept.{Kept}

abbrev noon : DateTime
noon = record { years = 2024; months = 5; days = 1; time = 43200000000 }

abbrev later : DateTime
later = record { years = 2024; months = 5; days = 2; time = 0 }

abbrev poster : Product
poster = record {
  id = 4;
  name = codes "poster";
  credits = pos 0;
  credits_currency_id = none;
  currency = codes "BRL";
  price = 990;
}

abbrev ordered : Purchase
ordered = record {
  id = 9;
  tenant_id = some 1;
  user_id = 7;
  product_id = 4;
  integration_id = some 2;
  reference = codes "order";
  external_id = none;
  currency = codes "BRL";
  price = 990;
  status = PurchaseStatus.pending;
  paid_at = none;
}

abbrev open_shop : Shop
open_shop = record {
  ledger = record { balances = []; transactions = [] };
  owned = [];
  purchases = ordered ∷ [];
  serial = 10;
}

abbrev a_session : Session
a_session = record {
  directory = record { user_tenant = λ u. some 1; currency_tenant = λ c. none };
  products = λ id. some poster;
  others = λ l. l;
  now = noon;
}

-- A gateway whose accounts are asked about, and where the asking fails or not.
abbrev an_office : Result (Unit {0}) → Office Shop
an_office asked = record {
  integration_id = 2;
  tenant_id = some 1;
  session = a_session;
  shop = λ s. s;
  with_shop = λ s w. s;
  account = λ t s. some 7;
  reconcile = λ u s. (asked, s);
  event_stated = false;
  state = λ u e s. (ok tt, s);
  class_of = λ f. 1;
}

abbrev charge : ProviderEvent
charge = record {
  external_event_id = codes "evt";
  account_token = some (codes "t");
  also_about = [];
  says_state = false;
  reference = some (codes "order");
  purchase_status = some PurchaseStatus.paid;
  payment_id = some (codes "pi");
}

abbrev no_notice : Queue
no_notice = record { events = []; serial = 1 }

abbrev handled : Result (Unit {0}) × Queue × Shop
handled = ingest (an_office (ok tt)) noon (some charge) (codes "x") no_notice open_shop

handled-ok : handled.0 ≡ ok tt
unfolding ingest record_of store_event claim_event takeable_event settle_purchase moves land grant
    write_status change is_settled status_code
handled-ok = refl

owns_poster : owned_by 7 4 handled.2 ≡ true
unfolding ingest record_of store_event claim_event takeable_event settle_purchase moves land grant
    write_status change is_settled status_code
owns_poster = refl

-- The same notice with another content.
abbrev charge_anew : ProviderEvent
charge_anew = record charge { payment_id = some (codes "other") }

ingest_again_example :
    ingest (an_office (ok tt)) later (some charge_anew) (codes "y") handled.1 open_shop
    ≡ (ok tt, handled.1, open_shop)
ingest_again_example =
    ingest_again (an_office (ok tt)) charge charge_anew (codes "x") (codes "y") noon later no_notice
      open_shop open_shop (refl, inl refl) refl refl
      (ap (λ r. (r, handled.1, handled.2)) handled-ok)

retries :
    (retry_failed {W = Shop}
      (λ i. an_office (ok tt))
      (λ r. ok (some charge))
      later
      (record {
        events =
            record (fresh_event noon
              (some 1)
              2
              (codes "evt")
              (codes "x")
              WebhookEventStatus.failed
              none
              1) { attempts = 1 }
            ∷ [];
        serial = 2;
      })
      open_shop).0
    ≡ none
unfolding retry_failed is_stuck takeable_event settle_purchase moves land grant write_status change
    is_settled status_code
retries = refl
