-- ===== src/Commerce.antt =====
-- services/commerce_service.py, with the enum sets of enums/commerce.py: buying a product and being
-- given one. `Session` is what one call reads and does not write: the catalogue, the tenants, the
-- clock, and what other sessions commit while a credit movement waits for its lock.
pub mod Owning
pub mod Settling
pub mod Racing
mod Tests
use fastkit.Base.{
  ◌==◌, if◌then◌else◌, ℕ, zero, suc, ◌∙◌, Bool, true, false, ◌&&◌, ◌||◌, not, Option, none, some,
  List, ◌∷◌, ◌++◌, [],
}
use fastkit.Base.Int.{pos_part, neg_part, ℤ}
use fastkit.Base.Table.{find, exists, update_where}
use fastkit.Base.Text.{Text, codes, text_eq}
use fastkit.Dates.{DateTime}
use fastkit.Errors.{product_already_owned, missing_row, other, Result, ok, raise, Fault}
use fastkit.Ledger.{move, crossed, Ledger, Directory, credit, CreditTransaction, Movement}

pub data PurchaseStatus : Type 0 where
  pending paid canceled failed refunded charged_back : PurchaseStatus

pub record UserProduct : Type 0 where
  pub id : ℕ
  pub user_id : ℕ
  pub product_id : ℕ
  pub subscription_id : Option ℕ
  pub purchase_id : Option ℕ
  pub benefit_grant_id : Option ℕ
  pub granted_at : DateTime

pub record Purchase : Type 0 where
  pub id : ℕ
  pub tenant_id : Option ℕ
  pub user_id : ℕ
  pub product_id : ℕ
  pub integration_id : Option ℕ
  pub reference : Text
  pub external_id : Option Text
  pub currency : Text
  pub price : ℕ
  pub status : PurchaseStatus
  pub paid_at : Option DateTime

-- The columns of a product that commerce reads. A price is in hundredths.
pub record Product : Type 0 where
  pub id : ℕ
  pub name : Text
  pub credits : ℤ
  pub credits_currency_id : Option ℕ
  pub currency : Text
  pub price : ℕ

pub record Session : Type 0 where
  pub directory : Directory
  pub products : ℕ → Option Product
  pub others : Ledger → Ledger
  pub now : DateTime

-- Row ids are drawn from one sequence.
pub record Shop : Type 0 where
  pub ledger : Ledger
  pub owned : List UserProduct
  pub purchases : List Purchase
  pub serial : ℕ

-- Who is given what, and by what: the arguments of `grant`.
pub record Handover : Type 0 where
  pub user_id : ℕ
  pub product_id : ℕ
  pub source_key : Text
  pub subscription_id : Option ℕ
  pub purchase_id : Option ℕ
  pub benefit_grant_id : Option ℕ

abbrev pub owns : ℕ → ℕ → UserProduct → Bool
owns user product p = p.user_id == user && p.product_id == product

-- `user_product_service.owned_by`
abbrev pub owned_by : ℕ → ℕ → Shop → Bool
owned_by user product s = exists (owns user product) s.owned

-- `product.credits and product.credits_currency_id`: zero and none are both false.
unfoldable pub credits_of : Product → Option (ℤ × ℕ)
credits_of p = elim p.credits_currency_id [
  | none ↦ none
  | some currency ↦
      if (pos_part p.credits == 0) && (neg_part p.credits == 0)
      then none
      else if currency == 0
      then none
      else some (p.credits, currency)
]

-- `f"product:{source_key}"`
abbrev pub product_key : Text → Text
product_key source = codes "product:" ++ source

-- The row that says the product is the account's.
unfoldable pub owned_row : Session → Handover → Shop → UserProduct
owned_row e h s = record {
  id = s.serial;
  user_id = h.user_id;
  product_id = h.product_id;
  subscription_id = h.subscription_id;
  purchase_id = h.purchase_id;
  benefit_grant_id = h.benefit_grant_id;
  granted_at = e.now;
}

unfoldable pub write_owned : Session → Handover → Shop → Shop
unfolding owned_row
write_owned e h s = record s { owned = owned_row e h s ∷ s.owned; serial = suc s.serial }

-- The movement that puts the credits of a product in a balance.
abbrev pub credits_movement : Handover → Product → ℤ → ℕ → Movement
credits_movement h product amount currency = record {
  user_id = h.user_id;
  currency_id = currency;
  type = credit;
  amount = amount;
  description = some product.name;
  idempotency_key = product_key h.source_key;
  benefit_grant_id = h.benefit_grant_id;
}

abbrev pub fault_of : {A : Type 0} → Result A → Option Fault
fault_of (ok _) = none
fault_of (raise f) = some f

-- What paying them raised, if anything, and the shop after it.
unfoldable pub pay_credits : Session → Handover → Product → Shop → Option Fault × Shop
unfolding credits_of
pay_credits e h product s = elim (credits_of product) [
  | none ↦ (none, s)
  | some (amount, currency) ↦
      let (r, l) =
        move e.directory e.others (credits_movement h product amount currency) s.ledger in
      (fault_of r, record s { ledger = l })
]

abbrev pub or_raise : {A : Type 0} → Option Fault → A → Result A
or_raise none a = ok a
or_raise (some f) a = raise f

unfoldable pub grant : Session → Handover → Shop → Result (UserProduct × Bool) × Shop
unfolding pay_credits write_owned
grant e h s = elim (find (owns h.user_id h.product_id) s.owned) [
  | some settled ↦ (ok (settled, false), s)
  | none ↦ elim (e.products h.product_id) [
    | none ↦ (raise missing_row, write_owned e h s)
    | some product ↦
        let (fault, paid_shop) = pay_credits e h product (write_owned e h s) in
        (or_raise fault (owned_row e h s, true), paid_shop)
  ]
]

-- What the other sessions leave of the shop in the course of a `grant` that is rolled back after it.
unfoldable pub crossed_grant : Session → Handover → Shop → Shop
unfolding credits_of
crossed_grant e h s = elim (find (owns h.user_id h.product_id) s.owned) [
  | some settled ↦ s
  | none ↦ elim (e.products h.product_id) [
    | none ↦ s
    | some product ↦ elim (credits_of product) [
      | none ↦ s
      | some (amount, currency) ↦ record s {
        ledger = crossed e.directory e.others (credits_movement h product amount currency) s.ledger;
      }
    ]
  ]
]

unfoldable pub open_purchase :
    Option ℕ → ℕ → Product → Option ℕ → Text → Shop → Result Purchase × Shop
open_purchase brand user product integration reference s =
    if owned_by user product.id s
    then (raise product_already_owned, s)
    else let row : Purchase = record {
      id = s.serial;
      tenant_id = brand;
      user_id = user;
      product_id = product.id;
      integration_id = integration;
      reference = reference;
      external_id = none;
      currency = product.currency;
      price = product.price;
      status = pending;
      paid_at = none;
    } in
      (ok row, record s { purchases = row ∷ s.purchases; serial = suc s.serial })

unfoldable pub status_code : PurchaseStatus → ℕ
status_code pending = 0
status_code paid = 1
status_code canceled = 2
status_code failed = 3
status_code refunded = 4
status_code charged_back = 5

abbrev pub same_status : PurchaseStatus → PurchaseStatus → Bool
unfolding status_code
same_status a b = status_code a == status_code b

-- `SETTLED_PURCHASE_STATUSES`
unfoldable pub is_settled : PurchaseStatus → Bool
is_settled paid = true
is_settled refunded = true
is_settled charged_back = true
is_settled _ = false

-- Whether a notice moves a purchase: the two early returns of `settle_purchase`.
unfoldable pub moves : PurchaseStatus → PurchaseStatus → Bool
unfolding is_settled status_code
moves current word =
    not (same_status current word)
    && not (
        same_status word pending
        || (same_status current refunded || (is_settled current && not (is_settled word))))

-- The columns that a notice writes: `changes`.
unfoldable pub change : DateTime → PurchaseStatus → Option Text → Purchase → Purchase
unfolding status_code
change now word external p = record p {
  status = word;
  external_id = elim external [
    | none ↦ p.external_id
    | some x ↦ if text_eq x [] then p.external_id else some x
  ];
  paid_at = if same_status word paid then some now else p.paid_at;
}

abbrev pub named : ℕ → Purchase → Bool
named id p = p.id == id

abbrev pub handover_of : Purchase → Handover
handover_of p = record {
  user_id = p.user_id;
  product_id = p.product_id;
  source_key = p.reference;
  subscription_id = none;
  purchase_id = some p.id;
  benefit_grant_id = none;
}

-- The move that landed: the row is written, and what was paid for is handed over.
unfoldable pub write_status : DateTime → Purchase → PurchaseStatus → Option Text → Shop → Shop
write_status now p word external s = record s {
  purchases = update_where (named p.id) (change now word external) s.purchases;
}

unfoldable pub land :
    Session → Purchase → PurchaseStatus → Option Text → Shop → Result Purchase × Shop
unfolding status_code
land e p word external s =
    let moved = write_status e.now p word external s in
    let given = grant e (handover_of p) moved in
    if same_status word paid
    then (or_raise (fault_of given.0) (change e.now word external p), given.1)
    else (ok (change e.now word external p), moved)

-- A round decides on the status it read and writes only where the row still has it, and otherwise
-- reads the row and decides again. Each round first lets another session commit what it likes, the
-- head of the list; `none` means that the list ran out.
unfoldable pub settle_purchase :
    Session
    → List (Shop → Shop)
    → Purchase
    → PurchaseStatus
    → Option Text
    → Shop
    → Option (Result Purchase × Shop)
settle_purchase e [] p word external s = none
settle_purchase e (cross ∷ rest) p word external s =
    if moves p.status word
    then elim (find (named p.id) (cross s).purchases) [
      | none ↦ some (raise missing_row, cross s)
      | some stored ↦ elim (same_status stored.status p.status) [
        | true ↦ some (land e p word external (cross s))
        | false ↦ settle_purchase e rest stored word external (cross s)
      ]
    ]
    else some (ok p, s)
