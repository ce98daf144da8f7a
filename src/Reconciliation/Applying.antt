-- ===== src/Reconciliation/Applying.antt =====
-- `apply`, `settle`, `open` and `hand_over`: which row a line of the gateway is about, and what
-- becomes of the rows that a complete answer leaves out.
use fastkit.Reconciliation.Aligning.{
  is_sold, same_id, repoint, named_by, is_holder, activate_by_id, align,
}
use fastkit.Base.{
  ◌==◌, if◌then◌else◌, ℕ, suc, ◌+◌, Bool, true, false, ◌&&◌, not, Option, none, some, List, [], ◌∷◌,
}
use fastkit.Base.Table.{find, update_where, count_where}
use fastkit.Base.Text.{Text, text_eq}
use fastkit.Dates.{DateTime}
use fastkit.Commerce.{Session}
use fastkit.Delivery.{
  is_eligible, subscription_of, Subscription, Store, SubscriptionStatus, BenefitStatus,
  receipt_passed, nothing_maps,
}
use fastkit.Delivery.Activation.{activate, release_cycle, end_benefits}
use fastkit.Reconciliation.{
  status_of, is_past, carry, set_subscription, hold, close_subscription, ExternalProduct,
  Integration, ProviderPurchase, Offers,
}

-- The rows of an account that are not answered for yet, by the product that each was sold as.
abbrev pub Ours : Type 0
Ours = List (Text × ℕ)

-- `same_purchase`
unfoldable pub same_purchase : ℕ → ℕ → ProviderPurchase → Store → Option Subscription
same_purchase integration user p s = elim (named_by p.external_id) [
  | none ↦ none
  | some external ↦
      find (λ r. is_holder (some integration) external r && r.user_id == user) s.subscriptions
]

-- `settled`
abbrev pub without : ℕ → Ours → Ours
without id [] = []
without id ((sold_as, row) ∷ rest) =
    let kept = without id rest in if row == id then kept else (sold_as, row) ∷ kept

-- `ours.pop(product)`
abbrev pub pop : Text → Ours → Option ℕ × Ours
pop reference [] = (none, [])
pop reference ((key, row) ∷ rest) =
    let (found, kept) = pop reference rest in
    if text_eq key reference then (some row, rest) else (found, (key, row) ∷ kept)

abbrev pub is_pending : SubscriptionStatus → Bool
is_pending SubscriptionStatus.pending = true
is_pending _ = false

abbrev pub status_by_id : ℕ → Store → SubscriptionStatus
status_by_id id s = elim (subscription_of id s) [
  | none ↦ SubscriptionStatus.pending
  | some r ↦ r.status
]

-- `settle`, from the row that the line is about.
unfoldable pub settle_row :
    Session → Offers → Integration → ℕ → ProviderPurchase → Option DateTime → Store → ℕ × Store
settle_row e offers i id p stated s =
    let (held_on, s1) = hold stated id s in
    if not held_on
    then (0, s1)
    else if is_pending (status_of p) && not (is_pending (status_by_id id s1))
    then (0, s1)
    else (let (changed, s2) = repoint offers i.id id p s1 in
        let (again, s3) = hold stated id s2 in
        let unchanged = align e offers id p stated s2 in
        let (_, s4) = align e offers id p stated s3 in
        if not changed
        then unchanged
        else if not again
        then (1, s3)
        else (1, activate_by_id e offers.catalog id s4))

abbrev pub pass_to : ℕ → ℕ → Subscription → Bool
pass_to id previous r = r.id == id && r.user_id == previous

-- `hand_over`
unfoldable pub hand_over_receipt :
    Session → Offers → Subscription → ℕ → ProviderPurchase → Store → ℕ × Store
unfolding carry
hand_over_receipt e offers r user p s =
    let moved : Store = record s {
      subscriptions =
          update_where (pass_to r.id r.user_id) (λ q. record q { user_id = user }) s.subscriptions;
    } in
    let ended_store = set_subscription r.id (carry e.now p) (end_benefits r.id moved) in
    let told : Store = record ended_store {
      log = receipt_passed r.id r.user_id user ∷ ended_store.log;
    } in
    if not (count_where (pass_to r.id r.user_id) s.subscriptions == 1)
    then (0, moved)
    else (1, activate_by_id e offers.catalog r.id (release_cycle r.id told).1)

abbrev pub fresh_subscription :
    Integration → ℕ → ExternalProduct → Text → Option DateTime → ℕ → Subscription
fresh_subscription i user x external stated id = record {
  id = id;
  tenant_id = i.tenant_id;
  user_id = user;
  plan_id = x.plan_id;
  integration_id = some i.id;
  external_product_id = some x.id;
  external_id = some external;
  status = SubscriptionStatus.pending;
  benefit_status = BenefitStatus.active;
  environment = none;
  started_at = none;
  current_period_started_at = none;
  current_period_ends_at = none;
  access_until = none;
  trial_ends_at = none;
  grace_until = none;
  cancel_at_period_end = false;
  canceled_at = none;
  expired_at = none;
  stated_at = stated;
}

-- The row of a line that no row answered for, and the one that another account or another notice
-- holds. The source settles the latter by `settle` with no rows of ours, which finds the row that
-- was just read by its transaction.
unfoldable pub open_row :
    Session
    → Offers
    → Integration
    → ℕ
    → ProviderPurchase
    → ExternalProduct
    → Text
    → Option DateTime
    → Store
    → ℕ × Store
unfolding carry same_purchase
open_row e offers i user p x external stated s =
    elim (find (is_holder (some i.id) external) s.subscriptions) [
      | some settled ↦
          if settled.user_id == user
          then elim (same_purchase i.id user p s) [
            | none ↦ (0, s)
            | some row ↦ settle_row e offers i row.id p stated s
          ]
          else hand_over_receipt e offers settled user p s
      | none ↦
          let id = s.shop.serial in
          let row = carry e.now p (fresh_subscription i user x external stated id) in
          (
            1,
            activate e offers.catalog row (record s {
              subscriptions = row ∷ s.subscriptions;
              shop = record (s.shop) { serial = suc id };
            }),
          )
    ]

-- `open`
unfoldable pub open_subscription :
    Session → Offers → Integration → ℕ → ProviderPurchase → Option DateTime → Store → ℕ × Store
unfolding is_past
open_subscription e offers i user p stated s =
    let unmapped : ℕ × Store =
      (0, record s { log = nothing_maps p.product_reference user ∷ s.log }) in
    if is_past e.now p
    then (0, s)
    else elim (find (is_sold i.id p.product_reference) offers.external_products) [
      | none ↦ unmapped
      | some x ↦ elim (named_by p.external_id) [
        | none ↦ unmapped
        | some external ↦ open_row e offers i user p x external stated s
      ]
    ]

-- `settle`: what it changed, and the rows that are left to answer for.
unfoldable pub settle :
    Session
    → Offers
    → Integration
    → ℕ
    → ProviderPurchase
    → Ours
    → Option DateTime
    → Store
    → ℕ × Ours × Store
settle e offers i user p ours stated s =
    let (popped, left) = pop p.product_reference ours in
    elim popped [
      | some id ↦ let (n, s') = settle_row e offers i id p stated s in (n, left, s')
      | none ↦ elim (same_purchase i.id user p s) [
        | some row ↦
            let (n, s') = settle_row e offers i row.id p stated s in (n, without row.id left, s')
        | none ↦ let (n, s') = open_subscription e offers i user p stated s in (n, left, s')
      ]
    ]

unfoldable pub settle_each :
    Session
    → Offers
    → Integration
    → ℕ
    → List ProviderPurchase
    → Ours
    → Option DateTime
    → Store
    → ℕ × Ours × Store
settle_each e offers i user [] ours stated s = (0, ours, s)
settle_each e offers i user (p ∷ rest) ours stated s =
    let (n, left, s') = settle e offers i user p ours stated s in
    let (m, last, s'') = settle_each e offers i user rest left stated s' in (n + m, last, s'')

-- One turn of the loop over the rows that a complete answer leaves out.
unfoldable pub close_missing : Session → Option DateTime → ℕ → Store → ℕ × Store
unfolding is_eligible
close_missing e stated id s =
    let (held_on, s') = hold stated id s in
    if not held_on
    then (0, s')
    else if is_eligible (status_by_id id s')
    then close_subscription e.now id SubscriptionStatus.expired s'
    else (0, s')

unfoldable pub close_each_missing : Session → Option DateTime → Ours → Store → ℕ × Store
close_each_missing e stated [] s = (0, s)
close_each_missing e stated ((sold_as, id) ∷ rest) s =
    let (n, s') = close_missing e stated id s in
    let (m, s'') = close_each_missing e stated rest s' in (n + m, s'')

-- `ours`
abbrev pub product_name : Offers → Option ℕ → Option Text
product_name offers none = none
product_name offers (some id) = elim (find (λ x. x.id == id) offers.external_products) [
  | none ↦ none
  | some x ↦ some x.external_id
]

abbrev pub ours_of : Offers → ℕ → ℕ → List Subscription → Ours
ours_of offers integration user [] = []
ours_of offers integration user (r ∷ rs) =
    let rest = ours_of offers integration user rs in
    if same_id r.integration_id (some integration) && r.user_id == user
    then elim (product_name offers r.external_product_id) [
      | none ↦ rest
      | some sold_as ↦ (sold_as, r.id) ∷ rest
    ]
    else rest

-- `apply`
unfoldable pub apply :
    Session
    → Offers
    → Integration
    → ℕ
    → List ProviderPurchase
    → Bool
    → Option DateTime
    → Store
    → ℕ × Store
unfolding settle_each close_each_missing
apply e offers i user lines complete stated s =
    let (n, left, s') =
      settle_each e offers i user lines (ours_of offers i.id user s.subscriptions) stated s in
    let (m, s'') = close_each_missing e stated left s' in if complete then (n + m, s'') else (n, s')
