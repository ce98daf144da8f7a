-- ===== src/Delivery/Handing/Rows.antt =====
-- What an attempt does to the rows of the grants: it writes over them, and never to their keys, but
-- for a reservation that it gives back.
use fastkit.Delivery.Evidence.{policy_allows, still_owed}
use fastkit.Base.Int.{pos}
use fastkit.Ledger.{Ledger, move, CreditTransaction}
use fastkit.Dates.{DateTime}
use fastkit.Base.Table.{update_where, find}
use fastkit.Commerce.{Shop, grant, UserProduct, Session}
use fastkit.Errors.{raise, Fault, Result, ok}
use fastkit.Base.{
  arith, subst, ◌==◌, if◌then◌else◌, Bool-cases, Option-cases, ℕ, ◌≡◌, refl, inl, inr, Bool, true,
  false, Option, none, some,
}
use fastkit.Delivery.{
  subscription_of, benefit_of, grant_of, SubscriptionBenefit, BenefitGrant, Catalog, Store,
  BenefitType, access, GrantError, subscription_no_longer_eligible, cycle_replaced,
  withheld_by_plan_policy,
}
use fastkit.Delivery.Handing.{
  rolled_back, set_grant, complete, switch_on, deliver_access, credit_movement, with_ledger,
  deliver_credit, product_handover, already_held, deliver_product, hand_over, attempt, finish, fail,
  deliver, drop,
}
use fastkit.Delivery.Handing.Kept.{
  Rewritten, Rewritten-refl, Rewritten-trans, Rewritten-set_grant, Kept,
}

-- The ways in which the engine writes over a grant.
Kept-drop : (now : DateTime) (reason : GrantError) (g : BenefitGrant) → Kept g (drop now reason g)
unfolding drop
Kept-drop now reason g = record {
  same_id = refl;
  same_key = refl;
  same_cycle = refl;
  same_slot = refl;
  same_attempts = refl;
  reserved = inr refl;
}

as-Kept :
    (g h : BenefitGrant)
    → h.id ≡ g.id
    → h.grant_key ≡ g.grant_key
    → h.cycle ≡ g.cycle
    → h.scheduled_at ≡ g.scheduled_at
    → h.attempts ≡ g.attempts
    → h.user_benefit_key ≡ g.user_benefit_key
    → Kept g h
as-Kept g h i k c t a u = record {
  same_id = i;
  same_key = k;
  same_cycle = c;
  same_slot = t;
  same_attempts = a;
  reserved = inl u;
}

deliver_access-Rewritten :
    (b : SubscriptionBenefit) (g : BenefitGrant) (s : Store)
    → Rewritten s.grants (deliver_access b g s).1.grants
unfolding deliver_access
deliver_access-Rewritten b g s =
    elim (Option-cases (find (λ u. u.id == b.user_entitlement_id) s.entitlements)) [
      | inl gone ↦ rw (gone, deliver_access) (Rewritten-refl s.grants)
      | inr (u, found) ↦
          rw (found, deliver_access)
            (Rewritten-set_grant g.id (complete (pos 1))
              (record s {
                entitlements =
                    update_where (λ r. r.id == b.user_entitlement_id) switch_on s.entitlements;
              })
              (λ r. as-Kept r _ refl refl refl refl refl refl))
    ]

credit-Rewritten :
    (b : SubscriptionBenefit) (g : BenefitGrant) (s : Store) (result : Result CreditTransaction)
    (l : Ledger)
    → Rewritten s.grants (
        let out : Option Fault × Store = elim result [
          | raise f ↦ (some f, with_ledger l s)
          | ok _ ↦ (none, set_grant g.id (complete b.quantity) (with_ledger l s))
        ] in
        out.1.grants)
credit-Rewritten b g s (raise f) l = Rewritten-refl s.grants
credit-Rewritten b g s (ok t) l =
    Rewritten-set_grant g.id (complete b.quantity) (with_ledger l s)
      (λ r. as-Kept r _ refl refl refl refl refl refl)

deliver_credit-Rewritten :
    (e : Session) (cat : Catalog) (b : SubscriptionBenefit) (g : BenefitGrant) (s : Store)
    → Rewritten s.grants (deliver_credit e cat b g s).1.grants
unfolding deliver_credit
deliver_credit-Rewritten e cat b g s = elim (Option-cases (subscription_of b.subscription_id s)) [
  | inl gone ↦ rw (gone, deliver_credit) (Rewritten-refl s.grants)
  | inr (r, p) ↦ elim (Option-cases (cat.plans r.plan_id)) [
    | inl gone ↦ rw (p, gone, deliver_credit) (Rewritten-refl s.grants)
    | inr (plan, q) ↦ elim (Option-cases b.currency_id) [
      | inl gone ↦ rw (p, q, gone, deliver_credit) (Rewritten-refl s.grants)
      | inr (currency, c) ↦
          let m = move e.directory e.others (credit_movement r plan b currency g) s.shop.ledger in
          simp (p, q, c, deliver_credit) (credit-Rewritten b g s m.0 m.1)
    ]
  ]
]

product-Rewritten :
    (g : BenefitGrant) (s : Store) (result : Result (UserProduct × Bool)) (shop : Shop)
    → Rewritten s.grants (
        let out : Option Fault × Store = elim result [
          | raise f ↦ (some f, record s { shop = shop })
          | ok (row, given) ↦ (
            none,
            set_grant g.id
                (if given then complete (pos 1) else already_held)
                (record s { shop = shop }),
          )
        ] in
        out.1.grants)
product-Rewritten g s (raise f) shop = Rewritten-refl s.grants
product-Rewritten g s (ok (row, true)) shop =
    Rewritten-set_grant g.id (complete (pos 1)) (record s { shop = shop })
      (λ r. as-Kept r _ refl refl refl refl refl refl)
product-Rewritten g s (ok (row, false)) shop =
    Rewritten-set_grant g.id already_held (record s { shop = shop })
      (λ r. as-Kept r _ refl refl refl refl refl refl)

deliver_product-Rewritten :
    (e : Session) (b : SubscriptionBenefit) (g : BenefitGrant) (s : Store)
    → Rewritten s.grants (deliver_product e b g s).1.grants
unfolding deliver_product
deliver_product-Rewritten e b g s = elim (Option-cases (subscription_of b.subscription_id s)) [
  | inl gone ↦ rw (gone, deliver_product) (Rewritten-refl s.grants)
  | inr (r, p) ↦ elim (Option-cases b.product_id) [
    | inl gone ↦ rw (p, gone, deliver_product) (Rewritten-refl s.grants)
    | inr (item, q) ↦
        let m = grant e (product_handover r item g) s.shop in
        simp (p, q, deliver_product) (product-Rewritten g s m.0 m.1)
  ]
]

hand_over-Rewritten :
    (type : BenefitType) (e : Session) (cat : Catalog) (b : SubscriptionBenefit) (g : BenefitGrant)
    (s : Store)
    → Rewritten s.grants (hand_over type e cat b g s).1.grants
unfolding hand_over
hand_over-Rewritten access e cat b g s = deliver_access-Rewritten b g s
hand_over-Rewritten BenefitType.credit e cat b g s = deliver_credit-Rewritten e cat b g s
hand_over-Rewritten BenefitType.product e cat b g s = deliver_product-Rewritten e b g s

attempt-Rewritten :
    (e : Session) (cat : Catalog) (b : SubscriptionBenefit) (g : BenefitGrant) (s : Store)
    → Rewritten s.grants (attempt e cat b g s).1.grants
unfolding attempt
attempt-Rewritten e cat b g s = elim (Bool-cases (still_owed b s)) [
  | inr over ↦
      rw (over, attempt)
        (Rewritten-set_grant g.id _ s (Kept-drop e.now subscription_no_longer_eligible))
  | inl owed ↦ elim (Bool-cases (g.cycle == b.cycle)) [
    | inr replaced ↦
        rw (owed, replaced, attempt) (Rewritten-set_grant g.id _ s (Kept-drop e.now cycle_replaced))
    | inl current ↦ elim (Bool-cases (policy_allows cat b s)) [
      | inr withheld ↦
          rw (owed, current, withheld, attempt)
            (Rewritten-set_grant g.id _ s (Kept-drop e.now withheld_by_plan_policy))
      | inl allowed ↦
          rw (owed, current, allowed, attempt) (hand_over-Rewritten b.benefit_type e cat b g s)
    ]
  ]
]

grants-rolled_back :
    (type : BenefitType) (e : Session) (cat : Catalog) (b : SubscriptionBenefit) (g : BenefitGrant)
    (s : Store)
    → (rolled_back type e cat b g s).grants ≡ s.grants
unfolding rolled_back
grants-rolled_back access e cat b g s = refl
grants-rolled_back BenefitType.credit e cat b g s = ground arith
grants-rolled_back BenefitType.product e cat b g s = ground arith

settle_rows :
    (now : DateTime) (grant_id : ℕ) (s back : Store) (r : Option Fault × Store)
    → Rewritten s.grants r.1.grants
    → back.grants ≡ s.grants
    → let out : Store = elim r.0 [
      | some f ↦ set_grant grant_id (fail now f) back
      | none ↦ set_grant grant_id (finish now) r.1
    ] in
      Rewritten s.grants out.grants
settle_rows now grant_id s back (some f, t) tried same =
    subst (λ gs. Rewritten gs (set_grant grant_id (fail now f) back).grants) same
      (Rewritten-set_grant grant_id (fail now f) back
        (λ r. as-Kept r _ refl refl refl refl refl refl))
settle_rows now grant_id s back (none, t) tried same =
    Rewritten-trans s.grants t.grants (set_grant grant_id (finish now) t).grants tried
      (Rewritten-set_grant grant_id (finish now) t (λ r. as-Kept r _ refl refl refl refl refl refl))

-- An attempt adds and removes no grant: each row keeps its id, its grant key, its cycle, its slot
-- and its count of attempts, and it keeps the reservation of its person or gives it back.
pub deliver-Rewritten :
    (e : Session) (cat : Catalog) (benefit_id grant_id : ℕ) (s : Store)
    → Rewritten s.grants (deliver e cat benefit_id grant_id s).grants
unfolding deliver
deliver-Rewritten e cat benefit_id grant_id s = elim (Option-cases (benefit_of benefit_id s)) [
  | inl gone ↦ rw (gone, deliver) (Rewritten-refl s.grants)
  | inr (b, p) ↦ elim (Option-cases (grant_of grant_id s)) [
    | inl gone ↦ rw (p, gone, deliver) (Rewritten-refl s.grants)
    | inr (g, q) ↦
        rw (p, q, deliver)
          (settle_rows e.now grant_id s (rolled_back b.benefit_type e cat b g s)
            (attempt e cat b g s) (attempt-Rewritten e cat b g s)
            (grants-rolled_back b.benefit_type e cat b g s))
  ]
]
