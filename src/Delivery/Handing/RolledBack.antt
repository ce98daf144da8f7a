-- ===== src/Delivery/Handing/RolledBack.antt =====
-- What a rollback takes back, and what it leaves of the other sessions.
use fastkit.Ledger.{crossed, Directory, Movement, is_foreign, settled_by_key, Ledger}
use fastkit.Commerce.{crossed_grant, credits_of, credits_movement, owns, Session, Handover}
use fastkit.Base.Table.{find}
use fastkit.Base.{ℕ, ◌≡◌, refl, ◌⊎◌, Option-cases, inl, inr, Bool-cases}
use fastkit.Delivery.{
  BenefitGrant, Catalog, Store, subscription_of, SubscriptionBenefit, BenefitType, access,
}
use fastkit.Delivery.Handing.{
  rolled_back, set_grant, credit_movement, with_ledger, product_handover,
}

-- Two states between which nothing was handed over: what is owned and the rights are the same, and
-- the ledger is the one before or what the other sessions made of it while an attempt waited.
pub record HandsNothing (others : Ledger → Ledger) (s t : Store) : Type 0 where
  pub ledger_of_others : (t.shop.ledger ≡ s.shop.ledger) ⊎ (t.shop.ledger ≡ others s.shop.ledger)
  pub same_owned : t.shop.owned ≡ s.shop.owned
  pub same_entitlements : t.entitlements ≡ s.entitlements

pub set_grant-HandsNothing :
    (others : Ledger → Ledger) (id : ℕ) (f : BenefitGrant → BenefitGrant) (s t : Store)
    → HandsNothing others s t
    → HandsNothing others s (set_grant id f t)
unfolding set_grant
set_grant-HandsNothing others id f s t h = record {
  ledger_of_others = h.ledger_of_others;
  same_owned = h.same_owned;
  same_entitlements = h.same_entitlements;
}

crossed_cases :
    (dir : Directory) (others : Ledger → Ledger) (m : Movement) (l : Ledger)
    → (crossed dir others m l ≡ l) ⊎ (crossed dir others m l ≡ others l)
unfolding crossed
crossed_cases dir others m l = elim (Option-cases (settled_by_key m.idempotency_key l)) [
  | inr (t, e) ↦ inl (rw (e, crossed) refl)
  | inl new ↦
      elim (Bool-cases
        (is_foreign (dir.currency_tenant m.currency_id) (dir.user_tenant m.user_id))) [
          | inl foreign ↦ inl (rw (new, foreign, crossed) refl)
          | inr reachable ↦ inr (rw (new, reachable, crossed) refl)
        ]
]

with_ledger-HandsNothing :
    (others : Ledger → Ledger) (l : Ledger) (s : Store)
    → (l ≡ s.shop.ledger) ⊎ (l ≡ others s.shop.ledger)
    → HandsNothing others s (with_ledger l s)
with_ledger-HandsNothing others l s h = record {
  ledger_of_others = h;
  same_owned = refl;
  same_entitlements = refl;
}

pub nothing_handed : (others : Ledger → Ledger) (s : Store) → HandsNothing others s s
nothing_handed others s = with_ledger-HandsNothing others s.shop.ledger s (inl refl)

crossed_grant-HandsNothing :
    (e : Session) (h : Handover) (s : Store)
    → HandsNothing e.others s (record s { shop = crossed_grant e h s.shop })
unfolding crossed_grant
crossed_grant-HandsNothing e h s =
    elim (Option-cases (find (owns h.user_id h.product_id) s.shop.owned)) [
      | inr (settled, p) ↦ rw (p, crossed_grant) (nothing_handed e.others s)
      | inl new ↦ elim (Option-cases (e.products h.product_id)) [
        | inl gone ↦ rw (new, gone, crossed_grant) (nothing_handed e.others s)
        | inr (item, q) ↦ elim (Option-cases (credits_of item)) [
          | inl unpaid ↦ rw (new, q, unpaid, crossed_grant) (nothing_handed e.others s)
          | inr ((amount, currency), c) ↦
              let m = credits_movement h item amount currency in
              simp (new, q, c, crossed_grant)
                (with_ledger-HandsNothing e.others (crossed e.directory e.others m s.shop.ledger) s
                  (crossed_cases e.directory e.others m s.shop.ledger))
        ]
      ]
    ]

pub rolled_back-HandsNothing :
    (type : BenefitType) (e : Session) (cat : Catalog) (b : SubscriptionBenefit) (g : BenefitGrant)
    (s : Store)
    → HandsNothing e.others s (rolled_back type e cat b g s)
unfolding rolled_back
rolled_back-HandsNothing access e cat b g s = nothing_handed e.others s
rolled_back-HandsNothing BenefitType.credit e cat b g s =
    elim (Option-cases (subscription_of b.subscription_id s)) [
      | inl gone ↦ rw (gone, rolled_back) (nothing_handed e.others s)
      | inr (r, p) ↦ elim (Option-cases (cat.plans r.plan_id)) [
        | inl gone ↦ rw (p, gone, rolled_back) (nothing_handed e.others s)
        | inr (plan, q) ↦ elim (Option-cases b.currency_id) [
          | inl gone ↦ rw (p, q, gone, rolled_back) (nothing_handed e.others s)
          | inr (currency, c) ↦
              let m = credit_movement r plan b currency g in
              simp (p, q, c, rolled_back)
                (with_ledger-HandsNothing e.others (crossed e.directory e.others m s.shop.ledger) s
                  (crossed_cases e.directory e.others m s.shop.ledger))
        ]
      ]
    ]
rolled_back-HandsNothing BenefitType.product e cat b g s =
    elim (Option-cases (subscription_of b.subscription_id s)) [
      | inl gone ↦ rw (gone, rolled_back) (nothing_handed e.others s)
      | inr (r, p) ↦ elim (Option-cases b.product_id) [
        | inl gone ↦ rw (p, gone, rolled_back) (nothing_handed e.others s)
        | inr (item, q) ↦
            rw (p, q, rolled_back) (crossed_grant-HandsNothing e (product_handover r item g) s)
      ]
    ]
