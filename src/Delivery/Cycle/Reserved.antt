-- ===== src/Delivery/Cycle/Reserved.antt =====
-- No two grants share a key, and no two hold one reservation: what the unique keys of the table
-- say, kept by every cycle, so that no write of the engine meets them.
use fastkit.Delivery.Evidence.{policy_allows}
use fastkit.Delivery.Schedule.{grant_key}
use fastkit.Delivery.Handing.{deliver}
use fastkit.Base.Text.{text_eq, Text}
use fastkit.Commerce.{Session}
use fastkit.Base.Table.{find}
use fastkit.Dates.{DateTime}
use fastkit.Base.{
  Option-cases, ℕ, ◌≡◌, refl, inl, inr, false, none, List, [], ◌∷◌, arith, Bool-cases, sym, subst,
}
use fastkit.Delivery.{
  BenefitGrant, Store, grant_of, SubscriptionBenefit, Catalog, GrantError, withheld_by_plan_policy,
  held_already,
}
use fastkit.Delivery.Handing.Rows.{deliver-Rewritten}
use fastkit.Delivery.Handing.Kept.{Rewritten, Kept}
use fastkit.Delivery.Cycle.{
  advance, is_identity, settled, skip_cycle, advance_by_id, open_cycle, reservation, run_cycle,
  fresh_grant, skipped_with,
}

abbrev pub UniqueGrants : List BenefitGrant → Type 0
UniqueGrants [] = Unit
UniqueGrants (g ∷ gs) = (find (is_identity g) gs ≡ none) × UniqueGrants gs

identity-Kept :
    (g h k l : BenefitGrant)
    → Kept g h
    → Kept k l
    → is_identity g k ≡ false
    → is_identity h l ≡ false
identity-Kept g h k l p q e = ground arith

absent-Kept :
    (g h : BenefitGrant) (ks ls : List BenefitGrant)
    → Kept g h
    → Rewritten ks ls
    → find (is_identity g) ks ≡ none
    → find (is_identity h) ls ≡ none
absent-Kept g h [] [] p r e = refl
absent-Kept g h [] (l ∷ ls) p r e = elim r [ ]
absent-Kept g h (k ∷ ks) [] p r e = elim r [ ]
absent-Kept g h (k ∷ ks) (l ∷ ls) p r e =
    ground (arith, identity-Kept g h k l p r.0, absent-Kept g h ks ls p r.1)

pub UniqueGrants-Rewritten :
    (gs hs : List BenefitGrant) → Rewritten gs hs → UniqueGrants gs → UniqueGrants hs
UniqueGrants-Rewritten [] [] r u = tt
UniqueGrants-Rewritten [] (h ∷ hs) r u = elim r [ ]
UniqueGrants-Rewritten (g ∷ gs) [] r u = elim r [ ]
UniqueGrants-Rewritten (g ∷ gs) (h ∷ hs) r u =
    (absent-Kept g h gs hs r.0 r.1 u.0, UniqueGrants-Rewritten gs hs r.1 u.1)

pub grants-advance :
    (now : DateTime) (id : ℕ) (g : BenefitGrant) (s : Store)
    → (advance now id g s).grants ≡ s.grants
unfolding advance
grants-advance now id g s = ground arith

settled-UniqueGrants :
    (g : BenefitGrant) (s : Store) → UniqueGrants s.grants → UniqueGrants (settled g s).2.grants
unfolding settled
settled-UniqueGrants g s u = elim (Option-cases (find (is_identity g) s.grants)) [
  | inl new ↦ rw (new, settled) (new, u)
  | inr (w, p) ↦ rw (p, settled) u
]

pub advance_by_id-grants :
    (now : DateTime) (id grant_id : ℕ) (s : Store)
    → (advance_by_id now id grant_id s).grants ≡ s.grants
advance_by_id-grants now id grant_id s = elim (Option-cases (grant_of grant_id s)) [
  | inl gone ↦ rw (gone, advance_by_id)
  | inr (g, p) ↦ rw (p, advance_by_id) (grants-advance now id g s)
]

open_cycle-UniqueGrants :
    (e : Session) (cat : Catalog) (id : ℕ) (g : BenefitGrant) (s : Store)
    → UniqueGrants s.grants
    → UniqueGrants (open_cycle e cat id g s).1.grants
unfolding open_cycle
open_cycle-UniqueGrants e cat id g s u = elim (Bool-cases (settled g s).1) [
  | inr theirs ↦ rw (theirs, open_cycle) (settled-UniqueGrants g s u)
  | inl ours ↦
      let s' = (settled g s).2 in
      let t = deliver e cat id g.id s' in
      rw (ours, open_cycle)
        (subst UniqueGrants (sym (advance_by_id-grants e.now id g.id t)) (
          UniqueGrants-Rewritten s'.grants t.grants (deliver-Rewritten e cat id g.id s')
            (settled-UniqueGrants g s u)))
]

skip_cycle-UniqueGrants :
    (now : DateTime) (id : ℕ) (g : BenefitGrant) (reason : GrantError) (s : Store)
    → UniqueGrants s.grants
    → UniqueGrants (skip_cycle now id g reason s).1.grants
unfolding skip_cycle
skip_cycle-UniqueGrants now id g reason s u =
    let g' = skipped_with now reason g in
    settled-UniqueGrants g' (advance now id g' s)
      (subst UniqueGrants (sym (grants-advance now id g' s)) u)

-- A cycle leaves no two grants of one key and no two grants that hold one reservation, however many
-- subscriptions owe the benefit and whatever the cycle ends in.
pub run_cycle-UniqueGrants :
    (e : Session) (cat : Catalog) (b : SubscriptionBenefit) (key : Text) (slot : DateTime)
    (s : Store)
    → UniqueGrants s.grants
    → UniqueGrants (run_cycle e cat b key slot s).1.grants
unfolding run_cycle
run_cycle-UniqueGrants e cat b key slot s u =
    elim (Option-cases (find (λ g. text_eq g.grant_key (grant_key b.id key)) s.grants)) [
      | inr (g, p) ↦ rw (p, run_cycle) (subst UniqueGrants (sym (grants-advance e.now b.id g s)) u)
      | inl new ↦
          let g = fresh_grant e.now b key slot s in
          elim (Bool-cases (reservation b s).1) [
            | inl is_held ↦
                rw (new, is_held, run_cycle) (skip_cycle-UniqueGrants e.now b.id g held_already s u)
            | inr free ↦ elim (Bool-cases (policy_allows cat b s)) [
              | inr withheld ↦
                  rw (new, free, withheld, run_cycle)
                    (skip_cycle-UniqueGrants e.now b.id g withheld_by_plan_policy s u)
              | inl allowed ↦
                  rw (new, free, allowed, run_cycle)
                    (open_cycle-UniqueGrants e cat b.id
                      (record g { user_benefit_key = (reservation b s).0 }) s u)
            ]
          ]
    ]
