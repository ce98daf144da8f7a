-- ===== src/Delivery/Cycle/Replay.antt =====
-- A cycle that ran once runs no second time: what a replay of `run_cycle` leaves alone.
use fastkit.Delivery.Evidence.{policy_allows}
use fastkit.Delivery.Cycle.Reserved.{advance_by_id-grants, grants-advance}
use fastkit.Delivery.Schedule.{grant_key}
use fastkit.Delivery.Handing.{deliver}
use fastkit.Commerce.{Session}
use fastkit.Base.Table.{find}
use fastkit.Dates.{DateTime}
use fastkit.Base.Text.{text_eq, Text, text_eq_self}
use fastkit.Base.{
  Bool-cases, ℕ, ◌≡◌, refl, inl, inr, Bool, none, some, List, [], ◌∷◌, arith, Option-cases, sym,
  subst, false,
}
use fastkit.Delivery.{
  advances, BenefitGrant, Store, SubscriptionBenefit, Catalog, GrantError, withheld_by_plan_policy,
}
use fastkit.Delivery.Handing.Atomic.{SameHoldings-refl, SameHoldings}
use fastkit.Delivery.Handing.Rows.{deliver-Rewritten}
use fastkit.Delivery.Handing.Kept.{Rewritten}
use fastkit.Delivery.Cycle.{
  advance, settled, is_identity, insert_grant, fresh_grant, skipped_with, skip_cycle, open_cycle,
  is_once_per_user, reservation, run_cycle,
}

abbrev pub has_grant_key : Text → BenefitGrant → Bool
has_grant_key key g = text_eq g.grant_key key

-- A grant of the key is among the rows.
abbrev pub Names : Text → List BenefitGrant → Type 0
Names key gs = (g : BenefitGrant) × (find (has_grant_key key) gs ≡ some g)

Names-Rewritten :
    (key : Text) (gs hs : List BenefitGrant) → Rewritten gs hs → Names key gs → Names key hs
Names-Rewritten key [] hs r (g, p) = cc
Names-Rewritten key (g ∷ gs) [] r n = elim r [ ]
Names-Rewritten key (g ∷ gs) (h ∷ hs) r (k, p) = elim (Bool-cases (has_grant_key key h)) [
  | inl e ↦ (h, rw e refl)
  | inr e ↦
      let (m, q) = Names-Rewritten key gs hs r.1 (k, ground (arith, r.0.same_key)) in (m, rw e q)
]

-- A grant that holds no reservation is written, or a grant of its key was there.
Names-settled :
    (g : BenefitGrant) (s : Store)
    → g.user_benefit_key ≡ none
    → Names g.grant_key (settled g s).2.grants
unfolding settled insert_grant
Names-settled g s free = elim (Option-cases (find (is_identity g) s.grants)) [
  | inl new ↦ rw (new, settled) (g, rw (text_eq_self g.grant_key) refl)
  | inr (w, p) ↦ rw (p, settled) (w, rows s.grants p)
]
  where
    same : (r : BenefitGrant) → is_identity g r ≡ has_grant_key g.grant_key r
    same r = rw free (ground arith)

    rows :
        (rs : List BenefitGrant) {w : BenefitGrant}
        → find (is_identity g) rs ≡ some w
        → find (has_grant_key g.grant_key) rs ≡ some w
    rows [] e = cc
    rows (r ∷ rs) {w} e = ground (arith, same r, rows rs {w = w})

advance-SameHoldings :
    (now : DateTime) (id : ℕ) (g : BenefitGrant) (s : Store) → SameHoldings s (advance now id g s)
unfolding advance
advance-SameHoldings now id g s = elim (Bool-cases (advances g.status)) [
  | inl e ↦
      rw (e, advance) (record { same_ledger = refl; same_owned = refl; same_entitlements = refl })
  | inr e ↦ rw (e, advance) (SameHoldings-refl s)
]

-- The rows of a benefit, which no cycle renames.
Names-skip :
    (now : DateTime) (id : ℕ) (g : BenefitGrant) (reason : GrantError) (s : Store)
    → g.user_benefit_key ≡ none
    → Names g.grant_key (skip_cycle now id g reason s).1.grants
unfolding skip_cycle
Names-skip now id g reason s free =
    Names-settled (skipped_with now reason g) (advance now id (skipped_with now reason g) s) free

Names-open :
    (e : Session) (cat : Catalog) (id : ℕ) (g : BenefitGrant) (s : Store)
    → g.user_benefit_key ≡ none
    → Names g.grant_key (open_cycle e cat id g s).1.grants
unfolding open_cycle
Names-open e cat id g s free = elim (Bool-cases (settled g s).1) [
  | inr theirs ↦ rw (theirs, open_cycle) (Names-settled g s free)
  | inl ours ↦
      let s' = (settled g s).2 in
      let t = deliver e cat id g.id s' in
      rw (ours, open_cycle)
        (subst (Names g.grant_key) (sym (advance_by_id-grants e.now id g.id t)) (
          Names-Rewritten g.grant_key s'.grants t.grants (deliver-Rewritten e cat id g.id s')
            (Names-settled g s free)))
]

free_reservation :
    (b : SubscriptionBenefit) (s : Store)
    → is_once_per_user b.cadence ≡ false
    → reservation b s ≡ (none, false)
unfolding reservation
free_reservation b s many = rw (many, reservation) refl

-- A cycle leaves a grant of its key, whatever it ended in.
Names-run_cycle :
    (e : Session) (cat : Catalog) (b : SubscriptionBenefit) (key : Text) (slot : DateTime)
    (s : Store)
    → is_once_per_user b.cadence ≡ false
    → Names (grant_key b.id key) (run_cycle e cat b key slot s).1.grants
unfolding run_cycle fresh_grant
Names-run_cycle e cat b key slot s many =
    elim (Option-cases (find (has_grant_key (grant_key b.id key)) s.grants)) [
      | inr (g, p) ↦
          rw (p, run_cycle)
            (subst (Names (grant_key b.id key)) (sym (grants-advance e.now b.id g s)) (g, p))
      | inl new ↦
          let g = fresh_grant e.now b key slot s in
          elim (Bool-cases (policy_allows cat b s)) [
            | inr withheld ↦
                rw (new, free_reservation b s many, withheld, run_cycle)
                  (Names-skip e.now b.id g withheld_by_plan_policy s refl)
            | inl allowed ↦
                rw (new, free_reservation b s many, allowed, run_cycle)
                  (Names-open e cat b.id g s refl)
          ]
    ]

named_already :
    (e : Session) (cat : Catalog) (b : SubscriptionBenefit) (key : Text) (slot : DateTime)
    (s : Store)
    → Names (grant_key b.id key) s.grants
    → SameHoldings s (run_cycle e cat b key slot s).1
      × ((run_cycle e cat b key slot s).1.grants ≡ s.grants)
unfolding run_cycle
named_already e cat b key slot s (g, p) =
    rw (p, run_cycle) (advance-SameHoldings e.now b.id g s, grants-advance e.now b.id g s)

-- A cycle of a benefit that is not once per person, run again at any later state of the catalogue
-- and the clock, and with what the benefit says then, hands nothing over and writes no grant: the
-- ledger, what is owned, the rights and the grants stay as the first run left them.
pub run_cycle_replay :
    (e e' : Session) (cat cat' : Catalog) (b b' : SubscriptionBenefit) (key : Text)
    (slot slot' : DateTime) (s : Store)
    → is_once_per_user b.cadence ≡ false
    → b'.id ≡ b.id
    → let t = (run_cycle e cat b key slot s).1 in
      SameHoldings t (run_cycle e' cat' b' key slot' t).1
      × ((run_cycle e' cat' b' key slot' t).1.grants ≡ t.grants)
run_cycle_replay e e' cat cat' b b' key slot slot' s many own =
    let t = (run_cycle e cat b key slot s).1 in
    named_already e' cat' b' key slot' t (
      subst (λ i. Names (grant_key i key) t.grants) (sym own)
        (Names-run_cycle e cat b key slot s many))
