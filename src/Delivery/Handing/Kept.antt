-- ===== src/Delivery/Handing/Kept.antt =====
-- Rows of grants, and the rows that they were written over with.
use fastkit.Base.Table.{update_where}
use fastkit.Base.{◌==◌, Bool-cases, ℕ, ◌≡◌, refl, ◌∙◌, ◌⊎◌, inl, inr, none, List, [], ◌∷◌}
use fastkit.Delivery.{BenefitGrant, Store}
use fastkit.Delivery.Handing.{set_grant}

-- A row and what it was written over with.
pub record Kept (g h : BenefitGrant) : Type 0 where
  pub same_id : h.id ≡ g.id
  pub same_key : h.grant_key ≡ g.grant_key
  pub same_cycle : h.cycle ≡ g.cycle
  pub same_slot : h.scheduled_at ≡ g.scheduled_at
  pub same_attempts : h.attempts ≡ g.attempts
  pub reserved : (h.user_benefit_key ≡ g.user_benefit_key) ⊎ (h.user_benefit_key ≡ none)

abbrev pub Rewritten : List BenefitGrant → List BenefitGrant → Type 0
Rewritten [] [] = Unit
Rewritten (g ∷ gs) (h ∷ hs) = Kept g h × Rewritten gs hs
Rewritten _ _ = ⊥

pub Kept-refl : (g : BenefitGrant) → Kept g g
Kept-refl g = record {
  same_id = refl;
  same_key = refl;
  same_cycle = refl;
  same_slot = refl;
  same_attempts = refl;
  reserved = inl refl;
}

Kept-trans : (g h k : BenefitGrant) → Kept g h → Kept h k → Kept g k
Kept-trans g h k p q = record {
  same_id = q.same_id ∙ p.same_id;
  same_key = q.same_key ∙ p.same_key;
  same_cycle = q.same_cycle ∙ p.same_cycle;
  same_slot = q.same_slot ∙ p.same_slot;
  same_attempts = q.same_attempts ∙ p.same_attempts;
  reserved = elim q.reserved [
    | inr gone ↦ inr gone
    | inl e ↦ elim p.reserved [ inl d ↦ inl (e ∙ d) | inr d ↦ inr (e ∙ d) ]
  ];
}

pub Rewritten-refl : (gs : List BenefitGrant) → Rewritten gs gs
Rewritten-refl [] = tt
Rewritten-refl (g ∷ gs) = (Kept-refl g, Rewritten-refl gs)

pub Rewritten-trans :
    (fs gs hs : List BenefitGrant) → Rewritten fs gs → Rewritten gs hs → Rewritten fs hs
Rewritten-trans [] [] [] p q = tt
Rewritten-trans [] [] (h ∷ hs) p q = elim q [ ]
Rewritten-trans [] (g ∷ gs) hs p q = elim p [ ]
Rewritten-trans (f ∷ fs) [] hs p q = elim p [ ]
Rewritten-trans (f ∷ fs) (g ∷ gs) [] p q = elim q [ ]
Rewritten-trans (f ∷ fs) (g ∷ gs) (h ∷ hs) p q =
    (Kept-trans f g h p.0 q.0, Rewritten-trans fs gs hs p.1 q.1)

pub Rewritten-set_grant :
    (id : ℕ) (f : BenefitGrant → BenefitGrant) (s : Store)
    → ((g : BenefitGrant) → Kept g (f g))
    → Rewritten s.grants (set_grant id f s).grants
unfolding set_grant
Rewritten-set_grant id f s keeps = rows s.grants
  where
    rows : (gs : List BenefitGrant) → Rewritten gs (update_where (λ g. g.id == id) f gs)
    rows [] = tt
    rows (g ∷ gs) = elim (Bool-cases (g.id == id)) [
      | inl e ↦ rw e (keeps g, rows gs)
      | inr e ↦ rw e (Kept-refl g, rows gs)
    ]
