-- ===== src/Delivery/Passes/Unique.antt =====
-- What `process_due` keeps of the table of the grants.
use fastkit.Base.{Option-cases, ℕ, inl, inr, List, [], ◌∷◌}
use fastkit.Commerce.{Session}
use fastkit.Delivery.{benefit_of, SubscriptionBenefit, Catalog, Store}
use fastkit.Delivery.Schedule.{resolve_due_slot, cycle_key}
use fastkit.Delivery.Cycle.Reserved.{UniqueGrants, run_cycle-UniqueGrants}
use fastkit.Delivery.Passes.{limit, due_batch, due_of, deliver_due, deliver_each_due, process_due}

deliver_due-UniqueGrants :
    (e : Session) (cat : Catalog) (id : ℕ) (s : Store)
    → UniqueGrants s.grants
    → UniqueGrants (deliver_due e cat id s).grants
unfolding deliver_due
deliver_due-UniqueGrants e cat id s u = elim (Option-cases (benefit_of id s)) [
  | inl gone ↦ rw (gone, deliver_due) u
  | inr (b, p) ↦ elim (Option-cases b.next_grant_at) [
    | inl undated ↦ rw (p, undated, deliver_due) u
    | inr (next, q) ↦ elim (Option-cases (resolve_due_slot e.now b next).0) [
      | inl nothing ↦ rw (p, q, nothing, deliver_due) u
      | inr (slot, r) ↦
          rw (p, q, r, deliver_due) (run_cycle-UniqueGrants e cat b (cycle_key slot) slot s u)
    ]
  ]
]

-- A pass over the benefits that are due leaves no two grants of one key and no two that hold one
-- reservation.
pub process_due-UniqueGrants :
    (e : Session) (cat : Catalog) (s : Store)
    → UniqueGrants s.grants
    → UniqueGrants (process_due e cat s).grants
unfolding process_due deliver_each_due
process_due-UniqueGrants e cat s u = each (limit due_batch (due_of e.now s.benefits s)) s u
  where
    each :
        (bs : List SubscriptionBenefit) (s : Store)
        → UniqueGrants s.grants
        → UniqueGrants (deliver_each_due e cat bs s).grants
    each [] s u = u
    each (b ∷ bs) s u = each bs (deliver_due e cat b.id s) (deliver_due-UniqueGrants e cat b.id s u)
