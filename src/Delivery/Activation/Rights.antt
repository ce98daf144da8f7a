-- ===== src/Delivery/Activation/Rights.antt =====
-- What `reconcile_entitlements` leaves a subscription with: the rights of its plan, and no others.
use fastkit.Base.{
  ◌==◌, ==_iff, Bool-cases, Option-cases, ℕ, ◌≡◌, refl, ◌∙◌, subst, inl, inr, Bool, true, false,
  some, List, [], ◌∷◌, arith, ==_self, none, if◌then◌else◌, sym, ap,
}
use fastkit.Base.Table.{
  find, update_where, exists, find-holds, find-update_where, All, exists_some, exists_none,
  All-update_where, All-every,
}
use fastkit.Dates.{DateTime}
use fastkit.Delivery.{Subscription, UserEntitlement, Store, expired, UserEntitlementStatus}
use fastkit.Delivery.Activation.{
  contains, is_right, renew, expire, promise, promise_all, is_surplus, reconcile_entitlements,
  fresh_right,
}

abbrev pub is_active_right : UserEntitlementStatus → Bool
is_active_right UserEntitlementStatus.active = true
is_active_right expired = false

-- A right of the subscription that is on until its access ends.
abbrev pub Promised : Subscription → ℕ → List UserEntitlement → Type 0
Promised r id us =
    (u : UserEntitlement) × (find (is_right r.id id) us ≡ some u)
    × (u.status ≡ UserEntitlementStatus.active)
    × (u.expires_at ≡ r.access_until)

renew_or_leave :
    (r : Subscription) (id other : ℕ) (us : List UserEntitlement)
    → Promised r id us
    → Promised r id (update_where (is_right r.id other) (renew r) us)
renew_or_leave r id other us (u, p, on, until) =
    let met =
      find-update_where (is_right r.id id) (is_right r.id other) (renew r) us (λ x. refl) p in
    elim (Bool-cases (is_right r.id other u)) [
      | inl e ↦ (renew r u, ground (arith, met), refl, refl)
      | inr e ↦ (u, ground (arith, met), on, until)
    ]

Promised-promise_other :
    (now : DateTime) (r : Subscription) (id other : ℕ) (s : Store)
    → Promised r id s.entitlements
    → Promised r id (promise now r other s).entitlements
unfolding promise
Promised-promise_other now r id other s h =
    elim (Bool-cases (exists (is_right r.id other) s.entitlements)) [
      | inl e ↦ rw (e, promise) (renew_or_leave r id other s.entitlements h)
      | inr e ↦
          let new = fresh_right now r other s in
          rw (e, promise)
            (elim (Bool-cases (is_right r.id id new)) [
              | inl own ↦ (new, rw own refl, refl, refl)
              | inr foreign ↦ (h.0, rw foreign h.1, h.2, h.3)
            ])
    ]

Promised-promise :
    (now : DateTime) (r : Subscription) (id : ℕ) (s : Store)
    → Promised r id (promise now r id s).entitlements
unfolding promise
Promised-promise now r id s = elim (Option-cases (find (is_right r.id id) s.entitlements)) [
  | inl e ↦
      rw (exists_none (is_right r.id id) s.entitlements e, promise)
        (fresh_right now r id s, rw (==_self r.id, ==_self id) refl, refl, refl)
  | inr (u, e) ↦
      let own = find-holds (is_right r.id id) s.entitlements e in
      let met =
        find-update_where (is_right r.id id) (is_right r.id id) (renew r) s.entitlements (λ x. refl)
          e in
      rw (exists_some (is_right r.id id) s.entitlements e, promise)
        (renew r u, ground (arith, met, own), refl, refl)
]

Promised-promise_all_other :
    (now : DateTime) (r : Subscription) (id : ℕ) (ids : List ℕ) (s : Store)
    → Promised r id s.entitlements
    → Promised r id (promise_all now r ids s).entitlements
unfolding promise_all
Promised-promise_all_other now r id [] s h = h
Promised-promise_all_other now r id (i ∷ ids) s h =
    Promised-promise_all_other now r id ids (promise now r i s)
      (Promised-promise_other now r id i s h)

Promised-promise_all :
    (now : DateTime) (r : Subscription) (id : ℕ) (ids : List ℕ) (s : Store)
    → contains id ids ≡ true
    → Promised r id (promise_all now r ids s).entitlements
unfolding promise_all
Promised-promise_all now r id [] s h = absurd (ground arith)
Promised-promise_all now r id (i ∷ ids) s h = elim (Bool-cases (i == id)) [
  | inl e ↦ Promised-promise_all_other now r id ids (promise now r i s) (
      subst (λ k. Promised r k (promise now r i s).entitlements) ((==_iff i id).0 e)
        (Promised-promise now r i s))
  | inr e ↦ Promised-promise_all now r id ids (promise now r i s) (ground arith)
]

-- When the rights of a subscription are reconciled with its plan, each entitlement that the plan
-- names is a right of the subscription, on and until the end of its access.
pub reconcile_entitlements_grants :
    (now : DateTime) (r : Subscription) (id : ℕ) (promised : List ℕ) (s : Store)
    → contains id promised ≡ true
    → Promised r id (reconcile_entitlements now r promised s).entitlements
unfolding reconcile_entitlements
reconcile_entitlements_grants now r id promised s h =
    let (u, p, on, until) = Promised-promise_all now r id promised s h in
    let rows = (promise_all now r promised s).entitlements in
    let own = find-holds (is_right r.id id) rows p in
    let met =
      find-update_where (is_right r.id id) (is_surplus r.id promised) expire rows (λ x. refl) p in
    let kept : is_surplus r.id promised u ≡ false = ground (arith, own, h) in
    let found =
      subst
        (λ b.
          find (is_right r.id id) (update_where (is_surplus r.id promised) expire rows)
          ≡ some (if b then expire u else u))
        kept met in
    (u, found, on, until)

-- A right of the subscription is on where its plan names it, and nowhere else.
abbrev pub Settled : Subscription → List ℕ → UserEntitlement → Type 0
Settled r promised u =
    u.subscription_id ≡ r.id → is_active_right u.status ≡ contains u.entitlement_id promised

-- Every right of the subscription to one entitlement is on.
abbrev On : ℕ → ℕ → UserEntitlement → Type 0
On subscription id u = is_right subscription id u ≡ true → u.status ≡ UserEntitlementStatus.active

absent_On :
    (subscription id : ℕ) (us : List UserEntitlement)
    → find (is_right subscription id) us ≡ none
    → All (On subscription id) us
absent_On subscription id [] e = tt
absent_On subscription id (u ∷ us) e = elim (Bool-cases (is_right subscription id u)) [
  | inl own ↦ absurd (ground arith)
  | inr foreign ↦ (λ own. cc, absent_On subscription id us (ground arith))
]

On-promise :
    (now : DateTime) (r : Subscription) (id : ℕ) (s : Store)
    → All (On r.id id) (promise now r id s).entitlements
unfolding promise
On-promise now r id s = elim (Option-cases (find (is_right r.id id) s.entitlements)) [
  | inl e ↦
      rw (exists_none (is_right r.id id) s.entitlements e, promise)
        (λ own. refl, absent_On r.id id s.entitlements e)
  | inr (u, e) ↦
      rw (exists_some (is_right r.id id) s.entitlements e, promise)
        (All-update_where (λ x. Unit {0}) (On r.id id) (is_right r.id id) (renew r) s.entitlements
          (λ x met any own. refl) (λ x missed any own. cc)
          (All-every (λ x. Unit {0}) s.entitlements (λ x. tt)))
]

On-promise_other :
    (now : DateTime) (r : Subscription) (id other : ℕ) (s : Store)
    → All (On r.id id) s.entitlements
    → All (On r.id id) (promise now r other s).entitlements
unfolding promise
On-promise_other now r id other s on =
    elim (Bool-cases (exists (is_right r.id other) s.entitlements)) [
      | inl e ↦
          rw (e, promise)
            (All-update_where (On r.id id) (On r.id id) (is_right r.id other) (renew r)
              s.entitlements (λ x met any own. refl) (λ x missed any own. any own) on)
      | inr e ↦ rw (e, promise) (λ own. refl, on)
    ]

On-promise_all_other :
    (now : DateTime) (r : Subscription) (id : ℕ) (ids : List ℕ) (s : Store)
    → All (On r.id id) s.entitlements
    → All (On r.id id) (promise_all now r ids s).entitlements
unfolding promise_all
On-promise_all_other now r id [] s on = on
On-promise_all_other now r id (i ∷ ids) s on =
    On-promise_all_other now r id ids (promise now r i s) (On-promise_other now r id i s on)

On-promise_all :
    (now : DateTime) (r : Subscription) (id : ℕ) (ids : List ℕ) (s : Store)
    → contains id ids ≡ true
    → All (On r.id id) (promise_all now r ids s).entitlements
unfolding promise_all
On-promise_all now r id [] s h = absurd (ground arith)
On-promise_all now r id (i ∷ ids) s h = elim (Bool-cases (i == id)) [
  | inl e ↦ On-promise_all_other now r id ids (promise now r i s) (
      subst (λ k. All (On r.id k) (promise now r i s).entitlements) ((==_iff i id).0 e)
        (On-promise now r i s))
  | inr e ↦ On-promise_all now r id ids (promise now r i s) (ground arith)
]

settle_rows :
    (r : Subscription) (promised : List ℕ) (us : List UserEntitlement)
    → ((id : ℕ) → contains id promised ≡ true → All (On r.id id) us)
    → All (Settled r promised) (update_where (is_surplus r.id promised) expire us)
settle_rows r promised [] on = tt
settle_rows r promised (u ∷ us) on =
    let rest = settle_rows r promised us (λ id h. (on id h).1) in
    elim (Bool-cases (is_surplus r.id promised u)) [
      | inl surplus ↦ rw surplus (λ own. ground arith, rest)
      | inr kept ↦ rw kept (λ own. kept_on own kept, rest)
    ]
  where
    kept_on :
        u.subscription_id ≡ r.id
        → is_surplus r.id promised u ≡ false
        → is_active_right u.status ≡ contains u.entitlement_id promised
    kept_on own kept =
        let named : contains u.entitlement_id promised ≡ true = ground arith in
        let right : is_right r.id u.entitlement_id u ≡ true = ground arith in
        ap is_active_right ((on u.entitlement_id named).0 right) ∙ sym named

-- When the rights of a subscription are reconciled with its plan, each right of the subscription is
-- on if the plan names its entitlement and off if it does not: a right that another plan gave is
-- taken back, and one that was off comes back.
pub reconcile_entitlements-Settled :
    (now : DateTime) (r : Subscription) (promised : List ℕ) (s : Store)
    → All (Settled r promised) (reconcile_entitlements now r promised s).entitlements
unfolding reconcile_entitlements
reconcile_entitlements-Settled now r promised s =
    settle_rows r promised (promise_all now r promised s).entitlements
      (λ id h. On-promise_all now r id promised s h)
