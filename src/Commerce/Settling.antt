-- ===== src/Commerce/Settling.antt =====
-- `settle_purchase` where nobody races it, and what a history of notices makes of a purchase.
use fastkit.Commerce.Owning.{Owned, grant-Owned}
use fastkit.Errors.{ok, Result, raise}
use fastkit.Base.Table.{update_where, find}
use fastkit.Base.Text.{Text}
use fastkit.Dates.{DateTime}
use fastkit.Base.{
  if◌then◌else◌, ◌≡◌, refl, ◌⊎◌, true, List, [], ◌∷◌, Bool-cases, ℕ, ◌≢◌, inl, inr, false, Option,
  none, some, arith, ◌∙◌, Bool, sym, ap,
}
use fastkit.Commerce.{
  is_settled, moves, PurchaseStatus, refunded, grant, same_status, change, named, handover_of,
  write_status, land, Purchase, Session, Shop, Handover, paid, owned_by, fault_of, or_raise,
  status_code, settle_purchase, UserProduct,
}

-- The status a purchase ends in after the notices of its gateway, in the order they are read.
abbrev pub after : PurchaseStatus → List PurchaseStatus → PurchaseStatus
after current [] = current
after current (word ∷ words) = after (if moves current word then word else current) words

abbrev pub Says : PurchaseStatus → List PurchaseStatus → Type 0
Says a [] = ⊥
Says a (b ∷ bs) = (a ≡ b) ⊎ Says a bs

refunded_stays : (word : PurchaseStatus) → moves refunded word ≡ false
unfolding moves
refunded_stays word = ground arith

refunded_heard : (c : PurchaseStatus) → (if moves c refunded then refunded else c) ≡ refunded
unfolding moves
refunded_heard c = ground arith

settled_stays :
    (c word : PurchaseStatus)
    → is_settled c ≡ true
    → is_settled (if moves c word then word else c) ≡ true
unfolding moves
settled_stays c word h = ground arith

settled_heard :
    (c word : PurchaseStatus)
    → is_settled word ≡ true
    → is_settled (if moves c word then word else c) ≡ true
unfolding moves
settled_heard c word h = ground arith

-- Money that went back is final: a purchase that is refunded stays so, whatever else is said of it.
pub after_refunded : (words : List PurchaseStatus) → after refunded words ≡ refunded
after_refunded [] = refl
after_refunded (word ∷ words) = rw (refunded_stays word) (after_refunded words)

-- A refund is heard in any order: wherever it stands among the notices, the purchase ends refunded.
pub after-refunded :
    (current : PurchaseStatus) (words : List PurchaseStatus)
    → Says refunded words
    → after current words ≡ refunded
after-refunded current [] h = elim h [ ]
after-refunded current (word ∷ words) (inl e) =
    rw (← e, refunded_heard current) (after_refunded words)
after-refunded current (word ∷ words) (inr h) =
    after-refunded (if moves current word then word else current) words h

-- What a gateway settled is never unsettled: a settled purchase ends settled.
pub after_settled :
    (current : PurchaseStatus) (words : List PurchaseStatus)
    → is_settled current ≡ true
    → is_settled (after current words) ≡ true
after_settled current [] h = h
after_settled current (word ∷ words) h =
    after_settled (if moves current word then word else current) words
      (settled_stays current word h)

-- One of the notices that settles is enough to settle.
pub after-settled :
    (current word : PurchaseStatus) (words : List PurchaseStatus)
    → is_settled word ≡ true
    → Says word words
    → is_settled (after current words) ≡ true
after-settled current word [] h says = elim says [ ]
after-settled current word (w ∷ words) h (inl e) =
    after_settled (if moves current w then w else current) words
      (settled_heard current w (rw (← e) h))
after-settled current word (w ∷ words) h (inr says) =
    after-settled (if moves current w then w else current) word words h says

-- The status that the row of a purchase holds.
abbrev pub status_in : ℕ → Shop → Option PurchaseStatus
status_in id s = elim (find (named id) s.purchases) [ none ↦ none | some p ↦ some p.status ]

pub purchases-grant :
    (e : Session) (h : Handover) (s : Shop) → (grant e h s).1.purchases ≡ s.purchases
unfolding grant
purchases-grant e h s = ground arith

find-change :
    (now : DateTime) (word : PurchaseStatus) (external : Option Text) (id : ℕ)
    (rows : List Purchase) {p : Purchase}
    → find (named id) rows ≡ some p
    → find (named id) (update_where (named id) (change now word external) rows)
      ≡ some (change now word external p)
unfolding change
find-change now word external id [] h = cc
find-change now word external id (q ∷ rows) {p} h =
    ground (arith, find-change now word external id rows {p = p})

find-change_ne :
    (now : DateTime) (word : PurchaseStatus) (external : Option Text) (id other_id : ℕ)
    (rows : List Purchase)
    → other_id ≢ id
    → find (named other_id) (update_where (named id) (change now word external) rows)
      ≡ find (named other_id) rows
unfolding change
find-change_ne now word external id other_id [] h = refl
find-change_ne now word external id other_id (q ∷ rows) h =
    ground (arith, find-change_ne now word external id other_id rows)

pub purchases-land :
    (e : Session) (p : Purchase) (word : PurchaseStatus) (external : Option Text) (s : Shop)
    → (land e p word external s).1.purchases
      ≡ update_where (named p.id) (change e.now word external) s.purchases
unfolding land write_status
purchases-land e p word external s = elim (Bool-cases (same_status word paid)) [
  | inl k ↦ rw k (purchases-grant e (handover_of p) (write_status e.now p word external s))
  | inr k ↦ rw k
]

pub same_status_self : (a : PurchaseStatus) → same_status a a ≡ true
unfolding status_code
same_status_self a = ground arith

-- What a landed move answers: the changed row, or the fault of handing the product over.
abbrev pub Landed :
    Session → Purchase → PurchaseStatus → Option Text → Result Purchase × Shop → Type 0
Landed e p word external (raise f, s) = word ≡ paid
Landed e p word external (ok q, s) =
    (q ≡ change e.now word external p) × (word ≡ paid → owned_by p.user_id p.product_id s ≡ true)

land-Landed :
    (e : Session) (p : Purchase) (word : PurchaseStatus) (external : Option Text) (s : Shop)
    → Landed e p word external (land e p word external s)
unfolding land status_code
land-Landed e p word external s = elim (Bool-cases (same_status word paid)) [
  | inl k ↦ rw k (
      by_grant (grant e (handover_of p) (write_status e.now p word external s))
        (grant-Owned e (handover_of p) (write_status e.now p word external s)) (ground arith))
  | inr k ↦ rw k (refl, λ same. absurd (not_same same k))
]
  where
    not_same : word ≡ paid → ¬ (same_status word paid ≡ false)
    not_same same k = cc (sym k ∙ ap (λ w. same_status w paid) same ∙ same_status_self paid)

    by_grant :
        (g : Result (UserProduct × Bool) × Shop)
        → Owned (handover_of p) g.0 g.1
        → word ≡ paid
        → Landed e p word external (or_raise (fault_of g.0) (change e.now word external p), g.1)
    by_grant (raise f, s') owned k = k
    by_grant (ok row, s') owned k = (refl, λ same. ground arith)

status-change :
    (now : DateTime) (word : PurchaseStatus) (external : Option Text) (p : Purchase)
    → (change now word external p).status ≡ word
unfolding change
status-change now word external p = refl

status-land :
    (e : Session) (p : Purchase) (word : PurchaseStatus) (external : Option Text) (s : Shop)
    → find (named p.id) s.purchases ≡ some p
    → status_in p.id (land e p word external s).1 ≡ some word
status-land e p word external s here =
    rw
      (
        purchases-land e p word external s,
        find-change e.now word external p.id s.purchases here,
        status_in,
      )
      (ap some (status-change e.now word external p))

others-land :
    (e : Session) (p : Purchase) (word : PurchaseStatus) (external : Option Text) (s : Shop)
    (id : ℕ)
    → id ≢ p.id
    → find (named id) (land e p word external s).1.purchases ≡ find (named id) s.purchases
others-land e p word external s id ne =
    rw (purchases-land e p word external s)
      (find-change_ne e.now word external p.id id s.purchases ne)

-- A notice that no other session crosses is read in one round. It moves the row exactly when the
-- status allows it, every other purchase keeps its row, a notice that moves nothing writes nothing,
-- and a purchase that became paid has its product owned, unless handing it over raised.
pub settle_purchase_quiet :
    (e : Session) (rest : List (Shop → Shop)) (p : Purchase) (word : PurchaseStatus)
    (external : Option Text) (s : Shop)
    → find (named p.id) s.purchases ≡ some p
    → (r : Result Purchase) × (s' : Shop) × (settle_purchase e ((λ k. k) ∷ rest) p word external s
        ≡ some (r, s'))
      × (status_in p.id s' ≡ some (if moves p.status word then word else p.status))
      × ((id : ℕ) → id ≢ p.id → find (named id) s'.purchases ≡ find (named id) s.purchases)
      × (moves p.status word ≡ false → (r ≡ ok p) × (s' ≡ s))
      × (moves p.status word ≡ true → Landed e p word external (r, s'))
unfolding settle_purchase
settle_purchase_quiet e rest p word external s here = elim (Bool-cases (moves p.status word)) [
  | inl m ↦ (
    (land e p word external s).0,
    (land e p word external s).1,
    rw (m, here, same_status_self p.status),
    rw m (status-land e p word external s here),
    others-land e p word external s,
    λ k. cc,
    λ k. land-Landed e p word external s,
  )
  | inr m ↦ (ok p, s, rw m, rw (here, m, status_in), λ id ne. refl, λ k. (refl, refl), λ k. cc)
]
