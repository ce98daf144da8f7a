-- ===== src/Commerce/Owning.antt =====
-- `grant`: a product is one row of its owner, whatever paid for it, and its credits are paid with
-- it.
use fastkit.Ledger.Replay.{move-IsConsistent}
use fastkit.Errors.{ok, Fault, Result, raise}
use fastkit.Ledger.Invariant.{IsConsistent}
use fastkit.Base.Table.{find}
use fastkit.Ledger.{Ledger}
use fastkit.Base.{
  Option-cases, ◌≡◌, inl, inr, Bool, false, none, List, [], ◌∷◌, subst, true, Option, some, arith,
}
use fastkit.Commerce.{
  owns, credits_of, grant, UserProduct, Session, Shop, Handover, owned_row, write_owned,
  credits_movement, pay_credits, Product, or_raise,
}

-- No product is owned twice by one account.
abbrev pub UniqueOwned : List UserProduct → Type 0
UniqueOwned [] = Unit
UniqueOwned (p ∷ ps) = (find (owns p.user_id p.product_id) ps ≡ none) × UniqueOwned ps

pub record IsSound (s : Shop) : Type 0 where
  pub consistent : IsConsistent s.ledger
  pub unique : UniqueOwned s.owned

owned-pay_credits :
    (e : Session) (h : Handover) (p : Product) (s : Shop) → (pay_credits e h p s).1.owned ≡ s.owned
unfolding pay_credits
owned-pay_credits e h p s = ground arith

pay_credits-IsSound :
    (e : Session) (h : Handover) (p : Product) (s : Shop)
    → ((l : Ledger) → IsConsistent l → IsConsistent (e.others l))
    → IsSound s
    → IsSound (pay_credits e h p s).1
unfolding pay_credits
pay_credits-IsSound e h p s keep sound = elim (Option-cases (credits_of p)) [
  | inl free ↦ rw (free, pay_credits) sound
  | inr (credits, q) ↦
      rw (q, pay_credits)
        (record {
          consistent =
              move-IsConsistent e.directory e.others (credits_movement h p credits.0 credits.1)
                s.ledger keep sound.consistent;
          unique = sound.unique;
        })
]

write_owned-IsSound :
    (e : Session) (h : Handover) (s : Shop)
    → find (owns h.user_id h.product_id) s.owned ≡ none
    → IsSound s
    → IsSound (write_owned e h s)
unfolding write_owned
write_owned-IsSound e h s new sound = record {
  consistent = sound.consistent;
  unique = (new, sound.unique);
}

-- Where no product was owned twice and the ledger was consistent, so it is after `grant`, whatever
-- ends the call, if the other sessions keep a ledger consistent while it waits.
pub grant-IsSound :
    (e : Session) (h : Handover) (s : Shop)
    → ((l : Ledger) → IsConsistent l → IsConsistent (e.others l))
    → IsSound s
    → IsSound (grant e h s).1
unfolding grant
grant-IsSound e h s keep sound = elim (Option-cases (find (owns h.user_id h.product_id) s.owned)) [
  | inr (row, p) ↦ rw (p, grant) sound
  | inl new ↦
      let written = write_owned-IsSound e h s new sound in
      elim (Option-cases (e.products h.product_id)) [
        | inl missing ↦ rw (new, missing, grant) written
        | inr (product, p) ↦
            rw (new, p, grant) (pay_credits-IsSound e h product (write_owned e h s) keep written)
      ]
]

-- What `grant` leaves of the question who owns the product, where it raised nothing.
abbrev pub Owned : Handover → Result (UserProduct × Bool) → Shop → Type 0
Owned h (raise f) s = Unit {0}
Owned h (ok (row, given)) s = find (owns h.user_id h.product_id) s.owned ≡ some row

find-write_owned :
    (e : Session) (h : Handover) (s : Shop)
    → find (owns h.user_id h.product_id) (write_owned e h s).owned ≡ some (owned_row e h s)
unfolding write_owned
find-write_owned e h s = ground arith

pub grant-Owned : (e : Session) (h : Handover) (s : Shop) → Owned h (grant e h s).0 (grant e h s).1
unfolding grant
grant-Owned e h s = elim (Option-cases (find (owns h.user_id h.product_id) s.owned)) [
  | inr (row, p) ↦ rw (p, grant) p
  | inl new ↦ elim (Option-cases (e.products h.product_id)) [
    | inl missing ↦ rw (new, missing, grant) tt
    | inr (product, p) ↦
        rw (new, p, grant) (by_fault product (pay_credits e h product (write_owned e h s)).0)
  ]
]
  where
    by_fault :
        (p : Product) (fault : Option Fault)
        → Owned h (or_raise fault (owned_row e h s, true)) (pay_credits e h p (write_owned e h s)).1
    by_fault p none = rw (owned-pay_credits e h p (write_owned e h s)) (find-write_owned e h s)
    by_fault p (some f) = tt

-- A product is handed over once: a call that succeeded leaves the product owned, and any later call
-- for the same owner and product answers the same row, hands nothing over and writes nothing.
pub grant_again :
    (e e' : Session) (h h' : Handover) (s : Shop) {row : UserProduct} {given : Bool} {s' : Shop}
    → grant e h s ≡ (ok (row, given), s')
    → h'.user_id ≡ h.user_id
    → h'.product_id ≡ h.product_id
    → grant e' h' s' ≡ (ok (row, false), s')
unfolding grant
grant_again e e' h h' s p who what =
    let found = subst (λ r. Owned h r.0 r.1) p (grant-Owned e h s) in
    rw (rw (← who, ← what) at found, grant)
