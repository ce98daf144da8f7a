-- ===== src/Ledger/Booking.antt =====
-- What `signed_amount` and `book` do on every branch.
use fastkit.Base.{◌≡◌, refl, sym, subst, true, none, Bool-cases, inl, inr, arith}
use fastkit.Base.Int.{◌+ℤ◌, ◌-ℤ◌, ◌≤ℤ◌, ℤ, pos, ltb_ℤ}
use fastkit.Base.Table.{exists}
use fastkit.Errors.{amount_must_be_positive, Result, ok, raise}
use fastkit.Ledger.{
  big_integer_max, signed_amount, holds, settled_by_key, amount_of, write, book, CreditTransaction,
  Ledger, Movement, CreditTransactionType, credit, debit, reversal, adjustment,
}
use fastkit.Ledger.Invariant.{IsConsistent, write-IsConsistent}

-- What a type makes of an amount, by how it ended.
abbrev pub Directed : CreditTransactionType → ℤ → Result ℤ → Type 0
Directed credit amount (ok s) = (s ≡ amount) × (pos 0 ≤ℤ s)
Directed debit amount (ok s) = (s ≡ pos 0 -ℤ amount) × (s ≤ℤ pos 0)
Directed reversal amount (ok s) = (s ≡ pos 0 -ℤ amount) × (s ≤ℤ pos 0)
Directed adjustment amount r = r ≡ ok amount
Directed _ amount (raise e) = (e ≡ amount_must_be_positive) × (¬ (pos 0 ≤ℤ amount))

-- The type decides the direction: a credit never takes, a debit and a reversal never add, an
-- adjustment carries its own sign and is never refused, and a directed movement is refused only
-- when its magnitude is negative.
pub signed_amount-Directed :
    (type : CreditTransactionType) (amount : ℤ) → Directed type amount (signed_amount type amount)
unfolding signed_amount ◌-ℤ◌
signed_amount-Directed credit amount = elim (Bool-cases (ltb_ℤ amount (pos 0))) [
  | inl e ↦ rw e (refl, ground arith)
  | inr e ↦ rw e (ground arith)
]
signed_amount-Directed debit amount = elim (Bool-cases (ltb_ℤ amount (pos 0))) [
  | inl e ↦ rw e (refl, ground arith)
  | inr e ↦ rw e (ground arith)
]
signed_amount-Directed reversal amount = elim (Bool-cases (ltb_ℤ amount (pos 0))) [
  | inl e ↦ rw e (refl, ground arith)
  | inr e ↦ rw e (ground arith)
]
signed_amount-Directed adjustment amount = refl

-- What `book` did, by how it ended.
abbrev pub Booked : Movement → Ledger → Result CreditTransaction → Ledger → Type 0
Booked m l (raise e) l' = l' ≡ l
Booked m l (ok t) l' =
    (l' ≡ write t l)
    × (t.user_id ≡ m.user_id)
    × (t.currency_id ≡ m.currency_id)
    × (t.idempotency_key ≡ m.idempotency_key)
    × (signed_amount m.type m.amount ≡ ok t.amount)
    × (t.balance_after ≡ amount_of m.user_id m.currency_id l +ℤ t.amount)
    × (pos 0 ≤ℤ t.balance_after)
    × (t.balance_after ≤ℤ pos big_integer_max)

pub book-Booked : (m : Movement) (l : Ledger) → Booked m l (book m l).0 (book m l).1
unfolding book
book-Booked m l = by_sign (signed_amount m.type m.amount) refl
  where
    balance : ℤ → ℤ
    balance s = amount_of m.user_id m.currency_id l +ℤ s

    by_sign :
        (r : Result ℤ) → signed_amount m.type m.amount ≡ r → Booked m l (book m l).0 (book m l).1
    by_sign (raise e) p = rw (p, book)
    by_sign (ok s) p = elim (Bool-cases (ltb_ℤ (balance s) (pos 0))) [
      | inl low ↦ rw (p, low, book)
      | inr high ↦ elim (Bool-cases (ltb_ℤ (pos big_integer_max) (balance s))) [
        | inl over ↦ rw (p, high, over, book)
        | inr fits ↦
            rw (p, high, fits, book) (refl, refl, refl, refl, p, refl, ground arith, ground arith)
      ]
    ]

pub book-IsConsistent :
    (m : Movement) (l : Ledger)
    → IsConsistent l
    → exists (holds m.user_id m.currency_id) l.balances ≡ true
    → settled_by_key m.idempotency_key l ≡ none
    → IsConsistent (book m l).1
book-IsConsistent m l h open_row fresh = by_outcome (book m l).0 (book m l).1 (book-Booked m l)
  where
    by_outcome : (r : Result CreditTransaction) (l' : Ledger) → Booked m l r l' → IsConsistent l'
    by_outcome (raise e) l' same = subst IsConsistent (sym same) h
    by_outcome (ok t) l' (same, who, what, key, signed, balance, lo, hi) =
        subst IsConsistent (sym same) (
          write-IsConsistent t l h (rw (who, what) open_row) (rw key fresh) (rw (who, what) balance)
            lo hi)
