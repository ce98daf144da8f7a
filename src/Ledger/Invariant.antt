-- ===== src/Ledger/Invariant.antt =====
-- The ledger between two movements: every balance is the sum of what was booked on it, none is
-- negative or wider than its column, and no idempotency key names two transactions.
use mathlib.Core.Path.{ap₂}
use fastkit.Base.{
  ◌==◌, if◌then◌else◌, ℕ, ◌≡◌, ◌∙◌, true, ◌&&◌, none, List, [], ◌∷◌, arith, Bool-cases, refl, ap,
  inl, inr, false,
}
use fastkit.Base.Int.{◌+ℤ◌, ◌≤ℤ◌, ℤ, pos}
use fastkit.Base.Table.{All, find, update_where, exists}
use fastkit.Base.Text.{text_eq}
use fastkit.Ledger.{
  holds, amount_in, amount_of, held, UserBalance, CreditTransaction, Ledger, settled_by_key, write,
  big_integer_max,
}

-- What the statement of one account in one currency adds up to.
abbrev pub booked : ℕ → ℕ → List CreditTransaction → ℤ
booked user currency [] = pos 0
booked user currency (t ∷ ts) =
    if t.user_id == user && t.currency_id == currency
    then booked user currency ts +ℤ t.amount
    else booked user currency ts

abbrev pub UniqueKeys : List CreditTransaction → Type 0
UniqueKeys [] = Unit
UniqueKeys (t ∷ ts) =
    (find (λ s. text_eq s.idempotency_key t.idempotency_key) ts ≡ none) × UniqueKeys ts

abbrev pub InRange : UserBalance → Type 0
InRange b = (pos 0 ≤ℤ b.amount) × (b.amount ≤ℤ pos big_integer_max)

pub record IsConsistent (l : Ledger) : Type 0 where
  pub balanced :
      (user currency : ℕ) → amount_of user currency l ≡ booked user currency l.transactions
  pub ranged : All InRange l.balances
  pub unique : UniqueKeys l.transactions

-- Opening a row at zero changes no balance.
pub amount_of-held :
    (u c user currency : ℕ) (l : Ledger) → amount_of u c (held user currency l) ≡ amount_of u c l
unfolding held
amount_of-held u c user currency l = ground arith

pub transactions-held :
    (user currency : ℕ) (l : Ledger) → (held user currency l).transactions ≡ l.transactions
unfolding held
transactions-held user currency l = ground arith

pub ranged-held :
    (user currency : ℕ) (l : Ledger)
    → All InRange l.balances
    → All InRange (held user currency l).balances
unfolding held
ranged-held user currency l h = ground arith

pub exists-held :
    (user currency : ℕ) (l : Ledger)
    → exists (holds user currency) (held user currency l).balances ≡ true
unfolding held
exists-held user currency l = ground arith

pub held-IsConsistent :
    (user currency : ℕ) (l : Ledger) → IsConsistent l → IsConsistent (held user currency l)
held-IsConsistent user currency l h = record {
  balanced = λ u c.
      rw (amount_of-held u c user currency l, transactions-held user currency l) (h.balanced u c);
  ranged = ranged-held user currency l h.ranged;
  unique = rw (transactions-held user currency l) h.unique;
}

amount_in-update_ne :
    (u c user currency : ℕ) (v : ℤ) (rows : List UserBalance)
    → (user == u && currency == c) ≡ false
    → amount_in u c (update_where (holds user currency) (λ b. record b { amount = v }) rows)
      ≡ amount_in u c rows
amount_in-update_ne u c user currency v [] h = refl
amount_in-update_ne u c user currency v (b ∷ rows) h =
    ground (arith, amount_in-update_ne u c user currency v rows h)

amount_in-update_self :
    (user currency : ℕ) (v : ℤ) (rows : List UserBalance)
    → exists (holds user currency) rows ≡ true
    → amount_in user currency
        (update_where (holds user currency) (λ b. record b { amount = v }) rows)
      ≡ v
amount_in-update_self user currency v [] h = cc
amount_in-update_self user currency v (b ∷ rows) h =
    ground (arith, amount_in-update_self user currency v rows)

-- The row of the account takes the new balance, and no other row does.
pub amount_of-write :
    (u c : ℕ) (t : CreditTransaction) (l : Ledger)
    → exists (holds t.user_id t.currency_id) l.balances ≡ true
    → amount_of u c (write t l)
      ≡ (if t.user_id == u && t.currency_id == c then t.balance_after else amount_of u c l)
unfolding write
amount_of-write u c t l h = elim (Bool-cases (t.user_id == u && t.currency_id == c)) [
  | inl e ↦
      let p : t.user_id ≡ u = ground arith in
      let q : t.currency_id ≡ c = ground arith in
      rw (e, ← p, ← q) (amount_in-update_self t.user_id t.currency_id t.balance_after l.balances h)
  | inr e ↦ rw e (amount_in-update_ne u c t.user_id t.currency_id t.balance_after l.balances e)
]

ranged-update :
    (user currency : ℕ) (v : ℤ) (rows : List UserBalance)
    → pos 0 ≤ℤ v
    → v ≤ℤ pos big_integer_max
    → All InRange rows
    → All InRange (update_where (holds user currency) (λ b. record b { amount = v }) rows)
ranged-update user currency v [] lo hi h = tt
ranged-update user currency v (b ∷ rows) lo hi h =
    ground (arith, ranged-update user currency v rows lo hi h.1)

-- A decided movement keeps the invariant: its key is new, its row is open, and its balance is the
-- one before it and its amount, within the column.
pub write-IsConsistent :
    (t : CreditTransaction) (l : Ledger)
    → IsConsistent l
    → exists (holds t.user_id t.currency_id) l.balances ≡ true
    → settled_by_key t.idempotency_key l ≡ none
    → t.balance_after ≡ amount_of t.user_id t.currency_id l +ℤ t.amount
    → pos 0 ≤ℤ t.balance_after
    → t.balance_after ≤ℤ pos big_integer_max
    → IsConsistent (write t l)
unfolding write
write-IsConsistent t l h open_row fresh e lo hi = record {
  balanced = λ u c. amount_of-write u c t l open_row ∙ statement u c;
  ranged = ranged-update t.user_id t.currency_id t.balance_after l.balances lo hi h.ranged;
  unique = (fresh, h.unique);
}
  where
    statement :
        (u c : ℕ)
        → (if t.user_id == u && t.currency_id == c then t.balance_after else amount_of u c l)
          ≡ booked u c (t ∷ l.transactions)
    statement u c = elim (Bool-cases (t.user_id == u && t.currency_id == c)) [
      | inl k ↦
          let p : t.user_id ≡ u = ground arith in
          let q : t.currency_id ≡ c = ground arith in
          rw k (
            e
            ∙ ap (λ a. a +ℤ t.amount)
                (h.balanced t.user_id t.currency_id ∙ ap₂ (λ a b. booked a b l.transactions) p q))
      | inr k ↦ rw k (h.balanced u c)
    ]
