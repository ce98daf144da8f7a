-- ===== src/Ledger.antt =====
-- services/credit_transaction_service.py and the row lock of services/user_balance_service.py: the
-- credit ledger. A table is the list of its rows, the newest first. What other sessions commit
-- while a movement waits for the lock is a function on the ledger, an argument of `move`.
pub mod Invariant
pub mod Booking
pub mod Keys
pub mod Replay
mod Tests
use fastkit.Base.{
  ◌==◌, if◌then◌else◌, ℕ, zero, ◌∙◌, Bool, true, false, ◌&&◌, not, Option, none, some, List, ◌∷◌,
}
use fastkit.Base.Int.{◌+ℤ◌, ◌*ℤ◌, ltb_ℤ, ℤ, pos, negsuc}
use fastkit.Base.Table.{find, update_where, exists}
use fastkit.Base.Text.{Text, text_eq}
use fastkit.Errors.{
  amount_must_be_positive, insufficient_credits, balance_out_of_range, related_not_found, other,
  Result, ok, raise,
}

pub data CreditTransactionType : Type 0 where
  credit debit reversal adjustment : CreditTransactionType

pub record UserBalance : Type 0 where
  pub user_id : ℕ
  pub currency_id : ℕ
  pub amount : ℤ

pub record CreditTransaction : Type 0 where
  pub user_id : ℕ
  pub currency_id : ℕ
  pub benefit_grant_id : Option ℕ
  pub type : CreditTransactionType
  pub amount : ℤ
  pub balance_after : ℤ
  pub idempotency_key : Text
  pub description : Option Text

pub record Ledger : Type 0 where
  pub balances : List UserBalance
  pub transactions : List CreditTransaction

-- The columns of `User` and `Currency` that a movement reads: the tenant of each.
pub record Directory : Type 0 where
  pub user_tenant : ℕ → Option ℕ
  pub currency_tenant : ℕ → Option ℕ

abbrev pub big_integer_max : ℕ
big_integer_max = 9223372036854775807

-- `DIRECTIONS`: none for the type that carries its own sign.
unfoldable pub direction : CreditTransactionType → Option ℤ
direction credit = some (pos 1)
direction debit = some (negsuc 0)
direction reversal = some (negsuc 0)
direction adjustment = none

unfoldable pub signed_amount : CreditTransactionType → ℤ → Result ℤ
unfolding direction ◌*ℤ◌
signed_amount type amount = elim (direction type) [
  | none ↦ ok amount
  | some d ↦ if ltb_ℤ amount (pos 0) then raise amount_must_be_positive else ok (d *ℤ amount)
]

abbrev pub holds : ℕ → ℕ → UserBalance → Bool
holds user currency b = b.user_id == user && b.currency_id == currency

abbrev pub settled_by_key : Text → Ledger → Option CreditTransaction
settled_by_key key l = find (λ t. text_eq t.idempotency_key key) l.transactions

-- The balance as a movement reads it: a row that is not there is opened at zero.
abbrev pub amount_in : ℕ → ℕ → List UserBalance → ℤ
amount_in user currency rows = elim (find (holds user currency) rows) [
  | none ↦ pos 0
  | some b ↦ b.amount
]

abbrev pub amount_of : ℕ → ℕ → Ledger → ℤ
amount_of user currency l = amount_in user currency l.balances

-- `held`: `insert_or_read` of a row at zero, then the row under the lock.
unfoldable pub held : ℕ → ℕ → Ledger → Ledger
held user currency l = if exists (holds user currency) l.balances then l else record l {
  balances = record { user_id = user; currency_id = currency; amount = pos 0 } ∷ l.balances;
}

-- `currency.tenant_id not in (None, user.tenant_id)`
unfoldable pub is_foreign : Option ℕ → Option ℕ → Bool
is_foreign none user = false
is_foreign (some c) none = true
is_foreign (some c) (some u) = not (c == u)

-- The rows that a movement writes once it is decided.
unfoldable pub write : CreditTransaction → Ledger → Ledger
write t l = record {
  balances =
      update_where (holds t.user_id t.currency_id) (λ b. record b { amount = t.balance_after })
        l.balances;
  transactions = t ∷ l.transactions;
}

pub record Movement : Type 0 where
  pub user_id : ℕ
  pub currency_id : ℕ
  pub type : CreditTransactionType
  pub amount : ℤ
  pub description : Option Text
  pub idempotency_key : Text
  pub benefit_grant_id : Option ℕ

-- The decision under the lock, on the balance that the locked row holds.
unfoldable pub book : Movement → Ledger → Result CreditTransaction × Ledger
unfolding signed_amount write
book m l = elim (signed_amount m.type m.amount) [
  | raise e ↦ (raise e, l)
  | ok signed ↦
      let balance = amount_of m.user_id m.currency_id l +ℤ signed in
      let t : CreditTransaction = record {
        user_id = m.user_id;
        currency_id = m.currency_id;
        benefit_grant_id = m.benefit_grant_id;
        type = m.type;
        amount = signed;
        balance_after = balance;
        idempotency_key = m.idempotency_key;
        description = m.description;
      } in
      if ltb_ℤ balance (pos 0)
      then (raise insufficient_credits, l)
      else if ltb_ℤ (pos big_integer_max) balance
      then (raise balance_out_of_range, l)
      else (ok t, write t l)
]

-- What the other sessions leave of a ledger in the course of a movement that is rolled back after
-- it: they commit while it waits for the lock, where it comes that far.
unfoldable pub crossed : Directory → (Ledger → Ledger) → Movement → Ledger → Ledger
crossed dir others m l = elim (settled_by_key m.idempotency_key l) [
  | some existing ↦ l
  | none ↦
      if is_foreign (dir.currency_tenant m.currency_id) (dir.user_tenant m.user_id)
      then l
      else others l
]

unfoldable pub move :
    Directory → (Ledger → Ledger) → Movement → Ledger → Result CreditTransaction × Ledger
unfolding held is_foreign book
move dir others m l = elim (settled_by_key m.idempotency_key l) [
  | some existing ↦ (ok existing, l)
  | none ↦
      if is_foreign (dir.currency_tenant m.currency_id) (dir.user_tenant m.user_id)
      then (raise related_not_found, l)
      else let locked = held m.user_id m.currency_id (others l) in
        elim (settled_by_key m.idempotency_key locked) [
          | some settled ↦ (ok settled, locked)
          | none ↦ book m locked
        ]
]
