-- ===== src/Errors.antt =====
-- What a service raises, and a call that may raise: `helpers/validation_error.py`,
-- `helpers/conflict_error.py` and the code that each `raise` names. A result comes with the state,
-- since what was written before a raise stays in the session until somebody rolls it back.
use fastkit.Base.{ℕ, ◌≡◌, refl, ◌⊎◌, inl, inr}

pub data Fault : Type 0 where
  amount_must_be_positive insufficient_credits balance_out_of_range related_not_found : Fault
  product_already_owned idempotency_key_in_flight idempotency_key_reused : Fault
  secret_changed : Fault
  -- which column, by its place among those of its model
  secret_unreadable : ℕ → Fault
  benefit_recurring_requires_interval benefit_interval_value_min benefit_interval_too_long : Fault
  benefit_non_recurring_no_interval benefit_quantity_must_be_positive : Fault
  benefit_credit_requires_currency benefit_currency_only_on_a_credit_benefit : Fault
  benefit_product_requires_product benefit_product_only_on_a_product_benefit : Fault
  product_out_of_tenant : Fault
  social_attempt_invalid invalid_credentials account_blocked panel_not_allowed : Fault
  account_of_another_brand sign_in_code_invalid sign_in_code_wait : Fault
  authentication_method_disabled email_taken not_found : Fault
  -- an attribute read on a row that is not there
  missing_row : Fault
  -- what a callee raised that is not modelled, by a number
  other : ℕ → Fault

pub data Result {ℓ} (A : Type ℓ) : Type ℓ where
  ok : A → Result A
  raise : Fault → Result A

-- To split on a computed result and keep the equation.
pub Result-cases {ℓ} :
    {A : Type ℓ} (r : Result A) → ((f : Fault) × (r ≡ raise f)) ⊎ ((a : A) × (r ≡ ok a))
Result-cases (ok a) = inr (a, refl)
Result-cases (raise f) = inl (f, refl)
