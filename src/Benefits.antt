-- ===== src/Benefits.antt =====
-- services/benefit_service.py: what a benefit of a plan may say, with `declared` and
-- `ensure_reaches` of services/crud_service.py. A quantity and an interval come from a form, so
-- they are integers and may be missing. A step that the calendar cannot hold is refused by the
-- fault of one that is too long, and it is later than the ceiling too, so the two are one test
-- here: the moment is before the year 9900.
use fastkit.Scope.{reaches_tenant}
use fastkit.Base.{
  ◌==◌, if◌then◌else◌, ℕ, Bool, true, false, ◌&&◌, ◌||◌, not, Option, none, some, ◌∙◌,
}
use fastkit.Base.Int.{pos_part, neg_part, ltb_ℤ, ℤ, pos}
use fastkit.Dates.{add_interval, before, DateTime, IntervalUnit, year}
use fastkit.Errors.{
  Fault, related_not_found, benefit_recurring_requires_interval, benefit_interval_value_min,
  benefit_interval_too_long, benefit_non_recurring_no_interval, benefit_quantity_must_be_positive,
  benefit_credit_requires_currency, benefit_currency_only_on_a_credit_benefit,
  benefit_product_requires_product, benefit_product_only_on_a_product_benefit,
  product_out_of_tenant, missing_row,
}
use fastkit.Delivery.{BenefitCadence, BenefitType, product, recurring, credit}
pub mod Sound
mod Tests

-- `declared`: the value sent, or that of the row, or that of the column.
unfoldable pub declared {ℓ} : {A : Type ℓ} → Option A → Option A → A → A
declared (some sent) instance_value default = sent
declared none (some stored) default = stored
declared none none default = default

-- The values that `validate` reads, once declared.
pub record BenefitDraft : Type 0 where
  pub type : BenefitType
  pub cadence : BenefitCadence
  pub interval_unit : Option IntervalUnit
  pub interval_value : Option ℤ
  pub quantity : Option ℤ
  pub product_id : Option ℕ
  pub currency_id : Option ℕ
  pub entitlement_id : ℕ

-- The tenant of each row, where there is such a row.
pub record Rows : Type 0 where
  pub entitlement : ℕ → Option (Option ℕ)
  pub product : ℕ → Option (Option ℕ)
  pub currency : ℕ → Option (Option ℕ)

-- `INTERVAL_CEILING_YEARS`
abbrev pub ceiling_years : ℕ
ceiling_years = 100

-- Python's truth of an optional number.
abbrev pub is_truthy : Option ℤ → Bool
is_truthy none = false
is_truthy (some v) = not (pos_part v == 0 && neg_part v == 0)

-- The branch of a repeating benefit, with its unit and its value.
unfoldable pub validate_step : DateTime → Option IntervalUnit → Option ℤ → Option Fault
validate_step now none v = some benefit_recurring_requires_interval
validate_step now (some u) none = some benefit_recurring_requires_interval
validate_step now (some u) (some v) =
    if not (is_truthy (some v))
    then some benefit_recurring_requires_interval
    else if ltb_ℤ v (pos 1)
    then some benefit_interval_value_min
    else if before (add_interval now year ceiling_years) (add_interval now u (pos_part v))
    then some benefit_interval_too_long
    else none

abbrev pub no_step : Option IntervalUnit → Option ℤ → Option Fault
no_step none v = if is_truthy v then some benefit_non_recurring_no_interval else none
no_step (some u) v = some benefit_non_recurring_no_interval

-- `validate_interval`
unfoldable pub validate_interval :
    DateTime → BenefitCadence → Option IntervalUnit → Option ℤ → Option Fault
unfolding validate_step
validate_interval now BenefitCadence.recurring u v = validate_step now u v
validate_interval now _ u v = no_step u v

abbrev pub is_positive : Option ℤ → Bool
is_positive none = false
is_positive (some v) = ltb_ℤ (pos 0) v

abbrev pub is_credit : BenefitType → Bool
is_credit BenefitType.credit = true
is_credit _ = false

abbrev pub is_product : BenefitType → Bool
is_product BenefitType.product = true
is_product _ = false

abbrev pub is_there : Option ℕ → Bool
is_there none = false
is_there (some n) = true

-- `validate_payload`
unfoldable pub validate_payload : BenefitType → Option ℤ → Option ℕ → Option ℕ → Option Fault
validate_payload t quantity goods currency =
    if (is_credit t || is_product t) && not (is_positive quantity)
    then some benefit_quantity_must_be_positive
    else if is_credit t && not (is_there currency)
    then some benefit_credit_requires_currency
    else if not (is_credit t) && is_there currency
    then some benefit_currency_only_on_a_credit_benefit
    else if is_product t && not (is_there goods)
    then some benefit_product_requires_product
    else if not (is_product t) && is_there goods
    then some benefit_product_only_on_a_product_benefit
    else none

-- `ensure_reaches`
unfoldable pub ensure_reaches : (ℕ → Option (Option ℕ)) → Option ℕ → Option ℕ → Fault → Option Fault
ensure_reaches rows none tenant code = none
ensure_reaches rows (some id) tenant code = elim (rows id) [
  | none ↦ some code
  | some owner ↦ if reaches_tenant owner tenant then none else some code
]

-- The first of two checks that refuses.
infixl 5 ◌or_else◌
abbrev pub ◌or_else◌ : Option Fault → Option Fault → Option Fault
(some f) or_else k = some f
none or_else k = k

-- The two checks of `validate` that read rows.
unfoldable pub validate_rows : Rows → BenefitDraft → Option Fault
unfolding ensure_reaches
validate_rows rows d = elim (rows.entitlement d.entitlement_id) [
  | none ↦ some missing_row
  | some tenant ↦
      ensure_reaches rows.product d.product_id tenant product_out_of_tenant
      or_else ensure_reaches rows.currency d.currency_id tenant related_not_found
]

-- `validate`
unfoldable pub validate : DateTime → Rows → BenefitDraft → Option Fault
unfolding validate_interval validate_payload validate_rows
validate now rows d =
    validate_interval now d.cadence d.interval_unit d.interval_value
    or_else validate_payload d.type d.quantity d.product_id d.currency_id
    or_else validate_rows rows d
