-- ===== src/Benefits/Sound.antt =====
-- What a benefit that passed its validation is, and that its schedule can be walked.
use fastkit.Delivery.Schedule.{landing}
use fastkit.Delivery.Schedule.Walk.{landing-Lands, Lands}
use fastkit.Scope.{reaches_tenant}
use fastkit.Base.{
  if◌then◌else◌, Option-cases, ℕ, zero, suc, ◌≤◌, ◌≡◌, refl, ◌⊎◌, inl, inr, true, false, Option,
  none, some, arith,
}
use fastkit.Base.Int.{ℤ, pos, negsuc}
use fastkit.Dates.{add_interval, stamp, DateTime, IntervalUnit, year, IsValid}
use fastkit.Errors.{Fault, related_not_found, product_out_of_tenant, missing_row}
use fastkit.Delivery.{BenefitCadence, BenefitType, SubscriptionBenefit}
use fastkit.Benefits.{
  ceiling_years, is_truthy, validate_interval, is_positive, is_there, validate_payload, ◌or_else◌,
  validate_rows, validate, BenefitDraft, Rows, ensure_reaches, ◌or_else◌,
}

-- A step of at least one unit that ends within the ceiling.
abbrev pub Steps : DateTime → Option IntervalUnit → Option ℤ → Type 0
Steps now (some u) (some (pos v)) =
    (1 ≤ v) × (stamp (add_interval now u v) ≤ stamp (add_interval now year ceiling_years))
Steps now _ _ = ⊥

-- A benefit repeats by a step, or it has none.
abbrev pub IsSoundStep : DateTime → BenefitCadence → Option IntervalUnit → Option ℤ → Type 0
IsSoundStep now BenefitCadence.recurring u v = Steps now u v
IsSoundStep now _ u v = (u ≡ none) × (is_truthy v ≡ false)

abbrev pub IsPositive : Option ℤ → Type 0
IsPositive q = (n : ℕ) × (q ≡ some (pos (suc n)))

-- Credits name a currency and a product benefit its product, each with how many, and neither names
-- the other.
abbrev pub IsSoundPayload : BenefitType → Option ℤ → Option ℕ → Option ℕ → Type 0
IsSoundPayload BenefitType.credit q p c = IsPositive q × (p ≡ none) × ((id : ℕ) × (c ≡ some id))
IsSoundPayload BenefitType.product q p c = IsPositive q × ((id : ℕ) × (p ≡ some id)) × (c ≡ none)
IsSoundPayload BenefitType.access q p c = (p ≡ none) × (c ≡ none)

-- What is named is a row of that tenant, or one that all tenants share.
abbrev pub Reached : (ℕ → Option (Option ℕ)) → Option ℕ → Option ℕ → Type 0
Reached rows tenant none = Unit {0}
Reached rows tenant (some id) =
    (rows id ≡ some none) ⊎ ((t : ℕ) × (rows id ≡ some (some t)) × (tenant ≡ some t))

validate_interval-IsSoundStep :
    (now : DateTime) (c : BenefitCadence) (u : Option IntervalUnit) (v : Option ℤ)
    → validate_interval now c u v ≡ none
    → IsSoundStep now c u v
unfolding validate_interval
validate_interval-IsSoundStep now BenefitCadence.recurring none v h = cc
validate_interval-IsSoundStep now BenefitCadence.recurring (some u) none h = cc
validate_interval-IsSoundStep now BenefitCadence.recurring (some u) (some (pos v)) h = ground arith
validate_interval-IsSoundStep now BenefitCadence.recurring (some u) (some (negsuc v)) h =
    ground arith
validate_interval-IsSoundStep now BenefitCadence.on_activation none v h = (refl, ground arith)
validate_interval-IsSoundStep now BenefitCadence.on_activation (some u) v h = cc
validate_interval-IsSoundStep now BenefitCadence.once_per_user none v h = (refl, ground arith)
validate_interval-IsSoundStep now BenefitCadence.once_per_user (some u) v h = cc

is_positive-IsPositive : (q : Option ℤ) → is_positive q ≡ true → IsPositive q
is_positive-IsPositive none h = cc
is_positive-IsPositive (some (pos zero)) h = cc
is_positive-IsPositive (some (pos (suc n))) h = (n, refl)
is_positive-IsPositive (some (negsuc n)) h = absurd (ground arith)

is_there-some : (o : Option ℕ) → is_there o ≡ true → (id : ℕ) × (o ≡ some id)
is_there-some none h = cc
is_there-some (some id) h = (id, refl)

is_there-none : (o : Option ℕ) → is_there o ≡ false → o ≡ none
is_there-none none h = refl
is_there-none (some id) h = cc

validate_payload-IsSoundPayload :
    (t : BenefitType) (q : Option ℤ) (p c : Option ℕ)
    → validate_payload t q p c ≡ none
    → IsSoundPayload t q p c
unfolding validate_payload
validate_payload-IsSoundPayload BenefitType.credit q p c h = (
  is_positive-IsPositive q (ground arith),
  is_there-none p (ground arith),
  is_there-some c (ground arith),
)
validate_payload-IsSoundPayload BenefitType.product q p c h = (
  is_positive-IsPositive q (ground arith),
  is_there-some p (ground arith),
  is_there-none c (ground arith),
)
validate_payload-IsSoundPayload BenefitType.access q p c h =
    (is_there-none p (ground arith), is_there-none c (ground arith))

ensure_reaches-Reached :
    (rows : ℕ → Option (Option ℕ)) (target tenant : Option ℕ) (code : Fault)
    → ensure_reaches rows target tenant code ≡ none
    → Reached rows tenant target
unfolding ensure_reaches
ensure_reaches-Reached rows none tenant code h = tt
ensure_reaches-Reached rows (some id) tenant code h = elim (Option-cases (rows id)) [
  | inl gone ↦ let bad : some code ≡ none = rw (gone, ensure_reaches) at h in cc
  | inr (none, e) ↦ inl e
  | inr (some t, e) ↦ inr (t, e, same t tenant (rw (e, ensure_reaches) at h))
]
  where
    same :
        (t : ℕ) (tenant : Option ℕ)
        → (if reaches_tenant (some t) tenant then none else some code) ≡ none
        → tenant ≡ some t
    same t none h = cc
    same t (some u) h = ground arith

-- The tenant of the entitlement of a benefit reaches what the benefit names.
abbrev pub IsReached : Rows → BenefitDraft → Type 0
IsReached rows d =
    (tenant : Option ℕ) × (rows.entitlement d.entitlement_id ≡ some tenant)
    × Reached rows.product tenant d.product_id
    × Reached rows.currency tenant d.currency_id

or_else-none : (f k : Option Fault) → f or_else k ≡ none → (f ≡ none) × (k ≡ none)
or_else-none none k h = (refl, h)
or_else-none (some f) k h = cc

validate_rows-IsReached :
    (rows : Rows) (d : BenefitDraft) → validate_rows rows d ≡ none → IsReached rows d
unfolding validate_rows
validate_rows-IsReached rows d h = elim (Option-cases (rows.entitlement d.entitlement_id)) [
  | inl gone ↦ let bad : some missing_row ≡ none = rw (gone, validate_rows) at h in cc
  | inr (tenant, e) ↦
      let both =
        or_else-none (ensure_reaches rows.product d.product_id tenant product_out_of_tenant)
          (ensure_reaches rows.currency d.currency_id tenant related_not_found)
          (rw (e, validate_rows) at h) in
      (
        tenant,
        e,
        ensure_reaches-Reached rows.product d.product_id tenant product_out_of_tenant both.0,
        ensure_reaches-Reached rows.currency d.currency_id tenant related_not_found both.1,
      )
]

-- A benefit that passes validation repeats by a step of at least one unit and of at most a hundred
-- years, or has no step at all; credits come in a positive number and in a currency, products in a
-- positive number and by name, access in neither; and what it names is shared or of the tenant of
-- its entitlement.
pub validate-IsSound :
    (now : DateTime) (rows : Rows) (d : BenefitDraft)
    → validate now rows d ≡ none
    → IsSoundStep now d.cadence d.interval_unit d.interval_value
      × IsSoundPayload d.type d.quantity d.product_id d.currency_id
      × IsReached rows d
unfolding validate
validate-IsSound now rows d h =
    let step = validate_interval now d.cadence d.interval_unit d.interval_value in
    let payload = validate_payload d.type d.quantity d.product_id d.currency_id in
    let (first, reached) = or_else-none (step or_else payload) (validate_rows rows d) h in
    let (stepped, paid_for) = or_else-none step payload first in
    (
      validate_interval-IsSoundStep now d.cadence d.interval_unit d.interval_value stepped,
      validate_payload-IsSoundPayload d.type d.quantity d.product_id d.currency_id paid_for,
      validate_rows-IsReached rows d reached,
    )

-- A repeating benefit that passes validation can be walked: from every moment of the calendar, the
-- schedule of a subscription that carries its unit and its value ends on a slot, the last that is
-- not past now.
pub validate-Lands :
    (made now : DateTime) (rows : Rows) (d : BenefitDraft) (b : SubscriptionBenefit)
    (since : DateTime)
    → validate made rows d ≡ none
    → d.cadence ≡ BenefitCadence.recurring
    → d.interval_unit ≡ some b.interval_unit
    → d.interval_value ≡ some (pos b.interval_value)
    → IsValid since
    → Lands b.interval_unit b.interval_value now since (landing now b since)
validate-Lands made now rows d b since h repeats unit value valid =
    let sound = (validate-IsSound made rows d h).0 in
    let steps : Steps made (some b.interval_unit) (some (pos b.interval_value)) =
      rw (repeats, unit, value) at sound in
    landing-Lands now b since steps.0 valid
