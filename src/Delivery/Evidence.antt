-- ===== src/Delivery/Evidence.antt =====
-- What the engine asks before it delivers: `policy_allows`, `already_held_by_user`, `still_owed`,
-- and the conditions of the retry pass, `takeable` and `exhausted`.
use fastkit.Delivery.Schedule.{grant_key}
use fastkit.Base.Table.{exists}
use fastkit.Dates.{add_time, before, minutes, DateTime}
use fastkit.Base.Text.{decimal, text_eq, Text}
use fastkit.Base.{ltb, leb, ◌==◌, ℕ, Bool, true, false, ◌&&◌, ◌||◌, Option, none, some}
use fastkit.Delivery.{
  is_active_benefit, is_eligible_for_benefits, benefit_policy_of, subscription_of,
  SubscriptionBenefit, BenefitGrant, Catalog, Store, BenefitGrantStatus, processing, completed,
  failed, BenefitType, access, BenefitPolicy, access_only,
}

abbrev pub abandoned_after : ℕ
abandoned_after = minutes 30

abbrev pub max_attempts : ℕ
max_attempts = 5

-- The three answers of `policy_allows`, by policy and type.
unfoldable pub allows : BenefitPolicy → BenefitType → Bool
allows BenefitPolicy.all type = true
allows BenefitPolicy.none type = false
allows access_only access = true
allows access_only _ = false

unfoldable pub policy_allows : Catalog → SubscriptionBenefit → Store → Bool
policy_allows cat b s = elim (subscription_of b.subscription_id s) [
  | none ↦ false
  | some r ↦ elim (cat.plans r.plan_id) [
    | none ↦ false
    | some plan ↦ allows (benefit_policy_of r plan) b.benefit_type
  ]
]

unfoldable pub still_owed : SubscriptionBenefit → Store → Bool
still_owed b s = is_active_benefit b.status && elim (subscription_of b.subscription_id s) [
  | none ↦ false
  | some r ↦ is_eligible_for_benefits r
]

-- `f"{subscription.user_id}:{benefit.benefit_id}"`
abbrev pub user_key_of : ℕ → ℕ → Text
user_key_of user benefit = grant_key user (decimal benefit)

abbrev pub has_key : Text → Option Text → Bool
has_key key none = false
has_key key (some k) = text_eq k key

abbrev pub has_id : ℕ → Option ℕ → Bool
has_id id none = false
has_id id (some k) = k == id

abbrev pub is_completed : BenefitGrantStatus → Bool
is_completed completed = true
is_completed _ = false

-- A grant of the same benefit of the catalogue, whichever subscription it was for.
abbrev pub of_catalog : ℕ → Store → BenefitGrant → Bool
of_catalog benefit s g =
    exists (λ b. b.id == g.subscription_benefit_id && b.benefit_id == benefit) s.benefits

unfoldable pub already_held_by_user : SubscriptionBenefit → ℕ → Text → Store → Bool
already_held_by_user b user key s =
    exists (λ g. has_key key g.user_benefit_key && is_completed g.status) s.grants
    || (exists
          (λ g.
            of_catalog b.benefit_id s g
            && exists (λ t. has_id g.id t.benefit_grant_id && t.user_id == user)
                s.shop.ledger.transactions)
          s.grants
        || exists
            (λ g.
              of_catalog b.benefit_id s g
              && exists (λ p. has_id g.id p.benefit_grant_id && p.user_id == user) s.shop.owned)
            s.grants)

abbrev pub is_processing : BenefitGrantStatus → Bool
is_processing processing = true
is_processing _ = false

abbrev pub is_failed : BenefitGrantStatus → Bool
is_failed failed = true
is_failed _ = false

-- `started_at < now() - ABANDONED_AFTER`, which no row without a start meets.
abbrev pub started_long_ago : DateTime → Option DateTime → Bool
started_long_ago now none = false
started_long_ago now (some at) = before (add_time abandoned_after at) now

unfoldable pub takeable : DateTime → BenefitGrant → Bool
takeable now g =
    (is_failed g.status || (is_processing g.status && started_long_ago now g.started_at))
    && ltb g.attempts max_attempts

unfoldable pub exhausted : DateTime → BenefitGrant → Bool
exhausted now g =
    is_processing g.status && (started_long_ago now g.started_at && leb max_attempts g.attempts)
