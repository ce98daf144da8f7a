-- ===== src/Delivery/Passes.antt =====
-- The passes that a timer runs: `process_due`, `expire_subscriptions` and `retry_failed_grants`,
-- with `claim`, `close_exhausted` and `give_up`. A row that a pass names is found again in its
-- turn, so what another turn wrote in between is what the turn sees.
pub mod Attempts
pub mod Unique
pub mod Expiry
use fastkit.Base.Table.{update_where, count_where, select, exists}
use fastkit.Commerce.{Session}
use fastkit.Dates.{before, not_after, DateTime}
use fastkit.Base.{
  leb, ◌==◌, if◌then◌else◌, ℕ, zero, suc, Bool, true, false, ◌&&◌, ◌||◌, not, Option, none, some,
  List, [], ◌∷◌,
}
use fastkit.Delivery.{
  is_eligible, is_active_benefit, is_eligible_for_benefits, is_recurring, benefit_of, grant_of,
  Subscription, SubscriptionBenefit, BenefitGrant, Catalog, Store, SubscriptionStatus,
  BenefitStatus, processing, skipped, subscription_no_longer_eligible, abandoned,
  given_up_after_max_attempts, given_up, BenefitGrantStatus,
}
use fastkit.Delivery.Evidence.{
  max_attempts, still_owed, is_processing, is_failed, takeable, exhausted,
}
use fastkit.Delivery.Schedule.{resolve_due_slot, cycle_key}
use fastkit.Delivery.Handing.{set_grant, drop, deliver}
use fastkit.Delivery.Activation.{end_benefits}
use fastkit.Delivery.Cycle.{advance_by_id, run_cycle}

-- `LIMIT` of a statement.
abbrev pub limit {ℓ} : {A : Type ℓ} → ℕ → List A → List A
limit zero rows = []
limit (suc n) [] = []
limit (suc n) (x ∷ rows) = x ∷ limit n rows

abbrev pub due_batch : ℕ
due_batch = 100

abbrev pub expiry_batch : ℕ
expiry_batch = 200

abbrev pub retry_batch : ℕ
retry_batch = 50

-- `claim`: one `UPDATE`, and whether it met the row.
abbrev pub is_takeable : DateTime → ℕ → BenefitGrant → Bool
is_takeable now id g = g.id == id && takeable now g

abbrev pub taken : DateTime → BenefitGrant → BenefitGrant
taken now g = record g {
  status = processing;
  attempts = suc g.attempts;
  error_code = none;
  started_at = some now;
}

unfoldable pub claim : DateTime → ℕ → Store → Bool × Store
claim now id s = (
  count_where (is_takeable now id) s.grants == 1,
  record s { grants = update_where (is_takeable now id) (taken now) s.grants },
)

-- `give_up`
abbrev pub given_up_on : DateTime → BenefitGrant → BenefitGrant
given_up_on now g = record g {
  status = skipped;
  user_benefit_key = none;
  error_code = some given_up_after_max_attempts;
  completed_at = some now;
}

unfoldable pub give_up : DateTime → BenefitGrant → Store → Store
unfolding set_grant
give_up now g s =
    let s' = set_grant g.id (given_up_on now) s in
    record s' { log = given_up g.id g.attempts g.error_code ∷ s'.log }

-- `close_exhausted`
abbrev pub is_exhausted : DateTime → ℕ → BenefitGrant → Bool
is_exhausted now id g = g.id == id && exhausted now g

abbrev pub abandon : BenefitGrant → BenefitGrant
abandon g = record g { status = BenefitGrantStatus.failed; error_code = some abandoned }

unfoldable pub close_exhausted : DateTime → ℕ → Store → Bool × Store
close_exhausted now id s =
    let s' : Store = record s { grants = update_where (is_exhausted now id) abandon s.grants } in
    if count_where (is_exhausted now id) s.grants == 1
    then elim (grant_of id s') [
      | none ↦ (true, s')
      | some g ↦ (true, advance_by_id now g.subscription_benefit_id id (give_up now g s'))
    ]
    else (false, s')

-- The turn of a grant that the pass claimed, after its attempt.
unfoldable pub close_attempt : DateTime → ℕ → ℕ → Store → Store
close_attempt now benefit_id id s = elim (grant_of id s) [
  | none ↦ s
  | some g ↦
      advance_by_id now benefit_id id
        (if is_failed g.status && leb max_attempts g.attempts then give_up now g s else s)
]

-- One turn of `retry_failed_grants`.
unfoldable pub retry : Session → Catalog → ℕ → Store → Store
retry e cat id s = elim (grant_of id s) [
  | none ↦ s
  | some g ↦ elim (benefit_of g.subscription_benefit_id s) [
    | none ↦ s
    | some b ↦
        if not (still_owed b s)
        then set_grant id (drop e.now subscription_no_longer_eligible) s
        else if leb max_attempts g.attempts
        then (close_exhausted e.now id s).1
        else (let (claimed, s') = claim e.now id s in
            if claimed then close_attempt e.now b.id id (deliver e cat b.id id s') else s')
  ]
]

abbrev pub is_retried : DateTime → BenefitGrant → Bool
is_retried now g = takeable now g || exhausted now g

-- `ORDER BY id ASC`
abbrev pub insert_id : ℕ → List ℕ → List ℕ
insert_id id [] = id ∷ []
insert_id id (i ∷ ids) = let rest = insert_id id ids in if leb id i then id ∷ i ∷ ids else i ∷ rest

abbrev pub retried : DateTime → List BenefitGrant → List ℕ
retried now [] = []
retried now (g ∷ gs) =
    let rest = retried now gs in if is_retried now g then insert_id g.id rest else rest

unfoldable pub retry_each : Session → Catalog → List ℕ → Store → Store
retry_each e cat [] s = s
retry_each e cat (id ∷ ids) s = retry_each e cat ids (retry e cat id s)

unfoldable pub retry_failed_grants : Session → Catalog → Store → Store
unfolding retry_each
retry_failed_grants e cat s = retry_each e cat (limit retry_batch (retried e.now s.grants)) s

-- The conditions of the statement of `process_due`.
abbrev pub waits : ℕ → Store → Bool
waits id s =
    exists (λ g. g.subscription_benefit_id == id && (is_failed g.status || is_processing g.status))
      s.grants

abbrev pub is_live : SubscriptionBenefit → Store → Bool
is_live b s = exists (λ r. r.id == b.subscription_id && is_eligible_for_benefits r) s.subscriptions

abbrev pub date_is_due : DateTime → Option DateTime → Bool
date_is_due now none = false
date_is_due now (some at) = not_after at now

unfoldable pub is_due : DateTime → SubscriptionBenefit → Store → Bool
unfolding is_active_benefit is_recurring
is_due now b s =
    is_active_benefit b.status
    && (is_recurring b.cadence
        && (date_is_due now b.next_grant_at && (is_live b s && not (waits b.id s))))

-- `ORDER BY next_grant_at ASC`
abbrev pub is_sooner : Option DateTime → Option DateTime → Bool
is_sooner (some a) (some b) = not_after a b
is_sooner _ _ = true

abbrev pub insert_due : SubscriptionBenefit → List SubscriptionBenefit → List SubscriptionBenefit
insert_due b [] = b ∷ []
insert_due b (c ∷ cs) =
    let rest = insert_due b cs in
    if is_sooner b.next_grant_at c.next_grant_at then b ∷ c ∷ cs else c ∷ rest

abbrev pub due_of : DateTime → List SubscriptionBenefit → Store → List SubscriptionBenefit
due_of now [] s = []
due_of now (b ∷ bs) s =
    let rest = due_of now bs s in if is_due now b s then insert_due b rest else rest

-- One turn of `process_due`. A benefit read again without a date is not one that the statement
-- chose.
unfoldable pub deliver_due : Session → Catalog → ℕ → Store → Store
deliver_due e cat id s = elim (benefit_of id s) [
  | none ↦ s
  | some b ↦ elim b.next_grant_at [
    | none ↦ s
    | some next ↦
        let (slot, moved) = resolve_due_slot e.now b next in
        elim slot [
          | none ↦ record s { benefits = update_where (λ r. r.id == id) (λ r. moved) s.benefits }
          | some at ↦ (run_cycle e cat b (cycle_key at) at s).1
        ]
  ]
]

unfoldable pub deliver_each_due : Session → Catalog → List SubscriptionBenefit → Store → Store
deliver_each_due e cat [] s = s
deliver_each_due e cat (b ∷ bs) s = deliver_each_due e cat bs (deliver_due e cat b.id s)

unfoldable pub process_due : Session → Catalog → Store → Store
unfolding deliver_each_due
process_due e cat s = deliver_each_due e cat (limit due_batch (due_of e.now s.benefits s)) s

-- The condition that `expire_subscriptions` reads by and writes by.
abbrev pub ended_before : DateTime → Option DateTime → Bool
ended_before now none = false
ended_before now (some until) = before until now

unfoldable pub is_over : DateTime → Subscription → Bool
is_over now r = is_eligible r.status && ended_before now r.access_until

abbrev pub close : DateTime → Subscription → Subscription
close now r = record r {
  status = SubscriptionStatus.expired;
  expired_at = some now;
  benefit_status = BenefitStatus.ended;
}

-- One turn of `expire_subscriptions`.
unfoldable pub expire_one : DateTime → ℕ → Store → Store
expire_one now id s =
    let over : Subscription → Bool = λ r. r.id == id && is_over now r in
    let s' : Store = record s { subscriptions = update_where over (close now) s.subscriptions } in
    if count_where over s.subscriptions == 1 then end_benefits id s' else s'

unfoldable pub expire_each : DateTime → List Subscription → Store → Store
expire_each now [] s = s
expire_each now (r ∷ rs) s = expire_each now rs (expire_one now r.id s)

abbrev pub over_of : DateTime → List Subscription → List Subscription
over_of now rs = select (is_over now) rs

unfoldable pub expire_subscriptions : DateTime → Store → Store
unfolding expire_each
expire_subscriptions now s = expire_each now (limit expiry_batch (over_of now s.subscriptions)) s
