-- ===== src/Webhook/Handling.antt =====
-- `ingest`, `run`, `apply`, `settle_payment` and `retry_failed`. `W` is the rest of the database,
-- of which the shop is a part; `Office` is what the notice of an integration asks of the accounts:
-- the lookup of one by its token, its reconciliation and the word of a notice on it. On a raise the
-- state of these is what they had committed. No other session writes between two statements of one
-- notice. Of the columns on whose account a notice was, nothing is written.
use fastkit.Base.{◌==◌, if◌then◌else◌, ℕ, Bool, true, false, not, Option, none, some, List, [], ◌∷◌}
use fastkit.Base.Table.{find, update_where}
use fastkit.Base.Text.{Text, text_eq}
use fastkit.Dates.{DateTime}
use fastkit.Errors.{Fault, missing_row, Result, ok, raise}
use fastkit.Commerce.{
  named, crossed_grant, handover_of, settle_purchase, Purchase, Session, Shop, PurchaseStatus,
}
use fastkit.Webhook.{
  claim_event, fail_event, record_of, write_unread, WebhookEvent, Queue, WebhookEventStatus,
  completed, ignored, unresolved,
}
mod Tests

pub record ProviderEvent : Type 0 where
  pub external_event_id : Text
  pub account_token : Option Text
  pub also_about : List Text
  -- whether `state` is there; what it says is the office's to read
  pub says_state : Bool
  pub reference : Option Text
  pub purchase_status : Option PurchaseStatus
  pub payment_id : Option Text

pub record Office (W : Type 0) : Type 0 where
  pub integration_id : ℕ
  pub tenant_id : Option ℕ
  pub session : Session
  pub shop : W → Shop
  pub with_shop : Shop → W → W
  pub account : Text → W → Option ℕ
  pub reconcile : ℕ → W → Result (Unit {0}) × W
  pub event_stated : Bool
  pub state : ℕ → ProviderEvent → W → Result (Unit {0}) × W
  -- the class of an exception, by a number
  pub class_of : Fault → ℕ

-- A text that is there and not empty.
abbrev pub given : Option Text → Option Text
given none = none
given (some t) = if text_eq t [] then none else some t

abbrev is_own : ℕ → Option ℕ → Bool
is_own integration none = false
is_own integration (some i) = i == integration

abbrev pub own_purchase : ℕ → Option Purchase → Option Purchase
own_purchase integration none = none
own_purchase integration (some p) = if is_own integration p.integration_id then some p else none

abbrev pub pays : Text → Purchase → Bool
pays payment p = elim p.external_id [ none ↦ false | some x ↦ text_eq x payment ]

-- `purchase_of`
unfoldable pub purchase_of : ℕ → ProviderEvent → Shop → Option Purchase
purchase_of integration event s = elim (given event.reference) [
  | some reference ↦
      own_purchase integration (find (λ p. text_eq p.reference reference) s.purchases)
  | none ↦ elim (given event.payment_id) [
    | some payment ↦ own_purchase integration (find (pays payment) s.purchases)
    | none ↦ none
  ]
]

-- Two rounds that nobody crosses.
abbrev pub quiet : List (Shop → Shop)
quiet = (λ s. s) ∷ (λ s. s) ∷ []

module _ {W : Type 0} (o : Office W) where
  -- What a call of `settle_purchase` leaves: a raise, which is one of `grant` where the row is there,
  -- is followed by a rollback, and what others committed in its course stays.
  abbrev pub settled_in :
      Purchase → W → Option (Result Purchase × Shop) → Result (Option Purchase) × W
  settled_in p w none = (raise missing_row, w)
  settled_in p w (some (raise f, s)) =
      (raise f, o.with_shop (crossed_grant o.session (handover_of p) (o.shop w)) w)
  settled_in p w (some (ok settled, s)) = (ok (some settled), o.with_shop s w)

  -- `settle_payment`
  unfoldable pub settle_payment : ProviderEvent → W → Result (Option Purchase) × W
  unfolding purchase_of
  settle_payment event w = elim event.purchase_status [
    | none ↦ (ok none, w)
    | some status ↦ elim (purchase_of o.integration_id event (o.shop w)) [
      | none ↦ (ok none, w)
      | some p ↦
          settled_in p w (settle_purchase o.session quiet p status event.payment_id (o.shop w))
    ]
  ]

  -- `user_of`
  abbrev pub user_of : ProviderEvent → W → Option ℕ
  user_of event w = elim (given event.account_token) [ none ↦ none | some t ↦ o.account t w ]

  -- `reconcile_named`
  abbrev reconcile_named : Text → W → Result (Unit {0}) × W
  reconcile_named token w = elim (o.account token w) [
    | none ↦ (ok tt, w)
    | some user ↦ o.reconcile user w
  ]

  -- The accounts that the notice is also about, one after the other.
  unfoldable pub reconcile_also : List Text → W → Result (Unit {0}) × W
  reconcile_also [] w = (ok tt, w)
  reconcile_also (t ∷ ts) w =
      let (r, w') = reconcile_named t w in
      elim r [ raise f ↦ (raise f, w') | ok _ ↦ reconcile_also ts w' ]

  -- What the notice does to the account that it names.
  unfoldable pub write_account : ProviderEvent → ℕ → W → Result (Unit {0}) × W
  write_account event user w =
      if not o.event_stated
      then o.reconcile user w
      else if event.says_state
      then o.state user event w
      else (ok tt, w)

  abbrev is_someone : Option ℕ → Option Purchase → Bool
  is_someone none none = false
  is_someone _ _ = true

  unfoldable pub write_found : ProviderEvent → Option ℕ → W → Result (Unit {0}) × W
  unfolding write_account
  write_found event none w = (ok tt, w)
  write_found event (some user) w = write_account event user w

  -- `apply`: whether the notice was about somebody, that is, whether it is completed or ignored.
  unfoldable pub apply_event : ProviderEvent → W → Result Bool × W
  unfolding settle_payment reconcile_also write_found
  apply_event event w =
      let (settled, charged) = settle_payment event w in
      elim settled [
        | raise f ↦ (raise f, charged)
        | ok purchase ↦
            let user = user_of event charged in
            let (named, told) = reconcile_also event.also_about charged in
            elim named [
              | raise f ↦ (raise f, told)
              | ok _ ↦
                  let (written, done) = write_found event user told in
                  elim written [
                    | raise f ↦ (raise f, done)
                    | ok _ ↦ (ok (is_someone user purchase), done)
                  ]
            ]
      ]

  -- The row that `apply` leaves.
  abbrev pub answered_event : DateTime → Bool → WebhookEvent → WebhookEvent
  answered_event now true r = record r { status = completed; updated_at = now }
  answered_event now false r = record r {
    status = ignored;
    error_code = some unresolved;
    updated_at = now;
  }

  -- `run`
  unfoldable pub run_event :
      DateTime → ProviderEvent → ℕ → Queue → W → Result (Unit {0}) × Queue × W
  unfolding apply_event
  run_event now event id q w =
      let (result, w') = apply_event event w in
      elim result [
        | raise f ↦ (raise f, fail_event now id (o.class_of f) q, w')
        | ok someone ↦ (
          ok tt,
          record q {
            events = update_where (λ r. r.id == id) (answered_event now someone) q.events;
          },
          w',
        )
      ]

  abbrev pub is_final : WebhookEventStatus → Bool
  is_final completed = true
  is_final ignored = true
  is_final _ = false

  -- `ingest`, of a call that authenticates and that the gateway's class reads as `event`, with the
  -- digest of the call.
  unfoldable pub ingest :
      DateTime → Option ProviderEvent → Text → Queue → W → Result (Unit {0}) × Queue × W
  unfolding run_event
  ingest now none digest q w =
      (ok tt, (write_unread now o.tenant_id o.integration_id digest q).1, w)
  ingest now (some event) digest q w =
      let (row, written) =
        record_of now o.tenant_id o.integration_id event.external_event_id digest q in
      if is_final row.status
      then (ok tt, written, w)
      else (let (claimed, taken) = claim_event now row.id written in
          if claimed then run_event now event row.id taken w else (ok tt, taken, w))
