-- ===== src/Webhook.antt =====
-- The queue of services/webhook_service.py: how a notice is written down, taken for a reader,
-- failed and closed. Its handling is in Webhook/Handling. The digest of a call is a hash of the
-- platform, so it is an argument. Every `update` also writes `updated_at`, by the column's
-- `onupdate`.
use fastkit.Base.{
  ltb, leb, ◌==◌, if◌then◌else◌, length, ℕ, suc, ◌-◌, ◌<◌, ◌∙◌, Bool, true, false, ◌&&◌, ◌||◌,
  Option, none, some, List, ◌∷◌,
}
use fastkit.Base.Table.{find, update_where, count_where}
use fastkit.Base.Text.{Text, text_eq}
use fastkit.Dates.{add_time, before, DateTime, minutes}
use fastkit.Delivery.Evidence.{abandoned_after, max_attempts}
pub mod Claims
pub mod Handling
pub mod Once
pub mod Retrying
pub mod Kept
mod Tests

pub data WebhookEventStatus : Type 0 where
  received processing completed ignored failed : WebhookEventStatus

-- The `error_code` that the queue itself writes, and the class of an exception, by a number.
pub data EventError : Type 0 where
  abandoned unread unresolved : EventError
  exception : ℕ → EventError

pub record WebhookEvent : Type 0 where
  pub id : ℕ
  pub tenant_id : Option ℕ
  pub integration_id : ℕ
  pub external_event_id : Text
  pub payload_hash : Text
  pub status : WebhookEventStatus
  pub error_code : Option EventError
  pub attempts : ℕ
  pub updated_at : DateTime

pub record Queue : Type 0 where
  pub events : List WebhookEvent
  pub serial : ℕ

abbrev pub is_waiting : WebhookEventStatus → Bool
is_waiting received = true
is_waiting failed = true
is_waiting _ = false

abbrev pub is_being_read : WebhookEventStatus → Bool
is_being_read processing = true
is_being_read _ = false

-- `updated_at < now() - ABANDONED_AFTER`
abbrev pub left_alone : DateTime → WebhookEvent → Bool
left_alone now r = before (add_time abandoned_after r.updated_at) now

unfoldable pub takeable_event : DateTime → WebhookEvent → Bool
takeable_event now r = is_waiting r.status || (is_being_read r.status && left_alone now r)

abbrev pub is_claimable : DateTime → ℕ → WebhookEvent → Bool
is_claimable now id r = r.id == id && takeable_event now r

abbrev pub taken_event : DateTime → WebhookEvent → WebhookEvent
taken_event now r = record r { status = processing; attempts = suc r.attempts; updated_at = now }

-- `claim`
unfoldable pub claim_event : DateTime → ℕ → Queue → Bool × Queue
claim_event now id q = (
  count_where (is_claimable now id) q.events == 1,
  record q { events = update_where (is_claimable now id) (taken_event now) q.events },
)

-- `fail`, of the row that `run` had read
abbrev pub failed_event : DateTime → ℕ → WebhookEvent → WebhookEvent
failed_event now error r = record r {
  status = failed;
  error_code = some (exception error);
  updated_at = now;
}

unfoldable pub fail_event : DateTime → ℕ → ℕ → Queue → Queue
fail_event now id error q = record q {
  events = update_where (λ r. r.id == id) (failed_event now error) q.events;
}

abbrev pub has_failed : WebhookEventStatus → Bool
has_failed failed = true
has_failed _ = false

abbrev pub was_received : WebhookEventStatus → Bool
was_received received = true
was_received _ = false

-- What `retry_failed` selects: a notice that failed, or one that nobody has touched for thirty
-- minutes, while it has attempts left.
unfoldable pub is_stuck : DateTime → WebhookEvent → Bool
is_stuck now r =
    (has_failed r.status || ((was_received r.status || is_being_read r.status) && left_alone now r))
    && ltb r.attempts max_attempts

abbrev pub is_spent : DateTime → WebhookEvent → Bool
is_spent now r = is_being_read r.status && (left_alone now r && leb max_attempts r.attempts)

abbrev pub abandon_event : DateTime → WebhookEvent → WebhookEvent
abandon_event now r = record r { status = failed; error_code = some abandoned; updated_at = now }

-- `close_exhausted`
unfoldable pub close_exhausted_events : DateTime → Queue → ℕ × Queue
close_exhausted_events now q = (
  count_where (is_spent now) q.events,
  record q { events = update_where (is_spent now) (abandon_event now) q.events },
)

-- The length of the column `external_event_id`.
abbrev pub id_length : ℕ
id_length = 191

-- The name of a notice: its own where the column can hold it, and otherwise the digest.
unfoldable pub event_name : Text → Text → Text
event_name own digest = if ltb 0 (length own) && leb (length own) id_length then own else digest

abbrev pub is_event : ℕ → Text → WebhookEvent → Bool
is_event integration name r = r.integration_id == integration && text_eq r.external_event_id name

-- `store`
unfoldable pub store_event : WebhookEvent → Queue → WebhookEvent × Queue
store_event r q = elim (find (is_event r.integration_id r.external_event_id) q.events) [
  | some settled ↦ (settled, q)
  | none ↦ (r, record q { events = r ∷ q.events; serial = suc q.serial })
]

abbrev pub fresh_event :
    DateTime
    → Option ℕ
    → ℕ
    → Text
    → Text
    → WebhookEventStatus
    → Option EventError
    → ℕ
    → WebhookEvent
fresh_event now tenant integration name digest status error id = record {
  id = id;
  tenant_id = tenant;
  integration_id = integration;
  external_event_id = name;
  payload_hash = digest;
  status = status;
  error_code = error;
  attempts = 0;
  updated_at = now;
}

-- `record_of`
unfoldable pub record_of : DateTime → Option ℕ → ℕ → Text → Text → Queue → WebhookEvent × Queue
unfolding event_name
record_of now tenant integration own digest q =
    elim (find (is_event integration (event_name own digest)) q.events) [
      | some existing ↦ (existing, q)
      | none ↦
          store_event
            (fresh_event now tenant integration (event_name own digest) digest received none
              q.serial)
            q
    ]

-- `unread`
unfoldable pub write_unread : DateTime → Option ℕ → ℕ → Text → Queue → WebhookEvent × Queue
write_unread now tenant integration digest q =
    store_event (fresh_event now tenant integration digest digest ignored (some unread) q.serial) q
